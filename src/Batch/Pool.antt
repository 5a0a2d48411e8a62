-- ===== src/Batch/Pool.antt =====
-- The pool of draw entries, `ObjectPool` of packages/renderer/src/pool.ts. An object is a place in a
-- store, and the factory makes the object of the next place. The free objects stand with the one
-- that was released last at the front.
use agentic_rpgmaker.Base.{ℕ, suc, ◌-◌, List, [], ◌∷◌, if◌then◌else◌, ◌==◌, length, ltb, ℕ_eq}
use agentic_rpgmaker.Base.Dict.{includes, remove_first}

pub record Pool (A : Type 0) : Type 0 where
  pub free : List ℕ
  pub max_free : ℕ
  pub used_count : ℕ
  pub next : ℕ
  pub objects : ℕ → A

module _ {A : Type 0} (made : A) (reset : A → A) where
  -- The constructor; `maxFree` is 1024 unless it is given.
  abbrev pub make_pool : ℕ → Pool A
  make_pool max_free = record {
    free = [];
    max_free = max_free;
    used_count = 0;
    next = 0;
    objects = λ p. made;
  }

  abbrev pub taken : List ℕ → Pool A → Pool A × ℕ
  taken [] p = (
    record p {
      used_count = suc p.used_count;
      next = suc p.next;
      objects = λ q. if p.next == q then made else p.objects q;
    },
    p.next,
  )
  taken (item ∷ items) p = (record p { used_count = suc p.used_count; free = items }, item)

  unfoldable pub acquire : Pool A → Pool A × ℕ
  acquire p = taken p.free p

  unfoldable pub release : ℕ → Pool A → Pool A
  release item p = record p {
    objects = λ q. if item == q then reset (p.objects q) else p.objects q;
    used_count = p.used_count - 1;
    free = if ltb (length p.free) p.max_free then item ∷ p.free else p.free;
  }

  unfoldable pub clear : Pool A → Pool A
  clear p = record p { free = []; used_count = 0 }

  -- The pool, and the objects that were acquired and are not released since.
  pub record Client : Type 0 where
    pub pool : Pool A
    pub held : List ℕ

  pub data PoolCall : Type 0 where
    acquire_one clear_all : PoolCall
    release_one : (item : ℕ) → PoolCall
    write_one : (item : ℕ) → A → PoolCall

  abbrev pub held_after : Pool A × ℕ → List ℕ → Client
  held_after (p, item) held = record { pool = p; held = item ∷ held }

  -- A client releases and changes only what it holds.
  unfoldable pub step : PoolCall → Client → Client
  unfolding acquire release clear
  step acquire_one c = held_after (acquire c.pool) c.held
  step clear_all c = record c { pool = clear c.pool }
  step (release_one item) c =
      if includes item c.held
      then record { pool = release item c.pool; held = remove_first item c.held }
      else c
  step (write_one item a) c =
      if includes item c.held
      then record c {
        pool = record c.pool { objects = λ q. if item == q then a else c.pool.objects q };
      }
      else c

  unfoldable pub run : List PoolCall → Client → Client
  unfolding step
  run [] c = c
  run (call ∷ calls) c = run calls (step call c)
