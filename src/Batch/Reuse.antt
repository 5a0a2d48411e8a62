-- ===== src/Batch/Reuse.antt =====
-- What the pool hands out.
use agentic_rpgmaker.Base.{
  ℕ, suc, ◌+◌, ◌≤◌, ◌<◌, ◌≡◌, refl, true, List, [], ◌∷◌, if◌then◌else◌, ◌==◌, length, ℕ_eq,
  nat_eq_iff, arith, Bool-cases, inl, inr,
}
use agentic_rpgmaker.Base.Dict.{includes, remove_first, count, count-remove_first, includes-count}
use agentic_rpgmaker.Batch.Pool.{
  make_pool, taken, acquire, release, clear, Client, PoolCall, acquire_one, clear_all, release_one,
  write_one, held_after, step, run,
}

length-remove_first :
    (k : ℕ) (m : List ℕ) → includes k m ≡ true → suc (length (remove_first k m)) ≡ length m
unfolding includes remove_first
length-remove_first k [] found = cc
length-remove_first k (j ∷ m) found = ground (arith, length-remove_first k m)

module _ {A : Type 0} (made : A) (reset : A → A) where
  -- What every run keeps.
  pub record IsPool (c : Client made reset) : Type 0 where
    -- an object is free once, or held once, or neither
    pub once : (q : ℕ) → count q c.pool.free + count q c.held ≤ 1
    -- the objects to come are new
    pub fresh : (q : ℕ) → c.pool.next ≤ q → count q c.pool.free + count q c.held ≡ 0
    pub bounded : length c.pool.free ≤ c.pool.max_free
    pub counted : c.pool.used_count ≤ length c.held
    -- a free object is as `reset` left it
    pub clean : (q : ℕ) → 0 < count q c.pool.free → (a : A) × (c.pool.objects q ≡ reset a)

  acquired-IsPool :
      (free : List ℕ) (c : Client made reset)
      → c.pool.free ≡ free
      → IsPool c
      → IsPool (held_after made reset (taken made reset free c.pool) c.held)
  unfolding count
  acquired-IsPool [] c is_free v = record {
    once = λ q. ground (arith, v.once q, v.fresh q, nat_eq_iff c.pool.next q);
    fresh = λ q le. ground (arith, v.fresh q, nat_eq_iff c.pool.next q);
    bounded = v.bounded;
    counted = omega (arith, v.counted);
    clean = λ q has. elim (Bool-cases (c.pool.next == q)) [
      | inl new ↦ absurd (ground (arith, v.fresh q, nat_eq_iff c.pool.next q))
      | inr old ↦ rw old (v.clean q has)
    ];
  }
  acquired-IsPool (item ∷ items) c is_free v = record {
    once = λ q. ground (arith, v.once q, is_free);
    fresh = λ q le. ground (arith, v.fresh q, is_free);
    bounded = ground (arith, v.bounded, is_free);
    counted = omega (arith, v.counted);
    clean = λ q has. v.clean q (ground (arith, is_free));
  }

  released-IsPool :
      (item : ℕ) (c : Client made reset)
      → includes item c.held ≡ true
      → IsPool c
      → IsPool (record { pool = release made reset item c.pool; held = remove_first item c.held })
  unfolding release count
  released-IsPool item c is_held v = record {
    once = λ q. ground (
      arith,
      v.once q,
      count-remove_first item q c.held,
      includes-count item c.held,
      nat_eq_iff item q,
    );
    fresh = λ q le. ground (
      arith,
      v.fresh q,
      count-remove_first item q c.held,
      includes-count item c.held,
      nat_eq_iff item q,
    );
    bounded = ground (arith, v.bounded);
    counted = ground (arith, v.counted, length-remove_first item c.held is_held);
    clean = λ q has. elim (Bool-cases (item == q)) [
      | inl same ↦ rw same (c.pool.objects q, refl)
      | inr other ↦ rw other (v.clean q (ground (arith, nat_eq_iff item q)))
    ];
  }

  written-IsPool :
      (item : ℕ) (a : A) (c : Client made reset)
      → includes item c.held ≡ true
      → IsPool c
      → IsPool (record c {
        pool = record c.pool { objects = λ q. if item == q then a else c.pool.objects q };
      })
  written-IsPool item a c is_held v = record {
    once = v.once;
    fresh = v.fresh;
    bounded = v.bounded;
    counted = v.counted;
    clean = λ q has. elim (Bool-cases (item == q)) [
      | inl same ↦
          absurd (ground (arith, v.once q, includes-count item c.held, nat_eq_iff item q, is_held))
      | inr other ↦ rw other (v.clean q has)
    ];
  }

  step-IsPool :
      (call : PoolCall made reset) (c : Client made reset)
      → IsPool c
      → IsPool (step made reset call c)
  unfolding step acquire clear count
  step-IsPool acquire_one c v = acquired-IsPool c.pool.free c refl v
  step-IsPool clear_all c v = record {
    once = λ q. omega (arith, v.once q);
    fresh = λ q le. omega (arith, v.fresh q le);
    bounded = omega arith;
    counted = omega arith;
    clean = λ q has. absurd (omega arith);
  }
  step-IsPool (release_one item) c v = elim (Bool-cases (includes item c.held)) [
    | inl is_held ↦ rw is_held (released-IsPool item c is_held v)
    | inr is_not ↦ rw is_not v
  ]
  step-IsPool (write_one item a) c v = elim (Bool-cases (includes item c.held)) [
    | inl is_held ↦ rw is_held (written-IsPool item a c is_held v)
    | inr is_not ↦ rw is_not v
  ]

  runs-IsPool :
      (calls : List (PoolCall made reset)) (c : Client made reset)
      → IsPool c
      → IsPool (run made reset calls c)
  unfolding run
  runs-IsPool [] c v = v
  runs-IsPool (call ∷ calls) c v = runs-IsPool calls (step made reset call c) (step-IsPool call c v)

  -- Whatever a client does that releases and changes only what it holds: no object is free and held
  -- at once, twice free or twice held, an object to come is neither, the pool keeps at most
  -- `maxFree` free objects and counts no more as used than are held, and a free object is as `reset`
  -- left it.
  pub run-IsPool :
      (max_free : ℕ) (calls : List (PoolCall made reset))
      → IsPool (run made reset calls (record { pool = make_pool made reset max_free; held = [] }))
  unfolding count
  run-IsPool max_free calls =
      runs-IsPool calls (record { pool = make_pool made reset max_free; held = [] })
        (record {
          once = λ q. omega arith;
          fresh = λ q le. refl;
          bounded = omega arith;
          counted = omega arith;
          clean = λ q has. absurd (omega arith);
        })
