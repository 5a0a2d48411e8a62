-- ===== src/Session/Pending.antt =====
-- What a game awaits, and the steps that only await.
use agentic_rpgmaker.Base.{
  ℕ, zero, suc, ◌+◌, ◌≡◌, ◌⊎◌, inl, inr, refl, ap, ◌∙◌, Bool, true, false, Option, none, some, List,
  [], ◌∷◌, ◌++◌, String, if◌then◌else◌, ◌==◌, length, get_elem?, String_eq, arith, nat_eq_iff,
  Bool-cases, Option-cases,
}
use agentic_rpgmaker.Behavior.{Direction, Vec2}
use agentic_rpgmaker.Schema.{MapData}
use agentic_rpgmaker.Thrown.{Outcome, ok, thrown}
use agentic_rpgmaker.Scene.{Scene}
use agentic_rpgmaker.MapScene.Saves.{SaveData}
use agentic_rpgmaker.Session.Manager.{SceneManager, change}
use agentic_rpgmaker.Session.Game.{
  PlayScene, Pending, transfer_map, continue_save, continue_map, scene_save, Game, first_scene,
  set_scene, start, save_scene, save_game, load_game, built, switch_to, enter_next, finish_transfer,
  finish_continue, continue_with, load_into, remove_at,
}

-- How many maps of transfers are awaited.
abbrev pub transfers : List Pending → ℕ
transfers [] = 0
transfers (transfer_map event ∷ ps) = suc (transfers ps)
transfers (continue_save ∷ ps) = transfers ps
transfers (continue_map saved ∷ ps) = transfers ps
transfers (scene_save scene ∷ ps) = transfers ps

abbrev pub map_of : Option PlayScene → Option String
map_of none = none
map_of (some s) = some s.map_id

-- The manager shows no scene, with the first one to come, or the one that is played, whose map is
-- the one that saves are compared with.
pub record IsShown (g : Game) : Type 0 where
  pub shown :
      ((g.manager.current ≡ none) × (g.current_scene ≡ first_scene))
      ⊎ (g.manager.current ≡ some g.current_scene)
  pub named : map_of (get_elem? g.scenes g.current_scene) ≡ some g.current_map_id

abbrev pub flag : Bool → ℕ
flag b = if b then 1 else 0

-- And a transfer is in flight exactly if one map is awaited for it.
pub record IsGame (g : Game) : Type 0 where
  pub shows : IsShown g
  pub flight : transfers g.pending ≡ flag g.transfer_in_flight

pub transfers-append :
    (ps : List Pending) (p : Pending) → transfers (ps ++ p ∷ []) ≡ transfers ps + transfers (p ∷ [])
transfers-append [] p = omega arith
transfers-append (transfer_map event ∷ ps) p = omega (arith, transfers-append ps p)
transfers-append (continue_save ∷ ps) p = transfers-append ps p
transfers-append (continue_map saved ∷ ps) p = transfers-append ps p
transfers-append (scene_save scene ∷ ps) p = transfers-append ps p

pub transfers-remove :
    (ps : List Pending) (i : ℕ) (p : Pending)
    → get_elem? ps i ≡ some p
    → transfers (remove_at i ps) + transfers (p ∷ []) ≡ transfers ps
transfers-remove [] i p h = cc
transfers-remove (q ∷ ps) zero p h = ground arith
transfers-remove (transfer_map event ∷ ps) (suc i) p h = omega (arith, transfers-remove ps i p h)
transfers-remove (continue_save ∷ ps) (suc i) p h = transfers-remove ps i p h
transfers-remove (continue_map saved ∷ ps) (suc i) p h = transfers-remove ps i p h
transfers-remove (scene_save scene ∷ ps) (suc i) p h = transfers-remove ps i p h

pub get_elem?-last :
    (xs : List PlayScene) (s : PlayScene) → get_elem? (xs ++ s ∷ []) (length xs) ≡ some s
get_elem?-last [] s = refl
get_elem?-last (x ∷ xs) s = get_elem?-last xs s

-- A scene that keeps its map.
pub map_of-set :
    (xs : List PlayScene) (i j : ℕ) (s : PlayScene)
    → map_of (get_elem? xs i) ≡ some s.map_id
    → map_of (get_elem? (set_scene xs i s) j) ≡ map_of (get_elem? xs j)
map_of-set [] i j s h = refl
map_of-set (x ∷ xs) zero zero s h = cc
map_of-set (x ∷ xs) zero (suc j) s h = refl
map_of-set (x ∷ xs) (suc i) zero s h = refl
map_of-set (x ∷ xs) (suc i) (suc j) s h = map_of-set xs i j s h

pub change_current : (next : ℕ) (m : SceneManager) → (change next m).current ≡ some next
unfolding change
change_current next m = elim (Option-cases m.current) [
  | inl nothing ↦ rw nothing refl
  | inr (s, there) ↦ ground (arith, nat_eq_iff s next)
]

pub switch_to-IsShown :
    (s : PlayScene) (r : Scene × Outcome (Unit {0})) (g : Game)
    → IsShown g
    → IsShown (switch_to s r g).0
unfolding switch_to
switch_to-IsShown s (graphs, thrown e) g v = ground arith
switch_to-IsShown s (graphs, ok u) g v = record {
  shown = inr (change_current (length g.scenes) g.manager);
  named = ap map_of (get_elem?-last g.scenes s);
}

pub switch_to_pending :
    (s : PlayScene) (r : Scene × Outcome (Unit {0})) (g : Game)
    → ((switch_to s r g).0.pending ≡ g.pending)
      × ((switch_to s r g).0.transfer_in_flight ≡ g.transfer_in_flight)
unfolding switch_to
switch_to_pending s (graphs, thrown e) g = (refl, refl)
switch_to_pending s (graphs, ok u) g = (refl, refl)

pub save_scene_lem :
    (now : String) (o : Option PlayScene) (g : Game)
    → (IsShown g → IsShown (save_scene now o g)) × ((save_scene now o g).pending ≡ g.pending)
unfolding save_scene
save_scene_lem now none g = (λ v. v, refl)
save_scene_lem now (some s) g = (λ v. record { shown = v.shown; named = v.named }, refl)

pub start-IsShown : (g : Game) → IsShown g → IsShown (start g)
unfolding start change
start-IsShown g v = ground arith

pub enter_next-IsShown :
    (map : MapData) (position : Option Vec2) (direction : Option Direction) (g : Game)
    → IsShown g
    → IsShown (enter_next map position direction g).0
unfolding enter_next
enter_next-IsShown map position direction g v =
    switch_to-IsShown _ (built map position direction g) g v

pub enter_next_pending :
    (map : MapData) (position : Option Vec2) (direction : Option Direction) (g : Game)
    → ((enter_next map position direction g).0.pending ≡ g.pending)
      × ((enter_next map position direction g).0.transfer_in_flight ≡ g.transfer_in_flight)
unfolding enter_next
enter_next_pending map position direction g = switch_to_pending _ (built map position direction g) g

pub finish_transfer_lem :
    (now : String) (g : Game) (entered : Bool)
    → (IsShown g → IsShown (finish_transfer now (g, entered)))
      × ((finish_transfer now (g, entered)).pending ≡ g.pending)
      × ((finish_transfer now (g, entered)).transfer_in_flight ≡ false)
unfolding finish_transfer save_game
finish_transfer_lem now g true =
    let saved = save_scene_lem now (get_elem? g.scenes g.current_scene) g in
    (λ v. let w = saved.0 v in record { shown = w.shown; named = w.named }, saved.1, refl)
finish_transfer_lem now g false = (λ v. record { shown = v.shown; named = v.named }, refl, refl)

-- What a step does that only awaits, and starts no transfer.
pub record IsAwait (g h : Game) : Type 0 where
  pub shows : IsShown g → IsShown h
  pub flag_kept : h.transfer_in_flight ≡ g.transfer_in_flight
  pub count_kept : transfers h.pending ≡ transfers g.pending

pub awaited :
    (p : Pending) (g : Game)
    → transfers (p ∷ []) ≡ 0
    → IsAwait g (record g { pending = g.pending ++ p ∷ [] })
awaited p g other = record {
  shows = λ v. record { shown = v.shown; named = v.named };
  flag_kept = refl;
  count_kept = omega (arith, transfers-append g.pending p);
}

pub unchanged : (g : Game) → IsAwait g g
unchanged g = record { shows = λ v. v; flag_kept = refl; count_kept = refl }

pub load_game-IsAwait : (g : Game) → IsAwait g (load_game g)
unfolding load_game
load_game-IsAwait g = awaited (scene_save g.current_scene) g refl

pub finish_continue-IsAwait : (g : Game) (entered : Bool) → IsAwait g (finish_continue (g, entered))
unfolding finish_continue
finish_continue-IsAwait g true = load_game-IsAwait g
finish_continue-IsAwait g false = unchanged g

pub continue_with-IsAwait : (o : Option SaveData) (g : Game) → IsAwait g (continue_with o g)
unfolding continue_with
continue_with-IsAwait none g = unchanged g
continue_with-IsAwait (some saved) g = elim (Bool-cases (saved.map_id == g.current_map_id)) [
  | inl same ↦ rw same (load_game-IsAwait g)
  | inr other ↦ rw other (asked g.has_loader)
]
  where
    asked :
        (b : Bool)
        → IsAwait g (if b then record g { pending = g.pending ++ continue_map saved ∷ [] } else g)
    asked true = awaited (continue_map saved) g refl
    asked false = unchanged g

pub load_into-IsAwait :
    (i : ℕ) (o : Option PlayScene) (g : Game)
    → get_elem? g.scenes i ≡ o
    → IsAwait g (load_into i o g)
unfolding load_into
load_into-IsAwait i none g there = unchanged g
load_into-IsAwait i (some s) g there = record {
  shows = λ v. record {
    shown = v.shown;
    named = map_of-set g.scenes i g.current_scene _ (ap map_of there) ∙ v.named;
  };
  flag_kept = refl;
  count_kept = refl;
}
