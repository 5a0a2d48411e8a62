-- ===== src/Session/Laws.antt =====
-- The scene that is shown, the one that is played and the map that is compared agree.
use agentic_rpgmaker.Base.{
  ℕ, ◌+◌, ◌≡◌, refl, sym, ap, ◌∙◌, Bool, true, false, Option, none, some, List, [], ◌∷◌, String,
  get_elem?, String_eq, arith, All,
}
use agentic_rpgmaker.Behavior.{Direction, Vec2}
use agentic_rpgmaker.Entity.{Transform}
use agentic_rpgmaker.State.{GameState}
use agentic_rpgmaker.Schema.{MapData}
use agentic_rpgmaker.Session.Game.{
  PlayScene, TransferEvent, Pending, transfer_map, continue_save, continue_map, scene_save, Answer,
  failed, storage_read, map_loaded, Game, start, stop, tick, save_scene, save_game, handle_transfer,
  continue_game, both, enter_next, finish_transfer, finish_continue, resolve, GameCall, start_it,
  stop_it, dispose_it, load_it, continue_it, tick_it, save_it, transfer_it, play, answer, moved,
  remove_at, answered, step, run,
}
use agentic_rpgmaker.Session.Pending.{
  IsShown, IsGame, transfers-append, transfers-remove, map_of-set, start-IsShown,
  enter_next-IsShown, enter_next_pending, finish_transfer_lem, IsAwait, awaited, unchanged,
  load_game-IsAwait, finish_continue-IsAwait, continue_with-IsAwait, load_into-IsAwait, transfers,
  map_of, flag,
}

-- What is answered is no longer awaited; its transfer, if it is one, is still in flight.
record IsAnswered (p : Pending) (g h : Game) : Type 0 where
  shows : IsShown g → IsShown h
  flight :
      transfers g.pending + transfers (p ∷ []) ≡ flag g.transfer_in_flight
      → transfers h.pending ≡ flag h.transfer_in_flight

await-IsAnswered :
    (p : Pending) (g h : Game) → transfers (p ∷ []) ≡ 0 → IsAwait g h → IsAnswered p g h
await-IsAnswered p g h other w = record {
  shows = w.shows;
  flight = λ e. w.count_kept ∙ omega arith ∙ e ∙ ap flag (sym w.flag_kept);
}

none_left : (n : ℕ) (b : Bool) → n + 1 ≡ flag b → n ≡ 0
none_left n true e = omega arith
none_left n false e = omega arith

finish_transfer-IsAnswered :
    (now : String) (event : TransferEvent) (map : MapData) (position : Option Vec2)
    (direction : Option Direction) (g : Game)
    → IsAnswered (transfer_map event) g (finish_transfer now (enter_next map position direction g))
finish_transfer-IsAnswered now event map position direction g =
    let entered = enter_next map position direction g in
    let same = enter_next_pending map position direction g in
    let done = finish_transfer_lem now entered.0 entered.1 in
    record {
      shows = λ v. done.0 (enter_next-IsShown map position direction g v);
      flight = λ e.
          ap transfers (done.1 ∙ same.0)
          ∙ none_left (transfers g.pending) g.transfer_in_flight e
          ∙ sym (ap flag done.2);
    }

failed_transfer-IsAnswered :
    (event : TransferEvent) (g : Game)
    → IsAnswered (transfer_map event) g (record g { transfer_in_flight = false })
failed_transfer-IsAnswered event g = record {
  shows = λ v. record { shown = v.shown; named = v.named };
  flight = none_left (transfers g.pending) g.transfer_in_flight;
}

continued-IsAwait :
    (map : MapData) (position : Option Vec2) (direction : Option Direction) (g : Game)
    → IsAwait g (finish_continue (enter_next map position direction g))
continued-IsAwait map position direction g =
    let next = enter_next map position direction g in
    let same = enter_next_pending map position direction g in
    let done = finish_continue-IsAwait next.0 next.1 in
    record {
      shows = λ v. done.shows (enter_next-IsShown map position direction g v);
      flag_kept = done.flag_kept ∙ same.1;
      count_kept = done.count_kept ∙ ap transfers same.0;
    }

resolve-IsAnswered :
    (now : String) (p : Pending) (a : Answer) (g : Game) → IsAnswered p g (resolve now p a g)
unfolding resolve
resolve-IsAnswered now (transfer_map event) (map_loaded map) g =
    finish_transfer-IsAnswered now event map (both event.x event.y) event.direction g
resolve-IsAnswered now (transfer_map event) failed g = failed_transfer-IsAnswered event g
resolve-IsAnswered now (transfer_map event) storage_read g = failed_transfer-IsAnswered event g
resolve-IsAnswered now continue_save storage_read g =
    await-IsAnswered continue_save g _ refl (continue_with-IsAwait g.storage g)
resolve-IsAnswered now continue_save failed g = await-IsAnswered _ g g refl (unchanged g)
resolve-IsAnswered now continue_save (map_loaded map) g = await-IsAnswered _ g g refl (unchanged g)
resolve-IsAnswered now (continue_map saved) (map_loaded map) g =
    await-IsAnswered (continue_map saved) g _ refl
      (continued-IsAwait map (some (record { x = saved.x; y = saved.y })) (some saved.direction) g)
resolve-IsAnswered now (continue_map saved) failed g = await-IsAnswered _ g g refl (unchanged g)
resolve-IsAnswered now (continue_map saved) storage_read g =
    await-IsAnswered _ g g refl (unchanged g)
resolve-IsAnswered now (scene_save scene) storage_read g =
    await-IsAnswered (scene_save scene) g _ refl
      (load_into-IsAwait scene (get_elem? g.scenes scene) g refl)
resolve-IsAnswered now (scene_save scene) failed g = await-IsAnswered _ g g refl (unchanged g)
resolve-IsAnswered now (scene_save scene) (map_loaded map) g =
    await-IsAnswered _ g g refl (unchanged g)

answered-IsGame :
    (now : String) (i : ℕ) (o : Option Pending) (a : Answer) (g : Game)
    → get_elem? g.pending i ≡ o
    → IsGame g
    → IsGame (answered now i o a g)
unfolding answered
answered-IsGame now i none a g there v = v
answered-IsGame now i (some p) a g there v =
    let w = resolve-IsAnswered now p a (record g { pending = remove_at i g.pending }) in
    record {
      shows = w.shows (record { shown = v.shows.shown; named = v.shows.named });
      flight = w.flight (transfers-remove g.pending i p there ∙ v.flight);
    }

await-IsGame : (g h : Game) → IsAwait g h → IsGame g → IsGame h
await-IsGame g h w v = record {
  shows = w.shows v.shows;
  flight = w.count_kept ∙ v.flight ∙ ap flag (sym w.flag_kept);
}

save_game-IsAwait : (now : String) (g : Game) → IsAwait g (save_game now g)
unfolding save_game save_scene
save_game-IsAwait now g = saved (get_elem? g.scenes g.current_scene)
  where
    saved : (o : Option PlayScene) → IsAwait g (save_scene now o g)
    saved none = unchanged g
    saved (some s) = record {
      shows = λ v. record { shown = v.shown; named = v.named };
      flag_kept = refl;
      count_kept = refl;
    }

moved-IsShown :
    (t : Transform) (s : GameState) (o : Option PlayScene) (g : Game)
    → get_elem? g.scenes g.current_scene ≡ o
    → IsShown g
    → IsShown (record g { state = s; scenes = moved t o g.current_scene g.scenes })
moved-IsShown t s none g there v = record { shown = v.shown; named = v.named }
moved-IsShown t s (some x) g there v = record {
  shown = v.shown;
  named =
      map_of-set g.scenes g.current_scene g.current_scene (record x { player = some t })
        (ap map_of there)
      ∙ v.named;
}

handle_transfer_flight :
    (event : TransferEvent) (g : Game) → IsGame g → IsGame (handle_transfer event g)
unfolding handle_transfer
handle_transfer_flight event g v =
    let shown = v.shows in
    record {
      shows = record { shown = ground arith; named = ground arith };
      flight = ground (arith, v.flight, transfers-append g.pending (transfer_map event));
    }

start-IsAwait : (g : Game) → IsAwait g (start g)
unfolding start
start-IsAwait g = record {
  shows = start-IsShown g;
  flag_kept = ground arith;
  count_kept = ground arith;
}

continue_game-IsAwait : (g : Game) → IsAwait g (continue_game g)
unfolding continue_game
continue_game-IsAwait g = awaited continue_save g refl

-- The game is not disposed of.
abbrev pub is_alive : GameCall → Bool
is_alive dispose_it = false
is_alive _ = true

step-IsGame : (c : GameCall) (g : Game) → is_alive c ≡ true → IsGame g → IsGame (step c g)
unfolding step stop tick
step-IsGame start_it g alive v = await-IsGame g _ (start-IsAwait g) v
step-IsGame stop_it g alive v = record {
  shows = record { shown = v.shows.shown; named = v.shows.named };
  flight = v.flight;
}
step-IsGame dispose_it g alive v = cc
step-IsGame load_it g alive v = await-IsGame g _ (load_game-IsAwait g) v
step-IsGame continue_it g alive v = await-IsGame g _ (continue_game-IsAwait g) v
step-IsGame (tick_it dt alpha) g alive v = record {
  shows = record { shown = v.shows.shown; named = v.shows.named };
  flight = v.flight;
}
step-IsGame (save_it now) g alive v = await-IsGame g _ (save_game-IsAwait now g) v
step-IsGame (transfer_it event) g alive v = handle_transfer_flight event g v
step-IsGame (play t s) g alive v = record {
  shows = moved-IsShown t s (get_elem? g.scenes g.current_scene) g refl v.shows;
  flight = v.flight;
}
step-IsGame (answer now i a) g alive v = answered-IsGame now i (get_elem? g.pending i) a g refl v

-- Until it is disposed of, whatever is called, played, transferred and answered, in any order: the
-- manager shows the scene that `save` and `load` act on, or none before the first; the map that
-- saves are compared with is the map of that scene; and a transfer is in flight exactly while one map
-- is awaited for it.
pub run-IsGame :
    (cs : List GameCall) (g : Game) → All (λ c. is_alive c ≡ true) cs → IsGame g → IsGame (run cs g)
unfolding run
run-IsGame [] g alive v = v
run-IsGame (c ∷ cs) g alive v = run-IsGame cs (step c g) alive.1 (step-IsGame c g alive.0 v)
