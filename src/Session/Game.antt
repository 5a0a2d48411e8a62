-- ===== src/Session/Game.antt =====
-- The game handle, packages/runtime/src/game.ts. A scene is its place in the list of those that were
-- built, the first one by `createGame`. A promise that is awaited is pending until it is answered, in
-- any order; the storage is written at once.
use agentic_rpgmaker.Base.{
  ℕ, zero, suc, Bool, true, false, Option, none, some, List, [], ◌∷◌, ◌++◌, String, if◌then◌else◌,
  ◌==◌, length, get_elem?, ℤ, is_some, String_eq,
}
use agentic_rpgmaker.Behavior.{Direction, Vec2}
use agentic_rpgmaker.Entity.{Transform, make_transform}
use agentic_rpgmaker.State.{GameState}
use agentic_rpgmaker.Schema.{MapData}
use agentic_rpgmaker.Thrown.{Outcome, ok, thrown}
use agentic_rpgmaker.Scene.{Scene, from_map}
use agentic_rpgmaker.GameLoop.{GameLoop}
use agentic_rpgmaker.GameLoop
use agentic_rpgmaker.MapScene.Saves.{SaveData, save, load_save}
use agentic_rpgmaker.Session.Manager.{SceneManager, change, update_scene, render_scene, clear}

-- What the game asks of a `MapScene`: its map, and where its player is.
pub record PlayScene : Type 0 where
  pub map_id : String
  pub player : Option Transform

pub record TransferEvent : Type 0 where
  pub map_id : String
  pub x : Option ℤ
  pub y : Option ℤ
  pub direction : Option Direction

-- What is awaited: the map of a transfer, the save of `continue`, its map, the save of a scene's `load`.
pub data Pending : Type 0 where
  transfer_map : TransferEvent → Pending
  continue_save : Pending
  continue_map : SaveData → Pending
  scene_save : (scene : ℕ) → Pending

pub data Answer : Type 0 where
  failed storage_read : Answer
  map_loaded : MapData → Answer

-- `has_loader` is `options.loadMap !== undefined`, `has_frames` is `hasAnimationFrame()`.
pub record Game : Type 0 where
  pub has_loader : Bool
  pub has_frames : Bool
  pub player_sprite : Option String
  pub graphs : Scene
  pub loop : GameLoop
  pub manager : SceneManager
  pub scenes : List PlayScene
  pub state : GameState
  pub storage : Option SaveData
  pub running : Bool
  pub current_scene : ℕ
  pub current_map_id : String
  pub transfer_in_flight : Bool
  pub network_closed : Bool
  pub pending : List Pending

abbrev pub first_scene : ℕ
first_scene = 0

abbrev pub set_scene : List PlayScene → ℕ → PlayScene → List PlayScene
set_scene [] i s = []
set_scene (x ∷ xs) zero s = s ∷ xs
set_scene (x ∷ xs) (suc i) s = x ∷ set_scene xs i s

-- `start`
unfoldable pub start : Game → Game
unfolding change GameLoop.start
start g =
    if g.running
    then g
    else (let m = if is_some g.manager.current then g.manager else change first_scene g.manager in
        record g {
          manager = m;
          running = true;
          loop = if g.has_frames then GameLoop.start g.loop else g.loop;
        })

-- `stop`
unfoldable pub stop : Game → Game
unfolding GameLoop.stop
stop g = record g { loop = GameLoop.stop g.loop; running = false }

-- `tick`
unfoldable pub tick : (dt alpha : ℕ) → Game → Game
unfolding update_scene render_scene
tick dt alpha g = record g { manager = render_scene alpha (update_scene dt g.manager) }

-- `dispose`
unfoldable pub dispose : Game → Game
unfolding GameLoop.stop clear
dispose g = record g {
  loop = GameLoop.stop g.loop;
  running = false;
  manager = clear g.manager;
  network_closed = true;
}

-- `scene.save()`, for a scene that was built
unfoldable pub save_scene : String → Option PlayScene → Game → Game
unfolding save
save_scene now none g = g
save_scene now (some s) g = record g { storage = (save s.map_id now s.player g.state g.storage).0 }

-- `save`
unfoldable pub save_game : String → Game → Game
unfolding save_scene
save_game now g = save_scene now (get_elem? g.scenes g.current_scene) g

-- `load`
unfoldable pub load_game : Game → Game
load_game g = record g { pending = g.pending ++ scene_save g.current_scene ∷ [] }

-- `handleTransfer`
unfoldable pub handle_transfer : TransferEvent → Game → Game
handle_transfer event g =
    if g.has_loader
    then if g.transfer_in_flight
      then g
      else record g { transfer_in_flight = true; pending = g.pending ++ transfer_map event ∷ [] }
    else g

-- `continue`
unfoldable pub continue_game : Game → Game
continue_game g = record g { pending = g.pending ++ continue_save ∷ [] }

abbrev pub both : Option ℤ → Option ℤ → Option Vec2
both (some x) (some y) = some (record { x = x; y = y })
both _ _ = none

abbrev pub x_of : Option Vec2 → Option ℤ
x_of none = none
x_of (some p) = some p.x

abbrev pub y_of : Option Vec2 → Option ℤ
y_of none = none
y_of (some p) = some p.y

-- The graph of a scene that is built, and whether `fromMap` returned.
unfoldable pub built : MapData → Option Vec2 → Option Direction → Game → Scene × Outcome (Unit {0})
unfolding from_map
built map position direction g =
    from_map map
      (record {
        player_position = position;
        player_direction = direction;
        player_sprite = g.player_sprite;
        event_layer = none;
      })
      g.graphs

-- The scene becomes the one that is played.
unfoldable pub switch_to : PlayScene → Scene × Outcome (Unit {0}) → Game → Game × Bool
unfolding change
switch_to s (graphs, thrown e) g = (record g { graphs = graphs }, false)
switch_to s (graphs, ok u) g = (
  record g {
    graphs = graphs;
    scenes = g.scenes ++ s ∷ [];
    current_scene = length g.scenes;
    current_map_id = s.map_id;
    manager = change (length g.scenes) g.manager;
  },
  true,
)

-- `buildNextScene`, and what transfers and `continue` do with the scene
unfoldable pub enter_next : MapData → Option Vec2 → Option Direction → Game → Game × Bool
unfolding built switch_to
enter_next map position direction g =
    switch_to
      (record {
        map_id = map.id;
        player = some (make_transform (x_of position) (y_of position) direction);
      })
      (built map position direction g) g

unfoldable pub finish_transfer : String → Game × Bool → Game
unfolding save_game
finish_transfer now (g, entered) = record (if entered then save_game now g else g) {
  transfer_in_flight = false;
}

unfoldable pub finish_continue : Game × Bool → Game
unfolding load_game
finish_continue (g, true) = load_game g
finish_continue (g, false) = g

unfoldable pub continue_with : Option SaveData → Game → Game
unfolding load_game
continue_with none g = g
continue_with (some saved) g =
    if saved.map_id == g.current_map_id
    then load_game g
    else if g.has_loader
    then record g { pending = g.pending ++ continue_map saved ∷ [] }
    else g

unfoldable pub load_into : ℕ → Option PlayScene → Game → Game
unfolding load_save
load_into i none g = g
load_into i (some s) g =
    let (p, done) = load_save s.map_id g.storage (record { player = s.player; state = g.state }) in
    record g { state = p.state; scenes = set_scene g.scenes i (record s { player = p.player }) }

-- What follows the answer to an awaited promise.
unfoldable pub resolve : String → Pending → Answer → Game → Game
unfolding enter_next finish_transfer finish_continue continue_with load_into
resolve now (transfer_map event) (map_loaded map) g =
    finish_transfer now (enter_next map (both event.x event.y) event.direction g)
resolve now (transfer_map event) failed g = record g { transfer_in_flight = false }
resolve now (transfer_map event) storage_read g = record g { transfer_in_flight = false }
resolve now continue_save storage_read g = continue_with g.storage g
resolve now continue_save failed g = g
resolve now continue_save (map_loaded map) g = g
resolve now (continue_map saved) (map_loaded map) g =
    finish_continue
      (enter_next map (some (record { x = saved.x; y = saved.y })) (some saved.direction) g)
resolve now (continue_map saved) failed g = g
resolve now (continue_map saved) storage_read g = g
resolve now (scene_save scene) storage_read g = load_into scene (get_elem? g.scenes scene) g
resolve now (scene_save scene) failed g = g
resolve now (scene_save scene) (map_loaded map) g = g

-- What happens to a game: calls of its methods, transfers on its bus, play that moves the player
-- and changes the state, and the answer to the promise at a place of `pending`.
pub data GameCall : Type 0 where
  start_it stop_it dispose_it load_it continue_it : GameCall
  tick_it : (dt alpha : ℕ) → GameCall
  save_it : (now : String) → GameCall
  transfer_it : TransferEvent → GameCall
  play : Transform → GameState → GameCall
  answer : (now : String) → (place : ℕ) → Answer → GameCall

abbrev pub moved : Transform → Option PlayScene → ℕ → List PlayScene → List PlayScene
moved t none i scenes = scenes
moved t (some s) i scenes = set_scene scenes i (record s { player = some t })

abbrev pub remove_at : ℕ → List Pending → List Pending
remove_at i [] = []
remove_at zero (p ∷ ps) = ps
remove_at (suc i) (p ∷ ps) = p ∷ remove_at i ps

unfoldable pub answered : String → ℕ → Option Pending → Answer → Game → Game
unfolding resolve
answered now i none a g = g
answered now i (some p) a g = resolve now p a (record g { pending = remove_at i g.pending })

unfoldable pub step : GameCall → Game → Game
unfolding start stop tick dispose save_game load_game handle_transfer continue_game answered
step start_it g = start g
step stop_it g = stop g
step dispose_it g = dispose g
step load_it g = load_game g
step continue_it g = continue_game g
step (tick_it dt alpha) g = tick dt alpha g
step (save_it now) g = save_game now g
step (transfer_it event) g = handle_transfer event g
step (play t s) g = record g {
  state = s;
  scenes = moved t (get_elem? g.scenes g.current_scene) g.current_scene g.scenes;
}
step (answer now i a) g = answered now i (get_elem? g.pending i) a g

unfoldable pub run : List GameCall → Game → Game
unfolding step
run [] g = g
run (c ∷ cs) g = run cs (step c g)
