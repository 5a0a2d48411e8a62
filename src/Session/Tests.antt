-- ===== src/Session/Tests.antt =====
-- A game in a town whose door leads to a cave, and the theorems at it.
use agentic_rpgmaker.Base.{
  ◌≡◌, refl, true, false, none, some, List, [], ◌∷◌, String, whole, length, inl, String_eq,
}
use agentic_rpgmaker.Base.Dict.{insert, get, includes}
use agentic_rpgmaker.Behavior.{left}
use agentic_rpgmaker.Entity.{make_object, behavior, make_transform}
use agentic_rpgmaker.State.{make_state, empty_snapshot}
use agentic_rpgmaker.Schema.{MapData}
use agentic_rpgmaker.Thrown.{ok}
use agentic_rpgmaker.Scene.{Scene, from_map, new_scene, place_player, build_player, add_entity}
use agentic_rpgmaker.Session.Manager.{enter, exit, make_manager}
use agentic_rpgmaker.Session.Pending.{IsGame}
use agentic_rpgmaker.Session.Game.{
  Game, TransferEvent, first_scene, GameCall, start_it, dispose_it, transfer_it, continue_it,
  answer, map_loaded, storage_read, transfer_map, built, both, step, run,
}
use agentic_rpgmaker.Session.Laws.{run-IsGame}
use agentic_rpgmaker.Session.Replay.{replay, change_to, clear_it, update_by, run-IsReplayed}
use agentic_rpgmaker.Session.Replay
use agentic_rpgmaker.Session.Disposal.{dispose_enters}

running : Unit {0}
unfolding run from_map new_scene place_player build_player add_entity insert get includes
running = tt

run-IsReplayed_example :
    replay none
      (Replay.run (change_to 0 ∷ update_by 16 ∷ change_to 1 ∷ clear_it ∷ []) make_manager).calls
    ≡ some
        (Replay.run (change_to 0 ∷ update_by 16 ∷ change_to 1 ∷ clear_it ∷ []) make_manager).current
run-IsReplayed_example = run-IsReplayed (change_to 0 ∷ update_by 16 ∷ change_to 1 ∷ clear_it ∷ [])

abbrev no_graphs : Scene
no_graphs = record {
  root = 0;
  by_id = [];
  heap = record {
    next_object = 0;
    objects = λ e. make_object "" none none none;
    next_component = 0;
    components = λ c. record { owner = none; payload = behavior none };
  };
}

-- A map with nothing on it.
abbrev plain_map : String → MapData
plain_map id = record {
  id = id;
  name = id;
  tile_size = 16;
  width = 4;
  height = 4;
  tileset = "tiles";
  layers = [];
  events = [];
  variables = [];
  switches = [];
}

town_game : Game
unfolding make_state
town_game = record {
  has_loader = true;
  has_frames = true;
  player_sprite = none;
  graphs = no_graphs;
  loop = record {
    fixed_dt = 16;
    max_frame_dt = 250;
    last_time = none;
    accumulator = 0;
    running = false;
    calls = [];
  };
  manager = make_manager;
  scenes = record { map_id = "town"; player = some (make_transform none none none) } ∷ [];
  state = make_state empty_snapshot none;
  storage = none;
  running = false;
  current_scene = first_scene;
  current_map_id = "town";
  transfer_in_flight = false;
  network_closed = false;
  pending = [];
}

town_game-IsGame : IsGame town_game
unfolding town_game
town_game-IsGame = record {
  shows = record { shown = inl (refl, refl); named = refl };
  flight = refl;
}

abbrev to_cave : TransferEvent
to_cave = record { map_id = "cave"; x = some (whole 2); y = some (whole 1); direction = some left }

-- Starting, going to the cave, and being asked for it again on the way.
abbrev journey : List GameCall
journey =
    start_it
    ∷ transfer_it to_cave
    ∷ transfer_it to_cave
    ∷ answer "now" 0 (map_loaded (plain_map "cave"))
    ∷ continue_it
    ∷ answer "now" 0 storage_read
    ∷ []

run-IsGame_example : IsGame (run journey town_game)
run-IsGame_example =
    run-IsGame journey town_game (refl, (refl, (refl, (refl, (refl, (refl, tt)))))) town_game-IsGame

cave_builds :
    (built (plain_map "cave") (both (some (whole 2)) (some (whole 1))) (some left) town_game).1
    ≡ ok tt
unfolding built town_game running
cave_builds = refl

leaving : Game
unfolding town_game
leaving = record town_game { transfer_in_flight = true; pending = transfer_map to_cave ∷ [] }

dispose_enters_example :
    ((step
        (answer "now" 0 (map_loaded (plain_map "cave")))
        (step dispose_it leaving)).manager.current
      ≡ some (length leaving.scenes))
    × ((step start_it (step dispose_it leaving)).manager.current ≡ some first_scene)
    × ((step start_it (step dispose_it leaving)).current_scene ≡ leaving.current_scene)
unfolding leaving
dispose_enters_example =
    dispose_enters leaving "now" 0 to_cave (plain_map "cave") refl (unfold built in cave_builds)

journey_runs :
    ((run journey town_game).current_scene ≡ 1)
    × ((run journey town_game).current_map_id ≡ "cave")
    × ((run journey town_game).manager.calls ≡ enter 0 ∷ exit 0 ∷ enter 1 ∷ [])
unfolding running town_game
journey_runs = (refl, refl, refl)
