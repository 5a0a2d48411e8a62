-- ===== src/Scene/Tests.antt =====
-- Maps that a scene is built from, and the theorem about it at one of them.
use agentic_rpgmaker.Base.{◌≡◌, refl, none, some, List, [], ◌∷◌, String, whole, ℕ_eq, String_eq}
use agentic_rpgmaker.Thrown.{ok, thrown, scene_contains}
use agentic_rpgmaker.Schema.{MapEvent, MapData}
use agentic_rpgmaker.Entity.{make_object, behavior}
use agentic_rpgmaker.Scene.{
  Scene, SceneGraphOptions, from_map, place_event, place_player, build_event_entity, build_player,
  new_scene, create_object, create_component, dress, drive, index, index_nodes, subtree, add_entity,
  size,
}
use agentic_rpgmaker.Entity.Tree.{traverse, add_child, adopt}
use agentic_rpgmaker.Scene.FromMap.{EndsAs, from_map-EndsAs}

running : Unit {0}
unfolding from_map place_event place_player build_event_entity build_player new_scene create_object
    create_component dress drive index index_nodes subtree traverse add_entity add_child adopt
running = tt

event : String → MapEvent
event id = record {
  id = id;
  name = "Event";
  x = whole 3;
  y = whole 4;
  sprite = some "characters/guide";
  behavior = none;
  pages = [];
}

town : List MapEvent → MapData
town events = record {
  id = "town";
  name = "Town";
  tile_size = 16;
  width = 0;
  height = 0;
  tileset = "town";
  layers = [];
  events = events;
  variables = [];
  switches = [];
}

abbrev options : SceneGraphOptions
options = record {
  player_position = none;
  player_direction = none;
  player_sprite = none;
  event_layer = none;
}

abbrev no_scene : Scene
no_scene = record {
  root = 0;
  by_id = [];
  heap = record {
    next_object = 0;
    objects = λ e. make_object "" none none none;
    next_component = 0;
    components = λ c. record { owner = none; payload = behavior none };
  };
}

from_map-EndsAs_example :
    EndsAs
      ("root" ∷ [])
      ("player" ∷ "guide" ∷ "sign" ∷ [])
      (from_map (town (event "guide" ∷ event "sign" ∷ [])) options no_scene)
unfolding town event
from_map-EndsAs_example =
    from_map-EndsAs (town (event "guide" ∷ event "sign" ∷ [])) options no_scene (tt, (tt, tt))

built_runs :
    ((from_map (town (event "guide" ∷ event "sign" ∷ [])) options no_scene).1 ≡ ok tt)
    × (size (from_map (town (event "guide" ∷ event "sign" ∷ [])) options no_scene).0 ≡ 3)
    × ((from_map (town (event "guide" ∷ event "player" ∷ [])) options no_scene).1
        ≡ thrown (scene_contains "player"))
unfolding running town event size
built_runs = (refl, refl, refl)
