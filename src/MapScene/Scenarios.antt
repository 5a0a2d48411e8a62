-- ===== src/MapScene/Scenarios.antt =====
-- A player before a guide, and the theorems about the frame, the dialogue and the interaction there.
use agentic_rpgmaker.Base.{
  ◌≡◌, refl, true, none, some, List, [], ◌∷◌, ◌++◌, String, if◌then◌else◌, pos, whole, from_int,
  ℕ_eq, String_eq,
}
use agentic_rpgmaker.Base.Dict.{get}
use agentic_rpgmaker.Thrown.{ok}
use agentic_rpgmaker.Behavior.{right, Fractions}
use agentic_rpgmaker.Schema.{always, EventPage, MapEvent, MapData}
use agentic_rpgmaker.State.{make_state, empty_snapshot}
use agentic_rpgmaker.Entity.{Transform, make_object, make_transform, behavior, read_transform}
use agentic_rpgmaker.Entity.Tree.{traverse, add_child, adopt}
use agentic_rpgmaker.Scene.{
  Scene, SceneGraphOptions, from_map, place_event, place_player, build_event_entity, build_player,
  player_entity_id, new_scene, create_object, create_component, dress, drive, index, index_nodes,
  subtree, add_entity, get_entity_by_id,
}
use agentic_rpgmaker.Movement.{read_collider, stops_mover, mover_box}
use agentic_rpgmaker.Input.{cleared, queue_confirm}
use agentic_rpgmaker.Command.Registry.{default_command_registry, make_registry, built_in_factories}
use agentic_rpgmaker.Interpreter.{Interpreter, select_page, evaluate_condition}
use agentic_rpgmaker.MapScene.{Walker, target, advance_step}
use agentic_rpgmaker.MapScene.Entry.{Entered, add_body, add_npc_collider, add_npc_colliders}
use agentic_rpgmaker.MapScene.Talk.{DialogueLine, Play, Stage, player_transform, transform_at}
use agentic_rpgmaker.MapScene.Interact.{tail, interact_with, faced_interactable}
use agentic_rpgmaker.MapScene.Frame.{update_scene}
use agentic_rpgmaker.MapScene.Facing.{faced_interactable-stops}
use agentic_rpgmaker.MapScene.Speech.{text_lines, lines_said, interact_with_lem}
use agentic_rpgmaker.MapScene.Answers.{has_confirm, has_cancel}
use agentic_rpgmaker.MapScene.Waiting.{update_scene-waits}

running : Unit {0}
unfolding from_map place_event place_player build_event_entity build_player new_scene create_object
    create_component dress drive index index_nodes subtree traverse add_entity add_child adopt
    add_npc_colliders add_npc_collider add_body get_entity_by_id player_transform transform_at
    make_registry default_command_registry built_in_factories select_page evaluate_condition
running = tt

abbrev greetings : List String
greetings = "Hello." ∷ "Mind the step." ∷ []

abbrev page : EventPage
page = record { place = 0; condition = always; commands = text_lines greetings }

abbrev guide : MapEvent
guide = record {
  id = "guide";
  name = "Guide";
  x = whole 1;
  y = whole 0;
  sprite = some "characters/guide";
  behavior = none;
  pages = page ∷ [];
}

abbrev town : MapData
town = record {
  id = "town";
  name = "Town";
  tile_size = 16;
  width = 3;
  height = 1;
  tileset = "town";
  layers = [];
  events = guide ∷ [];
  variables = [];
  switches = [];
}

abbrev options : SceneGraphOptions
options = record {
  player_position = none;
  player_direction = some right;
  player_sprite = none;
  event_layer = none;
}

abbrev no_scene : Scene
no_scene = record {
  root = 0;
  by_id = [];
  heap = record {
    next_object = 0;
    objects = λ e. make_object "" none none none;
    next_component = 0;
    components = λ c. record { owner = none; payload = behavior none };
  };
}

entered : Entered
unfolding running
entered =
    (add_npc_colliders town.events
      (record { scene = (from_map town options no_scene).0; npc_blockers = [] })).0

-- The guide got a body.
guide_blocks : entered.npc_blockers ≡ 2 ∷ []
unfolding entered
guide_blocks = refl

interpreter : Interpreter
unfolding entered
interpreter = record {
  state = make_state empty_snapshot (some []);
  bus = [];
  scene = entered.scene;
  registry = default_command_registry;
  command_cache = [];
}

player : Transform
player = make_transform none none (some right)

-- A press of confirm waits.
walker : Walker
walker = record {
  player_transform = player;
  step = none;
  repeat_accum = 0;
  last_step_dir = none;
  input = queue_confirm cleared;
  virtual_input = cleared;
  bus = [];
}

silent : Play
unfolding interpreter walker
silent = record {
  interpreter = interpreter;
  walker = walker;
  talk = record { dialogue_queue = []; last_dialogue_speaker_id = none; pending_choice = none };
}

abbrev lines : List DialogueLine
lines = record { text = "Welcome."; speaker_id = none } ∷ []

waiting : Play
unfolding silent
waiting = record silent { talk = record silent.talk { dialogue_queue = lines } }

stage : Stage
unfolding entered
stage = record {
  grid = record { width = 3; height = 1; solid = [] };
  npc_blockers = entered.npc_blockers;
  step_duration = 150;
  events = guide ∷ [];
}

abbrev exact : Fractions
exact = record { times = λ a b. pos 0; hypot = λ a b. pos 0; portion = λ a b c. pos 0 }

update_scene-waits_example :
    let (q, outcome) = update_scene exact stage 16 (2 ∷ []) waiting in
    (outcome ≡ ok tt)
    × (q.interpreter.state ≡ waiting.interpreter.state)
    × (q.walker.step ≡ (advance_step stage.step_duration 16 waiting.walker).step)
    × (q.talk.dialogue_queue ≡ (
        if has_cancel waiting.walker
        then []
        else if has_confirm waiting.walker
        then tail waiting.talk.dialogue_queue
        else waiting.talk.dialogue_queue))
unfolding running waiting silent interpreter entered player get_entity_by_id read_transform get
update_scene-waits_example =
    update_scene-waits exact stage 16 (2 ∷ []) player waiting refl refl refl

interact_with_lem_example :
    ((interact_with (some guide) silent).1 ≡ ok true)
    × ((interact_with (some guide) silent).0.talk.dialogue_queue
        ≡ silent.talk.dialogue_queue ++ lines_said "guide" greetings)
    × ((interact_with (some guide) silent).0.talk.pending_choice ≡ silent.talk.pending_choice)
unfolding running silent interpreter get make_state
interact_with_lem_example =
    interact_with_lem guide page greetings silent refl refl (λ commands built. cc) refl refl

faced_interactable-stops_example : faced_interactable (guide ∷ []) entered.scene ≡ (
    if stops_mover
      (mover_box none (target player.direction player))
      (some player_entity_id)
      entered.scene.heap
      2
    then some guide
    else faced_interactable [] entered.scene)
unfolding running entered player from_int read_transform read_collider get
faced_interactable-stops_example =
    faced_interactable-stops entered.scene guide 2 player
      (make_transform (some (whole 1)) none none) (pos 0) (pos 0) none refl refl refl refl refl refl
      refl refl refl []
