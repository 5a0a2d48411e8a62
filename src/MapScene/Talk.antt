-- ===== src/MapScene/Talk.antt =====
-- The dialogue and the interaction of a map scene, packages/runtime/src/map-scene.ts: what the scene
-- hears on the bus, `handleConfirm`, `handleCancel`, `tryInteract`, and the `update` that they belong
-- to. The handlers of the scene change only what it shows, which no command reads, so that what a call
-- emits is heard at the end of the call. The scene has a player, whom `fromMap` makes.
use agentic_rpgmaker.Base.{
  ℕ, Bool, true, false, Option, none, some, List, [], ◌∷◌, ◌++◌, String, pos,
}
use agentic_rpgmaker.Schema.{MapEvent}
use agentic_rpgmaker.State.{
  GameEvent, walk, collide, dialogue, switch_changed, variable_changed, sound, transfer, choice,
}
use agentic_rpgmaker.Entity.{Transform, read_transform, write_transform}
use agentic_rpgmaker.Scene.{Scene, get_entity_by_id, player_entity_id}
use agentic_rpgmaker.Movement.{SolidTileGrid, read_collider}
use agentic_rpgmaker.Interpreter.{Interpreter}
use agentic_rpgmaker.MapScene.{Ground, Walker}
use agentic_rpgmaker.MapScene.Choices.{ChoicePrompt}

pub record DialogueLine : Type 0 where
  pub text : String
  pub speaker_id : Option String

-- What the scene shows.
pub record Talk : Type 0 where
  pub dialogue_queue : List DialogueLine
  pub last_dialogue_speaker_id : Option String
  pub pending_choice : Option ChoicePrompt

abbrev pub speaker_or : Option String → Option String → Option String
speaker_or none last = last
speaker_or (some speaker) last = some speaker

-- The subscriptions of `addBusSubscriptions`; a walk, a collision and a transfer have none.
unfoldable pub hear : GameEvent → Talk → Talk
hear (dialogue text speaker) t = record t {
  dialogue_queue = t.dialogue_queue ++ (record { text = text; speaker_id = speaker }) ∷ [];
  last_dialogue_speaker_id = speaker_or speaker t.last_dialogue_speaker_id;
}
hear (choice variable options) t = record t {
  pending_choice = some (record { variable = variable; options = options; selected = pos 0 });
}
hear (sound ref) t = t
hear (variable_changed name value op previous) t = t
hear (switch_changed name value previous) t = t
hear (walk id from to) t = t
hear (collide id other blocked) t = t
hear (transfer map_id x y direction) t = t

unfoldable pub hear_all : List GameEvent → Talk → Talk
unfolding hear
hear_all [] t = t
hear_all (event ∷ events) t = hear_all events (hear event t)

-- `isDialogueOpen`
abbrev pub is_open : List DialogueLine → Bool
is_open [] = false
is_open (line ∷ lines) = true

-- A map scene that was entered: the interpreter with the state and the scene graph, what the steps
-- of the player change, and what it shows. The place of the player is the one in the scene graph.
pub record Play : Type 0 where
  pub interpreter : Interpreter
  pub walker : Walker
  pub talk : Talk

-- What does not change: the grid, the blockers, the duration of a step, and the events of the map.
pub record Stage : Type 0 where
  pub grid : SolidTileGrid
  pub npc_blockers : List ℕ
  pub step_duration : ℕ
  pub events : List MapEvent

-- What the calls of a state, or of an interpreter, emitted since it was heard last.
abbrev pub emitted_on : List GameEvent → Option (List GameEvent) → List GameEvent
emitted_on bus none = bus
emitted_on bus (some log) = log

abbrev pub heard_on : Option (List GameEvent) → Option (List GameEvent)
heard_on none = none
heard_on (some log) = some []

abbrev pub emitted : Interpreter → List GameEvent
emitted i = emitted_on i.bus i.state.bus

abbrev pub silenced : Interpreter → Interpreter
silenced i = record i { bus = []; state = record i.state { bus = heard_on i.state.bus } }

-- The scene hears what was emitted.
unfoldable pub settle : Play → Play
unfolding hear_all
settle p = record {
  interpreter = silenced p.interpreter;
  walker = record p.walker { bus = p.walker.bus ++ emitted p.interpreter };
  talk = hear_all (emitted p.interpreter) p.talk;
}

unfoldable pub transform_at : Option ℕ → Scene → Option Transform
unfolding read_transform
transform_at none s = none
transform_at (some e) s = read_transform e s.heap

-- `playerTransform`
unfoldable pub player_transform : Scene → Option Transform
unfolding transform_at get_entity_by_id
player_transform s = transform_at (get_entity_by_id player_entity_id s) s

unfoldable pub put_at : Option ℕ → Transform → Scene → Scene
unfolding write_transform
put_at none t s = s
put_at (some e) t s = record s { heap = write_transform e (λ _. t) s.heap }

unfoldable pub ground_at : Stage → Option ℕ → Scene → Ground
unfolding read_collider
ground_at st none s = record {
  grid = st.grid;
  player_collider = none;
  npc_blockers = st.npc_blockers;
  heap = s.heap;
  step_duration = st.step_duration;
}
ground_at st (some e) s = record {
  grid = st.grid;
  player_collider = read_collider e s.heap;
  npc_blockers = st.npc_blockers;
  heap = s.heap;
  step_duration = st.step_duration;
}

unfoldable pub moved_by : Stage → (Ground → Walker → Walker) → Option Transform → Play → Play
unfolding get_entity_by_id put_at ground_at
moved_by st f none p = p
moved_by st f (some t) p =
    let s = p.interpreter.scene in
    let player = get_entity_by_id player_entity_id s in
    let w = f (ground_at st player s) (record p.walker { player_transform = t }) in
    record p {
      walker = w;
      interpreter = record p.interpreter { scene = put_at player w.player_transform s };
    }

-- A step of the walker, on the player in the scene graph.
unfoldable pub move_player : Stage → (Ground → Walker → Walker) → Play → Play
unfolding player_transform moved_by
move_player st f p = moved_by st f (player_transform p.interpreter.scene) p
