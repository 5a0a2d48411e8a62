-- ===== src/Command.antt =====
-- Event commands, packages/core/src/interpreter/commands.ts: what a command does to the state, the
-- bus and the scene, and the effects that it records.
pub mod Registry
pub mod Lines
pub mod Effects
mod Tests
use agentic_rpgmaker.Base.{ℕ, Bool, Option, none, some, List, [], ◌∷◌, ◌++◌, String, ℤ, or_else}
use agentic_rpgmaker.Thrown.{
  Error, no_entity, no_transform, Outcome, ok, thrown, Throws, return, raise, for_each, ◌>>=◌, ◌>>◌,
}
use agentic_rpgmaker.Behavior.{Direction, Vec2}
use agentic_rpgmaker.Schema.{Value}
use agentic_rpgmaker.State.{
  VariableOp, set, add, GameEvent, walk, dialogue, sound, transfer, choice, GameState, emit,
  get_variable, set_variable, add_variable, set_switch,
}
use agentic_rpgmaker.Entity.{Transform, translate, read_transform, write_transform}
use agentic_rpgmaker.Scene.{Scene, get_entity_by_id, player_entity_id}

-- `GameEffect`
pub data GameEffect : Type 0 where
  walked moved : (entity_id : String) (from to : Vec2) → GameEffect
  said : (text : String) (speaker_id : Option String) → GameEffect
  played : (ref : String) → GameEffect
  variable : (name : String) (op : VariableOp) (value result : ℤ) → GameEffect
  switch : (name : String) (value : Bool) → GameEffect
  transferred : (map_id : String) (x y : Value) (direction : Option Direction) → GameEffect
  asked : (variable : String) (options : List String) → GameEffect

-- The mutable part of `CommandContext`. A state that has a bus shares that of the context; `bus`
-- is what was emitted on the context's bus where the state has none.
pub record Context : Type 0 where
  pub state : GameState
  pub bus : List GameEvent
  pub scene : Scene
  pub effects : List GameEffect

-- `ctx.effects.push(…)`
abbrev pub record_effect : GameEffect → Throws Context (Unit {0})
record_effect effect c = (record c { effects = c.effects ++ effect ∷ [] }, ok tt)

-- `ctx.bus.emit(…)`
abbrev pub publish_on : GameEvent → Context → Option (List GameEvent) → Context
publish_on event c none = record c { bus = c.bus ++ event ∷ [] }
publish_on event c (some log) = record c {
  state = record c.state { bus = some (log ++ event ∷ []) };
}

unfoldable pub publish : GameEvent → Throws Context (Unit {0})
publish event c = (publish_on event c c.state.bus, ok tt)

abbrev pub on_state : (GameState → GameState) → Throws Context (Unit {0})
on_state f c = (record c { state = f c.state }, ok tt)

abbrev pub place_of : Transform → Vec2
place_of t = record { x = t.x; y = t.y }

-- The move itself, once the entity is found and its transform is read.
abbrev pub translate_found : String → ℤ → ℤ → ℕ → Option Transform → Throws Context (Vec2 × Vec2)
translate_found id dx dy e none c = (c, thrown (no_transform id))
translate_found id dx dy e (some t) c = (
  record c { scene = record c.scene { heap = write_transform e (translate dx dy) c.scene.heap } },
  ok (place_of t, place_of (translate dx dy t)),
)

abbrev pub translate_entity_at : String → ℤ → ℤ → Option ℕ → Throws Context (Vec2 × Vec2)
translate_entity_at id dx dy none c = (c, thrown (no_entity id))
translate_entity_at id dx dy (some e) c =
    translate_found id dx dy e (read_transform e c.scene.heap) c

-- `translateEntity`
unfoldable pub translate_entity : String → ℤ → ℤ → Throws Context (Vec2 × Vec2)
unfolding get_entity_by_id read_transform write_transform
translate_entity id dx dy c = translate_entity_at id dx dy (get_entity_by_id id c.scene) c

-- A built command. One that a game registers itself is whatever its `execute` does for an actor.
pub data Command : Type 0 where
  show_text : (text : String) → Command
  set_variable_command : (name : String) (op : VariableOp) (value : ℤ) → Command
  set_switch_command : (name : String) (value : Bool) → Command
  play_sound : (ref : String) → Command
  walk_command : (dx dy : ℤ) → Command
  move_command : (dx dy : ℤ) (target_id : Option String) → Command
  transfer_command : (map_id : String) (x y : Value) (direction : Option Direction) → Command
  show_choices : (variable : String) (options : List String) → Command
  custom : (execute : String → Throws Context (Unit {0})) → Command

abbrev pub assign : String → VariableOp → ℤ → GameState → GameState
assign name set value = set_variable name value
assign name add value = add_variable name value

-- `execute`, for an actor.
unfoldable pub execute : String → Command → Throws Context (Unit {0})
unfolding publish translate_entity get_variable set_variable add_variable set_switch
execute actor (show_text text) = do
  record_effect (said text (some actor))
  publish (dialogue text (some actor))
execute actor (set_variable_command name op value) = do
  on_state (assign name op value)
  λ c. record_effect (variable name op value (get_variable name c.state)) c
execute actor (set_switch_command name value) = do
  on_state (set_switch name value)
  record_effect (switch name value)
execute actor (play_sound ref) = do record_effect (played ref); publish (sound ref)
execute actor (walk_command dx dy) = do
  (from, to) ← translate_entity player_entity_id dx dy
  record_effect (walked player_entity_id from to)
  publish (walk player_entity_id from to)
execute actor (move_command dx dy target_id) = do
  (from, to) ← translate_entity (or_else target_id actor) dx dy
  record_effect (moved (or_else target_id actor) from to)
execute actor (transfer_command map_id x y direction) = do
  record_effect (transferred map_id x y direction)
  publish (transfer map_id x y direction)
execute actor (show_choices name options) = do
  record_effect (asked name options)
  publish (choice name options)
execute actor (custom f) = f actor

-- `CompositeCommand.execute`
unfoldable pub execute_all : String → List Command → Throws Context (Unit {0})
unfolding execute
execute_all actor commands = for_each commands (execute actor)
