-- ===== src/State.antt =====
-- Variables and switches, packages/core/src/interpreter/game-state.ts, with the gameplay events of
-- packages/core/src/events/game-events.ts. The bus is the log of what was emitted on it.
pub mod Laws
pub mod Log
mod Tests
use agentic_rpgmaker.Base.{
  ◌≡◌, Bool, true, false, Option, none, some, List, [], ◌∷◌, ◌++◌, String, if◌then◌else◌, ℤ, pos,
  ◌+ℤ◌, or_else, String_eq,
}
use agentic_rpgmaker.Base.Dict.{Dict, get, insert}
use agentic_rpgmaker.Behavior.{Direction, Vec2}
use agentic_rpgmaker.Schema.{Value}

-- `op: "set" | "add"`
pub data VariableOp : Type 0 where
  set add : VariableOp

-- An event with the payload of its type; a field that may be missing is an option, and a number
-- that was not checked to be finite stays a value.
pub data GameEvent : Type 0 where
  walk : (entity_id : String) (from to : Vec2) → GameEvent
  collide : (entity_id other_id : String) (blocked : Bool) → GameEvent
  dialogue : (text : String) (speaker_id : Option String) → GameEvent
  switch_changed : (name : String) (value previous : Bool) → GameEvent
  variable_changed : (name : String) (value : ℤ) (op : VariableOp) (previous : ℤ) → GameEvent
  sound : (ref : String) → GameEvent
  transfer : (map_id : String) (x y : Value) (direction : Option Direction) → GameEvent
  choice : (variable : String) (options : List String) → GameEvent

pub record GameStateSnapshot : Type 0 where
  pub variables : Dict String ℤ
  pub switches : Dict String Bool

abbrev pub empty_snapshot : GameStateSnapshot
empty_snapshot = record { variables = []; switches = [] }

-- The bus of a state, if it has one, is kept as the events that were emitted on it.
pub record GameState : Type 0 where
  pub variables : Dict String ℤ
  pub switches : Dict String Bool
  pub bus : Option (List GameEvent)

-- `this.bus?.emit(…)`
abbrev pub emit : GameEvent → Option (List GameEvent) → Option (List GameEvent)
emit event none = none
emit event (some log) = some (log ++ event ∷ [])

unfoldable pub get_variable : String → GameState → ℤ
unfolding get
get_variable name s = or_else (get name s.variables) (pos 0)

unfoldable pub set_variable : String → ℤ → GameState → GameState
unfolding insert get_variable
set_variable name value s = record s {
  variables = insert name value s.variables;
  bus = emit (variable_changed name value set (get_variable name s)) s.bus;
}

unfoldable pub add_variable : String → ℤ → GameState → GameState
unfolding insert get_variable
add_variable name delta s =
    let previous = get_variable name s in
    let value = previous +ℤ delta in
    record s {
      variables = insert name value s.variables;
      bus = emit (variable_changed name value add previous) s.bus;
    }

unfoldable pub get_switch : String → GameState → Bool
unfolding get
get_switch name s = or_else (get name s.switches) false

unfoldable pub set_switch : String → Bool → GameState → GameState
unfolding insert get_switch
set_switch name value s = record s {
  switches = insert name value s.switches;
  bus = emit (switch_changed name value (get_switch name s)) s.bus;
}

-- One `set` for each entry: the loops of `load`, and `Object.fromEntries`. A JavaScript object
-- moves keys that read as indices to the front, which only reorders the entries.
unfoldable pub set_all : {A : Type 0} → Dict String A → Dict String A → Dict String A
unfolding insert
set_all [] m = m
set_all ((name, value) ∷ entries) m = set_all entries (insert name value m)

unfoldable pub snapshot : GameState → GameStateSnapshot
unfolding set_all
snapshot s = record { variables = set_all s.variables []; switches = set_all s.switches [] }

unfoldable pub load : GameStateSnapshot → GameState → GameState
unfolding set_all
load p s = record s { variables = set_all p.variables []; switches = set_all p.switches [] }

-- The constructor.
unfoldable pub make_state : GameStateSnapshot → Option (List GameEvent) → GameState
unfolding load
make_state p bus = load p (record { variables = []; switches = []; bus = bus })
