-- ===== src/Command/Registry.antt =====
-- The catalog of commands, `CommandRegistry` of packages/core/src/interpreter/commands.ts, with the
-- factories of the built-in commands.
use agentic_rpgmaker.Base.{
  ℕ, Bool, true, false, not, Option, none, some, List, [], ◌∷◌, String, if◌then◌else◌, ◌==◌, ℤ, pos,
  or_else, get_elem?, drop, length, ltb, String_eq, ℤ_eq,
}
use agentic_rpgmaker.Base.Dict.{Dict, get, insert}
use agentic_rpgmaker.Thrown.{
  unknown_command, bad_operation, few_options, not_a_number, not_a_string, Outcome, ok, thrown,
}
use agentic_rpgmaker.Behavior.{Direction, up, down, left, right}
use agentic_rpgmaker.Schema.{
  Value, text, number, not_finite, boolean, null, undefined, other, EventCommand,
}
use agentic_rpgmaker.State.{VariableOp, set, add}
use agentic_rpgmaker.Command.{
  Command, show_text, set_variable_command, set_switch_command, play_sound, walk_command,
  move_command, transfer_command, show_choices,
}

infixl 5 ◌>>=◌
abbrev pub ◌>>=◌ : {A B : Type 0} → Outcome A → (A → Outcome B) → Outcome B
ok a >>= f = f a
thrown e >>= f = thrown e

-- `command.args[i]`
abbrev pub arg : List Value → ℕ → Value
arg args i = or_else (get_elem? args i) undefined

abbrev pub as_number : String → Value → Outcome ℤ
as_number what (number n) = ok n
as_number what _ = thrown (not_a_number what)

abbrev pub as_string : String → Value → Outcome String
as_string what (text s) = ok s
as_string what _ = thrown (not_a_string what)

-- `Boolean(…)`
abbrev pub truthy : Value → Bool
truthy (text s) = not (s == "")
truthy (number n) = not (n == pos 0)
truthy (not_finite is_nan) = not is_nan
truthy (boolean b) = b
truthy null = false
truthy undefined = false
truthy other = true

-- `typeof … === "number" ? … : undefined`
abbrev pub number_or_undefined : Value → Value
number_or_undefined (number n) = number n
number_or_undefined (not_finite is_nan) = not_finite is_nan
number_or_undefined _ = undefined

-- `typeof … === "string" ? … : undefined`
abbrev pub string_or_none : Value → Option String
string_or_none (text s) = some s
string_or_none _ = none

-- `op !== "set" && op !== "add"`
abbrev pub operation : Value → Outcome VariableOp
operation (text s) =
    if s == "set" then ok set else if s == "add" then ok add else thrown bad_operation
operation _ = thrown bad_operation

abbrev direction_named : String → Option Direction
direction_named s =
    if s == "up"
    then some up
    else if s == "down"
    then some down
    else if s == "left"
    then some left
    else if s == "right"
    then some right
    else none

abbrev pub direction_or_none : Value → Option Direction
direction_or_none (text s) = direction_named s
direction_or_none _ = none

-- `command.args.slice(1).map(…)`
abbrev pub as_strings : String → List Value → Outcome (List String)
as_strings what [] = ok []
as_strings what (v ∷ vs) = do s ← as_string what v; rest ← as_strings what vs; ok (s ∷ rest)

abbrev pub Factory : Type 0
Factory = EventCommand → Outcome Command

unfoldable pub build_show_text : Factory
build_show_text command = do line ← as_string "showText" (arg command.args 0); ok (show_text line)

unfoldable pub build_set_variable : Factory
build_set_variable command = do
  name ← as_string "setVariable" (arg command.args 0)
  op ← operation (arg command.args 1)
  value ← as_number "setVariable" (arg command.args 2)
  ok (set_variable_command name op value)

unfoldable pub build_set_switch : Factory
build_set_switch command = do
  name ← as_string "setSwitch" (arg command.args 0)
  ok (set_switch_command name (truthy (arg command.args 1)))

unfoldable pub build_play_sound : Factory
build_play_sound command = do ref ← as_string "playSound" (arg command.args 0); ok (play_sound ref)

unfoldable pub build_walk : Factory
build_walk command = do
  dx ← as_number "walk" (arg command.args 0)
  dy ← as_number "walk" (arg command.args 1)
  ok (walk_command dx dy)

unfoldable pub build_move : Factory
build_move command = do
  dx ← as_number "move" (arg command.args 0)
  dy ← as_number "move" (arg command.args 1)
  ok (move_command dx dy (string_or_none (arg command.args 2)))

unfoldable pub build_transfer : Factory
build_transfer command = do
  map_id ← as_string "transfer" (arg command.args 0)
  ok (
      transfer_command map_id (number_or_undefined (arg command.args 1))
        (number_or_undefined (arg command.args 2)) (direction_or_none (arg command.args 3)))

unfoldable pub build_show_choices : Factory
build_show_choices command = do
  name ← as_string "showChoices" (arg command.args 0)
  options ← as_strings "showChoices" (drop 1 command.args)
  if ltb (length options) 2
      then thrown (few_options (length options))
      else ok (show_choices name options)

abbrev pub Registry : Type 0
Registry = Dict String Factory

unfoldable pub built_in_factories : Registry
unfolding build_show_text build_set_variable build_set_switch build_play_sound build_walk build_move
    build_transfer build_show_choices
built_in_factories =
    ("showText", build_show_text)
    ∷ ("setVariable", build_set_variable)
    ∷ ("setSwitch", build_set_switch)
    ∷ ("playSound", build_play_sound)
    ∷ ("walk", build_walk)
    ∷ ("move", build_move)
    ∷ ("transfer", build_transfer)
    ∷ ("showChoices", build_show_choices)
    ∷ []

-- The loop of the constructor.
unfoldable pub make_registry : List (String × Factory) → Registry → Registry
unfolding insert
make_registry [] r = r
make_registry ((name, factory) ∷ entries) r = make_registry entries (insert name factory r)

unfoldable pub default_command_registry : Registry
unfolding make_registry built_in_factories
default_command_registry = make_registry built_in_factories []

unfoldable pub register : String → Factory → Registry → Registry
unfolding insert
register cmd factory r = insert cmd factory r

abbrev use_factory : EventCommand → Option Factory → Outcome Command
use_factory command none = thrown (unknown_command command.cmd)
use_factory command (some factory) = factory command

unfoldable pub build : Registry → EventCommand → Outcome Command
unfolding get
build r command = use_factory command (get command.cmd r)

unfoldable pub command_from_schema : EventCommand → Outcome Command
unfolding build default_command_registry
command_from_schema command = build default_command_registry command
