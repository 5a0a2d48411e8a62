-- ===== src/Command/Lines.antt =====
-- What lines of a page the built-in commands are read from.
use agentic_rpgmaker.Base.{
  ◌≡◌, refl, Option, none, some, List, [], ◌∷◌, String, map, length, ◌≤◌, arith,
}
use agentic_rpgmaker.Thrown.{ok}
use agentic_rpgmaker.Behavior.{Direction, up, down, left, right}
use agentic_rpgmaker.Schema.{Value, text, number, boolean, undefined, EventCommand}
use agentic_rpgmaker.State.{VariableOp, set, add}
use agentic_rpgmaker.Command.{
  Command, show_text, set_variable_command, set_switch_command, play_sound, walk_command,
  move_command, transfer_command, show_choices, custom,
}
use agentic_rpgmaker.Command.Registry.{number_or_undefined, as_strings, command_from_schema}

abbrev operation_name : VariableOp → String
operation_name set = "set"
operation_name add = "add"

abbrev direction_name : Direction → String
direction_name up = "up"
direction_name down = "down"
direction_name left = "left"
direction_name right = "right"

abbrev optional : {A : Type 0} → (A → Value) → Option A → Value
optional f none = undefined
optional f (some a) = f a

-- The line that an author writes for a command.
abbrev pub line : Command → EventCommand
line (show_text s) = record { cmd = "showText"; args = text s ∷ [] }
line (set_variable_command name op value) = record {
  cmd = "setVariable";
  args = text name ∷ text (operation_name op) ∷ number value ∷ [];
}
line (set_switch_command name value) = record {
  cmd = "setSwitch";
  args = text name ∷ boolean value ∷ [];
}
line (play_sound ref) = record { cmd = "playSound"; args = text ref ∷ [] }
line (walk_command dx dy) = record { cmd = "walk"; args = number dx ∷ number dy ∷ [] }
line (move_command dx dy target_id) = record {
  cmd = "move";
  args = number dx ∷ number dy ∷ optional text target_id ∷ [];
}
line (transfer_command map_id x y direction) = record {
  cmd = "transfer";
  args = text map_id ∷ x ∷ y ∷ optional (λ d. text (direction_name d)) direction ∷ [];
}
line (show_choices name options) = record {
  cmd = "showChoices";
  args = text name ∷ map text options;
}
line (custom execute) = record { cmd = ""; args = [] }

-- A coordinate of a transfer is a number or is missing; a choice has two options or more.
abbrev pub IsWritable : Command → Type 0
IsWritable (transfer_command map_id x y direction) =
    (number_or_undefined x ≡ x) × (number_or_undefined y ≡ y)
IsWritable (show_choices name options) = 2 ≤ length options
IsWritable (custom execute) = ⊥
IsWritable _ = Unit

as_strings-text :
    (what : String) (options : List String) → as_strings what (map text options) ≡ ok options
as_strings-text what [] = refl
as_strings-text what (s ∷ options) = rw (as_strings-text what options) refl

-- Each built-in command is read back from the line that is written for it.
pub command_from_schema-line : (k : Command) → IsWritable k → command_from_schema (line k) ≡ ok k
unfolding command_from_schema
command_from_schema-line (show_text s) w = refl
command_from_schema-line (set_variable_command name set value) w = refl
command_from_schema-line (set_variable_command name add value) w = refl
command_from_schema-line (set_switch_command name value) w = refl
command_from_schema-line (play_sound ref) w = refl
command_from_schema-line (walk_command dx dy) w = refl
command_from_schema-line (move_command dx dy none) w = refl
command_from_schema-line (move_command dx dy (some id)) w = refl
command_from_schema-line (transfer_command map_id x y none) (p, q) = rw (p, q) refl
command_from_schema-line (transfer_command map_id x y (some up)) (p, q) = rw (p, q) refl
command_from_schema-line (transfer_command map_id x y (some down)) (p, q) = rw (p, q) refl
command_from_schema-line (transfer_command map_id x y (some left)) (p, q) = rw (p, q) refl
command_from_schema-line (transfer_command map_id x y (some right)) (p, q) = rw (p, q) refl
command_from_schema-line (show_choices name options) w =
    rw (as_strings-text "showChoices" options) (ground arith)
command_from_schema-line (custom execute) w = absurd w
