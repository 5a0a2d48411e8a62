-- ===== src/Command/Tests.antt =====
-- Lines and pages of commands, and the theorems about commands at them.
use agentic_rpgmaker.Base.{◌≡◌, refl, none, some, List, [], ◌∷◌, pos, whole, String_eq}
use agentic_rpgmaker.Thrown.{thrown, few_options, not_a_number, no_entity, unknown_command}
use agentic_rpgmaker.Schema.{text, number}
use agentic_rpgmaker.State.{add, make_state, empty_snapshot}
use agentic_rpgmaker.Entity.{make_object, behavior}
use agentic_rpgmaker.Command.{
  Context, Command, show_text, set_variable_command, walk_command, play_sound, execute_all,
}
use agentic_rpgmaker.Command.Registry.{command_from_schema}
use agentic_rpgmaker.Command.Effects.{Announces, execute_all-Announces}

refused_lines :
    (command_from_schema (record { cmd = "showChoices"; args = text "answer" ∷ text "yes" ∷ [] })
      ≡ thrown (few_options 1))
    × (command_from_schema (record { cmd = "walk"; args = number (whole 1) ∷ [] })
        ≡ thrown (not_a_number "walk"))
    × (command_from_schema (record { cmd = "dance"; args = [] }) ≡ thrown (unknown_command "dance"))
unfolding command_from_schema
refused_lines = (refl, refl, refl)

-- A context whose scene has no entity: a walk throws.
context : Context
unfolding make_state
context = record {
  state = make_state empty_snapshot (some []);
  bus = [];
  scene = record {
    root = 0;
    by_id = [];
    heap = record {
      next_object = 0;
      objects = λ e. make_object "" none none none;
      next_component = 0;
      components = λ c. record { owner = none; payload = behavior none };
    };
  };
  effects = [];
}

abbrev page : List Command
page =
    set_variable_command "gold" add (whole 2)
    ∷ show_text "Hello"
    ∷ walk_command (whole 1) (pos 0)
    ∷ play_sound "step"
    ∷ []

execute_all-Announces_example : Announces context (execute_all "guide" page context).0
execute_all-Announces_example =
    execute_all-Announces "guide" page (tt, (tt, (tt, (tt, tt)))) context

page_throws : (execute_all "guide" page context).1 ≡ thrown (no_entity "player")
unfolding context execute_all
page_throws = refl
