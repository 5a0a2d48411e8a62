-- ===== src/Interpreter/Tests.antt =====
-- An event with two pages, and the theorems about the interpreter at it.
use agentic_rpgmaker.Base.{
  ℕ, zero, suc, ◌≡◌, refl, true, none, some, List, [], ◌∷◌, pos, arith, ℕ_eq, String_eq,
}
use agentic_rpgmaker.Base.Dict.{get}
use agentic_rpgmaker.Thrown.{ok}
use agentic_rpgmaker.Schema.{EventCommand, EventPage, MapEvent, text, always, switch}
use agentic_rpgmaker.State.{make_state, empty_snapshot}
use agentic_rpgmaker.Entity.{make_object, behavior}
use agentic_rpgmaker.Command.{said, show_text}
use agentic_rpgmaker.Command.Registry.{Factory, default_command_registry}
use agentic_rpgmaker.Interpreter.{Interpreter, clear_command_cache, register_late, run_event}
use agentic_rpgmaker.Interpreter.Cache.{IsCurrent, AgreesWith, run_event-agrees}

abbrev opened : EventPage
opened = record {
  place = 0;
  condition = switch "door" true;
  commands = record { cmd = "showText"; args = text "It is open." ∷ [] } ∷ [];
}

abbrev closed : EventPage
closed = record {
  place = 1;
  condition = always;
  commands = record { cmd = "showText"; args = text "It is shut." ∷ [] } ∷ [];
}

abbrev door : MapEvent
door = record {
  id = "door";
  name = "Door";
  x = pos 0;
  y = pos 0;
  sprite = none;
  behavior = none;
  pages = opened ∷ closed ∷ [];
}

abbrev content : ℕ → List EventCommand
content zero = opened.commands
content (suc n) = closed.commands

interpreter : Interpreter
unfolding make_state default_command_registry
interpreter = record {
  state = make_state empty_snapshot none;
  bus = [];
  scene = record {
    root = 0;
    by_id = [];
    heap = record {
      next_object = 0;
      objects = λ e. make_object "" none none none;
      next_component = 0;
      components = λ c. record { owner = none; payload = behavior none };
    };
  };
  registry = default_command_registry;
  command_cache = [];
}

-- The interpreter after the event has run once.
warm : Interpreter
unfolding run_event
warm = (run_event door none interpreter).0

nothing_cached : IsCurrent content interpreter
unfolding interpreter get
nothing_cached place commands found = ground arith

run_event-agrees_example :
    AgreesWith (run_event door none warm) (run_event door none (clear_command_cache warm))
    × IsCurrent content (run_event door none warm).0
unfolding warm
run_event-agrees_example =
    run_event-agrees content door none (run_event door none interpreter).0 (refl, (refl, tt))
      (run_event-agrees content door none interpreter (refl, (refl, tt)) nothing_cached).1

abbrev shout : Factory
shout command = ok (show_text "Boo!")

door_runs :
    ((run_event door none interpreter).1
      ≡ ok (record {
        ran = true;
        page = some closed;
        effects = said "It is shut." (some "door") ∷ [];
      }))
    × ((run_event door none (clear_command_cache (register_late "showText" shout warm))).1
        ≡ ok (record { ran = true; page = some closed; effects = said "Boo!" (some "door") ∷ [] }))
unfolding warm run_event interpreter register_late
door_runs = (refl, refl)
