-- ===== src/Interpreter.antt =====
-- The event interpreter, packages/core/src/interpreter/interpreter.ts: which page of an event is
-- active, and the run of its commands, with the cache of built commands.
pub mod Select
pub mod Cache
mod Tests
use agentic_rpgmaker.Base.{
  ℕ, ◌≡◌, Bool, true, false, not, Option, none, some, List, [], ◌∷◌, String, if◌then◌else◌, ◌==◌, ℤ,
  ltb_ℤ, leb_ℤ, eqb_ℤ, or_else, ℕ_eq,
}
use agentic_rpgmaker.Base.Dict.{Dict, get, insert}
use agentic_rpgmaker.Thrown.{Error, Outcome, ok, thrown, Throws}
use agentic_rpgmaker.Schema.{
  EventCommand, ConditionOp, eq, ne, gt, gte, lt, lte, Condition, always, switch, variable,
  EventPage, MapEvent,
}
use agentic_rpgmaker.State.{GameEvent, GameState, get_variable, get_switch}
use agentic_rpgmaker.Scene.{Scene}
use agentic_rpgmaker.Command.{Context, GameEffect, Command, execute_all}
use agentic_rpgmaker.Command.Registry.{Registry, Factory, build, register, ◌>>=◌}

-- `===` on Booleans
abbrev bool_eq : Bool → Bool → Bool
bool_eq true b = b
bool_eq false b = not b

abbrev compare_values : ConditionOp → ℤ → ℤ → Bool
compare_values eq current value = eqb_ℤ current value
compare_values ne current value = not (eqb_ℤ current value)
compare_values gt current value = ltb_ℤ value current
compare_values gte current value = leb_ℤ value current
compare_values lt current value = ltb_ℤ current value
compare_values lte current value = leb_ℤ current value

unfoldable pub evaluate_condition : Condition → GameState → Bool
unfolding get_switch get_variable
evaluate_condition always s = true
evaluate_condition (switch id value) s = bool_eq (get_switch id s) value
evaluate_condition (variable id op value) s = compare_values op (get_variable id s) value

-- An interpreter with what it shares: the state, the bus (as in `Context`) and the scene. The cache
-- keeps the built commands of a page under the identity of the page.
pub record Interpreter : Type 0 where
  pub state : GameState
  pub bus : List GameEvent
  pub scene : Scene
  pub registry : Registry
  pub command_cache : Dict ℕ (List Command)

pub record Interpretation : Type 0 where
  pub ran : Bool
  pub page : Option EventPage
  pub effects : List GameEffect

abbrev pub clear_command_cache : Interpreter → Interpreter
clear_command_cache i = record i { command_cache = [] }

-- `registry.register(…)`, on the registry that the interpreter was given.
unfoldable pub register_late : String → Factory → Interpreter → Interpreter
unfolding register
register_late cmd factory i = record i { registry = register cmd factory i.registry }

unfoldable pub select_page : List EventPage → GameState → Option EventPage
unfolding evaluate_condition
select_page [] s = none
select_page (page ∷ pages) s =
    let rest = select_page pages s in
    if evaluate_condition page.condition s then some page else rest

-- `page.commands.map((line) => this.registry.build(line))`
unfoldable pub build_all : Registry → List EventCommand → Outcome (List Command)
unfolding build
build_all r [] = ok []
build_all r (command ∷ commands) = do k ← build r command; ks ← build_all r commands; ok (k ∷ ks)

abbrev result : EventPage → Context × Outcome (Unit {0}) → Outcome Interpretation
result page (c, ok _) = ok (record { ran = true; page = some page; effects = c.effects })
result page (c, thrown e) = thrown e

-- `composite.execute(context)`, and what the call returns.
unfoldable pub run_page : String → EventPage → List Command → Throws Interpreter Interpretation
unfolding execute_all
run_page actor page commands i =
    let r =
      execute_all actor commands
        (record { state = i.state; bus = i.bus; scene = i.scene; effects = [] }) in
    (record i { state = r.0.state; bus = r.0.bus; scene = r.0.scene }, result page r)

abbrev pub build_and_run :
    String → EventPage → Outcome (List Command) → Throws Interpreter Interpretation
build_and_run actor page (thrown e) i = (i, thrown e)
build_and_run actor page (ok commands) i =
    run_page actor page commands
      (record i { command_cache = insert page.place commands i.command_cache })

abbrev pub run_cached :
    String → EventPage → Option (List Command) → Throws Interpreter Interpretation
run_cached actor page none i = build_and_run actor page (build_all i.registry page.commands) i
run_cached actor page (some commands) i = run_page actor page commands i

abbrev pub run_selected : String → Option EventPage → Throws Interpreter Interpretation
run_selected actor none i = (i, ok (record { ran = false; page = none; effects = [] }))
run_selected actor (some page) i = run_cached actor page (get page.place i.command_cache) i

-- `runEvent`, with the option `actorId`.
unfoldable pub run_event : MapEvent → Option String → Throws Interpreter Interpretation
unfolding run_page select_page build_all get insert
run_event event actor_id i =
    run_selected (or_else actor_id event.id) (select_page event.pages i.state) i
