-- ===== src/State/Tests.antt =====
-- A history of a state, and the theorems about states at it.
use agentic_rpgmaker.Base.{
  ◌≡◌, refl, true, false, some, List, [], ◌∷◌, ◌++◌, String, pos, whole, ◌+ℤ◌, String_eq,
}
use agentic_rpgmaker.State.{
  GameState, GameEvent, switch_changed, variable_changed, set, add, empty_snapshot, make_state,
  get_variable, get_switch,
}
use agentic_rpgmaker.State.Laws.{StateCall, set_var, add_var, set_sw, run, step}
use agentic_rpgmaker.State.Log.{Tells, TellsSwitch, run-Tells}

fresh : GameState
unfolding make_state
fresh = make_state empty_snapshot (some (switch_changed "door" true false ∷ []))

abbrev history : List StateCall
history = set_var "gold" (whole 5) ∷ set_sw "door" true ∷ add_var "gold" (whole 2) ∷ []

used : GameState
unfolding fresh
used = step (set_var "gold" (whole 5)) fresh

run-Tells_example :
    (new : List GameEvent) × ((run history fresh).bus
      ≡ some ((switch_changed "door" true false ∷ []) ++ new))
    × ((n : String) → Tells n (get_variable n fresh) new (get_variable n (run history fresh)))
    × ((n : String) → TellsSwitch n (get_switch n fresh) new (get_switch n (run history fresh)))
unfolding fresh
run-Tells_example = run-Tells history fresh (switch_changed "door" true false ∷ []) refl

history_events :
    (run history fresh).bus
    ≡ some (
        switch_changed "door" true false
        ∷ variable_changed "gold" (whole 5) set (pos 0)
        ∷ switch_changed "door" true false
        ∷ variable_changed "gold" (whole 7) add (whole 5)
        ∷ [])
unfolding fresh run ◌+ℤ◌
history_events = refl
