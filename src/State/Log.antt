-- ===== src/State/Log.antt =====
-- The events that a state emits tell its whole history.
use agentic_rpgmaker.Base.{
  ◌≡◌, refl, Bool, true, false, some, List, [], ◌∷◌, ◌++◌, String, if◌then◌else◌, ℤ, ◌+ℤ◌, ◌==◌,
  String_eq, eq_iff, ap, ◌∙◌,
}
use mathlib.Core.List.{append_assoc, append-nil}
use agentic_rpgmaker.State.{
  GameState, GameEvent, set, add, variable_changed, switch_changed, emit, get_variable, get_switch,
}
use agentic_rpgmaker.State.Laws.{
  StateCall, set_var, add_var, set_sw, step, run, get_variable-set, get_variable-add,
  get_switch-set,
}

-- `Tells n a log b`: the events for the variable n lead from the value a to b, and each gives
-- the value before it.
abbrev pub Tells : String → ℤ → List GameEvent → ℤ → Type 0
Tells n a [] b = a ≡ b
Tells n a (variable_changed name value op previous ∷ log) b =
    if name == n then ((previous ≡ a) × Tells n value log b) else Tells n a log b
Tells n a (_ ∷ log) b = Tells n a log b

-- The same for the switch n.
abbrev pub TellsSwitch : String → Bool → List GameEvent → Bool → Type 0
TellsSwitch n a [] b = a ≡ b
TellsSwitch n a (switch_changed name value previous ∷ log) b =
    if name == n then ((previous ≡ a) × TellsSwitch n value log b) else TellsSwitch n a log b
TellsSwitch n a (_ ∷ log) b = TellsSwitch n a log b

-- The one event of a call.
unfoldable pub event_of : StateCall → GameState → GameEvent
unfolding get_variable get_switch
event_of (set_var name value) s = variable_changed name value set (get_variable name s)
event_of (add_var name delta) s =
    variable_changed name (get_variable name s +ℤ delta) add (get_variable name s)
event_of (set_sw name value) s = switch_changed name value (get_switch name s)

unfoldable pub events : List StateCall → GameState → List GameEvent
unfolding event_of step
events [] s = []
events (c ∷ cs) s = event_of c s ∷ events cs (step c s)

step_bus : (c : StateCall) (s : GameState) → (step c s).bus ≡ emit (event_of c s) s.bus
unfolding step event_of
step_bus (set_var name value) s = refl
step_bus (add_var name delta) s = refl
step_bus (set_sw name value) s = refl

run_bus :
    (cs : List StateCall) (s : GameState) (log : List GameEvent)
    → s.bus ≡ some log
    → (run cs s).bus ≡ some (log ++ events cs s)
unfolding run events
run_bus [] s log e = rw (e, append-nil log) refl
run_bus (c ∷ cs) s log e =
    run_bus cs (step c s) (log ++ event_of c s ∷ []) (step_bus c s ∙ ap (emit (event_of c s)) e)
    ∙ ap some (append_assoc log (event_of c s ∷ []) (events cs (step c s)))

-- The same test decides what an event tells and what a read gives.
pick :
    {A : Type 0} {P : Type 0} (F : A → Type 0) (q : Bool) (value a : A)
    → (q ≡ true → P)
    → F (if q then value else a)
    → (if q then (P × F value) else F a)
pick F true value a p w = (p refl, w)
pick F false value a p w = w

module _ (n : String) (log : List GameEvent) where
  variable_told :
      (c : StateCall) (s : GameState) (b : ℤ)
      → Tells n (get_variable n (step c s)) log b
      → Tells n (get_variable n s) (event_of c s ∷ log) b
  unfolding step event_of
  variable_told (set_var name value) s b w =
      pick (λ a. Tells n a log b) (name == n) value (get_variable n s)
        (λ e. ap (λ m. get_variable m s) ((eq_iff name n).0 e))
        (rw (← get_variable-set name value s n) w)
  variable_told (add_var name delta) s b w =
      pick (λ a. Tells n a log b) (name == n) (get_variable name s +ℤ delta) (get_variable n s)
        (λ e. ap (λ m. get_variable m s) ((eq_iff name n).0 e))
        (rw (← get_variable-add name delta s n) w)
  variable_told (set_sw name value) s b w = w

  switch_told :
      (c : StateCall) (s : GameState) (b : Bool)
      → TellsSwitch n (get_switch n (step c s)) log b
      → TellsSwitch n (get_switch n s) (event_of c s ∷ log) b
  unfolding step event_of
  switch_told (set_var name value) s b w = w
  switch_told (add_var name delta) s b w = w
  switch_told (set_sw name value) s b w =
      pick (λ a. TellsSwitch n a log b) (name == n) value (get_switch n s)
        (λ e. ap (λ m. get_switch m s) ((eq_iff name n).0 e))
        (rw (← get_switch-set name value s n) w)

variables_told :
    (n : String) (cs : List StateCall) (s : GameState)
    → Tells n (get_variable n s) (events cs s) (get_variable n (run cs s))
unfolding run events
variables_told n [] s = refl
variables_told n (c ∷ cs) s =
    variable_told n (events cs (step c s)) c s (get_variable n (run cs (step c s)))
      (variables_told n cs (step c s))

switches_told :
    (n : String) (cs : List StateCall) (s : GameState)
    → TellsSwitch n (get_switch n s) (events cs s) (get_switch n (run cs s))
unfolding run events
switches_told n [] s = refl
switches_told n (c ∷ cs) s =
    switch_told n (events cs (step c s)) c s (get_switch n (run cs (step c s)))
      (switches_told n cs (step c s))

-- On a state with a bus, calls of `setVariable`, `addVariable` and `setSwitch` append events to
-- what was emitted before that tell the history of each variable and each switch: the first event
-- of a name has for `previous` the value before the calls, each later one the `value` of the one
-- before it, and the value after the calls is the `value` of the last.
pub run-Tells :
    (cs : List StateCall) (s : GameState) (log : List GameEvent)
    → s.bus ≡ some log
    → (new : List GameEvent) × ((run cs s).bus ≡ some (log ++ new))
      × ((n : String) → Tells n (get_variable n s) new (get_variable n (run cs s)))
      × ((n : String) → TellsSwitch n (get_switch n s) new (get_switch n (run cs s)))
run-Tells cs s log e =
    (events cs s, run_bus cs s log e, λ n. variables_told n cs s, λ n. switches_told n cs s)
