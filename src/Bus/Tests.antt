-- ===== src/Bus/Tests.antt =====
-- Runs of the event bus, and the theorems about it at concrete buses.
use agentic_rpgmaker.Base.{
  ℕ, ◌-◌, ◌≡◌, ◌⊎◌, none, some, refl, List, [], ◌∷◌, ◌++◌, String, if◌then◌else◌, ◌==◌, ℕ_eq,
  String_eq,
}
use agentic_rpgmaker.Base.Dict.{get}
use agentic_rpgmaker.Bus.{Bus, empty, on, off, clear, listeners, listener_count, emit}
use agentic_rpgmaker.Bus.Laws.{IsWf, BusCall, subscribe, unsubscribe, run, promises, run_refines}
use agentic_rpgmaker.Bus.Dispatch.{noting, Delivered, emit-Delivered}
use agentic_rpgmaker.Bus.Unsubscribe.{unsubscriber}

running : Unit {0}
unfolding empty on off clear listeners listener_count emit run
running = tt

abbrev calls : List BusCall
calls = subscribe "walk" 1 ∷ subscribe "walk" 2 ∷ subscribe "sound" 1 ∷ subscribe "walk" 3 ∷ []

abbrev history : List BusCall
history = calls ++ subscribe "walk" 2 ∷ unsubscribe "sound" 1 ∷ []

busy : Bus
busy = run calls empty

busy-listeners :
    (listeners "walk" busy ≡ 1 ∷ 2 ∷ 3 ∷ [])
    × (listener_count "sound" busy ≡ 1)
    × (listeners "choice" busy ≡ [])
unfolding running busy
busy-listeners = (refl, refl, refl)

run_refines_example :
    IsWf (run history empty)
    × ((type : String) → listeners type (run history empty) ≡ promises history (λ _. []) type)
run_refines_example = run_refines history

emit-Delivered_example :
    let effect = λ (handler : ℕ). off "walk" (3 - handler) in
    ((get "walk" busy.handlers ≡ none) × (emit (noting effect) "walk" (busy, []) ≡ (busy, [])))
    ⊎ ((p : ℕ) × (get "walk" busy.handlers ≡ some p)
        × Delivered effect p (busy.sets p) busy [] (emit (noting effect) "walk" (busy, [])))
emit-Delivered_example = emit-Delivered (λ handler. off "walk" (3 - handler)) "walk" busy []

emit_runs :
    ((emit (noting (unsubscriber "walk" 1 2)) "walk" (busy, [])).1 ≡ 1 ∷ 3 ∷ [])
    × ((emit (noting (λ x b. if x == 1 then clear b else b)) "walk" (busy, [])).1 ≡ 1 ∷ 2 ∷ 3 ∷ [])
unfolding running busy
emit_runs = (refl, refl)
