-- ===== src/Input/Tests.antt =====
-- Keys that are pressed and released, and the theorems about input at them.
use agentic_rpgmaker.Base.{◌≡◌, refl, true, false, none, some, List, [], ◌∷◌}
use agentic_rpgmaker.Base.Dict.{includes}
use agentic_rpgmaker.Behavior.{up, down, left}
use agentic_rpgmaker.Input.{Direction_eq, InputCall, key_down, key_up, take_confirm, cleared, run}
use agentic_rpgmaker.Input.Held.{IsHeld, down_since, run-IsHeld}
use agentic_rpgmaker.Input.Presses.{all_takes}

abbrev keys : List InputCall
keys =
    key_down "KeyA" false
    ∷ key_down "ArrowUp" false
    ∷ key_down "Enter" false
    ∷ key_down "Enter" true
    ∷ key_up "KeyA"
    ∷ take_confirm
    ∷ take_confirm
    ∷ []

run-IsHeld_example : IsHeld (down_since keys 0 (λ d. 0)) (run keys cleared).held_direction
run-IsHeld_example = run-IsHeld keys

-- Two directions are down, and the one that went down first is not held.
two_down :
    let t = down_since (key_down "ArrowUp" false ∷ key_down "KeyA" false ∷ []) 0 (λ d. 0) in
    (t up ≡ 1) × (t left ≡ 2) × (t down ≡ 0)
unfolding down_since includes
two_down = (refl, refl, refl)

-- Two keys of one direction: the release of either releases the direction.
keys-run :
    ((run keys cleared).held_direction ≡ some up)
    × (all_takes keys cleared ≡ 1)
    × ((run
          (key_down "KeyA" false ∷ key_down "ArrowLeft" false ∷ key_up "KeyA" ∷ [])
          cleared).held_direction
        ≡ none)
unfolding run all_takes
keys-run = (refl, refl, refl)
