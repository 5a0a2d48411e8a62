-- ===== src/GameLoop/Tests.antt =====
-- A frame of a loop, and the theorem about frames at it.
use agentic_rpgmaker.Base.{ℕ, ◌≡◌, refl, true, none, some, ◌⊎◌, [], ◌∷◌, arith}
use agentic_rpgmaker.GameLoop.{GameLoop, update, render, tick, stop}
use agentic_rpgmaker.GameLoop.Steps.{HasStepped, tick_steps}

abbrev loop : GameLoop
loop = record {
  fixed_dt = 50;
  max_frame_dt = 750;
  last_time = some 1000;
  accumulator = 20;
  running = true;
  calls = [];
}

tick_steps_example :
    ((loop.last_time ≡ none) × (tick 1090 loop ≡ some (record loop { last_time = some 1090 })))
    ⊎ ((last : ℕ) × (loop.last_time ≡ some last) × HasStepped 1090 last loop)
tick_steps_example = tick_steps 1090 loop (omega arith) refl

frames :
    (tick 1090 loop
      ≡ some (record loop {
        last_time = some 1090;
        accumulator = 10;
        calls = update 50 ∷ update 50 ∷ render 10 50 ∷ [];
      }))
    × (tick 1000 loop ≡ some (record loop { calls = render 20 50 ∷ [] }))
    × (tick 900 (stop loop) ≡ some (stop loop))
unfolding tick stop
frames = (refl, refl, refl)
