-- ===== src/GameLoop.antt =====
-- The fixed-step loop, packages/runtime/src/game-loop.ts. Times are whole numbers of a unit that
-- divides the step and the milliseconds of the clock. The callbacks are the calls that are made.
pub mod Steps
mod Tests
use agentic_rpgmaker.Base.{
  ℕ, zero, suc, ◌+◌, ◌-◌, ◌≡◌, Bool, true, false, Option, none, some, List, [], ◌∷◌, ◌++◌,
  if◌then◌else◌, ltb, leb,
}

-- `render` gets the quotient of the accumulator and the step.
pub data LoopCall : Type 0 where
  update : (dt : ℕ) → LoopCall
  render : (accumulator fixed_dt : ℕ) → LoopCall

pub record GameLoop : Type 0 where
  pub fixed_dt : ℕ
  pub max_frame_dt : ℕ
  pub last_time : Option ℕ
  pub accumulator : ℕ
  pub running : Bool
  pub calls : List LoopCall

unfoldable pub start : GameLoop → GameLoop
start l = if l.running then l else record l { running = true; last_time = none; accumulator = 0 }

unfoldable pub stop : GameLoop → GameLoop
stop l = if l.running then record l { running = false; last_time = none } else l

abbrev pub repeat : ℕ → LoopCall → List LoopCall
repeat zero c = []
repeat (suc n) c = c ∷ repeat n c

-- The time of a frame: none of it is negative, and it is clamped.
abbrev pub frame_dt : ℕ → ℕ → ℕ → ℕ
frame_dt max_frame_dt last now =
    let dt = now - last in if ltb max_frame_dt dt then max_frame_dt else dt

abbrev one_more : Option (ℕ × ℕ) → Option (ℕ × ℕ)
one_more none = none
one_more (some (steps, rest)) = some (suc steps, rest)

-- `while (this.accumulator >= this.fixedDt)`: the number of passes, and the accumulator after them;
-- `none` if the fuel ran out.
unfoldable pub drain : ℕ → ℕ → ℕ → Option (ℕ × ℕ)
drain zero fixed_dt accumulator = if ltb accumulator fixed_dt then some (0, accumulator) else none
drain (suc fuel) fixed_dt accumulator =
    let rest = drain fuel fixed_dt (accumulator - fixed_dt) in
    if ltb accumulator fixed_dt then some (0, accumulator) else one_more rest

abbrev ran : GameLoop → ℕ → Option (ℕ × ℕ) → Option GameLoop
ran l now none = none
ran l now (some (steps, rest)) = some (record l {
  last_time = some now;
  accumulator = rest;
  calls = l.calls ++ (repeat steps (update l.fixed_dt) ++ render rest l.fixed_dt ∷ []);
})

abbrev tick_since : Option ℕ → ℕ → GameLoop → Option GameLoop
tick_since none now l = some (record l { last_time = some now })
tick_since (some last) now l =
    let accumulator = l.accumulator + frame_dt l.max_frame_dt last now in
    ran l now (drain accumulator l.fixed_dt accumulator)

-- `tick`
unfoldable pub tick : ℕ → GameLoop → Option GameLoop
unfolding drain
tick now l = if l.running then tick_since l.last_time now l else some l
