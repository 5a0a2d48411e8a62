-- ===== src/GameLoop/Steps.antt =====
-- The steps of a frame.
use native.Mathlib.Nat.{suc-mul}
use agentic_rpgmaker.Base.{
  ℕ, zero, suc, ◌+◌, ◌-◌, ◌*◌, ◌≡◌, refl, ◌≤◌, ◌<◌, true, none, some, ◌⊎◌, Option-cases, [], ◌∷◌,
  ◌++◌, ltb, arith, inl, inr, Bool-cases,
}
use agentic_rpgmaker.GameLoop.{
  update, render, GameLoop, repeat, frame_dt, drain, tick, ran, tick_since,
}

one_step :
    (steps fixed_dt rest accumulator : ℕ)
    → fixed_dt ≤ accumulator
    → steps * fixed_dt + rest ≡ accumulator - fixed_dt
    → suc steps * fixed_dt + rest ≡ accumulator
one_step steps fixed_dt rest accumulator le total = omega (arith, suc-mul steps fixed_dt)

drain_total :
    (fuel fixed_dt accumulator : ℕ)
    → 0 < fixed_dt
    → accumulator ≤ fuel
    → (steps : ℕ) × (rest : ℕ) × (drain fuel fixed_dt accumulator ≡ some (steps, rest))
      × (rest < fixed_dt)
      × (steps * fixed_dt + rest ≡ accumulator)
unfolding drain
drain_total zero fixed_dt accumulator step le =
    (0, accumulator, ground arith, omega arith, omega arith)
drain_total (suc fuel) fixed_dt accumulator step le = elim (Bool-cases (ltb accumulator fixed_dt)) [
  | inl below ↦ (0, accumulator, rw below refl, ground arith, omega arith)
  | inr due ↦
      let (steps, rest, found, short, total) =
        drain_total fuel fixed_dt (accumulator - fixed_dt) step (ground arith) in
      (
        suc steps,
        rest,
        rw (due, found) refl,
        short,
        one_step steps fixed_dt rest accumulator (ground arith) total,
      )
]

-- What a frame does of which the loop knows the time of the one before.
abbrev pub HasStepped : (now last : ℕ) → GameLoop → Type 0
HasStepped now last l =
    (steps : ℕ) × (rest : ℕ) × (tick now l
      ≡ some (record l {
        last_time = some now;
        accumulator = rest;
        calls = l.calls ++ (repeat steps (update l.fixed_dt) ++ render rest l.fixed_dt ∷ []);
      }))
    × (rest < l.fixed_dt)
    × (steps * l.fixed_dt + rest ≡ l.accumulator + frame_dt l.max_frame_dt last now)

stepped :
    (now last : ℕ) (l : GameLoop)
    → 0 < l.fixed_dt
    → l.running ≡ true
    → l.last_time ≡ some last
    → HasStepped now last l
unfolding tick
stepped now last l step running since =
    let accumulator = l.accumulator + frame_dt l.max_frame_dt last now in
    let (steps, rest, found, short, total) =
      drain_total accumulator l.fixed_dt accumulator step (omega arith) in
    (steps, rest, rw (running, since, tick_since, found, ran) refl, short, total)

-- A frame of a running loop ends. The first one only notes the time: it calls nothing and keeps the
-- accumulator. Any other loses no time: the steps that it runs and what is left in the accumulator,
-- which is less than a step, are what was in it and the time of the frame, clamped, and the frame
-- calls `update` with the step that many times, and then `render` once. The step is not 0.
pub tick_steps :
    (now : ℕ) (l : GameLoop)
    → 0 < l.fixed_dt
    → l.running ≡ true
    → ((l.last_time ≡ none) × (tick now l ≡ some (record l { last_time = some now })))
      ⊎ ((last : ℕ) × (l.last_time ≡ some last) × HasStepped now last l)
unfolding tick
tick_steps now l step running = elim (Option-cases l.last_time) [
  | inl first ↦ inl (first, rw (running, first, tick_since) refl)
  | inr (last, since) ↦ inr (last, since, stepped now last l step running since)
]
