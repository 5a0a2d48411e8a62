-- ===== src/Input/Presses.antt =====
-- Each press of confirm is consumed once.
use agentic_rpgmaker.Base.{
  ℕ, ◌+◌, ◌≡◌, refl, Bool, true, false, Option, none, some, List, [], ◌∷◌, String, if◌then◌else◌,
  arith, String_eq, inl, inr, Bool-cases, All,
}
use agentic_rpgmaker.Base.Dict.{includes}
use agentic_rpgmaker.Behavior.{Direction}
use agentic_rpgmaker.Input.{
  Input, Direction_eq, InputCall, key_down, key_up, pad_press, pad_release, pad_confirm, pad_cancel,
  take_confirm, take_cancel, take_edge, blur, confirm_keys, cancel_keys, key_to_direction,
  press_direction, release_direction, step, run, consume_confirm, consume_cancel,
  consume_direction_edge, on_key_down, on_key_up, press_key, release_key,
}

-- The presses that a call brings, and those that it takes.
abbrev pub presses : InputCall → ℕ
presses (key_down code repeat) = if includes code confirm_keys then if repeat then 0 else 1 else 0
presses pad_confirm = 1
presses _ = 0

abbrev pub takes : InputCall → Input → ℕ
takes take_confirm i = if (consume_confirm i).1 then 1 else 0
takes _ i = 0

unfoldable pub all_presses : List InputCall → ℕ
all_presses [] = 0
all_presses (c ∷ cs) = presses c + all_presses cs

unfoldable pub all_takes : List InputCall → Input → ℕ
unfolding step
all_takes [] i = 0
all_takes (c ∷ cs) i = takes c i + all_takes cs (step c i)

abbrev pub IsNotBlur : InputCall → Type 0
IsNotBlur blur = ⊥
IsNotBlur _ = Unit

press_key_queued :
    (o : Option Direction) (repeat : Bool) (i : Input)
    → (press_key o repeat i).confirm_queued ≡ i.confirm_queued
unfolding press_direction
press_key_queued none repeat i = refl
press_key_queued (some d) true i = refl
press_key_queued (some d) false i = ground arith

release_key_queued :
    (o : Option Direction) (i : Input) → (release_key o i).confirm_queued ≡ i.confirm_queued
unfolding release_direction
release_key_queued none i = refl
release_key_queued (some d) i = refl

key_down_queued :
    (code : String) (repeat : Bool) (i : Input)
    → (on_key_down code repeat i).confirm_queued ≡ presses (key_down code repeat) + i.confirm_queued
unfolding on_key_down
key_down_queued code repeat i = elim (Bool-cases (includes code confirm_keys)) [
  | inl confirm ↦ rw confirm refl
  | inr not_confirm ↦ elim (Bool-cases (includes code cancel_keys)) [
    | inl cancel ↦ rw (not_confirm, cancel) (omega arith)
    | inr not_cancel ↦
        rw (not_confirm, not_cancel)
          (omega (arith, press_key_queued (key_to_direction code) repeat i))
  ]
]

key_up_queued : (code : String) (i : Input) → (on_key_up code i).confirm_queued ≡ i.confirm_queued
unfolding on_key_up
key_up_queued code i = elim (Bool-cases (includes code confirm_keys)) [
  | inl confirm ↦ rw confirm refl
  | inr not_confirm ↦ elim (Bool-cases (includes code cancel_keys)) [
    | inl cancel ↦ rw (not_confirm, cancel) refl
    | inr not_cancel ↦ rw (not_confirm, not_cancel) (release_key_queued (key_to_direction code) i)
  ]
]

step_queued :
    (c : InputCall) (i : Input)
    → IsNotBlur c
    → (step c i).confirm_queued + takes c i ≡ presses c + i.confirm_queued
unfolding step consume_confirm consume_cancel consume_direction_edge press_direction
    release_direction
step_queued (key_down code repeat) i w = omega (arith, key_down_queued code repeat i)
step_queued (key_up code) i w = omega (arith, key_up_queued code i)
step_queued (pad_press d) i w = ground arith
step_queued (pad_release d) i w = omega arith
step_queued pad_confirm i w = omega arith
step_queued pad_cancel i w = omega arith
step_queued take_confirm i w = ground arith
step_queued take_cancel i w = ground arith
step_queued take_edge i w = omega arith
step_queued blur i w = absurd w

-- Until the window loses the focus, the presses of confirm that were consumed and those that wait
-- are together those that waited before and the fresh ones: each press of a key for confirm or of
-- the A button gives one `true`, a repeat of a key that is held gives none.
pub run_queued :
    (cs : List InputCall) (i : Input)
    → All IsNotBlur cs
    → (run cs i).confirm_queued + all_takes cs i ≡ all_presses cs + i.confirm_queued
unfolding run all_takes all_presses
run_queued [] i w = omega arith
run_queued (c ∷ cs) i (w, ws) = omega (arith, step_queued c i w, run_queued cs (step c i) ws)
