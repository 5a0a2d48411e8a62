-- ===== src/MapScene/Answers.antt =====
-- What an update does to an open choice.
use native.Mathlib.Nat.{mod-eq_of_lt, mod_self, add-mod_right}
use agentic_rpgmaker.Base.{
  ℕ, ◌+◌, ◌-◌, ◌%◌, ◌<◌, ◌≡◌, refl, ap, ◌∙◌, Bool, true, false, ◌||◌, Option, none, some, List, [],
  ◌∷◌, String, if◌then◌else◌, length, ltb, nat_eq, nat_eq_iff, Bool-cases, inl, inr, ℤ, pos, negsuc,
  ◌+ℤ◌, ◌==◌, String_eq, arith,
}
use agentic_rpgmaker.Behavior.{Direction, up, down, left, right}
use agentic_rpgmaker.State.{GameState, get_variable}
use agentic_rpgmaker.State.Laws.{get_variable-set}
use agentic_rpgmaker.Input.{consume_confirm, consume_cancel, consume_direction_edge}
use agentic_rpgmaker.MapScene.{Walker, consume_edge}
use agentic_rpgmaker.MapScene.Choices.{
  ChoicePrompt, Chooser, remainder, moved, answer_choice, cancel_by, confirm_by, choose_by, choose,
  handle_choice_input, confirmed, cancelled, confirm_of, cancel_of,
}

-- A press that waits in one of the two inputs.
abbrev pub has_confirm : Walker → Bool
has_confirm w = ltb 0 w.input.confirm_queued || ltb 0 w.virtual_input.confirm_queued

abbrev pub has_cancel : Walker → Bool
has_cancel w = ltb 0 w.input.cancel_queued || ltb 0 w.virtual_input.cancel_queued

pub confirmed_lem :
    (w : Walker)
    → ((confirmed w).1 ≡ has_confirm w)
      × (has_cancel (confirmed w).0 ≡ has_cancel w)
      × ((confirmed w).0.step ≡ w.step)
unfolding confirmed confirm_of consume_confirm
confirmed_lem w = (ground arith, ground arith, ground arith)

pub cancelled_lem :
    (w : Walker) → ((cancelled w).1 ≡ has_cancel w) × ((cancelled w).0.step ≡ w.step)
unfolding cancelled cancel_of consume_cancel
cancelled_lem w = (ground arith, ground arith)

-- The direction pressed first of those that wait, in the first input before the other.
abbrev pub first_edge : List Direction → List Direction → Option Direction
first_edge (d ∷ ds) es = some d
first_edge [] (e ∷ es) = some e
first_edge [] [] = none

abbrev pub pressed_edge : Walker → Option Direction
pressed_edge w = first_edge w.input.direction_edges w.virtual_input.direction_edges

-- What the player asks of a choice.
pub data Reply : Type 0 where
  select : ℕ → Reply
  answer : ℤ → Reply
  wait : Reply

abbrev pub reply_of_press : (confirm cancel : Bool) → ℕ → Reply
reply_of_press confirm cancel s =
    if confirm then answer (pos s) else if cancel then answer (negsuc 0) else wait

-- The reply to n options of which the option s is selected: up and down go around the ends of the
-- list, confirm answers with the selected option, and cancel with -1.
abbrev pub reply : Option Direction → (confirm cancel : Bool) → (s n : ℕ) → Reply
reply (some up) confirm cancel s n = select (if nat_eq s 0 then n - 1 else s - 1)
reply (some down) confirm cancel s n = select (if nat_eq (s + 1) n then 0 else s + 1)
reply (some left) confirm cancel s n = reply_of_press confirm cancel s
reply (some right) confirm cancel s n = reply_of_press confirm cancel s
reply none confirm cancel s n = reply_of_press confirm cancel s

-- What a reply makes of the prompt and the state.
abbrev pub HasReplied : ChoicePrompt → GameState → Reply → Chooser → Type 0
HasReplied p s (select i) c =
    (c.pending_choice ≡ some (record p { selected = pos i })) × (c.state ≡ s)
HasReplied p s (answer a) c =
    (c.pending_choice ≡ none)
    × ((n : String) → get_variable n c.state ≡ (if p.variable == n then a else get_variable n s))
HasReplied p s wait c = (c.pending_choice ≡ some p) × (c.state ≡ s)

-- The sums of the code, and their remainders.
one_up :
    (s n : ℕ) → s < n → pos s +ℤ negsuc 0 +ℤ pos n ≡ pos (if nat_eq s 0 then n - 1 else s - 1 + n)
unfolding ◌+ℤ◌
one_up s n below = ground arith

one_down : (s n : ℕ) → pos s +ℤ pos 1 +ℤ pos n ≡ pos (s + 1 + n)
unfolding ◌+ℤ◌
one_down s n = ground arith

above :
    (s n : ℕ)
    → s < n
    → (if nat_eq s 0 then n - 1 else s - 1 + n) % n ≡ (if nat_eq s 0 then n - 1 else s - 1)
above s n below = elim (Bool-cases (nat_eq s 0)) [
  | inl first ↦ rw first (mod-eq_of_lt {n = n - 1} {m = n} (omega arith))
  | inr inside ↦
      rw inside (add-mod_right (s - 1) n ∙ mod-eq_of_lt {n = s - 1} {m = n} (omega arith))
]

underneath : (s n : ℕ) → s < n → (s + 1 + n) % n ≡ (if nat_eq (s + 1) n then 0 else s + 1)
underneath s n below = add-mod_right (s + 1) n ∙ elim (Bool-cases (nat_eq (s + 1) n)) [
  | inl last ↦ rw last (ap (λ k. k % n) ((nat_eq_iff (s + 1) n).0 last) ∙ mod_self n)
  | inr inside ↦ rw inside (mod-eq_of_lt {n = s + 1} {m = n} (ground arith))
]

moved_lem :
    (p : ChoicePrompt) (s : ℕ)
    → p.selected ≡ pos s
    → s < length p.options
    → (moved (negsuc 0) p ≡ pos (if nat_eq s 0 then length p.options - 1 else s - 1))
      × (moved (pos 1) p ≡ pos (if nat_eq (s + 1) (length p.options) then 0 else s + 1))
unfolding moved
moved_lem p s selected below =
    let n = length p.options in
    (
      ap (λ a. remainder (a +ℤ negsuc 0 +ℤ pos n) n) selected
          ∙ ap (λ a. remainder a n) (one_up s n below)
          ∙ ap pos (above s n below),
      ap (λ a. remainder (a +ℤ pos 1 +ℤ pos n) n) selected
          ∙ ap (λ a. remainder a n) (one_down s n)
          ∙ ap pos (underneath s n below),
    )

edge_of_lem :
    (ds es : List Direction) (w : Walker)
    → w.input.direction_edges ≡ ds
    → w.virtual_input.direction_edges ≡ es
    → ((consume_edge w).1 ≡ first_edge ds es)
      × (has_confirm (consume_edge w).0 ≡ has_confirm w)
      × (has_cancel (consume_edge w).0 ≡ has_cancel w)
unfolding consume_edge consume_direction_edge
edge_of_lem [] [] w e f = rw (e, f) (refl, refl, refl)
edge_of_lem [] (d ∷ es) w e f = rw (e, f) (refl, refl, refl)
edge_of_lem (d ∷ ds) es w e f = rw e (refl, refl, refl)

module _ (p : ChoicePrompt) (s : ℕ) (c : Chooser) (shown : c.pending_choice ≡ some p)
    (selected : p.selected ≡ pos s) (below : s < length p.options) where
  cancel_by_lem :
      (r : Walker × Bool) → HasReplied p c.state (reply_of_press false r.1 s) (cancel_by p c r)
  unfolding cancel_by answer_choice
  cancel_by_lem (w, true) = (refl, get_variable-set p.variable (negsuc 0) c.state)
  cancel_by_lem (w, false) = (shown, refl)

  confirm_by_lem :
      (r : Walker × Bool)
      → HasReplied p c.state (reply_of_press r.1 (has_cancel r.0) s) (confirm_by p c r)
  unfolding confirm_by answer_choice
  confirm_by_lem (w, true) = (
    refl,
    λ n.
        get_variable-set p.variable p.selected c.state n
        ∙ ap (λ a. if p.variable == n then a else get_variable n c.state) selected,
  )
  confirm_by_lem (w, false) = rw (← (cancelled_lem w).0) (cancel_by_lem (cancelled w))

  press_lem :
      (w : Walker)
      → HasReplied p c.state
          (reply_of_press (has_confirm w) (has_cancel w) s)
          (confirm_by p c (confirmed w))
  press_lem w =
      let (confirm, cancel, _) = confirmed_lem w in
      rw (← confirm, ← cancel) (confirm_by_lem (confirmed w))

  choose_by_lem :
      (w : Walker) (o : Option Direction)
      → HasReplied p c.state
          (reply o (has_confirm w) (has_cancel w) s (length p.options))
          (choose_by p c (w, o))
  unfolding choose_by
  choose_by_lem w (some up) =
      (ap (λ a. some (record p { selected = a })) (moved_lem p s selected below).0, refl)
  choose_by_lem w (some down) =
      (ap (λ a. some (record p { selected = a })) (moved_lem p s selected below).1, refl)
  choose_by_lem w (some left) = press_lem w
  choose_by_lem w (some right) = press_lem w
  choose_by_lem w none = press_lem w

  choose_lem :
      (o : Option ChoicePrompt)
      → o ≡ some p
      → HasReplied p c.state
          (reply
            (pressed_edge c.walker)
            (has_confirm c.walker)
            (has_cancel c.walker)
            s
            (length p.options))
          (choose o c)
  unfolding choose
  choose_lem o e =
      let (edge, confirm, cancel) = edge_of_lem _ _ c.walker refl refl in
      rw e (
        rw (← edge, ← confirm, ← cancel)
          (choose_by_lem (consume_edge c.walker).0 (consume_edge c.walker).1))

-- What `handleChoiceInput` does with a prompt open that has the option s of n selected, where s
-- is below n. The direction pressed is the first press that waits in the first input, or else in
-- the virtual one. If it is up, the option before s is selected, the last before the first; if it
-- is down, the option after s, the first after the last; the prompt stays open, and the state as
-- it is. Else a confirm that waits in one of the inputs closes the prompt and its variable reads
-- as s, else a cancel that waits closes it and the variable reads as -1, and the other variables
-- read as before. Else the prompt and the state stay.
pub handle_choice_input-HasReplied :
    (p : ChoicePrompt) (s : ℕ) (c : Chooser)
    → c.pending_choice ≡ some p
    → p.selected ≡ pos s
    → s < length p.options
    → HasReplied p c.state
        (reply
          (pressed_edge c.walker)
          (has_confirm c.walker)
          (has_cancel c.walker)
          s
          (length p.options))
        (handle_choice_input c)
unfolding handle_choice_input
handle_choice_input-HasReplied p s c shown selected below =
    choose_lem p s c shown selected below c.pending_choice shown
