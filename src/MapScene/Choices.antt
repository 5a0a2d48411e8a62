-- ===== src/MapScene/Choices.antt =====
-- The open choice of a map scene, packages/runtime/src/map-scene.ts: `handleChoiceInput`,
-- `answerChoice` and the subscription to `choice`. The selection is a signed number, and `%` takes
-- the sign of its left side, as in the code. A prompt has options, since `showChoices` wants two;
-- with none the code computes NaN, where the remainder here is a number.
use agentic_rpgmaker.Base.{
  ℕ, suc, ◌%◌, Bool, true, false, Option, none, some, List, String, length, ℤ, pos, negsuc, ◌+ℤ◌,
  sub_ℕ,
}
use agentic_rpgmaker.Behavior.{Direction, up, down, left, right}
use agentic_rpgmaker.State.{GameState, set_variable}
use agentic_rpgmaker.Input.{consume_confirm, consume_cancel}
use agentic_rpgmaker.MapScene.{Walker, consume_edge}

pub record ChoicePrompt : Type 0 where
  pub variable : String
  pub options : List String
  pub selected : ℤ

-- What the input to a choice changes: the inputs of the walker, the state, and the open prompt.
pub record Chooser : Type 0 where
  pub walker : Walker
  pub state : GameState
  pub pending_choice : Option ChoicePrompt

unfoldable pub confirm_of : Walker × Bool → Walker × Bool
unfolding consume_confirm
confirm_of (w, true) = (w, true)
confirm_of (w, false) =
    let (virtual, pressed) = consume_confirm w.virtual_input in
    (record w { virtual_input = virtual }, pressed)

-- `consumeConfirm`
unfoldable pub confirmed : Walker → Walker × Bool
unfolding consume_confirm confirm_of
confirmed w =
    let (input, pressed) = consume_confirm w.input in
    confirm_of (record w { input = input }, pressed)

unfoldable pub cancel_of : Walker × Bool → Walker × Bool
unfolding consume_cancel
cancel_of (w, true) = (w, true)
cancel_of (w, false) =
    let (virtual, pressed) = consume_cancel w.virtual_input in
    (record w { virtual_input = virtual }, pressed)

-- `consumeCancel`
unfoldable pub cancelled : Walker → Walker × Bool
unfolding consume_cancel cancel_of
cancelled w =
    let (input, pressed) = consume_cancel w.input in cancel_of (record w { input = input }, pressed)

-- The subscription to `choice`.
unfoldable pub open_choice : String → List String → Chooser → Chooser
open_choice variable options c = record c {
  pending_choice = some (record { variable = variable; options = options; selected = pos 0 });
}

-- `answerChoice`, for the prompt that is open
unfoldable pub answer_choice : ℤ → ChoicePrompt → Chooser → Chooser
unfolding set_variable
answer_choice index prompt c = record c {
  pending_choice = none;
  state = set_variable prompt.variable index c.state;
}

-- `%` of the language.
abbrev pub remainder : ℤ → ℕ → ℤ
remainder (pos n) m = pos (n % m)
remainder (negsuc n) m = sub_ℕ 0 (suc n % m)

-- The selection moved by -1 or 1, around the ends of the list.
unfoldable pub moved : ℤ → ChoicePrompt → ℤ
unfolding ◌+ℤ◌
moved delta p = remainder (p.selected +ℤ delta +ℤ pos (length p.options)) (length p.options)

unfoldable pub cancel_by : ChoicePrompt → Chooser → Walker × Bool → Chooser
unfolding answer_choice
cancel_by p c (w, true) = answer_choice (negsuc 0) p (record c { walker = w })
cancel_by p c (w, false) = record c { walker = w }

unfoldable pub confirm_by : ChoicePrompt → Chooser → Walker × Bool → Chooser
unfolding answer_choice cancelled cancel_by
confirm_by p c (w, true) = answer_choice p.selected p (record c { walker = w })
confirm_by p c (w, false) = cancel_by p c (cancelled w)

unfoldable pub choose_by : ChoicePrompt → Chooser → Walker × Option Direction → Chooser
unfolding moved confirmed confirm_by
choose_by p c (w, some up) = record c {
  walker = w;
  pending_choice = some (record p { selected = moved (negsuc 0) p });
}
choose_by p c (w, some down) = record c {
  walker = w;
  pending_choice = some (record p { selected = moved (pos 1) p });
}
choose_by p c (w, some left) = confirm_by p c (confirmed w)
choose_by p c (w, some right) = confirm_by p c (confirmed w)
choose_by p c (w, none) = confirm_by p c (confirmed w)

unfoldable pub choose : Option ChoicePrompt → Chooser → Chooser
unfolding consume_edge choose_by
choose none c = c
choose (some p) c = choose_by p c (consume_edge c.walker)

-- `handleChoiceInput`
unfoldable pub handle_choice_input : Chooser → Chooser
unfolding choose
handle_choice_input c = choose c.pending_choice c
