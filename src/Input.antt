-- ===== src/Input.antt =====
-- Input state, packages/runtime/src/input.ts: held directions, and the presses that wait to be
-- consumed. The listeners of the DOM are the calls that it makes.
pub mod Held
pub mod Presses
mod Tests
use agentic_rpgmaker.Base.{
  ℕ, zero, suc, ◌+◌, ◌-◌, ◌≡◌, refl, ◌↔◌, Bool, true, false, not, ◌&&◌, ◌||◌, Option, none, some,
  List, [], ◌∷◌, ◌++◌, String, if◌then◌else◌, ◌==◌, Eq, ltb, ℤ, pos, negsuc, arith, String_eq,
}
use agentic_rpgmaker.Base.Dict.{includes, remove_first, remove_all}
use agentic_rpgmaker.Behavior.{Direction, up, down, left, right, Vec2}

abbrev pub same_direction : Direction → Direction → Bool
same_direction up up = true
same_direction down down = true
same_direction left left = true
same_direction right right = true
same_direction _ _ = false

pub same_direction_iff : (a b : Direction) → (same_direction a b ≡ true) ↔ (a ≡ b)
same_direction_iff up up = ground arith
same_direction_iff a b = ground arith

instance abbrev pub Direction_eq : Eq Direction
Direction_eq = record { beq = same_direction; beq_iff = same_direction_iff }

-- `DIRECTION_VECTORS`, in tiles
abbrev pub vector : Direction → ℤ × ℤ
vector up = (pos 0, negsuc 0)
vector down = (pos 0, pos 1)
vector left = (negsuc 0, pos 0)
vector right = (pos 1, pos 0)

-- `KEY_TO_DIRECTION`
abbrev pub key_to_direction : String → Option Direction
key_to_direction code =
    if code == "ArrowUp" || code == "KeyW"
    then some up
    else if code == "ArrowDown" || code == "KeyS"
    then some down
    else if code == "ArrowLeft" || code == "KeyA"
    then some left
    else if code == "ArrowRight" || code == "KeyD"
    then some right
    else none

abbrev pub confirm_keys : List String
confirm_keys = "KeyZ" ∷ "Enter" ∷ "Space" ∷ []

abbrev pub cancel_keys : List String
cancel_keys = "KeyX" ∷ "Escape" ∷ "Backspace" ∷ []

pub record Input : Type 0 where
  pub pressed : List String
  pub held_direction : Option Direction
  pub direction_stack : List Direction
  pub direction_edges : List Direction
  pub confirm_queued : ℕ
  pub cancel_queued : ℕ

-- `clear`, and the state that a new input has.
abbrev pub cleared : Input
cleared = record {
  pressed = [];
  held_direction = none;
  direction_stack = [];
  direction_edges = [];
  confirm_queued = 0;
  cancel_queued = 0;
}

-- `Set.prototype.add`
abbrev add : String → List String → List String
add k ks = if includes k ks then ks else ks ++ k ∷ []

unfoldable pub press_direction : Direction → Input → Input
unfolding includes
press_direction d i = if includes d i.direction_stack then i else record i {
  direction_stack = i.direction_stack ++ d ∷ [];
  direction_edges = i.direction_edges ++ d ∷ [];
  held_direction = some d;
}

-- The last of a list.
unfoldable pub last : List Direction → Option Direction
last [] = none
last (d ∷ []) = some d
last (d ∷ e ∷ ds) = last (e ∷ ds)

unfoldable pub release_direction : Direction → Input → Input
unfolding remove_first last
release_direction d i =
    let stack = remove_first d i.direction_stack in
    record i { direction_stack = stack; held_direction = last stack }

abbrev pub press_key : Option Direction → Bool → Input → Input
press_key none repeat i = i
press_key (some d) repeat i = if repeat then i else press_direction d i

-- `onKeyDown`
unfoldable pub on_key_down : String → Bool → Input → Input
unfolding press_direction includes
on_key_down code repeat i =
    if includes code confirm_keys
    then record i {
      confirm_queued = (if repeat then 0 else 1) + i.confirm_queued;
      pressed = add "confirm" i.pressed;
    }
    else if includes code cancel_keys
    then record i {
      cancel_queued = (if repeat then 0 else 1) + i.cancel_queued;
      pressed = add "cancel" i.pressed;
    }
    else press_key (key_to_direction code) repeat i

abbrev pub release_key : Option Direction → Input → Input
release_key none i = i
release_key (some d) i = release_direction d i

-- `onKeyUp`
unfoldable pub on_key_up : String → Input → Input
unfolding release_direction includes remove_all
on_key_up code i =
    if includes code confirm_keys
    then record i { pressed = remove_all "confirm" i.pressed }
    else if includes code cancel_keys
    then record i { pressed = remove_all "cancel" i.pressed }
    else release_key (key_to_direction code) i

unfoldable pub consume_confirm : Input → Input × Bool
consume_confirm i =
    if ltb 0 i.confirm_queued
    then (record i { confirm_queued = i.confirm_queued - 1 }, true)
    else (i, false)

unfoldable pub consume_cancel : Input → Input × Bool
consume_cancel i =
    if ltb 0 i.cancel_queued
    then (record i { cancel_queued = i.cancel_queued - 1 }, true)
    else (i, false)

abbrev shift : List Direction → List Direction × Option Direction
shift [] = ([], none)
shift (d ∷ ds) = (ds, some d)

unfoldable pub consume_direction_edge : Input → Input × Option Direction
consume_direction_edge i =
    let (rest, edge) = shift i.direction_edges in (record i { direction_edges = rest }, edge)

abbrev pub queue_confirm : Input → Input
queue_confirm i = record i { confirm_queued = suc i.confirm_queued }

abbrev pub queue_cancel : Input → Input
queue_cancel i = record i { cancel_queued = suc i.cancel_queued }

-- What changes an input.
pub data InputCall : Type 0 where
  key_down : (code : String) (repeat : Bool) → InputCall
  key_up : (code : String) → InputCall
  pad_press pad_release : Direction → InputCall
  pad_confirm pad_cancel : InputCall
  take_confirm take_cancel take_edge : InputCall
  blur : InputCall

unfoldable pub step : InputCall → Input → Input
unfolding on_key_down on_key_up press_direction release_direction consume_confirm consume_cancel
    consume_direction_edge
step (key_down code repeat) i = on_key_down code repeat i
step (key_up code) i = on_key_up code i
step (pad_press d) i = press_direction d i
step (pad_release d) i = release_direction d i
step pad_confirm i = queue_confirm i
step pad_cancel i = queue_cancel i
step take_confirm i = (consume_confirm i).0
step take_cancel i = (consume_cancel i).0
step take_edge i = (consume_direction_edge i).0
step blur i = cleared

unfoldable pub run : List InputCall → Input → Input
unfolding step
run [] i = i
run (c ∷ cs) i = run cs (step c i)
