-- ===== src/Input/Held.antt =====
-- Which direction is held: of those that are down, the one that went down last.
use mathlib.Core.Path.{subst}
use agentic_rpgmaker.Base.{
  ℕ, suc, ◌<◌, ◌≤◌, ◌≡◌, ◌≢◌, refl, sym, Bool, true, false, not, ◌&&◌, ◌||◌, Option, none, some,
  List, [], ◌∷◌, ◌++◌, String, if◌then◌else◌, ltb, nat_eq, ◌==◌, arith, String_eq, inl, inr,
  Bool-cases,
}
use agentic_rpgmaker.Base.Dict.{
  includes, remove_first, count, includes-append, includes-count, count-remove_first,
}
use agentic_rpgmaker.Behavior.{Direction}
use agentic_rpgmaker.Input.{
  Input, Direction_eq, same_direction_iff, InputCall, key_down, key_up, pad_press, pad_release,
  pad_confirm, pad_cancel, take_confirm, take_cancel, take_edge, blur, confirm_keys, cancel_keys,
  key_to_direction, cleared, press_direction, release_direction, last, step, run, consume_confirm,
  consume_cancel, consume_direction_edge, on_key_down, on_key_up, press_key, release_key,
}

-- What a call says of the directions.
pub data Change : Type 0 where
  presses releases : Direction → Change
  drops keeps : Change

-- A key that is neither confirm nor cancel may stand for a direction.
abbrev pub direction_key : String → Option Direction
direction_key code =
    if includes code confirm_keys || includes code cancel_keys then none else key_to_direction code

abbrev pressed_by : Option Direction → Change
pressed_by none = keeps
pressed_by (some d) = presses d

abbrev released_by : Option Direction → Change
released_by none = keeps
released_by (some d) = releases d

abbrev pub change : InputCall → Change
change (key_down code repeat) = if repeat then keeps else pressed_by (direction_key code)
change (key_up code) = released_by (direction_key code)
change (pad_press d) = presses d
change (pad_release d) = releases d
change blur = drops
change pad_confirm = keeps
change pad_cancel = keeps
change take_confirm = keeps
change take_cancel = keeps
change take_edge = keeps

-- When a direction went down, after a change that is the call of number `now`: 0 if it is not down,
-- and a press of one that is down does not count.
abbrev pub since_change : Change → ℕ → Direction → ℕ → ℕ
since_change (presses e) now d was = if e == d && nat_eq was 0 then now else was
since_change (releases e) now d was = if e == d then 0 else was
since_change drops now d was = 0
since_change keeps now d was = was

-- The number of the call that a direction has been down since, counting from 1, or 0 if it is not
-- down: n calls were made before these, and `was` tells of them.
unfoldable pub down_since : List InputCall → ℕ → (Direction → ℕ) → Direction → ℕ
down_since [] n was d = was d
down_since (c ∷ cs) n was d =
    down_since cs (suc n) (λ e. since_change (change c) (suc n) e (was e)) d

abbrev changed : Change → List Direction → List Direction
changed (presses d) ds = if includes d ds then ds else ds ++ d ∷ []
changed (releases d) ds = remove_first d ds
changed drops ds = []
changed keeps ds = ds

-- The stack is in the order in which its directions went down.
unfoldable pub IsOrdered : (Direction → ℕ) → List Direction → Type 0
IsOrdered t [] = Unit
IsOrdered t (d ∷ ds) = ((e : Direction) → includes e ds ≡ true → t d < t e) × IsOrdered t ds

pub record IsTimed (t : Direction → ℕ) (n : ℕ) (ds : List Direction) : Type 0 where
  pub downs : (d : Direction) → includes d ds ≡ ltb 0 (t d)
  pub past : (d : Direction) → t d ≤ n
  pub ordered : IsOrdered t ds

IsOrdered-same :
    (t u : Direction → ℕ) (ds : List Direction)
    → ((d : Direction) → includes d ds ≡ true → u d ≡ t d)
    → IsOrdered t ds
    → IsOrdered u ds
unfolding IsOrdered includes
IsOrdered-same t u [] same v = tt
IsOrdered-same t u (d ∷ ds) same (later, v) = (
  λ e there. ground (arith, later e there, same e, same d, same_direction_iff d d),
  IsOrdered-same t u ds (λ e there. same e (ground arith)) v,
)

IsOrdered-append :
    (t : Direction → ℕ) (ds : List Direction) (e : Direction)
    → ((d : Direction) → includes d ds ≡ true → t d < t e)
    → IsOrdered t ds
    → IsOrdered t (ds ++ e ∷ [])
unfolding IsOrdered includes
IsOrdered-append t [] e last v = (λ d there. cc, tt)
IsOrdered-append t (d ∷ ds) e last (later, v) = (
  λ f there. ground (
    arith,
    later f,
    last d,
    includes-append f ds (e ∷ []),
    same_direction_iff d d,
    same_direction_iff e f,
  ),
  IsOrdered-append t ds e (λ f there. last f (ground arith)) v,
)

count-IsOrdered :
    (t : Direction → ℕ) (ds : List Direction) (d : Direction) → IsOrdered t ds → count d ds ≤ 1
unfolding IsOrdered count
count-IsOrdered t [] d v = omega arith
count-IsOrdered t (e ∷ ds) d (later, v) =
    ground (arith, count-IsOrdered t ds d v, includes-count d ds, later d, same_direction_iff e d)

includes-remove_first :
    (t : Direction → ℕ) (ds : List Direction) (e d : Direction)
    → IsOrdered t ds
    → includes d (remove_first e ds) ≡ (not (e == d) && includes d ds)
includes-remove_first t ds e d v = ground (
  arith,
  includes-count d ds,
  includes-count d (remove_first e ds),
  count-remove_first e d ds,
  count-IsOrdered t ds d v,
)

includes-rest :
    (ds : List Direction) (e d : Direction)
    → includes d (remove_first e ds) ≡ true
    → includes d ds ≡ true
unfolding includes remove_first
includes-rest [] e d there = there
includes-rest (f ∷ ds) e d there = ground (arith, includes-rest ds e d)

IsOrdered-remove_first :
    (t : Direction → ℕ) (ds : List Direction) (e : Direction)
    → IsOrdered t ds
    → IsOrdered t (remove_first e ds)
unfolding IsOrdered remove_first
IsOrdered-remove_first t [] e v = tt
IsOrdered-remove_first t (d ∷ ds) e (later, v) = elim (Bool-cases (d == e)) [
  | inl found ↦ rw found v
  | inr other ↦
      rw other (λ f there. later f (includes-rest ds e f there), IsOrdered-remove_first t ds e v)
]

changed-IsTimed :
    (c : Change) (t : Direction → ℕ) (n : ℕ) (ds : List Direction)
    → IsTimed t n ds
    → IsTimed (λ d. since_change c (suc n) d (t d)) (suc n) (changed c ds)
unfolding IsOrdered includes
changed-IsTimed (presses e) t n ds v = elim (Bool-cases (includes e ds)) [
  | inl there ↦ rw there (record {
    downs = λ d. ground (arith, v.downs d, v.downs e, same_direction_iff e d);
    past = λ d. ground (arith, v.past d);
    ordered =
        IsOrdered-same t _ ds (λ d _. ground (arith, v.downs e, same_direction_iff e d)) v.ordered;
  })
  | inr absent ↦ rw absent (record {
    downs = λ d.
        ground (arith, v.downs d, v.downs e, includes-append d ds (e ∷ []), same_direction_iff e d);
    past = λ d. ground (arith, v.past d);
    ordered =
        IsOrdered-append _ ds e
          (λ d there.
            ground (
              arith,
              v.past d,
              v.downs d,
              v.downs e,
              same_direction_iff e d,
              same_direction_iff e e,
            ))
          (IsOrdered-same t _ ds (λ d there. ground (arith, v.downs d)) v.ordered);
  })
]
changed-IsTimed (releases e) t n ds v = record {
  downs = λ d. ground (arith, v.downs d, includes-remove_first t ds e d v.ordered);
  past = λ d. ground (arith, v.past d);
  ordered =
      IsOrdered-same t _ (remove_first e ds)
        (λ d there. ground (arith, includes-remove_first t ds e d v.ordered))
        (IsOrdered-remove_first t ds e v.ordered);
}
changed-IsTimed drops t n ds v = record { downs = λ d. refl; past = λ d. omega arith; ordered = tt }
changed-IsTimed keeps t n ds v = record {
  downs = v.downs;
  past = λ d. omega (arith, v.past d);
  ordered = v.ordered;
}

last-append : (ds : List Direction) (d : Direction) → last (ds ++ d ∷ []) ≡ some d
unfolding last
last-append [] d = refl
last-append (e ∷ []) d = refl
last-append (e ∷ f ∷ ds) d = last-append (f ∷ ds) d

-- A call makes of the stack what its change does, and the last of the stack is held.
abbrev Follows : Change → Input → Input → Type 0
Follows c i j =
    (j.direction_stack ≡ changed c i.direction_stack) × (j.held_direction ≡ last j.direction_stack)

press-Follows :
    (d : Direction) (i : Input)
    → i.held_direction ≡ last i.direction_stack
    → Follows (presses d) i (press_direction d i)
unfolding press_direction
press-Follows d i held = elim (Bool-cases (includes d i.direction_stack)) [
  | inl there ↦ rw there (refl, held)
  | inr absent ↦ rw absent (refl, sym (last-append i.direction_stack d))
]

press_key-Follows :
    (o : Option Direction) (repeat : Bool) (i : Input)
    → i.held_direction ≡ last i.direction_stack
    → Follows (if repeat then keeps else pressed_by o) i (press_key o repeat i)
press_key-Follows none true i held = (refl, held)
press_key-Follows none false i held = (refl, held)
press_key-Follows (some d) true i held = (refl, held)
press_key-Follows (some d) false i held = press-Follows d i held

release_key-Follows :
    (o : Option Direction) (i : Input)
    → i.held_direction ≡ last i.direction_stack
    → Follows (released_by o) i (release_key o i)
unfolding release_direction
release_key-Follows none i held = (refl, held)
release_key-Follows (some d) i held = (refl, refl)

still : (repeat : Bool) (ds : List Direction) → changed (if repeat then keeps else keeps) ds ≡ ds
still true ds = refl
still false ds = refl

key_down-Follows :
    (code : String) (repeat : Bool) (i : Input)
    → i.held_direction ≡ last i.direction_stack
    → Follows (change (key_down code repeat)) i (on_key_down code repeat i)
unfolding on_key_down
key_down-Follows code repeat i held = elim (Bool-cases (includes code confirm_keys)) [
  | inl confirm ↦ rw confirm (sym (still repeat i.direction_stack), held)
  | inr not_confirm ↦ elim (Bool-cases (includes code cancel_keys)) [
    | inl cancel ↦ rw (not_confirm, cancel) (sym (still repeat i.direction_stack), held)
    | inr not_cancel ↦
        rw (not_confirm, not_cancel) (press_key-Follows (key_to_direction code) repeat i held)
  ]
]

key_up-Follows :
    (code : String) (i : Input)
    → i.held_direction ≡ last i.direction_stack
    → Follows (change (key_up code)) i (on_key_up code i)
unfolding on_key_up
key_up-Follows code i held = elim (Bool-cases (includes code confirm_keys)) [
  | inl confirm ↦ rw confirm (refl, held)
  | inr not_confirm ↦ elim (Bool-cases (includes code cancel_keys)) [
    | inl cancel ↦ rw (not_confirm, cancel) (refl, held)
    | inr not_cancel ↦
        rw (not_confirm, not_cancel) (release_key-Follows (key_to_direction code) i held)
  ]
]

consumed :
    (i : Input) → i.held_direction ≡ last i.direction_stack → Follows keeps i (consume_confirm i).0
unfolding consume_confirm
consumed i held = elim (Bool-cases (ltb 0 i.confirm_queued)) [
  | inl some_wait ↦ rw some_wait (refl, held)
  | inr none_wait ↦ rw none_wait (refl, held)
]

cancelled :
    (i : Input) → i.held_direction ≡ last i.direction_stack → Follows keeps i (consume_cancel i).0
unfolding consume_cancel
cancelled i held = elim (Bool-cases (ltb 0 i.cancel_queued)) [
  | inl some_wait ↦ rw some_wait (refl, held)
  | inr none_wait ↦ rw none_wait (refl, held)
]

step-Follows :
    (c : InputCall) (i : Input)
    → i.held_direction ≡ last i.direction_stack
    → Follows (change c) i (step c i)
unfolding step last release_direction consume_direction_edge
step-Follows (key_down code repeat) i held = key_down-Follows code repeat i held
step-Follows (key_up code) i held = key_up-Follows code i held
step-Follows (pad_press d) i held = press-Follows d i held
step-Follows (pad_release d) i held = (refl, refl)
step-Follows pad_confirm i held = (refl, held)
step-Follows pad_cancel i held = (refl, held)
step-Follows take_confirm i held = consumed i held
step-Follows take_cancel i held = cancelled i held
step-Follows take_edge i held = (refl, held)
step-Follows blur i held = (refl, refl)

nothing : (ds : List Direction) → last ds ≡ none → (d : Direction) → includes d ds ≡ false
unfolding last includes
nothing [] e d = refl
nothing (f ∷ []) e d = cc
nothing (f ∷ h ∷ ds) e d = ground (arith, nothing (h ∷ ds) e h, same_direction_iff h h)

some_injective : {a b : Direction} → ◌≡◌ {A = Option Direction} (some a) (some b) → a ≡ b
some_injective e = cc

-- The last of a stack in order is the one that went down last.
last-IsOrdered :
    (t : Direction → ℕ) (ds : List Direction) (d : Direction)
    → IsOrdered t ds
    → last ds ≡ some d
    → (includes d ds ≡ true) × ((e : Direction) → includes e ds ≡ true → e ≢ d → t e < t d)
unfolding IsOrdered last includes
last-IsOrdered t [] d v e = cc
last-IsOrdered t (f ∷ []) d v e =
    let same : f ≡ d = some_injective e in
    (
      ground (arith, (same_direction_iff f d).1 same),
      λ g there other. ground (arith, same_direction_iff f g, other, same),
    )
last-IsOrdered t (f ∷ h ∷ ds) d (later, v) e =
    let (there, least) = last-IsOrdered t (h ∷ ds) d v e in
    (
      ground arith,
      λ g listed other. elim (Bool-cases (f == g)) [
        | inl same ↦ subst (λ a. t a < t d) ((same_direction_iff f g).0 same) (later d there)
        | inr different ↦ least g (ground arith) other
      ],
    )

-- Of the directions that are down, the one that went down last is held; none is held when none is.
abbrev pub IsHeld : (Direction → ℕ) → Option Direction → Type 0
IsHeld t (some d) = (0 < t d) × ((e : Direction) → e ≢ d → t e < t d)
IsHeld t none = (d : Direction) → t d ≡ 0

last-IsHeld :
    (t : Direction → ℕ) (n : ℕ) (ds : List Direction) (o : Option Direction)
    → IsTimed t n ds
    → last ds ≡ o
    → IsHeld t o
last-IsHeld t n ds none v e = λ d. ground (arith, v.downs d, nothing ds e d)
last-IsHeld t n ds (some d) v e =
    let (there, least) = last-IsOrdered t ds d v.ordered e in
    (
      ground (arith, v.downs d),
      λ f other. elim (Bool-cases (includes f ds)) [
        | inl listed ↦ least f listed other
        | inr absent ↦ ground (arith, v.downs d, v.downs f)
      ],
    )

run-IsTimed :
    (cs : List InputCall) (n : ℕ) (t : Direction → ℕ) (i : Input)
    → i.held_direction ≡ last i.direction_stack
    → IsTimed t n i.direction_stack
    → IsHeld (down_since cs n t) (run cs i).held_direction
unfolding run down_since
run-IsTimed [] n t i held v = last-IsHeld t n i.direction_stack i.held_direction v (sym held)
run-IsTimed (c ∷ cs) n t i held v =
    let (stack, held') = step-Follows c i held in
    run-IsTimed cs (suc n) (λ d. since_change (change c) (suc n) d (t d)) (step c i) held'
      (subst (IsTimed _ (suc n)) (sym stack) (changed-IsTimed (change c) t n i.direction_stack v))

-- After any calls on a new input, of the directions that are down the one that went down last is
-- held, and none is held if none is down. A direction goes down by a press of the pad or of one of
-- its keys that is no repeat, if it is not down already. It is down until the first release of the
-- pad or of any of its keys, be it another one than was pressed, or until a blur.
pub run-IsHeld :
    (cs : List InputCall) → IsHeld (down_since cs 0 (λ d. 0)) (run cs cleared).held_direction
unfolding includes IsOrdered last
run-IsHeld cs =
    run-IsTimed cs 0 (λ d. 0) cleared refl
      (record { downs = λ d. refl; past = λ d. omega arith; ordered = tt })
