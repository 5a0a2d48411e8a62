-- ===== src/Thrown.antt =====
-- The errors that packages/core/src throws, and the outcome of a call that may throw. What the
-- call did before it threw stays done, so a call gives its outcome beside the state.
use agentic_rpgmaker.Base.{ℕ, String, List, [], ◌∷◌}

-- Each constructor is one `throw`, with what its message names.
pub data Error : Type 0 where
  already_has : String → Error
  already_attached : String → Error
  scene_contains : String → Error
  duplicate_id : String → Error
  unknown_command : String → Error
  bad_operation : Error
  few_options : ℕ → Error
  not_a_number : String → Error
  not_a_string : String → Error
  no_entity : String → Error
  no_transform : String → Error
  no_waypoints : Error

pub data Outcome (A : Type 0) : Type 0 where
  ok : A → Outcome A
  thrown : Error → Outcome A

-- A call that changes a state and may throw. What it did before it threw stays done.
abbrev pub Throws : Type 0 → Type 0 → Type 0
Throws S A = S → S × Outcome A

abbrev pub return : {S A : Type 0} → A → Throws S A
return a s = (s, ok a)

abbrev pub raise : {S A : Type 0} → Error → Throws S A
raise e s = (s, thrown e)

abbrev pub continue : {S A B : Type 0} → (A → Throws S B) → S × Outcome A → S × Outcome B
continue f (s, ok a) = f a s
continue f (s, thrown e) = (s, thrown e)

infixl 5 ◌>>=◌ ◌>>◌
abbrev pub ◌>>=◌ : {S A B : Type 0} → Throws S A → (A → Throws S B) → Throws S B
◌>>=◌ m f s = continue f (m s)

abbrev pub ◌>>◌ : {S B : Type 0} → Throws S (Unit {0}) → Throws S B → Throws S B
m >> k = m >>= λ _. k

-- `for (const a of list) { … }`
abbrev pub for_each : {S A : Type 0} → List A → (A → Throws S (Unit {0})) → Throws S (Unit {0})
for_each [] f = return tt
for_each (a ∷ list) f = f a >> for_each list f

-- The call returns, with P of its result and its state.
abbrev pub Ends : {S A : Type 0} → (A → S → Type 0) → S × Outcome A → Type 0
Ends P (s, ok a) = P a s
Ends P (s, thrown e) = ⊥

module _ {S A B : Type 0} (P : A → S → Type 0) (Q : B → S → Type 0) (f : A → Throws S B)
    (rest : (a : A) (s : S) → P a s → Ends Q (f a s)) where
  pub Ends-continue : (r : S × Outcome A) → Ends P r → Ends Q (continue f r)
  Ends-continue (s, ok a) p = rest a s p
  Ends-continue (s, thrown e) p = absurd p

  pub Ends-bind : (m : Throws S A) (s : S) → Ends P (m s) → Ends Q ((m >>= f) s)
  Ends-bind m s p = Ends-continue (m s) p

pub Ends-mono :
    {S A : Type 0} (P Q : A → S → Type 0)
    → ((a : A) (s : S) → P a s → Q a s)
    → (r : S × Outcome A) → Ends P r
    → Ends Q r
Ends-mono P Q weaker (s, ok a) p = weaker a s p
Ends-mono P Q weaker (s, thrown e) p = absurd p
