-- ===== src/Base/Dict.antt =====
-- A JavaScript `Map` as an association list: a new key goes to the end, a key that is there keeps
-- its place, and iteration is in this order. A `Set` is a dictionary with no values.
use Prim.Native.Nat.{ℕ, ◌+◌, ◌-◌}
use mathlib.Core.Path.{◌≡◌, refl}
use mathlib.Core.Bool.{Bool, true, false, ◌||◌}
use mathlib.Core.Option.{Option, none, some}
use mathlib.Core.List.{List, [], ◌∷◌, ◌++◌}
use native.Mathlib.Omega.{arith}
use agentic_rpgmaker.Base.Tests.{if◌then◌else◌, ltb, Eq, ◌==◌, is_some}

abbrev pub Dict : Type 0 → Type 0 → Type 0
Dict K V = List (K × V)

module _ {K V : Type 0} ⦃e : Eq K⦄ where
  unfoldable pub get : K → Dict K V → Option V
  get k [] = none
  get k ((j, v) ∷ m) = if j == k then some v else get k m

  unfoldable pub insert : K → V → Dict K V → Dict K V
  insert k v [] = (k, v) ∷ []
  insert k v ((j, w) ∷ m) = if j == k then (j, v) ∷ m else (j, w) ∷ insert k v m

  unfoldable pub delete : K → Dict K V → Dict K V
  delete k [] = []
  delete k ((j, v) ∷ m) = if j == k then delete k m else (j, v) ∷ delete k m

  abbrev pub has : K → Dict K V → Bool
  has k m = is_some (get k m)

  pub get-insert :
      (k j : K) (v : V) (m : Dict K V) → get j (insert k v m) ≡ (if k == j then some v else get j m)
  unfolding get insert
  get-insert k j v [] = refl
  get-insert k j v ((i, w) ∷ m) =
      ground (arith, e.beq_iff k j, e.beq_iff i k, e.beq_iff i j, get-insert k j v m)

  pub get-delete :
      (k j : K) (m : Dict K V) → get j (delete k m) ≡ (if k == j then none else get j m)
  unfolding get delete
  get-delete k j [] = ground arith
  get-delete k j ((i, w) ∷ m) =
      ground (arith, e.beq_iff k j, e.beq_iff i k, e.beq_iff i j, get-delete k j m)

  pub get-append :
      (j : K) (l m : Dict K V) → get j (l ++ m) ≡ (if is_some (get j l) then get j l else get j m)
  unfolding get
  get-append j [] m = refl
  get-append j ((i, w) ∷ l) m = ground (arith, get-append j l m)

-- Keys are compared by `==`; a key equals itself.
pub beq_refl : {K : Type 0} ⦃e : Eq K⦄ (k : K) → (k == k) ≡ true
beq_refl ⦃e⦄ k = (e.beq_iff k k).1 refl

module _ {K : Type 0} ⦃e : Eq K⦄ where
  -- `Array.prototype.includes`, and `Set.prototype.has` on a set kept as a list.
  unfoldable pub includes : K → List K → Bool
  includes k [] = false
  includes k (j ∷ m) = j == k || includes k m

  -- `Set.prototype.delete`
  unfoldable pub remove_all : K → List K → List K
  remove_all k [] = []
  remove_all k (j ∷ m) = if j == k then remove_all k m else j ∷ remove_all k m

  -- `splice(indexOf(k), 1)`, when the index is not negative
  unfoldable pub remove_first : K → List K → List K
  remove_first k [] = []
  remove_first k (j ∷ m) = if j == k then m else j ∷ remove_first k m

  -- How often k stands in a list.
  unfoldable pub count : K → List K → ℕ
  count k [] = 0
  count k (j ∷ m) = (if j == k then 1 else 0) + count k m

  pub includes-append :
      (k : K) (l m : List K) → includes k (l ++ m) ≡ (includes k l || includes k m)
  unfolding includes
  includes-append k [] m = refl
  includes-append k (j ∷ l) m = ground (arith, includes-append k l m)

  pub includes-remove_all :
      (k j : K) (m : List K)
      → includes j (remove_all k m) ≡ (if k == j then false else includes j m)
  unfolding includes remove_all
  includes-remove_all k j [] = ground arith
  includes-remove_all k j (i ∷ m) =
      ground (arith, e.beq_iff k j, e.beq_iff i k, e.beq_iff i j, includes-remove_all k j m)

  pub count-append : (k : K) (l m : List K) → count k (l ++ m) ≡ count k l + count k m
  unfolding count
  count-append k [] m = omega arith
  count-append k (j ∷ l) m = omega (arith, count-append k l m)

  pub includes-count : (k : K) (m : List K) → includes k m ≡ ltb 0 (count k m)
  unfolding includes count
  includes-count k [] = refl
  includes-count k (j ∷ m) = ground (arith, includes-count k m)

  pub count-remove_first :
      (k j : K) (m : List K) → count j (remove_first k m) ≡ count j m - (if k == j then 1 else 0)
  unfolding count remove_first
  count-remove_first k j [] = ground arith
  count-remove_first k j (i ∷ m) =
      ground (arith, e.beq_iff k j, e.beq_iff i k, e.beq_iff i j, count-remove_first k j m)
