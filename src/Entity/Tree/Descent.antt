-- ===== src/Entity/Tree/Descent.antt =====
-- What `traverse` visits: exactly the nodes below its start.
use agentic_rpgmaker.Base.{
  flat_map, ℕ, zero, suc, ◌<◌, ◌≡◌, true, List, [], ◌∷◌, ◌==◌, arith, inl, inr, Bool-cases,
  nat_eq_iff, ℕ_eq, ◌↔◌,
}
use agentic_rpgmaker.Base.Dict.{includes, includes-append}
use agentic_rpgmaker.Entity.{Heap}
use agentic_rpgmaker.Entity.Tree.{traverse}

-- `Below h r e`: there is a chain of children from r to e.
pub data Below (h : Heap) : ℕ → ℕ → Type 0 where
  here : (r : ℕ) → Below h r r
  under : {r e : ℕ} (c : ℕ) → includes c (h.objects r).children ≡ true → Below h c e → Below h r e

-- A height that falls from a node to its children: the store has no cycle of children.
abbrev pub FallsDown : (ℕ → ℕ) → Heap → Type 0
FallsDown height h = (p c : ℕ) → includes c (h.objects p).children ≡ true → height c < height p

includes-flat_map :
    (f : ℕ → List ℕ) (c e : ℕ) (cs : List ℕ)
    → includes c cs ≡ true
    → includes e (f c) ≡ true
    → includes e (flat_map f cs) ≡ true
unfolding includes
includes-flat_map f c e [] m k = cc
includes-flat_map f c e (d ∷ cs) m k = elim (Bool-cases (d == c)) [
  | inl same ↦
      let here : includes e (f d) ≡ true = rw ((nat_eq_iff d c).0 same) k in
      ground (arith, includes-append e (f d) (flat_map f cs))
  | inr other ↦
      ground (
        arith,
        includes-append e (f d) (flat_map f cs),
        includes-flat_map f c e cs (ground arith) k,
      )
]

flat_map-includes :
    (f : ℕ → List ℕ) (e : ℕ) (cs : List ℕ)
    → includes e (flat_map f cs) ≡ true
    → (c : ℕ) × (includes c cs ≡ true) × (includes e (f c) ≡ true)
unfolding includes
flat_map-includes f e [] m = cc
flat_map-includes f e (d ∷ cs) m = elim (Bool-cases (includes e (f d))) [
  | inl first ↦ (d, ground (arith, nat_eq_iff d d), first)
  | inr later ↦
      let (c, listed, found) =
        flat_map-includes f e cs (ground (arith, includes-append e (f d) (flat_map f cs))) in
      (c, ground arith, found)
]

traverse_sound :
    (fuel : ℕ) (h : Heap) (r e : ℕ) → includes e (traverse fuel h r) ≡ true → Below h r e
unfolding traverse includes
traverse_sound zero h r e m = cc
traverse_sound (suc fuel) h r e m = elim (Bool-cases (r == e)) [
  | inl same ↦ rw (← (nat_eq_iff r e).0 same) (here r)
  | inr other ↦
      let (c, listed, found) =
        flat_map-includes (traverse fuel h) e (h.objects r).children (ground arith) in
      under c listed (traverse_sound fuel h c e found)
]

module _ (height : ℕ → ℕ) (h : Heap) (falls : FallsDown height h) where
  traverse_complete :
      (fuel : ℕ) {r e : ℕ} → height r < fuel → Below h r e → includes e (traverse fuel h r) ≡ true
  unfolding traverse includes
  traverse_complete zero lt b = absurd (omega arith)
  traverse_complete (suc fuel) lt (here r) = ground (arith, nat_eq_iff r r)
  traverse_complete (suc fuel) {r} {e} lt (under c listed b) = ground (
    arith,
    includes-flat_map (traverse fuel h) c e (h.objects r).children listed
        (traverse_complete fuel {r = c} {e = e} (omega (arith, falls r c listed)) b),
  )

  -- With fuel above the height of its start, `traverse` visits a node exactly when a chain of
  -- children leads to it.
  pub traverse_iff :
      (fuel r e : ℕ) → height r < fuel → (includes e (traverse fuel h r) ≡ true) ↔ Below h r e
  traverse_iff fuel r e lt = (traverse_sound fuel h r e, traverse_complete fuel lt)
