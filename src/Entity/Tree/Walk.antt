-- ===== src/Entity/Tree/Walk.antt =====
-- The walks over the tree end, where a rank falls from a parent to its children.
use agentic_rpgmaker.Base.{
  ℕ, zero, suc, ◌≤◌, ◌<◌, ◌≡◌, refl, Option, none, some, List, [], ◌∷◌, arith, ℕ_eq, ℤ, pos, ◌+ℤ◌,
  int_laws, ap, ◌∙◌,
}
use agentic_rpgmaker.Behavior.{Vec2}
use agentic_rpgmaker.Entity.{Heap, Transform, read_transform}
use agentic_rpgmaker.Entity.Tree.{ancestors, plus_transform, plus_ancestors, world_position}

-- A depth that grows from a parent to its child: the store has no cycle of parents.
abbrev pub GrowsDown : (ℕ → ℕ) → Heap → Type 0
GrowsDown depth h = (c p : ℕ) → (h.objects c).parent ≡ some p → depth p < depth c

swap : (a b c : ℤ) → a +ℤ c +ℤ b ≡ a +ℤ b +ℤ c
swap a b c = omega int_laws

-- What the ancestors of a node contribute to its world position.
abbrev pub IsBase : ℕ → Heap → Option ℕ → Vec2 → Type 0
IsBase fuel h none v = v ≡ record { x = pos 0; y = pos 0 }
IsBase fuel h (some p) v = world_position fuel h p ≡ some v

module _ (depth : ℕ → ℕ) (h : Heap) (down : GrowsDown depth h) where
  ancestors_total :
      (fuel c : ℕ) (o : Option ℕ)
      → (h.objects c).parent ≡ o
      → depth c ≤ fuel
      → (ps : List ℕ) × (ancestors fuel h o ≡ some ps)
  unfolding ancestors
  ancestors_total zero c none e le = ([], refl)
  ancestors_total (suc fuel) c none e le = ([], refl)
  ancestors_total zero c (some p) e le = absurd (omega (arith, down c p e))
  ancestors_total (suc fuel) c (some p) e le =
      let (ps, found) =
        ancestors_total fuel p (h.objects p).parent refl (omega (arith, down c p e)) in
      (p ∷ ps, rw found refl)

  world_position_found :
      (fuel c : ℕ) (ps : List ℕ)
      → ancestors fuel h (h.objects c).parent ≡ some ps
      → world_position fuel h c
        ≡ some (
            plus_ancestors h ps
              (plus_transform (read_transform c h) (record { x = pos 0; y = pos 0 })))
  unfolding world_position
  world_position_found fuel c ps e = rw (e, world_position) refl

  plus_transform_comm :
      (s t : Option Transform) (v : Vec2)
      → plus_transform s (plus_transform t v) ≡ plus_transform t (plus_transform s v)
  plus_transform_comm none t v = refl
  plus_transform_comm (some s) none v = refl
  plus_transform_comm (some s) (some t) v =
      λ i. record { x = swap v.x s.x t.x i; y = swap v.y s.y t.y i }

  plus_ancestors_own :
      (ps : List ℕ) (t : Option Transform) (v : Vec2)
      → plus_ancestors h ps (plus_transform t v) ≡ plus_transform t (plus_ancestors h ps v)
  unfolding plus_ancestors
  plus_ancestors_own [] t v = refl
  plus_ancestors_own (p ∷ ps) t v =
      ap (plus_ancestors h ps) (plus_transform_comm (read_transform p h) t v)
      ∙ plus_ancestors_own ps t (plus_transform (read_transform p h) v)

  -- `getWorldPosition` ends, and computes the sum that its comment promises: the world position of
  -- a node without a parent is its own transform, and that of a child is its own transform added
  -- to the world position of its parent. The fuel is a bound on the depth of the node.
  pub world_position_sum :
      (fuel c : ℕ) (o : Option ℕ)
      → (h.objects c).parent ≡ o
      → depth c ≤ suc fuel
      → (v : Vec2) × (world_position (suc fuel) h c ≡ some (plus_transform (read_transform c h) v))
        × IsBase fuel h o v
  unfolding ancestors plus_ancestors
  world_position_sum fuel c none e le =
      (record { x = pos 0; y = pos 0 }, world_position_found (suc fuel) c [] (rw e refl), refl)
  world_position_sum fuel c (some p) e le =
      let (ps, found) =
        ancestors_total fuel p (h.objects p).parent refl (omega (arith, down c p e)) in
      (
        _,
        world_position_found (suc fuel) c (p ∷ ps) (rw (e, ancestors, found) refl)
            ∙ ap some (plus_ancestors_own (p ∷ ps) (read_transform c h) _),
        world_position_found fuel p ps found,
      )
