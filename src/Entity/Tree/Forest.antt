-- ===== src/Entity/Tree/Forest.antt =====
-- Parents and children agree: a child stands once in the list of its parent, and nowhere else.
use agentic_rpgmaker.Base.{
  ℕ, ◌≡◌, refl, ◌≢◌, true, false, Option, none, some, [], ◌∷◌, if◌then◌else◌, arith, inl, inr, ap,
  ◌∙◌, Bool-cases, nat_eq_iff, ℕ_eq,
}
use agentic_rpgmaker.Base.Dict.{count, count-append, count-remove_first, includes-count}
use agentic_rpgmaker.Entity.{Heap}
use agentic_rpgmaker.Entity.Tree.{is_parent, remove_child, leave_parent, adopt, add_child}

abbrev pub IsForest : Heap → Type 0
IsForest h =
    (p c : ℕ) → count c (h.objects p).children ≡ (if is_parent (h.objects c).parent p then 1 else 0)

module _ (p c : ℕ) (h : Heap) (v : IsForest h) where
  -- `removeChild` finds exactly the children of the entity, and unhooks both ends.
  pub remove_child-IsForest :
      ((remove_child p c h).1 ≡ is_parent (h.objects c).parent p)
      × (is_parent ((remove_child p c h).0.objects c).parent p ≡ false)
      × IsForest (remove_child p c h).0
  unfolding remove_child
  remove_child-IsForest = (
    ground (arith, includes-count c (h.objects p).children, v p c),
    ground (arith, includes-count c (h.objects p).children, v p c),
    λ q d. ground (
      arith,
      includes-count c (h.objects p).children,
      v p c,
      v p d,
      v q d,
      v q c,
      v c d,
      v c c,
      count-remove_first c d (h.objects p).children,
      nat_eq_iff c d,
    ),
  )

  -- The one node whose parent changes is c.
  pub remove_child_others :
      (d : ℕ) → c ≢ d → ((remove_child p c h).0.objects d).parent ≡ (h.objects d).parent
  unfolding remove_child
  remove_child_others d ne = ground (arith, nat_eq_iff c d)

module _ (c : ℕ) (h : Heap) (v : IsForest h) where
  leave_parent-IsForest :
      (o : Option ℕ)
      → (h.objects c).parent ≡ o
      → (((leave_parent o c h).objects c).parent ≡ none) × IsForest (leave_parent o c h)
  unfolding leave_parent remove_child
  leave_parent-IsForest none e = (e, v)
  leave_parent-IsForest (some q) e = (
    ground (arith, includes-count c (h.objects q).children, v q c),
    (remove_child-IsForest q c h v).2,
  )

  leave_parent_others :
      (o : Option ℕ) (d : ℕ)
      → c ≢ d
      → ((leave_parent o c h).objects d).parent ≡ (h.objects d).parent
  unfolding leave_parent
  leave_parent_others none d ne = refl
  leave_parent_others (some q) d ne = remove_child_others q c h v d ne

adopt-IsForest :
    (p c : ℕ) (h : Heap)
    → IsForest h
    → (h.objects c).parent ≡ none
    → (((adopt p c h).objects c).parent ≡ some p) × IsForest (adopt p c h)
unfolding adopt count
adopt-IsForest p c h v e = (
  ground arith,
  λ q d. ground (
    arith,
    v p d,
    v q d,
    v q c,
    v p c,
    v c d,
    v c c,
    count-append d (h.objects p).children (c ∷ []),
    nat_eq_iff c d,
  ),
)

adopt_others :
    (p c : ℕ) (h : Heap) (d : ℕ) → c ≢ d → ((adopt p c h).objects d).parent ≡ (h.objects d).parent
unfolding adopt
adopt_others p c h d ne = ground (arith, nat_eq_iff c d)

is_parent_iff : (o : Option ℕ) (p : ℕ) → is_parent o p ≡ true → o ≡ some p
is_parent_iff none p e = cc
is_parent_iff (some q) p e = ap some ((nat_eq_iff q p).0 e)

module _ (p c : ℕ) (h : Heap) where
  add_child_same : is_parent (h.objects c).parent p ≡ true → add_child p c h ≡ h
  unfolding add_child
  add_child_same e = rw e refl

  add_child_moved :
      is_parent (h.objects c).parent p ≡ false
      → add_child p c h ≡ adopt p c (leave_parent (h.objects c).parent c h)
  unfolding add_child
  add_child_moved e = rw e refl

-- `addChild` moves a node away from its parent, wherever it hung: afterwards its parent is p, no
-- other parent has changed, and each node again stands once in the list of its parent and nowhere
-- else.
pub add_child-IsForest :
    (p c : ℕ) (h : Heap)
    → IsForest h
    → (((add_child p c h).objects c).parent ≡ some p)
      × ((d : ℕ) → c ≢ d → ((add_child p c h).objects d).parent ≡ (h.objects d).parent)
      × IsForest (add_child p c h)
add_child-IsForest p c h v = elim (Bool-cases (is_parent (h.objects c).parent p)) [
  | inl e ↦ rw (add_child_same p c h e) (is_parent_iff (h.objects c).parent p e, λ d ne. refl, v)
  | inr e ↦
      let (alone, w) = leave_parent-IsForest c h v (h.objects c).parent refl in
      let h1 = leave_parent (h.objects c).parent c h in
      let (parent, forest) = adopt-IsForest p c h1 w alone in
      rw (add_child_moved p c h e) (
        parent,
        λ d ne. adopt_others p c h1 d ne ∙ leave_parent_others c h v (h.objects c).parent d ne,
        forest,
      )
]
