-- ===== src/Entity/Tests.antt =====
-- Runs of the entity store, and the theorems about it at concrete stores.
use agentic_rpgmaker.Base.{
  ℕ, ◌-◌, ◌≡◌, ◌≢◌, refl, none, some, [], ◌∷◌, arith, nat_eq_iff, pos, ◌+ℤ◌, ℕ_eq,
}
use agentic_rpgmaker.Base.Dict.{get, includes, count}
use agentic_rpgmaker.Entity.{
  transform_type, transform, make_transform, make_object, Heap, new_component, add_component,
  get_component,
}
use agentic_rpgmaker.Entity.Ownership.{IsOwned, add_component-IsOwned}
use agentic_rpgmaker.Entity.Tree.{add_child, traverse, world_position}
use agentic_rpgmaker.Entity.Tree.Forest.{IsForest, add_child-IsForest}
use agentic_rpgmaker.Entity.Tree.Walk.{GrowsDown}
use agentic_rpgmaker.Entity.Tree.Descent.{FallsDown}

running : Unit {0}
unfolding add_child add_component new_component get_component traverse world_position
running = tt

-- Five entities, and two components that nobody owns.
bare : Heap
bare = record {
  next_object = 5;
  objects = λ e. make_object "entity" none (some (pos 0)) none;
  next_component = 2;
  components =
      λ c. record { owner = none; payload = transform (make_transform (some (pos 7)) none none) };
}

bare-IsOwned : IsOwned bare
unfolding bare get
bare-IsOwned = record { listed = λ e t c found. ground arith; owned = λ c e o. ground arith }

dressed : Heap
unfolding add_component
dressed = (add_component 0 0 bare).0

dressed-IsOwned : IsOwned dressed
unfolding bare dressed
dressed-IsOwned = add_component-IsOwned 0 0 bare bare-IsOwned refl

-- Entities at (7, 0) from their parents; then 0 over 1, and 1 over 2.
loose : Heap
unfolding bare
loose = record bare {
  objects =
      λ e. record (make_object "entity" none none none) { components = (transform_type, 0) ∷ [] };
}

loose-IsForest : IsForest loose
unfolding loose bare count
loose-IsForest p c = refl

tree : Heap
unfolding add_child
tree = add_child 1 2 (add_child 0 1 loose)

tree-IsForest : IsForest tree
unfolding tree
tree-IsForest =
    (add_child-IsForest 1 2 (add_child 0 1 loose) (add_child-IsForest 0 1 loose loose-IsForest).2).2

add_child-IsForest_example :
    (((add_child 0 2 tree).objects 2).parent ≡ some 0)
    × ((d : ℕ) → 2 ≢ d → ((add_child 0 2 tree).objects d).parent ≡ (tree.objects d).parent)
    × IsForest (add_child 0 2 tree)
add_child-IsForest_example = add_child-IsForest 0 2 tree tree-IsForest

tree-GrowsDown : GrowsDown (λ e. e) tree
unfolding tree loose bare running
tree-GrowsDown c p e = ground (arith, nat_eq_iff 1 c, nat_eq_iff 2 c, nat_eq_iff 0 c)

tree-FallsDown : FallsDown (λ e. 5 - e) tree
unfolding tree loose bare running includes
tree-FallsDown p c listed =
    ground (arith, nat_eq_iff 1 c, nat_eq_iff 2 c, nat_eq_iff 0 p, nat_eq_iff 1 p, nat_eq_iff 2 p)

tree_runs :
    (traverse 6 tree 0 ≡ 0 ∷ 1 ∷ 2 ∷ [])
    × (world_position 2 tree 2 ≡ some (record { x = pos 21; y = pos 0 }))
unfolding tree loose bare running ◌+ℤ◌
tree_runs = (refl, refl)
