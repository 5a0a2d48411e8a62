-- ===== src/Entity/Tree.antt =====
-- Entities as nodes of the scene tree: the second half of packages/core/src/entity/game-object.ts.
-- The recursions and the loop over the ancestors take fuel; `Tree.Walk` shows how much is enough.
pub mod Forest
pub mod Walk
pub mod Descent
use agentic_rpgmaker.Base.{
  flat_map, ℕ, zero, suc, ◌+◌, ◌≡◌, Bool, true, false, Option, none, some, List, [], ◌∷◌, ◌++◌,
  String, if◌then◌else◌, ◌==◌, ℤ, pos, ◌+ℤ◌, ℕ_eq, map,
}
use agentic_rpgmaker.Base.Dict.{includes, remove_first}
use agentic_rpgmaker.Behavior.{Vec2}
use agentic_rpgmaker.Entity.{
  GameObject, Heap, Transform, ComponentType, put_object, read_transform, remove_component,
}

-- `entity.parent === p`
abbrev pub is_parent : Option ℕ → ℕ → Bool
is_parent none p = false
is_parent (some q) p = q == p

unfoldable pub set_parent : ℕ → Option ℕ → Heap → Heap
unfolding put_object
set_parent c parent h = put_object c (record (h.objects c) { parent = parent }) h

unfoldable pub set_children : ℕ → List ℕ → Heap → Heap
unfolding put_object
set_children p children h = put_object p (record (h.objects p) { children = children }) h

-- `removeChild`
unfoldable pub remove_child : ℕ → ℕ → Heap → Heap × Bool
unfolding set_parent set_children includes remove_first
remove_child p c h =
    if includes c (h.objects p).children
    then (set_parent c none (set_children p (remove_first c (h.objects p).children) h), true)
    else (h, false)

-- `child.parent?.removeChild(child)`
unfoldable pub leave_parent : Option ℕ → ℕ → Heap → Heap
unfolding remove_child
leave_parent none c h = h
leave_parent (some q) c h = (remove_child q c h).0

unfoldable pub adopt : ℕ → ℕ → Heap → Heap
unfolding set_parent set_children
adopt p c h0 =
    let h = set_parent c (some p) h0 in set_children p ((h.objects p).children ++ c ∷ []) h

-- `addChild`
unfoldable pub add_child : ℕ → ℕ → Heap → Heap
unfolding leave_parent adopt
add_child p c h =
    if is_parent (h.objects c).parent p
    then h
    else adopt p c (leave_parent (h.objects c).parent c h)

-- The order of `traverse`: an entity, then the trees of its children.
unfoldable pub traverse : ℕ → Heap → ℕ → List ℕ
traverse zero h e = []
traverse (suc fuel) h e = e ∷ flat_map (traverse fuel h) (h.objects e).children

-- `getAncestors`; `none` if the fuel ran out.
unfoldable pub ancestors : ℕ → Heap → Option ℕ → Option (List ℕ)
ancestors fuel h none = some []
ancestors zero h (some p) = none
ancestors (suc fuel) h (some p) = elim (ancestors fuel h (h.objects p).parent) [
  | none ↦ none
  | some ps ↦ some (p ∷ ps)
]

abbrev pub plus_transform : Option Transform → Vec2 → Vec2
plus_transform none v = v
plus_transform (some t) v = record { x = v.x +ℤ t.x; y = v.y +ℤ t.y }

-- The loop of `getWorldPosition` over the ancestors.
unfoldable pub plus_ancestors : Heap → List ℕ → Vec2 → Vec2
unfolding read_transform
plus_ancestors h [] v = v
plus_ancestors h (p ∷ ps) v = plus_ancestors h ps (plus_transform (read_transform p h) v)

unfoldable pub world_position : ℕ → Heap → ℕ → Option Vec2
unfolding read_transform ancestors plus_ancestors
world_position fuel h e = elim (ancestors fuel h (h.objects e).parent) [
  | none ↦ none
  | some ps ↦
      some (
        plus_ancestors h ps (plus_transform (read_transform e h) (record { x = pos 0; y = pos 0 })))
]

-- The loop over the component types of an entity.
unfoldable pub strip : ℕ → List ComponentType → Heap → Heap
unfolding remove_component
strip e [] h = h
strip e (t ∷ ts) h = strip e ts (remove_component t e h).0

abbrev pub component_types : ℕ → Heap → List ComponentType
component_types e h = map (λ b. b.0) (h.objects e).components

-- The loop over the children, for what `destroy` does to a child.
unfoldable pub destroy_children : (ℕ → Heap → Heap) → ℕ → List ℕ → Heap → Heap
unfolding remove_child
destroy_children destroy_child e [] h = h
destroy_children destroy_child e (c ∷ cs) h =
    destroy_children destroy_child e cs (destroy_child c (remove_child e c h).0)

-- `destroy`
unfoldable pub destroy : ℕ → ℕ → Heap → Heap
unfolding destroy_children leave_parent strip
destroy zero e h = h
destroy (suc fuel) e h =
    let h1 = destroy_children (destroy fuel) e (h.objects e).children h in
    let h2 = leave_parent (h1.objects e).parent e h1 in strip e (component_types e h2) h2
