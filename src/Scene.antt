-- ===== src/Scene.antt =====
-- The scene graph, packages/core/src/scene/scene-graph.ts: the tree of entities under a root, and
-- the registry that finds an entity by its id.
pub mod Build
pub mod Registry
pub mod FromMap
mod Tests
use agentic_rpgmaker.Base.{
  ℕ, zero, suc, ◌-◌, ◌≡◌, Bool, true, false, Option, none, some, List, [], ◌∷◌, ◌++◌, String,
  if◌then◌else◌, ◌==◌, not, ◌&&◌, ℤ, pos, whole, or_else, is_some, length, ℕ_eq, String_eq,
}
use agentic_rpgmaker.Base.Dict.{Dict, get, insert, delete, has, includes}
use agentic_rpgmaker.Thrown.{
  Error, scene_contains, duplicate_id, no_waypoints, Outcome, ok, thrown, Throws, return, raise,
  continue, for_each, ◌>>=◌, ◌>>◌,
}
use agentic_rpgmaker.Behavior.{Vec2, Direction, Config, RuleBased, make}
use agentic_rpgmaker.Schema.{MapEvent, MapData}
use agentic_rpgmaker.Entity.Shape.{rect}
use agentic_rpgmaker.Entity.{
  GameObject, Heap, Payload, transform, sprite, collider, behavior, ComponentType, behavior_type,
  make_object, make_transform, new_object, new_component, add_component, get_component,
  put_component,
}
use agentic_rpgmaker.Entity.Tree.{add_child, traverse, destroy, world_position}

pub record Scene : Type 0 where
  pub root : ℕ
  pub by_id : Dict String ℕ
  pub heap : Heap

abbrev pub player_entity_id : String
player_entity_id = "player"

-- A call on the store of entities, made in a scene.
abbrev pub on_heap : {A : Type 0} → Throws Heap A → Throws Scene A
on_heap m s = let (h, r) = m s.heap in (record s { heap = h }, r)

-- The nodes of the tree of an entity. No chain of children is longer than the number of entities.
unfoldable pub subtree : Heap → ℕ → List ℕ
unfolding traverse
subtree h e = traverse h.next_object h e

-- `byId.has(id) && byId.get(id) !== node`
abbrev is_other : Option ℕ → ℕ → Bool
is_other none e = false
is_other (some d) e = not (d == e)

-- The loop of `index` over the nodes of a subtree.
unfoldable pub index_nodes : List ℕ → Throws Scene (Unit {0})
unfolding get insert
index_nodes [] s = (s, ok tt)
index_nodes (e ∷ es) s =
    let id = (s.heap.objects e).id in
    let rest = index_nodes es (record s { by_id = insert id e s.by_id }) in
    if is_other (get id s.by_id) e then (s, thrown (duplicate_id id)) else rest

unfoldable pub index : ℕ → Throws Scene (Unit {0})
unfolding index_nodes subtree
index e s = index_nodes (subtree s.heap e) s

-- `addEntity`
unfoldable pub add_entity : ℕ → ℕ → Throws Scene (Unit {0})
unfolding index get add_child
add_entity e parent s =
    let id = (s.heap.objects e).id in
    if has id s.by_id
    then (s, thrown (scene_contains id))
    else index e (record s { heap = add_child parent e s.heap })

-- The loop of `removeEntity` over the registry.
unfoldable pub forget : Heap → List ℕ → Dict String ℕ → Dict String ℕ
unfolding delete
forget h [] m = m
forget h (e ∷ es) m = forget h es (delete (h.objects e).id m)

unfoldable pub remove_entity : String → Scene → Scene × Bool
unfolding get forget subtree destroy
remove_entity id s = elim (get id s.by_id) [
  | none ↦ (s, false)
  | some e ↦ (
    record s {
      by_id = forget s.heap (subtree s.heap e) s.by_id;
      heap = destroy s.heap.next_object e s.heap;
    },
    true,
  )
]

unfoldable pub get_entity_by_id : String → Scene → Option ℕ
unfolding get
get_entity_by_id id s = get id s.by_id

abbrev pub select : (ℕ → Bool) → List ℕ → List ℕ
select p [] = []
select p (e ∷ es) = if p e then e ∷ select p es else select p es

unfoldable pub find_entities_by_component : ComponentType → Scene → List ℕ
unfolding subtree get_component
find_entities_by_component type s =
    select (λ e. is_some (get_component type e s.heap)) (subtree s.heap s.root)

abbrev in_group : Option String → String → Bool
in_group none group = false
in_group (some g) group = g == group

unfoldable pub find_entities_by_culling_group : String → Scene → List ℕ
unfolding subtree
find_entities_by_culling_group group s =
    select (λ e. in_group (s.heap.objects e).culling_group group) (subtree s.heap s.root)

-- `size`: the root is registered and not counted.
unfoldable pub size : Scene → ℕ
size s = length s.by_id - 1

-- `new GameObject(…)` and a component that is made and added in one expression.
unfoldable pub create_object : GameObject → Throws Heap ℕ
unfolding new_object
create_object o h = (new_object o h, ok h.next_object)

unfoldable pub create_component : ℕ → Payload → Throws Heap ℕ
unfolding new_component add_component
create_component e payload h =
    continue (λ _. return h.next_component)
      (add_component e h.next_component (new_component payload h))

-- `buildBehaviorFromConfig`
unfoldable pub build_behavior_from_config : Config → Throws Heap RuleBased
unfolding make
build_behavior_from_config config h = elim (make config) [
  | none ↦ (h, thrown no_waypoints)
  | some b ↦ (h, ok b)
]

unfoldable pub set_behavior : ℕ → RuleBased → Throws Heap (Unit {0})
unfolding put_component
set_behavior c b h =
    (put_component c (record (h.components c) { payload = behavior (some b) }) h, ok tt)

-- The behavior component of an entity, which is added where there is none.
unfoldable pub behavior_component : ℕ → Throws Heap ℕ
unfolding create_component get_component
behavior_component e h = elim (get_component behavior_type e h) [
  | none ↦ create_component e (behavior none) h
  | some c ↦ (h, ok c)
]

unfoldable pub dress : ℕ → Option String → Throws Heap (Unit {0})
unfolding create_component
dress e none = return tt
dress e (some texture) = do
  create_component e (sprite (record { texture = texture; frame = pos 0 })) >>= λ _. return tt
  create_component e (behavior none) >>= λ _. return tt

unfoldable pub drive : ℕ → Option Config → Throws Heap (Unit {0})
unfolding behavior_component build_behavior_from_config set_behavior
drive e none = return tt
drive e (some config) = do
  c ← behavior_component e
  b ← build_behavior_from_config config
  set_behavior c b

-- `buildEventEntity`
unfoldable pub build_event_entity : MapEvent → ℤ → Throws Heap ℕ
unfolding create_object create_component dress drive
build_event_entity event layer = do
  e ← create_object (make_object event.id (some event.name) (some layer) none)
  create_component e (transform (make_transform (some event.x) (some event.y) none)) >>= λ _.
      return tt
  dress e event.sprite
  drive e event.behavior
  return e

pub record SceneGraphOptions : Type 0 where
  pub player_position : Option Vec2
  pub player_direction : Option Direction
  pub player_sprite : Option String
  pub event_layer : Option ℤ

-- The constructor without a root of its own.
unfoldable pub new_scene : Throws Scene (Unit {0})
unfolding create_object index
new_scene s0 =
    let h = (create_object (make_object "root" (some "Root") none none) s0.heap).0 in
    index s0.heap.next_object (record { root = s0.heap.next_object; by_id = []; heap = h })

abbrev position_x : Option Vec2 → ℤ
position_x none = pos 0
position_x (some p) = p.x

abbrev position_y : Option Vec2 → ℤ
position_y none = pos 0
position_y (some p) = p.y

unfoldable pub build_player : SceneGraphOptions → Throws Heap ℕ
unfolding create_object create_component
build_player options = do
  e ← create_object (make_object player_entity_id (some "Player") (some (whole 1)) none)
  create_component e (
        transform (
          make_transform (some (position_x options.player_position))
            (some (position_y options.player_position)) options.player_direction))
      >>= λ _. return tt
  create_component e (
        sprite
          (record { texture = or_else options.player_sprite "characters/player"; frame = pos 0 }))
      >>= λ _. return tt
  create_component e
        (collider (record { shape = rect (whole 1) (whole 1) (pos 0) (pos 0); solid = true }))
      >>= λ _. return tt
  return e

unfoldable pub place_event : ℤ → MapEvent → Throws Scene (Unit {0})
place_event layer event s = (do e ← on_heap (build_event_entity event layer); add_entity e s.root) s

unfoldable pub place_player : SceneGraphOptions → Throws Scene (Unit {0})
place_player options s = (do e ← on_heap (build_player options); add_entity e s.root) s

-- `fromMap`, over the scene that the constructor made.
unfoldable pub from_map : MapData → SceneGraphOptions → Throws Scene (Unit {0})
from_map map options = do
  new_scene
  place_player options
  for_each map.events (place_event (or_else options.event_layer (whole 2)))
