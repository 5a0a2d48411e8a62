-- ===== src/Entity.antt =====
-- Entities and their components, packages/core/src/entity. Objects are shared and mutable, so
-- entities and components stand in a store, and a reference is a place in it.
pub mod Shape
pub mod Ownership
pub mod Tree
mod Tests
use agentic_rpgmaker.Base.{
  ℕ, zero, suc, ◌≡◌, refl, ◌↔◌, Bool, true, false, Option, none, some, List, [], ◌∷◌, String,
  if◌then◌else◌, ◌==◌, Eq, ℤ, pos, ◌+ℤ◌, or_else, arith, ℕ_eq, is_some,
}
use agentic_rpgmaker.Base.Dict.{Dict, get, insert, delete, has}
use agentic_rpgmaker.Thrown.{Error, already_has, already_attached, Outcome, ok, thrown}
use agentic_rpgmaker.Behavior.{Direction, down, Vec2, RuleBased}
use Shape.{ColliderShape}

pub record Transform : Type 0 where
  pub x : ℤ
  pub y : ℤ
  pub direction : Direction

abbrev pub make_transform : Option ℤ → Option ℤ → Option Direction → Transform
make_transform x y direction = record {
  x = or_else x (pos 0);
  y = or_else y (pos 0);
  direction = or_else direction down;
}

abbrev pub set_position : ℤ → ℤ → Transform → Transform
set_position x y t = record t { x = x; y = y }

abbrev pub translate : ℤ → ℤ → Transform → Transform
translate dx dy t = record t { x = t.x +ℤ dx; y = t.y +ℤ dy }

abbrev pub set_direction : Direction → Transform → Transform
set_direction direction t = record t { direction = direction }

pub record Sprite : Type 0 where
  pub texture : String
  pub frame : ℤ

pub record Collider : Type 0 where
  pub shape : ColliderShape
  pub solid : Bool

-- The `type` of a component.
pub data ComponentType : Type 0 where
  transform_type sprite_type collider_type behavior_type : ComponentType

abbrev same_type : ComponentType → ComponentType → Bool
same_type transform_type transform_type = true
same_type sprite_type sprite_type = true
same_type collider_type collider_type = true
same_type behavior_type behavior_type = true
same_type _ _ = false

pub same_type_iff : (a b : ComponentType) → (same_type a b ≡ true) ↔ (a ≡ b)
same_type_iff transform_type transform_type = ground arith
same_type_iff a b = ground arith

instance abbrev pub ComponentType_eq : Eq ComponentType
ComponentType_eq = record { beq = same_type; beq_iff = same_type_iff }

-- The state of a component, by class. A behavior component holds a strategy or null.
pub data Payload : Type 0 where
  transform : Transform → Payload
  sprite : Sprite → Payload
  collider : Collider → Payload
  behavior : Option RuleBased → Payload

abbrev pub type_of : Payload → ComponentType
type_of (transform t) = transform_type
type_of (sprite s) = sprite_type
type_of (collider c) = collider_type
type_of (behavior b) = behavior_type

pub record Component : Type 0 where
  pub owner : Option ℕ
  pub payload : Payload

pub record GameObject : Type 0 where
  pub id : String
  pub name : String
  pub layer : ℤ
  pub culling_group : Option String
  pub active : Bool
  pub parent : Option ℕ
  pub children : List ℕ
  pub components : Dict ComponentType ℕ

-- The constructor.
abbrev pub make_object : String → Option String → Option ℤ → Option String → GameObject
make_object id name layer culling_group = record {
  id = id;
  name = or_else name id;
  layer = or_else layer (pos 0);
  culling_group = culling_group;
  active = true;
  parent = none;
  children = [];
  components = [];
}

-- A reference below `next_object` is an entity, and one below `next_component` a component.
pub record Heap : Type 0 where
  pub next_object : ℕ
  pub objects : ℕ → GameObject
  pub next_component : ℕ
  pub components : ℕ → Component

abbrev pub update {ℓ} : {A : Type ℓ} → (ℕ → A) → ℕ → A → ℕ → A
update f p v q = if p == q then v else f q

unfoldable pub put_object : ℕ → GameObject → Heap → Heap
put_object p o h = record h { objects = update h.objects p o }

unfoldable pub put_component : ℕ → Component → Heap → Heap
put_component p c h = record h { components = update h.components p c }

-- `new GameObject(…)` and `new Transform(…)`: the place is the `next` of the store before.
unfoldable pub new_object : GameObject → Heap → Heap
new_object o h = record h {
  next_object = suc h.next_object;
  objects = update h.objects h.next_object o;
}

unfoldable pub new_component : Payload → Heap → Heap
new_component payload h = record h {
  next_component = suc h.next_component;
  components = update h.components h.next_component (record { owner = none; payload = payload });
}

-- `_owner !== null && _owner !== owner`
abbrev owned_by_other : Option ℕ → ℕ → Bool
owned_by_other none e = false
owned_by_other (some o) e = if o == e then false else true

-- `Component.attach`
unfoldable pub attach : ℕ → ℕ → Heap → Heap × Outcome (Unit {0})
unfolding put_component
attach c e h =
    if owned_by_other (h.components c).owner e
    then (h, thrown (already_attached (h.objects e).id))
    else (put_component c (record (h.components c) { owner = some e }) h, ok tt)

-- `Component.detach`
unfoldable pub detach : ℕ → Heap → Heap
unfolding put_component
detach c h = put_component c (record (h.components c) { owner = none }) h

-- `addComponent`: the entry of the map is written before the component is attached.
unfoldable pub add_component : ℕ → ℕ → Heap → Heap × Outcome (Unit {0})
unfolding attach put_object get insert
add_component e c h =
    let type = type_of (h.components c).payload in
    if has type (h.objects e).components
    then (h, thrown (already_has (h.objects e).id))
    else attach c e (
        put_object e (record (h.objects e) { components = insert type c (h.objects e).components })
          h)

unfoldable pub get_component : ComponentType → ℕ → Heap → Option ℕ
unfolding get
get_component type e h = get type (h.objects e).components

unfoldable pub removed : ComponentType → ℕ → Heap → Option ℕ → Heap × Option ℕ
unfolding detach put_object delete
removed type e h none = (h, none)
removed type e h (some c) = (
  detach c
      (put_object e (record (h.objects e) { components = delete type (h.objects e).components }) h),
  some c,
)

-- `removeComponent`
unfoldable pub remove_component : ComponentType → ℕ → Heap → Heap × Option ℕ
unfolding removed get_component
remove_component type e h = removed type e h (get_component type e h)

-- What a transform component holds, for a reference that `get_component` gave.
abbrev transform_of : Payload → Option Transform
transform_of (transform t) = some t
transform_of _ = none

unfoldable pub read_transform : ℕ → Heap → Option Transform
unfolding get_component
read_transform e h = elim (get_component transform_type e h) [
  | none ↦ none
  | some c ↦ transform_of (h.components c).payload
]

-- A write to the transform of an entity: nothing, where it has none.
unfoldable pub write_transform : ℕ → (Transform → Transform) → Heap → Heap
unfolding get_component put_component
write_transform e f h = elim (get_component transform_type e h) [
  | none ↦ h
  | some c ↦ elim (transform_of (h.components c).payload) [
    | none ↦ h
    | some t ↦ put_component c (record (h.components c) { payload = transform (f t) }) h
  ]
]
