-- ===== src/Movement.antt =====
-- Grid movement and collision, packages/runtime/src/movement.ts.
pub mod Layers
pub mod Tiles
pub mod Grid
pub mod Steps
mod Tests
use agentic_rpgmaker.Base.{
  ℕ, zero, suc, ◌*◌, ◌≡◌, Bool, true, false, ◌&&◌, ◌||◌, Option, none, some, List, [], ◌∷◌, ◌++◌,
  String, if◌then◌else◌, ◌==◌, any, ltb, ℤ, pos, ◌+ℤ◌, ◌-ℤ◌, ltb_ℤ, leb_ℤ, eqb_ℤ, pos_part, floor,
  from_int, whole, String_eq, ℤ_eq,
}
use agentic_rpgmaker.Behavior.{Vec2}
use agentic_rpgmaker.Schema.{TileLayer, MapData}
use agentic_rpgmaker.Entity.{
  Heap, Collider, Payload, collider, collider_type, get_component, read_transform, GameObject,
  Transform,
}
use agentic_rpgmaker.Entity.Shape.{Aabb, shape_to_local_aabb, aabbs_overlap_strict}
use Layers.{matches_collider}

-- `SolidTileGrid`: the set behind `isSolid` holds columns and rows.
pub record SolidTileGrid : Type 0 where
  pub width : ℕ
  pub height : ℕ
  pub solid : List (ℕ × ℕ)

-- The two loops over the tiles of a layer.
unfoldable pub solid_in_row : ℕ → ℕ → List ℕ → List (ℕ × ℕ)
solid_in_row row col [] = []
solid_in_row row col (value ∷ values) =
    let rest = solid_in_row row (suc col) values in if ltb 0 value then (col, row) ∷ rest else rest

unfoldable pub solid_in_rows : ℕ → List (List ℕ) → List (ℕ × ℕ)
unfolding solid_in_row
solid_in_rows row [] = []
solid_in_rows row (values ∷ rows) = solid_in_row row 0 values ++ solid_in_rows (suc row) rows

abbrev pub is_collider_layer : TileLayer → Bool
is_collider_layer layer = matches_collider layer.id || matches_collider layer.name

unfoldable pub solid_in_layers : List TileLayer → List (ℕ × ℕ)
unfolding solid_in_rows
solid_in_layers [] = []
solid_in_layers (layer ∷ layers) =
    let rest = solid_in_layers layers in
    if is_collider_layer layer then solid_in_rows 0 layer.tiles ++ rest else rest

unfoldable pub build_collision_grid : MapData → SolidTileGrid
unfolding solid_in_layers
build_collision_grid m = record {
  width = m.width;
  height = m.height;
  solid = solid_in_layers m.layers;
}

-- `solid.has(…)`
unfoldable pub is_listed : ℤ → ℤ → List (ℕ × ℕ) → Bool
is_listed x y solid = any (λ t. x == pos t.0 && y == pos t.1) solid

unfoldable pub is_solid : SolidTileGrid → ℤ → ℤ → Bool
unfolding is_listed floor
is_solid grid tx ty =
    let x = floor tx in
    let y = floor ty in
    if ltb_ℤ x (pos 0) || ltb_ℤ y (pos 0) || leb_ℤ (pos grid.width) x || leb_ℤ (pos grid.height) y
    then true
    else is_listed x y grid.solid

-- `for (let t = from; …)`, for as many integers as are given, until the test holds.
unfoldable pub any_from : (ℤ → Bool) → ℤ → ℕ → Bool
any_from p from zero = false
any_from p from (suc n) = p from || any_from p (from +ℤ pos 1) n

-- How many integers t have `min <= t && t <= max`.
abbrev pub span : ℤ → ℤ → ℕ
span min max = pos_part (max +ℤ pos 1 -ℤ min)

-- `overlapsSolidTiles`: numbers count thousandths, so an epsilon that is less than one changes no
-- floor from below, and takes a number that is on a boundary to the integer before.
unfoldable pub overlaps_solid_tiles : Aabb → SolidTileGrid → Bool
unfolding is_solid any_from floor from_int
overlaps_solid_tiles box grid =
    let min_x = floor box.x in
    let max_x = floor (box.x +ℤ box.width -ℤ pos 1) in
    let min_y = floor box.y in
    let max_y = floor (box.y +ℤ box.height -ℤ pos 1) in
    any_from
      (λ ty. any_from (λ tx. is_solid grid (from_int tx) (from_int ty)) min_x (span min_x max_x))
      min_y (span min_y max_y)

abbrev pub place_aabb : Aabb → Vec2 → Aabb
place_aabb local at = record {
  x = at.x +ℤ local.x;
  y = at.y +ℤ local.y;
  width = local.width;
  height = local.height;
}

pub record EntityCollider : Type 0 where
  pub id : String
  pub solid : Bool
  pub aabb : Aabb

abbrev collider_of : Payload → Option Collider
collider_of (collider c) = some c
collider_of _ = none

unfoldable pub read_collider : ℕ → Heap → Option Collider
unfolding get_component
read_collider e h = elim (get_component collider_type e h) [
  | none ↦ none
  | some c ↦ collider_of (h.components c).payload
]

abbrev pub collider_at : String → Vec2 → Option Collider → Option EntityCollider
collider_at id position none = none
collider_at id position (some c) =
    some (record {
      id = id;
      solid = c.solid;
      aabb = place_aabb (shape_to_local_aabb c.shape) position;
    })

unfoldable pub entity_collider_at : ℕ → Vec2 → Heap → Option EntityCollider
unfolding read_collider
entity_collider_at e position h = collider_at (h.objects e).id position (read_collider e h)

abbrev pub position_of : Option Transform → Vec2
position_of none = record { x = pos 0; y = pos 0 }
position_of (some t) = record { x = t.x; y = t.y }

pub record StepCheckResult : Type 0 where
  pub blocked : Bool
  pub blocker_id : Option String

abbrev pub is_self : Option String → String → Bool
is_self none id = false
is_self (some self) id = id == self

abbrev pub stops : Aabb → Option EntityCollider → Bool
stops box none = false
stops box (some c) = c.solid && aabbs_overlap_strict box c.aabb

-- One pass of the loop over the blockers: does this entity stop the mover?
unfoldable pub stops_mover : Aabb → Option String → Heap → ℕ → Bool
unfolding entity_collider_at read_transform aabbs_overlap_strict
stops_mover box self_id h e =
    if is_self self_id (h.objects e).id
    then false
    else stops box (entity_collider_at e (position_of (read_transform e h)) h)

unfoldable pub check_blockers : Aabb → Option String → Heap → List ℕ → StepCheckResult
unfolding stops_mover
check_blockers box self_id h [] = record { blocked = false; blocker_id = none }
check_blockers box self_id h (e ∷ es) =
    let rest = check_blockers box self_id h es in
    if stops_mover box self_id h e
    then record { blocked = true; blocker_id = some (h.objects e).id }
    else rest

-- The box of a mover; without a collider it is one tile.
abbrev pub mover_box : Option Collider → Vec2 → Aabb
mover_box none to = record { x = to.x; y = to.y; width = whole 1; height = whole 1 }
mover_box (some c) to = place_aabb (shape_to_local_aabb c.shape) to

-- `checkStep`; it does not look at `from`.
unfoldable pub check_step :
    Vec2 → SolidTileGrid → List ℕ → Option String → Option Collider → Heap → StepCheckResult
unfolding overlaps_solid_tiles check_blockers
check_step to grid blockers self_id mover h =
    let box = mover_box mover to in
    if overlaps_solid_tiles box grid
    then record { blocked = true; blocker_id = some "map" }
    else check_blockers box self_id h blockers
