-- ===== src/Movement/Tests.antt =====
-- A room with walls, and the theorems about movement at it.
use agentic_rpgmaker.Base.{
  ℕ, ◌≡◌, refl, true, false, ◌&&◌, none, some, [], ◌∷◌, ◌⊎◌, ◌↔◌, any, ℤ, pos, negsuc, ◌+ℤ◌, ◌-ℤ◌,
  from_int, whole,
}
use agentic_rpgmaker.Behavior.{Vec2}
use agentic_rpgmaker.Schema.{TileLayer, MapData}
use agentic_rpgmaker.Entity.{Heap, make_object, collider, collider_type}
use agentic_rpgmaker.Entity.Shape.{rect, aabbs_overlap_strict}
use agentic_rpgmaker.Movement.{
  SolidTileGrid, build_collision_grid, is_collider_layer, is_listed, is_solid, check_step,
  overlaps_solid_tiles, mover_box,
}
use agentic_rpgmaker.Movement.Layers.{matches_collider}
use agentic_rpgmaker.Movement.Tiles.{tile_box, overlaps_solid_tiles_iff}
use agentic_rpgmaker.Movement.Grid.{marks_tile, build_collision_grid_lem}
use agentic_rpgmaker.Movement.Steps.{HitsTile, StoppedBy, blocked_by, free, check_step_verdict}

running : Unit {0}
unfolding build_collision_grid is_listed check_step matches_collider ◌+ℤ◌ ◌-ℤ◌
running = tt

room : MapData
room = record {
  id = "room";
  name = "Room";
  tile_size = 16;
  width = 3;
  height = 2;
  tileset = "room";
  layers =
      record {
        id = "ground";
        name = "Ground";
        opacity = pos 1000;
        visible = true;
        tiles = (1 ∷ 1 ∷ 1 ∷ []) ∷ (1 ∷ 1 ∷ 1 ∷ []) ∷ [];
      }
      ∷ record {
        id = "walls";
        name = "The Colliders";
        opacity = pos 1000;
        visible = false;
        tiles = (0 ∷ 0 ∷ 1 ∷ []) ∷ (0 ∷ 0 ∷ 0 ∷ []) ∷ [];
      }
      ∷ [];
  events = [];
  variables = [];
  switches = [];
}

-- One entity, at the origin of the map, with a solid tile for its body.
crowd : Heap
crowd = record {
  next_object = 1;
  objects =
      λ e. record (make_object "guide" none none none) { components = (collider_type, 0) ∷ [] };
  next_component = 1;
  components = λ c. record {
    owner = some 0;
    payload = collider (record { shape = rect (whole 1) (whole 1) (pos 0) (pos 0); solid = true });
  };
}

grid : SolidTileGrid
unfolding room build_collision_grid
grid = build_collision_grid room

abbrev at : ℕ → ℕ → Vec2
at x y = record { x = whole x; y = whole y }

build_collision_grid_lem_example :
    is_listed (pos 2) (pos 0) (build_collision_grid room).solid
    ≡ any (λ (layer : TileLayer). is_collider_layer layer && marks_tile layer.tiles 0 2) room.layers
build_collision_grid_lem_example = build_collision_grid_lem room 2 0

overlaps_solid_tiles_iff_example : (overlaps_solid_tiles (mover_box none (at 2 0)) grid ≡ true) ↔ (
    (tx : ℤ) × (ty : ℤ) × (is_solid grid (from_int tx) (from_int ty) ≡ true)
    × (aabbs_overlap_strict (mover_box none (at 2 0)) (tile_box tx ty) ≡ true))
overlaps_solid_tiles_iff_example = overlaps_solid_tiles_iff (mover_box none (at 2 0)) grid

check_step_verdict_example :
    (HitsTile (mover_box none (at 0 0)) grid
      × (check_step (at 0 0) grid (0 ∷ []) (some "player") none crowd ≡ blocked_by "map"))
    ⊎ ((¬ HitsTile (mover_box none (at 0 0)) grid)
        × StoppedBy
            (mover_box none (at 0 0))
            (some "player")
            crowd
            (0 ∷ [])
            (check_step (at 0 0) grid (0 ∷ []) (some "player") none crowd))
check_step_verdict_example = check_step_verdict (at 0 0) grid (0 ∷ []) (some "player") none crowd

steps :
    (check_step (at 1 1) grid (0 ∷ []) (some "player") none crowd ≡ free)
    × (check_step (at 2 0) grid (0 ∷ []) (some "player") none crowd ≡ blocked_by "map")
    × (check_step (at 0 0) grid (0 ∷ []) (some "player") none crowd ≡ blocked_by "guide")
    × (check_step (at 0 0) grid (0 ∷ []) (some "guide") none crowd ≡ free)
    × (check_step (record { x = negsuc 999; y = whole 1 }) grid [] none none crowd
        ≡ blocked_by "map")
unfolding running room grid crowd
steps = (refl, refl, refl, refl, refl)
