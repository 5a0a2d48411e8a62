-- ===== src/Cull.antt =====
-- The tiles in view, packages/renderer/src/tiles.ts. A viewport and the edge of a tile count
-- thousandths of a pixel, which leaves their quotients as they are.
pub mod Visible
mod Tests
use agentic_rpgmaker.Base.{
  ℕ, suc, ◌+◌, ◌-◌, ◌/◌, Bool, ◌||◌, ℤ, pos, negsuc, ◌+ℤ◌, ◌-ℤ◌, leb_ℤ, min_ℤ, max_ℤ, if◌then◌else◌,
}

pub record Viewport : Type 0 where
  pub x : ℤ
  pub y : ℤ
  pub width : ℤ
  pub height : ℤ

pub record TileCullRange : Type 0 where
  pub row_start : ℤ
  pub row_end : ℤ
  pub col_start : ℤ
  pub col_end : ℤ

pub record TileCullInput : Type 0 where
  pub viewport : Viewport
  pub tile_size : ℕ
  pub map_width_tiles : ℕ
  pub map_height_tiles : ℕ

-- `Math.floor(a / k)`
unfoldable pub floor_div : ℤ → ℕ → ℤ
floor_div (pos n) k = pos (n / k)
floor_div (negsuc n) k = negsuc (n / k)

-- `Math.ceil(a / k)`
unfoldable pub ceil_div : ℤ → ℕ → ℤ
unfolding ◌-ℤ◌
ceil_div (pos n) k = pos ((n + k - 1) / k)
ceil_div (negsuc n) k = pos 0 -ℤ pos (suc n / k)

unfoldable pub clamp : (value min max : ℤ) → ℤ
clamp value min max = min_ℤ (max_ℤ value min) max

-- `computeVisibleTileRange`
unfoldable pub compute_visible_tile_range : TileCullInput → TileCullRange
unfolding floor_div ceil_div clamp ◌+ℤ◌
compute_visible_tile_range input =
    let viewport = input.viewport in
    let size = input.tile_size in
    let width = pos input.map_width_tiles in
    let height = pos input.map_height_tiles in
    record {
      row_start = clamp (floor_div viewport.y size) (pos 0) height;
      row_end = clamp (ceil_div (viewport.y +ℤ viewport.height) size) (pos 0) height;
      col_start = clamp (floor_div viewport.x size) (pos 0) width;
      col_end = clamp (ceil_div (viewport.x +ℤ viewport.width) size) (pos 0) width;
    }

-- `isTileRangeEmpty`
unfoldable pub is_tile_range_empty : TileCullRange → Bool
is_tile_range_empty r = leb_ℤ r.col_end r.col_start || leb_ℤ r.row_end r.row_start
