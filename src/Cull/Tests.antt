-- ===== src/Cull/Tests.antt =====
-- A viewport over a map of four tiles by three, and one beside it.
use agentic_rpgmaker.Base.{◌≡◌, refl, ◌↔◌, pos, negsuc, ◌+ℤ◌, ◌-ℤ◌, arith}
use agentic_rpgmaker.Cull.{TileCullInput, compute_visible_tile_range}
use agentic_rpgmaker.Cull.Visible.{IsInRange, IsInView, compute_visible_tile_range_iff}

-- From eight pixels left of the map to the middle of its second column.
input : TileCullInput
input = record {
  viewport = record { x = negsuc 7999; y = pos 16000; width = pos 32000; height = pos 16000 };
  tile_size = 16000;
  map_width_tiles = 4;
  map_height_tiles = 3;
}

compute_visible_tile_range_iff_example :
    IsInRange (compute_visible_tile_range input) 1 1 ↔ IsInView input 1 1
unfolding input
compute_visible_tile_range_iff_example = compute_visible_tile_range_iff input 1 1 (omega arith)

range_runs :
    compute_visible_tile_range input
    ≡ record { row_start = pos 1; row_end = pos 2; col_start = pos 0; col_end = pos 2 }
unfolding compute_visible_tile_range input ◌+ℤ◌ ◌-ℤ◌
range_runs = refl
