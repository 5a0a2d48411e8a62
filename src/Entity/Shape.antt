-- ===== src/Entity/Shape.antt =====
-- Collision shapes, packages/core/src/entity/collider.ts, and the strict test of
-- packages/runtime/src/movement.ts.
use agentic_rpgmaker.Base.{Bool, ◌&&◌, ℤ, ◌+ℤ◌, ◌-ℤ◌, leb_ℤ, ltb_ℤ}

pub data ColliderShape : Type 0 where
  rect : (width height offset_x offset_y : ℤ) → ColliderShape
  circle : (radius offset_x offset_y : ℤ) → ColliderShape

pub record Aabb : Type 0 where
  pub x : ℤ
  pub y : ℤ
  pub width : ℤ
  pub height : ℤ

abbrev pub shape_to_local_aabb : ColliderShape → Aabb
shape_to_local_aabb (rect width height offset_x offset_y) = record {
  x = offset_x;
  y = offset_y;
  width = width;
  height = height;
}
shape_to_local_aabb (circle radius offset_x offset_y) = record {
  x = offset_x -ℤ radius;
  y = offset_y -ℤ radius;
  width = radius +ℤ radius;
  height = radius +ℤ radius;
}

-- Touching edges count.
unfoldable pub aabbs_overlap : Aabb → Aabb → Bool
aabbs_overlap a b =
    leb_ℤ a.x (b.x +ℤ b.width)
    && leb_ℤ b.x (a.x +ℤ a.width)
    && leb_ℤ a.y (b.y +ℤ b.height)
    && leb_ℤ b.y (a.y +ℤ a.height)

-- Touching edges do not count.
unfoldable pub aabbs_overlap_strict : Aabb → Aabb → Bool
aabbs_overlap_strict a b =
    ltb_ℤ a.x (b.x +ℤ b.width)
    && ltb_ℤ b.x (a.x +ℤ a.width)
    && ltb_ℤ a.y (b.y +ℤ b.height)
    && ltb_ℤ b.y (a.y +ℤ a.height)
