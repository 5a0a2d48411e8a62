-- ===== src/Cull/Visible.antt =====
-- The range holds the tiles of the map that the viewport meets, and no other.
use native.Mathlib.Nat.{div-lt_iff_lt-mul, le-div_iff_mul-le}
use agentic_rpgmaker.Base.{
  ℕ, suc, ◌+◌, ◌-◌, ◌*◌, ◌/◌, ◌<◌, ◌≡◌, ◌↔◌, true, false, ℤ, pos, negsuc, ◌+ℤ◌, ◌≤ℤ◌, ◌<ℤ◌, arith,
  -ℤ_parts, Bool-cases, inl, inr, pos_part,
}
use agentic_rpgmaker.Cull.{
  TileCullRange, TileCullInput, floor_div, ceil_div, clamp, compute_visible_tile_range,
  is_tile_range_empty,
}

floor_div-le : (a : ℤ) (k t : ℕ) → 0 < k → (floor_div a k ≤ℤ pos t) ↔ (a <ℤ pos (suc t * k))
unfolding floor_div
floor_div-le (pos n) k t some_size =
    ground (arith, div-lt_iff_lt-mul {k = k} {x = n} {y = suc t} some_size)
floor_div-le (negsuc n) k t some_size = ground arith

ceil_div-above : (a : ℤ) (k t : ℕ) → 0 < k → (pos t <ℤ ceil_div a k) ↔ (pos (t * k) <ℤ a)
unfolding ceil_div
ceil_div-above (pos n) k t some_size =
    ground (arith, le-div_iff_mul-le {k = k} {x = suc t} {y = n + k - 1} some_size)
ceil_div-above (negsuc n) k t some_size = ground (arith, -ℤ_parts (pos 0) (pos (suc n / k)))

clamp-le : (a : ℤ) (m t : ℕ) → t < m → (clamp a (pos 0) (pos m) ≤ℤ pos t) ↔ (a ≤ℤ pos t)
unfolding clamp
clamp-le a m t below = ground arith

clamp-above : (a : ℤ) (m t : ℕ) → (pos t <ℤ clamp a (pos 0) (pos m)) ↔ ((t < m) × (pos t <ℤ a))
unfolding clamp
clamp-above a m t = ground arith

-- The tile t lies between the ends of one side of a range.
abbrev pub IsBetween : (start end : ℤ) → ℕ → Type 0
IsBetween start end t = (start ≤ℤ pos t) × (pos t <ℤ end)

-- On one side, the tile t of m tiles of size k is one that a view from a to b reaches over.
abbrev pub IsReached : (a b : ℤ) (k m t : ℕ) → Type 0
IsReached a b k m t = (t < m) × (a <ℤ pos (suc t * k)) × (pos (t * k) <ℤ b)

side_iff :
    (a b : ℤ) (k m t : ℕ)
    → 0 < k
    → IsBetween (clamp (floor_div a k) (pos 0) (pos m)) (clamp (ceil_div b k) (pos 0) (pos m)) t
      ↔ IsReached a b k m t
side_iff a b k m t some_size = (
  (λ r.
      let (below, above) = (clamp-above (ceil_div b k) m t).0 r.1 in
      (
        below,
        (floor_div-le a k t some_size).0 ((clamp-le (floor_div a k) m t below).0 r.0),
        (ceil_div-above b k t some_size).0 above,
      )),
  λ v. (
    (clamp-le (floor_div a k) m t v.0).1 ((floor_div-le a k t some_size).1 v.1),
    (clamp-above (ceil_div b k) m t).1 (v.0, (ceil_div-above b k t some_size).1 v.2),
  ),
)

-- The tile is in the range.
abbrev pub IsInRange : TileCullRange → ℕ → ℕ → Type 0
IsInRange r tx ty = IsBetween r.col_start r.col_end tx × IsBetween r.row_start r.row_end ty

-- The tile is one of the map, and the viewport reaches over its edges.
abbrev pub IsInView : TileCullInput → ℕ → ℕ → Type 0
IsInView i tx ty =
    IsReached i.viewport.x (i.viewport.x +ℤ i.viewport.width) i.tile_size i.map_width_tiles tx
    × IsReached i.viewport.y (i.viewport.y +ℤ i.viewport.height) i.tile_size i.map_height_tiles ty

-- Where tiles have a size, a tile is in the visible range exactly if it is a tile of the map that
-- the viewport reaches over.
pub compute_visible_tile_range_iff :
    (i : TileCullInput) (tx ty : ℕ)
    → 0 < i.tile_size
    → IsInRange (compute_visible_tile_range i) tx ty ↔ IsInView i tx ty
unfolding compute_visible_tile_range
compute_visible_tile_range_iff i tx ty some_size =
    let across =
      side_iff i.viewport.x (i.viewport.x +ℤ i.viewport.width) i.tile_size i.map_width_tiles tx
        some_size in
    let down =
      side_iff i.viewport.y (i.viewport.y +ℤ i.viewport.height) i.tile_size i.map_height_tiles ty
        some_size in
    ((λ r. (across.0 r.0, down.0 r.1)), λ v. (across.1 v.0, down.1 v.1))

clamp-positive : (a : ℤ) (m : ℕ) → pos 0 ≤ℤ clamp a (pos 0) (pos m)
unfolding clamp
clamp-positive a m = ground arith

-- The start of a side is a tile, if the side has one.
side_start :
    (a b : ℤ) (m : ℕ)
    → clamp a (pos 0) (pos m) <ℤ b
    → (t : ℕ) × IsBetween (clamp a (pos 0) (pos m)) b t
side_start a b m h =
    let inside = clamp-positive a m in
    (pos_part (clamp a (pos 0) (pos m)), (ground arith, ground arith))

filled_sides :
    (r : TileCullRange)
    → is_tile_range_empty r ≡ false
    → (r.col_start <ℤ r.col_end) × (r.row_start <ℤ r.row_end)
unfolding is_tile_range_empty
filled_sides r e = ground arith

nonempty_has :
    (i : TileCullInput)
    → is_tile_range_empty (compute_visible_tile_range i) ≡ false
    → (tx : ℕ) × (ty : ℕ) × IsInRange (compute_visible_tile_range i) tx ty
unfolding compute_visible_tile_range
nonempty_has i e =
    let r = compute_visible_tile_range i in
    let (filled_across, filled_down) = filled_sides r e in
    let (tx, across) =
      side_start (floor_div i.viewport.x i.tile_size) r.col_end i.map_width_tiles filled_across in
    let (ty, down) =
      side_start (floor_div i.viewport.y i.tile_size) r.row_end i.map_height_tiles filled_down in
    (tx, ty, (across, down))

empty_has_none :
    (r : TileCullRange) (tx ty : ℕ) → is_tile_range_empty r ≡ true → ¬ IsInRange r tx ty
unfolding is_tile_range_empty
empty_has_none r tx ty e inside = ground arith

-- Where tiles have a size, the visible range is empty exactly if the viewport reaches over no
-- tile of the map.
pub is_tile_range_empty_iff :
    (i : TileCullInput)
    → 0 < i.tile_size
    → (is_tile_range_empty (compute_visible_tile_range i) ≡ true)
      ↔ ((tx ty : ℕ) → ¬ IsInView i tx ty)
is_tile_range_empty_iff i some_size = (
  (λ e tx ty seen.
      empty_has_none (compute_visible_tile_range i) tx ty e
        ((compute_visible_tile_range_iff i tx ty some_size).1 seen)),
  λ unseen. elim (Bool-cases (is_tile_range_empty (compute_visible_tile_range i))) [
    | inl empty ↦ empty
    | inr filled ↦
        let (tx, ty, inside) = nonempty_has i filled in
        absurd (unseen tx ty ((compute_visible_tile_range_iff i tx ty some_size).0 inside))
  ],
)
