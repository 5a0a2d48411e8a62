-- ===== src/Movement/Tiles.antt =====
-- The loop over the tiles of a box finds a solid tile exactly where the box overlaps one.
use agentic_rpgmaker.Base.{
  ℕ, zero, suc, ◌≡◌, refl, Bool, true, arith, inl, inr, Bool-cases, ◌↔◌, ℤ, pos, ◌+ℤ◌, ◌-ℤ◌, ◌≤ℤ◌,
  ◌<ℤ◌, eqb_ℤ, eqb_ℤ_iff, int_laws, floor, from_int, floor-le, floor-below, +ℤ_parts, -ℤ_parts,
}
use agentic_rpgmaker.Entity.Shape.{Aabb, aabbs_overlap_strict}
use agentic_rpgmaker.Movement.{SolidTileGrid, is_solid, any_from, span, overlaps_solid_tiles}

-- The box of a tile.
abbrev pub tile_box : ℤ → ℤ → Aabb
tile_box tx ty = record { x = from_int tx; y = from_int ty; width = pos 1000; height = pos 1000 }

any_from_sound :
    (p : ℤ → Bool) (from : ℤ) (n : ℕ)
    → any_from p from n ≡ true
    → (t : ℤ) × (from ≤ℤ t) × (t <ℤ (from +ℤ pos n)) × (p t ≡ true)
unfolding any_from
any_from_sound p from zero e = cc
any_from_sound p from (suc n) e = elim (Bool-cases (p from)) [
  | inl now ↦ (from, omega arith, omega int_laws, now)
  | inr not_now ↦
      let (t, above, below, holds) = any_from_sound p (from +ℤ pos 1) n (ground arith) in
      (t, omega int_laws, omega int_laws, holds)
]

any_from_complete :
    (p : ℤ → Bool) (from : ℤ) (n : ℕ) (t : ℤ)
    → from ≤ℤ t
    → t <ℤ (from +ℤ pos n)
    → p t ≡ true
    → any_from p from n ≡ true
unfolding any_from
any_from_complete p from zero t above below holds = absurd (omega int_laws)
any_from_complete p from (suc n) t above below holds = elim (Bool-cases (eqb_ℤ from t)) [
  | inl same ↦ let now : p from ≡ true = rw ((eqb_ℤ_iff from t).0 same) holds in rw now refl
  | inr other ↦
      let later : any_from p (from +ℤ pos 1) n ≡ true =
        any_from_complete p (from +ℤ pos 1) n t (ground (arith, +ℤ_parts from (pos 1)))
          (omega int_laws) holds in
      ground arith
]

in_span :
    (min max t : ℤ) → ((min ≤ℤ t) × (t <ℤ (min +ℤ pos (span min max)))) ↔ ((min ≤ℤ t) × (t ≤ℤ max))
in_span min max t =
    ground
      (arith, +ℤ_parts max (pos 1), -ℤ_parts (max +ℤ pos 1) min, +ℤ_parts min (pos (span min max)))

-- One side of a box over one side of a tile.
covers_iff :
    (a w t : ℤ)
    → ((floor a ≤ℤ t) × (t <ℤ (floor a +ℤ pos (span (floor a) (floor (a +ℤ w -ℤ pos 1))))))
      ↔ ((a <ℤ (from_int t +ℤ pos 1000)) × (from_int t <ℤ (a +ℤ w)))
covers_iff a w t =
    ground
      (arith, in_span (floor a) (floor (a +ℤ w -ℤ pos 1)) t, floor-le a t, floor-below (a +ℤ w) t)

module _ (box : Aabb) (grid : SolidTileGrid) where
  -- The inner loop of `overlapsSolidTiles`.
  abbrev row_hit : ℤ → Bool
  row_hit ty =
      any_from (λ tx. is_solid grid (from_int tx) (from_int ty)) (floor box.x)
        (span (floor box.x) (floor (box.x +ℤ box.width -ℤ pos 1)))

  overlaps_sound :
      overlaps_solid_tiles box grid ≡ true
      → (tx : ℤ) × (ty : ℤ) × (is_solid grid (from_int tx) (from_int ty) ≡ true)
        × (aabbs_overlap_strict box (tile_box tx ty) ≡ true)
  unfolding overlaps_solid_tiles aabbs_overlap_strict
  overlaps_sound found =
      let (ty, above, below, row) =
        any_from_sound row_hit (floor box.y)
          (span (floor box.y) (floor (box.y +ℤ box.height -ℤ pos 1))) found in
      let (tx, after, before, solid) =
        any_from_sound (λ tx. is_solid grid (from_int tx) (from_int ty)) (floor box.x)
          (span (floor box.x) (floor (box.x +ℤ box.width -ℤ pos 1))) row in
      (tx, ty, solid, ground (arith, covers_iff box.x box.width tx, covers_iff box.y box.height ty))

  overlaps_complete :
      (tx ty : ℤ)
      → is_solid grid (from_int tx) (from_int ty) ≡ true
      → aabbs_overlap_strict box (tile_box tx ty) ≡ true
      → overlaps_solid_tiles box grid ≡ true
  unfolding overlaps_solid_tiles aabbs_overlap_strict
  overlaps_complete tx ty solid over =
      let (after, before) = (covers_iff box.x box.width tx).1 (ground arith) in
      let (above, below) = (covers_iff box.y box.height ty).1 (ground arith) in
      any_from_complete row_hit (floor box.y)
        (span (floor box.y) (floor (box.y +ℤ box.height -ℤ pos 1))) ty above below
        (any_from_complete (λ tx. is_solid grid (from_int tx) (from_int ty)) (floor box.x)
          (span (floor box.x) (floor (box.x +ℤ box.width -ℤ pos 1))) tx after before solid)

  -- `overlapsSolidTiles` is true exactly if the box overlaps some solid tile strictly: the bounds
  -- of its loops miss no such tile and visit no other.
  pub overlaps_solid_tiles_iff : (overlaps_solid_tiles box grid ≡ true) ↔ (
      (tx : ℤ) × (ty : ℤ) × (is_solid grid (from_int tx) (from_int ty) ≡ true)
      × (aabbs_overlap_strict box (tile_box tx ty) ≡ true))
  overlaps_solid_tiles_iff =
      (overlaps_sound, λ (tx, ty, solid, over). overlaps_complete tx ty solid over)
