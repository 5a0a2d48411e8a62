-- ===== src/Movement/Steps.antt =====
-- The verdict of `checkStep`.
use mathlib.Core.Path.{subst}
use agentic_rpgmaker.Base.{
  ℕ, ◌≡◌, refl, sym, ◌∙◌, Bool, ◌&&◌, if◌then◌else◌, true, false, Option, none, some, List, [], ◌∷◌,
  ◌++◌, String, arith, inl, inr, Bool-cases, ◌⊎◌, ◌↔◌, ◌≢◌, ◌+ℤ◌, Option-cases, String_eq, All, ap,
  ℤ, pos, ◌≤ℤ◌, ◌<ℤ◌, floor, from_int, +ℤ_parts,
}
use agentic_rpgmaker.Behavior.{Vec2}
use agentic_rpgmaker.Entity.{Heap, Collider, Transform, read_transform}
use agentic_rpgmaker.Entity.Shape.{Aabb, shape_to_local_aabb, aabbs_overlap_strict}
use agentic_rpgmaker.Movement.{
  is_self, stops, collider_at, position_of, read_collider, place_aabb, entity_collider_at,
  SolidTileGrid, StepCheckResult, is_solid, is_listed, overlaps_solid_tiles, stops_mover,
  check_blockers, check_step, mover_box,
}
use agentic_rpgmaker.Movement.Tiles.{tile_box, overlaps_solid_tiles_iff}

abbrev pub blocked_by : String → StepCheckResult
blocked_by id = record { blocked = true; blocker_id = some id }

abbrev pub free : StepCheckResult
free = record { blocked = false; blocker_id = none }

-- The box overlaps a solid tile.
abbrev pub HitsTile : Aabb → SolidTileGrid → Type 0
HitsTile box grid =
    (tx : ℤ) × (ty : ℤ) × (is_solid grid (from_int tx) (from_int ty) ≡ true)
    × (aabbs_overlap_strict box (tile_box tx ty) ≡ true)

-- Where an entity stands: at the origin, if it has no transform.
abbrev pub StandsAt : ℕ → Heap → Vec2 → Type 0
StandsAt e h at =
    ((t : Transform) × (read_transform e h ≡ some t) × (at ≡ record { x = t.x; y = t.y }))
    ⊎ ((read_transform e h ≡ none) × (at ≡ record { x = pos 0; y = pos 0 }))

-- The boxes share more than an edge: on each axis, each begins before the other ends.
abbrev pub Overlaps : Aabb → Aabb → Type 0
Overlaps a b =
    (a.x <ℤ (b.x +ℤ b.width))
    × (b.x <ℤ (a.x +ℤ a.width))
    × (a.y <ℤ (b.y +ℤ b.height))
    × (b.y <ℤ (a.y +ℤ a.height))

some_injective : {a b : String} → ◌≡◌ {A = Option String} (some a) (some b) → a ≡ b
some_injective e = cc

aabbs_overlap_strict_iff : (a b : Aabb) → (aabbs_overlap_strict a b ≡ true) ↔ Overlaps a b
unfolding aabbs_overlap_strict
aabbs_overlap_strict_iff a b = ground arith

is_self_iff :
    (self_id : Option String) (id : String) → (is_self self_id id ≡ true) ↔ (self_id ≡ some id)
is_self_iff none id = (λ e. cc, λ e. cc)
is_self_iff (some self) id = (
  λ e. ap some (sym ((String_eq.beq_iff id self).0 e)),
  λ e. (String_eq.beq_iff id self).1 (sym (some_injective e)),
)

stands_at : (e : ℕ) (h : Heap) → StandsAt e h (position_of (read_transform e h))
stands_at e h = elim (Option-cases (read_transform e h)) [
  | inl absent ↦ inr (absent, rw absent refl)
  | inr (t, there) ↦ inl (t, there, rw there refl)
]

stands_only :
    (e : ℕ) (h : Heap) (at : Vec2) → StandsAt e h at → at ≡ position_of (read_transform e h)
stands_only e h at (inl (t, there, same)) = same ∙ (rw there refl)
stands_only e h at (inr (absent, same)) = same ∙ (rw absent refl)

module _ (box : Aabb) (self_id : Option String) (h : Heap) where
  -- The entity is not the mover, and has a solid collider that the box of the mover overlaps where
  -- the entity stands.
  abbrev pub Blocks : ℕ → Type 0
  Blocks e =
      (self_id ≢ some (h.objects e).id)
      × ((c : Collider) × (at : Vec2) × (read_collider e h ≡ some c)
          × (c.solid ≡ true)
          × StandsAt e h at
          × Overlaps box (place_aabb (shape_to_local_aabb c.shape) at))

  -- The first entity that blocks the mover, if any, decides.
  abbrev pub StoppedBy : List ℕ → StepCheckResult → Type 0
  StoppedBy blockers r =
      ((before : List ℕ) × (e : ℕ) × (after : List ℕ) × (blockers ≡ before ++ e ∷ after)
        × All (λ b. ¬ Blocks b) before
        × Blocks e
        × (r ≡ blocked_by (h.objects e).id))
      ⊎ (All (λ b. ¬ Blocks b) blockers × (r ≡ free))

  not_bare :
      (id : String) (at : Vec2) (o : Option Collider)
      → o ≡ none
      → stops box (collider_at id at o) ≡ true
      → ⊥
  not_bare id at none bare e = cc
  not_bare id at (some c) bare e = cc

  rest : {x : Bool} (self : Bool) → self ≡ false → (if self then false else x) ≡ true → x ≡ true
  rest true not_self e = cc
  rest false not_self e = e

  -- What the loop tests.
  stops_mover_lem :
      (e : ℕ)
      → stops_mover box self_id h e ≡ (
          if is_self self_id (h.objects e).id
          then false
          else stops box
              (collider_at (h.objects e).id (position_of (read_transform e h)) (read_collider e h)))
  unfolding stops_mover entity_collider_at
  stops_mover_lem e = refl

  stops_only : (e : ℕ) → stops_mover box self_id h e ≡ true → Blocks e
  stops_only e found =
      let id = (h.objects e).id in
      let at = position_of (read_transform e h) in
      let tested = sym (stops_mover_lem e) ∙ found in
      elim (Bool-cases (is_self self_id id)) [
        | inl self ↦ absurd (ground (arith, self, tested))
        | inr other ↦
            let not_self : self_id ≢ some id =
              λ same. let self = (is_self_iff self_id id).1 same in ground arith in
            elim (Option-cases (read_collider e h)) [
              | inl bare ↦
                  absurd (
                    not_bare id at (read_collider e h) bare
                      (rest (is_self self_id id) other tested))
              | inr (c, has) ↦
                  let hit : (c.solid
                        && aabbs_overlap_strict box (place_aabb (shape_to_local_aabb c.shape) at))
                      ≡ true =
                    subst (λ (o : Option Collider). stops box (collider_at id at o) ≡ true) has
                      (rest (is_self self_id id) other tested) in
                  (
                    not_self,
                    (
                      c,
                      at,
                      has,
                      ground (arith, hit),
                      stands_at e h,
                      (aabbs_overlap_strict_iff box (place_aabb (shape_to_local_aabb c.shape) at)).0
                          (ground (arith, hit)),
                    ),
                  )
            ]
      ]

  stops_if : (e : ℕ) → Blocks e → stops_mover box self_id h e ≡ true
  stops_if e (not_self, (c, at, has, solid, stands, overlap)) =
      let id = (h.objects e).id in
      let here = stands_only e h at stands in
      let hit =
        (aabbs_overlap_strict_iff box (place_aabb (shape_to_local_aabb c.shape) at)).1 overlap in
      stops_mover_lem e ∙ (elim (Bool-cases (is_self self_id id)) [
        | inl self ↦ absurd (not_self ((is_self_iff self_id id).0 self))
        | inr other ↦ rw (other, has, ← here, solid, hit) refl
      ])

  stops_iff : (e : ℕ) → (stops_mover box self_id h e ≡ true) ↔ Blocks e
  stops_iff e = (stops_only e, stops_if e)

  later :
      (b : ℕ) (blockers : List ℕ) (r : StepCheckResult)
      → ¬ Blocks b
      → StoppedBy blockers r
      → StoppedBy (b ∷ blockers) r
  later b blockers r passes (inl (before, e, after, split, w, stops, eq)) =
      inl (b ∷ before, e, after, ap (λ l. b ∷ l) split, (passes, w), stops, eq)
  later b blockers r passes (inr (w, eq)) = inr ((passes, w), eq)

  passing :
      (b : ℕ) (blockers : List ℕ)
      → stops_mover box self_id h b ≡ false
      → check_blockers box self_id h (b ∷ blockers) ≡ check_blockers box self_id h blockers
  unfolding check_blockers
  passing b blockers passes = rw passes refl

  stopping :
      (b : ℕ) (blockers : List ℕ)
      → stops_mover box self_id h b ≡ true
      → check_blockers box self_id h (b ∷ blockers) ≡ blocked_by (h.objects b).id
  unfolding check_blockers
  stopping b blockers stops = rw stops refl

  check_blockers-StoppedBy :
      (blockers : List ℕ) → StoppedBy blockers (check_blockers box self_id h blockers)
  unfolding check_blockers
  check_blockers-StoppedBy [] = inr (tt, refl)
  check_blockers-StoppedBy (b ∷ blockers) = elim (Bool-cases (stops_mover box self_id h b)) [
    | inl stops ↦ inl ([], b, blockers, refl, tt, (stops_iff b).0 stops, stopping b blockers stops)
    | inr passes ↦ rw (passing b blockers passes) (
        later b blockers (check_blockers box self_id h blockers)
          (λ w. let stops = (stops_iff b).1 w in ground arith) (check_blockers-StoppedBy blockers))
  ]

module _ (to : Vec2) (grid : SolidTileGrid) (blockers : List ℕ) (self_id : Option String)
    (mover : Option Collider) (h : Heap) where
  -- `checkStep` is blocked by "map" if the mover's box overlaps a solid tile; else by the first
  -- of the blockers that blocks it: an entity that is not the mover itself, with a solid collider
  -- that the mover's box overlaps where the entity stands, or at the origin if it has no
  -- transform; else it is free.
  pub check_step_verdict :
      (HitsTile (mover_box mover to) grid
        × (check_step to grid blockers self_id mover h ≡ blocked_by "map"))
      ⊎ ((¬ HitsTile (mover_box mover to) grid)
          × StoppedBy
              (mover_box mover to)
              self_id
              h
              blockers
              (check_step to grid blockers self_id mover h))
  unfolding check_step
  check_step_verdict = elim (Bool-cases (overlaps_solid_tiles (mover_box mover to) grid)) [
    | inl hit ↦ inl ((overlaps_solid_tiles_iff (mover_box mover to) grid).0 hit, rw hit refl)
    | inr miss ↦ inr (
      λ hit. let hits = (overlaps_solid_tiles_iff (mover_box mover to) grid).1 hit in ground arith,
      rw miss (check_blockers-StoppedBy (mover_box mover to) self_id h blockers),
    )
  ]

floor-from_int : (t : ℤ) → floor (from_int t) ≡ t
unfolding floor from_int
floor-from_int t = ground arith

own_tile :
    (tx ty : ℤ)
    → aabbs_overlap_strict
        (mover_box none (record { x = from_int tx; y = from_int ty }))
        (tile_box tx ty)
      ≡ true
unfolding aabbs_overlap_strict
own_tile tx ty =
    ground (arith, +ℤ_parts (from_int tx) (pos 1000), +ℤ_parts (from_int ty) (pos 1000))

not_solid :
    (grid : SolidTileGrid) (tx ty : ℤ)
    → is_solid grid (from_int tx) (from_int ty) ≡ false
    → (pos 0 ≤ℤ tx)
      × (tx <ℤ pos grid.width)
      × (pos 0 ≤ℤ ty)
      × (ty <ℤ pos grid.height)
      × (is_listed tx ty grid.solid ≡ false)
unfolding is_solid
not_solid grid tx ty e = ground (arith, floor-from_int tx, floor-from_int ty)

-- A mover of one tile that `checkStep` lets step onto a tile stays inside the map, and the tile is
-- not solid.
pub check_step_inside :
    (tx ty : ℤ) (grid : SolidTileGrid) (blockers : List ℕ) (self_id : Option String) (h : Heap)
    → (check_step
        (record { x = from_int tx; y = from_int ty })
        grid
        blockers
        self_id
        none
        h).blocked
      ≡ false
    → (pos 0 ≤ℤ tx)
      × (tx <ℤ pos grid.width)
      × (pos 0 ≤ℤ ty)
      × (ty <ℤ pos grid.height)
      × (is_listed tx ty grid.solid ≡ false)
check_step_inside tx ty grid blockers self_id h e =
    not_solid grid tx ty (elim (Bool-cases (is_solid grid (from_int tx) (from_int ty))) [
      | inr passes ↦ passes
      | inl solid ↦
          elim (check_step_verdict (record { x = from_int tx; y = from_int ty }) grid blockers
            self_id none h) [
              | inl (_, verdict) ↦ ground (arith, ap (λ (r : StepCheckResult). r.blocked) verdict)
              | inr (misses, _) ↦ absurd (misses (tx, ty, solid, own_tile tx ty))
            ]
    ])
