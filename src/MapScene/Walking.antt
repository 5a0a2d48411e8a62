-- ===== src/MapScene/Walking.antt =====
-- Where the player can get to by the steps of `handleMovement` and `advanceStep`.
use mathlib.Core.Path.{subst⁻¹, subst₂}
use agentic_rpgmaker.Base.{
  ℕ, ◌+◌, ◌≡◌, refl, Bool, true, false, Option, none, some, if◌then◌else◌, leb, is_some, ℤ, pos,
  ◌+ℤ◌, ◌≤ℤ◌, ◌<ℤ◌, from_int, arith, ap, ◌∙◌, sym, inl, inr, Bool-cases, ◌⊎◌,
}
use agentic_rpgmaker.Behavior.{Direction, Vec2}
use agentic_rpgmaker.Entity.{Transform}
use agentic_rpgmaker.Movement.{
  SolidTileGrid, StepCheckResult, check_step, check_blockers, overlaps_solid_tiles, is_listed,
  mover_box,
}
use agentic_rpgmaker.Movement.Steps.{check_step_inside}
use agentic_rpgmaker.Input.{vector, consume_direction_edge}
use agentic_rpgmaker.MapScene.{
  Step, Ground, Walker, target, place_of, stepped, try_step, hold, handle_movement, advance_step,
  walk_on, move_by, consume_edge, edge_of, advance, is_last, current_direction, repeat_delay,
}

-- The place is a tile of the map that is not solid.
abbrev pub IsFreeTile : SolidTileGrid → Vec2 → Type 0
IsFreeTile grid p =
    (tx : ℤ) × (ty : ℤ) × (p.x ≡ from_int tx)
    × (p.y ≡ from_int ty)
    × (pos 0 ≤ℤ tx)
    × (tx <ℤ pos grid.width)
    × (pos 0 ≤ℤ ty)
    × (ty <ℤ pos grid.height)
    × (is_listed tx ty grid.solid ≡ false)

-- The step goes to a free tile, one tile away.
abbrev pub IsStep : SolidTileGrid → Vec2 → Option Step → Type 0
IsStep grid p none = Unit
IsStep grid p (some s) =
    (s.from ≡ p)
    × IsFreeTile grid s.to
    × ((d : Direction) × (s.to
          ≡ record { x = p.x +ℤ from_int (vector d).0; y = p.y +ℤ from_int (vector d).1 }))

pub record IsWalking (grid : SolidTileGrid) (w : Walker) : Type 0 where
  pub stands : IsFreeTile grid (place_of w.player_transform)
  pub goes : IsStep grid (place_of w.player_transform) w.step

-- The player is as large as a tile, as `fromMap` makes it.
abbrev pub IsTileSized : Ground → Type 0
IsTileSized g = (to : Vec2) → mover_box g.player_collider to ≡ mover_box none to

from_int-add : (a b : ℤ) → from_int a +ℤ from_int b ≡ from_int (a +ℤ b)
unfolding from_int ◌+ℤ◌
from_int-add a b = ground arith

is_none : (o : Option Step) → is_some o ≡ false → o ≡ none
is_none none e = refl
is_none (some s) e = cc

consumed_by :
    (o : Option Direction) (w : Walker)
    → (place_of (edge_of o w).0.player_transform ≡ place_of w.player_transform)
      × ((edge_of o w).0.step ≡ w.step)
consumed_by none w = (refl, refl)
consumed_by (some d) w = (refl, refl)

module _ (g : Ground) (sized : IsTileSized g) where
  tile_sized :
      (to : Vec2)
      → check_step to g.grid g.npc_blockers (some "player") g.player_collider g.heap
        ≡ check_step to g.grid g.npc_blockers (some "player") none g.heap
  unfolding check_step
  tile_sized to =
      ap
        (λ box.
          if overlaps_solid_tiles box g.grid
          then record { blocked = true; blocker_id = some "map" }
          else check_blockers box (some "player") g.heap g.npc_blockers)
        (sized to)

  -- A target that the check lets through is a free tile.
  target_free :
      (d : Direction) (t : Transform)
      → IsFreeTile g.grid (place_of t)
      → (check_step
          (target d t)
          g.grid
          g.npc_blockers
          (some "player")
          g.player_collider
          g.heap).blocked
        ≡ false
      → IsFreeTile g.grid (target d t)
  target_free d t (tx, ty, ex, ey, _, _, _, _, _) passes =
      let x : t.x +ℤ from_int (vector d).0 ≡ from_int (tx +ℤ (vector d).0) =
        ap (λ a. a +ℤ from_int (vector d).0) ex ∙ from_int-add tx (vector d).0 in
      let y : t.y +ℤ from_int (vector d).1 ≡ from_int (ty +ℤ (vector d).1) =
        ap (λ a. a +ℤ from_int (vector d).1) ey ∙ from_int-add ty (vector d).1 in
      let place : target d t
          ≡ record { x = from_int (tx +ℤ (vector d).0); y = from_int (ty +ℤ (vector d).1) } =
        λ i. record { x = x i; y = y i } in
      let (left_edge, right_edge, top, bottom, unlisted) =
        check_step_inside (tx +ℤ (vector d).0) (ty +ℤ (vector d).1) g.grid g.npc_blockers
          (some "player") g.heap
          (ap (λ (r : StepCheckResult). r.blocked) (sym (tile_sized _))
            ∙ ap
                (λ to.
                  (check_step to g.grid g.npc_blockers (some "player") g.player_collider
                    g.heap).blocked)
                (sym place)
            ∙ passes) in
      (tx +ℤ (vector d).0, ty +ℤ (vector d).1, x, y, left_edge, right_edge, top, bottom, unlisted)

  stepped-IsWalking :
      (result : StepCheckResult) (d : Direction) (w : Walker)
      → (result.blocked ≡ false → IsFreeTile g.grid (target d w.player_transform))
      → w.step ≡ none
      → IsWalking g.grid w
      → IsWalking g.grid (stepped result d w)
  stepped-IsWalking result d w free still v = elim (Bool-cases result.blocked) [
    | inl blocked ↦ rw blocked (record { stands = v.stands; goes = v.goes })
    | inr passes ↦ rw passes (record { stands = v.stands; goes = (refl, free passes, (d, refl)) })
  ]

  try_step-IsWalking :
      (d : Direction) (w : Walker)
      → w.step ≡ none
      → IsWalking g.grid w
      → IsWalking g.grid (try_step g d w)
  unfolding try_step
  try_step-IsWalking d w still v =
      stepped-IsWalking
        (check_step (target d w.player_transform) g.grid g.npc_blockers (some "player")
          g.player_collider g.heap)
        d w (target_free d w.player_transform v.stands) still v

  advance-IsWalking :
      (dt : ℕ) (o : Option Step) (w : Walker)
      → IsFreeTile g.grid (place_of w.player_transform)
      → IsStep g.grid (place_of w.player_transform) o
      → w.step ≡ o
      → IsWalking g.grid (advance g.step_duration dt o w)
  advance-IsWalking dt none w stands goes e = record {
    stands = stands;
    goes = subst⁻¹ (IsStep g.grid (place_of w.player_transform)) e tt;
  }
  advance-IsWalking dt (some s) w stands (from, free, away) e =
      elim (Bool-cases (leb g.step_duration (s.elapsed + dt))) [
        | inl done ↦ rw done (record { stands = free; goes = tt })
        | inr under_way ↦ rw under_way (record { stands = stands; goes = (from, free, away) })
      ]

  -- A change of anything but the place and the step.
  kept :
      (w w' : Walker)
      → place_of w'.player_transform ≡ place_of w.player_transform
      → w'.step ≡ w.step
      → IsWalking g.grid w
      → IsWalking g.grid w'
  kept w w' place step v = record {
    stands = subst⁻¹ (IsFreeTile g.grid) place v.stands;
    goes = subst₂ (IsStep g.grid) (sym place) (sym step) v.goes;
  }

  pick :
      (q : Bool) (w w' : Walker)
      → (q ≡ true → IsWalking g.grid w)
      → (q ≡ false → IsWalking g.grid w')
      → IsWalking g.grid (if q then w else w')
  pick true w w' then_so else_so = then_so refl
  pick false w w' then_so else_so = else_so refl

  still_or_not :
      (d : Direction) (w : Walker)
      → IsWalking g.grid w
      → IsWalking g.grid (if is_some w.step then w else try_step g d w)
  still_or_not d w v =
      pick (is_some w.step) w (try_step g d w) (λ _. v)
        (λ e. try_step-IsWalking d w (is_none w.step e) v)

  hold-IsWalking :
      (dt : ℕ) (o : Option Direction) (w : Walker)
      → IsWalking g.grid w
      → IsWalking g.grid (hold g dt o w)
  unfolding hold
  hold-IsWalking dt none w v =
      kept w (record w { repeat_accum = 0; last_step_dir = none }) refl refl v
  hold-IsWalking dt (some d) w v =
      let w1 = record w { repeat_accum = w.repeat_accum + dt } in
      let w2 = record w { last_step_dir = some d; repeat_accum = 0 } in
      let v1 : IsWalking g.grid w1 = kept w w1 refl refl v in
      let v2 : IsWalking g.grid w2 = kept w w2 refl refl v in
      pick (is_last w.last_step_dir d) _ _
        (λ _. pick (leb repeat_delay w1.repeat_accum) _ _ (λ _. still_or_not d w1 v1) (λ _. v1))
        (λ _. still_or_not d w2 v2)

  consumed :
      (w : Walker)
      → (place_of (consume_edge w).0.player_transform ≡ place_of w.player_transform)
        × ((consume_edge w).0.step ≡ w.step)
  unfolding consume_edge
  consumed w =
      consumed_by (consume_direction_edge w.input).1
        (record w { input = (consume_direction_edge w.input).0 })

  move_by-IsWalking :
      (dt : ℕ) (w : Walker) (o : Option Direction)
      → (o ≡ none ⊎ (w.step ≡ none))
      → IsWalking g.grid w
      → IsWalking g.grid (move_by g dt (w, o))
  move_by-IsWalking dt w none still v = hold-IsWalking dt (current_direction w) w v
  move_by-IsWalking dt w (some d) (inl absent) v = cc
  move_by-IsWalking dt w (some d) (inr still) v =
      let w1 = record w { last_step_dir = some d; repeat_accum = 0 } in
      try_step-IsWalking d w1 still (kept w w1 refl refl v)

  edge_taken :
      (dt : ℕ) (w : Walker) (q : Bool)
      → is_some w.step ≡ q
      → IsWalking g.grid w
      → IsWalking g.grid (move_by g dt (if q then (w, none) else consume_edge w))
  edge_taken dt w true e v = move_by-IsWalking dt w none (inl refl) v
  edge_taken dt w false e v =
      let (place, step) = consumed w in
      move_by-IsWalking dt (consume_edge w).0 (consume_edge w).1 (inr (step ∙ is_none w.step e))
        (kept w (consume_edge w).0 place step v)

  handle_movement-IsWalking :
      (dt : ℕ) (dialogue_open : Bool) (w : Walker)
      → IsWalking g.grid w
      → IsWalking g.grid (handle_movement g dt dialogue_open w)
  unfolding handle_movement
  handle_movement-IsWalking dt true w v = v
  handle_movement-IsWalking dt false w v = edge_taken dt w (is_some w.step) refl v

  -- The steps that the directions pressed or held give the player keep it on the map's free ground:
  -- after `advanceStep` and, with no choice open, `handleMovement`, for any time and any input, the
  -- player stands on a tile of the map that is not solid, and a step under way goes from there to
  -- such a tile next to it. It stood so before, and is as large as a tile. The moves of events and
  -- behaviors, which are made without a check of the tile, are not among them.
  pub walk_on-IsWalking :
      (dt : ℕ) (choice_open dialogue_open : Bool) (w : Walker)
      → IsWalking g.grid w
      → IsWalking g.grid (walk_on g dt choice_open dialogue_open w)
  unfolding walk_on advance_step
  walk_on-IsWalking dt true dialogue_open w v = advance-IsWalking dt w.step w v.stands v.goes refl
  walk_on-IsWalking dt false dialogue_open w v =
      handle_movement-IsWalking dt dialogue_open (advance_step g.step_duration dt w)
        (advance-IsWalking dt w.step w v.stands v.goes refl)
