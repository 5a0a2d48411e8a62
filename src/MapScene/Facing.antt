-- ===== src/MapScene/Facing.antt =====
-- Whom the player can talk to: the interaction follows the bodies that block the way.
use agentic_rpgmaker.Base.{
  ℕ, ◌≡◌, refl, false, Option, none, some, List, ◌∷◌, if◌then◌else◌, ◌==◌, ℤ, pos, ◌+ℤ◌, floor,
  from_int, arith, int_laws, String_eq,
}
use agentic_rpgmaker.Schema.{MapEvent}
use agentic_rpgmaker.Entity.{Transform, Collider, read_transform}
use agentic_rpgmaker.Entity.Shape.{aabbs_overlap_strict}
use agentic_rpgmaker.Scene.{Scene, get_entity_by_id, player_entity_id}
use agentic_rpgmaker.Movement.{read_collider, entity_collider_at, stops_mover, mover_box}
use agentic_rpgmaker.Input.{vector}
use agentic_rpgmaker.MapScene.{target}
use agentic_rpgmaker.MapScene.Entry.{unit_collider}
use agentic_rpgmaker.MapScene.Talk.{transform_at, player_transform}
use agentic_rpgmaker.MapScene.Interact.{
  event_body_aabb, round, faced_tile, first_hit, faced_by, faced_interactable,
}

round-from_int : (a : ℤ) → round (from_int a) ≡ a
unfolding round floor from_int ◌+ℤ◌
round-from_int a = ground arith

from_int-add : (a b : ℤ) → from_int (a +ℤ b) ≡ from_int a +ℤ from_int b
unfolding from_int ◌+ℤ◌
from_int-add a b = ground arith

plus_0 : (a : ℤ) → a +ℤ pos 0 ≡ a
plus_0 a = omega int_laws

-- A player on a tile faces the tile that the next step goes to.
faced_tile-target :
    (t : Transform) (tx ty : ℤ)
    → t.x ≡ from_int tx
    → t.y ≡ from_int ty
    → faced_tile t ≡ mover_box none (target t.direction t)
unfolding faced_tile
faced_tile-target t tx ty x y =
    rw
      (
        x,
        y,
        round-from_int tx,
        round-from_int ty,
        from_int-add tx (vector t.direction).0,
        from_int-add ty (vector t.direction).1,
      )
      refl

module _ (s : Scene) (event : MapEvent) (e : ℕ) (t body : Transform) (tx ty : ℤ)
    (mover : Option Collider) (x : t.x ≡ from_int tx) (y : t.y ≡ from_int ty)
    (player : player_transform s ≡ some t)
    (tile_sized : mover_box mover (target t.direction t) ≡ mover_box none (target t.direction t))
    (entity : get_entity_by_id event.id s ≡ some e) (named : (s.heap.objects e).id ≡ event.id)
    (other : (event.id == player_entity_id) ≡ false) (there : read_transform e s.heap ≡ some body)
    (collides : read_collider e s.heap ≡ some unit_collider) where
  stops_mover-overlap :
      stops_mover (mover_box mover (target t.direction t)) (some player_entity_id) s.heap e
      ≡ aabbs_overlap_strict (faced_tile t) (event_body_aabb s event)
  unfolding stops_mover entity_collider_at event_body_aabb transform_at
  stops_mover-overlap =
      rw
        (
          faced_tile-target t tx ty x y,
          tile_sized,
          entity,
          named,
          other,
          there,
          collides,
          plus_0 body.x,
          plus_0 body.y,
        )
        refl

  -- The player stands on a tile, and an event has the body of a tile that `addNpcColliders` gives it.
  -- Then the player faces the event exactly when its body stops the player's next step, and the
  -- later events come into question only when it does not.
  pub faced_interactable-stops :
      (events : List MapEvent)
      → faced_interactable (event ∷ events) s ≡ (
          if stops_mover (mover_box mover (target t.direction t)) (some player_entity_id) s.heap e
          then some event
          else faced_interactable events s)
  unfolding faced_interactable faced_by first_hit
  faced_interactable-stops events = rw (player, stops_mover-overlap) refl
