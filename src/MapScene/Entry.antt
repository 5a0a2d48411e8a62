-- ===== src/MapScene/Entry.antt =====
-- What a map scene finds out when it is made and entered: `collectNpcBlockers`, `addNpcColliders` and
-- the list of doors of `enter`, packages/runtime/src/map-scene.ts.
use agentic_rpgmaker.Base.{
  ℕ, Bool, true, not, Option, none, some, List, [], ◌∷◌, ◌++◌, String, if◌then◌else◌, ◌==◌, any,
  is_some, pos, whole, String_eq,
}
use agentic_rpgmaker.Thrown.{Outcome, ok, thrown, Throws, for_each}
use agentic_rpgmaker.Schema.{MapEvent}
use agentic_rpgmaker.Entity.{Heap, Collider, collider, collider_type, get_component}
use agentic_rpgmaker.Entity.Shape.{rect}
use agentic_rpgmaker.Scene.{
  Scene, player_entity_id, get_entity_by_id, find_entities_by_component, create_component, select,
}

-- `collectNpcBlockers`
unfoldable pub collect_npc_blockers : Scene → List ℕ
unfolding find_entities_by_component
collect_npc_blockers s =
    select (λ e. not ((s.heap.objects e).id == player_entity_id))
      (find_entities_by_component collider_type s)

abbrev pub unit_collider : Collider
unit_collider = record { shape = rect (whole 1) (whole 1) (pos 0) (pos 0); solid = true }

-- The scene graph and the list of blockers.
pub record Entered : Type 0 where
  pub scene : Scene
  pub npc_blockers : List ℕ

abbrev pub pushed : ℕ → Entered → Heap × Outcome ℕ → Entered × Outcome (Unit {0})
pushed e s (h, ok c) =
    (record { scene = record s.scene { heap = h }; npc_blockers = s.npc_blockers ++ e ∷ [] }, ok tt)
pushed e s (h, thrown error) = (record s { scene = record s.scene { heap = h } }, thrown error)

unfoldable pub add_body : Option ℕ → Throws Entered (Unit {0})
unfolding get_component create_component
add_body none s = (s, ok tt)
add_body (some e) s =
    if is_some (get_component collider_type e s.scene.heap)
    then (s, ok tt)
    else pushed e s (create_component e (collider unit_collider) s.scene.heap)

-- The pass of `addNpcColliders` for an event: one without a sprite has no body.
unfoldable pub add_npc_collider : MapEvent → Throws Entered (Unit {0})
unfolding add_body get_entity_by_id
add_npc_collider event s =
    if is_some event.sprite then add_body (get_entity_by_id event.id s.scene) s else (s, ok tt)

-- `addNpcColliders`
unfoldable pub add_npc_colliders : List MapEvent → Throws Entered (Unit {0})
unfolding add_npc_collider
add_npc_colliders events = for_each events add_npc_collider

abbrev pub leads_out : MapEvent → Bool
leads_out event = any (λ page. any (λ line. line.cmd == "transfer") page.commands) event.pages

-- `transferEventIds`
unfoldable pub transfer_event_ids : List MapEvent → List String
transfer_event_ids [] = []
transfer_event_ids (event ∷ events) =
    let rest = transfer_event_ids events in if leads_out event then event.id ∷ rest else rest
