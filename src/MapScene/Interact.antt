-- ===== src/MapScene/Interact.antt =====
-- The interaction of the player with the events of a map: `tryInteract`, `facedInteractable`,
-- `handleConfirm` and `handleCancel` of packages/runtime/src/map-scene.ts.
use agentic_rpgmaker.Base.{
  Bool, true, false, Option, none, some, List, [], ◌∷◌, if◌then◌else◌, is_some, ℤ, pos, ◌+ℤ◌, whole,
  floor, from_int,
}
use agentic_rpgmaker.Thrown.{Outcome, ok, thrown, Throws}
use agentic_rpgmaker.Schema.{MapEvent}
use agentic_rpgmaker.Entity.{Transform}
use agentic_rpgmaker.Entity.Shape.{Aabb, aabbs_overlap_strict}
use agentic_rpgmaker.Scene.{Scene, get_entity_by_id}
use agentic_rpgmaker.Input.{vector}
use agentic_rpgmaker.Interpreter.{Interpreter, Interpretation, run_event}
use agentic_rpgmaker.MapScene.Choices.{confirmed, cancelled}
use agentic_rpgmaker.MapScene.Talk.{
  DialogueLine, Talk, is_open, Play, Stage, settle, transform_at, player_transform,
}

-- A box as large as a tile.
abbrev pub tile_at : ℤ → ℤ → Aabb
tile_at x y = record { x = x; y = y; width = whole 1; height = whole 1 }

abbrev pub body_of : MapEvent → Option Transform → Aabb
body_of event none = tile_at event.x event.y
body_of event (some t) = tile_at t.x t.y

-- `eventBodyAABB`
unfoldable pub event_body_aabb : Scene → MapEvent → Aabb
unfolding get_entity_by_id transform_at
event_body_aabb s event = body_of event (transform_at (get_entity_by_id event.id s) s)

-- `Math.round`
unfoldable pub round : ℤ → ℤ
unfolding floor
round x = floor (x +ℤ pos 500)

-- The tile before the player.
unfoldable pub faced_tile : Transform → Aabb
unfolding round from_int
faced_tile t =
    tile_at (from_int (round t.x +ℤ (vector t.direction).0))
      (from_int (round t.y +ℤ (vector t.direction).1))

unfoldable pub first_hit : Aabb → Scene → List MapEvent → Option MapEvent
unfolding event_body_aabb aabbs_overlap_strict
first_hit faced s [] = none
first_hit faced s (event ∷ events) =
    let rest = first_hit faced s events in
    if aabbs_overlap_strict faced (event_body_aabb s event) then some event else rest

unfoldable pub faced_by : List MapEvent → Scene → Option Transform → Option MapEvent
unfolding first_hit faced_tile
faced_by events s none = none
faced_by events s (some t) = first_hit (faced_tile t) s events

-- `facedInteractable`
unfoldable pub faced_interactable : List MapEvent → Scene → Option MapEvent
unfolding player_transform faced_by
faced_interactable events s = faced_by events s (player_transform s)

unfoldable pub interacted : Play → Interpreter × Outcome Interpretation → Play × Outcome Bool
unfolding settle
interacted p (i, ok result) = (settle (record p { interpreter = i }), ok true)
interacted p (i, thrown e) = (settle (record p { interpreter = i }), thrown e)

unfoldable pub interact_with : Option MapEvent → Throws Play Bool
unfolding run_event interacted
interact_with none p = (p, ok false)
interact_with (some event) p = interacted p (run_event event (some event.id) p.interpreter)

-- `tryInteract`: whether there was an event before the player
unfoldable pub try_interact : Stage → Throws Play Bool
unfolding faced_interactable interact_with
try_interact st p = interact_with (faced_interactable st.events p.interpreter.scene) p

abbrev pub tail : List DialogueLine → List DialogueLine
tail [] = []
tail (line ∷ lines) = lines

-- `advanceDialogue`
unfoldable pub advance_dialogue : Talk → Talk
advance_dialogue t = record t { dialogue_queue = tail t.dialogue_queue }

-- `closeDialogue`
unfoldable pub close_dialogue : Talk → Talk
close_dialogue t = record t { dialogue_queue = [] }

abbrev pub ignore : Play × Outcome Bool → Play × Outcome (Unit {0})
ignore (p, ok b) = (p, ok tt)
ignore (p, thrown e) = (p, thrown e)

unfoldable pub confirm_by :
    Stage → (pressed dialogue_open stepping : Bool) → Play → Play × Outcome (Unit {0})
unfolding advance_dialogue try_interact
confirm_by st false dialogue_open stepping p = (p, ok tt)
confirm_by st true true stepping p = (record p { talk = advance_dialogue p.talk }, ok tt)
confirm_by st true false true p = (p, ok tt)
confirm_by st true false false p = ignore (try_interact st p)

-- `handleConfirm`
unfoldable pub handle_confirm : Stage → Throws Play (Unit {0})
unfolding confirmed confirm_by
handle_confirm st p =
    let (w, pressed) = confirmed p.walker in
    confirm_by st pressed (is_open p.talk.dialogue_queue) (is_some w.step) (record p { walker = w })

-- `handleCancel`
unfoldable pub handle_cancel : Play → Play
unfolding cancelled close_dialogue
handle_cancel p =
    let (w, pressed) = cancelled p.walker in
    record p { walker = w; talk = if pressed then close_dialogue p.talk else p.talk }
