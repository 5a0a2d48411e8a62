-- ===== src/MapScene.antt =====
-- The player's steps in the map scene, packages/runtime/src/map-scene.ts: `advanceStep`,
-- `handleMovement` and `tryStep`. The part `t` of a step is kept as the time that it has run, so
-- `t >= 1` says that this time has reached the duration of a step.
pub mod Walking
pub mod Choices
pub mod Saves
pub mod Resume
pub mod Entry
pub mod Talk
pub mod Interact
pub mod Frame
pub mod Facing
pub mod Speech
pub mod Patrols
pub mod Waiting
pub mod Display
pub mod Anchored
pub mod Camera
pub mod Answers
mod Tests
mod Scenarios
mod Screens
use agentic_rpgmaker.Base.{
  ℕ, ◌+◌, ◌≡◌, Bool, true, false, Option, none, some, List, [], ◌∷◌, ◌++◌, String, if◌then◌else◌,
  leb, or_else, is_some, ℤ, ◌+ℤ◌, from_int,
}
use agentic_rpgmaker.Behavior.{Direction, Vec2}
use agentic_rpgmaker.State.{GameEvent, walk, collide}
use agentic_rpgmaker.Entity.{Heap, Transform, Collider, set_position, set_direction}
use agentic_rpgmaker.Scene.{player_entity_id}
use agentic_rpgmaker.Movement.{SolidTileGrid, StepCheckResult, check_step}
use agentic_rpgmaker.Input.{Input, same_direction, vector, consume_direction_edge}

-- A step that the player is taking.
pub record Step : Type 0 where
  pub from : Vec2
  pub to : Vec2
  pub elapsed : ℕ

-- What the steps read of the scene: the grid, the collider of the player, the entities that may
-- block, and the store that holds them.
pub record Ground : Type 0 where
  pub grid : SolidTileGrid
  pub player_collider : Option Collider
  pub npc_blockers : List ℕ
  pub heap : Heap
  pub step_duration : ℕ

-- What the steps change: the player's transform, the step, the held-key repeat, the inputs (one
-- that is null has the state of a cleared one), and the events on the bus.
pub record Walker : Type 0 where
  pub player_transform : Transform
  pub step : Option Step
  pub repeat_accum : ℕ
  pub last_step_dir : Option Direction
  pub input : Input
  pub virtual_input : Input
  pub bus : List GameEvent

-- `REPEAT_DELAY_SECONDS`, in thousandths
abbrev pub repeat_delay : ℕ
repeat_delay = 250

abbrev or_direction : Option Direction → Option Direction → Option Direction
or_direction none b = b
or_direction (some a) b = some a

abbrev pub current_direction : Walker → Option Direction
current_direction w = or_direction w.input.held_direction w.virtual_input.held_direction

abbrev pub edge_of : Option Direction → Walker → Walker × Option Direction
edge_of (some d) w = (w, some d)
edge_of none w =
    let (virtual, edge) = consume_direction_edge w.virtual_input in
    (record w { virtual_input = virtual }, edge)

-- `consumeDirectionEdge`
unfoldable pub consume_edge : Walker → Walker × Option Direction
unfolding consume_direction_edge
consume_edge w =
    let (input, edge) = consume_direction_edge w.input in edge_of edge (record w { input = input })

abbrev pub advance : ℕ → ℕ → Option Step → Walker → Walker
advance duration dt none w = w
advance duration dt (some s) w =
    if leb duration (s.elapsed + dt)
    then record w { player_transform = set_position s.to.x s.to.y w.player_transform; step = none }
    else record w { step = some (record s { elapsed = s.elapsed + dt }) }

-- `advanceStep`
unfoldable pub advance_step : ℕ → ℕ → Walker → Walker
advance_step duration dt w = advance duration dt w.step w

abbrev pub target : Direction → Transform → Vec2
target d t = record { x = t.x +ℤ from_int (vector d).0; y = t.y +ℤ from_int (vector d).1 }

abbrev pub place_of : Transform → Vec2
place_of t = record { x = t.x; y = t.y }

abbrev pub stepped : StepCheckResult → Direction → Walker → Walker
stepped result d w =
    let from = place_of w.player_transform in
    let to = target d w.player_transform in
    if result.blocked
    then record w {
      player_transform = set_direction d w.player_transform;
      bus = w.bus ++ collide player_entity_id (or_else result.blocker_id "map") true ∷ [];
    }
    else record w {
      player_transform = set_direction d w.player_transform;
      step = some (record { from = from; to = to; elapsed = 0 });
      bus = w.bus ++ walk player_entity_id from to ∷ [];
    }

-- `tryStep`
unfoldable pub try_step : Ground → Direction → Walker → Walker
unfolding check_step from_int
try_step g d w =
    stepped
      (check_step (target d w.player_transform) g.grid g.npc_blockers (some player_entity_id)
        g.player_collider g.heap)
      d w

abbrev pub is_last : Option Direction → Direction → Bool
is_last none d = false
is_last (some e) d = same_direction e d

-- The rest of `handleMovement`, for a direction that is held.
unfoldable pub hold : Ground → ℕ → Option Direction → Walker → Walker
unfolding try_step
hold g dt none w = record w { repeat_accum = 0; last_step_dir = none }
hold g dt (some d) w =
    if is_last w.last_step_dir d
    then (let w1 = record w { repeat_accum = w.repeat_accum + dt } in
        if leb repeat_delay w1.repeat_accum
        then if is_some w1.step then w1 else try_step g d w1
        else w1)
    else (let w1 = record w { last_step_dir = some d; repeat_accum = 0 } in
        if is_some w1.step then w1 else try_step g d w1)

abbrev pub move_by : Ground → ℕ → Walker × Option Direction → Walker
move_by g dt (w, some d) = try_step g d (record w { last_step_dir = some d; repeat_accum = 0 })
move_by g dt (w, none) = hold g dt (current_direction w) w

-- `handleMovement`
unfoldable pub handle_movement : Ground → ℕ → Bool → Walker → Walker
unfolding hold consume_edge
handle_movement g dt dialogue_open w =
    if dialogue_open then w else move_by g dt (if is_some w.step then (w, none) else consume_edge w)

-- The calls of `update` that move the player by steps: `advanceStep`, and `handleMovement` if no
-- choice is open. The events and behaviors that it also runs are in Frame.
unfoldable pub walk_on : Ground → ℕ → (choice_open dialogue_open : Bool) → Walker → Walker
unfolding handle_movement advance_step
walk_on g dt choice_open dialogue_open w =
    let w1 = advance_step g.step_duration dt w in
    if choice_open then w1 else handle_movement g dt dialogue_open w1
