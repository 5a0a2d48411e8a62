-- ===== src/Behavior.antt =====
-- The rule-based patrol of a non-player character, packages/core/src/behavior/behavior.ts and
-- types.ts. What an update reads of its context is its arguments: the position of the entity, the
-- switches, and the time since the last call.
pub mod Bounds
pub mod Patrol
mod Tests
use agentic_rpgmaker.Base.{
  ℕ, zero, suc, ◌+◌, ◌%◌, ◌≡◌, Bool, true, false, ◌&&◌, ◌||◌, not, Option, none, some, List, [],
  ◌∷◌, String, if◌then◌else◌, ◌==◌, length, get_elem?, ℤ, pos, ◌+ℤ◌, ◌-ℤ◌, leb_ℤ, ltb_ℤ, eqb_ℤ,
  or_else, nat_eq, whole,
}

pub data Direction : Type 0 where
  up down left right : Direction

pub record Vec2 : Type 0 where
  pub x : ℤ
  pub y : ℤ

-- What a behavior asks for: the fields that an action does not set are `none`.
pub data Action : Type 0 where
  idle move face say : Action

pub record Decision : Type 0 where
  pub action : Action
  pub dx : Option ℤ
  pub dy : Option ℤ
  pub direction : Option Direction
  pub text : Option String

abbrev pub idle_decision : Option Direction → Decision
idle_decision direction = record {
  action = idle;
  dx = none;
  dy = none;
  direction = direction;
  text = none;
}

abbrev pub move_decision : ℤ → ℤ → Decision
move_decision dx dy = record {
  action = move;
  dx = some dx;
  dy = some dy;
  direction = none;
  text = none;
}

pub record Config : Type 0 where
  pub waypoints : List Vec2
  pub speed : Option ℤ
  pub idle_seconds : Option ℤ
  pub trigger_switch : Option String
  pub face_direction : Option Direction

pub data Phase : Type 0 where
  moving pausing : Phase

pub record RuleBased : Type 0 where
  pub waypoints : List Vec2
  pub speed : ℤ
  pub idle_seconds : ℤ
  pub trigger_switch : Option String
  pub face_direction : Option Direction
  pub target_index : ℕ
  pub phase : Phase
  pub phase_time_left : ℤ
  pub elapsed_seconds : ℤ

-- The constructor, which throws on an empty route: `none`.
unfoldable pub make : Config → Option RuleBased
make config = elim config.waypoints [
  | [] ↦ none
  | w ∷ ws ↦ some (record {
    waypoints = w ∷ ws;
    speed = or_else config.speed (whole 1);
    idle_seconds = or_else config.idle_seconds (pos 0);
    trigger_switch = config.trigger_switch;
    face_direction = config.face_direction;
    target_index = 0;
    phase = moving;
    phase_time_left = pos 0;
    elapsed_seconds = pos 0;
  })
]

unfoldable pub reset : RuleBased → RuleBased
reset b = record b {
  target_index = 0;
  phase = moving;
  phase_time_left = pos 0;
  elapsed_seconds = pos 0;
}

abbrev pub same_position : Vec2 → Vec2 → Bool
same_position a b = eqb_ℤ a.x b.x && eqb_ℤ a.y b.y

-- `waypoints[i]!`, where the index is out of range the model has the origin.
abbrev pub waypoint : RuleBased → ℕ → Vec2
waypoint b i = or_else (get_elem? b.waypoints i) (record { x = pos 0; y = pos 0 })

abbrev pub is_pausing : Phase → Bool
is_pausing moving = false
is_pausing pausing = true

-- The trigger switch is configured and set.
abbrev pub triggered : Option String → (String → Bool) → Bool
triggered none get_switch = false
triggered (some s) get_switch = get_switch s

-- The operations of the language on fractions: a product, the length of a vector, and
-- `(dx / distance) * step`.
pub record Fractions : Type 0 where
  pub times : ℤ → ℤ → ℤ
  pub hypot : ℤ → ℤ → ℤ
  pub portion : ℤ → ℤ → ℤ → ℤ

module _ (fractions : Fractions) where
  open fractions use {times, hypot, portion}

  -- The part of `update` below the pause: one step towards the target.
  unfoldable pub approach : Vec2 → ℤ → RuleBased → RuleBased × Decision
  approach position dt b =
      let target = waypoint b b.target_index in
      let dx = target.x -ℤ position.x in
      let dy = target.y -ℤ position.y in
      let distance = hypot dx dy in
      let step = times b.speed dt in
      if eqb_ℤ distance (pos 0) || leb_ℤ distance step
      then (record b { phase = pausing; phase_time_left = b.idle_seconds }, move_decision dx dy)
      else (b, move_decision (portion dx distance step) (portion dy distance step))

  -- The pause at a waypoint, and what follows it.
  unfoldable pub pause_or_go : Vec2 → ℤ → RuleBased → RuleBased × Decision
  unfolding approach
  pause_or_go position dt b =
      if is_pausing b.phase
      then (let remaining = b.phase_time_left -ℤ dt in
          if ltb_ℤ (pos 0) remaining
          then (record b { phase_time_left = remaining }, idle_decision none)
          else approach position dt (record b {
            phase = moving;
            phase_time_left = remaining;
            target_index = (b.target_index + 1) % length b.waypoints;
          }))
      else approach position dt b

  unfoldable pub update : Vec2 → (String → Bool) → ℤ → RuleBased → RuleBased × Decision
  unfolding pause_or_go
  update position get_switch dt b0 =
      let b = record b0 { elapsed_seconds = b0.elapsed_seconds +ℤ dt } in
      if triggered b.trigger_switch get_switch
      then (b, idle_decision b.face_direction)
      else if nat_eq (length b.waypoints) 1 && same_position position (waypoint b 0)
      then (b, idle_decision none)
      else pause_or_go position dt b
