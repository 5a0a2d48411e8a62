-- ===== src/Behavior/Patrol.antt =====
-- Walking the route: where an update that reaches its target leaves the entity.
use agentic_rpgmaker.Base.{
  ℕ, zero, suc, ◌+◌, ◌%◌, ◌<◌, ◌≡◌, refl, ap, ◌∙◌, Bool, true, false, ◌&&◌, Option, String, ℤ, pos,
  arith, length, ◌+ℤ◌, ◌-ℤ◌, ◌≤ℤ◌, leb_ℤ, or_else, int_laws, -ℤ_parts, nat_eq,
}
use native.Mathlib.Nat.{mod-eq_of_lt, mod-add-mod, mod-lt}
use native.Mathlib.Numerals.{add-one}
use agentic_rpgmaker.Behavior.{
  Vec2, RuleBased, Decision, Fractions, moving, pausing, reset, approach, pause_or_go, update,
  move_decision, idle_decision, Direction, triggered, waypoint, same_position,
}

-- What the engine does with a decision to move or to stay: `applyBehaviorDecision` of the map scene.
abbrev pub moved : Vec2 → Decision → Vec2
moved p d = record { x = p.x +ℤ or_else d.dx (pos 0); y = p.y +ℤ or_else d.dy (pos 0) }

add_sub : (a b : ℤ) → a +ℤ (b -ℤ a) ≡ b
add_sub a b = omega int_laws

add_zero : (a : ℤ) → a +ℤ pos 0 ≡ a
add_zero a = omega int_laws

moved_to : (p q : Vec2) → moved p (move_decision (q.x -ℤ p.x) (q.y -ℤ p.y)) ≡ q
moved_to p q = λ k. record { x = add_sub p.x q.x k; y = add_sub p.y q.y k }

moved_idle : (p : Vec2) (d : Option Direction) → moved p (idle_decision d) ≡ p
moved_idle p d = λ k. record { x = add_zero p.x k; y = add_zero p.y k }

waypoint_same :
    (b b0 : RuleBased) (i j : ℕ) → b.waypoints ≡ b0.waypoints → i ≡ j → waypoint b i ≡ waypoint b0 j
waypoint_same b b0 i j route e = rw (route, e) refl

module _ (fractions : Fractions) (get_switch : String → Bool) (dt : ℤ) where
  open fractions use {times, hypot}

  unfoldable pub tick : Vec2 × RuleBased → Vec2 × RuleBased
  tick (p, b) = let (b', d) = update fractions p get_switch dt b in (moved p d, b')

  unfoldable pub ticks : ℕ → Vec2 × RuleBased → Vec2 × RuleBased
  unfolding tick
  ticks zero s = s
  ticks (suc k) s = tick (ticks k s)

  -- The entity stands at waypoint i and has begun the pause there.
  pub record IsAt (i : ℕ) (b0 : RuleBased) (s : Vec2 × RuleBased) : Type 0 where
    pub there : s.0 ≡ waypoint b0 i
    pub target : s.1.target_index ≡ i
    pub paused : s.1.phase ≡ pausing
    pub time_left : s.1.phase_time_left ≡ b0.idle_seconds
    pub route : s.1.waypoints ≡ b0.waypoints
    pub speed : s.1.speed ≡ b0.speed
    pub idle_seconds : s.1.idle_seconds ≡ b0.idle_seconds
    pub trigger_switch : s.1.trigger_switch ≡ b0.trigger_switch

  -- One step covers the way.
  abbrev pub Covers : RuleBased → Vec2 → Vec2 → Type 0
  Covers b p q = leb_ℤ (hypot (q.x -ℤ p.x) (q.y -ℤ p.y)) (times b.speed dt) ≡ true

  module _ (b0 : RuleBased) (calm : triggered b0.trigger_switch get_switch ≡ false)
      (quick : (i : ℕ)
        → i < length b0.waypoints
        → Covers b0 (waypoint b0 i) (waypoint b0 ((i + 1) % length b0.waypoints)))
      (short : b0.idle_seconds ≤ℤ dt) (several : 1 < length b0.waypoints) where
    approach_arrives :
        (p : Vec2) (b : RuleBased)
        → Covers b p (waypoint b b.target_index)
        → approach fractions p dt b ≡ (
          record b { phase = pausing; phase_time_left = b.idle_seconds },
          move_decision
              ((waypoint b b.target_index).x -ℤ p.x)
              ((waypoint b b.target_index).y -ℤ p.y),
        )
    unfolding approach
    approach_arrives p b covers = ground (arith, covers)

    same_place :
        (p : Vec2) (b : RuleBased) (j : ℕ)
        → b.target_index ≡ j
        → b.waypoints ≡ b0.waypoints
        → b.speed ≡ b0.speed
        → Covers b0 p (waypoint b0 j)
        → Covers b p (waypoint b b.target_index)
    same_place p b j target route speed covers =
        rw (waypoint_same b b0 b.target_index j route target, speed) covers

    approach-IsAt :
        (j : ℕ) (p : Vec2) (b : RuleBased)
        → b.target_index ≡ j
        → b.waypoints ≡ b0.waypoints
        → b.speed ≡ b0.speed
        → b.idle_seconds ≡ b0.idle_seconds
        → b.trigger_switch ≡ b0.trigger_switch
        → Covers b0 p (waypoint b0 j)
        → IsAt j b0 (moved p (approach fractions p dt b).1, (approach fractions p dt b).0)
    approach-IsAt j p b target route speed idle trigger covers =
        rw (approach_arrives p b (same_place p b j target route speed covers)) (record {
          there =
              moved_to p (waypoint b b.target_index)
              ∙ waypoint_same b b0 b.target_index j route target;
          target = target;
          paused = refl;
          time_left = idle;
          route = route;
          speed = speed;
          idle_seconds = idle;
          trigger_switch = trigger;
        })

    pause_over :
        (p : Vec2) (b : RuleBased)
        → b.phase ≡ pausing
        → b.phase_time_left ≡ b0.idle_seconds
        → pause_or_go fractions p dt b
          ≡ approach fractions p dt (record b {
            phase = moving;
            phase_time_left = b.phase_time_left -ℤ dt;
            target_index = (b.target_index + 1) % length b.waypoints;
          })
    unfolding pause_or_go
    pause_over p b e t = ground (arith, -ℤ_parts b.phase_time_left dt)

    one_stop : RuleBased → Vec2 → Bool
    one_stop b p = nat_eq (length b.waypoints) 1 && same_position p (waypoint b 0)

    update_goes :
        (p : Vec2) (b : RuleBased)
        → triggered b.trigger_switch get_switch ≡ false
        → one_stop b p ≡ false
        → update fractions p get_switch dt b
          ≡ pause_or_go fractions p dt (record b { elapsed_seconds = b.elapsed_seconds +ℤ dt })
    unfolding update one_stop
    update_goes p b e o = rw (e, o) refl

    more_stops : (p : Vec2) (b : RuleBased) → b.waypoints ≡ b0.waypoints → one_stop b p ≡ false
    unfolding one_stop
    more_stops p b route = rw route (ground arith)

    tick-IsAt :
        (i : ℕ) (p : Vec2) (b : RuleBased)
        → i < length b0.waypoints
        → IsAt i b0 (p, b)
        → IsAt ((i + 1) % length b0.waypoints) b0 (tick (p, b))
    unfolding tick
    tick-IsAt i p b lt v =
        rw
          (
            update_goes p b (rw (v.trigger_switch) calm) (more_stops p b v.route),
            pause_over p (record b { elapsed_seconds = b.elapsed_seconds +ℤ dt }) v.paused
                v.time_left,
          )
          (approach-IsAt ((i + 1) % length b0.waypoints) p _ (rw (v.target, v.route) refl) v.route
            v.speed v.idle_seconds v.trigger_switch (rw v.there (quick i lt)))

    next_stop :
        (k : ℕ) → (k % length b0.waypoints + 1) % length b0.waypoints ≡ suc k % length b0.waypoints
    next_stop k =
        mod-add-mod k (length b0.waypoints) 1 ∙ ap (λ n. n % length b0.waypoints) (add-one k)

    first-IsAt : (p : Vec2) → Covers b0 p (waypoint b0 0) → IsAt 0 b0 (tick (p, reset b0))
    unfolding tick reset pause_or_go
    first-IsAt p near =
        rw (update_goes p (reset b0) calm (more_stops p (reset b0) refl))
          (approach-IsAt 0 p _ refl refl refl refl refl near)

    -- A behavior that is reset, whose route has at least two waypoints and whose switch is not set,
    -- with a step that covers the way from each waypoint to the next, and from where the entity stands
    -- to the first, visits its waypoints in order and over again: after k + 1 updates the entity
    -- stands at waypoint k modulo their number, and the pause there has begun. The pauses are no
    -- longer than the time between two updates.
    pub ticks-IsAt :
        (k : ℕ) (p : Vec2)
        → Covers b0 p (waypoint b0 0)
        → IsAt (k % length b0.waypoints) b0 (ticks (suc k) (p, reset b0))
    unfolding ticks
    ticks-IsAt zero p near =
        rw (mod-eq_of_lt {n = 0} {m = length b0.waypoints} (omega arith)) (first-IsAt p near)
    ticks-IsAt (suc k) p near = rw (← next_stop k) (
        tick-IsAt (k % length b0.waypoints) (ticks (suc k) (p, reset b0)).0
          (ticks (suc k) (p, reset b0)).1 (mod-lt k {m = length b0.waypoints} (omega arith))
          (ticks-IsAt k p near))
