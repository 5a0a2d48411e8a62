-- ===== src/Behavior/Tests.antt =====
-- Runs of the patrol, and the theorems about it at concrete routes.
use agentic_rpgmaker.Base.{
  ℕ, zero, suc, ◌+◌, ◌*◌, ◌/◌, ◌<◌, leb, nat_eq, if◌then◌else◌, ℤ, negsuc, pos_part, neg_part, ◌%◌,
  ◌≡◌, refl, true, false, some, [], ◌∷◌, pos, arith, whole, ◌+ℤ◌, ◌-ℤ◌,
}
use agentic_rpgmaker.Behavior.{
  Vec2, RuleBased, Fractions, moving, make, reset, update, up, waypoint,
}
use agentic_rpgmaker.Behavior.Patrol.{ticks, Covers, IsAt, ticks-IsAt}

patrolling : Unit {0}
unfolding update make reset ticks ◌+ℤ◌ ◌-ℤ◌
patrolling = tt

-- The largest number up to n whose square is at most m.
abbrev root : ℕ → ℕ → ℕ
root m zero = 0
root m (suc n) = let rest = root m n in if leb (suc n * suc n) m then suc n else rest

abbrev size : ℤ → ℕ
size a = pos_part a + neg_part a

-- Results are rounded towards zero, to thousandths.
abbrev signed : ℤ → ℕ → ℤ
signed (pos a) n = pos n
signed (negsuc a) n = pos 0 -ℤ pos n

rounded : Fractions
rounded = record {
  times = λ a b. pos (size a * size b / 1000);
  hypot = λ a b. pos (root (size a * size a + size b * size b) (size a + size b));
  portion = λ a b c. if nat_eq (size b) 0 then pos 0 else signed a (size a * size c / size b);
}

abbrev corner : ℕ → ℕ → Vec2
corner x y = record { x = whole x; y = whole y }

abbrev guard : RuleBased
guard = record {
  waypoints = corner 0 0 ∷ corner 1 0 ∷ corner 1 1 ∷ [];
  speed = whole 4;
  idle_seconds = pos 250;
  trigger_switch = some "alarm";
  face_direction = some up;
  target_index = 0;
  phase = moving;
  phase_time_left = pos 0;
  elapsed_seconds = pos 0;
}

guard_made :
    make (record {
      waypoints = guard.waypoints;
      speed = some (whole 4);
      idle_seconds = some (pos 250);
      trigger_switch = some "alarm";
      face_direction = some up;
    })
    ≡ some guard
unfolding patrolling
guard_made = refl

guard_walks :
    ((ticks rounded (λ _. false) (pos 500) 5 (corner 0 1, guard)).0 ≡ corner 1 0)
    × ((update rounded (corner 0 1) (λ _. true) (pos 500) guard).1.direction ≡ some up)
unfolding patrolling rounded
guard_walks = (refl, refl)

-- Half a second covers two tiles, and so the way to each corner.
guard-Covers :
    (i : ℕ)
    → i < 3
    → Covers rounded (λ _. false) (pos 500) guard (waypoint guard i) (waypoint guard ((i + 1) % 3))
unfolding patrolling rounded
guard-Covers zero lt = refl
guard-Covers (suc zero) lt = refl
guard-Covers (suc (suc zero)) lt = refl
guard-Covers (suc (suc (suc n))) lt = absurd (omega arith)

ticks-IsAt_example :
    IsAt rounded
      (λ _. false)
      (pos 500)
      (4 % 3)
      guard
      (ticks rounded (λ _. false) (pos 500) 5 (corner 0 1, reset guard))
unfolding patrolling rounded
ticks-IsAt_example =
    ticks-IsAt rounded (λ _. false) (pos 500) guard refl guard-Covers (omega arith) (omega arith) 4
      (corner 0 1) refl
