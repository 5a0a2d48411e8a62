-- ===== src/Behavior/Bounds.antt =====
-- The target of a patrol is a waypoint of its route, so the `!` of the source never meets
-- `undefined`.
use agentic_rpgmaker.Base.{◌+◌, ◌<◌, ◌≡◌, ◌⊎◌, Bool, some, String, ℤ, arith, length}
use native.Mathlib.Nat.{mod-lt}
use agentic_rpgmaker.Behavior.{
  Vec2, Config, RuleBased, Fractions, make, approach, update, idle, move,
}

abbrev pub IsOnRoute : RuleBased → Type 0
IsOnRoute b = b.target_index < length b.waypoints

make-IsOnRoute : (config : Config) (b : RuleBased) → make config ≡ some b → IsOnRoute b
unfolding make
make-IsOnRoute config b e = ground arith

-- The route and the settings of a behavior do not change.
abbrev pub SameRoute : RuleBased → RuleBased → Type 0
SameRoute b b' =
    (b'.waypoints ≡ b.waypoints)
    × (b'.speed ≡ b.speed)
    × (b'.idle_seconds ≡ b.idle_seconds)
    × (b'.trigger_switch ≡ b.trigger_switch)
    × (b'.face_direction ≡ b.face_direction)

-- An update keeps the route and the settings, and its target on the route; it asks for a pause or
-- a move, never for another action. The index read is that of a target on the route, so
-- `waypoints[targetIndex]` is defined in every update of a behavior that was constructed.
pub update-IsOnRoute :
    (fractions : Fractions) (position : Vec2) (get_switch : String → Bool) (dt : ℤ) (b : RuleBased)
    → IsOnRoute b
    → IsOnRoute (update fractions position get_switch dt b).0
      × SameRoute b (update fractions position get_switch dt b).0
      × (((update fractions position get_switch dt b).1.action ≡ idle)
          ⊎ ((update fractions position get_switch dt b).1.action ≡ move))
unfolding update approach
update-IsOnRoute fractions position get_switch dt b v =
    ground (arith, mod-lt (b.target_index + 1) {m = length b.waypoints})
