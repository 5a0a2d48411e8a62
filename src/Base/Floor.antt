-- ===== src/Base/Floor.antt =====
-- `Math.floor` on numbers that count thousandths, and what bounds it.
use Prim.Native.Nat.{◌+◌, ◌*◌, ◌/◌}
use mathlib.Core.Logic.{◌↔◌}
use native.Mathlib.Omega.{arith}
use agentic_rpgmaker.Base.Int.{ℤ, pos, negsuc, ◌+ℤ◌, ◌-ℤ◌, ◌≤ℤ◌, ◌<ℤ◌}

-- The integer below a number.
unfoldable pub floor : ℤ → ℤ
floor (pos n) = pos (n / 1000)
floor (negsuc n) = negsuc (n / 1000)

-- An integer as a number.
unfoldable pub from_int : ℤ → ℤ
from_int (pos n) = pos (n * 1000)
from_int (negsuc n) = negsuc (n * 1000 + 999)

-- The floor is at most the integer t if the number is below t + 1.
pub floor-le : (a t : ℤ) → (floor a ≤ℤ t) ↔ (a <ℤ (from_int t +ℤ pos 1000))
unfolding floor from_int ◌+ℤ◌
floor-le a t = ground arith

-- The floor of what is just below a number is at least t if the number is above t.
pub floor-below : (a t : ℤ) → (t ≤ℤ floor (a -ℤ pos 1)) ↔ (from_int t <ℤ a)
unfolding floor from_int ◌-ℤ◌
floor-below a t = ground arith
