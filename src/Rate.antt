-- ===== src/Rate.antt =====
-- The token bucket of packages/runtime/src/transport.ts. Tokens are counted in thousandths, times in
-- milliseconds, so a rate in tokens per second adds `rate` thousandths in each millisecond.
pub mod Budget
mod Tests
use agentic_rpgmaker.Base.{
  ℕ, zero, suc, ◌+◌, ◌-◌, ◌*◌, ◌≡◌, Bool, true, false, List, [], ◌∷◌, if◌then◌else◌, ltb, leb,
}

pub record TokenBucket : Type 0 where
  pub capacity : ℕ
  pub rate : ℕ
  pub tokens : ℕ
  pub last_refill_ms : ℕ

-- The constructor, at the time `now`.
abbrev pub make_bucket : (rate_per_second burst now : ℕ) → TokenBucket
make_bucket rate_per_second burst now = record {
  capacity = burst * 1000;
  rate = rate_per_second;
  tokens = burst * 1000;
  last_refill_ms = now;
}

abbrev min : ℕ → ℕ → ℕ
min a b = if leb a b then a else b

-- Natural subtraction is `Math.max(0, now - this.lastRefillMs)`.
unfoldable pub refill : ℕ → TokenBucket → TokenBucket
refill now b =
    let elapsed = now - b.last_refill_ms in
    if ltb 0 elapsed
    then record b { tokens = min b.capacity (b.tokens + elapsed * b.rate); last_refill_ms = now }
    else b

abbrev pub spend : TokenBucket → TokenBucket × Bool
spend b = if ltb b.tokens 1000 then (b, false) else (record b { tokens = b.tokens - 1000 }, true)

unfoldable pub try_take : ℕ → TokenBucket → TokenBucket × Bool
unfolding refill
try_take now b = spend (refill now b)

abbrev pub available_tokens : ℕ → TokenBucket → ℕ
available_tokens now b = (refill now b).tokens
