-- ===== src/Rate/Tests.antt =====
-- A bucket of five tokens, and the theorems about buckets at it.
use agentic_rpgmaker.Base.{ℕ, ◌+◌, ◌*◌, ◌≡◌, refl, ◌≤◌, List, [], ◌∷◌, arith}
use agentic_rpgmaker.Rate.{TokenBucket, make_bucket}
use agentic_rpgmaker.Rate.Budget.{take_all, take_all-budget}

abbrev bucket : TokenBucket
bucket = make_bucket 10 2 5000

abbrev times : List ℕ
times = 5000 ∷ 5001 ∷ 5002 ∷ 4000 ∷ 5100 ∷ []

take_all-budget_example :
    ((take_all times bucket).0.tokens ≤ bucket.capacity)
    × ((take_all times bucket).1 * 1000
          + (take_all times bucket).0.tokens
          + bucket.last_refill_ms * bucket.rate
        ≤ bucket.tokens + (take_all times bucket).0.last_refill_ms * bucket.rate)
    × (bucket.last_refill_ms ≤ (take_all times bucket).0.last_refill_ms)
take_all-budget_example = take_all-budget times bucket (omega arith)

three_granted : (take_all times bucket).1 ≡ 3
unfolding take_all
three_granted = refl
