-- ===== src/Rate/Budget.antt =====
-- How many messages a bucket lets through.
use native.Mathlib.Nat.{mul-add, mul_comm}
use mathlib.Core.Path.{subst}
use agentic_rpgmaker.Base.{
  ℕ, ◌+◌, ◌-◌, ◌*◌, ◌≡◌, ◌≤◌, true, List, [], ◌∷◌, if◌then◌else◌, arith, ap, ◌∙◌, sym,
}
use agentic_rpgmaker.Rate.{TokenBucket, refill, try_take}

-- `tryTake` at each of the times, and how many of the calls returned true.
unfoldable pub take_all : List ℕ → TokenBucket → TokenBucket × ℕ
unfolding try_take
take_all [] b = (b, 0)
take_all (now ∷ times) b =
    let (b1, taken) = try_take now b in
    let (b2, granted) = take_all times b1 in (b2, (if taken then 1 else 0) + granted)

earned : (last now rate : ℕ) → last ≤ now → last * rate + (now - last) * rate ≡ now * rate
earned last now rate le =
    let split : last + (now - last) ≡ now = omega arith in
    sym (
      ap (λ n. n * rate) (sym split)
      ∙ mul_comm (last + (now - last)) rate
      ∙ mul-add rate last (now - last)
      ∙ ap (λ n. n + rate * (now - last)) (mul_comm rate last)
      ∙ ap (λ n. last * rate + n) (mul_comm rate (now - last)))

-- A bucket and how it stands to an earlier one: it has spent no more than was there and earned.
refill_earns :
    (now : ℕ) (b : TokenBucket)
    → ((refill now b).tokens + b.last_refill_ms * b.rate
        ≤ b.tokens + (refill now b).last_refill_ms * b.rate)
      × (b.last_refill_ms ≤ (refill now b).last_refill_ms)
      × ((refill now b).rate ≡ b.rate)
      × ((refill now b).capacity ≡ b.capacity)
      × (b.tokens ≤ b.capacity → (refill now b).tokens ≤ b.capacity)
unfolding refill
refill_earns now b = ground (arith, earned b.last_refill_ms now b.rate)

-- One call of `tryTake`.
take_spends :
    (now : ℕ) (b : TokenBucket)
    → ((if (try_take now b).1 then 1 else 0) * 1000 + (try_take now b).0.tokens
        ≡ (refill now b).tokens)
      × ((try_take now b).0.last_refill_ms ≡ (refill now b).last_refill_ms)
      × ((try_take now b).0.rate ≡ (refill now b).rate)
      × ((try_take now b).0.capacity ≡ (refill now b).capacity)
unfolding try_take
take_spends now b = ground arith

-- However `tryTake` is called, the tokens never exceed the capacity, and the messages that it lets
-- through are paid for: a thousand for each of them is at most what was there and what the time
-- from the last refill before to the last refill after has earned at the rate.
pub take_all-budget :
    (times : List ℕ) (b : TokenBucket)
    → b.tokens ≤ b.capacity
    → ((take_all times b).0.tokens ≤ b.capacity)
      × ((take_all times b).1 * 1000 + (take_all times b).0.tokens + b.last_refill_ms * b.rate
          ≤ b.tokens + (take_all times b).0.last_refill_ms * b.rate)
      × (b.last_refill_ms ≤ (take_all times b).0.last_refill_ms)
unfolding take_all
take_all-budget [] b le = (le, omega arith, omega arith)
take_all-budget (now ∷ times) b le =
    let (earns, later, rate1, capacity1, capped) = refill_earns now b in
    let (spends, last2, rate2, capacity2) = take_spends now b in
    let b1 = (try_take now b).0 in
    let rate : b1.rate ≡ b.rate = rate2 ∙ rate1 in
    let (capped3, budget, later3) = take_all-budget times b1 (ground (arith, capped le)) in
    let paid : (take_all times b1).1 * 1000
          + (take_all times b1).0.tokens
          + b1.last_refill_ms * b.rate
        ≤ b1.tokens + (take_all times b1).0.last_refill_ms * b.rate =
      subst
        (λ r.
          (take_all times b1).1 * 1000 + (take_all times b1).0.tokens + b1.last_refill_ms * r
          ≤ b1.tokens + (take_all times b1).0.last_refill_ms * r)
        rate budget in
    let same : b1.last_refill_ms * b.rate ≡ (refill now b).last_refill_ms * b.rate =
      ap (λ n. n * b.rate) last2 in
    (omega arith, ground arith, omega arith)

-- A bucket that may hold a token lets a message through once it has one and what was earned since.
pub try_take_earned :
    (now : ℕ) (b : TokenBucket)
    → 1000 ≤ b.capacity
    → 1000 ≤ b.tokens + (now - b.last_refill_ms) * b.rate
    → (try_take now b).1 ≡ true
unfolding try_take
try_take_earned now b room enough = ground arith
