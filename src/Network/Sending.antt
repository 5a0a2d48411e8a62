-- ===== src/Network/Sending.antt =====
-- What the client sends, and how often.
use mathlib.Core.Path.{subst⁻¹}
use agentic_rpgmaker.Base.{
  ℕ, zero, suc, ◌+◌, ◌*◌, ◌≡◌, refl, ◌≤◌, Bool, true, false, ◌&&◌, some, List, [], ◌∷◌, ◌++◌,
  if◌then◌else◌, ltb, take, length, arith, inl, inr, Bool-cases, ap, ap₂, ◌∙◌, sym, length-append,
}
use agentic_rpgmaker.Rate.{TokenBucket, try_take}
use agentic_rpgmaker.Rate.Budget.{take_all, take_all-budget}
use agentic_rpgmaker.Network.{
  PlayerState, send_state, send_chat_text, NetworkClient, flush_pending_state, flush_pending,
  flush_state, chat_with, chat_trimmed, send_chat, max_chat_length,
}

-- `flushPendingState` at each of the times.
unfoldable pub flush_all : List ℕ → NetworkClient → NetworkClient
unfolding flush_pending_state
flush_all [] c = c
flush_all (now ∷ times) c = flush_all times (flush_pending_state now c)

flushed :
    (now : ℕ) (state : PlayerState) (r : TokenBucket × Bool) (c : NetworkClient)
    → ((flush_state now state r c).state_bucket ≡ r.0)
      × (length (flush_state now state r c).sent ≡ (if r.1 then 1 else 0) + length c.sent)
      × ((flush_state now state r c).connected ≡ c.connected)
      × ((flush_state now state r c).pending_state ≡ c.pending_state)
flushed now state (bucket, false) c = (refl, omega arith, refl, refl)
flushed now state (bucket, true) c =
    (refl, omega (arith, length-append c.sent (send_state state now ∷ [])), refl, refl)

flush_once :
    (now : ℕ) (state : PlayerState) (c : NetworkClient)
    → c.connected ≡ true
    → c.pending_state ≡ some state
    → flush_pending_state now c ≡ flush_state now state (try_take now c.state_bucket) c
unfolding flush_pending_state
flush_once now state c on pending = ap₂ (λ o q. flush_pending now o q c) pending on

flush_all_taken :
    (times : List ℕ) (state : PlayerState) (c : NetworkClient)
    → c.connected ≡ true
    → c.pending_state ≡ some state
    → ((flush_all times c).state_bucket ≡ (take_all times c.state_bucket).0)
      × (length (flush_all times c).sent ≡ (take_all times c.state_bucket).1 + length c.sent)
unfolding flush_all take_all
flush_all_taken [] state c on pending = (refl, omega arith)
flush_all_taken (now ∷ times) state c on pending =
    let c1 = flush_state now state (try_take now c.state_bucket) c in
    let (bucket, more, on1, pending1) = flushed now state (try_take now c.state_bucket) c in
    let (buckets, total) = flush_all_taken times state c1 (on1 ∙ on) (pending1 ∙ pending) in
    let same : take_all times c1.state_bucket ≡ take_all times (try_take now c.state_bucket).0 =
      ap (take_all times) bucket in
    subst⁻¹
      (λ d.
        ((flush_all times d).state_bucket ≡ (take_all times (try_take now c.state_bucket).0).0)
        × (length (flush_all times d).sent
            ≡ ((if (try_take now c.state_bucket).1 then 1 else 0)
                + (take_all times (try_take now c.state_bucket).0).1)
              + length c.sent))
      (flush_once now state c on pending)
      (
        buckets ∙ ap (λ r. r.0) same,
        omega (arith, total, more, ap (λ (r : TokenBucket × ℕ). r.1) same),
      )

-- While the client is connected and has a state to send, calls of `flushPendingState` at any times
-- send no more than the bucket for states pays for: a thousand for each message is at most what
-- the bucket held and earned at its rate between the refills.
pub flush_all-budget :
    (times : List ℕ) (state : PlayerState) (c : NetworkClient)
    → c.connected ≡ true
    → c.pending_state ≡ some state
    → c.state_bucket.tokens ≤ c.state_bucket.capacity
    → length (flush_all times c).sent * 1000 + c.state_bucket.last_refill_ms * c.state_bucket.rate
      ≤ length c.sent * 1000
        + c.state_bucket.tokens
        + (flush_all times c).state_bucket.last_refill_ms * c.state_bucket.rate
flush_all-budget times state c on pending full =
    let (bucket, total) = flush_all_taken times state c on pending in
    let (capped, paid, later) = take_all-budget times c.state_bucket full in
    let last : (flush_all times c).state_bucket.last_refill_ms * c.state_bucket.rate
        ≡ (take_all times c.state_bucket).0.last_refill_ms * c.state_bucket.rate =
      ap (λ (b : TokenBucket). b.last_refill_ms * c.state_bucket.rate) bucket in
    omega (arith, total, paid, last)

length-take : (n : ℕ) (text : List ℕ) → length (take n text) ≤ n
length-take zero text = omega arith
length-take (suc n) [] = omega arith
length-take (suc n) (unit ∷ text) = omega (arith, length-take n text)

trimmed_lem :
    (now : ℕ) (text : List ℕ) (r : TokenBucket × Bool) (c : NetworkClient)
    → ((chat_with text r c).1 ≡ r.1)
      × ((chat_with text r c).0.sent ≡ (if r.1 then c.sent ++ send_chat_text text ∷ [] else c.sent))
trimmed_lem now text (bucket, false) c = (refl, refl)
trimmed_lem now text (bucket, true) c = (refl, refl)

abbrev pub has_text : List ℕ → Bool
has_text text = ltb 0 (length text)

chat_trimmed_lem :
    (now : ℕ) (text : List ℕ) (c : NetworkClient)
    → ((chat_trimmed now text c).1 ≡ (has_text text && (try_take now c.chat_bucket).1))
      × ((chat_trimmed now text c).0.sent
          ≡ (if (chat_trimmed now text c).1 then c.sent ++ send_chat_text text ∷ [] else c.sent))
chat_trimmed_lem now [] c = (refl, refl)
chat_trimmed_lem now (unit ∷ text) c =
    let (taken, sent) = trimmed_lem now (unit ∷ text) (try_take now c.chat_bucket) c in
    let nonempty : has_text (unit ∷ text) ≡ true = ground arith in
    (
      taken ∙ sym (ap (λ q. q && (try_take now c.chat_bucket).1) nonempty),
      sent
          ∙ ap (λ q. if q then c.sent ++ send_chat_text (unit ∷ text) ∷ [] else c.sent) (sym taken),
    )

-- What a call sends, by whether the client is connected.
abbrev Sends : ℕ → List ℕ → NetworkClient → Bool → Type 0
Sends now text c on =
    let r = if on then chat_trimmed now text c else (c, false) in
    (r.1 ≡ (on && has_text text && (try_take now c.chat_bucket).1))
    × (r.0.sent ≡ (if r.1 then c.sent ++ send_chat_text text ∷ [] else c.sent))
    × (length text ≤ max_chat_length)

-- `sendChat` sends exactly if the client is connected, the text is not empty and the bucket for
-- chats gives a token; then it sends one message, with the first 200 units of the text at most, and
-- else none.
pub send_chat_lem :
    (now : ℕ) (text : List ℕ) (c : NetworkClient)
    → ((send_chat now text c).1
        ≡ (c.connected && has_text (take max_chat_length text) && (try_take now c.chat_bucket).1))
      × ((send_chat now text c).0.sent ≡ (
          if (send_chat now text c).1
          then c.sent ++ send_chat_text (take max_chat_length text) ∷ []
          else c.sent))
      × (length (take max_chat_length text) ≤ max_chat_length)
unfolding send_chat
send_chat_lem now text c = elim (Bool-cases c.connected) [
  | inl on ↦
      let (result, sent) = chat_trimmed_lem now (take max_chat_length text) c in
      subst⁻¹ (Sends now (take max_chat_length text) c) on
        (result, sent, length-take max_chat_length text)
  | inr off ↦
      subst⁻¹ (Sends now (take max_chat_length text) c) off
        (refl, refl, length-take max_chat_length text)
]
