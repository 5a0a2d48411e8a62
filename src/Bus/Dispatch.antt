-- ===== src/Bus/Dispatch.antt =====
-- What one emission delivers, for handlers that change the bus while it runs.
use agentic_rpgmaker.Base.{
  ℕ, ◌≡◌, refl, true, false, none, some, List, [], ◌∷◌, ◌++◌, ap, ◌∙◌, sym, All, String,
  if◌then◌else◌, ◌==◌, inl, inr, ◌⊎◌, arith, nat_eq_iff, Option-cases, Bool-cases, String_eq, ℕ_eq,
}
use mathlib.Core.List.{append_assoc, append-nil}
use agentic_rpgmaker.Base.Dict.{get, includes}
use agentic_rpgmaker.Bus.{Bus, clear, listeners, dispatch, emit}

-- Handlers that note that they ran, and change the bus.
abbrev pub noting : (ℕ → Bus → Bus) → ℕ → Bus × List ℕ → Bus × List ℕ
noting effect handler (bus, log) = (effect handler bus, log ++ handler ∷ [])

-- `Subsequence xs ys`: xs is ys with some entries left out.
pub data Subsequence : List ℕ → List ℕ → Type 0 where
  done : Subsequence [] []
  keep : (x : ℕ) {xs ys : List ℕ} → Subsequence xs ys → Subsequence (x ∷ xs) (x ∷ ys)
  skip : (y : ℕ) {xs ys : List ℕ} → Subsequence xs ys → Subsequence xs (y ∷ ys)

-- The handler stands in the set.
abbrev pub IsIn : ℕ → List ℕ → Type 0
IsIn h set = (before : List ℕ) × (after : List ℕ) × (set ≡ before ++ h ∷ after)

-- `Turns effect p snapshot bus called final`: the handlers of the snapshot get their turns on a bus.
-- One that stands in the set at p when its turn comes is called, and changes the bus; one that does
-- not is passed over. The bus is the final one after the last turn.
pub data Turns (effect : ℕ → Bus → Bus) (p : ℕ) : List ℕ → Bus → List ℕ → Bus → Type 0 where
  over : (bus : Bus) → Turns effect p [] bus [] bus
  call :
      (h : ℕ) (bus : Bus) {hs called : List ℕ} {final : Bus}
      → IsIn h (bus.sets p)
      → Turns effect p hs (effect h bus) called final
      → Turns effect p (h ∷ hs) bus (h ∷ called) final
  pass :
      (h : ℕ) (bus : Bus) {hs called : List ℕ} {final : Bus}
      → ¬ IsIn h (bus.sets p)
      → Turns effect p hs bus called final
      → Turns effect p (h ∷ hs) bus called final

includes_head : (x : ℕ) (pre post : List ℕ) → includes x (pre ++ x ∷ post) ≡ true
unfolding includes
includes_head x [] post = ground (arith, nat_eq_iff x x)
includes_head x (y ∷ pre) post = ground (arith, includes_head x pre post)

includes_split : (x : ℕ) (set : List ℕ) → includes x set ≡ true → IsIn x set
unfolding includes
includes_split x [] e = cc
includes_split x (y ∷ set) e = elim (Bool-cases (y == x)) [
  | inl same ↦ ([], set, ap (λ z. z ∷ set) ((nat_eq_iff y x).0 same))
  | inr other ↦
      let (before, after, split) = includes_split x set (ground (arith, other, e)) in
      (y ∷ before, after, ap (λ l. y ∷ l) split)
]

absent_now : (x : ℕ) (set : List ℕ) → includes x set ≡ false → ¬ IsIn x set
absent_now x set e (before, after, split) =
    let found : includes x set ≡ true = rw split (includes_head x before after) in
    ground (arith, e, found)

module _ {S : Type 0} (call : ℕ → Bus × S → Bus × S) (p h : ℕ) (hs : List ℕ) (bus : Bus)
    (s : S) where
  pub dispatch_member :
      includes h (bus.sets p) ≡ true
      → dispatch call p (h ∷ hs) (bus, s) ≡ dispatch call p hs (call h (bus, s))
  unfolding dispatch
  dispatch_member e = ap (λ b. dispatch call p hs (if b then call h (bus, s) else (bus, s))) e

  pub dispatch_removed :
      includes h (bus.sets p) ≡ false
      → dispatch call p (h ∷ hs) (bus, s) ≡ dispatch call p hs (bus, s)
  unfolding dispatch
  dispatch_removed e = ap (λ b. dispatch call p hs (if b then call h (bus, s) else (bus, s))) e

module _ {S : Type 0} (call : ℕ → Bus × S → Bus × S) (type : String) (bus : Bus) (s : S) where
  pub emit_found :
      (p : ℕ)
      → get type bus.handlers ≡ some p
      → emit call type (bus, s) ≡ dispatch call p (listeners type bus) (bus, s)
  unfolding emit listeners
  emit_found p e = rw (e, emit, listeners) refl

  pub emit-none :
      get type bus.handlers ≡ none
      → (emit call type (bus, s) ≡ (bus, s)) × (listeners type bus ≡ [])
  unfolding emit listeners
  emit-none e = (rw (e, emit) refl, rw (e, listeners) refl)

pub listeners_found :
    (type : String) (bus : Bus) (p : ℕ)
    → get type bus.handlers ≡ some p
    → listeners type bus ≡ bus.sets p
unfolding listeners
listeners_found type bus p e = rw (e, listeners) refl

module _ (effect : ℕ → Bus → Bus) where
  -- The emission gives the handlers of the snapshot their turns.
  abbrev pub Delivered : ℕ → List ℕ → Bus → List ℕ → Bus × List ℕ → Type 0
  Delivered p snapshot bus log r =
      (called : List ℕ) × (r.1 ≡ log ++ called)
      × Turns effect p snapshot bus called r.0
      × Subsequence called snapshot

  dispatch-Delivered :
      (p : ℕ) (hs : List ℕ) (bus : Bus) (log : List ℕ)
      → Delivered p hs bus log (dispatch (noting effect) p hs (bus, log))
  unfolding dispatch
  dispatch-Delivered p [] bus log = ([], sym (append-nil log), over bus, done)
  dispatch-Delivered p (h ∷ hs) bus log = elim (Bool-cases (includes h (bus.sets p))) [
    | inl e ↦
        let (called, eq, turns, sub) = dispatch-Delivered p hs (effect h bus) (log ++ h ∷ []) in
        rw (dispatch_member (noting effect) p h hs bus log e) (
          h ∷ called,
          eq ∙ append_assoc log (h ∷ []) called,
          call h bus (includes_split h (bus.sets p) e) turns,
          keep h sub,
        )
    | inr e ↦
        let (called, eq, turns, sub) = dispatch-Delivered p hs bus log in
        rw (dispatch_removed (noting effect) p h hs bus log e)
          (called, eq, pass h bus (absent_now h (bus.sets p) e) turns, skip h sub)
  ]

  -- Whatever the handlers do to the bus: an emission of an event name with no set does nothing. Else
  -- the handlers that stood in its set when the emission began get their turns in subscription
  -- order: one that stands in the set when its turn comes is called, exactly once for the turn, and
  -- one that was unsubscribed by then is passed over. No other handler is called.
  pub emit-Delivered :
      (type : String) (bus : Bus) (log : List ℕ)
      → ((get type bus.handlers ≡ none) × (emit (noting effect) type (bus, log) ≡ (bus, log)))
        ⊎ ((p : ℕ) × (get type bus.handlers ≡ some p)
            × Delivered p (bus.sets p) bus log (emit (noting effect) type (bus, log)))
  emit-Delivered type bus log = elim (Option-cases (get type bus.handlers)) [
    | inl e ↦ inl (e, (emit-none (noting effect) type bus log e).0)
    | inr (p, e) ↦ inr (
      p,
      e,
      rw (emit_found (noting effect) type bus log p e, listeners_found type bus p e)
          (dispatch-Delivered p (bus.sets p) bus log),
    )
  ]

  -- Handlers that leave the set alone which the emission goes through.
  dispatch-All :
      (p : ℕ) (hs set : List ℕ) (bus : Bus) (log : List ℕ)
      → bus.sets p ≡ set
      → ((h : ℕ) (b : Bus) → b.sets p ≡ set → (effect h b).sets p ≡ set)
      → All (λ h. includes h set ≡ true) hs
      → (dispatch (noting effect) p hs (bus, log)).1 ≡ log ++ hs
  unfolding dispatch
  dispatch-All p [] set bus log e keeps a = sym (append-nil log)
  dispatch-All p (h ∷ hs) set bus log e keeps (here, later) =
      rw (dispatch_member (noting effect) p h hs bus log (rw e here)) (
        dispatch-All p hs set (effect h bus) (log ++ h ∷ []) (keeps h bus e) keeps later
        ∙ append_assoc log (h ∷ []) hs)

pub includes_part : (l pre post : List ℕ) → l ≡ pre ++ post → All (λ h. includes h l ≡ true) post
includes_part l pre [] e = tt
includes_part l pre (x ∷ post) e = (
  rw e (includes_head x pre post),
  includes_part l (pre ++ x ∷ []) post (e ∙ sym (append_assoc pre (x ∷ []) post)),
)

-- A handler that calls `bus.clear()` does not end the emission that runs: `clear` drops the sets
-- from the map and leaves the set that `emit` goes through, so every handler that was subscribed
-- is called all the same.
pub emit-clear :
    (type : String) (bus : Bus) (log : List ℕ) (h : ℕ)
    → (emit (noting (λ x b. if x == h then clear b else b)) type (bus, log)).1
      ≡ log ++ listeners type bus
unfolding clear
emit-clear type bus log h = elim (Option-cases (get type bus.handlers)) [
  | inl e ↦
      let (same, none_listed) =
        emit-none (noting (λ x b. if x == h then clear b else b)) type bus log e in
      rw (same, none_listed) (sym (append-nil log))
  | inr (p, e) ↦ rw (emit_found (noting (λ x b. if x == h then clear b else b)) type bus log p e) (
      dispatch-All (λ x b. if x == h then clear b else b) p (listeners type bus)
        (listeners type bus) bus log (sym (listeners_found type bus p e)) (λ x b same. ground arith)
        (includes_part _ [] (listeners type bus) refl))
]
