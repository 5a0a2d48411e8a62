-- ===== src/Bus/Unsubscribe.antt =====
-- Unsubscribing in the middle of an emission.
use agentic_rpgmaker.Base.{
  ℕ, ◌≤◌, ◌≡◌, refl, true, false, some, List, [], ◌∷◌, ◌++◌, ap, ◌∙◌, sym, All, String,
  if◌then◌else◌, ◌==◌, inl, inr, arith, nat_eq_iff, All-split, Option-cases, Bool-cases, String_eq,
  ℕ_eq,
}
use mathlib.Core.List.{append_assoc, append-nil}
use agentic_rpgmaker.Base.Dict.{
  get, includes, remove_all, includes-remove_all, includes-count, count, count-append,
}
use agentic_rpgmaker.Bus.{Bus, update, off, off_found, listeners, dispatch, emit}
use agentic_rpgmaker.Bus.Laws.{IsWf}
use agentic_rpgmaker.Bus.Dispatch.{
  noting, dispatch_member, dispatch_removed, emit_found, emit-none, listeners_found, includes_part,
}

-- The entries of a snapshot that still stand in a set.
abbrev kept : List ℕ → List ℕ → List ℕ
kept set [] = []
kept set (x ∷ xs) = if includes x set then x ∷ kept set xs else kept set xs

kept-All : (set xs : List ℕ) → All (λ h. includes h set ≡ true) xs → kept set xs ≡ xs
kept-All set [] a = refl
kept-All set (x ∷ xs) (here, later) = ground (arith, kept-All set xs later)

kept-remove_all :
    (set xs : List ℕ) (k : ℕ)
    → All (λ h. includes h set ≡ true) xs
    → kept (remove_all k set) xs ≡ remove_all k xs
unfolding remove_all
kept-remove_all set [] k a = refl
kept-remove_all set (x ∷ xs) k (here, later) = ground (
  arith,
  kept-remove_all set xs k later,
  includes-remove_all k x set,
  nat_eq_iff k x,
  nat_eq_iff x k,
)

-- The handler h unsubscribes k; the others do nothing.
abbrev pub unsubscriber : String → ℕ → ℕ → ℕ → Bus → Bus
unsubscriber type h k x bus = if x == h then off type k bus else bus

others_still :
    (type : String) (h k : ℕ) (bus : Bus) (xs : List ℕ)
    → includes h xs ≡ false
    → All (λ x. unsubscriber type h k x bus ≡ bus) xs
unfolding includes
others_still type h k bus [] e = tt
others_still type h k bus (x ∷ xs) e = (ground arith, others_still type h k bus xs (ground arith))

off_sets :
    (type : String) (k p : ℕ) (bus : Bus)
    → get type bus.handlers ≡ some p
    → (off type k bus).sets p ≡ remove_all k (bus.sets p)
unfolding off off_found update
off_sets type k p bus e = rw (e, off_found) (ground arith)

-- Handlers that leave the bus as it is.
dispatch_still :
    (effect : ℕ → Bus → Bus) (p : ℕ) (xs ys : List ℕ) (bus : Bus) (log : List ℕ)
    → All (λ x. effect x bus ≡ bus) xs
    → dispatch (noting effect) p (xs ++ ys) (bus, log)
      ≡ dispatch (noting effect) p ys (bus, log ++ kept (bus.sets p) xs)
dispatch_still effect p [] ys bus log a = rw (append-nil log) refl
dispatch_still effect p (x ∷ xs) ys bus log (here, later) =
    elim (Bool-cases (includes x (bus.sets p))) [
      | inl e ↦
          rw (dispatch_member (noting effect) p x (xs ++ ys) bus log e, here, e)
            (dispatch_still effect p xs ys bus (log ++ x ∷ []) later
              ∙ ap (λ l. dispatch (noting effect) p ys (bus, l))
                  (append_assoc log (x ∷ []) (kept (bus.sets p) xs)))
      | inr e ↦
          rw (dispatch_removed (noting effect) p x (xs ++ ys) bus log e, e)
            (dispatch_still effect p xs ys bus log later)
    ]

-- The last part of an emission, which the handlers leave alone.
dispatch_rest :
    (effect : ℕ → Bus → Bus) (p : ℕ) (xs set : List ℕ) (bus : Bus) (log : List ℕ)
    → bus.sets p ≡ set
    → All (λ x. effect x bus ≡ bus) xs
    → (dispatch (noting effect) p xs (bus, log)).1 ≡ log ++ kept set xs
unfolding dispatch
dispatch_rest effect p xs set bus log e a =
    ap (λ l. (dispatch (noting effect) p l (bus, log)).1) (sym (append-nil xs))
    ∙ ap (λ (r : Bus × List ℕ). r.1) (dispatch_still effect p xs [] bus log a)
    ∙ ap (λ s. log ++ kept s xs) e

module _ (type : String) (bus : Bus) (log pre post : List ℕ) (h k p : ℕ)
    (found : get type bus.handlers ≡ some p) (split : bus.sets p ≡ pre ++ h ∷ post)
    (before : includes h pre ≡ false) (after : includes h post ≡ false) where
  unsubscribe_first :
      dispatch (noting (unsubscriber type h k)) p (bus.sets p) (bus, log)
      ≡ dispatch (noting (unsubscriber type h k)) p (h ∷ post) (bus, log ++ pre)
  unsubscribe_first =
      let (all_pre, _) =
        All-split (λ x. includes x (bus.sets p) ≡ true) pre (h ∷ post)
          (includes_part (bus.sets p) [] (pre ++ h ∷ post) split) in
      ap (λ l. dispatch (noting (unsubscriber type h k)) p l (bus, log)) split
      ∙ dispatch_still (unsubscriber type h k) p pre (h ∷ post) bus log
          (others_still type h k bus pre before)
      ∙ ap (λ l. dispatch (noting (unsubscriber type h k)) p (h ∷ post) (bus, log ++ l))
          (kept-All (bus.sets p) pre all_pre)

  unsubscribe_sets : (unsubscriber type h k h bus).sets p ≡ remove_all k (bus.sets p)
  unsubscribe_sets = ground (arith, nat_eq_iff h h, off_sets type k p bus found)

  unsubscribe_last :
      (dispatch (noting (unsubscriber type h k)) p (h ∷ post) (bus, log ++ pre)).1
      ≡ (log ++ pre ++ h ∷ []) ++ remove_all k post
  unfolding includes
  unsubscribe_last =
      let (here, later) : All (λ x. includes x (bus.sets p) ≡ true) (h ∷ post) =
        includes_part (bus.sets p) pre (h ∷ post) split in
      rw (dispatch_member (noting (unsubscriber type h k)) p h post bus (log ++ pre) here) (
        dispatch_rest (unsubscriber type h k) p post (remove_all k (bus.sets p))
          (unsubscriber type h k h bus) (log ++ pre ++ h ∷ []) unsubscribe_sets
          (others_still type h k (unsubscriber type h k h bus) post after)
        ∙ ap (◌++◌ (log ++ pre ++ h ∷ [])) (kept-remove_all (bus.sets p) post k later))

  unsubscribe_dispatch :
      (dispatch (noting (unsubscriber type h k)) p (bus.sets p) (bus, log)).1
      ≡ log ++ (pre ++ h ∷ remove_all k post)
  unsubscribe_dispatch =
      ap (λ (r : Bus × List ℕ). r.1) unsubscribe_first
      ∙ unsubscribe_last
      ∙ append_assoc (log ++ pre) (h ∷ []) (remove_all k post)
      ∙ append_assoc log pre (h ∷ remove_all k post)

nil_ne : (pre : List ℕ) (h : ℕ) (post : List ℕ) → ¬ ([] ≡ pre ++ h ∷ post)
nil_ne [] h post e = cc
nil_ne (x ∷ pre) h post e = cc

once_in :
    (h : ℕ) (pre post : List ℕ)
    → count h (pre ++ h ∷ post) ≤ 1
    → (includes h pre ≡ false) × (includes h post ≡ false)
unfolding count
once_in h pre post c = ground (
  arith,
  count-append h pre (h ∷ post),
  includes-count h pre,
  includes-count h post,
  nat_eq_iff h h,
)

-- A handler h that unsubscribes k during an emission: the handlers up to h have run, and of those
-- after it exactly k is skipped. It holds for a bus that satisfies the invariant of `Bus.Laws`,
-- and says the same where h unsubscribes itself or one that has already run.
pub emit_unsubscribe :
    (type : String) (bus : Bus) (log pre post : List ℕ) (h k : ℕ)
    → IsWf bus
    → listeners type bus ≡ pre ++ h ∷ post
    → (emit (noting (unsubscriber type h k)) type (bus, log)).1
      ≡ log ++ (pre ++ h ∷ remove_all k post)
emit_unsubscribe type bus log pre post h k wf split = elim (Option-cases (get type bus.handlers)) [
  | inl e ↦
      let (_, none_listed) = emit-none (noting (unsubscriber type h k)) type bus log e in
      absurd (nil_ne pre h post (sym none_listed ∙ split))
  | inr (p, e) ↦
      let same = listeners_found type bus p e in
      let (before, after) = once_in h pre post (rw (sym same ∙ split) at (wf.unique p h)) in
      ap (λ (r : Bus × List ℕ). r.1) (emit_found (noting (unsubscriber type h k)) type bus log p e)
      ∙ ap (λ l. (dispatch (noting (unsubscriber type h k)) p l (bus, log)).1) same
      ∙ unsubscribe_dispatch type bus log pre post h k p e (sym same ∙ split) before after
]
