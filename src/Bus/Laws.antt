-- ===== src/Bus/Laws.antt =====
-- The bus seen as a function from event names to listeners, which forgets the places of the sets.
use agentic_rpgmaker.Base.{
  ℕ, ◌≤◌, ◌<◌, ◌≡◌, refl, Option, none, some, List, [], ◌∷◌, String, if◌then◌else◌, ◌==◌, inl, inr,
  arith, eq_iff, fun_ext, ap, ◌∙◌, nat_eq_iff, Option-cases, String_eq, ℕ_eq,
}
use agentic_rpgmaker.Base.Dict.{
  get, includes, remove_all, count, get-insert, get-delete, count-append, includes-count,
}
use agentic_rpgmaker.Bus.{Bus, update, empty, add, on_found, on, off_found, off, clear, listeners}

-- Every set of the map is an allocated one, no two event names share a set, and no handler stands
-- twice in a set.
pub record IsWf (bus : Bus) : Type 0 where
  pub allocated : (type : String) (p : ℕ) → get type bus.handlers ≡ some p → p < bus.next
  pub separate :
      (type other : String) (p : ℕ)
      → get type bus.handlers ≡ some p
      → get other bus.handlers ≡ some p
      → type ≡ other
  pub unique : (p handler : ℕ) → count handler (bus.sets p) ≤ 1

count-remove_all-le : (k j : ℕ) (m : List ℕ) → count j (remove_all k m) ≤ count j m
unfolding count remove_all
count-remove_all-le k j [] = omega arith
count-remove_all-le k j (i ∷ m) = ground (arith, count-remove_all-le k j m)

count-add-le : (k j : ℕ) (m : List ℕ) → count j m ≤ 1 → count j (add k m) ≤ 1
unfolding add count
count-add-le k j m h = ground (arith, count-append j m (k ∷ []), includes-count k m, nat_eq_iff k j)

count-add_nil : (k j : ℕ) → count j (add k []) ≤ 1
unfolding add count includes
count-add_nil k j = ground arith

empty-IsWf : IsWf empty
unfolding empty get count
empty-IsWf = record {
  allocated = λ type p h. cc;
  separate = λ type other p h k. cc;
  unique = λ p handler. omega arith;
}

module _ (type : String) (handler : ℕ) (bus : Bus) (wf : IsWf bus) where
  on_found-IsWf : (o : Option ℕ) → get type bus.handlers ≡ o → IsWf (on_found type handler o bus)
  unfolding on_found update
  on_found-IsWf none e = record {
    allocated = λ other p h.
        ground (arith, get-insert type other bus.next bus.handlers, wf.allocated other p);
    separate = λ a b p h k. ground (
      arith,
      get-insert type a bus.next bus.handlers,
      get-insert type b bus.next bus.handlers,
      wf.allocated a p,
      wf.allocated b p,
      wf.separate a b p,
      eq_iff type a,
      eq_iff type b,
    );
    unique = λ p k. ground (arith, wf.unique p k, count-add_nil handler k);
  }
  on_found-IsWf (some q) e = record {
    allocated = wf.allocated;
    separate = wf.separate;
    unique =
        λ p k. ground (arith, wf.unique p k, count-add-le handler k (bus.sets q), wf.unique q k);
  }

  on-IsWf : IsWf (on type handler bus)
  unfolding on
  on-IsWf = on_found-IsWf (get type bus.handlers) refl

  listeners-on_found :
      (other : String) (o : Option ℕ)
      → get type bus.handlers ≡ o
      → listeners other (on_found type handler o bus)
        ≡ (if type == other then add handler (listeners type bus) else listeners other bus)
  unfolding on_found update listeners
  listeners-on_found other none e = elim (Option-cases (get other bus.handlers)) [
    | inl f ↦ ground (arith, get-insert type other bus.next bus.handlers, eq_iff type other)
    | inr (q, f) ↦ ground (
      arith,
      get-insert type other bus.next bus.handlers,
      eq_iff type other,
      wf.allocated other q f,
    )
  ]
  listeners-on_found other (some p) e = elim (Option-cases (get other bus.handlers)) [
    | inl f ↦ ground (arith, eq_iff type other)
    | inr (q, f) ↦ ground (arith, eq_iff type other, wf.separate type other p e)
  ]

  on_listeners :
      (other : String)
      → listeners other (on type handler bus)
        ≡ (if type == other then add handler (listeners type bus) else listeners other bus)
  unfolding on
  on_listeners other = listeners-on_found other (get type bus.handlers) refl

  off_found-IsWf : (o : Option ℕ) → get type bus.handlers ≡ o → IsWf (off_found type handler o bus)
  unfolding off_found update
  off_found-IsWf none e = wf
  off_found-IsWf (some q) e = record {
    allocated =
        λ other p h. ground (arith, get-delete type other bus.handlers, wf.allocated other p);
    separate = λ a b p h k.
        ground (
          arith,
          get-delete type a bus.handlers,
          get-delete type b bus.handlers,
          wf.separate a b p,
        );
    unique = λ p k.
        ground (arith, wf.unique p k, count-remove_all-le handler k (bus.sets q), wf.unique q k);
  }

  off-IsWf : IsWf (off type handler bus)
  unfolding off
  off-IsWf = off_found-IsWf (get type bus.handlers) refl

  listeners-off_found :
      (other : String) (o : Option ℕ)
      → get type bus.handlers ≡ o
      → listeners other (off_found type handler o bus)
        ≡ (if type == other then remove_all handler (listeners type bus) else listeners other bus)
  unfolding off_found update listeners
  listeners-off_found other none e = ground (arith, eq_iff type other)
  listeners-off_found other (some p) e = elim (Option-cases (get other bus.handlers)) [
    | inl f ↦ ground (arith, get-delete type other bus.handlers, eq_iff type other)
    | inr (q, f) ↦
        ground
          (arith, get-delete type other bus.handlers, eq_iff type other, wf.separate type other p e)
  ]

  listeners-off :
      (other : String)
      → listeners other (off type handler bus)
        ≡ (if type == other then remove_all handler (listeners type bus) else listeners other bus)
  unfolding off
  listeners-off other = listeners-off_found other (get type bus.handlers) refl

clear-IsWf : (bus : Bus) → IsWf bus → IsWf (clear bus)
unfolding clear get
clear-IsWf bus wf = record {
  allocated = λ other p h. cc;
  separate = λ a b p h k. cc;
  unique = wf.unique;
}

listeners-clear : (bus : Bus) (type : String) → listeners type (clear bus) ≡ []
unfolding clear listeners
listeners-clear bus type = refl

pub data BusCall : Type 0 where
  subscribe unsubscribe : String → ℕ → BusCall
  clear_all : BusCall

unfoldable pub step : BusCall → Bus → Bus
step (subscribe type handler) bus = on type handler bus
step (unsubscribe type handler) bus = off type handler bus
step clear_all bus = clear bus

unfoldable pub run : List BusCall → Bus → Bus
unfolding step
run [] bus = bus
run (c ∷ cs) bus = run cs (step c bus)

-- What the calls promise: each event name has a list of handlers of its own.
abbrev pub promise : BusCall → (String → List ℕ) → String → List ℕ
promise (subscribe type handler) lists other =
    if type == other then add handler (lists type) else lists other
promise (unsubscribe type handler) lists other =
    if type == other then remove_all handler (lists type) else lists other
promise clear_all lists other = []

abbrev pub promises : List BusCall → (String → List ℕ) → String → List ℕ
promises [] lists = lists
promises (c ∷ cs) lists = promises cs (promise c lists)

step-IsWf : (c : BusCall) (bus : Bus) → IsWf bus → IsWf (step c bus)
unfolding step
step-IsWf (subscribe type handler) bus wf = on-IsWf type handler bus wf
step-IsWf (unsubscribe type handler) bus wf = off-IsWf type handler bus wf
step-IsWf clear_all bus wf = clear-IsWf bus wf

step-listeners :
    (c : BusCall) (bus : Bus)
    → IsWf bus
    → (λ type. listeners type (step c bus)) ≡ promise c (λ type. listeners type bus)
unfolding step
step-listeners (subscribe type handler) bus wf = fun_ext (on_listeners type handler bus wf)
step-listeners (unsubscribe type handler) bus wf = fun_ext (listeners-off type handler bus wf)
step-listeners clear_all bus wf = fun_ext (listeners-clear bus)

run-listeners :
    (cs : List BusCall) (bus : Bus)
    → IsWf bus
    → (λ type. listeners type (run cs bus)) ≡ promises cs (λ type. listeners type bus)
unfolding run
run-listeners [] bus wf = refl
run-listeners (c ∷ cs) bus wf =
    run-listeners cs (step c bus) (step-IsWf c bus wf) ∙ ap (promises cs) (step-listeners c bus wf)

run-IsWf : (cs : List BusCall) (bus : Bus) → IsWf bus → IsWf (run cs bus)
unfolding run
run-IsWf [] bus wf = wf
run-IsWf (c ∷ cs) bus wf = run-IsWf cs (step c bus) (step-IsWf c bus wf)

-- Whatever calls of `on`, `off` and `clear` a new bus has seen, it keeps the representation
-- invariant, and the listeners of every event name are those of the specification, in which each
-- name has its own list: `on` appends a handler that is not listed, `off` removes it from the list
-- of that name alone, and `clear` empties all of them.
pub run_refines :
    (cs : List BusCall)
    → IsWf (run cs empty)
      × ((type : String) → listeners type (run cs empty) ≡ promises cs (λ _. []) type)
unfolding listeners empty
run_refines cs = (run-IsWf cs empty empty-IsWf, λ type i. run-listeners cs empty empty-IsWf i type)
