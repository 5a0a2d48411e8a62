-- ===== src/Bus.antt =====
-- The typed event bus, packages/core/src/events/event-bus.ts.
-- A set of handlers is an object: `emit` holds the one that it found while its handlers change
-- the bus. So the sets stand in a store, and the map of the bus takes an event name to a place
-- in it. A handler is known by its identity, a number; what it does is an argument of `emit`.
pub mod Dispatch
pub mod Laws
pub mod Unsubscribe
mod Tests
use agentic_rpgmaker.Base.{
  ℕ, suc, Bool, true, false, Option, none, some, List, [], ◌∷◌, ◌++◌, String, if◌then◌else◌, ◌==◌,
  length, ℕ_eq, String_eq,
}
use agentic_rpgmaker.Base.Dict.{Dict, get, insert, delete, includes, remove_all}

-- `sets p` is the `Set` at place p, in insertion order; `handlers` is the field of that name.
pub record Bus : Type 0 where
  pub next : ℕ
  pub sets : ℕ → List ℕ
  pub handlers : Dict String ℕ

unfoldable pub update : (ℕ → List ℕ) → ℕ → List ℕ → ℕ → List ℕ
update f p v q = if p == q then v else f q

pub empty : Bus
empty = record { next = 0; sets = λ _. []; handlers = [] }

-- `set.add(handler)`
unfoldable pub add : ℕ → List ℕ → List ℕ
unfolding includes
add handler set = if includes handler set then set else set ++ handler ∷ []

unfoldable pub on_found : String → ℕ → Option ℕ → Bus → Bus
unfolding add update insert
on_found type handler none bus = record bus {
  next = suc bus.next;
  sets = update bus.sets bus.next (add handler []);
  handlers = insert type bus.next bus.handlers;
}
on_found type handler (some p) bus = record bus {
  sets = update bus.sets p (add handler (bus.sets p));
}

-- The function that `on` returns is `off type handler`.
unfoldable pub on : String → ℕ → Bus → Bus
unfolding on_found get
on type handler bus = on_found type handler (get type bus.handlers) bus

abbrev is_empty : List ℕ → Bool
is_empty [] = true
is_empty (x ∷ xs) = false

unfoldable pub off_found : String → ℕ → Option ℕ → Bus → Bus
unfolding update remove_all delete
off_found type handler none bus = bus
off_found type handler (some p) bus =
    let set = remove_all handler (bus.sets p) in
    record bus {
      sets = update bus.sets p set;
      handlers = if is_empty set then delete type bus.handlers else bus.handlers;
    }

unfoldable pub off : String → ℕ → Bus → Bus
unfolding off_found get
off type handler bus = off_found type handler (get type bus.handlers) bus

unfoldable pub clear : Bus → Bus
clear bus = record bus { handlers = [] }

-- The handlers of an event name, in subscription order.
unfoldable pub listeners : String → Bus → List ℕ
unfolding get
listeners type bus = elim (get type bus.handlers) [ none ↦ [] | some p ↦ bus.sets p ]

unfoldable pub listener_count : String → Bus → ℕ
unfolding get
listener_count type bus = elim (get type bus.handlers) [ none ↦ 0 | some p ↦ length (bus.sets p) ]

-- What a handler does to the bus and to the rest of the program. It may subscribe, unsubscribe,
-- clear and emit.
module _ {S : Type 0} (call : ℕ → Bus × S → Bus × S) where
  -- The loop of `emit` over its snapshot; p is the place of the set that `emit` found.
  unfoldable pub dispatch : ℕ → List ℕ → Bus × S → Bus × S
  unfolding includes
  dispatch p [] (bus, s) = (bus, s)
  dispatch p (handler ∷ rest) (bus, s) =
      dispatch p rest (if includes handler (bus.sets p) then call handler (bus, s) else (bus, s))

  unfoldable pub emit : String → Bus × S → Bus × S
  unfolding dispatch get
  emit type (bus, s) = elim (get type bus.handlers) [
    | none ↦ (bus, s)
    | some p ↦ dispatch p (bus.sets p) (bus, s)
  ]
