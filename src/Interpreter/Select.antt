-- ===== src/Interpreter/Select.antt =====
-- Which page of an event is active.
use agentic_rpgmaker.Base.{
  ◌≡◌, refl, true, false, Option, none, some, List, [], ◌∷◌, ◌++◌, All, Bool-cases, inl, inr, ap,
}
use agentic_rpgmaker.Schema.{EventPage}
use agentic_rpgmaker.State.{GameState}
use agentic_rpgmaker.Interpreter.{evaluate_condition, select_page}

abbrev Fails : GameState → EventPage → Type 0
Fails s page = evaluate_condition page.condition s ≡ false

-- The page is the first whose condition holds; there is none only if every condition fails.
abbrev pub IsFirst : GameState → List EventPage → Option EventPage → Type 0
IsFirst s pages none = All (Fails s) pages
IsFirst s pages (some page) =
    (before : List EventPage) × (after : List EventPage) × (pages ≡ before ++ page ∷ after)
    × All (Fails s) before
    × (evaluate_condition page.condition s ≡ true)

later :
    (s : GameState) (page : EventPage) (pages : List EventPage) (o : Option EventPage)
    → Fails s page
    → IsFirst s pages o
    → IsFirst s (page ∷ pages) o
later s page pages none fails w = (fails, w)
later s page pages (some p) fails (before, after, e, w, holds) =
    (page ∷ before, after, ap (λ l. page ∷ l) e, (fails, w), holds)

-- `selectPage` gives the first page whose condition holds, and null exactly if no condition holds.
pub select_page-IsFirst :
    (pages : List EventPage) (s : GameState) → IsFirst s pages (select_page pages s)
unfolding select_page
select_page-IsFirst [] s = tt
select_page-IsFirst (page ∷ pages) s = elim (Bool-cases (evaluate_condition page.condition s)) [
  | inl holds ↦ rw holds ([], pages, refl, tt, holds)
  | inr fails ↦
      rw fails (later s page pages (select_page pages s) fails (select_page-IsFirst pages s))
]
