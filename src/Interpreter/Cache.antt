-- ===== src/Interpreter/Cache.antt =====
-- The cache of built commands does not show, as long as the registry stays as it is.
use agentic_rpgmaker.Base.{
  ℕ, ◌≡◌, refl, Option, none, some, List, [], ◌∷◌, String, All, ap, arith, or_else, nat_eq_iff,
  ℕ_eq, ◌∙◌, sym,
}
use agentic_rpgmaker.Base.Dict.{get, insert, get-insert}
use agentic_rpgmaker.Thrown.{Outcome, ok, thrown}
use agentic_rpgmaker.Schema.{EventCommand, EventPage, MapEvent}
use agentic_rpgmaker.State.{GameState}
use agentic_rpgmaker.Command.{Command}
use agentic_rpgmaker.Command.Registry.{Factory}
use agentic_rpgmaker.Interpreter.{
  Interpreter, Interpretation, clear_command_cache, register_late, select_page, build_all, run_page,
  build_and_run, run_cached, run_selected, run_event,
}

-- Each entry of the cache is what the registry would build now. `content` gives the commands of
-- the page with an identity: pages do not change.
abbrev pub IsCurrent : (ℕ → List EventCommand) → Interpreter → Type 0
IsCurrent content i =
    (place : ℕ) (commands : List Command)
    → get place i.command_cache ≡ some commands
    → build_all i.registry (content place) ≡ ok commands

abbrev pub HasContent : (ℕ → List EventCommand) → EventPage → Type 0
HasContent content page = content page.place ≡ page.commands

-- Two calls end the same way, and leave the same state but for the cache.
abbrev pub AgreesWith :
    Interpreter × Outcome Interpretation → Interpreter × Outcome Interpretation → Type 0
AgreesWith r q = (clear_command_cache r.0 ≡ clear_command_cache q.0) × (r.1 ≡ q.1)

module _ (content : ℕ → List EventCommand) where
  selected_content :
      (pages : List EventPage) (s : GameState) (page : EventPage)
      → All (HasContent content) pages
      → select_page pages s ≡ some page
      → HasContent content page
  unfolding select_page
  selected_content [] s page all found = cc
  selected_content (p ∷ pages) s page (here, all) found =
      ground (arith, selected_content pages s page all)

  built-agrees :
      (actor : String) (page : EventPage) (i : Interpreter) (o : Outcome (List Command))
      → IsCurrent content i
      → build_all i.registry (content page.place) ≡ o
      → AgreesWith
          (build_and_run actor page o i)
          (build_and_run actor page o (clear_command_cache i))
        × IsCurrent content (build_and_run actor page o i).0
  unfolding run_page insert
  built-agrees actor page i (thrown x) current e = ((refl, refl), current)
  built-agrees actor page i (ok commands) current e = (
    (refl, refl),
    λ place cs found. ground (
      arith,
      get-insert page.place place commands i.command_cache,
      current place cs,
      nat_eq_iff page.place place,
    ),
  )

  run_cached-agrees :
      (actor : String) (page : EventPage) (i : Interpreter) (o : Option (List Command))
      → HasContent content page
      → IsCurrent content i
      → get page.place i.command_cache ≡ o
      → AgreesWith (run_cached actor page o i) (run_cached actor page none (clear_command_cache i))
        × IsCurrent content (run_cached actor page o i).0
  unfolding run_page insert
  run_cached-agrees actor page i none same current e =
      built-agrees actor page i (build_all i.registry page.commands) current
        (ap (build_all i.registry) same)
  run_cached-agrees actor page i (some commands) same current e =
      rw (ap (build_all i.registry) (sym same) ∙ current page.place commands e, build_and_run)
        ((refl, refl), current)

  run_selected-agrees :
      (actor : String) (i : Interpreter) (o : Option EventPage)
      → ((page : EventPage) → o ≡ some page → HasContent content page)
      → IsCurrent content i
      → AgreesWith (run_selected actor o i) (run_selected actor o (clear_command_cache i))
        × IsCurrent content (run_selected actor o i).0
  unfolding get
  run_selected-agrees actor i none same current = ((refl, refl), current)
  run_selected-agrees actor i (some page) same current =
      run_cached-agrees actor page i (get page.place i.command_cache) (same page refl) current refl

  -- While every entry of the cache is what the registry builds, `runEvent` does and returns the same
  -- as after `clearCommandCache()`, errors included, and the entries stay so: the cache does not
  -- show. The commands of a page do not change.
  pub run_event-agrees :
      (event : MapEvent) (actor_id : Option String) (i : Interpreter)
      → All (HasContent content) event.pages
      → IsCurrent content i
      → AgreesWith (run_event event actor_id i) (run_event event actor_id (clear_command_cache i))
        × IsCurrent content (run_event event actor_id i).0
  unfolding run_event
  run_event-agrees event actor_id i all current =
      run_selected-agrees (or_else actor_id event.id) i (select_page event.pages i.state)
        (λ page found. selected_content event.pages i.state page all found) current

-- A command that is registered after a page has run does not reach this page: with its commands in
-- the cache, `runEvent` gives the same result as before the registration, whatever was registered.
pub run_event-register_late :
    (event : MapEvent) (actor_id : Option String) (i : Interpreter) (page : EventPage)
    (commands : List Command) (cmd : String) (factory : Factory)
    → select_page event.pages i.state ≡ some page
    → get page.place i.command_cache ≡ some commands
    → (run_event event actor_id (register_late cmd factory i)).1 ≡ (run_event event actor_id i).1
unfolding run_event register_late run_page
run_event-register_late event actor_id i page commands cmd factory selected cached =
    rw (selected, run_selected, cached, run_cached) refl
