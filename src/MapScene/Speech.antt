-- ===== src/MapScene/Speech.antt =====
-- What an event says, from the lines of its page to the dialogue box.
use mathlib.Core.List.{append_assoc, append-nil}
use agentic_rpgmaker.Base.{
  ◌≡◌, refl, ap, ◌∙◌, sym, true, Option, none, some, List, [], ◌∷◌, ◌++◌, String, ℕ_eq, String_eq,
  Option-cases, inl, inr,
}
use agentic_rpgmaker.Base.Dict.{get, insert}
use agentic_rpgmaker.Thrown.{Outcome, ok}
use agentic_rpgmaker.Schema.{EventCommand, EventPage, MapEvent, text}
use agentic_rpgmaker.State.{GameEvent, dialogue}
use agentic_rpgmaker.Command.{
  Context, Command, show_text, publish_on, publish, execute, execute_all, said,
}
use agentic_rpgmaker.Command.Registry.{Registry, build_show_text, build}
use agentic_rpgmaker.Interpreter.{Interpreter, select_page, build_all, run_page, run_event}
use agentic_rpgmaker.MapScene.Talk.{
  DialogueLine, Talk, hear, hear_all, emitted_on, emitted, Play, settle,
}
use agentic_rpgmaker.MapScene.Interact.{interact_with, interacted}

-- The lines `showText` of a page, the commands that they are built to, what these emit, and what the
-- scene shows of it.
abbrev pub text_lines : List String → List EventCommand
text_lines [] = []
text_lines (t ∷ texts) = (record { cmd = "showText"; args = text t ∷ [] }) ∷ text_lines texts

abbrev pub shown_texts : List String → List Command
shown_texts [] = []
shown_texts (t ∷ texts) = show_text t ∷ shown_texts texts

abbrev pub dialogues : String → List String → List GameEvent
dialogues actor [] = []
dialogues actor (t ∷ texts) = dialogue t (some actor) ∷ dialogues actor texts

abbrev pub lines_said : String → List String → List DialogueLine
lines_said actor [] = []
lines_said actor (t ∷ texts) =
    (record { text = t; speaker_id = some actor }) ∷ lines_said actor texts

build_all-text_lines :
    (r : Registry) (texts : List String)
    → get "showText" r ≡ some build_show_text
    → build_all r (text_lines texts) ≡ ok (shown_texts texts)
unfolding build_all build build_show_text
build_all-text_lines r [] known = refl
build_all-text_lines r (t ∷ texts) known = rw (known, build_all-text_lines r texts known) refl

publish_on-emitted :
    (event : GameEvent) (c : Context) (o : Option (List GameEvent))
    → c.state.bus ≡ o
    → emitted_on (publish_on event c o).bus (publish_on event c o).state.bus
      ≡ emitted_on c.bus o ++ event ∷ []
publish_on-emitted event c none e = rw e refl
publish_on-emitted event c (some log) e = refl

-- The commands end, and emit the lines.
abbrev Says : String → List String → Context → Type 0
Says actor texts c =
    (d : Context) × (execute_all actor (shown_texts texts) c ≡ (d, ok tt))
    × (emitted_on d.bus d.state.bus ≡ emitted_on c.bus c.state.bus ++ dialogues actor texts)

execute_all-Says : (actor : String) (texts : List String) (c : Context) → Says actor texts c
unfolding execute_all execute publish
execute_all-Says actor [] c = (c, refl, sym (append-nil (emitted_on c.bus c.state.bus)))
execute_all-Says actor (t ∷ texts) c =
    let line = dialogue t (some actor) in
    let c1 =
      publish_on line (record c { effects = c.effects ++ said t (some actor) ∷ [] }) c.state.bus in
    let (d, ends, says) = execute_all-Says actor texts c1 in
    (
      d,
      ends,
      says
          ∙ ap (λ (l : List GameEvent). l ++ dialogues actor texts)
              (publish_on-emitted line
                (record c { effects = c.effects ++ said t (some actor) ∷ [] }) c.state.bus refl)
          ∙ append_assoc (emitted_on c.bus c.state.bus) (line ∷ []) (dialogues actor texts),
    )

hear_all-dialogues :
    (actor : String) (texts : List String) (t : Talk)
    → ((hear_all (dialogues actor texts) t).dialogue_queue
        ≡ t.dialogue_queue ++ lines_said actor texts)
      × ((hear_all (dialogues actor texts) t).pending_choice ≡ t.pending_choice)
unfolding hear_all hear
hear_all-dialogues actor [] t = (sym (append-nil t.dialogue_queue), refl)
hear_all-dialogues actor (line ∷ texts) t =
    let said_line : DialogueLine = record { text = line; speaker_id = some actor } in
    let (queue, choice) = hear_all-dialogues actor texts (hear (dialogue line (some actor)) t) in
    (queue ∙ append_assoc t.dialogue_queue (said_line ∷ []) (lines_said actor texts), choice)

ok_injective : {A : Type 0} {a b : A} → ◌≡◌ {A = Outcome A} (ok a) (ok b) → a ≡ b
ok_injective e = cc

module _ (event : MapEvent) (page : EventPage) (texts : List String) (p : Play)
    (active : select_page event.pages p.interpreter.state ≡ some page)
    (says : page.commands ≡ text_lines texts)
    (current : (commands : List Command)
      → get page.place p.interpreter.command_cache ≡ some commands
      → build_all p.interpreter.registry page.commands ≡ ok commands)
    (known : get "showText" p.interpreter.registry ≡ some build_show_text)
    (quiet : emitted p.interpreter ≡ []) where
  -- The page runs its texts, on an interpreter that may have them in its cache now.
  RunsTexts : Interpreter → Type 0
  RunsTexts i =
      (i.state ≡ p.interpreter.state)
      × (i.bus ≡ p.interpreter.bus)
      × (run_event event (some event.id) p.interpreter
          ≡ run_page event.id page (shown_texts texts) i)

  built : build_all p.interpreter.registry page.commands ≡ ok (shown_texts texts)
  built = rw says (build_all-text_lines p.interpreter.registry texts known)

  run_event-page : (i : Interpreter) × RunsTexts i
  unfolding run_event insert RunsTexts
  run_event-page = elim (Option-cases (get page.place p.interpreter.command_cache)) [
    | inl unbuilt ↦ (
      record p.interpreter {
        command_cache = insert page.place (shown_texts texts) p.interpreter.command_cache;
      },
      (refl, refl, rw (active, unbuilt, built) refl),
    )
    | inr (commands, cached) ↦
        let same : commands ≡ shown_texts texts =
          ok_injective (sym (current commands cached) ∙ built) in
        (p.interpreter, (refl, refl, rw (active, cached, same) refl))
  ]

  interacted_page :
      (i : Interpreter) (d : Context)
      → run_event event (some event.id) p.interpreter ≡ run_page event.id page (shown_texts texts) i
      → execute_all event.id
          (shown_texts texts)
          (record { state = i.state; bus = i.bus; scene = i.scene; effects = [] })
        ≡ (d, ok tt)
      → interact_with (some event) p ≡ (
        settle
            (record p { interpreter = record i { state = d.state; bus = d.bus; scene = d.scene } }),
        ok true,
      )
  unfolding interact_with interacted run_page
  interacted_page i d runs ends = rw (runs, ends) refl

  -- The player talks to an event whose active page only shows texts, for the first time or again.
  -- The call succeeds, the texts of the page join the lines that wait in the dialogue box, in
  -- their order and in the name of the event, and a choice that is open stays as it is. The
  -- registry has the built-in `showText`, what the cache has of the page, if anything, is what
  -- its lines build to, and all that was emitted before the call has been heard.
  pub interact_with_lem :
      ((interact_with (some event) p).1 ≡ ok true)
      × ((interact_with (some event) p).0.talk.dialogue_queue
          ≡ p.talk.dialogue_queue ++ lines_said event.id texts)
      × ((interact_with (some event) p).0.talk.pending_choice ≡ p.talk.pending_choice)
  unfolding settle RunsTexts
  interact_with_lem =
      let (i, (same_state, same_bus, runs)) = run_event-page in
      let start : Context = record {
        state = i.state;
        bus = i.bus;
        scene = i.scene;
        effects = [];
      } in
      let (d, ends, said_all) = execute_all-Says event.id texts start in
      let silent : emitted_on i.bus i.state.bus ≡ [] = rw (same_bus, same_state) quiet in
      let heard : emitted_on d.bus d.state.bus ≡ dialogues event.id texts =
        said_all ∙ ap (λ (l : List GameEvent). l ++ dialogues event.id texts) silent in
      let (queue, choice) = hear_all-dialogues event.id texts p.talk in
      rw (interacted_page i d runs ends, heard) (refl, queue, choice)
