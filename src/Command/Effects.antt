-- ===== src/Command/Effects.antt =====
-- What the commands of a page record and publish.
use mathlib.Core.List.{append_assoc, append-nil}
use agentic_rpgmaker.Base.{
  ◌≡◌, refl, Option, none, some, List, [], ◌∷◌, ◌++◌, String, ℤ, ◌+ℤ◌, ap, ap₂, ◌∙◌, sym, flat_map,
  Option-cases, inl, inr, or_else, All,
}
use agentic_rpgmaker.Thrown.{Outcome, ok, thrown, Throws, continue, ◌>>◌}
use agentic_rpgmaker.Entity.{read_transform}
use agentic_rpgmaker.State.{
  set, add, GameEvent, walk, dialogue, switch_changed, variable_changed, sound, transfer, choice,
  GameState, emit, set_variable, add_variable, set_switch, get_variable, get_switch,
}
use agentic_rpgmaker.Scene.{get_entity_by_id, player_entity_id}
use agentic_rpgmaker.Command.{
  Context, GameEffect, walked, moved, said, played, variable, switch, transferred, asked,
  record_effect, publish, on_state, translate_entity, translate_found, translate_entity_at, Command,
  show_text, set_variable_command, set_switch_command, play_sound, walk_command, move_command,
  transfer_command, show_choices, custom, execute, execute_all,
}

-- The events on the bus of the context.
abbrev pub published_on : List GameEvent → Option (List GameEvent) → List GameEvent
published_on bus none = bus
published_on bus (some log) = log

abbrev pub published : Context → List GameEvent
published c = published_on c.bus c.state.bus

-- The event that goes with an effect, where there is one.
abbrev pub announcement : GameEffect → List GameEvent
announcement (walked id from to) = walk id from to ∷ []
announcement (said line speaker_id) = dialogue line speaker_id ∷ []
announcement (played ref) = sound ref ∷ []
announcement (transferred map_id x y direction) = transfer map_id x y direction ∷ []
announcement (asked name options) = choice name options ∷ []
announcement _ = []

-- The events other than those of the state.
abbrev pub gameplay : GameEvent → List GameEvent
gameplay (switch_changed name value previous) = []
gameplay (variable_changed name value op previous) = []
gameplay event = event ∷ []

-- From c to d effects and events were only added, and the effects announce the gameplay events.
abbrev pub Announces : Context → Context → Type 0
Announces c d =
    (effects : List GameEffect) × (events : List GameEvent) × (d.effects ≡ c.effects ++ effects)
    × (published d ≡ published c ++ events)
    × (flat_map announcement effects ≡ flat_map gameplay events)

flat_map-append :
    {A B : Type 0} (f : A → List B) (xs ys : List A)
    → flat_map f (xs ++ ys) ≡ flat_map f xs ++ flat_map f ys
flat_map-append f [] ys = refl
flat_map-append f (x ∷ xs) ys =
    ap (λ l. f x ++ l) (flat_map-append f xs ys)
    ∙ sym (append_assoc (f x) (flat_map f xs) (flat_map f ys))

Announces-refl : (c : Context) → Announces c c
Announces-refl c = ([], [], sym (append-nil c.effects), sym (append-nil (published c)), refl)

Announces-trans : (c d e : Context) → Announces c d → Announces d e → Announces c e
Announces-trans c d e (es, vs, p, q, r) (es', vs', p', q', r') = (
  es ++ es',
  vs ++ vs',
  p' ∙ ap (λ l. l ++ es') p ∙ append_assoc c.effects es es',
  q' ∙ ap (λ l. l ++ vs') q ∙ append_assoc (published c) vs vs',
  flat_map-append announcement es es'
      ∙ ap₂ (λ k l. k ++ l) r r'
      ∙ sym (flat_map-append gameplay vs vs'),
)

published-publish :
    (event : GameEvent) (c : Context)
    → (published (publish event c).0 ≡ published c ++ event ∷ [])
      × ((publish event c).0.effects ≡ c.effects)
unfolding publish
published-publish event c = elim (Option-cases c.state.bus) [
  | inl e ↦ rw (e, publish) (refl, refl)
  | inr (log, e) ↦ rw (e, publish) (refl, refl)
]

announced :
    (effect : GameEffect) (event : GameEvent)
    → announcement effect ≡ event ∷ []
    → gameplay event ≡ event ∷ []
    → (c : Context) → Announces c ((record_effect effect >> publish event) c).0
announced effect event a g c =
    let (p, q) = published-publish event (record c { effects = c.effects ++ effect ∷ [] }) in
    (effect ∷ [], event ∷ [], q, p, ap (λ l. l ++ []) a ∙ sym (ap (λ l. l ++ []) g))

unannounced :
    (effect : GameEffect)
    → announcement effect ≡ []
    → (c : Context) → Announces c (record_effect effect c).0
unannounced effect a c =
    (effect ∷ [], [], refl, sym (append-nil (published c)), ap (λ l. l ++ []) a)

published_on-emit :
    (event : GameEvent) (bus : List GameEvent) (o : Option (List GameEvent))
    → gameplay event ≡ []
    → (events : List GameEvent) × (published_on bus (emit event o) ≡ published_on bus o ++ events)
      × ([] ≡ flat_map gameplay events)
published_on-emit event bus none g = ([], sym (append-nil bus), refl)
published_on-emit event bus (some log) g = (event ∷ [], refl, sym (ap (λ l. l ++ []) g))

-- A change of the state that emits an event of the state.
stated :
    (f : GameState → GameState) (event : GameState → GameEvent)
    → ((s : GameState) → (f s).bus ≡ emit (event s) s.bus)
    → ((s : GameState) → gameplay (event s) ≡ [])
    → (c : Context) → Announces c (on_state f c).0
stated f event e g c =
    let (events, p, q) = published_on-emit (event c.state) c.bus c.state.bus (g c.state) in
    ([], events, sym (append-nil c.effects), ap (published_on c.bus) (e c.state) ∙ p, q)

translated : (id : String) (dx dy : ℤ) (c : Context) → Announces c (translate_entity id dx dy c).0
unfolding translate_entity
translated id dx dy c = elim (Option-cases (get_entity_by_id id c.scene)) [
  | inl e ↦ rw (e, translate_entity_at) (Announces-refl c)
  | inr (p, e) ↦ elim (Option-cases (read_transform p c.scene.heap)) [
    | inl e' ↦ rw (e, translate_entity_at, e', translate_found) (Announces-refl c)
    | inr (t, e') ↦
        rw (e, translate_entity_at, e', translate_found)
          ([], [], sym (append-nil c.effects), sym (append-nil (published c)), refl)
  ]
]

module _ {A B : Type 0} (f : A → Throws Context B)
    (rest : (a : A) (c : Context) → Announces c (f a c).0) where
  continued :
      (c : Context) (r : Context × Outcome A) → Announces c r.0 → Announces c (continue f r).0
  continued c (d, ok a) w = Announces-trans c d (f a d).0 w (rest a d)
  continued c (d, thrown e) w = w

abbrev pub IsBuiltIn : Command → Type 0
IsBuiltIn (custom f) = ⊥
IsBuiltIn _ = Unit

execute-Announces :
    (actor : String) (k : Command) → IsBuiltIn k → (c : Context) → Announces c (execute actor k c).0
unfolding execute set_variable add_variable set_switch
execute-Announces actor (show_text line) w c =
    announced (said line (some actor)) (dialogue line (some actor)) refl refl c
execute-Announces actor (set_variable_command name set value) w c =
    continued (λ _ d. record_effect (variable name set value (get_variable name d.state)) d)
      (λ _ d. unannounced (variable name set value (get_variable name d.state)) refl d) c
      (on_state (set_variable name value) c)
      (stated (set_variable name value) (λ s. variable_changed name value set (get_variable name s))
        (λ s. refl) (λ s. refl) c)
execute-Announces actor (set_variable_command name add value) w c =
    continued (λ _ d. record_effect (variable name add value (get_variable name d.state)) d)
      (λ _ d. unannounced (variable name add value (get_variable name d.state)) refl d) c
      (on_state (add_variable name value) c)
      (stated (add_variable name value)
        (λ s. variable_changed name (get_variable name s +ℤ value) add (get_variable name s))
        (λ s. refl) (λ s. refl) c)
execute-Announces actor (set_switch_command name value) w c =
    continued (λ _. record_effect (switch name value)) (λ _. unannounced (switch name value) refl) c
      (on_state (set_switch name value) c)
      (stated (set_switch name value) (λ s. switch_changed name value (get_switch name s))
        (λ s. refl) (λ s. refl) c)
execute-Announces actor (play_sound ref) w c = announced (played ref) (sound ref) refl refl c
execute-Announces actor (walk_command dx dy) w c =
    continued
      (λ (from, to).
        record_effect (walked player_entity_id from to) >> publish (walk player_entity_id from to))
      (λ (from, to).
        announced (walked player_entity_id from to) (walk player_entity_id from to) refl refl)
      c (translate_entity player_entity_id dx dy c) (translated player_entity_id dx dy c)
execute-Announces actor (move_command dx dy target_id) w c =
    continued (λ (from, to). record_effect (moved (or_else target_id actor) from to))
      (λ (from, to). unannounced (moved (or_else target_id actor) from to) refl) c
      (translate_entity (or_else target_id actor) dx dy c)
      (translated (or_else target_id actor) dx dy c)
execute-Announces actor (transfer_command map_id x y direction) w c =
    announced (transferred map_id x y direction) (transfer map_id x y direction) refl refl c
execute-Announces actor (show_choices name options) w c =
    announced (asked name options) (choice name options) refl refl c
execute-Announces actor (custom f) w c = absurd w

-- A page of built-in commands only appends to the effects and to the bus, whether it ends or
-- throws on the way, and the effects and the events tell the same: the effects that announce an
-- event, in their order, give exactly the walks, dialogues, sounds, transfers and choices that
-- were published, in theirs.
pub execute_all-Announces :
    (actor : String) (commands : List Command)
    → All IsBuiltIn commands
    → (c : Context) → Announces c (execute_all actor commands c).0
unfolding execute_all
execute_all-Announces actor [] w c = Announces-refl c
execute_all-Announces actor (k ∷ commands) (w, ws) c =
    continued (λ _. execute_all actor commands) (λ _. execute_all-Announces actor commands ws) c
      (execute actor k c) (execute-Announces actor k w c)
