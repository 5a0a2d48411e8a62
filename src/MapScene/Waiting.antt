-- ===== src/MapScene/Waiting.antt =====
-- A frame of the map scene while a line of dialogue waits to be read.
use agentic_rpgmaker.Base.{
  ℕ, ◌≡◌, refl, ap, ◌∙◌, Bool, true, Option, none, some, List, [], if◌then◌else◌, arith, Bool-cases,
  inl, inr,
}
use agentic_rpgmaker.Thrown.{Outcome, ok, continue}
use agentic_rpgmaker.Behavior.{Fractions}
use agentic_rpgmaker.Entity.{Transform}
use agentic_rpgmaker.Scene.{Scene, get_entity_by_id, player_entity_id}
use agentic_rpgmaker.MapScene.{Step, Walker, advance, advance_step, handle_movement}
use agentic_rpgmaker.MapScene.Choices.{ChoicePrompt, confirmed}
use agentic_rpgmaker.MapScene.Talk.{
  DialogueLine, Talk, is_open, ground_at, Play, Stage, player_transform, moved_by, move_player,
}
use agentic_rpgmaker.MapScene.Interact.{
  tail, advance_dialogue, close_dialogue, confirm_by, handle_confirm, handle_cancel,
}
use agentic_rpgmaker.MapScene.Answers.{has_confirm, has_cancel, confirmed_lem, cancelled_lem}
use agentic_rpgmaker.MapScene.Patrols.{Keeps, update_behaviors-Keeps}
use agentic_rpgmaker.MapScene.Frame.{update_behaviors, play_on, respond, update_scene}

module _ (fractions : Fractions) (st : Stage) (dt : ℕ) where
  -- What a movement leaves of the walker while a dialogue is open.
  abbrev IsStill : Play → Play → Type 0
  IsStill p q =
      Keeps p q
      × (has_confirm q.walker ≡ has_confirm p.walker)
      × (has_cancel q.walker ≡ has_cancel p.walker)

  movement-IsStill :
      (o : Option Transform) (p : Play)
      → IsStill p (moved_by st (λ g. handle_movement g dt true) o p)
  unfolding moved_by handle_movement
  movement-IsStill none p = ((refl, refl, refl), refl, refl)
  movement-IsStill (some t) p = ((refl, refl, refl), refl, refl)

  cancel_lem :
      (p : Play)
      → ((handle_cancel p).interpreter.state ≡ p.interpreter.state)
        × ((handle_cancel p).walker.step ≡ p.walker.step)
        × ((handle_cancel p).talk.dialogue_queue
            ≡ (if has_cancel p.walker then [] else p.talk.dialogue_queue))
  unfolding handle_cancel close_dialogue
  cancel_lem p =
      let (pressed, step) = cancelled_lem p.walker in (refl, step, rw (← pressed) (ground arith))

  -- The lines after a press of confirm.
  abbrev read_by : Bool → List DialogueLine → List DialogueLine
  read_by pressed lines = if pressed then tail lines else lines

  confirm_lem :
      (p : Play)
      → is_open p.talk.dialogue_queue ≡ true
      → (q : Play) × (handle_confirm st p ≡ (q, ok tt))
        × (q.interpreter.state ≡ p.interpreter.state)
        × (q.walker.step ≡ p.walker.step)
        × (has_cancel q.walker ≡ has_cancel p.walker)
        × (q.talk.dialogue_queue ≡ read_by (has_confirm p.walker) p.talk.dialogue_queue)
  unfolding handle_confirm confirm_by advance_dialogue
  confirm_lem p open_now =
      let w = (confirmed p.walker).0 in
      let (pressed, cancel, step) = confirmed_lem p.walker in
      elim (Bool-cases (has_confirm p.walker)) [
        | inl yes_pressed ↦ (
          record p { walker = w; talk = advance_dialogue p.talk },
          rw (pressed ∙ yes_pressed, open_now) refl,
          refl,
          step,
          cancel,
          rw yes_pressed refl,
        )
        | inr not_pressed ↦ (
          record p { walker = w },
          rw (pressed ∙ not_pressed) refl,
          refl,
          step,
          cancel,
          rw not_pressed refl,
        )
      ]

  after_confirm : Play × Outcome (Unit {0}) → Play × Outcome (Unit {0})
  after_confirm = continue (λ _ q. (handle_cancel q, ok tt))

  after_response : List ℕ → Play × Outcome (Unit {0}) → Play × Outcome (Unit {0})
  after_response es = continue (λ _ q. (update_behaviors fractions st dt es q, ok tt))

  play_on_lem :
      (p : Play)
      → is_open p.talk.dialogue_queue ≡ true
      → (q : Play) × (play_on fractions st dt p ≡ (q, ok tt))
        × (q.interpreter.state ≡ p.interpreter.state)
        × (q.walker.step ≡ p.walker.step)
        × (q.talk.dialogue_queue ≡ (
            if has_cancel p.walker
            then []
            else read_by (has_confirm p.walker) p.talk.dialogue_queue))
  unfolding play_on move_player after_confirm
  play_on_lem p open_now =
      let p1 =
        moved_by st (λ g. handle_movement g dt true) (player_transform p.interpreter.scene) p in
      let ((s1, t1, k1), c1, x1) = movement-IsStill (player_transform p.interpreter.scene) p in
      let (p2, e2, s2, t2, x2, k2) =
        confirm_lem p1 (ap (λ (t : Talk). is_open t.dialogue_queue) k1 ∙ open_now) in
      let (s3, t3, k3) = cancel_lem p2 in
      (
        handle_cancel p2,
        ap
              (λ (b : Bool). after_confirm (
                handle_confirm st (
                  moved_by st (λ g. handle_movement g dt b) (player_transform p.interpreter.scene)
                    p)))
              open_now
            ∙ ap after_confirm e2,
        s3 ∙ s2 ∙ s1,
        t3 ∙ t2 ∙ t1,
        rw (k3, k2, x2, x1, c1, k1) refl,
      )

  ground_at-step_duration :
      (o : Option ℕ) (s : Scene) → (ground_at st o s).step_duration ≡ st.step_duration
  unfolding ground_at
  ground_at-step_duration none s = refl
  ground_at-step_duration (some e) s = refl

  advance_lem :
      (duration : ℕ) (o : Option Step) (t : Transform) (w : Walker)
      → let v = advance duration dt o (record w { player_transform = t }) in
        (v.step ≡ (advance duration dt o w).step)
        × (has_confirm v ≡ has_confirm w)
        × (has_cancel v ≡ has_cancel w)
  advance_lem duration none t w = (refl, refl, refl)
  advance_lem duration (some s) t w = (ground arith, ground arith, ground arith)

  advance-IsStill :
      (t : Transform) (p : Play)
      → let q = moved_by st (λ g. advance_step g.step_duration dt) (some t) p in
        (q.interpreter.state ≡ p.interpreter.state)
        × (q.walker.step ≡ (advance_step st.step_duration dt p.walker).step)
        × (q.talk ≡ p.talk)
        × (has_confirm q.walker ≡ has_confirm p.walker)
        × (has_cancel q.walker ≡ has_cancel p.walker)
  unfolding moved_by advance_step
  advance-IsStill t p =
      let s = p.interpreter.scene in
      let (step, confirm, cancel) = advance_lem st.step_duration p.walker.step t p.walker in
      rw (ground_at-step_duration (get_entity_by_id player_entity_id s) s)
        (refl, step, refl, confirm, cancel)

-- While a line of dialogue waits and no choice is open, a frame starts no step and does not change
-- the state: a step under way goes on, a press of cancel takes all the lines that wait, else a press
-- of confirm takes the first one, and no line is added. The frame ends without an error.
pub update_scene-waits :
    (fractions : Fractions) (st : Stage) (dt : ℕ) (behavior_entities : List ℕ) (t : Transform)
    (p : Play)
    → player_transform p.interpreter.scene ≡ some t
    → p.talk.pending_choice ≡ none
    → is_open p.talk.dialogue_queue ≡ true
    → let (q, outcome) = update_scene fractions st dt behavior_entities p in
      (outcome ≡ ok tt)
      × (q.interpreter.state ≡ p.interpreter.state)
      × (q.walker.step ≡ (advance_step st.step_duration dt p.walker).step)
      × (q.talk.dialogue_queue ≡ (
          if has_cancel p.walker
          then []
          else if has_confirm p.walker
          then tail p.talk.dialogue_queue
          else p.talk.dialogue_queue))
unfolding update_scene move_player respond after_response
update_scene-waits fractions st dt es t p player no_choice open_now =
    let p1 = moved_by st (λ g. advance_step g.step_duration dt) (some t) p in
    let (s1, t1, k1, c1, x1) = advance-IsStill fractions st dt t p in
    let (p2, e2, s2, t2, k2) =
      play_on_lem fractions st dt p1 (ap (λ (t : Talk). is_open t.dialogue_queue) k1 ∙ open_now) in
    let (s3, t3, k3) = update_behaviors-Keeps fractions st dt es p2 in
    let e : update_scene fractions st dt es p ≡ (update_behaviors fractions st dt es p2, ok tt) =
      ap
        (λ (o : Option Transform).
          let q = moved_by st (λ g. advance_step g.step_duration dt) o p in
          after_response fractions st dt es (respond fractions st dt q.talk.pending_choice q))
        player
      ∙ ap
          (λ (c : Option ChoicePrompt).
            after_response fractions st dt es (respond fractions st dt c p1))
          no_choice
      ∙ ap (after_response fractions st dt es) e2 in
    rw e (refl, s3 ∙ s2 ∙ s1, t3 ∙ t2 ∙ t1, rw (k3, k2, x1, c1, k1) refl)
