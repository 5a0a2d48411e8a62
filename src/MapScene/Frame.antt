-- ===== src/MapScene/Frame.antt =====
-- A frame of a map scene: `update` and `updateBehaviors` of packages/runtime/src/map-scene.ts, without
-- the network and the display, and `exit`. The seconds that a behavior has run are not kept, since
-- the behaviors of the engine do not read them.
use agentic_rpgmaker.Base.{
  ℕ, Option, none, some, List, [], ◌∷◌, ◌++◌, String, if◌then◌else◌, is_some, pos, or_else,
}
use agentic_rpgmaker.Thrown.{ok, Throws, continue}
use agentic_rpgmaker.Behavior.{
  down, Vec2, Action, idle, move, face, say, Decision, RuleBased, Fractions, update,
}
use agentic_rpgmaker.State.{dialogue, get_switch}
use agentic_rpgmaker.Entity.{
  Heap, Payload, behavior, behavior_type, Transform, get_component, put_component, translate,
  set_direction, read_transform, write_transform,
}
use agentic_rpgmaker.MapScene.{advance_step, handle_movement}
use agentic_rpgmaker.MapScene.Choices.{ChoicePrompt, handle_choice_input}
use agentic_rpgmaker.MapScene.Talk.{hear, is_open, Play, Stage, settle, move_player}
use agentic_rpgmaker.MapScene.Interact.{handle_confirm, handle_cancel}

abbrev pub on_scene_heap : (Heap → Heap) → Play → Play
on_scene_heap f p = record p {
  interpreter = record p.interpreter {
    scene = record p.interpreter.scene { heap = f p.interpreter.scene.heap };
  };
}

-- `this.bus.emit("dialogue", …)`
unfoldable pub say_line : String → String → Play → Play
unfolding hear
say_line text speaker p = record p {
  walker = record p.walker { bus = p.walker.bus ++ dialogue text (some speaker) ∷ [] };
  talk = hear (dialogue text (some speaker)) p.talk;
}

unfoldable pub say_if : Option String → String → Play → Play
unfolding say_line
say_if none speaker p = p
say_if (some text) speaker p = say_line text speaker p

unfoldable pub act : Action → ℕ → Decision → Play → Play
unfolding write_transform say_if
act idle e d p = p
act move e d p =
    on_scene_heap (write_transform e (translate (or_else d.dx (pos 0)) (or_else d.dy (pos 0)))) p
act face e d p = on_scene_heap (write_transform e (set_direction (or_else d.direction down))) p
act say e d p = say_if d.text (p.interpreter.scene.heap.objects e).id p

-- `applyBehaviorDecision`
unfoldable pub apply_behavior_decision : ℕ → Decision → Play → Play
unfolding act read_transform
apply_behavior_decision e d p =
    if is_some (read_transform e p.interpreter.scene.heap) then act d.action e d p else p

abbrev pub behavior_of : Payload → Option RuleBased
behavior_of (behavior b) = b
behavior_of _ = none

abbrev pub behavior_at : Option ℕ → Heap → Option RuleBased
behavior_at none h = none
behavior_at (some c) h = behavior_of (h.components c).payload

abbrev pub position_at : Option Transform → Vec2
position_at none = record { x = pos 0; y = pos 0 }
position_at (some t) = record { x = t.x; y = t.y }

unfoldable pub kept_at : Option ℕ → RuleBased → Heap → Heap
unfolding put_component
kept_at none b h = h
kept_at (some c) b h = put_component c (record (h.components c) { payload = behavior (some b) }) h

module _ (fractions : Fractions) (st : Stage) (dt : ℕ) where
  unfoldable pub behave : ℕ → Option ℕ → Option RuleBased → Play → Play
  unfolding update get_switch read_transform kept_at apply_behavior_decision
  behave e c none p = p
  behave e c (some b) p =
      let h = p.interpreter.scene.heap in
      let (b', d) =
        update fractions (position_at (read_transform e h)) (λ s. get_switch s p.interpreter.state)
          (pos dt) b in
      apply_behavior_decision e d (on_scene_heap (kept_at c b') p)

  -- One pass of the loop of `updateBehaviors`.
  unfoldable pub update_behavior : ℕ → Play → Play
  unfolding get_component behave
  update_behavior e p =
      let c = get_component behavior_type e p.interpreter.scene.heap in
      behave e c (behavior_at c p.interpreter.scene.heap) p

  -- `updateBehaviors`
  unfoldable pub update_behaviors : List ℕ → Play → Play
  unfolding update_behavior
  update_behaviors [] p = p
  update_behaviors (e ∷ es) p = update_behaviors es (update_behavior e p)

  -- `handleChoiceInput` on the parts of the scene that it changes.
  unfoldable pub choose_option : Play → Play
  unfolding settle handle_choice_input
  choose_option p =
      let c = handle_choice_input (record {
        walker = p.walker;
        state = p.interpreter.state;
        pending_choice = p.talk.pending_choice;
      }) in
      settle (record {
        interpreter = record p.interpreter { state = c.state };
        walker = c.walker;
        talk = record p.talk { pending_choice = c.pending_choice };
      })

  -- The branch of `update` with no choice open.
  unfoldable pub play_on : Throws Play (Unit {0})
  unfolding move_player handle_movement handle_confirm handle_cancel
  play_on p =
      let p1 = move_player st (λ g. handle_movement g dt (is_open p.talk.dialogue_queue)) p in
      continue (λ _ q. (handle_cancel q, ok tt)) (handle_confirm st p1)

  unfoldable pub respond : Option ChoicePrompt → Throws Play (Unit {0})
  unfolding choose_option play_on
  respond none p = play_on p
  respond (some prompt) p = (choose_option p, ok tt)

  -- `update`, for the entities that have a behavior
  unfoldable pub update_scene : List ℕ → Throws Play (Unit {0})
  unfolding respond move_player advance_step update_behaviors
  update_scene behavior_entities p =
      let p1 = move_player st (λ g. advance_step g.step_duration dt) p in
      continue (λ _ q. (update_behaviors behavior_entities q, ok tt))
        (respond p1.talk.pending_choice p1)

-- What `exit` forgets of a scene.
unfoldable pub exit : Play → Play
exit p = record p {
  walker = record p.walker { step = none; last_step_dir = none; repeat_accum = 0 };
  talk = record { dialogue_queue = []; last_dialogue_speaker_id = none; pending_choice = none };
}
