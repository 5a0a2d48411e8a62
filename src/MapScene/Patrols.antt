-- ===== src/MapScene/Patrols.antt =====
-- What the behaviors leave as it is in a frame of the map scene.
use agentic_rpgmaker.Base.{
  ℕ, ◌≡◌, refl, ◌∙◌, Bool, true, false, Option, none, some, List, [], ◌∷◌, String, is_some, ℤ, pos,
  arith, Bool-cases, inl, inr,
}
use agentic_rpgmaker.Behavior.{
  Vec2, Action, idle, move, face, say, Decision, RuleBased, Fractions, approach, pause_or_go,
  update,
}
use agentic_rpgmaker.State.{get_switch}
use agentic_rpgmaker.Entity.{read_transform, get_component, behavior_type}
use agentic_rpgmaker.MapScene.Talk.{Play, Stage}
use agentic_rpgmaker.MapScene.Frame.{
  on_scene_heap, position_at, kept_at, act, apply_behavior_decision, behavior_at, behave,
  update_behavior, update_behaviors,
}

-- The state, the step and what is shown stay as they are.
abbrev pub Keeps : Play → Play → Type 0
Keeps p q =
    (q.interpreter.state ≡ p.interpreter.state)
    × (q.walker.step ≡ p.walker.step)
    × (q.talk ≡ p.talk)

Keeps-trans : (p q r : Play) → Keeps p q → Keeps q r → Keeps p r
Keeps-trans p q r (a, b, c) (d, e, f) = (d ∙ a, e ∙ b, f ∙ c)

abbrev is_say : Action → Bool
is_say say = true
is_say _ = false

update-is_say :
    (fractions : Fractions) (position : Vec2) (get_switch : String → Bool) (dt : ℤ) (b : RuleBased)
    → is_say (update fractions position get_switch dt b).1.action ≡ false
unfolding update pause_or_go approach
update-is_say fractions position get_switch dt b = ground arith

act-Keeps :
    (a : Action) (e : ℕ) (d : Decision) (p : Play) → is_say a ≡ false → Keeps p (act a e d p)
unfolding act
act-Keeps idle e d p silent = (refl, refl, refl)
act-Keeps move e d p silent = (refl, refl, refl)
act-Keeps face e d p silent = (refl, refl, refl)
act-Keeps say e d p silent = cc

apply-Keeps :
    (e : ℕ) (d : Decision) (p : Play)
    → is_say d.action ≡ false
    → Keeps p (apply_behavior_decision e d p)
unfolding apply_behavior_decision
apply-Keeps e d p silent = elim (Bool-cases (is_some (read_transform e p.interpreter.scene.heap))) [
  | inl moves ↦ rw moves (act-Keeps d.action e d p silent)
  | inr stays ↦ rw stays (refl, refl, refl)
]

module _ (fractions : Fractions) (st : Stage) (dt : ℕ) where
  behave-Keeps :
      (e : ℕ) (c : Option ℕ) (b : Option RuleBased) (p : Play)
      → Keeps p (behave fractions st dt e c b p)
  unfolding behave
  behave-Keeps e c none p = (refl, refl, refl)
  behave-Keeps e c (some b) p =
      let position = position_at (read_transform e p.interpreter.scene.heap) in
      let switch = λ (name : String). get_switch name p.interpreter.state in
      let (b', d) = update fractions position switch (pos dt) b in
      apply-Keeps e d (on_scene_heap (kept_at c b') p)
        (update-is_say fractions position switch (pos dt) b)

  pub update_behaviors-Keeps :
      (es : List ℕ) (p : Play) → Keeps p (update_behaviors fractions st dt es p)
  unfolding update_behaviors update_behavior
  update_behaviors-Keeps [] p = (refl, refl, refl)
  update_behaviors-Keeps (e ∷ es) p =
      let h = p.interpreter.scene.heap in
      let c = get_component behavior_type e h in
      let q = behave fractions st dt e c (behavior_at c h) p in
      Keeps-trans p q (update_behaviors fractions st dt es q) (behave-Keeps e c (behavior_at c h) p)
        (update_behaviors-Keeps es q)
