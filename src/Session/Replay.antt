-- ===== src/Session/Replay.antt =====
-- The calls that a scene manager makes, read back.
use agentic_rpgmaker.Base.{
  ℕ, ◌≡◌, refl, ◌∙◌, Option, none, some, List, [], ◌∷◌, ◌++◌, if◌then◌else◌, nat_eq, nat_eq_iff,
  arith, Bool-cases, inl, inr,
}
use agentic_rpgmaker.Session.Manager.{
  SceneCall, enter, exit, update, render, SceneManager, make_manager, change, update_scene,
  render_scene, clear, on_current, is_current,
}

-- What the calls lead to from the scene that is entered, if any: one that is entered while there is
-- another, or that is left, updated or drawn while it is not the one, has no place.
abbrev pub replay : Option ℕ → List SceneCall → Option (Option ℕ)
replay o [] = some o
replay none (enter s ∷ cs) = replay (some s) cs
replay none (exit s ∷ cs) = none
replay none (update s dt ∷ cs) = none
replay none (render s alpha ∷ cs) = none
replay (some r) (enter s ∷ cs) = none
replay (some r) (exit s ∷ cs) = let rest = replay none cs in if nat_eq r s then rest else none
replay (some r) (update s dt ∷ cs) =
    let rest = replay (some r) cs in if nat_eq r s then rest else none
replay (some r) (render s alpha ∷ cs) =
    let rest = replay (some r) cs in if nat_eq r s then rest else none

replay-append :
    (o p : Option ℕ) (cs ds : List SceneCall)
    → replay o cs ≡ some p
    → replay o (cs ++ ds) ≡ replay p ds
replay-append o p [] ds h = ground arith
replay-append none p (enter s ∷ cs) ds h = replay-append (some s) p cs ds h
replay-append none p (exit s ∷ cs) ds h = cc
replay-append none p (update s dt ∷ cs) ds h = cc
replay-append none p (render s alpha ∷ cs) ds h = cc
replay-append (some r) p (enter s ∷ cs) ds h = cc
replay-append (some r) p (exit s ∷ cs) ds h = ground (arith, replay-append none p cs ds)
replay-append (some r) p (update s dt ∷ cs) ds h = ground (arith, replay-append (some r) p cs ds)
replay-append (some r) p (render s alpha ∷ cs) ds h = ground (arith, replay-append (some r) p cs ds)

-- A call of the manager.
pub data ManagerCall : Type 0 where
  change_to : (scene : ℕ) → ManagerCall
  update_by render_by : ℕ → ManagerCall
  clear_it : ManagerCall

unfoldable pub step : ManagerCall → SceneManager → SceneManager
unfolding change update_scene render_scene clear
step (change_to scene) m = change scene m
step (update_by dt) m = update_scene dt m
step (render_by alpha) m = render_scene alpha m
step clear_it m = clear m

unfoldable pub run : List ManagerCall → SceneManager → SceneManager
unfolding step
run [] m = m
run (c ∷ cs) m = run cs (step c m)

abbrev pub IsReplayed : SceneManager → Type 0
IsReplayed m = replay none m.calls ≡ some m.current

logged :
    (m : SceneManager) (ds : List SceneCall) (p : Option ℕ)
    → IsReplayed m
    → replay m.current ds ≡ some p
    → replay none (m.calls ++ ds) ≡ some p
logged m ds p v h = replay-append none m.current m.calls ds v ∙ h

updated : (dt : ℕ) (o : Option ℕ) → replay o (on_current (λ s. update s dt) o) ≡ some o
updated dt none = refl
updated dt (some s) = ground (arith, nat_eq_iff s s)

rendered : (alpha : ℕ) (o : Option ℕ) → replay o (on_current (λ s. render s alpha) o) ≡ some o
rendered alpha none = refl
rendered alpha (some s) = ground (arith, nat_eq_iff s s)

exited : (o : Option ℕ) → replay o (on_current exit o) ≡ some none
exited none = refl
exited (some s) = ground (arith, nat_eq_iff s s)

change-IsReplayed : (next : ℕ) (m : SceneManager) → IsReplayed m → IsReplayed (change next m)
unfolding change
change-IsReplayed next m v = elim (Bool-cases (is_current next m.current)) [
  | inl same ↦ rw same v
  | inr other ↦ rw other (
      logged m (on_current exit m.current ++ enter next ∷ []) (some next) v (
        replay-append m.current none (on_current exit m.current) (enter next ∷ [])
          (exited m.current)))
]

step-IsReplayed : (c : ManagerCall) (m : SceneManager) → IsReplayed m → IsReplayed (step c m)
unfolding step update_scene render_scene clear
step-IsReplayed (change_to scene) m v = change-IsReplayed scene m v
step-IsReplayed (update_by dt) m v = logged m _ m.current v (updated dt m.current)
step-IsReplayed (render_by alpha) m v = logged m _ m.current v (rendered alpha m.current)
step-IsReplayed clear_it m v = logged m _ none v (exited m.current)

run_from-IsReplayed :
    (cs : List ManagerCall) (m : SceneManager) → IsReplayed m → IsReplayed (run cs m)
unfolding run
run_from-IsReplayed [] m v = v
run_from-IsReplayed (c ∷ cs) m v = run_from-IsReplayed cs (step c m) (step-IsReplayed c m v)

-- Whatever is called on a new manager, its scenes are entered and left in turn: one is entered only
-- when none is, and only the one that is entered is updated, drawn or left. The current scene is
-- the one that was entered and not left.
pub run-IsReplayed :
    (cs : List ManagerCall)
    → replay none (run cs make_manager).calls ≡ some (run cs make_manager).current
run-IsReplayed cs = run_from-IsReplayed cs make_manager refl
