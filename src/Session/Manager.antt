-- ===== src/Session/Manager.antt =====
-- The scene manager, packages/runtime/src/scene.ts. A scene is the place of its object, and the
-- calls of the scenes, which call nothing back, are listed.
use agentic_rpgmaker.Base.{
  ℕ, Bool, false, Option, none, some, List, [], ◌∷◌, ◌++◌, if◌then◌else◌, nat_eq, ℕ_eq,
}

pub data SceneCall : Type 0 where
  enter exit : (scene : ℕ) → SceneCall
  update : (scene dt : ℕ) → SceneCall
  render : (scene alpha : ℕ) → SceneCall

pub record SceneManager : Type 0 where
  pub current : Option ℕ
  pub calls : List SceneCall

abbrev pub make_manager : SceneManager
make_manager = record { current = none; calls = [] }

abbrev pub on_current : (ℕ → SceneCall) → Option ℕ → List SceneCall
on_current call none = []
on_current call (some s) = call s ∷ []

abbrev pub is_current : ℕ → Option ℕ → Bool
is_current next none = false
is_current next (some s) = nat_eq s next

-- `change`
unfoldable pub change : ℕ → SceneManager → SceneManager
change next m = if is_current next m.current then m else record {
  current = some next;
  calls = m.calls ++ (on_current exit m.current ++ enter next ∷ []);
}

-- `update`
unfoldable pub update_scene : ℕ → SceneManager → SceneManager
update_scene dt m = record m { calls = m.calls ++ on_current (λ s. update s dt) m.current }

-- `render`
unfoldable pub render_scene : ℕ → SceneManager → SceneManager
render_scene alpha m = record m { calls = m.calls ++ on_current (λ s. render s alpha) m.current }

-- `clear`
unfoldable pub clear : SceneManager → SceneManager
clear m = record { current = none; calls = m.calls ++ on_current exit m.current }
