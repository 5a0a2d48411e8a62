-- ===== src/Texture/Run.antt =====
-- All that may happen to a texture manager, packages/renderer/src/texture-manager.ts: each call of
-- the loader is answered once, by an image or by an error.
use agentic_rpgmaker.Base.{
  ℕ, Option, none, some, List, [], ◌∷◌, ◌++◌, String, if◌then◌else◌, ℕ_eq, String_eq,
}
use agentic_rpgmaker.Base.Dict.{includes, remove_first}
use agentic_rpgmaker.Texture.{
  ImageSource, TextureManager, make_manager, Promised, cached, in_flight, called, load, loaded,
  load_failed, dispose, set_grid,
}

-- The manager, and the calls of its loader that have no answer yet.
pub record World : Type 0 where
  pub manager : TextureManager
  pub calls : List String

abbrev pub make_world : World
make_world = record { manager = make_manager; calls = [] }

pub data Event : Type 0 where
  load_url : (url : String) → Event
  answer : (url : String) → Option ImageSource → Event
  dispose_id : (id : ℕ) → Event
  set_grid_of : (id columns rows : ℕ) → Event

abbrev pub call_made : String → TextureManager × Promised → List String → World
call_made url (m, cached id) calls = record { manager = m; calls = calls }
call_made url (m, in_flight) calls = record { manager = m; calls = calls }
call_made url (m, called) calls = record { manager = m; calls = calls ++ url ∷ [] }

unfoldable pub answered : String → Option ImageSource → TextureManager → TextureManager
unfolding loaded load_failed
answered url (some image) m = loaded url image m
answered url none m = load_failed url m

unfoldable pub step : Event → World → World
unfolding load answered dispose set_grid
step (load_url url) w = call_made url (load url w.manager) w.calls
step (answer url result) w =
    if includes url w.calls
    then record { manager = answered url result w.manager; calls = remove_first url w.calls }
    else w
step (dispose_id id) w = record w { manager = dispose id w.manager }
step (set_grid_of id columns rows) w = record w { manager = set_grid id columns rows w.manager }

unfoldable pub run : List Event → World → World
unfolding step
run [] w = w
run (e ∷ es) w = run es (step e w)
