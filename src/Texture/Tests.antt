-- ===== src/Texture/Tests.antt =====
-- Runs of a texture manager, and the theorems about it at concrete inputs.
use agentic_rpgmaker.Base.{
  ◌*◌, ℕ, ◌<◌, ◌≡◌, refl, none, some, List, [], ◌∷◌, arith, ℕ_eq, String_eq,
}
use agentic_rpgmaker.Base.Dict.{get, insert, delete, includes, remove_first, remove_all}
use agentic_rpgmaker.Texture.{
  ImageSource, AtlasPlacement, TextureManager, place_from, rebuild_atlas, FrameRect, load, loaded,
  load_failed, dispose, set_grid, get_frame, frame_count,
}
use agentic_rpgmaker.Texture.Tilesets
use agentic_rpgmaker.Texture.Tilesets.{Tileset, TilesetBinding, TilesetRegistry, binding_for}
use agentic_rpgmaker.Texture.Binding.{loaded-frames}
use agentic_rpgmaker.Texture.Run.{Event, load_url, answer, set_grid_of, make_world, step, run}
use agentic_rpgmaker.Texture.Cache.{IsCache, run-IsCache}
use agentic_rpgmaker.Texture.Frames.{IsInside, AreApart, get_frame-AreApart}

abbrev image : ℕ → ℕ → ImageSource
image width height = record { width = width; height = height }

-- Two images, the second one asked for twice; one is cut into 2 × 3 frames, and a third one fails.
abbrev events : List Event
events =
    load_url "a"
    ∷ load_url "b"
    ∷ load_url "b"
    ∷ answer "b" (some (image 64000 48000))
    ∷ load_url "c"
    ∷ answer "a" (some (image 31500 16000))
    ∷ answer "c" none
    ∷ set_grid_of 1 2000 3000
    ∷ []

abbrev manager : TextureManager
unfolding run step
manager = (run events make_world).manager

abbrev first_place : AtlasPlacement
first_place = record { x = 0; width = 64; height = 48; columns = 2; rows = 3 }

abbrev second_place : AtlasPlacement
second_place = record { x = 64; width = 32; height = 16; columns = 1; rows = 1 }

abbrev frame_at : ℕ → ℕ → FrameRect
frame_at x y = record { columns = 2; rows = 3; x = x; y = y; width = 64; height = 48 }

-- `load` before, while and after the image is loaded
load_calls : (run events make_world).calls ≡ []
unfolding run step get insert delete includes remove_first remove_all place_from rebuild_atlas load
    loaded load_failed dispose set_grid
load_calls = refl

run_places : manager.cached_placements ≡ (1, first_place) ∷ (2, second_place) ∷ []
unfolding manager run step get insert delete includes remove_first remove_all place_from
    rebuild_atlas load loaded load_failed dispose set_grid
run_places = refl

run-IsCache_example : IsCache (run events make_world)
run-IsCache_example = run-IsCache events

get_frame-AreApart_example :
    IsInside first_place (frame_at 64 0)
    × AreApart (frame_at 64 0) (frame_at 0 96)
    × (1 < frame_count 1 manager)
unfolding manager run step get insert delete includes remove_first remove_all place_from
    rebuild_atlas load loaded load_failed dispose set_grid get_frame frame_count
get_frame-AreApart_example =
    get_frame-AreApart 1 1 4 manager first_place (frame_at 64 0) (frame_at 0 96) (ground arith) refl
      refl refl

abbrev town : Tileset
town = record { id = "town"; image = "a"; columns = 4; rows = 2; tile_size = 16 }

abbrev town_binding : TilesetBinding
town_binding = record { texture_id = none; columns = 4; rows = 2; tile_size = 16 }

-- The tileset is registered, and its image is texture 2.
abbrev registry : TilesetRegistry
unfolding manager
registry = record { bindings = ("town", town_binding) ∷ []; manager = manager }

loaded-frames_example :
    (binding_for "town" (Tilesets.loaded town 2 registry)
      ≡ some (record town_binding { texture_id = some 2 }))
    × (frame_count 2 (Tilesets.loaded town 2 registry).manager ≡ 4 * 2)
unfolding registry binding_for manager run step get insert delete includes remove_first remove_all
    place_from rebuild_atlas load loaded load_failed dispose set_grid
loaded-frames_example =
    loaded-frames town 2 (record { url = "a"; image = image 31500 16000; columns = 1; rows = 1 })
      town_binding registry refl refl (omega arith) (omega arith)
