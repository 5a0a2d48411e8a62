-- ===== src/Texture.antt =====
-- The texture manager, packages/renderer/src/texture-manager.ts: images that are loaded once, and the
-- atlas that they share. The id `tex:n` is the number n, sizes count thousandths of a pixel, and the
-- answer of the loader is an event of the run. The source of the atlas, the builder's, is left out.
pub mod Atlas
pub mod Run
pub mod Cache
pub mod Frames
pub mod Tilesets
pub mod Binding
mod Tests
use agentic_rpgmaker.Base.{
  ℕ, zero, suc, ◌+◌, ◌-◌, ◌*◌, ◌/◌, ◌%◌, Bool, true, false, Option, none, some, List, [], ◌∷◌, ◌++◌,
  String, if◌then◌else◌, ◌==◌, ltb, leb, is_some, ℕ_eq, String_eq,
}
use agentic_rpgmaker.Base.Dict.{Dict, get, insert, delete, includes, remove_all}

pub record ImageSource : Type 0 where
  pub width : ℕ
  pub height : ℕ

pub record LoadedImage : Type 0 where
  pub url : String
  pub image : ImageSource
  pub columns : ℕ
  pub rows : ℕ

-- A place on the atlas, in pixels; its top is 0.
pub record AtlasPlacement : Type 0 where
  pub x : ℕ
  pub width : ℕ
  pub height : ℕ
  pub columns : ℕ
  pub rows : ℕ

pub record TextureManager : Type 0 where
  pub by_url : Dict String ℕ
  pub images : Dict ℕ LoadedImage
  pub cached_placements : Dict ℕ AtlasPlacement
  pub loading : List String
  pub revision : ℕ
  pub next_id : ℕ

-- The constructor.
abbrev pub make_manager : TextureManager
make_manager = record {
  by_url = [];
  images = [];
  cached_placements = [];
  loading = [];
  revision = 0;
  next_id = 1;
}

-- `Math.max(1, Math.ceil(size))`
abbrev pub pixels : ℕ → ℕ
pixels size = let n = (size + 999) / 1000 in if ltb n 1 then 1 else n

abbrev pub placement : ℕ → LoadedImage → AtlasPlacement
placement x entry = record {
  x = x;
  width = pixels entry.image.width;
  height = pixels entry.image.height;
  columns = entry.columns;
  rows = entry.rows;
}

-- The loop of `rebuildAtlas`, from left to right. The images have different ids.
unfoldable pub place_from : ℕ → Dict ℕ LoadedImage → Dict ℕ AtlasPlacement
place_from x [] = []
place_from x ((id, entry) ∷ entries) =
    (id, placement x entry) ∷ place_from (x + pixels entry.image.width) entries

-- `rebuildAtlas`
unfoldable pub rebuild_atlas : TextureManager → TextureManager
unfolding place_from
rebuild_atlas m = record m { revision = suc m.revision; cached_placements = place_from 0 m.images }

-- What `load` gives: the id of an image that is there, the promise of a call that is on its way, or
-- the promise of a new call of the loader.
pub data Promised : Type 0 where
  cached : (id : ℕ) → Promised
  in_flight called : Promised

abbrev pub load_from :
    Option ℕ → (is_loading : Bool) → String → TextureManager → TextureManager × Promised
load_from (some id) is_loading url m = (m, cached id)
load_from none true url m = (m, in_flight)
load_from none false url m = (record m { loading = m.loading ++ url ∷ [] }, called)

-- `load`
unfoldable pub load : String → TextureManager → TextureManager × Promised
unfolding get includes
load url m = load_from (get url m.by_url) (includes url m.loading) url m

-- What follows the answer of the loader.
unfoldable pub loaded : String → ImageSource → TextureManager → TextureManager
unfolding insert remove_all rebuild_atlas
loaded url image m = rebuild_atlas (record m {
  next_id = suc m.next_id;
  by_url = insert url m.next_id m.by_url;
  images = insert m.next_id (record { url = url; image = image; columns = 1; rows = 1 }) m.images;
  loading = remove_all url m.loading;
})

unfoldable pub load_failed : String → TextureManager → TextureManager
unfolding remove_all
load_failed url m = record m { loading = remove_all url m.loading }

abbrev pub disposed : ℕ → Option LoadedImage → TextureManager → TextureManager
unfolding delete rebuild_atlas
disposed id none m = m
disposed id (some entry) m =
    rebuild_atlas (record m { images = delete id m.images; by_url = delete entry.url m.by_url })

-- `dispose`
unfoldable pub dispose : ℕ → TextureManager → TextureManager
unfolding get disposed
dispose id m = disposed id (get id m.images) m

-- `Math.max(1, Math.floor(n))`
abbrev pub at_least_1 : ℕ → ℕ
at_least_1 n = let k = n / 1000 in if ltb k 1 then 1 else k

abbrev pub gridded : ℕ → (columns rows : ℕ) → Option LoadedImage → TextureManager → TextureManager
unfolding insert rebuild_atlas
gridded id columns rows none m = m
gridded id columns rows (some entry) m = rebuild_atlas (record m {
  images =
      insert id (record entry { columns = at_least_1 columns; rows = at_least_1 rows }) m.images;
})

-- `setGrid`
unfoldable pub set_grid : ℕ → (columns rows : ℕ) → TextureManager → TextureManager
unfolding get gridded
set_grid id columns rows m = gridded id columns rows (get id m.images) m

-- A frame on the atlas: x and width are over `columns`, y and height over `rows`.
pub record FrameRect : Type 0 where
  pub columns : ℕ
  pub rows : ℕ
  pub x : ℕ
  pub y : ℕ
  pub width : ℕ
  pub height : ℕ

abbrev pub frame_of : Option AtlasPlacement → ℕ → Option FrameRect
frame_of none i = none
frame_of (some p) i =
    if leb (p.columns * p.rows) i
    then none
    else some (record {
      columns = p.columns;
      rows = p.rows;
      x = p.x * p.columns + i % p.columns * p.width;
      y = i / p.columns * p.height;
      width = p.width;
      height = p.height;
    })

-- `getFrame`, for a frame index that is not negative
unfoldable pub get_frame : ℕ → ℕ → TextureManager → Option FrameRect
unfolding get
get_frame id i m = frame_of (get id m.cached_placements) i

abbrev pub count_of : Option AtlasPlacement → ℕ
count_of none = 0
count_of (some p) = p.columns * p.rows

-- `frameCount`
unfoldable pub frame_count : ℕ → TextureManager → ℕ
unfolding get
frame_count id m = count_of (get id m.cached_placements)

-- `getRevision`
unfoldable pub get_revision : ℕ → TextureManager → ℕ
unfolding get
get_revision id m = if is_some (get id m.cached_placements) then m.revision else 0
