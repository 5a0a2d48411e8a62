-- ===== src/Texture/Cache.antt =====
-- The cache of a texture manager: what every run keeps.
use mathlib.Core.Path.{subst}
use agentic_rpgmaker.Base.{
  ℕ, ◌<◌, ◌≡◌, ◌↔◌, refl, Bool, true, false, Option, none, some, List, [], ◌∷◌, String,
  if◌then◌else◌, arith, ◌==◌, is_some, ℕ_eq, String_eq, Bool-cases, inl, inr, sym,
}
use agentic_rpgmaker.Base.Dict.{
  get, includes, remove_first, count, get-insert, get-delete, includes-append, includes-remove_all,
  count-append, count-remove_first, includes-count,
}
use agentic_rpgmaker.Texture.{
  ImageSource, LoadedImage, place_from, rebuild_atlas, load_from, load, loaded, load_failed,
  disposed, dispose, at_least_1, gridded, set_grid,
}
use agentic_rpgmaker.Texture.Run.{
  World, make_world, Event, load_url, answer, dispose_id, set_grid_of, call_made, answered, step,
  run,
}

abbrev pub is_url : String → Option LoadedImage → Bool
is_url url none = false
is_url url (some entry) = entry.url == url

-- What every run keeps.
pub record IsCache (w : World) : Type 0 where
  -- the map of URLs and the map of images are inverse to each other
  pub inverse :
      (url : String) (id : ℕ)
      → (get url w.manager.by_url ≡ some id) ↔ (is_url url (get id w.manager.images) ≡ true)
  -- an image that is there is not being loaded
  pub quiet :
      (url : String) → includes url w.manager.loading ≡ true → get url w.manager.by_url ≡ none
  -- a URL has one call of the loader while it is loading, and else none
  pub once : (url : String) → count url w.calls ≡ (if includes url w.manager.loading then 1 else 0)
  -- the ids to come are new
  pub fresh : (id : ℕ) → is_some (get id w.manager.images) ≡ true → id < w.manager.next_id
  -- the atlas is that of the images
  pub placed : w.manager.cached_placements ≡ place_from 0 w.manager.images

load-IsCache :
    (url : String) (found : Option ℕ) (is_loading : Bool) (w : World)
    → get url w.manager.by_url ≡ found
    → includes url w.manager.loading ≡ is_loading
    → IsCache w
    → IsCache (call_made url (load_from found is_loading url w.manager) w.calls)
unfolding includes count
load-IsCache url (some id) is_loading w is_found flag c = c
load-IsCache url none true w is_found flag c = c
load-IsCache url none false w is_found flag c = record {
  inverse = c.inverse;
  quiet = λ u. ground (
    arith,
    includes-append u w.manager.loading (url ∷ []),
    c.quiet u,
    is_found,
    String_eq.beq_iff url u,
  );
  once = λ u. ground (
    arith,
    includes-append u w.manager.loading (url ∷ []),
    count-append u w.calls (url ∷ []),
    c.once u,
    is_found,
    flag,
    String_eq.beq_iff url u,
  );
  fresh = c.fresh;
  placed = c.placed;
}

is_loading :
    (url : String) (w : World)
    → includes url w.calls ≡ true
    → IsCache w
    → includes url w.manager.loading ≡ true
is_loading url w is_called c = ground (arith, includes-count url w.calls, c.once url)

inverse_loaded :
    (url u : String) (id : ℕ) (image : ImageSource) (w : World)
    → includes url w.calls ≡ true
    → IsCache w
    → (get u (loaded url image w.manager).by_url ≡ some id)
      ↔ (is_url u (get id (loaded url image w.manager).images) ≡ true)
unfolding loaded rebuild_atlas
inverse_loaded url u id image w is_called c =
    let m = w.manager in
    ground (
      arith,
      get-insert url u m.next_id m.by_url,
      get-insert m.next_id id (record { url = url; image = image; columns = 1; rows = 1 }) m.images,
      c.inverse u id,
      c.quiet url (is_loading url w is_called c),
      c.fresh id,
      String_eq.beq_iff url u,
      ℕ_eq.beq_iff m.next_id id,
    )

loaded-IsCache :
    (url : String) (image : ImageSource) (w : World)
    → includes url w.calls ≡ true
    → IsCache w
    → IsCache (record { manager = loaded url image w.manager; calls = remove_first url w.calls })
unfolding loaded rebuild_atlas
loaded-IsCache url image w is_called c =
    let m = w.manager in
    record {
      inverse = λ u id. inverse_loaded url u id image w is_called c;
      quiet = λ u. ground (
        arith,
        includes-remove_all url u m.loading,
        get-insert url u m.next_id m.by_url,
        c.quiet u,
      );
      once = λ u. ground (
        arith,
        count-remove_first url u w.calls,
        includes-remove_all url u m.loading,
        c.once u,
        String_eq.beq_iff url u,
      );
      fresh = λ id. ground (
        arith,
        get-insert m.next_id id (record { url = url; image = image; columns = 1; rows = 1 })
            m.images,
        c.fresh id,
        ℕ_eq.beq_iff m.next_id id,
      );
      placed = refl;
    }

failed-IsCache :
    (url : String) (w : World)
    → includes url w.calls ≡ true
    → IsCache w
    → IsCache (record { manager = load_failed url w.manager; calls = remove_first url w.calls })
unfolding load_failed
failed-IsCache url w is_called c = record {
  inverse = c.inverse;
  quiet = λ u. ground (arith, includes-remove_all url u w.manager.loading, c.quiet u);
  once = λ u. ground (
    arith,
    count-remove_first url u w.calls,
    includes-remove_all url u w.manager.loading,
    c.once u,
    String_eq.beq_iff url u,
  );
  fresh = c.fresh;
  placed = c.placed;
}

answered-IsCache :
    (url : String) (result : Option ImageSource) (w : World)
    → includes url w.calls ≡ true
    → IsCache w
    → IsCache (record { manager = answered url result w.manager; calls = remove_first url w.calls })
unfolding answered
answered-IsCache url (some image) w is_called c = loaded-IsCache url image w is_called c
answered-IsCache url none w is_called c = failed-IsCache url w is_called c

disposed-IsCache :
    (id : ℕ) (found : Option LoadedImage) (w : World)
    → get id w.manager.images ≡ found
    → IsCache w
    → IsCache (record w { manager = disposed id found w.manager })
unfolding disposed rebuild_atlas
disposed-IsCache id none w is_found c = c
disposed-IsCache id (some entry) w is_found c =
    let m = w.manager in
    record {
      inverse = λ u j. ground (
        arith,
        get-delete entry.url u m.by_url,
        get-delete id j m.images,
        c.inverse u j,
        c.inverse u id,
        is_found,
        String_eq.beq_iff entry.url u,
        ℕ_eq.beq_iff id j,
      );
      quiet = λ u. ground (arith, get-delete entry.url u m.by_url, c.quiet u);
      once = c.once;
      fresh = λ j. ground (arith, get-delete id j m.images, c.fresh j);
      placed = refl;
    }

gridded-IsCache :
    (id columns rows : ℕ) (found : Option LoadedImage) (w : World)
    → get id w.manager.images ≡ found
    → IsCache w
    → IsCache (record w { manager = gridded id columns rows found w.manager })
unfolding gridded rebuild_atlas
gridded-IsCache id columns rows none w is_found c = c
gridded-IsCache id columns rows (some entry) w is_found c =
    let m = w.manager in
    record {
      inverse = λ u j. ground (
        arith,
        get-insert id j (record entry { columns = at_least_1 columns; rows = at_least_1 rows })
            m.images,
        c.inverse u j,
        is_found,
        ℕ_eq.beq_iff id j,
      );
      quiet = c.quiet;
      once = c.once;
      fresh = λ j. ground (
        arith,
        get-insert id j (record entry { columns = at_least_1 columns; rows = at_least_1 rows })
            m.images,
        c.fresh j,
        is_found,
        ℕ_eq.beq_iff id j,
      );
      placed = refl;
    }

step-IsCache : (e : Event) (w : World) → IsCache w → IsCache (step e w)
unfolding step load dispose set_grid
step-IsCache (load_url url) w c =
    load-IsCache url (get url w.manager.by_url) (includes url w.manager.loading) w refl refl c
step-IsCache (answer url result) w c = elim (Bool-cases (includes url w.calls)) [
  | inl is_called ↦
      subst
        (λ (b : Bool). IsCache (
          if b
          then record { manager = answered url result w.manager; calls = remove_first url w.calls }
          else w))
        (sym is_called) (answered-IsCache url result w is_called c)
  | inr is_not ↦
      subst
        (λ (b : Bool). IsCache (
          if b
          then record { manager = answered url result w.manager; calls = remove_first url w.calls }
          else w))
        (sym is_not) c
]
step-IsCache (dispose_id id) w c = disposed-IsCache id (get id w.manager.images) w refl c
step-IsCache (set_grid_of id columns rows) w c =
    gridded-IsCache id columns rows (get id w.manager.images) w refl c

runs-IsCache : (es : List Event) (w : World) → IsCache w → IsCache (run es w)
unfolding run
runs-IsCache [] w c = c
runs-IsCache (e ∷ es) w c = runs-IsCache es (step e w) (step-IsCache e w c)

make_world-IsCache : IsCache make_world
unfolding get includes count place_from
make_world-IsCache = record {
  inverse = λ u id. ground arith;
  quiet = λ u flag. refl;
  once = λ u. refl;
  fresh = λ id. ground arith;
  placed = refl;
}

-- After any sequence of calls, answers of the loader, disposals and grids on a new manager, the map
-- of URLs and the map of images are inverse to each other; a URL whose image is there is not being
-- loaded; a URL has exactly one unanswered call of the loader while it is loading and none
-- otherwise; every id in use is below the next one; and the placements are those of the images.
pub run-IsCache : (es : List Event) → IsCache (run es make_world)
run-IsCache es = runs-IsCache es make_world make_world-IsCache
