-- ===== src/Texture/Binding.antt =====
-- The grid that a tileset gives its texture.
use agentic_rpgmaker.Base.{ℕ, ◌+◌, ◌*◌, ◌≤◌, ◌≡◌, refl, ◌∙◌, some, [], ◌∷◌, arith, ℕ_eq, String_eq}
use agentic_rpgmaker.Base.Dict.{Dict, get, insert, get-insert, beq_refl}
use agentic_rpgmaker.Texture.{
  LoadedImage, pixels, place_from, rebuild_atlas, at_least_1, gridded, set_grid, count_of,
  frame_count,
}
use agentic_rpgmaker.Texture.Tilesets.{
  Tileset, TilesetBinding, TilesetRegistry, bound, loaded, binding_for,
}

-- The place of an image has the grid of the image.
place_from-count :
    (x id : ℕ) (entry : LoadedImage) (images : Dict ℕ LoadedImage)
    → get id images ≡ some entry
    → count_of (get id (place_from x images)) ≡ entry.columns * entry.rows
unfolding get place_from
place_from-count x id entry [] found = ground arith
place_from-count x id entry ((j, e) ∷ images) found =
    ground (arith, place_from-count (x + pixels e.image.width) id entry images)

at_least_1-whole : (n : ℕ) → 1 ≤ n → at_least_1 (n * 1000) ≡ n
at_least_1-whole n le = ground arith

module _ (t : Tileset) (texture : ℕ) (entry : LoadedImage) (b : TilesetBinding)
    (r : TilesetRegistry) (there : get texture r.manager.images ≡ some entry)
    (registered : binding_for t.id r ≡ some b) (some_columns : 1 ≤ t.columns)
    (some_rows : 1 ≤ t.rows) where
  -- The image with the grid of the tileset.
  abbrev gridded_entry : LoadedImage
  gridded_entry = record entry {
    columns = at_least_1 (t.columns * 1000);
    rows = at_least_1 (t.rows * 1000);
  }

  grid_kept : get texture (insert texture gridded_entry r.manager.images) ≡ some gridded_entry
  grid_kept =
      get-insert texture texture gridded_entry r.manager.images ∙ (rw (beq_refl texture) refl)

  -- A tileset with a column and a row is registered, and its texture comes. Then its binding names
  -- the texture and is else unchanged, and the texture has a frame for each tile of the tileset.
  pub loaded-frames :
      (binding_for t.id (loaded t texture r) ≡ some (record b { texture_id = some texture }))
      × (frame_count texture (loaded t texture r).manager ≡ t.columns * t.rows)
  unfolding binding_for loaded bound set_grid gridded rebuild_atlas frame_count
  loaded-frames =
      let bound_now : TilesetBinding = record b { texture_id = some texture } in
      (
        rw (registered, get-insert t.id t.id bound_now r.bindings, beq_refl t.id) refl,
        rw there (
            place_from-count 0 texture gridded_entry (insert texture gridded_entry r.manager.images)
              grid_kept
            ∙ (rw (at_least_1-whole t.columns some_columns, at_least_1-whole t.rows some_rows)
                refl)),
      )
