-- ===== src/Texture/Tilesets.antt =====
-- The tilesets of the renderers, packages/renderer/src/tileset-registry.ts: each loads its image through
-- the texture manager and gives it its grid. The texture `""` of a tileset whose image is on its way
-- is `none`.
use agentic_rpgmaker.Base.{ℕ, Option, none, some, String, if◌then◌else◌, ◌*◌, String_eq}
use agentic_rpgmaker.Base.Dict.{Dict, get, insert, delete, has}
use agentic_rpgmaker.Texture.{TextureManager, Promised, load, set_grid}

-- The part of `TilesetData` that the registry reads.
pub record Tileset : Type 0 where
  pub id : String
  pub image : String
  pub columns : ℕ
  pub rows : ℕ
  pub tile_size : ℕ

pub record TilesetBinding : Type 0 where
  pub texture_id : Option ℕ
  pub columns : ℕ
  pub rows : ℕ
  pub tile_size : ℕ

-- The bindings, and the texture manager.
pub record TilesetRegistry : Type 0 where
  pub bindings : Dict String TilesetBinding
  pub manager : TextureManager

-- `register`, up to the promise of the texture: `none` where the tileset is registered already.
unfoldable pub register : Tileset → TilesetRegistry → TilesetRegistry × Option Promised
unfolding get insert load
register t r = if has t.id r.bindings then (r, none) else (
  record {
    bindings =
        insert t.id
          (record {
            texture_id = none;
            columns = t.columns;
            rows = t.rows;
            tile_size = t.tile_size;
          })
          r.bindings;
    manager = (load t.image r.manager).0;
  },
  some (load t.image r.manager).1,
)

unfoldable pub bound :
    String → ℕ → Option TilesetBinding → Dict String TilesetBinding → Dict String TilesetBinding
unfolding insert
bound id texture none bindings = bindings
bound id texture (some b) bindings = insert id (record b { texture_id = some texture }) bindings

-- What follows when the texture is there.
unfoldable pub loaded : Tileset → ℕ → TilesetRegistry → TilesetRegistry
unfolding set_grid get bound
loaded t texture r = record {
  bindings = bound t.id texture (get t.id r.bindings) r.bindings;
  manager = set_grid texture (t.columns * 1000) (t.rows * 1000) r.manager;
}

unfoldable pub load_failed : Tileset → TilesetRegistry → TilesetRegistry
unfolding delete
load_failed t r = record r { bindings = delete t.id r.bindings }

-- `bindingFor`
unfoldable pub binding_for : String → TilesetRegistry → Option TilesetBinding
unfolding get
binding_for id r = get id r.bindings
