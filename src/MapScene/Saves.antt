-- ===== src/MapScene/Saves.antt =====
-- The saves of a map scene: `save` and `load` of packages/runtime/src/map-scene.ts, with the type of
-- packages/core/src/schema/save.ts. The storage is the save that it holds.
use agentic_rpgmaker.Base.{
  Bool, true, false, Option, none, some, String, if◌then◌else◌, ◌==◌, ℤ, String_eq,
}
use agentic_rpgmaker.Base.Dict.{Dict}
use agentic_rpgmaker.Behavior.{Direction}
use agentic_rpgmaker.Entity.{Transform, set_position, set_direction}
use agentic_rpgmaker.State.{GameState, snapshot, load}

-- `schemaVersion` is the literal 1.
pub record SaveData : Type 0 where
  pub saved_at : String
  pub map_id : String
  pub x : ℤ
  pub y : ℤ
  pub direction : Direction
  pub variables : Dict String ℤ
  pub switches : Dict String Bool

-- What a save holds of a scene: the player, if there is one, and the state.
pub record Played : Type 0 where
  pub player : Option Transform
  pub state : GameState

abbrev pub save_data : String → String → Transform → GameState → SaveData
unfolding snapshot
save_data map_id now t s = record {
  saved_at = now;
  map_id = map_id;
  x = t.x;
  y = t.y;
  direction = t.direction;
  variables = (snapshot s).variables;
  switches = (snapshot s).switches;
}

-- `save`: what the storage holds afterwards, and the result
unfoldable pub save :
    (map_id now : String) → Option Transform → GameState → Option SaveData → Option SaveData × Bool
unfolding snapshot save_data
save map_id now none s storage = (storage, false)
save map_id now (some t) s storage = (some (save_data map_id now t s), true)

abbrev pub placed : SaveData → Option Transform → Option Transform
placed saved none = none
placed saved (some t) = some (set_direction saved.direction (set_position saved.x saved.y t))

-- `load`
unfoldable pub load_save : (map_id : String) → Option SaveData → Played → Played × Bool
unfolding load
load_save map_id none p = (p, false)
load_save map_id (some saved) p =
    if saved.map_id == map_id
    then (
      record {
        player = placed saved p.player;
        state = load (record { variables = saved.variables; switches = saved.switches }) p.state;
      },
      true,
    )
    else (p, false)
