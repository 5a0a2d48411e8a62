-- ===== src/MapScene/Resume.antt =====
-- A game that was saved is resumed where it was.
use agentic_rpgmaker.Base.{
  ◌≡◌, ◌≢◌, refl, false, Option, some, String, String_eq, arith, eq_iff, eq_refl,
}
use agentic_rpgmaker.Entity.{Transform}
use agentic_rpgmaker.State.{GameState, get_variable, get_switch}
use agentic_rpgmaker.State.Laws.{IsState, load-snapshot}
use agentic_rpgmaker.MapScene.Saves.{SaveData, Played, save, load_save}

-- Saving a scene with a player and loading it, whatever was played since: the player is back in
-- its place and direction, and every variable and switch has its value again. A scene of another
-- map, and one without a save, stays as it was.
pub load_save-save :
    (map_id now : String) (t : Transform) (s : GameState) (old : Option SaveData) (other : String)
    (since : Transform) (p : Played)
    → IsState s
    → p.player ≡ some since
    → let stored = (save map_id now (some t) s old).0 in
      let loaded = (load_save map_id stored p).0 in
      (loaded.player ≡ some t)
      × ((n : String) → get_variable n loaded.state ≡ get_variable n s)
      × ((n : String) → get_switch n loaded.state ≡ get_switch n s)
      × (loaded.state.bus ≡ p.state.bus)
      × (other ≢ map_id → load_save other stored p ≡ (p, false))
unfolding save load_save
load_save-save map_id now t s old other since p good here =
    let back = load-snapshot s p.state good in
    rw (eq_refl map_id)
      (rw here refl, back.0, back.1, back.2, λ differs. ground (arith, eq_iff map_id other))
