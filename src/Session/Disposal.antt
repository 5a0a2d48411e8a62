-- ===== src/Session/Disposal.antt =====
-- What may still happen to a game that was disposed of.
use agentic_rpgmaker.Base.{
  ℕ, ◌≡◌, ◌∙◌, ap, refl, Bool, true, false, Option, none, some, String, length, get_elem?,
}
use agentic_rpgmaker.Schema.{MapData}
use agentic_rpgmaker.Thrown.{Outcome, ok, thrown}
use agentic_rpgmaker.Scene.{Scene}
use agentic_rpgmaker.Session.Manager.{SceneManager, change, clear}
use agentic_rpgmaker.Session.Pending.{change_current}
use agentic_rpgmaker.Session.Game.{
  Game, PlayScene, TransferEvent, transfer_map, map_loaded, first_scene, start, dispose, both,
  built, step, start_it, dispose_it, answer, resolve, answered, enter_next, switch_to,
  finish_transfer, remove_at, save_game, save_scene,
}

switched :
    (s : PlayScene) (r : Scene × Outcome (Unit {0})) (g : Game)
    → r.1 ≡ ok tt
    → (switch_to s r g).0.manager ≡ change (length g.scenes) g.manager
unfolding switch_to
switched s (graphs, ok u) g e = refl
switched s (graphs, thrown x) g e = cc

saved_manager : (now : String) (g : Game) → (save_game now g).manager ≡ g.manager
unfolding save_game save_scene
saved_manager now g = saved (get_elem? g.scenes g.current_scene)
  where
    saved : (o : Option PlayScene) → (save_scene now o g).manager ≡ g.manager
    saved none = refl
    saved (some s) = refl

finished_manager :
    (now : String) (g : Game) (entered : Bool)
    → (finish_transfer now (g, entered)).manager ≡ g.manager
unfolding finish_transfer
finished_manager now g true = saved_manager now g
finished_manager now g false = refl

late :
    (g : Game) (now : String) (event : TransferEvent) (map : MapData)
    → (built map (both event.x event.y) event.direction g).1 ≡ ok tt
    → (resolve now (transfer_map event) (map_loaded map) g).manager.current ≡ some (length g.scenes)
unfolding resolve enter_next
late g now event map fine =
    let next = enter_next map (both event.x event.y) event.direction g in
    ap (λ (m : SceneManager). m.current)
      (finished_manager now next.0 next.1
        ∙ switched _ (built map (both event.x event.y) event.direction g) g fine)
    ∙ change_current (length g.scenes) g.manager

-- A game that was disposed of still enters a scene: the next one when the map of a transfer that was
-- in flight arrives, if the scene can be built, and the first one when it is started again, whichever
-- scene `save` and `load` act on.
pub dispose_enters :
    (g : Game) (now : String) (place : ℕ) (event : TransferEvent) (map : MapData)
    → get_elem? g.pending place ≡ some (transfer_map event)
    → (built map (both event.x event.y) event.direction g).1 ≡ ok tt
    → ((step (answer now place (map_loaded map)) (step dispose_it g)).manager.current
        ≡ some (length g.scenes))
      × ((step start_it (step dispose_it g)).manager.current ≡ some first_scene)
      × ((step start_it (step dispose_it g)).current_scene ≡ g.current_scene)
unfolding step dispose answered start clear change built
dispose_enters g now place event map there fine = (
  rw there (late (record (dispose g) { pending = remove_at place g.pending }) now event map fine),
  refl,
  refl,
)
