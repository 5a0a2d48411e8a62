-- ===== src/MapScene/Tests.antt =====
-- A walk in a small room and a choice, and the theorems at them.
use agentic_rpgmaker.Base.{
  ◌≡◌, ◌≢◌, String, refl, true, false, none, some, [], ◌∷◌, ℤ, pos, whole, ◌+ℤ◌, ◌-ℤ◌, from_int,
  floor, arith, int_laws,
}
use agentic_rpgmaker.Behavior.{Vec2, up, right}
use agentic_rpgmaker.State.{
  get_variable, get_switch, set_variable, make_state, empty_snapshot, walk, collide,
}
use agentic_rpgmaker.State.Laws.{make_state-IsState}
use agentic_rpgmaker.MapScene.Saves.{Played, save, load_save}
use agentic_rpgmaker.MapScene.Resume.{load_save-save}
use agentic_rpgmaker.Entity.{Transform, make_object, behavior, make_transform}
use agentic_rpgmaker.Entity.Shape.{rect}
use agentic_rpgmaker.Movement.{is_listed}
use agentic_rpgmaker.Input.{cleared, press_direction, queue_confirm}
use agentic_rpgmaker.MapScene.{Ground, Walker, walk_on}
use agentic_rpgmaker.MapScene.Choices.{ChoicePrompt, Chooser, handle_choice_input}
use agentic_rpgmaker.MapScene.Answers.{
  HasReplied, reply, pressed_edge, has_confirm, has_cancel, handle_choice_input-HasReplied,
}
use agentic_rpgmaker.MapScene.Walking.{IsTileSized, IsWalking, walk_on-IsWalking}

running : Unit {0}
unfolding walk_on press_direction from_int ◌+ℤ◌ ◌-ℤ◌ floor is_listed
running = tt

-- Two tiles, and no one else.
ground : Ground
ground = record {
  grid = record { width = 2; height = 1; solid = [] };
  player_collider =
      some (record { shape = rect (whole 1) (whole 1) (pos 0) (pos 0); solid = true });
  npc_blockers = [];
  heap = record {
    next_object = 0;
    objects = λ e. make_object "" none none none;
    next_component = 0;
    components = λ c. record { owner = none; payload = behavior none };
  };
  step_duration = 200;
}

start : Walker
unfolding press_direction
start = record {
  player_transform = make_transform none none none;
  step = none;
  repeat_accum = 0;
  last_step_dir = none;
  input = press_direction right cleared;
  virtual_input = cleared;
  bus = [];
}

plus_0 : (a : ℤ) → a +ℤ pos 0 ≡ a
plus_0 a = omega int_laws

ground-IsTileSized : IsTileSized ground
unfolding ground
ground-IsTileSized to =
    λ i. record { x = plus_0 to.x i; y = plus_0 to.y i; width = whole 1; height = whole 1 }

start-IsWalking : IsWalking ground.grid start
unfolding start ground from_int is_listed
start-IsWalking = record {
  stands = (pos 0, pos 0, refl, refl, omega arith, omega arith, omega arith, omega arith, refl);
  goes = tt;
}

walk_on-IsWalking_example : IsWalking ground.grid (walk_on ground 16 false false start)
walk_on-IsWalking_example =
    walk_on-IsWalking ground ground-IsTileSized 16 false false start start-IsWalking

abbrev origin : Vec2
origin = record { x = pos 0; y = pos 0 }

abbrev next_tile : Vec2
next_tile = record { x = pos 1000; y = pos 0 }

walk_runs :
    ((walk_on ground 16 false false start).bus ≡ walk "player" origin next_tile ∷ [])
    × ((walk_on ground 16 false false
          (walk_on ground 300 false false (walk_on ground 16 false false start))).bus
        ≡ walk "player" origin next_tile
          ∷ collide "player" "map" true
          ∷ collide "player" "map" true
          ∷ [])
unfolding running start ground
walk_runs = (refl, refl)

door : ChoicePrompt
door = record { variable = "door"; options = "left" ∷ "middle" ∷ "right" ∷ []; selected = pos 0 }

-- Up was pressed, and then confirm.
chooser : Chooser
unfolding start door press_direction
chooser = record {
  walker = record start { input = queue_confirm (press_direction up cleared) };
  state = record { variables = []; switches = []; bus = none };
  pending_choice = some door;
}

handle_choice_input-HasReplied_example :
    HasReplied door chooser.state
      (reply
        (pressed_edge chooser.walker)
        (has_confirm chooser.walker)
        (has_cancel chooser.walker)
        0
        3)
      (handle_choice_input chooser)
unfolding chooser door
handle_choice_input-HasReplied_example =
    handle_choice_input-HasReplied door 0 chooser refl refl (omega arith)

choice_runs :
    ((handle_choice_input chooser).pending_choice ≡ some (record door { selected = pos 2 }))
    × (get_variable "door" (handle_choice_input (handle_choice_input chooser)).state ≡ pos 2)
    × ((handle_choice_input (handle_choice_input chooser)).pending_choice ≡ none)
unfolding running chooser door start handle_choice_input get_variable
choice_runs = (refl, refl, refl)

abbrev player_at : Transform
player_at = make_transform (some (whole 3)) (some (whole 2)) (some right)

abbrev other_map : String
other_map = "cave"

abbrev elsewhere : Transform
elsewhere = make_transform none none none

load_save-save_example :
    let s = make_state empty_snapshot none in
    let stored = (save "town" "now" (some player_at) s none).0 in
    let p : Played = record { player = some elsewhere; state = set_variable "gold" (pos 5) s } in
    let loaded = (load_save "town" stored p).0 in
    (loaded.player ≡ some player_at)
    × ((n : String) → get_variable n loaded.state ≡ get_variable n s)
    × ((n : String) → get_switch n loaded.state ≡ get_switch n s)
    × (loaded.state.bus ≡ p.state.bus)
    × (other_map ≢ "town" → load_save other_map stored p ≡ (p, false))
load_save-save_example =
    load_save-save "town" "now" player_at (make_state empty_snapshot none) none other_map elsewhere
      (record {
        player = some elsewhere;
        state = set_variable "gold" (pos 5) (make_state empty_snapshot none);
      })
      (make_state-IsState empty_snapshot none) refl
