-- ===== src/Network.antt =====
-- The multiplayer client, packages/runtime/src/network-client.ts: the remote players, their
-- interpolation, and what is sent. The transport is the list of the messages that it was given, and
-- the handlers of the client are the list of what they were told. Times are milliseconds.
pub mod Remote
pub mod Display
pub mod Sending
mod Tests
use agentic_rpgmaker.Base.{
  ◌+ℤ◌, ◌-ℤ◌, ℕ, zero, suc, ◌+◌, ◌-◌, ◌≡◌, ◌≤◌, Bool, true, false, not, ◌&&◌, Option, none, some,
  List, [], ◌∷◌, ◌++◌, String, if◌then◌else◌, ◌==◌, ltb, leb, take, length, or_else, is_some, ℤ,
  pos, String_eq,
}
use agentic_rpgmaker.Base.Dict.{Dict, get, insert, delete}
use agentic_rpgmaker.Behavior.{Direction, down}
use agentic_rpgmaker.Schema.{Value}
use agentic_rpgmaker.Rate.{TokenBucket, try_take}

-- `PlayerState`, the schema's type; `animation` may be missing.
pub record PlayerState : Type 0 where
  pub x : ℤ
  pub y : ℤ
  pub direction : Direction
  pub animation : Option String

-- `interp_ms` is `interpT` of the source, times the window of 120 ms.
pub record RemotePlayer : Type 0 where
  pub session_id : String
  pub player_name : String
  pub x : ℤ
  pub y : ℤ
  pub direction : Direction
  pub animation : String
  pub target_x : ℤ
  pub target_y : ℤ
  pub prev_x : ℤ
  pub prev_y : ℤ
  pub interp_ms : ℕ

abbrev pub interpolation_window_ms : ℕ
interpolation_window_ms = 120

-- A member of the room in a `welcome`.
pub record Member : Type 0 where
  pub session_id : String
  pub player_name : String
  pub state : Option PlayerState

-- The envelopes that the client tells apart. A state without numbers for x and y is `none`; a text
-- is its list of UTF-16 units.
pub data Envelope : Type 0 where
  welcome : (session_id : String) (players : List Member) → Envelope
  player_state : (session_id : Option String) (state : Option PlayerState) → Envelope
  chat : (text : List ℕ) (session_id player_name : Option String) → Envelope
  leave : (session_id reason : Option String) → Envelope
  error : Envelope
  ping : (payload : Value) → Envelope
  unknown : (type : String) → Envelope

pub data Outgoing : Type 0 where
  send_state : (state : PlayerState) (client_time_ms : ℕ) → Outgoing
  send_chat_text : (text : List ℕ) → Outgoing
  send_pong : (payload : Value) → Outgoing
  send_leave : (reason : String) (session_id : Option String) → Outgoing

-- What the registered handlers are called with.
pub data Notice : Type 0 where
  state_notice : RemotePlayer → Notice
  leave_notice : (session_id : String) (reason : Option String) → Notice
  chat_notice : (text : List ℕ) (session_id player_name : Option String) → Notice

pub record NetworkClient : Type 0 where
  pub session_id : Option String
  pub connected : Bool
  pub remote : Dict String RemotePlayer
  pub state_bucket : TokenBucket
  pub chat_bucket : TokenBucket
  pub pending_state : Option PlayerState
  pub last_sent_state : Option PlayerState
  pub sent : List Outgoing
  pub notices : List Notice

abbrev pub send_envelope : Outgoing → NetworkClient → NetworkClient
send_envelope message c = record c { sent = c.sent ++ message ∷ [] }

-- A player that shows the state at once.
abbrev pub spawned : String → String → PlayerState → RemotePlayer
spawned session_id player_name state = record {
  session_id = session_id;
  player_name = player_name;
  x = state.x;
  y = state.y;
  direction = state.direction;
  animation = or_else state.animation "idle";
  target_x = state.x;
  target_y = state.y;
  prev_x = state.x;
  prev_y = state.y;
  interp_ms = interpolation_window_ms;
}

abbrev pub no_state : PlayerState
no_state = record { x = pos 0; y = pos 0; direction = down; animation = none }

-- The loop of `handleWelcome`; `self` is the session of the client.
unfoldable pub add_members :
    String → List Member → Dict String RemotePlayer → Dict String RemotePlayer
unfolding insert
add_members self [] remote = remote
add_members self (p ∷ players) remote = add_members self players (
    if p.session_id == self
    then remote
    else insert p.session_id (spawned p.session_id p.player_name (or_else p.state no_state)) remote)

unfoldable pub handle_welcome : String → List Member → NetworkClient → NetworkClient
unfolding add_members
handle_welcome session_id players c = record c {
  session_id = some session_id;
  remote = add_members session_id players c.remote;
}

abbrev pub with_state : String → PlayerState → Option RemotePlayer → RemotePlayer
with_state session_id state none = spawned session_id session_id state
with_state session_id state (some p) = record p {
  prev_x = p.x;
  prev_y = p.y;
  target_x = state.x;
  target_y = state.y;
  direction = state.direction;
  animation = or_else state.animation p.animation;
  interp_ms = 0;
}

unfoldable pub handle_remote_state :
    Option String → Option PlayerState → NetworkClient → NetworkClient
unfolding get insert
handle_remote_state none state c = c
handle_remote_state (some session_id) none c = c
handle_remote_state (some session_id) (some state) c =
    let player = with_state session_id state (get session_id c.remote) in
    record c {
      remote = insert session_id player c.remote;
      notices = c.notices ++ state_notice player ∷ [];
    }

unfoldable pub handle_remote_leave : Option String → Option String → NetworkClient → NetworkClient
unfolding get delete
handle_remote_leave none reason c = c
handle_remote_leave (some session_id) reason c =
    if is_some (get session_id c.remote)
    then record c {
      remote = delete session_id c.remote;
      notices = c.notices ++ leave_notice session_id reason ∷ [];
    }
    else c

unfoldable pub handle_envelope : Envelope → NetworkClient → NetworkClient
unfolding handle_welcome handle_remote_state handle_remote_leave
handle_envelope (welcome session_id players) c = handle_welcome session_id players c
handle_envelope (player_state session_id state) c = handle_remote_state session_id state c
handle_envelope (chat text session_id player_name) c = record c {
  notices = c.notices ++ chat_notice text session_id player_name ∷ [];
}
handle_envelope (leave session_id reason) c = handle_remote_leave session_id reason c
handle_envelope error c = c
handle_envelope (ping payload) c = send_envelope (send_pong payload) c
handle_envelope (unknown type) c = c

-- `setLocalState`
abbrev pub set_local_state : PlayerState → NetworkClient → NetworkClient
set_local_state state c = record c { pending_state = some state }

abbrev pub flush_state : ℕ → PlayerState → TokenBucket × Bool → NetworkClient → NetworkClient
flush_state now state (bucket, false) c = record c { state_bucket = bucket }
flush_state now state (bucket, true) c = record c {
  state_bucket = bucket;
  last_sent_state = some state;
  sent = c.sent ++ send_state state now ∷ [];
}

abbrev pub flush_pending : ℕ → Option PlayerState → Bool → NetworkClient → NetworkClient
flush_pending now none connected c = c
flush_pending now (some state) false c = c
flush_pending now (some state) true c = flush_state now state (try_take now c.state_bucket) c

-- `flushPendingState`
unfoldable pub flush_pending_state : ℕ → NetworkClient → NetworkClient
unfolding try_take
flush_pending_state now c = flush_pending now c.pending_state c.connected c

abbrev pub chat_with : List ℕ → TokenBucket × Bool → NetworkClient → NetworkClient × Bool
chat_with text (bucket, false) c = (record c { chat_bucket = bucket }, false)
chat_with text (bucket, true) c =
    (send_envelope (send_chat_text text) (record c { chat_bucket = bucket }), true)

abbrev pub chat_trimmed : ℕ → List ℕ → NetworkClient → NetworkClient × Bool
chat_trimmed now [] c = (c, false)
chat_trimmed now (unit ∷ text) c = chat_with (unit ∷ text) (try_take now c.chat_bucket) c

abbrev pub max_chat_length : ℕ
max_chat_length = 200

-- `sendChat`
unfoldable pub send_chat : ℕ → List ℕ → NetworkClient → NetworkClient × Bool
unfolding try_take
send_chat now text c =
    if c.connected then chat_trimmed now (take max_chat_length text) c else (c, false)

-- `close`
unfoldable pub close : String → NetworkClient → NetworkClient
close reason c = record c {
  sent = if c.connected then c.sent ++ send_leave reason c.session_id ∷ [] else c.sent;
  connected = false;
  remote = [];
}

-- The product of a number and a fraction t, which is a number of milliseconds over the window. A
-- product by 1, that of the whole window, is the number itself.
pub record Product : Type 0 where
  pub times : ℤ → ℕ → ℤ
  pub times_1 : (d : ℤ) → times d interpolation_window_ms ≡ d

module _ (fractions : Product) where
  open fractions use {times}

  -- `interpolate`
  unfoldable pub interpolate : ℕ → RemotePlayer → RemotePlayer
  interpolate dt p =
      let ms = p.interp_ms + dt in
      let t = if leb interpolation_window_ms ms then interpolation_window_ms else ms in
      if leb interpolation_window_ms p.interp_ms
      then record p { x = p.target_x; y = p.target_y; prev_x = p.target_x; prev_y = p.target_y }
      else record p {
        interp_ms = t;
        x = p.prev_x +ℤ times (p.target_x -ℤ p.prev_x) t;
        y = p.prev_y +ℤ times (p.target_y -ℤ p.prev_y) t;
      }

  -- `update`
  unfoldable pub update_remote : ℕ → Dict String RemotePlayer → Dict String RemotePlayer
  unfolding interpolate
  update_remote dt [] = []
  update_remote dt ((session_id, p) ∷ remote) =
      (session_id, interpolate dt p) ∷ update_remote dt remote

  unfoldable pub update : ℕ → NetworkClient → NetworkClient
  unfolding update_remote
  update dt c = record c { remote = update_remote dt c.remote }
