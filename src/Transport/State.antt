-- ===== src/Transport/State.antt =====
-- The state of a transport: `WebSocketTransport` of packages/runtime/src/websocket-transport.ts and
-- the types of transport.ts. The socket is the list of what it was given, with `opened` where it
-- opened. A handler is a number, and `told` lists the calls of handlers, which call nothing back. A
-- timer is whether it is armed, and the promise of `connect` its outcomes and whether it is open.
use agentic_rpgmaker.Base.{ℕ, Bool, true, false, Option, none, List, [], String, ℤ, String_eq, ℕ_eq}
use agentic_rpgmaker.Protocol.{Json, ProtocolEnvelope, ProtocolError}

pub data TransportState : Type 0 where
  idle connecting handshaking ready closing closed : TransportState

pub record TransportOptions : Type 0 where
  pub room_id : Option String
  pub player_name : Option String
  pub project_id : Option String
  pub heartbeat_ms : ℕ
  pub timeout_ms : ℕ

pub data SocketCall (Raw : Type 0) : Type 0 where
  opened : SocketCall Raw
  sent : Raw → SocketCall Raw
  close_socket : (code : ℕ) (reason : String) → SocketCall Raw

pub data TransportError : Type 0 where
  decode_error : ProtocolError → TransportError
  socket_error handshake_timed_out : TransportError
  closed_before_ready : (reason : String) → TransportError

pub data Outcome : Type 0 where
  resolved : Outcome
  rejected : TransportError → Outcome

pub data HandlerCall (Raw : Type 0) : Type 0 where
  message_call : (handler : ℕ) → Raw → HandlerCall Raw
  envelope_call : (handler : ℕ) → ProtocolEnvelope → Raw → HandlerCall Raw
  close_call : (handler code : ℕ) (reason : String) → HandlerCall Raw
  error_call : (handler : ℕ) → TransportError → HandlerCall Raw

pub record Transport (Raw : Type 0) : Type 0 where
  pub state : TransportState
  pub has_socket : Bool
  pub options : TransportOptions
  pub seq : ℕ
  pub session_id : Option Json
  pub last_activity_ms : ℕ
  pub last_inbound_ms : ℕ
  pub latency_ms : Option ℤ
  pub leave_sent : Bool
  pub message_handlers : List ℕ
  pub close_handlers : List ℕ
  pub error_handlers : List ℕ
  pub envelope_handlers : List ℕ
  pub connect_pending : Bool
  pub handshake_timer : Bool
  pub ping_timer : Bool
  pub watchdog_timer : Bool
  pub socket : List (SocketCall Raw)
  pub outcomes : List Outcome
  pub told : List (HandlerCall Raw)

abbrev pub default_options : TransportOptions
default_options = record {
  room_id = none;
  player_name = none;
  project_id = none;
  heartbeat_ms = 15000;
  timeout_ms = 60000;
}

-- The constructor.
unfoldable pub make_transport : {Raw : Type 0} → Transport Raw
make_transport = record {
  state = idle;
  has_socket = false;
  options = default_options;
  seq = 0;
  session_id = none;
  last_activity_ms = 0;
  last_inbound_ms = 0;
  latency_ms = none;
  leave_sent = false;
  message_handlers = [];
  close_handlers = [];
  error_handlers = [];
  envelope_handlers = [];
  connect_pending = false;
  handshake_timer = false;
  ping_timer = false;
  watchdog_timer = false;
  socket = [];
  outcomes = [];
  told = [];
}

abbrev pub is_idle : TransportState → Bool
is_idle idle = true
is_idle _ = false

abbrev pub is_closed : TransportState → Bool
is_closed closed = true
is_closed _ = false

abbrev pub is_ready : TransportState → Bool
is_ready ready = true
is_ready _ = false

abbrev pub is_connecting : TransportState → Bool
is_connecting connecting = true
is_connecting _ = false

abbrev pub is_handshaking : TransportState → Bool
is_handshaking handshaking = true
is_handshaking _ = false
