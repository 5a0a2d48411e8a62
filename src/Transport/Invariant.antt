-- ===== src/Transport/Invariant.antt =====
-- What the state of a transport says of its timers, its socket and the promise of `connect`, and the
-- handlers of packages/runtime/src/websocket-transport.ts that send nothing.
use agentic_rpgmaker.Base.{
  ℕ, ◌≤◌, ◌≡◌, Bool, true, false, List, [], String, length, is_some, arith, Bool-cases, inl, inr,
}
use agentic_rpgmaker.Protocol.{ProtocolEnvelope}
use agentic_rpgmaker.Transport.State.{
  TransportState, idle, connecting, handshaking, ready, closing, closed, TransportOptions,
  TransportError, socket_error, HandlerCall, Transport, is_ready,
}
use agentic_rpgmaker.Transport.Socket.{
  force_close, reject_connect, notify_error, complete_handshake, notify_envelope,
  handle_socket_error, handle_close, connect,
}

abbrev pub is_connected : TransportState → Bool
is_connected idle = false
is_connected closed = false
is_connected _ = true

abbrev pub may_wait : TransportState → Bool
may_wait connecting = true
may_wait handshaking = true
may_wait closing = true
may_wait _ = false

abbrev pub has_session : TransportState → Bool
has_session ready = true
has_session closing = true
has_session _ = false

module _ {Raw : Type 0} where
  pub record IsTransport (t : Transport Raw) : Type 0 where
    pub handshake_timed : t.handshake_timer ≡ true → t.state ≡ handshaking
    pub pings : t.ping_timer ≡ is_ready t.state
    pub watches : t.watchdog_timer ≡ is_ready t.state
    pub connected : t.has_socket ≡ is_connected t.state
    pub waits : t.connect_pending ≡ true → may_wait t.state ≡ true
    pub unsettled : t.connect_pending ≡ true → t.outcomes ≡ []
    pub settled_once : length t.outcomes ≤ 1
    pub untouched : t.state ≡ idle → t.outcomes ≡ []
    pub sessions : is_some t.session_id ≡ true → has_session t.state ≡ true

  -- The same but for the messages that were sent and the calls of handlers.
  pub record IsLike (t u : Transport Raw) : Type 0 where
    pub state : u.state ≡ t.state
    pub has_socket : u.has_socket ≡ t.has_socket
    pub session_id : u.session_id ≡ t.session_id
    pub connect_pending : u.connect_pending ≡ t.connect_pending
    pub handshake_timer : u.handshake_timer ≡ t.handshake_timer
    pub ping_timer : u.ping_timer ≡ t.ping_timer
    pub watchdog_timer : u.watchdog_timer ≡ t.watchdog_timer
    pub outcomes : u.outcomes ≡ t.outcomes
    pub last_inbound_ms : u.last_inbound_ms ≡ t.last_inbound_ms
    pub options : u.options ≡ t.options

  pub like-IsTransport : (t u : Transport Raw) → IsLike t u → IsTransport t → IsTransport u
  like-IsTransport t u l v = ground arith

  pub told-IsTransport :
      (calls : List (HandlerCall Raw)) (t : Transport Raw)
      → IsTransport t
      → IsTransport (record t { told = calls })
  told-IsTransport calls t v = ground arith

  pub informed-IsTransport :
      (now : ℕ) (envelope : ProtocolEnvelope) (raw : Raw) (calls : List (HandlerCall Raw))
      (t : Transport Raw)
      → IsTransport t
      → IsTransport (record (notify_envelope now envelope raw t) { told = calls })
  unfolding notify_envelope
  informed-IsTransport now envelope raw calls t v = ground arith

  pub rejected-IsTransport :
      (error : TransportError) (t : Transport Raw)
      → IsTransport t
      → IsTransport (reject_connect error t)
  unfolding reject_connect
  rejected-IsTransport error t v = elim (Bool-cases t.connect_pending) [
    | inl waiting ↦ rw (waiting, v.unsettled waiting) (ground arith)
    | inr settled ↦ ground arith
  ]

  pub notified-IsTransport :
      (error : TransportError) (t : Transport Raw)
      → IsTransport t
      → IsTransport (notify_error error t)
  unfolding notify_error
  notified-IsTransport error t v = ground arith

  pub handle_socket_error-IsTransport :
      (t : Transport Raw) → IsTransport t → IsTransport (handle_socket_error t)
  unfolding handle_socket_error
  handle_socket_error-IsTransport t v =
      let told = notified-IsTransport socket_error t v in
      ground (arith, rejected-IsTransport socket_error (notify_error socket_error t))

  pub force_close-IsTransport :
      (code : ℕ) (reason : String) (t : Transport Raw)
      → is_connected t.state ≡ true
      → IsTransport t
      → IsTransport (force_close code reason t)
  unfolding force_close
  force_close-IsTransport code reason t live v = ground arith

  pub handle_close-IsTransport :
      (code : ℕ) (reason : String) (t : Transport Raw)
      → is_connected t.state ≡ true
      → IsTransport t
      → IsTransport (handle_close code reason t)
  unfolding handle_close reject_connect
  handle_close-IsTransport code reason t live v = elim (Bool-cases t.connect_pending) [
    | inl waiting ↦ let no_outcome = v.unsettled waiting in ground arith
    | inr settled ↦ ground arith
  ]

  pub complete_handshake-IsTransport :
      (envelope : ProtocolEnvelope) (t : Transport Raw)
      → t.state ≡ handshaking
      → IsTransport t
      → IsTransport (complete_handshake envelope t)
  unfolding complete_handshake
  complete_handshake-IsTransport envelope t live v = elim (Bool-cases t.connect_pending) [
    | inl waiting ↦ let no_outcome = v.unsettled waiting in ground arith
    | inr settled ↦ ground arith
  ]

  pub connect-IsTransport :
      (options : TransportOptions) (made : Bool) (t : Transport Raw)
      → IsTransport t
      → IsTransport (connect options made t).0
  unfolding connect
  connect-IsTransport options true t v = ground arith
  connect-IsTransport options false t v = ground arith
