-- ===== src/Transport/Order.antt =====
-- Which states of a transport follow one another, and what resolves the promise of `connect`.
use agentic_rpgmaker.Base.{
  ℕ, ◌≡◌, refl, Bool, true, false, List, [], ◌∷◌, ◌++◌, String, String_eq, arith,
}
use agentic_rpgmaker.Protocol.{ProtocolEnvelope, Result, ok, err, Codec, decode_message}
use agentic_rpgmaker.Transport.State.{
  TransportState, idle, connecting, handshaking, ready, closing, closed, TransportOptions,
  SocketCall, opened, Transport,
}
use agentic_rpgmaker.Transport.Socket.{
  force_close, reject_connect, notify_error, complete_handshake, notify_envelope,
  handle_socket_error, handle_close, handshake_timeout, watchdog, connect,
}
use agentic_rpgmaker.Transport.Messages.{
  close, hello_payload, handle_open, handle_decoded, handle_message,
}
use agentic_rpgmaker.Transport.Run.{
  Event, connect_to, add_handler, remove_handler, send_raw, send_envelope, send_payload, leave,
  close_it, socket_opens, socket_errs, socket_gets, socket_closes, handshake_ends, ping_due,
  watchdog_due, subscribe, unsubscribe, step,
}
use agentic_rpgmaker.Transport.Invariant.{IsTransport}
use agentic_rpgmaker.Transport.Quiet.{
  send-IsLike, send_message-IsLike, send_typed-IsLike, send_leave-IsLike, send_ping-IsLike,
}

-- The diagram of the states: each may stay, and nothing leads back.
abbrev pub may_follow : TransportState → TransportState → Bool
may_follow idle idle = true
may_follow idle connecting = true
may_follow idle closed = true
may_follow idle _ = false
may_follow connecting idle = false
may_follow connecting ready = false
may_follow connecting _ = true
may_follow handshaking idle = false
may_follow handshaking connecting = false
may_follow handshaking _ = true
may_follow ready ready = true
may_follow ready closing = true
may_follow ready closed = true
may_follow ready _ = false
may_follow closing closing = true
may_follow closing closed = true
may_follow closing _ = false
may_follow closed closed = true
may_follow closed _ = false

same_follows : (s r : TransportState) → r ≡ s → may_follow s r ≡ true
same_follows s r e = ground arith

module _ {Raw : Type 0} where
  connect_follows :
      (options : TransportOptions) (made : Bool) (t : Transport Raw)
      → may_follow t.state (connect options made t).0.state ≡ true
  unfolding connect
  connect_follows options made t = ground arith

  handle_socket_error_state : (t : Transport Raw) → (handle_socket_error t).state ≡ t.state
  unfolding handle_socket_error notify_error reject_connect
  handle_socket_error_state t = ground arith

  handle_close_state :
      (code : ℕ) (reason : String) (t : Transport Raw) → (handle_close code reason t).state ≡ closed
  unfolding handle_close
  handle_close_state code reason t = refl

  handshake_timeout_state : (t : Transport Raw) → (handshake_timeout t).state ≡ closing
  unfolding handshake_timeout force_close
  handshake_timeout_state t = refl

  watchdog_follows :
      (now : ℕ) (t : Transport Raw)
      → t.state ≡ ready
      → may_follow t.state (watchdog now t).state ≡ true
  unfolding watchdog force_close
  watchdog_follows now t live = ground arith

  subscribe_state : (handler : ℕ) (t : Transport Raw) → (subscribe handler t).state ≡ t.state
  unfolding subscribe
  subscribe_state handler t = refl

  unsubscribe_state : (handler : ℕ) (t : Transport Raw) → (unsubscribe handler t).state ≡ t.state
  unfolding unsubscribe
  unsubscribe_state handler t = refl

module _ {Raw : Type 0} (c : Codec Raw) (takes : List (SocketCall Raw) → Raw → Bool) where
  close_follows :
      (now : ℕ) (t : Transport Raw) → may_follow t.state (close c takes now t).state ≡ true
  unfolding close
  close_follows now t = ground arith

  handle_open_follows :
      (now : ℕ) (t : Transport Raw) → may_follow t.state (handle_open c takes now t).state ≡ true
  unfolding handle_open
  handle_open_follows now t = ground (
    arith,
    send_typed-IsLike c takes "hello" now (hello_payload c takes t.options)
        (record t { state = handshaking; last_activity_ms = now }),
  )

  handle_decoded_follows :
      (now : ℕ) (raw : Raw) (r : Result ProtocolEnvelope) (t : Transport Raw)
      → may_follow t.state (handle_decoded c now raw r t).state ≡ true
  unfolding handle_decoded notify_envelope complete_handshake
  handle_decoded_follows now raw (err e) t = ground arith
  handle_decoded_follows now raw (ok envelope) t = ground arith

  handle_message_follows :
      (now : ℕ) (raw : Raw) (t : Transport Raw)
      → may_follow t.state (handle_message c now raw t).state ≡ true
  unfolding handle_message
  handle_message_follows now raw t =
      handle_decoded_follows now raw (decode_message c raw)
        (record t { last_activity_ms = now; last_inbound_ms = now })

  -- An event leaves a well-formed transport in its state or moves it along the diagram of its
  -- life: idle, connecting, handshaking, ready, closing, closed, with no way back and ready
  -- reached from handshaking only.
  pub step_follows :
      (now : ℕ) (e : Event Raw) (t : Transport Raw)
      → IsTransport t
      → may_follow t.state (step c takes now e t).state ≡ true
  unfolding step
  step_follows now (connect_to options made) t v = connect_follows options made t
  step_follows now (add_handler handler) t v = same_follows _ _ (subscribe_state handler t)
  step_follows now (remove_handler handler) t v = same_follows _ _ (unsubscribe_state handler t)
  step_follows now (send_raw raw) t v = same_follows _ _ (send-IsLike c takes now raw t).state
  step_follows now (send_envelope envelope) t v =
      same_follows _ _ (send_message-IsLike c takes now envelope t).state
  step_follows now (send_payload type payload) t v =
      same_follows _ _ (send_typed-IsLike c takes type now payload t).state
  step_follows now (leave payload) t v =
      same_follows _ _ (send_leave-IsLike c takes now payload t).state
  step_follows now close_it t v = close_follows now t
  step_follows now socket_opens t v =
      ground (arith, handle_open_follows now (record t { socket = t.socket ++ opened ∷ [] }))
  step_follows now socket_errs t v = ground (arith, handle_socket_error_state t)
  step_follows now (socket_gets raw) t v = ground (arith, handle_message_follows now raw t)
  step_follows now (socket_closes code reason) t v =
      ground (arith, handle_close_state code reason t)
  step_follows now handshake_ends t v = ground (arith, handshake_timeout_state t)
  step_follows now ping_due t v = ground (arith, (send_ping-IsLike c takes now t).state)
  step_follows now watchdog_due t v = ground (arith, watchdog_follows now t)
