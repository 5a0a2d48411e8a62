-- ===== src/Transport/Lifecycle.antt =====
-- The life of a transport: whatever happens to it, its state agrees with the rest.
use agentic_rpgmaker.Base.{
  ℕ, ◌≡◌, Bool, true, ◌&&◌, Option, none, some, List, [], ◌∷◌, ◌++◌, ◌==◌, String_eq, arith,
  Bool-cases, inl, inr,
}
use agentic_rpgmaker.Protocol.{
  ProtocolEnvelope, Result, ok, err, Codec, field, end, text, decode_message,
}
use agentic_rpgmaker.Transport.State.{
  connecting, handshaking, ready, SocketCall, opened, TransportError, decode_error,
  handshake_timed_out, Transport, is_connecting, is_handshaking,
}
use agentic_rpgmaker.Transport.Socket.{
  reject_connect, complete_handshake, handshake_timeout, watchdog,
}
use agentic_rpgmaker.Transport.Messages.{
  send_typed, close, arm_handshake, hello_payload, handle_open, handle_decoded, handle_message,
}
use agentic_rpgmaker.Transport.Run.{
  Event, connect_to, add_handler, remove_handler, send_raw, send_envelope, send_payload, leave,
  close_it, socket_opens, socket_errs, socket_gets, socket_closes, handshake_ends, ping_due,
  watchdog_due, subscribe, unsubscribe, step, run,
}
use agentic_rpgmaker.Transport.Invariant.{
  IsTransport, is_connected, like-IsTransport, rejected-IsTransport, notified-IsTransport,
  handle_socket_error-IsTransport, force_close-IsTransport, handle_close-IsTransport,
  complete_handshake-IsTransport, informed-IsTransport, connect-IsTransport,
}
use agentic_rpgmaker.Transport.Quiet.{
  send-IsLike, send_message-IsLike, send_typed-IsLike, send_leave-IsLike, send_ping-IsLike,
}

module _ {Raw : Type 0} (c : Codec Raw) (takes : List (SocketCall Raw) → Raw → Bool) where
  close-IsTransport :
      (now : ℕ) (t : Transport Raw) → IsTransport t → IsTransport (close c takes now t)
  unfolding close
  close-IsTransport now t v =
      ground (arith, send_leave-IsLike c takes now (field "reason" (text "user_quit") end) t)

  arm_handshake-IsTransport :
      (t : Transport Raw) (o : Option Bool)
      → t.state ≡ handshaking
      → IsTransport t
      → IsTransport (arm_handshake c takes (t, o))
  arm_handshake-IsTransport t none live v = v
  arm_handshake-IsTransport t (some done) live v = ground arith

  opened-IsTransport :
      (now : ℕ) (t : Transport Raw)
      → t.state ≡ connecting
      → IsTransport t
      → IsTransport (record t { state = handshaking; last_activity_ms = now })
  opened-IsTransport now t live v = ground arith

  handle_open-IsTransport :
      (now : ℕ) (t : Transport Raw) → IsTransport t → IsTransport (handle_open c takes now t)
  unfolding handle_open
  handle_open-IsTransport now t v = elim (Bool-cases (is_connecting t.state)) [
    | inl waiting ↦
        let u = record t { state = handshaking; last_activity_ms = now } in
        let l = send_typed-IsLike c takes "hello" now (hello_payload c takes t.options) u in
        let sent = send_typed c takes "hello" now (hello_payload c takes t.options) u in
        rw waiting (
          arm_handshake-IsTransport sent.0 sent.1 l.state
            (like-IsTransport u sent.0 l (opened-IsTransport now t (ground arith) v)))
    | inr other ↦ rw other v
  ]

  handle_decoded-IsTransport :
      (now : ℕ) (raw : Raw) (r : Result ProtocolEnvelope) (t : Transport Raw)
      → IsTransport t
      → IsTransport (handle_decoded c now raw r t)
  unfolding handle_decoded
  handle_decoded-IsTransport now raw (err e) t v = notified-IsTransport (decode_error e) t v
  handle_decoded-IsTransport now raw (ok envelope) t v =
      elim (Bool-cases (envelope.type == "welcome" && is_handshaking t.state)) [
        | inl welcomed ↦
            let u = complete_handshake envelope t in
            let w = complete_handshake-IsTransport envelope t (ground arith) v in
            rw welcomed (informed-IsTransport now envelope raw _ u w)
        | inr other ↦ rw other (informed-IsTransport now envelope raw _ t v)
      ]

  handle_message-IsTransport :
      (now : ℕ) (raw : Raw) (t : Transport Raw)
      → IsTransport t
      → IsTransport (handle_message c now raw t)
  unfolding handle_message
  handle_message-IsTransport now raw t v =
      handle_decoded-IsTransport now raw (decode_message c raw)
        (record t { last_activity_ms = now; last_inbound_ms = now }) (ground arith)

  rejected_connected :
      (error : TransportError) (t : Transport Raw)
      → is_connected t.state ≡ true
      → is_connected (reject_connect error t).state ≡ true
  unfolding reject_connect
  rejected_connected error t live = live

  subscribed-IsTransport :
      (handler : ℕ) (t : Transport Raw) → IsTransport t → IsTransport (subscribe handler t)
  unfolding subscribe
  subscribed-IsTransport handler t v = ground arith

  unsubscribed-IsTransport :
      (handler : ℕ) (t : Transport Raw) → IsTransport t → IsTransport (unsubscribe handler t)
  unfolding unsubscribe
  unsubscribed-IsTransport handler t v = ground arith

  timed_out-IsTransport :
      (t : Transport Raw)
      → t.state ≡ handshaking
      → IsTransport t
      → IsTransport (handshake_timeout t)
  unfolding handshake_timeout
  timed_out-IsTransport t live v =
      force_close-IsTransport 1000 "handshake_timeout" (reject_connect handshake_timed_out t)
        (rejected_connected handshake_timed_out t (ground arith))
        (rejected-IsTransport handshake_timed_out t v)

  watchdog-IsTransport :
      (now : ℕ) (t : Transport Raw) → t.state ≡ ready → IsTransport t → IsTransport (watchdog now t)
  unfolding watchdog
  watchdog-IsTransport now t live v =
      ground (arith, force_close-IsTransport 4000 "heartbeat_timeout" t)

  step-IsTransport :
      (now : ℕ) (e : Event Raw) (t : Transport Raw)
      → IsTransport t
      → IsTransport (step c takes now e t)
  unfolding step
  step-IsTransport now (connect_to options made) t v = connect-IsTransport options made t v
  step-IsTransport now (add_handler handler) t v = subscribed-IsTransport handler t v
  step-IsTransport now (remove_handler handler) t v = unsubscribed-IsTransport handler t v
  step-IsTransport now (send_raw raw) t v = like-IsTransport t _ (send-IsLike c takes now raw t) v
  step-IsTransport now (send_envelope envelope) t v =
      like-IsTransport t _ (send_message-IsLike c takes now envelope t) v
  step-IsTransport now (send_payload type payload) t v =
      like-IsTransport t _ (send_typed-IsLike c takes type now payload t) v
  step-IsTransport now (leave payload) t v =
      like-IsTransport t _ (send_leave-IsLike c takes now payload t) v
  step-IsTransport now close_it t v = close-IsTransport now t v
  step-IsTransport now socket_opens t v =
      ground (arith, handle_open-IsTransport now (record t { socket = t.socket ++ opened ∷ [] }))
  step-IsTransport now socket_errs t v = ground (arith, handle_socket_error-IsTransport t)
  step-IsTransport now (socket_gets raw) t v = ground (arith, handle_message-IsTransport now raw t)
  step-IsTransport now (socket_closes code reason) t v =
      ground (arith, handle_close-IsTransport code reason t)
  step-IsTransport now handshake_ends t v = ground (arith, timed_out-IsTransport t)
  step-IsTransport now ping_due t v =
      ground (arith, like-IsTransport t _ (send_ping-IsLike c takes now t) v)
  step-IsTransport now watchdog_due t v = ground (arith, watchdog-IsTransport now t)

  -- Whatever happens to a transport, it stays well-formed: the handshake timer is armed only
  -- while it shakes hands, the heartbeat timers exactly while it is ready, it holds a socket
  -- from connecting to closing, it has a session only while ready or closing, and the promise of
  -- `connect` has one outcome at most and is open only before any.
  pub run-IsTransport :
      (es : List (ℕ × Event Raw)) (t : Transport Raw)
      → IsTransport t
      → IsTransport (run c takes es t)
  unfolding run
  run-IsTransport [] t v = v
  run-IsTransport ((now, e) ∷ es) t v =
      run-IsTransport es (step c takes now e t) (step-IsTransport now e t v)
