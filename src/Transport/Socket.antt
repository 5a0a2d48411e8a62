-- ===== src/Transport/Socket.antt =====
-- The handlers of a transport, its timers and the events of its socket that carry no message, in
-- packages/runtime/src/websocket-transport.ts.
use agentic_rpgmaker.Base.{
  ℕ, ◌-◌, Bool, true, false, not, ◌&&◌, ◌||◌, Option, none, some, List, [], ◌∷◌, ◌++◌, map, String,
  if◌then◌else◌, ◌==◌, ltb, ℤ, ◌-ℤ◌, whole, String_eq, ℕ_eq,
}
use agentic_rpgmaker.Base.Dict.{includes}
use agentic_rpgmaker.Protocol.{Json, null, number, Fields, ProtocolEnvelope, property}
use agentic_rpgmaker.Transport.State.{
  connecting, ready, closing, closed, TransportOptions, close_socket, TransportError, socket_error,
  handshake_timed_out, closed_before_ready, resolved, rejected, envelope_call, close_call,
  error_call, Transport, is_idle, is_ready, is_connecting, is_handshaking,
}

-- `Set.prototype.add`
abbrev add : ℕ → List ℕ → List ℕ
unfolding includes
add handler set = if includes handler set then set else set ++ handler ∷ []

-- `o ?? null`
abbrev pub or_null : Option Json → Option Json
or_null (some null) = none
or_null none = none
or_null (some value) = some value

abbrev pub latency : ℕ → Option Json → Option ℤ → Option ℤ
unfolding ◌-ℤ◌
latency now (some (number client_time)) old = some (whole now -ℤ client_time)
latency now _ old = old

module _ {Raw : Type 0} where
  unfoldable pub on_message : ℕ → Transport Raw → Transport Raw
  unfolding add
  on_message handler t = record t { message_handlers = add handler t.message_handlers }

  unfoldable pub on_envelope : ℕ → Transport Raw → Transport Raw
  unfolding add
  on_envelope handler t = record t { envelope_handlers = add handler t.envelope_handlers }

  unfoldable pub on_close : ℕ → Transport Raw → Transport Raw
  unfolding add
  on_close handler t = record t { close_handlers = add handler t.close_handlers }

  unfoldable pub on_error : ℕ → Transport Raw → Transport Raw
  unfolding add
  on_error handler t = record t { error_handlers = add handler t.error_handlers }

  unfoldable pub stop_timers : Transport Raw → Transport Raw
  stop_timers t = record t { handshake_timer = false; ping_timer = false; watchdog_timer = false }

  abbrev pub close_with : ℕ → String → Transport Raw → Transport Raw
  close_with code reason t = record t {
    socket = if t.has_socket then t.socket ++ close_socket code reason ∷ [] else t.socket;
  }

  -- `forceClose`
  unfoldable pub force_close : ℕ → String → Transport Raw → Transport Raw
  unfolding stop_timers
  force_close code reason t = close_with code reason (record (stop_timers t) { state = closing })

  -- `rejectConnect`
  unfoldable pub reject_connect : TransportError → Transport Raw → Transport Raw
  reject_connect error t = record t {
    outcomes = if t.connect_pending then t.outcomes ++ rejected error ∷ [] else t.outcomes;
    connect_pending = false;
  }

  -- `notifyError`
  unfoldable pub notify_error : TransportError → Transport Raw → Transport Raw
  notify_error error t = record t {
    told = t.told ++ map (λ (h : ℕ). error_call h error) t.error_handlers;
  }

  -- `startHeartbeat`
  unfoldable pub start_heartbeat : Transport Raw → Transport Raw
  unfolding stop_timers
  start_heartbeat t = record (stop_timers t) { ping_timer = true; watchdog_timer = true }

  -- `completeHandshake`
  unfoldable pub complete_handshake : ProtocolEnvelope → Transport Raw → Transport Raw
  unfolding start_heartbeat property
  complete_handshake envelope t = start_heartbeat (record t {
    handshake_timer = false;
    session_id = or_null (property "sessionId" envelope.payload);
    state = ready;
    outcomes = if t.connect_pending then t.outcomes ++ resolved ∷ [] else t.outcomes;
    connect_pending = false;
  })

  -- `handlePong`
  unfoldable pub handle_pong : ℕ → Fields → Transport Raw → Transport Raw
  unfolding latency property
  handle_pong now payload t = record t {
    latency_ms = latency now (property "clientTimeMs" payload) t.latency_ms;
  }

  -- `notifyEnvelope`
  unfoldable pub notify_envelope : ℕ → ProtocolEnvelope → Raw → Transport Raw → Transport Raw
  unfolding handle_pong
  notify_envelope now envelope raw t =
      let t1 = if envelope.type == "pong" then handle_pong now envelope.payload t else t in
      record t1 {
        told = t1.told ++ map (λ (h : ℕ). envelope_call h envelope raw) t1.envelope_handlers;
      }

  -- `handleSocketError`
  unfoldable pub handle_socket_error : Transport Raw → Transport Raw
  unfolding notify_error reject_connect
  handle_socket_error t =
      let t1 = notify_error socket_error t in
      if is_connecting t.state || is_handshaking t.state then reject_connect socket_error t1 else t1

  -- `handleClose`
  unfoldable pub handle_close : ℕ → String → Transport Raw → Transport Raw
  unfolding stop_timers reject_connect
  handle_close code reason t =
      let t1 = stop_timers t in
      let t2 =
        if t1.connect_pending && not (is_ready t1.state)
        then reject_connect (closed_before_ready reason) t1
        else t1 in
      record t2 {
        state = closed;
        session_id = none;
        has_socket = false;
        told = t2.told ++ map (λ (h : ℕ). close_call h code reason) t2.close_handlers;
      }

  -- The timer of the handshake.
  unfoldable pub handshake_timeout : Transport Raw → Transport Raw
  unfolding reject_connect force_close
  handshake_timeout t = force_close 1000 "handshake_timeout" (reject_connect handshake_timed_out t)

  -- The timer of the watchdog.
  unfoldable pub watchdog : ℕ → Transport Raw → Transport Raw
  unfolding force_close
  watchdog now t =
      if ltb t.options.timeout_ms (now - t.last_inbound_ms)
      then force_close 4000 "heartbeat_timeout" t
      else t

  -- `connect`, where `made` says that the factory gave a socket; a call from another state than `idle`
  -- gives a promise of its own, which is rejected.
  unfoldable pub connect : TransportOptions → (made : Bool) → Transport Raw → Transport Raw × Bool
  connect options made t =
      if is_idle t.state
      then (let t1 = record t {
        options = options;
        seq = 0;
        session_id = none;
        leave_sent = false;
        state = if made then connecting else closed;
      } in
          if made
          then (record t1 { has_socket = true; connect_pending = true }, true)
          else (t1, false))
      else (t, false)
