-- ===== src/Transport/Run.antt =====
-- What may happen to a transport: calls of its methods, events of its socket, and timers. A socket
-- that was given up or that closed has no events, and a timer that is not armed does not go off.
use agentic_rpgmaker.Base.{ℕ, ℕ_eq, Bool, List, [], ◌∷◌, ◌++◌, String, if◌then◌else◌}
use agentic_rpgmaker.Base.Dict.{remove_all}
use agentic_rpgmaker.Protocol.{Fields, ProtocolEnvelope, Codec}
use agentic_rpgmaker.Transport.State.{TransportOptions, SocketCall, opened, Transport}
use agentic_rpgmaker.Transport.Socket.{
  on_message, on_envelope, on_close, on_error, handle_socket_error, handle_close, handshake_timeout,
  watchdog, connect,
}
use agentic_rpgmaker.Transport.Messages.{
  send, send_message, send_typed, send_leave, close, handle_open, handle_message, send_ping,
}

pub data Event (Raw : Type 0) : Type 0 where
  connect_to : TransportOptions → (made : Bool) → Event Raw
  add_handler remove_handler : (handler : ℕ) → Event Raw
  send_raw : Raw → Event Raw
  send_envelope : ProtocolEnvelope → Event Raw
  send_payload : (type : String) → Fields → Event Raw
  leave : Fields → Event Raw
  close_it socket_opens socket_errs : Event Raw
  socket_gets : Raw → Event Raw
  socket_closes : (code : ℕ) (reason : String) → Event Raw
  handshake_ends ping_due watchdog_due : Event Raw

unfoldable pub subscribe : {Raw : Type 0} → ℕ → Transport Raw → Transport Raw
unfolding on_message on_envelope on_close on_error
subscribe handler t =
    on_message handler (on_envelope handler (on_close handler (on_error handler t)))

-- The functions that `onMessage` and the others return.
unfoldable pub unsubscribe : {Raw : Type 0} → ℕ → Transport Raw → Transport Raw
unfolding remove_all
unsubscribe handler t = record t {
  message_handlers = remove_all handler t.message_handlers;
  envelope_handlers = remove_all handler t.envelope_handlers;
  close_handlers = remove_all handler t.close_handlers;
  error_handlers = remove_all handler t.error_handlers;
}

module _ {Raw : Type 0} (c : Codec Raw) (takes : List (SocketCall Raw) → Raw → Bool) where
  unfoldable pub step : ℕ → Event Raw → Transport Raw → Transport Raw
  unfolding subscribe unsubscribe send send_message send_typed send_leave close handle_open
      handle_message send_ping handle_socket_error handle_close handshake_timeout watchdog connect
  step now (connect_to options made) t = (connect options made t).0
  step now (add_handler handler) t = subscribe handler t
  step now (remove_handler handler) t = unsubscribe handler t
  step now (send_raw raw) t = (send c takes now raw t).0
  step now (send_envelope envelope) t = (send_message c takes now envelope t).0
  step now (send_payload type payload) t = (send_typed c takes type now payload t).0
  step now (leave payload) t = (send_leave c takes now payload t).0
  step now close_it t = close c takes now t
  step now socket_opens t =
      if t.has_socket
      then handle_open c takes now (record t { socket = t.socket ++ opened ∷ [] })
      else t
  step now socket_errs t = if t.has_socket then handle_socket_error t else t
  step now (socket_gets raw) t = if t.has_socket then handle_message c now raw t else t
  step now (socket_closes code reason) t = if t.has_socket then handle_close code reason t else t
  step now handshake_ends t = if t.handshake_timer then handshake_timeout t else t
  step now ping_due t = if t.ping_timer then send_ping c takes now t else t
  step now watchdog_due t = if t.watchdog_timer then watchdog now t else t

  unfoldable pub run : List (ℕ × Event Raw) → Transport Raw → Transport Raw
  unfolding step
  run [] t = t
  run ((now, e) ∷ es) t = run es (step now e t)
