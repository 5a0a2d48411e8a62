-- ===== src/Transport/Messages.antt =====
-- The messages that a transport sends and gets, in packages/runtime/src/websocket-transport.ts. The
-- codec and the socket are parameters: `takes` says whether a socket that was given some calls takes
-- a message or throws. The clock stands still within one call.
use agentic_rpgmaker.Base.{
  ℕ, suc, Bool, true, false, not, ◌&&◌, ◌||◌, Option, none, some, List, [], ◌∷◌, ◌++◌, map, String,
  if◌then◌else◌, ◌==◌, or_else, whole, String_eq, ℕ_eq,
}
use agentic_rpgmaker.Protocol.{
  number, text, Fields, end, field, ProtocolEnvelope, Result, ok, err, Codec, encode_message,
  decode_message, build_envelope,
}
use agentic_rpgmaker.Transport.State.{
  handshaking, closing, TransportOptions, SocketCall, sent, decode_error, message_call, Transport,
  is_idle, is_closed, is_ready, is_connecting, is_handshaking,
}
use agentic_rpgmaker.Transport.Socket.{
  stop_timers, close_with, notify_error, complete_handshake, notify_envelope,
}

module _ {Raw : Type 0} (c : Codec Raw) where
  unfoldable pub handle_decoded : ℕ → Raw → Result ProtocolEnvelope → Transport Raw → Transport Raw
  unfolding notify_error complete_handshake notify_envelope
  handle_decoded now raw (err e) t = notify_error (decode_error e) t
  handle_decoded now raw (ok envelope) t =
      let t1 =
        if envelope.type == "welcome" && is_handshaking t.state
        then complete_handshake envelope t
        else t in
      let t2 = notify_envelope now envelope raw t1 in
      record t2 { told = t2.told ++ map (λ (h : ℕ). message_call h raw) t2.message_handlers }

  -- `handleMessage`
  unfoldable pub handle_message : ℕ → Raw → Transport Raw → Transport Raw
  unfolding decode_message handle_decoded
  handle_message now raw t =
      handle_decoded now raw (decode_message c raw)
        (record t { last_activity_ms = now; last_inbound_ms = now })

module _ {Raw : Type 0} (c : Codec Raw) (takes : List (SocketCall Raw) → Raw → Bool) where
  -- `dispatchSend`, and whether it returned
  unfoldable pub dispatch_send : ℕ → Raw → Transport Raw → Transport Raw × Bool
  dispatch_send now raw t =
      let t1 = record t { last_activity_ms = now } in
      if t1.has_socket
      then if takes t1.socket raw
        then (record t1 { socket = t1.socket ++ sent raw ∷ [] }, true)
        else (t1, false)
      else (t1, true)

  -- `send`
  unfoldable pub send : ℕ → Raw → Transport Raw → Transport Raw × Bool
  unfolding dispatch_send
  send now raw t = if is_ready t.state then dispatch_send now raw t else (t, true)

  unfoldable pub send_encoded : ℕ → Result Raw → Transport Raw → Transport Raw × Bool
  unfolding dispatch_send
  send_encoded now (err e) t = (t, false)
  send_encoded now (ok raw) t =
      if is_idle t.state || is_closed t.state then (t, false) else dispatch_send now raw t

  -- `sendMessage`
  unfoldable pub send_message : ℕ → ProtocolEnvelope → Transport Raw → Transport Raw × Bool
  unfolding encode_message send_encoded
  send_message now envelope t =
      let t1 = record t { seq = suc t.seq } in
      send_encoded now (encode_message c (record envelope { seq = some t1.seq })) t1

  -- A message that is built first; `none` stands for the error that the builder throws.
  unfoldable pub send_built :
      ℕ → Result ProtocolEnvelope → Transport Raw → Transport Raw × Option Bool
  unfolding send_message
  send_built now (err e) t = (t, none)
  send_built now (ok envelope) t = let (t1, done) = send_message now envelope t in (t1, some done)

  -- `sendHello`, `sendPlayerState` and `sendChat` differ in the type of the message.
  unfoldable pub send_typed : String → ℕ → Fields → Transport Raw → Transport Raw × Option Bool
  unfolding build_envelope send_built
  send_typed type now payload t = send_built now (build_envelope c type payload none) t

  -- `sendLeave`
  unfoldable pub send_leave : ℕ → Fields → Transport Raw → Transport Raw × Option Bool
  unfolding send_typed
  send_leave now payload t =
      if is_ready t.state
      then send_typed "leave" now payload (record t { leave_sent = true })
      else (t, some false)

  -- `close`
  unfoldable pub close : ℕ → Transport Raw → Transport Raw
  unfolding send_leave stop_timers
  close now t =
      if is_idle t.state || is_closed t.state
      then t
      else (let t1 =
            if is_ready t.state && not t.leave_sent
            then (send_leave now (field "reason" (text "user_quit") end) t).0
            else t in
          close_with 1000 "client_close" (stop_timers (record t1 { state = closing })))

  abbrev pub project_field : Option String → Fields
  project_field none = end
  project_field (some id) = field "projectId" (text id) end

  abbrev pub hello_payload : TransportOptions → Fields
  hello_payload o =
      field "playerName" (text (or_else o.player_name "Player"))
        (field "roomId" (text (or_else o.room_id "default")) (project_field o.project_id))

  -- The timer is set unless the hello threw.
  abbrev pub arm_handshake : Transport Raw × Option Bool → Transport Raw
  arm_handshake (t, none) = t
  arm_handshake (t, some done) = record t { handshake_timer = true }

  -- `handleOpen`
  unfoldable pub handle_open : ℕ → Transport Raw → Transport Raw
  unfolding send_typed
  handle_open now t =
      if is_connecting t.state
      then arm_handshake (
          send_typed "hello" now (hello_payload t.options)
            (record t { state = handshaking; last_activity_ms = now }))
      else t

  -- `sendPing`
  unfoldable pub send_ping : ℕ → Transport Raw → Transport Raw
  unfolding send_typed
  send_ping now t =
      if is_ready t.state
      then (send_typed "ping" now (field "clientTimeMs" (number (whole now)) end)
          (record t { last_activity_ms = now })).0
      else t
