-- ===== src/Transport/Quiet.antt =====
-- What a transport sends leaves its state, its timers and its promise alone.
use agentic_rpgmaker.Base.{ℕ, suc, Bool, true, none, some, List, String, whole, arith}
use agentic_rpgmaker.Protocol.{
  Fields, ProtocolEnvelope, Result, ok, err, Codec, field, end, number, build_envelope,
  encode_message,
}
use agentic_rpgmaker.Transport.State.{SocketCall, Transport}
use agentic_rpgmaker.Transport.Messages.{
  dispatch_send, send, send_encoded, send_message, send_built, send_typed, send_leave, send_ping,
}
use agentic_rpgmaker.Transport.Invariant.{IsLike}

module _ {Raw : Type 0} (c : Codec Raw) (takes : List (SocketCall Raw) → Raw → Bool) where
  pub dispatch_send-IsLike :
      (now : ℕ) (raw : Raw) (t : Transport Raw) → IsLike t (dispatch_send c takes now raw t).0
  unfolding dispatch_send
  dispatch_send-IsLike now raw t = ground arith

  pub send-IsLike : (now : ℕ) (raw : Raw) (t : Transport Raw) → IsLike t (send c takes now raw t).0
  unfolding send
  send-IsLike now raw t = ground (arith, dispatch_send-IsLike now raw t)

  pub send_encoded-IsLike :
      (now : ℕ) (r : Result Raw) (t : Transport Raw) → IsLike t (send_encoded c takes now r t).0
  unfolding send_encoded dispatch_send
  send_encoded-IsLike now (err e) t = ground arith
  send_encoded-IsLike now (ok raw) t = ground arith

  pub send_message-IsLike :
      (now : ℕ) (envelope : ProtocolEnvelope) (t : Transport Raw)
      → IsLike t (send_message c takes now envelope t).0
  unfolding send_message
  send_message-IsLike now envelope t =
      let u = record t { seq = suc t.seq } in
      let l = send_encoded-IsLike now (encode_message c (record envelope { seq = some u.seq })) u in
      record {
        state = l.state;
        has_socket = l.has_socket;
        session_id = l.session_id;
        connect_pending = l.connect_pending;
        handshake_timer = l.handshake_timer;
        ping_timer = l.ping_timer;
        watchdog_timer = l.watchdog_timer;
        outcomes = l.outcomes;
        last_inbound_ms = l.last_inbound_ms;
        options = l.options;
      }

  pub send_built-IsLike :
      (now : ℕ) (r : Result ProtocolEnvelope) (t : Transport Raw)
      → IsLike t (send_built c takes now r t).0
  unfolding send_built
  send_built-IsLike now (err e) t = ground arith
  send_built-IsLike now (ok envelope) t = send_message-IsLike now envelope t

  pub send_typed-IsLike :
      (type : String) (now : ℕ) (payload : Fields) (t : Transport Raw)
      → IsLike t (send_typed c takes type now payload t).0
  unfolding send_typed
  send_typed-IsLike type now payload t =
      send_built-IsLike now (build_envelope c type payload none) t

  pub send_leave-IsLike :
      (now : ℕ) (payload : Fields) (t : Transport Raw)
      → IsLike t (send_leave c takes now payload t).0
  unfolding send_leave
  send_leave-IsLike now payload t =
      ground (arith, send_typed-IsLike "leave" now payload (record t { leave_sent = true }))

  pub send_ping-IsLike : (now : ℕ) (t : Transport Raw) → IsLike t (send_ping c takes now t)
  unfolding send_ping
  send_ping-IsLike now t = ground (
    arith,
    send_typed-IsLike "ping" now (field "clientTimeMs" (number (whole now)) end)
        (record t { last_activity_ms = now }),
  )
