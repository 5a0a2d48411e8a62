-- ===== src/Transport/Promise.antt =====
-- What resolves the promise of `connect`.
use agentic_rpgmaker.Base.{
  ℕ, ◌≡◌, refl, ap, ◌∙◌, ◌⊎◌, Bool, true, false, ◌&&◌, List, [], ◌∷◌, ◌++◌, String, ◌==◌, any,
  any-append, String_eq, arith, Bool-cases, inl, inr,
}
use agentic_rpgmaker.Protocol.{
  ProtocolEnvelope, Result, ok, err, Codec, field, end, text, decode_message,
}
use agentic_rpgmaker.Transport.State.{
  handshaking, TransportOptions, SocketCall, opened, TransportError, socket_error,
  handshake_timed_out, closed_before_ready, Transport, Outcome, resolved, rejected, make_transport,
  is_handshaking,
}
use agentic_rpgmaker.Transport.Socket.{
  stop_timers, force_close, reject_connect, notify_error, notify_envelope, handle_socket_error,
  handle_close, handshake_timeout, watchdog, connect,
}
use agentic_rpgmaker.Transport.Messages.{
  close, hello_payload, handle_open, handle_decoded, handle_message,
}
use agentic_rpgmaker.Transport.Run.{
  Event, connect_to, add_handler, remove_handler, send_raw, send_envelope, send_payload, leave,
  close_it, socket_opens, socket_errs, socket_gets, socket_closes, handshake_ends, ping_due,
  watchdog_due, subscribe, unsubscribe, step, run,
}
use agentic_rpgmaker.Transport.Invariant.{IsLike}
use agentic_rpgmaker.Transport.Quiet.{
  send-IsLike, send_message-IsLike, send_typed-IsLike, send_leave-IsLike, send_ping-IsLike,
}

abbrev is_resolved : Outcome → Bool
is_resolved resolved = true
is_resolved (rejected e) = false

-- The promise of `connect` was resolved.
abbrev pub has_resolved : {Raw : Type 0} → Transport Raw → Bool
has_resolved t = any is_resolved t.outcomes

module _ {Raw : Type 0} where
  rejected_resolves :
      (error : TransportError) (t : Transport Raw)
      → has_resolved (reject_connect error t) ≡ has_resolved t
  unfolding reject_connect
  rejected_resolves error t =
      ground (arith, any-append is_resolved t.outcomes (rejected error ∷ []))

  connect_resolves :
      (options : TransportOptions) (made : Bool) (t : Transport Raw)
      → has_resolved (connect options made t).0 ≡ has_resolved t
  unfolding connect
  connect_resolves options made t = ground arith

  handle_socket_error_resolves :
      (t : Transport Raw) → has_resolved (handle_socket_error t) ≡ has_resolved t
  unfolding handle_socket_error notify_error
  handle_socket_error_resolves t =
      ground (arith, rejected_resolves socket_error (notify_error socket_error t))

  handle_close_resolves :
      (code : ℕ) (reason : String) (t : Transport Raw)
      → has_resolved (handle_close code reason t) ≡ has_resolved t
  unfolding handle_close stop_timers
  handle_close_resolves code reason t =
      ground (arith, rejected_resolves (closed_before_ready reason) (stop_timers t))

  handshake_timeout_resolves :
      (t : Transport Raw) → has_resolved (handshake_timeout t) ≡ has_resolved t
  unfolding handshake_timeout force_close
  handshake_timeout_resolves t = rejected_resolves handshake_timed_out t

  watchdog_resolves : (now : ℕ) (t : Transport Raw) → has_resolved (watchdog now t) ≡ has_resolved t
  unfolding watchdog force_close
  watchdog_resolves now t = ground arith

  subscribe_resolves :
      (handler : ℕ) (t : Transport Raw) → has_resolved (subscribe handler t) ≡ has_resolved t
  unfolding subscribe
  subscribe_resolves handler t = refl

  unsubscribe_resolves :
      (handler : ℕ) (t : Transport Raw) → has_resolved (unsubscribe handler t) ≡ has_resolved t
  unfolding unsubscribe
  unsubscribe_resolves handler t = refl

  like_resolves : (t u : Transport Raw) → IsLike t u → has_resolved u ≡ has_resolved t
  like_resolves t u l = ap (any is_resolved) l.outcomes

module _ {Raw : Type 0} (c : Codec Raw) where
  -- The transport shakes hands, and gets a `welcome`.
  abbrev pub IsWelcomed : Raw → Transport Raw → Type 0
  IsWelcomed raw t =
      (m : ProtocolEnvelope) × (decode_message c raw ≡ ok m)
      × ((m.type == "welcome") ≡ true)
      × (t.state ≡ handshaking)

  handle_decoded_resolves :
      (now : ℕ) (raw : Raw) (r : Result ProtocolEnvelope) (t : Transport Raw)
      → (has_resolved (handle_decoded c now raw r t) ≡ has_resolved t)
        ⊎ ((m : ProtocolEnvelope) × (r ≡ ok m)
            × ((m.type == "welcome") ≡ true)
            × (t.state ≡ handshaking))
  unfolding handle_decoded notify_envelope notify_error
  handle_decoded_resolves now raw (err e) t = inl refl
  handle_decoded_resolves now raw (ok m) t =
      elim (Bool-cases (m.type == "welcome" && is_handshaking t.state)) [
        | inl welcomed ↦ inr (m, refl, ground arith, ground arith)
        | inr other ↦ inl (rw other (ground arith))
      ]

  handle_message_resolves :
      (now : ℕ) (raw : Raw) (t : Transport Raw)
      → (has_resolved (handle_message c now raw t) ≡ has_resolved t) ⊎ IsWelcomed raw t
  unfolding handle_message
  handle_message_resolves now raw t =
      handle_decoded_resolves now raw (decode_message c raw)
        (record t { last_activity_ms = now; last_inbound_ms = now })

module _ {Raw : Type 0} (c : Codec Raw) (takes : List (SocketCall Raw) → Raw → Bool) where
  close_resolves :
      (now : ℕ) (t : Transport Raw) → has_resolved (close c takes now t) ≡ has_resolved t
  unfolding close
  close_resolves now t = ground (
    arith,
    like_resolves t _ (send_leave-IsLike c takes now (field "reason" (text "user_quit") end) t),
  )

  handle_open_resolves :
      (now : ℕ) (t : Transport Raw) → has_resolved (handle_open c takes now t) ≡ has_resolved t
  unfolding handle_open
  handle_open_resolves now t =
      let u = record t { state = handshaking; last_activity_ms = now } in
      ground (
        arith,
        like_resolves u _
            (send_typed-IsLike c takes "hello" now (hello_payload c takes t.options) u),
      )

  -- A step that changes whether the promise was resolved is a welcome.
  abbrev IsWelcome : Event Raw → Transport Raw → Type 0
  IsWelcome e t = (raw : Raw) × (e ≡ socket_gets raw) × IsWelcomed c raw t

  step_resolves :
      (now : ℕ) (e : Event Raw) (t : Transport Raw)
      → (has_resolved (step c takes now e t) ≡ has_resolved t) ⊎ IsWelcome e t
  unfolding step
  step_resolves now (connect_to options made) t = inl (connect_resolves options made t)
  step_resolves now (add_handler handler) t = inl (subscribe_resolves handler t)
  step_resolves now (remove_handler handler) t = inl (unsubscribe_resolves handler t)
  step_resolves now (send_raw raw) t = inl (like_resolves t _ (send-IsLike c takes now raw t))
  step_resolves now (send_envelope envelope) t =
      inl (like_resolves t _ (send_message-IsLike c takes now envelope t))
  step_resolves now (send_payload type payload) t =
      inl (like_resolves t _ (send_typed-IsLike c takes type now payload t))
  step_resolves now (leave payload) t =
      inl (like_resolves t _ (send_leave-IsLike c takes now payload t))
  step_resolves now close_it t = inl (close_resolves now t)
  step_resolves now socket_opens t =
      inl (ground (arith, handle_open_resolves now (record t { socket = t.socket ++ opened ∷ [] })))
  step_resolves now socket_errs t = inl (ground (arith, handle_socket_error_resolves t))
  step_resolves now (socket_gets raw) t = elim (handle_message_resolves c now raw t) [
    | inl same ↦ inl (ground arith)
    | inr welcomed ↦ inr (raw, refl, welcomed)
  ]
  step_resolves now (socket_closes code reason) t =
      inl (ground (arith, handle_close_resolves code reason t))
  step_resolves now handshake_ends t = inl (ground (arith, handshake_timeout_resolves t))
  step_resolves now ping_due t =
      inl (ground (arith, like_resolves t _ (send_ping-IsLike c takes now t)))
  step_resolves now watchdog_due t = inl (ground (arith, watchdog_resolves now t))

  -- Some event of the run is a welcome.
  abbrev pub HasWelcome : List (ℕ × Event Raw) → Transport Raw → Type 0
  HasWelcome es t =
      (before : List (ℕ × Event Raw)) × (now : ℕ) × (raw : Raw) × (after : List (ℕ × Event Raw))
      × (es ≡ before ++ (now, socket_gets raw) ∷ after)
      × IsWelcomed c raw (run c takes before t)

  later :
      (now : ℕ) (e : Event Raw) (es : List (ℕ × Event Raw)) (t : Transport Raw)
      → HasWelcome es (step c takes now e t)
      → HasWelcome ((now, e) ∷ es) t
  unfolding run
  later now e es t (before, at, raw, after, split, welcomed) =
      ((now, e) ∷ before, at, raw, after, ap (λ r. (now, e) ∷ r) split, welcomed)

  resolved_by :
      (es : List (ℕ × Event Raw)) (t : Transport Raw)
      → has_resolved t ≡ false
      → has_resolved (run c takes es t) ≡ true
      → HasWelcome es t
  unfolding run
  resolved_by [] t not_yet h = cc
  resolved_by ((now, e) ∷ es) t not_yet h = elim (step_resolves now e t) [
    | inl same ↦ later now e es t (resolved_by es (step c takes now e t) (same ∙ not_yet) h)
    | inr (raw, gets, welcomed) ↦ ([], now, raw, es, ap (λ x. (now, x) ∷ es) gets, welcomed)
  ]

  -- If the promise of `connect` of a new transport was resolved, some message of the run was
  -- decoded as a `welcome` while the transport was shaking hands.
  pub run_resolved :
      (es : List (ℕ × Event Raw))
      → has_resolved (run c takes es make_transport) ≡ true
      → HasWelcome es make_transport
  unfolding make_transport
  run_resolved es h = resolved_by es make_transport refl h
