-- ===== src/Transport/Silence.antt =====
-- A server that says nothing, and one that says what is not understood.
use agentic_rpgmaker.Base.{
  ℕ, ◌≤◌, ◌<◌, ◌-◌, ◌≡◌, refl, Bool, true, false, List, [], ◌∷◌, All, String_eq, arith, inl, ◌⊎◌,
}
use agentic_rpgmaker.Protocol.{Codec}
use agentic_rpgmaker.Transport.State.{ready, closing, SocketCall, Transport}
use agentic_rpgmaker.Transport.Socket.{force_close, watchdog}
use agentic_rpgmaker.Transport.Run.{
  Event, connect_to, add_handler, remove_handler, send_raw, send_envelope, send_payload, leave,
  close_it, socket_opens, socket_errs, socket_gets, socket_closes, handshake_ends, ping_due,
  watchdog_due, step, run,
}
use agentic_rpgmaker.Transport.Invariant.{IsTransport, IsLike}
use agentic_rpgmaker.Transport.Quiet.{
  send-IsLike, send_message-IsLike, send_typed-IsLike, send_ping-IsLike,
}
use agentic_rpgmaker.Transport.Lifecycle.{run-IsTransport}

-- Events in which nothing arrives and the transport is not told to leave.
abbrev pub is_quiet : {Raw : Type 0} → Event Raw → Bool
is_quiet (send_raw raw) = true
is_quiet (send_envelope envelope) = true
is_quiet (send_payload type payload) = true
is_quiet ping_due = true
is_quiet watchdog_due = true
is_quiet _ = false

abbrev pub AllQuiet : {Raw : Type 0} → List (ℕ × Event Raw) → Type 0
AllQuiet = All (λ p. is_quiet p.1 ≡ true)

module _ {Raw : Type 0} (c : Codec Raw) (takes : List (SocketCall Raw) → Raw → Bool) where
  -- What a quiet event leaves of a transport that was ready or closing.
  record IsWaiting (t u : Transport Raw) : Type 0 where
    up : (u.state ≡ ready) ⊎ (u.state ≡ closing)
    inbound : u.last_inbound_ms ≡ t.last_inbound_ms
    options : u.options ≡ t.options

  sent-IsWaiting : (t u w : Transport Raw) → IsLike u w → IsWaiting t u → IsWaiting t w
  sent-IsWaiting t u w l v = ground arith

  watchdog-IsWaiting :
      (now : ℕ) (t u : Transport Raw) → IsWaiting t u → IsWaiting t (watchdog now u)
  unfolding watchdog force_close
  watchdog-IsWaiting now t u v = ground arith

  step-IsWaiting :
      (now : ℕ) (e : Event Raw) (t u : Transport Raw)
      → is_quiet e ≡ true
      → IsWaiting t u
      → IsWaiting t (step c takes now e u)
  unfolding step
  step-IsWaiting now (send_raw raw) t u quiet v =
      sent-IsWaiting t u _ (send-IsLike c takes now raw u) v
  step-IsWaiting now (send_envelope envelope) t u quiet v =
      sent-IsWaiting t u _ (send_message-IsLike c takes now envelope u) v
  step-IsWaiting now (send_payload type payload) t u quiet v =
      sent-IsWaiting t u _ (send_typed-IsLike c takes type now payload u) v
  step-IsWaiting now ping_due t u quiet v =
      ground (arith, sent-IsWaiting t u _ (send_ping-IsLike c takes now u) v)
  step-IsWaiting now watchdog_due t u quiet v = ground (arith, watchdog-IsWaiting now t u v)
  step-IsWaiting now (connect_to options made) t u quiet v = cc
  step-IsWaiting now (add_handler handler) t u quiet v = cc
  step-IsWaiting now (remove_handler handler) t u quiet v = cc
  step-IsWaiting now (leave payload) t u quiet v = cc
  step-IsWaiting now close_it t u quiet v = cc
  step-IsWaiting now socket_opens t u quiet v = cc
  step-IsWaiting now socket_errs t u quiet v = cc
  step-IsWaiting now (socket_gets raw) t u quiet v = cc
  step-IsWaiting now (socket_closes code reason) t u quiet v = cc
  step-IsWaiting now handshake_ends t u quiet v = cc

  run-IsWaiting :
      (es : List (ℕ × Event Raw)) (t u : Transport Raw)
      → AllQuiet es
      → IsWaiting t u
      → IsWaiting t (run c takes es u)
  unfolding run
  run-IsWaiting [] t u quiet v = v
  run-IsWaiting ((now, e) ∷ es) t u quiet v =
      run-IsWaiting es t (step c takes now e u) quiet.1 (step-IsWaiting now e t u quiet.0 v)

  due :
      (now : ℕ) (u : Transport Raw)
      → IsTransport u
      → (u.state ≡ ready) ⊎ (u.state ≡ closing)
      → u.options.timeout_ms < now - u.last_inbound_ms
      → (step c takes now watchdog_due u).state ≡ closing
  unfolding step watchdog force_close
  due now u v up silent = ground arith

  -- Each event happens within the timeout after the last message.
  abbrev pub AllInTime : Transport Raw → List (ℕ × Event Raw) → Type 0
  AllInTime t = All (λ p. p.0 - t.last_inbound_ms ≤ t.options.timeout_ms)

  record IsReadyLike (t u : Transport Raw) : Type 0 where
    up : u.state ≡ ready
    inbound : u.last_inbound_ms ≡ t.last_inbound_ms
    options : u.options ≡ t.options

  sent-IsReadyLike : (t u w : Transport Raw) → IsLike u w → IsReadyLike t u → IsReadyLike t w
  sent-IsReadyLike t u w l v = ground arith

  watchdog-IsReadyLike :
      (now : ℕ) (t u : Transport Raw)
      → now - t.last_inbound_ms ≤ t.options.timeout_ms
      → IsReadyLike t u
      → IsReadyLike t (watchdog now u)
  unfolding watchdog
  watchdog-IsReadyLike now t u in_time v = ground arith

  step-IsReadyLike :
      (now : ℕ) (e : Event Raw) (t u : Transport Raw)
      → is_quiet e ≡ true
      → now - t.last_inbound_ms ≤ t.options.timeout_ms
      → IsReadyLike t u
      → IsReadyLike t (step c takes now e u)
  unfolding step
  step-IsReadyLike now (send_raw raw) t u quiet in_time v =
      sent-IsReadyLike t u _ (send-IsLike c takes now raw u) v
  step-IsReadyLike now (send_envelope envelope) t u quiet in_time v =
      sent-IsReadyLike t u _ (send_message-IsLike c takes now envelope u) v
  step-IsReadyLike now (send_payload type payload) t u quiet in_time v =
      sent-IsReadyLike t u _ (send_typed-IsLike c takes type now payload u) v
  step-IsReadyLike now ping_due t u quiet in_time v =
      ground (arith, sent-IsReadyLike t u _ (send_ping-IsLike c takes now u) v)
  step-IsReadyLike now watchdog_due t u quiet in_time v =
      ground (arith, watchdog-IsReadyLike now t u in_time v)
  step-IsReadyLike now (connect_to options made) t u quiet in_time v = cc
  step-IsReadyLike now (add_handler handler) t u quiet in_time v = cc
  step-IsReadyLike now (remove_handler handler) t u quiet in_time v = cc
  step-IsReadyLike now (leave payload) t u quiet in_time v = cc
  step-IsReadyLike now close_it t u quiet in_time v = cc
  step-IsReadyLike now socket_opens t u quiet in_time v = cc
  step-IsReadyLike now socket_errs t u quiet in_time v = cc
  step-IsReadyLike now (socket_gets raw) t u quiet in_time v = cc
  step-IsReadyLike now (socket_closes code reason) t u quiet in_time v = cc
  step-IsReadyLike now handshake_ends t u quiet in_time v = cc

  run-IsReadyLike :
      (es : List (ℕ × Event Raw)) (t u : Transport Raw)
      → AllQuiet es
      → AllInTime t es
      → IsReadyLike t u
      → IsReadyLike t (run c takes es u)
  unfolding run
  run-IsReadyLike [] t u quiet in_time v = v
  run-IsReadyLike ((now, e) ∷ es) t u quiet in_time v =
      run-IsReadyLike es t (step c takes now e u) quiet.1 in_time.1
        (step-IsReadyLike now e t u quiet.0 in_time.0 v)

  -- While nothing is heard, a ready transport stays ready as long as each event comes within the
  -- timeout after the last message; the watchdog that is due after more than the timeout has it
  -- closing, whatever was sent and however often the timers went off before.
  pub silence_drops :
      (es : List (ℕ × Event Raw)) (now : ℕ) (t : Transport Raw)
      → IsTransport t
      → t.state ≡ ready
      → AllQuiet es
      → (AllInTime t es → (run c takes es t).state ≡ ready)
        × (t.options.timeout_ms < now - t.last_inbound_ms
            → (step c takes now watchdog_due (run c takes es t)).state ≡ closing)
  silence_drops es now t v live quiet =
      let w =
        run-IsWaiting es t t quiet (record { up = inl live; inbound = refl; options = refl }) in
      (
        (λ in_time.
            (run-IsReadyLike es t t quiet in_time
              (record { up = live; inbound = refl; options = refl })).up),
        λ silent.
            due now (run c takes es t) (run-IsTransport c takes es t v) w.up
              (rw (w.inbound, w.options) silent),
      )
