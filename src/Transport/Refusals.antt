-- ===== src/Transport/Refusals.antt =====
-- Messages that are not understood, and a handshake whose `hello` is refused.
use agentic_rpgmaker.Base.{
  ℕ, ◌≡◌, ◌∙◌, refl, Bool, true, false, none, List, [], ◌∷◌, ◌++◌, All, String_eq, arith,
}
use agentic_rpgmaker.Protocol.{ProtocolError, err, Codec, build_envelope, decode_message}
use agentic_rpgmaker.Transport.State.{connecting, handshaking, SocketCall, opened, Transport}
use agentic_rpgmaker.Transport.Socket.{notify_error}
use agentic_rpgmaker.Transport.Messages.{
  send_built, send_typed, hello_payload, handle_open, handle_decoded, handle_message,
}
use agentic_rpgmaker.Transport.Run.{
  Event, socket_opens, socket_gets, handshake_ends, ping_due, watchdog_due, step, run,
}
use agentic_rpgmaker.Transport.Invariant.{IsTransport}

module _ {Raw : Type 0} (c : Codec Raw) (takes : List (SocketCall Raw) → Raw → Bool) where
  -- A message arrives that cannot be decoded, be it for its version.
  abbrev pub IsUnknown : Event Raw → Type 0
  IsUnknown e =
      (raw : Raw) × (error : ProtocolError) × (e ≡ socket_gets raw)
      × (decode_message c raw ≡ err error)

  -- The same connection, with nothing given to the socket.
  pub record IsUntouched (t u : Transport Raw) : Type 0 where
    pub state : u.state ≡ t.state
    pub socket : u.socket ≡ t.socket
    pub session_id : u.session_id ≡ t.session_id
    pub pending : u.connect_pending ≡ t.connect_pending

  step-IsUntouched :
      (now : ℕ) (e : Event Raw) (t : Transport Raw)
      → IsUnknown e
      → IsUntouched t (step c takes now e t)
  unfolding step handle_message handle_decoded notify_error
  step-IsUntouched now e t (raw, error, gets, unknown) = rw (gets, unknown) (ground arith)

  -- However many messages arrive that cannot be decoded, those of another version among them, the
  -- connection stays as it was, and nothing is sent and nothing closed.
  pub run_unknown :
      (es : List (ℕ × Event Raw)) (t : Transport Raw)
      → All (λ p. IsUnknown p.1) es
      → IsUntouched t (run c takes es t)
  unfolding run
  run_unknown [] t unknown = record {
    state = refl;
    socket = refl;
    session_id = refl;
    pending = refl;
  }
  run_unknown ((now, e) ∷ es) t unknown =
      let first = step-IsUntouched now e t unknown.0 in
      let rest = run_unknown es (step c takes now e t) unknown.1 in
      record {
        state = rest.state ∙ first.state;
        socket = rest.socket ∙ first.socket;
        session_id = rest.session_id ∙ first.session_id;
        pending = rest.pending ∙ first.pending;
      }

  abbrev pub is_timer : Event Raw → Bool
  is_timer handshake_ends = true
  is_timer ping_due = true
  is_timer watchdog_due = true
  is_timer _ = false

  -- No timer is armed, so none goes off.
  abbrev IsUntimed : Transport Raw → Type 0
  IsUntimed t = (t.handshake_timer ≡ false) × (t.ping_timer ≡ false) × (t.watchdog_timer ≡ false)

  step_untimed :
      (now : ℕ) (e : Event Raw) (t : Transport Raw)
      → is_timer e ≡ true
      → IsUntimed t
      → step c takes now e t ≡ t
  unfolding step
  step_untimed now handshake_ends t timer unarmed = rw (unarmed.0) refl
  step_untimed now ping_due t timer unarmed = rw (unarmed.1) refl
  step_untimed now watchdog_due t timer unarmed = rw (unarmed.2) refl
  step_untimed now _ t timer unarmed = cc

  run_untimed :
      (es : List (ℕ × Event Raw)) (t : Transport Raw)
      → All (λ p. is_timer p.1 ≡ true) es
      → IsUntimed t
      → run c takes es t ≡ t
  unfolding run
  run_untimed [] t timers unarmed = refl
  run_untimed ((now, e) ∷ es) t timers unarmed =
      rw (step_untimed now e t timers.0 unarmed) (run_untimed es t timers.1 unarmed)

  -- The socket opens and the `hello` cannot be built.
  opened_untimed :
      (now : ℕ) (t : Transport Raw) (error : ProtocolError)
      → IsTransport t
      → t.state ≡ connecting
      → build_envelope c "hello" (hello_payload c takes t.options) none ≡ err error
      → step c takes now socket_opens t
        ≡ record t { state = handshaking; last_activity_ms = now; socket = t.socket ++ opened ∷ [] }
  unfolding step handle_open send_typed send_built
  opened_untimed now t error v waits refused = ground arith

  -- If the schema refuses the `hello`, as it does for an empty name, the transport that was
  -- connecting hangs once the socket is open: it has sent nothing, and whatever timers go off, it is
  -- still shaking hands and the promise of `connect` is still open.
  pub hello_hangs :
      (es : List (ℕ × Event Raw)) (now : ℕ) (t : Transport Raw) (error : ProtocolError)
      → IsTransport t
      → t.state ≡ connecting
      → build_envelope c "hello" (hello_payload c takes t.options) none ≡ err error
      → All (λ p. is_timer p.1 ≡ true) es
      → run c takes es (step c takes now socket_opens t)
        ≡ record t { state = handshaking; last_activity_ms = now; socket = t.socket ++ opened ∷ [] }
  hello_hangs es now t error v waits refused timers =
      rw (opened_untimed now t error v waits refused) (
        run_untimed es
          (record t {
            state = handshaking;
            last_activity_ms = now;
            socket = t.socket ++ opened ∷ [];
          })
          timers (ground arith, ground arith, ground arith))
