-- ===== src/Transport/Tests.antt =====
-- A codec for envelopes of a type and no payload, a socket that takes messages once it is open, and
-- the theorems at a short life of a transport.
use agentic_rpgmaker.Base.{
  ℕ, ◌-◌, ◌<◌, ◌≡◌, refl, Bool, true, false, none, some, List, [], ◌∷◌, ◌++◌, String, if◌then◌else◌,
  ◌==◌, String_eq, arith, any, ◌-ℤ◌,
}
use agentic_rpgmaker.Base.Dict.{includes}
use agentic_rpgmaker.Protocol.{
  Json, Fields, object, text, field, end, ProtocolEnvelope, schema_error, protocol_version, to_json,
  Codec, encode_message, decode_message, build_envelope, property, not_json,
}
use agentic_rpgmaker.Transport.State.{
  handshaking, ready, closing, default_options, TransportOptions, SocketCall, opened, sent,
  close_socket, Transport, make_transport, resolved,
}
use agentic_rpgmaker.Transport.Invariant.{IsTransport}
use agentic_rpgmaker.Transport.Run.{
  Event, connect_to, add_handler, socket_opens, socket_gets, ping_due, watchdog_due, handshake_ends,
  close_it, step, run,
}
use agentic_rpgmaker.Transport.Lifecycle.{run-IsTransport}
use agentic_rpgmaker.Transport.Order.{may_follow, step_follows}
use agentic_rpgmaker.Transport.Promise.{HasWelcome, run_resolved}
use agentic_rpgmaker.Transport.Silence.{AllInTime, silence_drops}
use agentic_rpgmaker.Transport.Refusals.{IsUntouched, run_unknown, hello_hangs}

running : Unit {0}
unfolding property to_json encode_message decode_message build_envelope run make_transport includes
    ◌-ℤ◌
running = tt

abbrev plain : String → ProtocolEnvelope
plain s = record { v = protocol_version; type = s; seq = none; payload = end }

abbrev type_of : Json → String
type_of (object (field n v (field t (text s) rest))) = s
type_of _ = ""

abbrev named : Fields → String
named (field n (text s) rest) = s
named _ = "none"

-- A text is the type of a message; the empty one is not JSON. An empty name is refused.
codec : Codec String
unfolding to_json
codec = record {
  stringify = type_of;
  parse_json = λ s. if s == "" then none else some (to_json (plain s));
  parse_envelope = λ j. if type_of j == "" then none else some (plain (type_of j));
  parse_payload = λ type fs. if named fs == "" then none else some end;
}

abbrev is_open : SocketCall String → Bool
is_open opened = true
is_open _ = false

takes : List (SocketCall String) → String → Bool
takes calls raw = any is_open calls

abbrev hello_life : List (ℕ × Event String)
hello_life =
    (0, add_handler 7)
    ∷ (0, connect_to default_options true)
    ∷ (10, socket_opens)
    ∷ (20, socket_gets "welcome")
    ∷ []

life_runs :
    let t = run codec takes hello_life make_transport in
    (t.state ≡ ready)
    × (t.socket ≡ opened ∷ sent "hello" ∷ [])
    × (t.outcomes ≡ resolved ∷ [])
    × ((run codec takes ((30, ping_due) ∷ (40, close_it) ∷ []) t).socket
        ≡ opened
          ∷ sent "hello"
          ∷ sent "ping"
          ∷ sent "leave"
          ∷ close_socket 1000 "client_close"
          ∷ [])
unfolding running codec takes
life_runs = (refl, refl, refl, refl)

new-IsTransport : IsTransport (make_transport {Raw = String})
unfolding make_transport
new-IsTransport = ground arith

run-IsTransport_example : IsTransport (run codec takes hello_life make_transport)
run-IsTransport_example = run-IsTransport codec takes hello_life make_transport new-IsTransport

ready_transport : Transport String
ready_transport = run codec takes hello_life make_transport

ready-IsTransport : IsTransport ready_transport
unfolding ready_transport
ready-IsTransport = run-IsTransport_example

step_follows_example :
    may_follow ready_transport.state (step codec takes 50 close_it ready_transport).state ≡ true
step_follows_example = step_follows codec takes 50 close_it ready_transport ready-IsTransport

run_resolved_example : HasWelcome codec takes hello_life make_transport
unfolding running codec takes
run_resolved_example = run_resolved codec takes hello_life refl

silence_drops_example :
    (AllInTime codec takes ready_transport ((30, ping_due) ∷ [])
      → (run codec takes ((30, ping_due) ∷ []) ready_transport).state ≡ ready)
    × (ready_transport.options.timeout_ms < 70000 - ready_transport.last_inbound_ms
        → (step codec takes 70000 watchdog_due
            (run codec takes ((30, ping_due) ∷ []) ready_transport)).state
          ≡ closing)
unfolding ready_transport running codec takes
silence_drops_example =
    silence_drops codec takes ((30, ping_due) ∷ []) 70000 ready_transport ready-IsTransport refl
      (refl, tt)

run_unknown_example :
    IsUntouched codec takes ready_transport
      (run codec takes ((30, socket_gets "") ∷ []) ready_transport)
unfolding running codec
run_unknown_example =
    run_unknown codec takes ((30, socket_gets "") ∷ []) ready_transport
      (("", not_json, refl, refl), tt)

abbrev nameless : TransportOptions
nameless = record default_options { player_name = some "" }

waiting_transport : Transport String
waiting_transport = run codec takes ((0, connect_to nameless true) ∷ []) make_transport

waiting-IsTransport : IsTransport waiting_transport
unfolding waiting_transport
waiting-IsTransport =
    run-IsTransport codec takes ((0, connect_to nameless true) ∷ []) make_transport new-IsTransport

hello_hangs_example :
    run codec takes
      ((10010, handshake_ends) ∷ [])
      (step codec takes 10 socket_opens waiting_transport)
    ≡ record waiting_transport {
      state = handshaking;
      last_activity_ms = 10;
      socket = waiting_transport.socket ++ opened ∷ [];
    }
unfolding running codec takes waiting_transport
hello_hangs_example =
    hello_hangs codec takes ((10010, handshake_ends) ∷ []) 10 waiting_transport schema_error
      waiting-IsTransport refl refl (refl, tt)
