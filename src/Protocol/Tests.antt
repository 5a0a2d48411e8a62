-- ===== src/Protocol/Tests.antt =====
-- A codec whose texts are the values, with a schema for pings of version 1, and a ping.
use agentic_rpgmaker.Base.{
  ◌≡◌, ◌↔◌, refl, Option, none, some, ℤ, whole, eqb_ℤ, if◌then◌else◌, arith,
}
use agentic_rpgmaker.Protocol.{
  Json, object, number, field, end, ProtocolEnvelope, ok, err, version_mismatch, protocol_version,
  to_json, property, Codec, encode_message, decode_message, build_envelope, bad_version, not_object,
}
use agentic_rpgmaker.Protocol.Gate.{IsAccepted, IsOtherVersion, decode_message_iff, CodecLaws}

running : Unit {0}
unfolding property to_json encode_message decode_message build_envelope
running = tt

abbrev ping : ProtocolEnvelope
ping = record { v = protocol_version; type = "ping"; seq = none; payload = end }

abbrev only_ping : Json → Option ProtocolEnvelope
only_ping (object (field n (number v) rest)) = if eqb_ℤ v protocol_version then some ping else none
only_ping _ = none

codec : Codec Json
codec = record {
  stringify = λ j. j;
  parse_json = λ j. some j;
  parse_envelope = only_ping;
  parse_payload = λ type fs. some fs;
}

gives_ping : (j : Json) (m : ProtocolEnvelope) → only_ping j ≡ some m → m ≡ ping
gives_ping (object (field n (number v) rest)) m h = ground arith
gives_ping _ m h = cc

codec_laws : CodecLaws codec
unfolding codec to_json
codec_laws = record {
  version = λ j m h. rw (gives_ping j m h) refl;
  again = λ j m h. rw (gives_ping j m h) refl;
  reads = λ j m h. refl;
}

decode_message_iff_example :
    ((m : ProtocolEnvelope)
      → (decode_message codec (to_json ping) ≡ ok m) ↔ IsAccepted codec (to_json ping) m)
    × ((client : ℤ)
        → (decode_message codec (to_json ping) ≡ err (version_mismatch client protocol_version))
          ↔ IsOtherVersion codec (to_json ping) client)
decode_message_iff_example = decode_message_iff codec (to_json ping)

gate_runs :
    (decode_message codec (object (field "v" (number (whole 2)) end))
      ≡ err (version_mismatch (whole 2) protocol_version))
    × (decode_message codec (object end) ≡ err bad_version)
    × (decode_message codec (number (whole 1)) ≡ err not_object)
    × (build_envelope codec "ping" end none ≡ ok ping)
unfolding running codec
gate_runs = (refl, refl, refl, refl)
