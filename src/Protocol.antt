-- ===== src/Protocol.antt =====
-- Envelopes and the gates before them, packages/core/src/protocol/protocol-v1.ts, version.ts and
-- the parsers of index.ts. JSON texts and the checks of zod are a parameter, `Codec`.
pub mod Gate
mod Tests
use agentic_rpgmaker.Base.{
  ℕ, suc, ◌+◌, ◌%◌, ◌≡◌, Bool, true, false, Option, none, some, String, if◌then◌else◌, ◌==◌, nat_eq,
  ℤ, pos, negsuc, whole, eqb_ℤ, String_eq,
}

-- A parsed JSON value, with finite numbers, which count thousandths.
mutual
  pub data Json : Type 0 where
    null : Json
    boolean : Bool → Json
    number : ℤ → Json
    text : String → Json
    array : Items → Json
    object : Fields → Json

  pub data Items : Type 0 where
    nil : Items
    cons : Json → Items → Items

  pub data Fields : Type 0 where
    end : Fields
    field : (name : String) (value : Json) (rest : Fields) → Fields

pub record ProtocolEnvelope : Type 0 where
  pub v : ℤ
  pub type : String
  pub seq : Option ℕ
  pub payload : Fields

pub data ProtocolError : Type 0 where
  not_json not_object bad_version schema_error : ProtocolError
  version_mismatch : (client_version server_version : ℤ) → ProtocolError

pub data Result (A : Type 0) : Type 0 where
  ok : A → Result A
  err : ProtocolError → Result A

infixl 5 ◌>>=◌ ◌>>◌
abbrev pub ◌>>=◌ : {A B : Type 0} → Result A → (A → Result B) → Result B
ok a >>= f = f a
err e >>= f = err e

abbrev pub ◌>>◌ : {B : Type 0} → Result (Unit {0}) → Result B → Result B
m >> k = m >>= λ _. k

abbrev pub or_error : {A : Type 0} → Option A → ProtocolError → Result A
or_error none e = err e
or_error (some a) e = ok a

-- A property of an object; a missing one is undefined.
unfoldable pub property : String → Fields → Option Json
property name end = none
property name (field j value rest) = if j == name then some value else property name rest

abbrev pub protocol_version : ℤ
protocol_version = whole 1

-- `Number.isInteger`
abbrev pub is_integer : ℤ → Bool
is_integer (pos n) = nat_eq (n % 1000) 0
is_integer (negsuc n) = nat_eq (suc n % 1000) 0

abbrev pub supported : ℤ → ℤ → Result (Unit {0})
supported expected v = if eqb_ℤ v expected then ok tt else err (version_mismatch v expected)

-- `assertProtocolVersion`
unfoldable pub assert_protocol_version : Option Json → Result (Unit {0})
assert_protocol_version (some (number v)) =
    if is_integer v then supported protocol_version v else err bad_version
assert_protocol_version (some null) = err bad_version
assert_protocol_version (some (boolean b)) = err bad_version
assert_protocol_version (some (text s)) = err bad_version
assert_protocol_version (some (array xs)) = err bad_version
assert_protocol_version (some (object fs)) = err bad_version
assert_protocol_version none = err bad_version

-- What `typeof input === "object" && input !== null` lets through, with its properties. An array is
-- an object with none of those that are asked for.
abbrev pub properties : Json → Option Fields
properties null = none
properties (boolean b) = none
properties (number n) = none
properties (text s) = none
properties (array xs) = some end
properties (object fs) = some fs

abbrev pub seq_field : Option ℕ → Fields → Fields
seq_field none fs = fs
seq_field (some n) fs = field "seq" (number (whole n)) fs

-- An envelope is itself a value; an undefined `seq` is left out.
unfoldable pub to_json : ProtocolEnvelope → Json
to_json m = object (
    field "v" (number m.v)
      (field "type" (text m.type) (seq_field m.seq (field "payload" (object m.payload) end))))

-- JSON texts, and the schemas of zod: `parse_payload` is given the type of a message.
pub record Codec (Raw : Type 0) : Type 0 where
  pub stringify : Json → Raw
  pub parse_json : Raw → Option Json
  pub parse_envelope : Json → Option ProtocolEnvelope
  pub parse_payload : String → Fields → Option Fields

module _ {Raw : Type 0} (c : Codec Raw) where
  -- `validateMessage`
  abbrev pub validate_message : Json → Result ProtocolEnvelope
  validate_message input = or_error (c.parse_envelope input) schema_error

  -- `encodeMessage`
  unfoldable pub encode_message : ProtocolEnvelope → Result Raw
  unfolding to_json
  encode_message message = do
    validated ← validate_message (to_json message)
    ok (c.stringify (to_json validated))

  -- `decodeMessageValue`
  unfoldable pub decode_message_value : Json → Result ProtocolEnvelope
  unfolding property assert_protocol_version
  decode_message_value input = do
    fields ← or_error (properties input) not_object
    assert_protocol_version (property "v" fields)
    validate_message input

  -- `decodeMessage`, and `decodeMessageSafe`, which gives the error as a value
  unfoldable pub decode_message : Raw → Result ProtocolEnvelope
  unfolding decode_message_value
  decode_message raw = do parsed ← or_error (c.parse_json raw) not_json; decode_message_value parsed

  -- `makeEnvelope`
  unfoldable pub make_envelope : String → Fields → Option ℕ → Result ProtocolEnvelope
  unfolding to_json
  make_envelope type payload seq =
      validate_message
        (to_json (record { v = protocol_version; type = type; seq = seq; payload = payload }))

  -- `buildEnvelope`
  unfoldable pub build_envelope : String → Fields → Option ℕ → Result ProtocolEnvelope
  unfolding make_envelope
  build_envelope type payload seq = do
    validated ← or_error (c.parse_payload type payload) schema_error
    make_envelope type validated seq
