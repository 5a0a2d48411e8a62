-- ===== src/Protocol/Gate.antt =====
-- What the gate before the schema lets through, and what is read back.
use agentic_rpgmaker.Base.{
  ◌≡◌, ◌≢◌, ◌↔◌, refl, true, Option, none, some, inl, inr, ◌⊎◌, ℤ, eqb_ℤ_iff, arith,
}
use agentic_rpgmaker.Protocol.{
  Json, Fields, null, boolean, number, text, array, object, ProtocolEnvelope, ProtocolError,
  version_mismatch, Result, ok, err, ◌>>=◌, ◌>>◌, or_error, property, protocol_version, is_integer,
  assert_protocol_version, properties, to_json, Codec, encode_message, decode_message,
  decode_message_value, validate_message, not_json, not_object, schema_error,
}

-- What the gate says of the property `v`.
gate : (o : Option Json) → assert_protocol_version o ≡ ok tt → o ≡ some (number protocol_version)
unfolding assert_protocol_version
gate none h = cc
gate (some null) h = cc
gate (some (boolean b)) h = cc
gate (some (number v)) h = ground (arith, eqb_ℤ_iff v protocol_version)
gate (some (text s)) h = cc
gate (some (array xs)) h = cc
gate (some (object fs)) h = cc

mismatch :
    (o : Option Json) (client server : ℤ)
    → assert_protocol_version o ≡ err (version_mismatch client server)
    → (o ≡ some (number client))
      × (is_integer client ≡ true)
      × (client ≢ protocol_version)
      × (server ≡ protocol_version)
unfolding assert_protocol_version
mismatch none a b h = cc
mismatch (some null) a b h = cc
mismatch (some (boolean x)) a b h = cc
mismatch (some (number v)) a b h = ground (arith, eqb_ℤ_iff v protocol_version)
mismatch (some (text s)) a b h = cc
mismatch (some (array xs)) a b h = cc
mismatch (some (object fs)) a b h = cc

mismatched :
    (client : ℤ)
    → is_integer client ≡ true
    → client ≢ protocol_version
    → assert_protocol_version (some (number client))
      ≡ err (version_mismatch client protocol_version)
unfolding assert_protocol_version
mismatched v whole other = ground (arith, eqb_ℤ_iff v protocol_version)

or_error-eq_ok :
    {A : Type 0} (o : Option A) (e : ProtocolError) (a : A) → or_error o e ≡ ok a → o ≡ some a
or_error-eq_ok none e a h = cc
or_error-eq_ok (some b) e a h = cc

>>=-eq_ok :
    {A B : Type 0} (m : Result A) (f : A → Result B) (b : B)
    → (m >>= f) ≡ ok b
    → (a : A) × (m ≡ ok a) × (f a ≡ ok b)
>>=-eq_ok (ok a) f b h = (a, refl, h)
>>=-eq_ok (err e) f b h = cc

or_error-eq_err :
    {A B : Type 0} (o : Option A) (e x : ProtocolError) (f : A → Result B)
    → (or_error o e >>= f) ≡ err x
    → (e ≡ x) ⊎ ((a : A) × (o ≡ some a) × (f a ≡ err x))
or_error-eq_err none e x f h = inl (cc)
or_error-eq_err (some a) e x f h = inr (a, refl, h)

>>-eq_err :
    {B : Type 0} (m : Result (Unit {0})) (k : Result B) (x : ProtocolError)
    → (m >> k) ≡ err x
    → (m ≡ err x) ⊎ (k ≡ err x)
>>-eq_err (ok u) k x h = inr h
>>-eq_err (err e) k x h = inl (cc)

schema_only :
    {A : Type 0} (o : Option A) (a b : ℤ) → or_error o schema_error ≢ err (version_mismatch a b)
schema_only none a b h = cc
schema_only (some x) a b h = cc

module _ {Raw : Type 0} (c : Codec Raw) (raw : Raw) where
  -- The message is the value j, with the properties fs.
  abbrev pub Carries : Json → Fields → Type 0
  Carries j fs = (c.parse_json raw ≡ some j) × (properties j ≡ some fs)

  -- The schema gets the message, and accepts it as m.
  abbrev pub IsAccepted : ProtocolEnvelope → Type 0
  IsAccepted m =
      (j : Json) × (fs : Fields) × Carries j fs
      × (property "v" fs ≡ some (number protocol_version))
      × (c.parse_envelope j ≡ some m)

  -- The message names another version.
  abbrev pub IsOtherVersion : ℤ → Type 0
  IsOtherVersion client =
      (j : Json) × (fs : Fields) × Carries j fs
      × (property "v" fs ≡ some (number client))
      × (is_integer client ≡ true)
      × (client ≢ protocol_version)

  accepted : (m : ProtocolEnvelope) → decode_message c raw ≡ ok m → IsAccepted m
  unfolding decode_message decode_message_value
  accepted m h =
      let (j, parsed, decoded) = >>=-eq_ok (or_error (c.parse_json raw) not_json) _ m h in
      let (fs, is_object, checked) = >>=-eq_ok (or_error (properties j) not_object) _ m decoded in
      let (u, passed, valid) = >>=-eq_ok (assert_protocol_version (property "v" fs)) _ m checked in
      (
        j,
        fs,
        (or_error-eq_ok _ not_json j parsed, or_error-eq_ok _ not_object fs is_object),
        gate (property "v" fs) passed,
        or_error-eq_ok _ schema_error m valid,
      )

  decoded : (m : ProtocolEnvelope) → IsAccepted m → decode_message c raw ≡ ok m
  unfolding decode_message decode_message_value assert_protocol_version
  decoded m (j, fs, (parsed, is_object), v, valid) = rw (parsed, is_object, v, valid) refl

  other :
      (client : ℤ)
      → decode_message c raw ≡ err (version_mismatch client protocol_version)
      → IsOtherVersion client
  unfolding decode_message decode_message_value
  other client h = elim (or_error-eq_err (c.parse_json raw) not_json _ _ h) [
    | inl e ↦ cc
    | inr (j, parsed, k) ↦ elim (or_error-eq_err (properties j) not_object _ _ k) [
      | inl e ↦ cc
      | inr (fs, is_object, l) ↦
          elim (>>-eq_err (assert_protocol_version (property "v" fs)) _ _ l) [
            | inl e ↦
                let (v, whole, differs, same) =
                  mismatch (property "v" fs) client protocol_version e in
                (j, fs, (parsed, is_object), v, whole, differs)
            | inr e ↦ absurd (schema_only (c.parse_envelope j) client protocol_version e)
          ]
    ]
  ]

  refused :
      (client : ℤ)
      → IsOtherVersion client
      → decode_message c raw ≡ err (version_mismatch client protocol_version)
  unfolding decode_message decode_message_value
  refused client (j, fs, (parsed, is_object), v, whole, other) =
      rw (parsed, is_object, v, mismatched client whole other) refl

  -- A message is decoded as m exactly if it is a JSON object whose `v` is the version of this build
  -- and the schema gives m for it; it is refused for its version exactly if it is an object whose `v`
  -- is another integer.
  pub decode_message_iff :
      ((m : ProtocolEnvelope) → (decode_message c raw ≡ ok m) ↔ IsAccepted m)
      × ((client : ℤ)
          → (decode_message c raw ≡ err (version_mismatch client protocol_version))
            ↔ IsOtherVersion client)
  decode_message_iff = (λ m. (accepted m, decoded m), λ client. (other client, refused client))

-- What the codec has to do: the schema gives envelopes of this version that it accepts again, and
-- the text of one is read back.
pub record CodecLaws {Raw : Type 0} (c : Codec Raw) : Type 0 where
  pub version :
      (j : Json) (m : ProtocolEnvelope) → c.parse_envelope j ≡ some m → m.v ≡ protocol_version
  pub again :
      (j : Json) (m : ProtocolEnvelope)
      → c.parse_envelope j ≡ some m
      → c.parse_envelope (to_json m) ≡ some m
  pub reads :
      (j : Json) (m : ProtocolEnvelope)
      → c.parse_envelope j ≡ some m
      → c.parse_json (c.stringify (to_json m)) ≡ some (to_json m)

written_version :
    (n : ProtocolEnvelope)
    → n.v ≡ protocol_version
    → (fs : Fields) × (properties (to_json n) ≡ some fs)
      × (property "v" fs ≡ some (number protocol_version))
unfolding to_json property
written_version n v = (_, refl, rw v refl)

ok_injective : {A : Type 0} {a b : A} → ok a ≡ ok b → a ≡ b
ok_injective e = cc

-- With such a codec, the text of an encoded message is decoded as what the schema gives for it.
pub decode-encode :
    {Raw : Type 0} (c : Codec Raw) (laws : CodecLaws c) (m : ProtocolEnvelope) (raw : Raw)
    → encode_message c m ≡ ok raw
    → (n : ProtocolEnvelope) × (c.parse_envelope (to_json m) ≡ some n)
      × (decode_message c raw ≡ ok n)
unfolding encode_message
decode-encode c laws m raw h =
    let (n, valid, written) = >>=-eq_ok (validate_message c (to_json m)) _ raw h in
    let accepted = or_error-eq_ok _ schema_error n valid in
    let (fs, is_object, v) = written_version n (laws.version (to_json m) n accepted) in
    let parsed : c.parse_json raw ≡ some (to_json n) =
      rw (← ok_injective written) (laws.reads (to_json m) n accepted) in
    (
      n,
      accepted,
      decoded c raw n (to_json n, fs, (parsed, is_object), v, laws.again (to_json m) n accepted),
    )
