-- ===== src/Dsse.antt =====
-- border/dsse.py: DSSE envelopes around in-toto statements. A signer that returns no `bytes` is
-- `none`; a verifier takes the key id as it stands in the envelope.
pub mod Soundness
use minority_prophet_border.Prelude.{
  Bool, List, Option, String, [], false, if◌then◌else◌, length, ltb, nat_eq, none, not, some, true,
  ℕ, ◌&&◌, ◌++◌, ◌==◌, ◌||◌, ◌∷◌,
}
use minority_prophet_border.Py.Value.{
  Fields, Items, Value, arr, cons, dict, get, item, keys, list, nil, obj, str, subscript,
}
use minority_prophet_border.Admission.Base.{document_digest, refused}
use minority_prophet_border.Py.Result.{
  Class, Result, attribute_error, early_return, err, exn, ok, raise_if, rescue, type_error,
  value_error, ◌>>=◌, ◌>>◌,
}
use minority_prophet_border.Platform.{Platform}
use minority_prophet_border.Py.Text.{decimal, removeprefix}
use minority_prophet_border.Admission.Gate.{stamp_bindings}
use minority_prophet_border.Jcs.{canonicalize, encode}
use minority_prophet_border.Crossing.Json.{digest}
use minority_prophet_border.Py.Equality.{value_eq}

abbrev pub payload_type : String
payload_type = "application/vnd.in-toto+json"

abbrev pub statement_type : String
statement_type = "https://in-toto.io/Statement/v1"

abbrev pub admission_predicate : String
admission_predicate = "https://minority-prophet.dev/border-admission/v1"

abbrev pub Signer : Type 0
Signer = List ℕ → Result (Option (List ℕ))

abbrev pub DsseVerifier : Type 0
DsseVerifier = Value → List ℕ → List ℕ → Result Bool

unfoldable pub pre_auth_encoding : String → List ℕ → List ℕ
unfolding encode decimal
pre_auth_encoding kind payload =
    let type_bytes = encode kind in
    encode "DSSEv1 "
    ++ encode (decimal (length type_bytes))
    ++ encode " "
    ++ type_bytes
    ++ encode " "
    ++ encode (decimal (length payload))
    ++ encode " "
    ++ payload

unfoldable pub sha256_subject : Platform → Value → Fields → Result Value
unfolding removeprefix
sha256_subject p name receipt = do
  digest ← document_digest p (obj receipt)
  ok (
      list (
        obj (
          dict (
            ("name", name)
            ∷ ("digest", obj (dict (("sha256", str (removeprefix digest "sha256:")) ∷ [])))
            ∷ []))
        ∷ []))

unfoldable pub admission_statement : Platform → Fields → Value → Result Fields
admission_statement p receipt decision_point = do
  bindings ← stamp_bindings p receipt decision_point
  name ← item receipt "admission_id"
  subject ← sha256_subject p name receipt
  ok (
      dict (
        ("_type", str statement_type)
        ∷ ("subject", subject)
        ∷ ("predicateType", str admission_predicate)
        ∷ (
          "predicate",
          obj (
              dict (("schema", str "border-admission-stamp/v1") ∷ ("bindings", obj bindings) ∷ [])),
        )
        ∷ []))

abbrev signed_bytes : Option (List ℕ) → Result (List ℕ)
signed_bytes (some (b ∷ bs)) = ok (b ∷ bs)
signed_bytes _ = err (refused "DSSE signer returned no signature")

unfoldable pub sign_envelope : Platform → Fields → String → Signer → Result Fields
sign_envelope p statement key_id sign = do
  raise_if (key_id == "") (refused "DSSE key_id is required")
  payload ← canonicalize (obj statement)
  returned ← sign (pre_auth_encoding payload_type payload)
  signature ← signed_bytes returned
  ok (
      dict (
        ("payloadType", str payload_type)
        ∷ ("payload", str (p.b64encode payload))
        ∷ (
          "signatures",
          list
              (obj (dict (("keyid", str key_id) ∷ ("sig", str (p.b64encode signature)) ∷ [])) ∷ []),
        )
        ∷ []))

-- `base64.b64decode(v, validate=True)`
abbrev pub decode_base64 : Platform → Value → Result (List ℕ)
decode_base64 p (str s) = elim (p.b64decode s) [
  | none ↦ err (exn value_error "not base64")
  | some bytes ↦ ok bytes
]
decode_base64 p _ = err (exn type_error "argument should be a bytes-like object or ASCII string")

-- The classes of `except (KeyError, TypeError, ValueError)`, with their subclasses
abbrev pub malformed_class : Class → Bool
malformed_class attribute_error = false
malformed_class early_return = false
malformed_class _ = true

-- `verify` on one signature; a malformed one is passed over.
unfoldable pub read_signature : Platform → Value → Result (Value × List ℕ)
read_signature p v = do
  key_id ← subscript v "keyid"
  sig ← subscript v "sig"
  signature ← decode_base64 p sig
  ok (key_id, signature)

unfoldable pub any_verified : Platform → DsseVerifier → List ℕ → Items → Result Bool
any_verified p verify pae nil = ok false
any_verified p verify pae (cons v vs) =
    let rest = any_verified p verify pae vs in
    elim (read_signature p v) [
      | ok read ↦ do good ← verify read.0 pae read.1; if good then ok true else rest
      | err (exn c m) ↦ if malformed_class c then rest else err (exn c m)
    ]

unfoldable pub read_envelope : Platform → Fields → Result (List ℕ × Value)
read_envelope p envelope =
    rescue malformed_class
      (do
        raw ← item envelope "payload"
        payload ← decode_base64 p raw
        signatures ← item envelope "signatures"
        ok (payload, signatures))
      (λ e. err (refused "malformed DSSE envelope"))

abbrev pub signature_list : Value → Result Items
signature_list (arr (cons v vs)) = ok (cons v vs)
signature_list _ = err (refused "DSSE envelope has no signatures")

abbrev pub decoded_json : Option Value → Result Value
decoded_json none = err (refused "DSSE payload is not JSON")
decoded_json (some v) = ok v

abbrev pub same_bytes : List ℕ → List ℕ → Bool
same_bytes [] [] = true
same_bytes (a ∷ rest) (b ∷ later) = nat_eq a b && same_bytes rest later
same_bytes _ _ = false

abbrev pub as_statement : Value → Result Fields
as_statement (obj d) = ok d
as_statement _ = err (exn attribute_error "get")

unfoldable pub verify_envelope : Platform → Fields → DsseVerifier → String → Result Fields
verify_envelope p envelope verify predicate_type = do
  raise_if (not (value_eq (get envelope "payloadType") (str payload_type)))
      (refused "unknown DSSE payload type")
  read ← read_envelope p envelope
  signatures ← signature_list read.1
  verified ← any_verified p verify (pre_auth_encoding payload_type read.0) signatures
  raise_if (not verified) (refused "DSSE signature verification failed")
  decoded ← decoded_json (p.json_loads read.0)
  canonical ← canonicalize decoded
  raise_if (not (same_bytes canonical read.0)) (refused "DSSE payload is not canonical JCS")
  statement ← as_statement decoded
  raise_if
      (not (value_eq (get statement "_type") (str statement_type))
        || not (value_eq (get statement "predicateType") (str predicate_type)))
      (refused "unknown admission statement type")
  ok statement

-- Keys of at least thirty-two bytes sign with HMAC-SHA-256.
unfoldable pub hmac_sha256_signer : Platform → List ℕ → Result Signer
hmac_sha256_signer p key = do
  raise_if (ltb (length key) 32) (exn value_error "HMAC key must contain at least 32 bytes")
  ok (λ payload. ok (some (p.hmac_sha256 key payload)))

abbrev pub key_of : Value → List (String × List ℕ) → Option (List ℕ)
key_of v [] = none
key_of v ((k, key) ∷ rest) = if value_eq v (str k) then some key else key_of v rest

-- A key id that is a list or a dict has no hash.
unfoldable pub hmac_sha256_verifier : Platform → List (String × List ℕ) → DsseVerifier
hmac_sha256_verifier p keys (arr vs) payload signature = err (exn type_error "unhashable type")
hmac_sha256_verifier p keys (obj d) payload signature = err (exn type_error "unhashable type")
hmac_sha256_verifier p keys key_id payload signature = elim (key_of key_id keys) [
  | none ↦ ok false
  | some key ↦ ok (same_bytes (p.hmac_sha256 key payload) signature)
]
