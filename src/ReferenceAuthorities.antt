-- ===== src/ReferenceAuthorities.antt =====
-- border/reference_authorities.py. Its `_time` is the one of border/admission.py.
pub mod Soundness
use minority_prophet_border.Prelude.{Bool, List, String, [], if◌then◌else◌, not, ◌∷◌}
use minority_prophet_border.Py.Printer.{Printer, text_of}
use minority_prophet_border.Py.Bindings.{in_window, is_empty}
use minority_prophet_border.Py.Result.{Exn, Result, ok, raise_if, ◌>>=◌, ◌>>◌}
use minority_prophet_border.Py.Equality.{value_eq}
use minority_prophet_border.Py.Value.{Fields, Value, dict, get, is_blank, item, str}
use minority_prophet_border.Py.Text.{concat, join}
use minority_prophet_border.Platform.{Platform}
use minority_prophet_border.Admission.Base.{document_digest, refused, time_field}
use minority_prophet_border.Crossing.Json.{digest}
use minority_prophet_border.Py.Clock.{Time}

abbrev pub blank_fields : Fields → List String → List String
blank_fields d [] = []
blank_fields d (f ∷ fs) =
    let rest = blank_fields d fs in if is_blank (get d f) then f ∷ rest else rest

-- `_require`
unfoldable pub require : Fields → List String → Result (Unit {0})
unfolding concat join
require d names =
    raise_if (not (is_empty (blank_fields d names)))
      (refused (concat ("authority record missing: " ∷ join ", " (blank_fields d names) ∷ [])))

abbrev inactive : Exn
inactive = refused "authority is inactive, expired, or revoked"

-- `_active`
unfoldable pub active_record : Platform → Fields → Time → Result (Unit {0})
active_record p d now = do
  start ← item d "not_before"
  starts ← time_field p start "not_before"
  finish ← item d "expires_at"
  ends ← time_field p finish "expires_at"
  status ← item d "status"
  raise_if (not (value_eq status (str "active"))) inactive
  running ← in_window starts now ends
  raise_if (not running) inactive

-- `SignedTokenAuthorityProvider`
pub record SignedTokens : Type 0 where
  pub verify : Fields → Result Bool
  pub audience : String

-- `CapabilityGrantAuthorityProvider`
pub record CapabilityGrants : Type 0 where
  pub verify : Fields → Result Bool
  pub is_revoked : Value → Result Bool

abbrev pub token_fields : List String
token_fields =
    "token_id" ∷ "issuer" ∷ "key_id" ∷ "request_id" ∷ "subject_id" ∷ "principal_id"
    ∷ "delegation_id" ∷ "action" ∷ "audience" ∷ "status" ∷ "not_before" ∷ "expires_at" ∷ "issued_at"
    ∷ "signature" ∷ []

abbrev pub grant_fields : List String
grant_fields =
    "grant_id" ∷ "key_id" ∷ "request_id" ∷ "subject_id" ∷ "controller_id" ∷ "delegation_id"
    ∷ "invocation" ∷ "status" ∷ "not_before" ∷ "expires_at" ∷ "issued_at" ∷ "signature" ∷ []

-- The receipt of either provider. Every field read has been required, so `get` reads what is there.
abbrev pub authority_receipt : Fields → String → String → String → Fields
authority_receipt d receipt_id principal digest = dict (
    ("receipt_id", str receipt_id)
    ∷ ("request_id", get d "request_id")
    ∷ ("subject_id", get d "subject_id")
    ∷ ("principal_id", get d principal)
    ∷ ("delegation_id", get d "delegation_id")
    ∷ ("action_digest", str digest)
    ∷ ("status", get d "status")
    ∷ ("decision", str "allow")
    ∷ ("not_before", get d "not_before")
    ∷ ("expires_at", get d "expires_at")
    ∷ ("issued_at", get d "issued_at")
    ∷ ("key_id", get d "key_id")
    ∷ ("signature", get d "signature")
    ∷ [])

unfoldable pub normalize_claims_record : Printer → SignedTokens → Fields → Time → Result Fields
unfolding concat
normalize_claims_record printer provider claims now = do
  require claims token_fields
  verified ← provider.verify claims
  raise_if (not verified) (refused "token signature verification failed")
  raise_if (not (value_eq (get claims "audience") (str provider.audience)))
      (refused "token audience mismatch")
  active_record printer.base claims now
  digest ← document_digest printer.base (get claims "action")
  ok (
      authority_receipt claims
        (concat (
          "token:"
          ∷ text_of printer (get claims "issuer")
          ∷ ":"
          ∷ text_of printer (get claims "token_id")
          ∷ []))
        "principal_id" digest)

unfoldable pub normalize_grant : Printer → CapabilityGrants → Fields → Time → Result Fields
unfolding concat
normalize_grant printer provider grant now = do
  require grant grant_fields
  verified ← provider.verify grant
  raise_if (not verified) (refused "capability signature verification failed")
  revoked ← provider.is_revoked (get grant "grant_id")
  raise_if revoked (refused "capability grant is revoked")
  active_record printer.base grant now
  digest ← document_digest printer.base (get grant "invocation")
  ok (
      authority_receipt grant (concat ("capability:" ∷ text_of printer (get grant "grant_id") ∷ []))
        "controller_id" digest)
