-- ===== src/Tests/ReferenceAuthorities.antt =====
-- A token and a grant of the reference authorities.
use minority_prophet_border.Prelude.{String, [], false, refl, some, true, ◌∷◌, ◌≡◌}
use minority_prophet_border.Py.Text.{concat, join, replace}
use minority_prophet_border.Admission.Base.{document_digest, time_field}
use minority_prophet_border.ReferenceAuthorities.{
  CapabilityGrants, SignedTokens, active_record, blank_fields, grant_fields,
  normalize_claims_record, normalize_grant, require, token_fields,
}
use minority_prophet_border.Py.Clock.{Time, utc}
use minority_prophet_border.Tests.Runtime.{runs, runtime}
use minority_prophet_border.Tests.Web.{value_or}
use minority_prophet_border.Py.Result.{ok}
use minority_prophet_border.Py.Equality.{value_eq}
use minority_prophet_border.Jcs.{canonicalize}
use minority_prophet_border.ReferenceAuthorities.Soundness.{
  IsActiveRecord, normalize_claims_record-IsActiveRecord, normalize_grant-IsActiveRecord,
}
use minority_prophet_border.Py.Value.{Fields, dict, get, obj, str}
use minority_prophet_border.Py.Printer.{Printer}

abbrev claims : Fields
claims = dict (
    ("token_id", str "t-1")
    ∷ ("issuer", str "is")
    ∷ ("key_id", str "k")
    ∷ ("request_id", str "r")
    ∷ ("subject_id", str "s")
    ∷ ("principal_id", str "p")
    ∷ ("delegation_id", str "d")
    ∷ ("action", obj (dict (("type", str "pay") ∷ [])))
    ∷ ("audience", str "gate")
    ∷ ("status", str "active")
    ∷ ("not_before", str "@10")
    ∷ ("expires_at", str "@90")
    ∷ ("issued_at", str "@10")
    ∷ ("signature", str "sig")
    ∷ [])

abbrev grant : Fields
grant = dict (
    ("grant_id", str "g-1")
    ∷ ("key_id", str "k")
    ∷ ("request_id", str "r")
    ∷ ("subject_id", str "s")
    ∷ ("controller_id", str "p")
    ∷ ("delegation_id", str "d")
    ∷ ("invocation", obj (dict (("type", str "pay") ∷ [])))
    ∷ ("status", str "active")
    ∷ ("not_before", str "@10")
    ∷ ("expires_at", str "@90")
    ∷ ("issued_at", str "@10")
    ∷ ("signature", str "sig")
    ∷ [])

abbrev printer : Printer
printer = record { base = runtime; str_of = λ v. "value"; repr_of = λ v. "value" }

abbrev tokens : SignedTokens
tokens = record { verify = λ d. ok true; audience = "gate" }

abbrev grants : CapabilityGrants
grants = record { verify = λ d. ok true; is_revoked = λ v. ok (value_eq v (str "g-2")) }

abbrev now : Time
now = record { instant = 20; zone = some utc }

unfoldable authority_runs : Unit {0}
unfolding runs value_eq replace concat join document_digest canonicalize time_field require
    active_record normalize_claims_record normalize_grant
authority_runs = tt

abbrev token_receipt : Fields
unfolding authority_runs
token_receipt = value_or (dict []) (normalize_claims_record printer tokens claims now)

abbrev grant_receipt : Fields
unfolding authority_runs
grant_receipt = value_or (dict []) (normalize_grant printer grants grant now)

token_normalized : normalize_claims_record printer tokens claims now ≡ ok token_receipt
unfolding authority_runs
token_normalized = refl

grant_normalized : normalize_grant printer grants grant now ≡ ok grant_receipt
unfolding authority_runs
grant_normalized = refl

normalize_claims_record-IsActiveRecord_example :
    (blank_fields claims token_fields ≡ [])
    × (tokens.verify claims ≡ ok true)
    × (value_eq (get claims "audience") (str tokens.audience) ≡ true)
    × IsActiveRecord printer.base claims now
    × ((digest : String) × (document_digest printer.base (get claims "action") ≡ ok digest)
        × (get token_receipt "action_digest" ≡ str digest))
normalize_claims_record-IsActiveRecord_example =
    normalize_claims_record-IsActiveRecord printer tokens claims token_receipt now token_normalized

normalize_grant-IsActiveRecord_example :
    (blank_fields grant grant_fields ≡ [])
    × (grants.verify grant ≡ ok true)
    × (grants.is_revoked (get grant "grant_id") ≡ ok false)
    × IsActiveRecord printer.base grant now
    × ((digest : String) × (document_digest printer.base (get grant "invocation") ≡ ok digest)
        × (get grant_receipt "action_digest" ≡ str digest))
normalize_grant-IsActiveRecord_example =
    normalize_grant-IsActiveRecord printer grants grant grant_receipt now grant_normalized
