-- ===== src/Authority/Envelope.antt =====
-- border/authority_adapter.py: `IdentityAuthorityAdapter.normalize` and the bindings of an envelope.
use minority_prophet_border.Py.Clock.{Time}
use minority_prophet_border.Prelude.{
  Bool, String, [], false, if◌then◌else◌, none, not, some, true, ℕ, ◌||◌, ◌∷◌,
}
use minority_prophet_border.Py.Result.{Result, and_then, err, ok, raise_if, ◌>>=◌, ◌>>◌}
use minority_prophet_border.Py.Value.{
  Fields, Value, dict, end, field, get_or, int, obj, str, subscript, truthy,
}
use minority_prophet_border.Admission.Base.{document_digest}
use minority_prophet_border.Crossing.Verifier.{profile}
use minority_prophet_border.Authority.Profile.{adapter_refused, both_objects, get_path, set_path}
use minority_prophet_border.Py.Equality.{value_eq}
use minority_prophet_border.Platform.{Platform}
use minority_prophet_border.Py.Text.{replace}
use minority_prophet_border.Prelude.Int.{pos}
use minority_prophet_border.Py.Bindings.{in_window}
use minority_prophet_border.Crossing.Json.{digest}
use minority_prophet_border.Py.Contains.{contains_value}

unfoldable pub apply_mappings : Fields → Value → Fields → Result Value
apply_mappings provider envelope end = ok envelope
apply_mappings provider envelope (field target source rest) = do
  found ← get_path provider source
  next ← set_path envelope target found
  apply_mappings provider next rest

unfoldable pub apply_constants : Value → Fields → Result Value
apply_constants envelope end = ok envelope
apply_constants envelope (field target v rest) = do
  next ← set_path envelope target v
  apply_constants next rest

-- `if a[key] != b[other]: raise …`
unfoldable pub same_at : String → Value → String → Value → String → Result (Unit {0})
same_at message a key b other = do
  v ← subscript a key
  w ← subscript b other
  raise_if (not (value_eq v w)) (adapter_refused message)

unfoldable pub check_identity : Platform → Value → Value → Result (Unit {0})
check_identity p request receipt = do
  same_at "request_id substitution" receipt "request_id" request "request_id"
  same_at "subject_id substitution" receipt "subject_id" request "subject_id"
  same_at "principal_id substitution" receipt "principal_id" request "principal_id"
  delegation ← subscript receipt "delegation"
  same_at "delegation substitution" delegation "delegation_id" request "delegation_id"
  bound ← subscript receipt "action_digest"
  action ← subscript request "action"
  digest ← document_digest p action
  raise_if (not (value_eq bound (str digest))) (adapter_refused "action digest mismatch")
  provider ← subscript receipt "provider"
  signature ← subscript receipt "signature"
  same_at "signature key substitution" provider "key_id" signature "key_id"

-- The effect that a decision must have had: its status and its number of attempts.
unfoldable pub effect_was : Value → String → ℕ → String → Result (Unit {0})
effect_was effect status count_ message = do
  actual ← subscript effect "status"
  raise_if (not (value_eq actual (str status))) (adapter_refused message)
  attempts ← subscript effect "attempt_count"
  raise_if (not (value_eq attempts (int (pos count_)))) (adapter_refused message)

unfoldable pub check_decision : Value → Value → Result (Unit {0})
check_decision decision effect =
    if value_eq decision (str "allow")
    then effect_was effect "succeeded" 1 "allow must execute exactly once"
    else if value_eq decision (str "deny")
    then effect_was effect "prevented" 0 "deny must execute zero times"
    else err (adapter_refused "unknown decision")

-- `datetime.fromisoformat(v.replace("Z", "+00:00"))` with its `AttributeError` and `ValueError`
unfoldable pub authority_time : Platform → Value → Result Time
unfolding replace
authority_time p (str s) = elim (p.fromisoformat (replace s "Z" "+00:00")) [
  | none ↦ err (adapter_refused "invalid authority time")
  | some t ↦ ok t
]
authority_time p _ = err (adapter_refused "invalid authority time")

unfoldable pub delegation_active : Platform → Value → Value → Result Bool
delegation_active p receipt delegation = do
  raw_issued ← subscript receipt "issued_at"
  issued ← authority_time p raw_issued
  raw_starts ← subscript delegation "not_before"
  starts ← authority_time p raw_starts
  raw_expires ← subscript delegation "expires_at"
  expires ← authority_time p raw_expires
  status ← subscript delegation "status"
  and_then (value_eq status (str "active")) (in_window starts issued expires)

-- Inactive authority goes with a denial that executed nothing.
unfoldable pub check_inactive : Bool → Value → Value → Result (Unit {0})
check_inactive true decision effect = ok tt
check_inactive false decision effect = do
  raise_if (not (value_eq decision (str "deny")))
      (adapter_refused "inactive authority must fail closed")
  attempts ← subscript effect "attempt_count"
  raise_if (not (value_eq attempts (int (pos 0))))
      (adapter_refused "inactive authority must fail closed")

-- A copy has its root among its parents.
unfoldable pub check_copied : Value → Result (Unit {0})
check_copied origin = do
  roots ← subscript origin "parent_roots"
  raise_if (not (truthy roots)) (adapter_refused "copied or derived evidence cannot mint a root")
  root ← subscript origin "root_id"
  rooted ← contains_value root roots
  raise_if (not rooted) (adapter_refused "copied or derived evidence cannot mint a root")

unfoldable pub check_unknown : Value → Result (Unit {0})
check_unknown origin = do
  basis ← subscript origin "independence_basis"
  raise_if (not (value_eq basis (str "unknown")))
      (adapter_refused "unknown origin cannot claim independence")

unfoldable pub check_origin : Value → Result (Unit {0})
check_origin origin = do
  kind ← subscript origin "origin_type"
  if value_eq kind (str "copied") || value_eq kind (str "derived")
      then check_copied origin
      else if value_eq kind (str "unknown")
      then check_unknown origin
      else ok tt

-- `_validate_bindings`
unfoldable pub validate_bindings : Platform → Value → Result (Unit {0})
validate_bindings p envelope = do
  request ← subscript envelope "request"
  receipt ← subscript envelope "receipt"
  check_identity p request receipt
  effect ← subscript receipt "effect"
  decision ← subscript receipt "decision"
  check_decision decision effect
  delegation ← subscript receipt "delegation"
  active ← delegation_active p receipt delegation
  check_inactive active decision effect
  origin ← subscript receipt "evidence_origin"
  check_origin origin

-- `normalize`, for a profile that the constructor has accepted
unfoldable pub normalize_provider :
    Platform → Fields → (Fields → Result Bool) → Fields → Result Value
normalize_provider p profile verify_signature provider = do
  verified ← verify_signature provider
  raise_if (not verified) (adapter_refused "provider signature verification failed")
  parts ← both_objects (get_or profile "mappings" (obj end)) (get_or profile "constants" (obj end))
  mapped ← apply_mappings provider (obj (dict (("schema_version", str "0.1") ∷ []))) parts.0
  envelope ← apply_constants mapped parts.1
  validate_bindings p envelope
  ok envelope
