-- ===== src/Mandate/Adapter.antt =====
-- border/mandate_adapter.py: `MandateAuthorityAdapter`. The adapter binds the authority to request
-- and the authority to execute to one invocation.
use minority_prophet_border.Prelude.{
  Bool, List, Option, String, [], count, if◌then◌else◌, leb, ltb, none, not, some, ◌&&◌, ◌==◌, ◌||◌,
  ◌∷◌,
}
use minority_prophet_border.Platform.{Platform}
use minority_prophet_border.Py.Clock.{Time, is_naive}
use minority_prophet_border.Mandate.Checks.{
  active_authority, issued_active, mandate_refused, mandate_required, mandate_time, validate_action,
}
use minority_prophet_border.Py.Result.{
  Exn, Result, err, exn, mandate_error, ok, raise_if, ◌>>=◌, ◌>>◌,
}
use minority_prophet_border.Py.Value.{Fields, Value, dict, get, keys_are, list, obj, str}
use minority_prophet_border.Py.Bindings.{format_time, match_items, to_utc}
use minority_prophet_border.Py.Text.{append, last_chars}
use minority_prophet_border.Crossing.Json.{digest}
use minority_prophet_border.Admission.Base.{document_digest}
use minority_prophet_border.Py.Equality.{value_eq}

abbrev pub invocation_fields : List String
invocation_fields =
    "schema" ∷ "mandate_id" ∷ "request_id" ∷ "relationship" ∷ "requester_id"
    ∷ "requester_key_thumbprint" ∷ "executor_id" ∷ "executor_key_thumbprint"
    ∷ "request_authority_receipt_digest" ∷ "action_digest" ∷ "audience" ∷ "not_before"
    ∷ "expires_at" ∷ "issued_at" ∷ "nonce" ∷ "key_id" ∷ "signature" ∷ []

abbrev pub credential_fields : List String
credential_fields =
    "credential_id" ∷ "subject_id" ∷ "subject_key_thumbprint" ∷ "authority_receipt_digest"
    ∷ "action_digest" ∷ "audience" ∷ "status" ∷ "not_before" ∷ "expires_at" ∷ "issued_at" ∷ "key_id"
    ∷ "signature" ∷ []

pub record MandateContext : Type 0 where
  pub audience : String
  pub verify_request_authority : Fields → Result Bool
  pub verify_executor_authority : Fields → Result Bool
  pub verify_executor_credential : Fields → Result Bool
  pub verify_invocation : Fields → Result Bool
  pub request_authorizes : Fields → Fields → Result Bool
  pub executor_authorizes : Fields → Fields → Result Bool

-- The arguments of `normalize`.
pub record Material : Type 0 where
  pub mandate : Fields
  pub request_authority : Fields
  pub executor_authority : Fields
  pub executor_credential : Fields
  pub action : Fields

-- `_receipts`: the digest of the material and the receipt under each nonce.
abbrev pub Receipts : Type 0
Receipts = List (String × (String × Fields))

abbrev pub receipt_of : String → Receipts → Option (String × Fields)
receipt_of nonce [] = none
receipt_of nonce ((k, entry) ∷ rest) = if k == nonce then some entry else receipt_of nonce rest

abbrev pub refuse_unless : Bool → String → Result (Unit {0})
refuse_unless holds message = raise_if (not holds) (exn mandate_error message)

abbrev pub same_field : Fields → String → Fields → String → Bool
same_field a f b g = value_eq (get a f) (get b g)

unfoldable pub check_invocation : MandateContext → Fields → String → Result (Unit {0})
check_invocation c mandate action_hash = do
  mandate_required mandate invocation_fields "mandate"
  refuse_unless (keys_are mandate invocation_fields) "mandate contains undeclared or missing fields"
  refuse_unless
      (value_eq (get mandate "schema") (str "authorized-invocation/v1")
        && value_eq (get mandate "relationship") (str "MANDATE"))
      "artifact is not an authorized-invocation Mandate"
  refuse_unless (value_eq (get mandate "audience") (str c.audience)) "mandate audience mismatch"
  verified ← c.verify_invocation mandate
  refuse_unless verified "mandate signature verification failed"
  refuse_unless (value_eq (get mandate "action_digest") (str action_hash))
      "mandate action substitution"

unfoldable pub check_requester : Platform → MandateContext → Material → Time → Result (Time × Time)
check_requester p c m now = do
  verified ← c.verify_request_authority m.request_authority
  refuse_unless verified "request authority verification failed"
  mandate_required m.request_authority ("request_id" ∷ "subject_key_thumbprint" ∷ [])
      "request authority"
  window ← active_authority p m.request_authority now "request authority"
  refuse_unless (same_field m.request_authority "request_id" m.mandate "request_id")
      "request authority request_id substitution"
  refuse_unless (same_field m.request_authority "subject_id" m.mandate "requester_id")
      "requester identity substitution"
  refuse_unless
      (same_field m.request_authority "subject_key_thumbprint" m.mandate "requester_key_thumbprint")
      "requester key substitution"
  digest ← document_digest p (obj m.request_authority)
  refuse_unless (value_eq (get m.mandate "request_authority_receipt_digest") (str digest))
      "request authority receipt substitution"
  authorized ← c.request_authorizes m.request_authority m.action
  refuse_unless authorized "requester lacks authority to request this exact action"
  ok window

unfoldable pub check_executor :
    Platform → MandateContext → Material → String → Time → Result (Time × Time)
check_executor p c m action_hash now = do
  verified ← c.verify_executor_authority m.executor_authority
  refuse_unless verified "executor authority verification failed"
  window ← active_authority p m.executor_authority now "executor authority"
  refuse_unless (same_field m.executor_authority "subject_id" m.mandate "executor_id")
      "executor authority subject substitution"
  refuse_unless (value_eq (get m.executor_authority "action_digest") (str action_hash))
      "executor authority is not bound to the exact action"
  authorized ← c.executor_authorizes m.executor_authority m.action
  refuse_unless authorized "executor lacks authority to execute this exact action"
  ok window

abbrev pub credential_bindings : Fields → String → String → List (String × Value)
credential_bindings mandate authority_digest action_hash =
    ("subject_id", get mandate "executor_id")
    ∷ ("subject_key_thumbprint", get mandate "executor_key_thumbprint")
    ∷ ("authority_receipt_digest", str authority_digest)
    ∷ ("action_digest", str action_hash)
    ∷ []

abbrev pub credential_substitution : String → Exn
credential_substitution f = mandate_refused ("executor credential " ∷ f ∷ " substitution" ∷ [])

unfoldable pub check_credential :
    Platform → MandateContext → Material → String → Time → Result (Time × Time)
check_credential p c m action_hash now = do
  mandate_required m.executor_credential credential_fields "executor credential"
  refuse_unless (keys_are m.executor_credential credential_fields)
      "executor credential contains undeclared or missing fields"
  verified ← c.verify_executor_credential m.executor_credential
  refuse_unless verified "executor credential verification failed"
  starts ←
      mandate_time p (get m.executor_credential "not_before")
        ("executor credential.not_before" ∷ [])
  expires ←
      mandate_time p (get m.executor_credential "expires_at")
        ("executor credential.expires_at" ∷ [])
  issued ←
      mandate_time p (get m.executor_credential "issued_at") ("executor credential.issued_at" ∷ [])
  refuse_unless
      (value_eq (get m.executor_credential "status") (str "active")
        && issued_active issued starts now expires)
      "executor credential is inactive, expired, or revoked"
  refuse_unless (value_eq (get m.executor_credential "audience") (str c.audience))
      "executor credential audience mismatch"
  authority_digest ← document_digest p (obj m.executor_authority)
  match_items credential_substitution m.executor_credential
      (credential_bindings m.mandate authority_digest action_hash)
  ok (starts, expires)

-- `max(a, b)` and `min(a, b)` for times in UTC
abbrev pub latest : Time → Time → Time
latest a b = if ltb a.instant b.instant then b else a

abbrev pub earliest : Time → Time → Time
earliest a b = if ltb b.instant a.instant then b else a

-- The invocation's own window, inside those of the three documents it rests on.
unfoldable pub check_window :
    Platform → Fields → Time × Time → Time × Time → Time × Time → Time → Result (Time × Time)
check_window p mandate request executor credential now = do
  starts ← mandate_time p (get mandate "not_before") ("mandate.not_before" ∷ [])
  expires ← mandate_time p (get mandate "expires_at") ("mandate.expires_at" ∷ [])
  issued ← mandate_time p (get mandate "issued_at") ("mandate.issued_at" ∷ [])
  let effective_start = latest (latest request.0 executor.0) credential.0
  let effective_expiry = earliest (earliest request.1 executor.1) credential.1
  refuse_unless
      (leb effective_start.instant issued.instant && issued_active issued starts now expires)
      "mandate is not currently active"
  raise_if
      (ltb starts.instant effective_start.instant || ltb effective_expiry.instant expires.instant)
      (mandate_refused ("mandate time window exceeds an authority path" ∷ []))
  ok (starts, expires)

unfoldable pub source_digest : Platform → Material → Result String
source_digest p m = document_digest p (
    obj (
      dict (
        ("mandate", obj m.mandate)
        ∷ ("request_authority", obj m.request_authority)
        ∷ ("executor_authority", obj m.executor_authority)
        ∷ ("executor_credential", obj m.executor_credential)
        ∷ ("action", obj m.action)
        ∷ [])))

abbrev pub invocation_nonce : Value → Result String
invocation_nonce (str s) =
    if ltb (count s) 16
    then err (exn mandate_error "mandate nonce must contain at least 16 characters")
    else ok s
invocation_nonce _ = err (exn mandate_error "mandate nonce must contain at least 16 characters")

unfoldable pub relation_receipt :
    Platform → String → Material → String → String → Time × Time → Time → Result Fields
relation_receipt p audience m action_hash nonce window now = do
  request_digest ← document_digest p (obj m.request_authority)
  executor_digest ← document_digest p (obj m.executor_authority)
  relation ← document_digest p (
      list (
        get m.mandate "mandate_id"
        ∷ str request_digest
        ∷ str executor_digest
        ∷ str action_hash
        ∷ []))
  credential_digest ← document_digest p (obj m.executor_credential)
  mandate_digest ← document_digest p (obj m.mandate)
  ok (
      dict (
        ("schema", str "border-authority-relation/v1")
        ∷ ("relationship", str "MANDATE")
        ∷ ("relation_id", str (append "rel-" (last_chars 32 relation)))
        ∷ ("request_id", get m.mandate "request_id")
        ∷ ("requester_id", get m.mandate "requester_id")
        ∷ ("request_principal_id", get m.request_authority "principal_id")
        ∷ ("requester_key_thumbprint", get m.mandate "requester_key_thumbprint")
        ∷ ("executor_id", get m.mandate "executor_id")
        ∷ ("executor_principal_id", get m.executor_authority "principal_id")
        ∷ ("executor_key_thumbprint", get m.mandate "executor_key_thumbprint")
        ∷ ("request_authority_receipt_digest", str request_digest)
        ∷ ("executor_authority_receipt_digest", str executor_digest)
        ∷ ("executor_credential_digest", str credential_digest)
        ∷ ("mandate_digest", str mandate_digest)
        ∷ ("action_digest", str action_hash)
        ∷ ("audience", str audience)
        ∷ ("verification", str "verified")
        ∷ ("issued_at", str (format_time p now))
        ∷ ("not_before", str (format_time p window.0))
        ∷ ("expires_at", str (format_time p window.1))
        ∷ ("nonce", str nonce)
        ∷ []))

-- A nonce that has a receipt answers with it, for the same material only.
unfoldable pub settle_receipt :
    Option (String × Fields)
    → String
    → String
    → Result Fields
    → Receipts
    → Result (Fields × Receipts)
settle_receipt (some (previous, receipt)) nonce source made receipts = do
  refuse_unless (previous == source) "mandate nonce replay with substituted material"
  ok (receipt, receipts)
settle_receipt none nonce source made receipts = do
  receipt ← made
  ok (receipt, (nonce, (source, receipt)) ∷ receipts)

-- `clock` is what the context's clock answers at this call.
unfoldable pub normalize_invocation :
    Platform → MandateContext → Material → Time → Receipts → Result (Fields × Receipts)
normalize_invocation p c m clock receipts = do
  raise_if (is_naive clock) (mandate_refused ("Border clock must include a timezone" ∷ []))
  let now = to_utc clock
  action_hash ← validate_action p m.action
  check_invocation c m.mandate action_hash
  request ← check_requester p c m now
  executor ← check_executor p c m action_hash now
  credential ← check_credential p c m action_hash now
  window ← check_window p m.mandate request executor credential now
  source ← source_digest p m
  nonce ← invocation_nonce (get m.mandate "nonce")
  settle_receipt (receipt_of nonce receipts) nonce source
      (relation_receipt p c.audience m action_hash nonce window now) receipts

-- `normalize`: an exception leaves the receipts alone.
unfoldable pub normalize_step :
    Platform → MandateContext → Material → Time → Receipts → Result Fields × Receipts
normalize_step p c m clock receipts = elim (normalize_invocation p c m clock receipts) [
  | ok (receipt, receipts') ↦ (ok receipt, receipts')
  | err e ↦ (err e, receipts)
]
