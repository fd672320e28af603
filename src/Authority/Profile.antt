-- ===== src/Authority/Profile.antt =====
-- border/authority_adapter.py: dotted paths and the analysis of a profile. The text of the exception
-- for a profile that is not ready leaves out the report that the source prints in it.
use minority_prophet_border.Py.Result.{
  Exn, Result, adapter_error, attribute_error, err, exn, ok, raise_if, type_error, ◌>>=◌,
}
use minority_prophet_border.SubjectLink.{distinct, sorted}
use minority_prophet_border.Prelude.{
  Bool, List, String, [], if◌then◌else◌, none, not, some, ◌&&◌, ◌++◌, ◌==◌, ◌∷◌,
}
use minority_prophet_border.Py.Text.{concat, split}
use minority_prophet_border.Py.Value.{
  Fields, Value, end, field, get_or, keys, lookup, mem, obj, put, str,
}
use minority_prophet_border.Mandate.Checks.{is_nonempty_text}
use minority_prophet_border.Py.Bindings.{is_empty}
use minority_prophet_border.Crossing.Verifier.{profile}

abbrev pub adapter_refused : String → Exn
adapter_refused message = exn adapter_error message

abbrev pub required_targets : List String
required_targets =
    "request.request_id" ∷ "request.subject_id" ∷ "request.principal_id" ∷ "request.delegation_id"
    ∷ "request.action.type" ∷ "request.action.target" ∷ "request.action.payload_digest"
    ∷ "request.created_at" ∷ "request.nonce" ∷ "receipt.receipt_id" ∷ "receipt.request_id"
    ∷ "receipt.action_digest" ∷ "receipt.subject_id" ∷ "receipt.principal_id"
    ∷ "receipt.delegation.delegation_id" ∷ "receipt.delegation.status"
    ∷ "receipt.delegation.not_before" ∷ "receipt.delegation.expires_at" ∷ "receipt.decision"
    ∷ "receipt.effect.status" ∷ "receipt.effect.attempt_count" ∷ "receipt.effect.idempotency_key"
    ∷ "receipt.evidence_origin.claim_digest" ∷ "receipt.evidence_origin.origin_type"
    ∷ "receipt.evidence_origin.root_id" ∷ "receipt.evidence_origin.parent_roots"
    ∷ "receipt.evidence_origin.independence_basis" ∷ "receipt.provider.provider_id"
    ∷ "receipt.provider.key_id" ∷ "receipt.issued_at" ∷ "receipt.signature.algorithm"
    ∷ "receipt.signature.key_id" ∷ "receipt.signature.value" ∷ []

-- Every target but the provider's id.
abbrev pub is_security_critical : String → Bool
is_security_critical target =
    mem target required_targets && not (target == "receipt.provider.provider_id")

unfoldable pub get_segments : Value → List String → String → Result Value
get_segments v [] path = ok v
get_segments (obj d) (s ∷ rest) path = elim (lookup s d) [
  | none ↦ err (adapter_refused (concat ("missing provider field: " ∷ path ∷ [])))
  | some v ↦ get_segments v rest path
]
get_segments _ (s ∷ rest) path =
    err (adapter_refused (concat ("missing provider field: " ∷ path ∷ [])))

-- A path that is no text has no `split`.
unfoldable pub get_path : Fields → Value → Result Value
unfolding split
get_path d (str path) = get_segments (obj d) (split path b'.') path
get_path d _ = err (exn attribute_error "split")

unfoldable pub set_segments : Value → List String → Value → Result Value
unfolding put
set_segments v [] new = ok new
set_segments (obj d) (s ∷ []) new = ok (obj (put s new d))
set_segments (obj d) (s ∷ t ∷ rest) new = do
  child ← set_segments (get_or d s (obj end)) (t ∷ rest) new
  ok (obj (put s child d))
set_segments _ (s ∷ []) new = err (exn type_error "no item assignment")
set_segments _ (s ∷ t ∷ rest) new = err (exn attribute_error "setdefault")

unfoldable pub set_path : Value → String → Value → Result Value
unfolding split
set_path v path new = set_segments v (split path b'.') new

pub record ProfileReport : Type 0 where
  pub missing_targets : List String
  pub forbidden_constants : List String
  pub unknown_targets : List String

abbrev pub is_ready : ProfileReport → Bool
is_ready r =
    is_empty r.missing_targets && is_empty r.forbidden_constants && is_empty r.unknown_targets

abbrev pub keep_texts : (String → Bool) → List String → List String
keep_texts test [] = []
keep_texts test (x ∷ xs) = let rest = keep_texts test xs in if test x then x ∷ rest else rest

-- The keys whose source is a non-empty text.
abbrev pub sourced : Fields → List String
sourced end = []
sourced (field k v d) = let rest = sourced d in if is_nonempty_text v then k ∷ rest else rest

abbrev pub both_objects : Value → Value → Result (Fields × Fields)
both_objects (obj mappings) (obj constants) = ok (mappings, constants)
both_objects _ _ = err (adapter_refused "mappings and constants must be objects")

unfoldable pub analyze_profile : Fields → Result ProfileReport
analyze_profile profile = do
  parts ← both_objects (get_or profile "mappings" (obj end)) (get_or profile "constants" (obj end))
  let supplied = sourced parts.0 ++ keys parts.1
  let named = distinct (keys parts.0 ++ keys parts.1)
  ok (record {
    missing_targets = sorted (keep_texts (λ t. not (mem t supplied)) required_targets);
    forbidden_constants = sorted (keep_texts is_security_critical (keys parts.1));
    unknown_targets =
        sorted
          (keep_texts (λ t. not (mem t required_targets) && not (t == "schema_version")) named);
  })

-- `__init__`
unfoldable pub open_profile : Fields → Result (Unit {0})
open_profile profile = do
  report ← analyze_profile profile
  raise_if (not (is_ready report)) (adapter_refused "profile is not ready")
