-- ===== src/Tests/Mandate.antt =====
-- An invocation that alice may ask for and bob may carry out, its second answer, and its Gate.
use minority_prophet_border.Py.Bindings
use minority_prophet_border.Prelude.{Bool, [], refl, some, true, ℕ, ◌∷◌, ◌≡◌}
use minority_prophet_border.Mandate.Adapter.{
  MandateContext, Material, Receipts, check_credential, check_executor, check_invocation,
  check_requester, check_window, normalize_invocation, normalize_step, relation_receipt,
  settle_receipt, source_digest,
}
use minority_prophet_border.Py.Value.{Fields, dict, str}
use minority_prophet_border.Py.Bindings.{
  format_time, match_gets, match_items, parse_time, parse_utc,
}
use minority_prophet_border.Admission.Base.{document_digest}
use minority_prophet_border.Mandate.Replay.{Request, normalize_step_once, receipts_after}
use minority_prophet_border.Mandate.Checks.{active_authority, mandate_time, validate_action}
use minority_prophet_border.Py.Text.{concat, join, replace}
use minority_prophet_border.Tests.Runtime.{runs, runtime}
use minority_prophet_border.Jcs.{canonicalize}
use minority_prophet_border.Py.Equality.{value_eq}
use minority_prophet_border.Mandate.Invocation.{IsInvocation, normalize_invocation-IsInvocation}
use minority_prophet_border.Py.Result.{Result, ok}
use minority_prophet_border.Py.Clock.{Time, utc}

abbrev action : Fields
action = dict (
    ("type", str "pay")
    ∷ ("target", str "shop")
    ∷ (
      "payload_digest",
      str "sha256:0000000000000000000000000000000000000000000000000000000000000000",
    )
    ∷ [])

abbrev request_authority : Fields
request_authority = dict (
    ("receipt_id", str "ra-1")
    ∷ ("request_id", str "req-1")
    ∷ ("subject_id", str "alice")
    ∷ ("subject_key_thumbprint", str "ka")
    ∷ ("principal_id", str "pa")
    ∷ ("action_digest", str "sha256:406997947")
    ∷ ("status", str "active")
    ∷ ("decision", str "allow")
    ∷ ("not_before", str "@10")
    ∷ ("expires_at", str "@90")
    ∷ ("issued_at", str "@5")
    ∷ ("key_id", str "k")
    ∷ ("signature", str "s")
    ∷ [])

abbrev executor_authority : Fields
executor_authority = dict (
    ("receipt_id", str "ea-1")
    ∷ ("subject_id", str "bob")
    ∷ ("principal_id", str "pb")
    ∷ ("action_digest", str "sha256:406997947")
    ∷ ("status", str "active")
    ∷ ("decision", str "allow")
    ∷ ("not_before", str "@12")
    ∷ ("expires_at", str "@85")
    ∷ ("issued_at", str "@6")
    ∷ ("key_id", str "k")
    ∷ ("signature", str "s")
    ∷ [])

abbrev executor_credential : Fields
executor_credential = dict (
    ("credential_id", str "c-1")
    ∷ ("subject_id", str "bob")
    ∷ ("subject_key_thumbprint", str "kb")
    ∷ ("authority_receipt_digest", str "sha256:117347828")
    ∷ ("action_digest", str "sha256:406997947")
    ∷ ("audience", str "gate")
    ∷ ("status", str "active")
    ∷ ("not_before", str "@14")
    ∷ ("expires_at", str "@80")
    ∷ ("issued_at", str "@7")
    ∷ ("key_id", str "k")
    ∷ ("signature", str "s")
    ∷ [])

abbrev mandate : Fields
mandate = dict (
    ("schema", str "authorized-invocation/v1")
    ∷ ("mandate_id", str "m-1")
    ∷ ("request_id", str "req-1")
    ∷ ("relationship", str "MANDATE")
    ∷ ("requester_id", str "alice")
    ∷ ("requester_key_thumbprint", str "ka")
    ∷ ("executor_id", str "bob")
    ∷ ("executor_key_thumbprint", str "kb")
    ∷ ("request_authority_receipt_digest", str "sha256:456221927")
    ∷ ("action_digest", str "sha256:406997947")
    ∷ ("audience", str "gate")
    ∷ ("not_before", str "@30")
    ∷ ("expires_at", str "@70")
    ∷ ("issued_at", str "@20")
    ∷ ("nonce", str "invocation-nonce-1")
    ∷ ("key_id", str "k")
    ∷ ("signature", str "s")
    ∷ [])

abbrev pub receipt : Fields
receipt = dict (
    ("schema", str "border-authority-relation/v1")
    ∷ ("relationship", str "MANDATE")
    ∷ ("relation_id", str "rel-sha256:356753049")
    ∷ ("request_id", str "req-1")
    ∷ ("requester_id", str "alice")
    ∷ ("request_principal_id", str "pa")
    ∷ ("requester_key_thumbprint", str "ka")
    ∷ ("executor_id", str "bob")
    ∷ ("executor_principal_id", str "pb")
    ∷ ("executor_key_thumbprint", str "kb")
    ∷ ("request_authority_receipt_digest", str "sha256:456221927")
    ∷ ("executor_authority_receipt_digest", str "sha256:117347828")
    ∷ ("executor_credential_digest", str "sha256:640452752")
    ∷ ("mandate_digest", str "sha256:991914136")
    ∷ ("action_digest", str "sha256:406997947")
    ∷ ("audience", str "gate")
    ∷ ("verification", str "verified")
    ∷ ("issued_at", str "@50")
    ∷ ("not_before", str "@30")
    ∷ ("expires_at", str "@70")
    ∷ ("nonce", str "invocation-nonce-1")
    ∷ [])

abbrev pub at : ℕ → Time
at n = record { instant = n; zone = some utc }

abbrev pub material : Material
material = record {
  mandate = mandate;
  request_authority = request_authority;
  executor_authority = executor_authority;
  executor_credential = executor_credential;
  action = action;
}

abbrev pub agreeing : Fields → Result Bool
agreeing d = ok true

abbrev context : MandateContext
context = record {
  audience = "gate";
  verify_request_authority = agreeing;
  verify_executor_authority = agreeing;
  verify_executor_credential = agreeing;
  verify_invocation = agreeing;
  request_authorizes = λ d a. ok true;
  executor_authorizes = λ d a. ok true;
}

unfoldable pub mandate_runs : Unit {0}
unfolding runs document_digest canonicalize concat join replace value_eq format_time parse_time
    parse_utc Bindings.required match_items match_gets mandate_time active_authority validate_action
    check_invocation check_requester check_executor check_credential check_window source_digest
    relation_receipt settle_receipt normalize_invocation normalize_step
mandate_runs = tt

abbrev stored : Receipts
stored = ("invocation-nonce-1", ("sha256:134878683", receipt)) ∷ []

normalized : normalize_invocation runtime context material (at 50) [] ≡ ok (receipt, stored)
unfolding mandate_runs
normalized = refl

normalize_invocation-IsInvocation_example : IsInvocation runtime context material (at 50)
normalize_invocation-IsInvocation_example =
    normalize_invocation-IsInvocation runtime context material (at 50) [] (receipt, stored)
      normalized

abbrev request : ℕ → Request
request n = record { material = material; clock = at n }

answered : (normalize_step runtime context material (at 50) []).0 ≡ ok receipt
unfolding mandate_runs
answered = refl

answered_again :
    (normalize_step runtime context material (at 60) (
      receipts_after runtime context
        (request 55 ∷ [])
        (normalize_step runtime context material (at 50) []).1)).0
    ≡ ok receipt
unfolding mandate_runs receipts_after
answered_again = refl

normalize_step_once_example :
    (receipt ≡ receipt)
    × (source_digest runtime (request 60).material ≡ source_digest runtime (request 50).material)
normalize_step_once_example =
    normalize_step_once runtime context (request 50) (request 60) (request 55 ∷ []) []
      "invocation-nonce-1" receipt receipt refl refl answered answered_again
