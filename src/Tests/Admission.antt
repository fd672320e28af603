-- ===== src/Tests/Admission.antt =====
-- The admission controller and the Gate on one trip.
use minority_prophet_border.Prelude.{
  String, ◌++◌, ◌≡◌, refl, Bool, true, false, none, some, List, [], ◌∷◌, arith,
}
use minority_prophet_border.Jcs.{canonicalize}
use minority_prophet_border.Py.Result.{Result, ok, err}
use minority_prophet_border.Py.Text.{concat, join, replace}
use minority_prophet_border.Py.Value.{
  Value, null, bool, str, obj, Fields, dict, list, get, without, put,
}
use minority_prophet_border.Py.Equality.{value_eq}
use minority_prophet_border.Py.Clock.{Time, utc}
use minority_prophet_border.Py.Bindings.{match_items, match_gets, format_time}
use minority_prophet_border.Admission.Base.{document_digest, refused, required, time_field}
use minority_prophet_border.Admission.Validation.{
  Callbacks, validate_declaration, validate_authority, route_allowed, validate_control,
}
use minority_prophet_border.Admission.Controller.{
  Admissions, admitted, attempt_digest, find, store, fresh, replayed, previous_of, decide, admit,
  make_receipt, control_part,
}
use minority_prophet_border.Admission.Gate.{
  Presented, stamp_bindings, expected_digests, verify_gate_context,
}
use minority_prophet_border.Admission.Controller.Soundness.{IsAdmissible, admit-IsAdmissible}
use minority_prophet_border.Admission.Controller.Replay.{Attempt, admit_one, run, admit-settles}
use minority_prophet_border.Admission.Acceptance.{admit-verify_gate_context}
use minority_prophet_border.Py.Equality.Laws.{well_formed}
use minority_prophet_border.Tests.Runtime.{runtime, runs}

unfoldable pub admission_runs : Unit {0}
unfolding runs document_digest canonicalize concat join replace value_eq required time_field
    match_items match_gets format_time validate_declaration validate_authority route_allowed
    validate_control attempt_digest find store fresh replayed decide admit make_receipt control_part
    without put stamp_bindings expected_digests verify_gate_context
admission_runs = tt

abbrev action : Fields
action = dict (
    ("type", str "archive_page")
    ∷ ("target", str "notion:page:123")
    ∷ ("payload_digest", str "sha256:00")
    ∷ [])

abbrev declaration_for : String → Fields
declaration_for purpose = dict (
    ("schema", str "trip-declaration/v1")
    ∷ ("request_id", str "req-1")
    ∷ ("subject_id", str "agent-a")
    ∷ ("principal_id", str "owner-1")
    ∷ ("delegation_id", str "del-1")
    ∷ ("manifest_digest", str "sha256:11")
    ∷ ("purpose", str purpose)
    ∷ ("action", obj action)
    ∷ ("created_at", str "@10")
    ∷ ("not_before", str "@20")
    ∷ ("expires_at", str "@90")
    ∷ ("nonce", str "nonce-1")
    ∷ ("audience", str "gate-1")
    ∷ [])

abbrev declaration : Fields
declaration = declaration_for "archive"

abbrev authority : Fields
authority = dict (
    ("receipt_id", str "rcpt-1")
    ∷ ("request_id", str "req-1")
    ∷ ("subject_id", str "agent-a")
    ∷ ("principal_id", str "owner-1")
    ∷ ("delegation_id", str "del-1")
    ∷ ("action_digest", str "sha256:668537886")
    ∷ ("status", str "active")
    ∷ ("decision", str "allow")
    ∷ ("not_before", str "@15")
    ∷ ("expires_at", str "@80")
    ∷ ("issued_at", str "@12")
    ∷ ("key_id", str "key-1")
    ∷ ("signature", str "sig")
    ∷ [])

abbrev policy_material : List (String × Value)
policy_material =
    ("policy_id", str "pol-1")
    ∷ ("policy_version", str "7")
    ∷ ("audience", str "gate-1")
    ∷ (
      "permitted_routes",
      list (
          obj (dict (("action_type", str "archive_page") ∷ ("target", str "notion:page:123") ∷ []))
          ∷ []),
    )
    ∷ ("requires_human_approval", bool false)
    ∷ ("override_permitted", bool false)
    ∷ []

abbrev policy : Fields
policy = dict (policy_material ++ ("policy_digest", str "sha256:584109593") ∷ [])

abbrev trusting : Callbacks
trusting = record {
  verify_authority = λ d. ok true;
  verify_control = λ d. ok true;
  human_is_authorized = λ d. ok true;
}

abbrev noon : Time
noon = record { instant = 50; zone = some utc }

-- What the controller issues for this trip.
abbrev receipt : Fields
receipt = dict (
    ("schema", str "border-admission/v1")
    ∷ ("admission_id", str "adm-sha256:638568789")
    ∷ ("request_id", str "req-1")
    ∷ ("subject_id", str "agent-a")
    ∷ ("principal_id", str "owner-1")
    ∷ ("delegation_id", str "del-1")
    ∷ ("action_digest", str "sha256:668537886")
    ∷ ("declaration_digest", str "sha256:492784580")
    ∷ ("authority_receipt_digest", str "sha256:864705984")
    ∷ ("policy_digest", str "sha256:584109593")
    ∷ ("control_event_digest", null)
    ∷ ("control_mode", str "autonomous")
    ∷ ("decision", str "admit")
    ∷ ("issued_at", str "@50")
    ∷ ("expires_at", str "@80")
    ∷ ("nonce", str "nonce-1")
    ∷ [])

abbrev stored : Admissions
stored = (str "nonce-1", "sha256:922314761", receipt) ∷ []

trip :
    admit runtime trusting declaration authority policy none noon []
    ≡ (ok (admitted receipt), stored)
unfolding admission_runs
trip = refl

issued :
    (admit runtime trusting declaration authority policy none noon []).0 ≡ ok (admitted receipt)
issued = rw trip

none_before : previous_of (get declaration "nonce") [] ≡ none
unfolding find
none_before = refl

attempted : attempt_digest runtime declaration authority policy none ≡ ok "sha256:922314761"
unfolding admission_runs
attempted = refl

admit-IsAdmissible_example :
    IsAdmissible runtime trusting declaration authority policy none noon
    × ((attempt : String) × (attempt_digest runtime declaration authority policy none ≡ ok attempt)
        × ((admit runtime trusting declaration authority policy none noon []).1
            ≡ store (get declaration "nonce") (attempt, receipt) []))
admit-IsAdmissible_example =
    admit-IsAdmissible runtime trusting declaration authority policy none noon [] receipt
      none_before issued

abbrev first : Attempt
first = record {
  declaration = declaration;
  authority = authority;
  policy = policy;
  control = none;
  now = noon;
}

-- A later attempt under the same nonce with another purpose.
abbrev substituted : Attempt
substituted = record first { declaration = declaration_for "exfiltrate" }

resubmitted :
    attempt_digest runtime (declaration_for "exfiltrate") authority policy none
    ≡ ok "sha256:506365757"
unfolding admission_runs
resubmitted = refl

abbrev history : List Attempt
history = substituted ∷ first ∷ []

abbrev after : Admissions
after = run runtime trusting (admit_one runtime trusting first []).1 history

admit-settles_example :
    admit_one runtime trusting substituted after
    ≡ (err (refused "declaration nonce replay with substituted material"), after)
admit-settles_example =
    admit-settles runtime trusting first substituted [] "nonce-1" "sha256:922314761"
      "sha256:506365757" receipt history refl none_before attempted issued refl resubmitted

abbrev bindings : Fields
bindings = dict (
    ("admission_receipt_digest", str "sha256:659779198")
    ∷ ("declaration_digest", str "sha256:492784580")
    ∷ ("authority_receipt_digest", str "sha256:864705984")
    ∷ ("policy_digest", str "sha256:584109593")
    ∷ ("action_digest", str "sha256:668537886")
    ∷ ("control_event_digest", null)
    ∷ ("decision_point", str "gate-1")
    ∷ ("expires_at", str "@80")
    ∷ [])

stamps : stamp_bindings runtime receipt (str "gate-1") ≡ ok bindings
unfolding admission_runs
stamps = refl

abbrev agreeing : Fields → Result Bool
agreeing d = ok true

abbrev later : Time
later = record { instant = 79; zone = some utc }

abbrev ends : Time
ends = record { instant = 80; zone = some utc }

abbrev documents : Presented
documents = record {
  declaration = declaration;
  authority = authority;
  policy = policy;
  candidate_action = action;
  control = none;
}

ends_at : time_field runtime (str "@80") "admission.expires_at" ≡ ok ends
unfolding admission_runs
ends_at = refl

action_formed : well_formed (obj action) ≡ true
unfolding well_formed
action_formed = refl

admit-verify_gate_context_example :
    verify_gate_context runtime agreeing agreeing bindings receipt documents later ≡ ok tt
admit-verify_gate_context_example =
    admit-verify_gate_context runtime trusting declaration authority policy action none noon []
      receipt none_before issued refl agreeing agreeing bindings "gate-1" later ends action_formed
      stamps refl refl ends_at refl refl (omega arith)
