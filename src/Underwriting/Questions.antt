-- ===== src/Underwriting/Questions.antt =====
-- border/underwriting.py: the questions.
use minority_prophet_border.Prelude.{
  Bool, List, String, [], false, if◌then◌else◌, not, ◌&&◌, ◌==◌, ◌||◌, ◌∷◌,
}
use minority_prophet_border.Py.Value.{Fields, Value, attr_get, bool, dict, get, is_null, truthy}
use minority_prophet_border.Py.Result.{Result, ok, ◌>>=◌}
use minority_prophet_border.Underwriting.{
  QuestionFinding, bound, direct, not_covered, partial, section,
}
use minority_prophet_border.Crossing.Json.{digest}
use minority_prophet_border.Py.Bindings.{is_empty}
use minority_prophet_border.Py.Printer.{Printer}

-- `tuple(k for k, v in fields.items() if v is None)`
abbrev pub null_keys : List (String × Value) → List String
null_keys [] = []
null_keys ((k, v) ∷ rest) = if is_null v then k ∷ null_keys rest else null_keys rest

abbrev pub reasons_or : Bool → String → List String → List String
reasons_or done why names = if done then [] else if why == "" then names else why ∷ []

unfoldable pub q_usage : Fields → Result QuestionFinding
q_usage b = do
  purpose ← attr_get (section b "declaration") "purpose"
  action ← attr_get (section b "declaration") "action"
  let done = truthy purpose && not (is_null action)
  ok (record {
    question_id = "UW-01";
    question = "How is the AI used?";
    coverage = partial;
    answered = done;
    evidence = dict (("purpose", purpose) ∷ ("action", action) ∷ []);
    missing = reasons_or done "" ("declaration.purpose" ∷ "declaration.action" ∷ []);
    note =
        "purpose is explanatory context, not a permission wildcard; enforcement uses the exact action, target, payload digest, authority, policy and time box. This shows what was done, not that the narrative is complete.";
  })

unfoldable pub q_autonomy : Printer → Fields → Result QuestionFinding
q_autonomy printer b = do
  binding ← bound printer (section b "admission_receipt") "policy_digest" (get b "policy")
  approval ← attr_get (section b "policy") "requires_human_approval"
  override ← attr_get (section b "policy") "override_permitted"
  mode ← attr_get (section b "admission_receipt") "control_mode"
  let done = binding.0 && not (is_null approval || is_null override || is_null mode)
  ok (record {
    question_id = "UW-02";
    question = "What is the agent's level of autonomy?";
    coverage = direct;
    answered = done;
    evidence = dict (
        ("requires_human_approval", approval)
        ∷ ("override_permitted", override)
        ∷ ("control_mode", mode)
        ∷ ("policy_binding_verified", bool binding.0)
        ∷ []);
    missing = reasons_or done binding.1 (
        "policy.requires_human_approval" ∷ "policy.override_permitted"
        ∷ "admission_receipt.control_mode" ∷ []);
    note =
        "autonomy is a per-action field here rather than a self-declared category, so it can be counted across traffic instead of asserted.";
  })

unfoldable pub q_governance : Printer → Fields → Result QuestionFinding
q_governance printer b = do
  binding ← bound printer (section b "admission_receipt") "policy_digest" (get b "policy")
  policy_id ← attr_get (section b "policy") "policy_id"
  version ← attr_get (section b "policy") "policy_version"
  digest ← attr_get (section b "policy") "policy_digest"
  let done = binding.0 && truthy policy_id && not (is_null version)
  ok (record {
    question_id = "UW-03";
    question = "Is there a formal governance framework, and was it in force?";
    coverage = direct;
    answered = done;
    evidence = dict (
        ("policy_id", policy_id)
        ∷ ("policy_version", version)
        ∷ ("policy_digest", digest)
        ∷ ("bound_to_admission", bool binding.0)
        ∷ []);
    missing = reasons_or done binding.1 ("policy.policy_id" ∷ "policy.policy_version" ∷ []);
    note =
        "'we have a framework' becomes 'this exact policy version authorised this action, and the digest shows it was not edited afterwards'.";
  })

-- A finding that rests on the presence of its fields alone
abbrev present_finding : String → String → List (String × Value) → String → QuestionFinding
present_finding question_id question fields note = record {
  question_id = question_id;
  question = question;
  coverage = partial;
  answered = is_empty (null_keys fields);
  evidence = dict fields;
  missing = null_keys fields;
  note = note;
}

unfoldable pub q_data_scope : Fields → Result QuestionFinding
q_data_scope b = do
  manifest ← attr_get (section b "declaration") "manifest_digest"
  action ← attr_get (section b "admission_receipt") "action_digest"
  audience ← attr_get (section b "declaration") "audience"
  ok (
      present_finding "UW-04" "What data can it access, and does consent cover it?"
        (("manifest_digest", manifest) ∷ ("action_digest", action) ∷ ("audience", audience) ∷ [])
        "scope is bound and tamper-evident. Consent lineage is NOT modelled — whether a legal basis covers that access is outside these artifacts.")

unfoldable pub q_monitoring : Fields → Result QuestionFinding
q_monitoring b = do
  issued ← attr_get (section b "admission_receipt") "issued_at"
  expires ← attr_get (section b "admission_receipt") "expires_at"
  ok (
      present_finding "UW-09" "Is it monitored, and was code reviewed before deployment?"
        (("issued_at", issued) ∷ ("expires_at", expires) ∷ [])
        "runtime monitoring is evidenced by continuous time-boxed admissions and the pre-execution recheck. Pre-deployment code review is NOT covered — a different control entirely.")

abbrev not_covered_finding : String → String → String → QuestionFinding
not_covered_finding question_id question note = record {
  question_id = question_id;
  question = question;
  coverage = not_covered;
  answered = false;
  evidence = dict [];
  missing = [];
  note = note;
}

unfoldable pub q_contracts : QuestionFinding
q_contracts =
    not_covered_finding "UW-05" "Do contracts address AI use?"
      "a legal artifact. Border evidence says nothing about it and does not pretend to."

unfoldable pub q_continuity : QuestionFinding
q_continuity =
    not_covered_finding "UW-08" "Business reliance and alternative processes"
      "operational continuity, not an admission-time property."
