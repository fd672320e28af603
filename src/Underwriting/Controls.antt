-- ===== src/Underwriting/Controls.antt =====
-- border/underwriting.py: the questions on controls, on third parties and on approval.
use minority_prophet_border.Underwriting.{QuestionFinding, bound, chain, direct, section}
use minority_prophet_border.Py.Value.{
  Fields, Value, attr_get, bool, dict, get, is_null, null, str, truthy,
}
use minority_prophet_border.Py.Text.{concat}
use minority_prophet_border.Prelude.{List, String, [], false, if◌then◌else◌, not, ◌&&◌, ◌||◌, ◌∷◌}
use minority_prophet_border.Py.Result.{Result, ok, ◌>>=◌}
use minority_prophet_border.Py.Equality.{value_eq}
use minority_prophet_border.Py.Bindings.{is_empty}
use minority_prophet_border.Underwriting.Questions.{reasons_or}
use minority_prophet_border.Py.Printer.{Printer}

-- The loop of `_q_controls`: what it verified, and its problems
pub record Checks : Type 0 where
  pub verified : List (String × Value)
  pub problems : List String

unfoldable pub check_bindings : Printer → Value → List (String × Value) → Result Checks
unfolding concat
check_bindings printer receipt [] = ok (record { verified = []; problems = [] })
check_bindings printer receipt ((name, document) ∷ rest) = do
  binding ← bound printer receipt name document
  later ← check_bindings printer receipt rest
  ok (record {
    verified = (concat (name ∷ "_verified" ∷ []), bool binding.0) ∷ later.verified;
    problems = if binding.0 then later.problems else binding.1 ∷ later.problems;
  })

abbrev pub bound_documents : Fields → List (String × Value)
bound_documents b =
    ("declaration_digest", get b "declaration")
    ∷ ("authority_receipt_digest", get b "authority")
    ∷ ("policy_digest", get b "policy")
    ∷ []

unfoldable pub q_controls : Printer → Fields → Result QuestionFinding
unfolding concat
q_controls printer b = do
  decision ← attr_get (section b "admission_receipt") "decision"
  checks ← check_bindings printer (section b "admission_receipt") (bound_documents b)
  let admitted = value_eq decision (str "admit")
  ok (record {
    question_id = "UW-06";
    question = "What security controls are in place?";
    coverage = direct;
    answered = is_empty checks.problems && admitted;
    evidence = dict (("decision", decision) ∷ checks.verified);
    missing =
        if is_empty checks.problems && not admitted
        then concat ("decision is " ∷ printer.repr_of decision ∷ ", not 'admit'" ∷ []) ∷ []
        else checks.problems;
    note =
        "the effective permit is the intersection of declaration, authority and policy. Signature failure, substitution, revoked authority, expiration or unauthorized control are non-overridable. This is that specific control, not a general security attestation.";
  })

unfoldable pub q_third_party : Printer → Fields → Result QuestionFinding
q_third_party printer b = do
  problems ←
      chain printer (get b "declaration" ∷ get b "authority" ∷ get b "admission_receipt" ∷ [])
  principal ← attr_get (section b "admission_receipt") "principal_id"
  delegation ← attr_get (section b "admission_receipt") "delegation_id"
  subject ← attr_get (section b "admission_receipt") "subject_id"
  let done = is_empty problems && not (is_null principal || is_null delegation || is_null subject)
  ok (record {
    question_id = "UW-07";
    question = "Third-party AI dependence and oversight";
    coverage = direct;
    answered = done;
    evidence = dict (
        ("principal_id", principal)
        ∷ ("delegation_id", delegation)
        ∷ ("subject_id", subject)
        ∷ ("chain_consistent", bool (is_empty problems))
        ∷ []);
    missing =
        if is_empty problems
        then reasons_or done "" ("principal_id" ∷ "delegation_id" ∷ "subject_id" ∷ [])
        else problems;
    note =
        "authority only narrows across each hop. Unmodified A2A 1.1.0 / MCP 1.30.0 / x402 2.25.0 accepted all four semantic substitutions at their admission surfaces, so an enterprise on standard agent protocols has no protocol-level evidence here.";
  })

-- Where no one is said to have intervened
unfoldable pub no_event : Printer → Value → QuestionFinding
unfolding concat
no_event printer mode =
    let done = value_eq mode (str "none") in
    record {
      question_id = "UW-10";
      question = "Who approved this, and were they permitted to?";
      coverage = direct;
      answered = done;
      evidence = dict (("control_mode", mode) ∷ ("human_control_event", null) ∷ []);
      missing =
          if done
          then []
          else concat ("control_event absent while control_mode is " ∷ printer.repr_of mode ∷ [])
            ∷ [];
      note = "no human intervention is claimed for this admission.";
    }

abbrev falsy_keys : List (String × Value) → List String
falsy_keys [] = []
falsy_keys ((k, v) ∷ rest) = if truthy v then falsy_keys rest else k ∷ falsy_keys rest

unfoldable pub event_finding : Printer → Value → Value → Result QuestionFinding
event_finding printer receipt event = do
  binding ← bound printer receipt "control_event_digest" event
  human ← attr_get event "human_id"
  role ← attr_get event "role"
  reference ← attr_get event "authority_ref"
  approvers ← attr_get event "co_approvers"
  authentication ← attr_get event "authentication_digest"
  original ← attr_get event "original_decision"
  mode ← attr_get event "mode"
  let missing = falsy_keys (
      ("human_id", human)
      ∷ ("role", role)
      ∷ ("authority_ref", reference)
      ∷ ("authentication_digest", authentication)
      ∷ [])
  ok (record {
    question_id = "UW-10";
    question = "Who approved this, and were they permitted to?";
    coverage = direct;
    answered = binding.0 && is_empty missing;
    evidence = dict (
        ("human_id", human)
        ∷ ("role", role)
        ∷ ("authority_ref", reference)
        ∷ ("co_approvers", approvers)
        ∷ ("authentication_digest", authentication)
        ∷ ("original_decision", original)
        ∷ ("mode", mode)
        ∷ ("bound_to_admission", bool binding.0)
        ∷ []);
    missing = if is_empty missing then reasons_or false binding.1 [] else missing;
    note =
        "authentication alone is insufficient — the human-authority callback must confirm the person may perform that intervention. Most approval logs prove who clicked, not whether they were entitled to.";
  })

unfoldable pub q_accountability : Printer → Fields → Result QuestionFinding
q_accountability printer b = do
  mode ← attr_get (section b "admission_receipt") "control_mode"
  if is_null (get b "control_event")
      then ok (no_event printer mode)
      else event_finding printer (section b "admission_receipt") (get b "control_event")
