-- ===== src/Tests/Underwriting.antt =====
-- A bundle of one admission, and what a report says of it.
use minority_prophet_border.Py.Value.{Fields, Value, attr_get, bool, dict, get, obj, str}
use minority_prophet_border.Underwriting.Evidence.{
  IsBound, policy_questions-IsBound, q_controls-IsBound,
}
use minority_prophet_border.Underwriting.{
  QuestionFinding, add_value, bound, chain, chain_loop, chain_problem, compare_digest, direct,
  section, values_of,
}
use minority_prophet_border.Prelude.{All, [], false, length, refl, true, ◌+◌, ◌||◌, ◌∷◌, ◌≡◌}
use minority_prophet_border.Py.Result.{ok}
use minority_prophet_border.Underwriting.Questions.{
  q_autonomy, q_continuity, q_contracts, q_data_scope, q_governance, q_monitoring, q_usage,
}
use minority_prophet_border.Underwriting.Report.{
  UnderwritingReport, all_findings, answered_ids, assess, assess_receipt, out_of_scope_ids,
  unanswered_ids,
}
use minority_prophet_border.Tests.Web.{value_or}
use minority_prophet_border.Py.Text.{concat}
use minority_prophet_border.Py.Equality.{value_eq}
use minority_prophet_border.Underwriting.Report.Partition.{IsHonest, assess-IsPartition}
use minority_prophet_border.Underwriting.Controls.{
  check_bindings, event_finding, no_event, q_accountability, q_controls, q_third_party,
}
use minority_prophet_border.Jcs.{canonicalize}
use minority_prophet_border.Tests.Runtime.{runs, runtime}
use minority_prophet_border.Admission.Base.{document_digest}
use minority_prophet_border.Py.Printer.{Printer}

abbrev bundle : Fields
bundle = dict (
    (
      "admission_receipt",
      obj (
          dict (
            ("request_id", str "r-1")
            ∷ ("decision", str "admit")
            ∷ ("control_mode", str "none")
            ∷ ("declaration_digest", str "sha256:528652663")
            ∷ ("authority_receipt_digest", str "sha256:786565083")
            ∷ ("policy_digest", str "sha256:684136069")
            ∷ ("action_digest", str "a")
            ∷ ("subject_id", str "s")
            ∷ ("principal_id", str "p")
            ∷ ("delegation_id", str "d")
            ∷ ("issued_at", str "@1")
            ∷ ("expires_at", str "@9")
            ∷ [])),
    )
    ∷ (
      "declaration",
      obj (
          dict (
            ("purpose", str "pay")
            ∷ ("action", obj (dict (("type", str "pay") ∷ [])))
            ∷ ("subject_id", str "s")
            ∷ ("principal_id", str "p")
            ∷ ("delegation_id", str "d")
            ∷ ("manifest_digest", str "m")
            ∷ ("audience", str "gate")
            ∷ [])),
    )
    ∷ (
      "authority",
      obj (
          dict (
            ("subject_id", str "s") ∷ ("principal_id", str "p") ∷ ("delegation_id", str "d") ∷ [])),
    )
    ∷ (
      "policy",
      obj (
          dict (
            ("policy_id", str "pol")
            ∷ ("policy_version", str "1")
            ∷ ("requires_human_approval", bool false)
            ∷ ("override_permitted", bool false)
            ∷ [])),
    )
    ∷ [])

abbrev edited : Fields
edited = dict (
    (
      "admission_receipt",
      obj (
          dict (
            ("request_id", str "r-1")
            ∷ ("decision", str "admit")
            ∷ ("control_mode", str "none")
            ∷ ("declaration_digest", str "sha256:528652663")
            ∷ ("authority_receipt_digest", str "sha256:786565083")
            ∷ ("policy_digest", str "sha256:684136069")
            ∷ ("action_digest", str "a")
            ∷ ("subject_id", str "s")
            ∷ ("principal_id", str "p")
            ∷ ("delegation_id", str "d")
            ∷ ("issued_at", str "@1")
            ∷ ("expires_at", str "@9")
            ∷ [])),
    )
    ∷ (
      "declaration",
      obj (
          dict (
            ("purpose", str "pay")
            ∷ ("action", obj (dict (("type", str "pay") ∷ [])))
            ∷ ("subject_id", str "s")
            ∷ ("principal_id", str "p")
            ∷ ("delegation_id", str "d")
            ∷ ("manifest_digest", str "m")
            ∷ ("audience", str "gate")
            ∷ [])),
    )
    ∷ (
      "authority",
      obj (
          dict (
            ("subject_id", str "s") ∷ ("principal_id", str "p") ∷ ("delegation_id", str "d") ∷ [])),
    )
    ∷ (
      "policy",
      obj (
          dict (
            ("policy_id", str "pol")
            ∷ ("policy_version", str "1")
            ∷ ("requires_human_approval", bool false)
            ∷ ("override_permitted", bool true)
            ∷ [])),
    )
    ∷ [])

abbrev unsigned : Fields
unsigned = dict (
    (
      "admission_receipt",
      obj (
          dict (
            ("request_id", str "r-1")
            ∷ ("decision", str "admit")
            ∷ ("control_mode", str "none")
            ∷ ("declaration_digest", str "sha256:528652663")
            ∷ ("authority_receipt_digest", str "sha256:786565083")
            ∷ ("policy_digest", str "sha256:684136069")
            ∷ ("action_digest", str "a")
            ∷ ("subject_id", str "s")
            ∷ ("principal_id", str "p")
            ∷ ("delegation_id", str "d")
            ∷ ("issued_at", str "@1")
            ∷ ("expires_at", str "@9")
            ∷ [])),
    )
    ∷ (
      "declaration",
      obj (
          dict (
            ("purpose", str "edited")
            ∷ ("action", obj (dict (("type", str "pay") ∷ [])))
            ∷ ("subject_id", str "s")
            ∷ ("principal_id", str "p")
            ∷ ("delegation_id", str "d")
            ∷ ("manifest_digest", str "m")
            ∷ ("audience", str "gate")
            ∷ [])),
    )
    ∷ (
      "authority",
      obj (
          dict (
            ("subject_id", str "s") ∷ ("principal_id", str "p") ∷ ("delegation_id", str "d") ∷ [])),
    )
    ∷ (
      "policy",
      obj (
          dict (
            ("policy_id", str "pol")
            ∷ ("policy_version", str "1")
            ∷ ("requires_human_approval", bool false)
            ∷ ("override_permitted", bool false)
            ∷ [])),
    )
    ∷ [])

abbrev printer : Printer
printer = record { base = runtime; str_of = λ v. "value"; repr_of = λ v. "value" }

unfoldable report_runs : Unit {0}
unfolding runs value_eq document_digest canonicalize concat compare_digest bound add_value values_of
    chain_problem chain_loop chain q_usage q_autonomy q_governance q_data_scope q_monitoring
    q_contracts q_continuity check_bindings q_controls q_third_party no_event event_finding
    q_accountability answered_ids unanswered_ids out_of_scope_ids all_findings assess_receipt assess
report_runs = tt

abbrev no_report : UnderwritingReport
no_report = record { schema = ""; request_id = ""; findings = [] }

abbrev no_finding : QuestionFinding
no_finding = record {
  question_id = "";
  question = "";
  coverage = direct;
  answered = false;
  evidence = dict [];
  missing = [];
  note = "";
}

abbrev report : UnderwritingReport
unfolding report_runs
report = value_or no_report (assess printer bundle)

assessed : assess printer bundle ≡ ok report
unfolding report_runs
assessed = refl

answers :
    (answered_ids report
      ≡ "UW-01" ∷ "UW-02" ∷ "UW-03" ∷ "UW-04" ∷ "UW-06" ∷ "UW-07" ∷ "UW-09" ∷ "UW-10" ∷ [])
    × (out_of_scope_ids report ≡ "UW-05" ∷ "UW-08" ∷ [])
unfolding report_runs
answers = (refl, refl)

-- A policy edited after the admission leaves three questions unanswered.
edited_answers :
    unanswered_ids (value_or no_report (assess printer edited)) ≡ "UW-02" ∷ "UW-03" ∷ "UW-06" ∷ []
unfolding report_runs
edited_answers = refl

-- The question on third parties is answered all the same where the declaration is not the bound one.
unbound_third_party : (value_or no_finding (q_third_party printer unsigned)).answered ≡ true
unfolding report_runs
unbound_third_party = refl

abbrev autonomy : QuestionFinding
unfolding report_runs
autonomy = value_or no_finding (q_autonomy printer bundle)

abbrev governance : QuestionFinding
unfolding report_runs
governance = value_or no_finding (q_governance printer bundle)

abbrev controls : QuestionFinding
unfolding report_runs
controls = value_or no_finding (q_controls printer bundle)

found :
    (q_autonomy printer bundle ≡ ok autonomy)
    × (q_governance printer bundle ≡ ok governance)
    × (q_controls printer bundle ≡ ok controls)
unfolding report_runs
found = (refl, refl, refl)

answered : ((autonomy.answered || governance.answered) ≡ true) × (controls.answered ≡ true)
unfolding report_runs
answered = (refl, refl)

policy_questions-IsBound_example :
    IsBound printer (section bundle "admission_receipt") "policy_digest" (get bundle "policy")
policy_questions-IsBound_example =
    policy_questions-IsBound printer bundle autonomy governance found.0 found.1 answered.0

q_controls-IsBound_example :
    IsBound printer
      (section bundle "admission_receipt")
      "declaration_digest"
      (get bundle "declaration")
    × IsBound printer
        (section bundle "admission_receipt")
        "authority_receipt_digest"
        (get bundle "authority")
    × IsBound printer (section bundle "admission_receipt") "policy_digest" (get bundle "policy")
    × ((decision : Value) × (attr_get (section bundle "admission_receipt") "decision" ≡ ok decision)
        × (value_eq decision (str "admit") ≡ true))
q_controls-IsBound_example = q_controls-IsBound printer bundle controls found.2 answered.1

assess-IsPartition_example :
    All IsHonest report.findings
    × (length (answered_ids report)
          + length (unanswered_ids report)
          + length (out_of_scope_ids report)
        ≡ length report.findings)
    × (length report.findings ≡ 10)
assess-IsPartition_example = assess-IsPartition printer bundle report assessed
