-- ===== src/Underwriting/Report.antt =====
-- border/underwriting.py: the report.
pub mod Partition
use minority_prophet_border.Underwriting.Questions.{
  q_autonomy, q_continuity, q_contracts, q_data_scope, q_governance, q_monitoring, q_usage,
}
use minority_prophet_border.Prelude.{
  Bool, List, String, [], false, if◌then◌else◌, length, map, not, true, ◌&&◌, ◌==◌, ◌∷◌,
}
use minority_prophet_border.Py.Value.{Fields, Value, dict, get, int, list, obj, str, truthy}
use minority_prophet_border.Py.Result.{Result, err, exn, ok, raise_if, value_error, ◌>>=◌, ◌>>◌}
use minority_prophet_border.Prelude.Int.{pos}
use minority_prophet_border.Underwriting.{Coverage, QuestionFinding, finding_payload, not_covered}
use minority_prophet_border.Underwriting.Controls.{q_accountability, q_controls, q_third_party}
use minority_prophet_border.Admission.Base.{document_digest}
use minority_prophet_border.Crossing.Json.{digest}
use minority_prophet_border.Py.Printer.{Printer, text_of}

pub record UnderwritingReport : Type 0 where
  pub schema : String
  pub request_id : String
  pub findings : List QuestionFinding

abbrev pub is_not_covered : Coverage → Bool
is_not_covered not_covered = true
is_not_covered _ = false

abbrev pub ids_where : (QuestionFinding → Bool) → List QuestionFinding → List String
ids_where test [] = []
ids_where test (f ∷ fs) =
    let rest = ids_where test fs in if test f then f.question_id ∷ rest else rest

unfoldable pub answered_ids : UnderwritingReport → List String
answered_ids report = ids_where (λ f. f.answered) report.findings

unfoldable pub unanswered_ids : UnderwritingReport → List String
unanswered_ids report =
    ids_where (λ f. not f.answered && not (is_not_covered f.coverage)) report.findings

unfoldable pub out_of_scope_ids : UnderwritingReport → List String
out_of_scope_ids report = ids_where (λ f. is_not_covered f.coverage) report.findings

abbrev texts : List String → Value
texts names = list (map str names)

-- `UnderwritingReport.payload`
unfoldable pub report_payload : UnderwritingReport → Fields
unfolding answered_ids unanswered_ids out_of_scope_ids
report_payload report = dict (
    ("schema", str report.schema)
    ∷ ("request_id", str report.request_id)
    ∷ ("findings", list (map (λ f. obj (finding_payload f)) report.findings))
    ∷ (
      "summary",
      obj (
          dict (
            ("answered", texts (answered_ids report))
            ∷ ("unanswered", texts (unanswered_ids report))
            ∷ ("out_of_scope", texts (out_of_scope_ids report))
            ∷ ("answered_count", int (pos (length (answered_ids report))))
            ∷ ("question_count", int (pos (length report.findings)))
            ∷ [])),
    )
    ∷ [])

-- `UnderwritingReport.receipt`
unfoldable pub report_receipt : Printer → UnderwritingReport → Result Fields
report_receipt printer report = do
  digest ← document_digest printer.base (obj (report_payload report))
  ok (dict (("payload", obj (report_payload report)) ∷ ("evidence_digest", str digest) ∷ []))

-- `_QUESTIONS`, each applied to the bundle
abbrev pub questions : Printer → Fields → List (Result QuestionFinding)
questions printer b =
    q_usage b
    ∷ q_autonomy printer b
    ∷ q_governance printer b
    ∷ q_data_scope b
    ∷ ok q_contracts
    ∷ q_controls printer b
    ∷ q_third_party printer b
    ∷ ok q_continuity
    ∷ q_monitoring b
    ∷ q_accountability printer b
    ∷ []

unfoldable pub all_findings : List (Result QuestionFinding) → Result (List QuestionFinding)
all_findings [] = ok []
all_findings (r ∷ rs) = do f ← r; fs ← all_findings rs; ok (f ∷ fs)

-- `str(receipt.get("request_id") or "")`
abbrev pub request_id_of : Printer → Fields → String
request_id_of printer receipt =
    if truthy (get receipt "request_id") then text_of printer (get receipt "request_id") else ""

unfoldable pub assess_receipt : Printer → Fields → Value → Result UnderwritingReport
assess_receipt printer b (obj receipt) = do
  raise_if (request_id_of printer receipt == "")
      (exn value_error "admission_receipt requires a request_id")
  findings ← all_findings (questions printer b)
  ok (record {
    schema = "border.underwriting-evidence.v0.1";
    request_id = request_id_of printer receipt;
    findings = findings;
  })
assess_receipt printer b _ = err (exn value_error "bundle requires an admission_receipt")

unfoldable pub assess : Printer → Fields → Result UnderwritingReport
assess printer b = assess_receipt printer b (get b "admission_receipt")
