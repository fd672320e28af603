-- ===== src/Underwriting/Report/Partition.antt =====
-- How a report divides its questions.
use mathlib.Core.Path.{subst}
use minority_prophet_border.Py.Value.{
  Fields, attr_get, Value, get, is_null, arr, bool, float, int, null, obj, str,
}
use minority_prophet_border.Prelude.{
  Bool, false, refl, true, ◌&&◌, ◌≡◌, All, Bool-cases, List, [], ap, arith, inl, inr, length, not,
  suc, ◌+◌, ◌∷◌, ◌==◌, ◌∙◌,
}
use minority_prophet_border.Py.Result.{◌>>=◌, Result, err, ok, Result-cases}
use minority_prophet_border.Underwriting.{QuestionFinding, section, bound, chain}
use minority_prophet_border.Underwriting.Report.{
  is_not_covered, UnderwritingReport, all_findings, answered_ids, assess, ids_where,
  out_of_scope_ids, unanswered_ids, assess_receipt, questions, request_id_of,
}
use minority_prophet_border.Underwriting.Questions.{
  q_usage, q_autonomy, q_data_scope, q_governance, q_monitoring, q_continuity, q_contracts,
}
use minority_prophet_border.Underwriting.Controls.{
  bound_documents, check_bindings, event_finding, no_event, q_accountability, q_controls,
  q_third_party,
}
use minority_prophet_border.Py.Printer.{Printer}

unfoldable pub Returns {ℓ} : {A : Type ℓ} → (A → Type 0) → Result A → Type 0
Returns P (err e) = Unit
Returns P (ok a) = P a

-- A question that is out of scope is not answered.
abbrev pub IsHonest : QuestionFinding → Type 0
IsHonest f = (f.answered && is_not_covered f.coverage) ≡ false

IsHonest-next :
    {A : Type 0} (r : Result A) (k : A → Result QuestionFinding)
    → ((a : A) → Returns IsHonest (k a))
    → Returns IsHonest (r >>= k)
unfolding Returns
IsHonest-next (err e) k h = tt
IsHonest-next (ok a) k h = h a

and_false : (b : Bool) → (b && false) ≡ false
and_false true = refl
and_false false = refl

q_usage-IsHonest : (b : Fields) → Returns IsHonest (q_usage b)
unfolding q_usage Returns
q_usage-IsHonest b =
    IsHonest-next (attr_get (section b "declaration") "purpose") _
      λ purpose. IsHonest-next (attr_get (section b "declaration") "action") _ λ action. and_false _

module _ (printer : Printer) (b : Fields) where
  q_autonomy-IsHonest : Returns IsHonest (q_autonomy printer b)
  unfolding q_autonomy Returns
  q_autonomy-IsHonest =
      IsHonest-next (bound printer (section b "admission_receipt") "policy_digest" (get b "policy"))
        _
        λ binding.
          IsHonest-next (attr_get (section b "policy") "requires_human_approval") _ λ approval.
            IsHonest-next (attr_get (section b "policy") "override_permitted") _ λ override.
              IsHonest-next (attr_get (section b "admission_receipt") "control_mode") _
                λ mode. and_false _

  q_governance-IsHonest : Returns IsHonest (q_governance printer b)
  unfolding q_governance Returns
  q_governance-IsHonest =
      IsHonest-next (bound printer (section b "admission_receipt") "policy_digest" (get b "policy"))
        _
        λ binding. IsHonest-next (attr_get (section b "policy") "policy_id") _ λ policy_id.
          IsHonest-next (attr_get (section b "policy") "policy_version") _ λ version.
            IsHonest-next (attr_get (section b "policy") "policy_digest") _ λ digest. and_false _

  q_data_scope-IsHonest : Returns IsHonest (q_data_scope b)
  unfolding q_data_scope Returns
  q_data_scope-IsHonest =
      IsHonest-next (attr_get (section b "declaration") "manifest_digest") _ λ manifest.
        IsHonest-next (attr_get (section b "admission_receipt") "action_digest") _ λ action.
          IsHonest-next (attr_get (section b "declaration") "audience") _ λ audience. and_false _

  q_monitoring-IsHonest : Returns IsHonest (q_monitoring b)
  unfolding q_monitoring Returns
  q_monitoring-IsHonest =
      IsHonest-next (attr_get (section b "admission_receipt") "issued_at") _ λ issued.
        IsHonest-next (attr_get (section b "admission_receipt") "expires_at") _
          λ expires. and_false _

  q_controls-IsHonest : Returns IsHonest (q_controls printer b)
  unfolding q_controls Returns
  q_controls-IsHonest =
      IsHonest-next (attr_get (section b "admission_receipt") "decision") _ λ decision.
        IsHonest-next (check_bindings printer (section b "admission_receipt") (bound_documents b)) _
          λ checks. and_false _

  q_third_party-IsHonest : Returns IsHonest (q_third_party printer b)
  unfolding q_third_party Returns
  q_third_party-IsHonest =
      IsHonest-next
        (chain printer (get b "declaration" ∷ get b "authority" ∷ get b "admission_receipt" ∷ [])) _
        λ problems.
          IsHonest-next (attr_get (section b "admission_receipt") "principal_id") _ λ principal.
            IsHonest-next (attr_get (section b "admission_receipt") "delegation_id") _ λ delegation.
              IsHonest-next (attr_get (section b "admission_receipt") "subject_id") _
                λ subject. and_false _

  event_finding-IsHonest :
      (receipt event : Value) → Returns IsHonest (event_finding printer receipt event)
  unfolding event_finding Returns
  event_finding-IsHonest receipt event =
      IsHonest-next (bound printer receipt "control_event_digest" event) _ λ binding.
        IsHonest-next (attr_get event "human_id") _ λ human.
          IsHonest-next (attr_get event "role") _ λ role.
            IsHonest-next (attr_get event "authority_ref") _ λ reference.
              IsHonest-next (attr_get event "co_approvers") _ λ approvers.
                IsHonest-next (attr_get event "authentication_digest") _ λ authentication.
                  IsHonest-next (attr_get event "original_decision") _
                    λ original. IsHonest-next (attr_get event "mode") _ λ mode. and_false _

  q_accountability-IsHonest : Returns IsHonest (q_accountability printer b)
  unfolding q_accountability no_event Returns
  q_accountability-IsHonest =
      IsHonest-next (attr_get (section b "admission_receipt") "control_mode") _ λ mode.
        elim (Bool-cases (is_null (get b "control_event"))) [
          | inl y ↦ rw y (and_false _)
          | inr n ↦ rw n (event_finding-IsHonest _ _)
        ]

ok_list : {fs gs : List QuestionFinding} → ok fs ≡ ok gs → fs ≡ gs
ok_list e = cc

-- Every one of the questions gives a finding, in their order.
all_findings-IsHonest :
    (rs : List (Result QuestionFinding)) (fs : List QuestionFinding)
    → All (Returns IsHonest) rs
    → all_findings rs ≡ ok fs
    → All IsHonest fs × (length fs ≡ length rs)
unfolding all_findings Returns
all_findings-IsHonest [] fs h e =
    subst (λ fs. All IsHonest fs × (length fs ≡ 0)) (ok_list e) (tt, refl)
all_findings-IsHonest (err x ∷ rs) fs h e = absurd cc
all_findings-IsHonest (ok f ∷ rs) fs (honest, h) e = elim (Result-cases (all_findings rs)) [
  | inr (x, q) ↦ absurd (cc (rw q at e))
  | inl (rest, q) ↦
      let (later, counted) = all_findings-IsHonest rs rest h q in
      subst (λ fs. All IsHonest fs × (length fs ≡ length (ok f ∷ rs))) (ok_list (rw q at e))
        ((honest, later), ap suc counted)
]

-- An answered finding, an unanswered one and one out of scope are counted once.
parts_length :
    (fs : List QuestionFinding)
    → All IsHonest fs
    → length (ids_where (λ f. f.answered) fs)
        + length (ids_where (λ f. not f.answered && not (is_not_covered f.coverage)) fs)
        + length (ids_where (λ f. is_not_covered f.coverage) fs)
      ≡ length fs
parts_length [] h = refl
parts_length (f ∷ fs) (honest, h) = ground (arith, parts_length fs h)

ok_report : {r s : UnderwritingReport} → ok r ≡ ok s → r ≡ s
ok_report e = cc

assess_receipt_findings :
    (printer : Printer) (b : Fields) (v : Value) (report : UnderwritingReport)
    → assess_receipt printer b v ≡ ok report
    → all_findings (questions printer b) ≡ ok report.findings
unfolding assess_receipt
assess_receipt_findings printer b (obj receipt) report h =
    elim (Bool-cases (request_id_of printer receipt == "")) [
      | inl y ↦ absurd (cc (rw y at h))
      | inr n ↦ elim (Result-cases (all_findings (questions printer b))) [
        | inr (e, q) ↦ absurd (cc (rw (n, q) at h))
        | inl (fs, q) ↦ q ∙ ap ok (ap (λ r. r.findings) (ok_report (rw (n, q) at h)))
      ]
    ]
assess_receipt_findings printer b (arr vs) report h = absurd cc
assess_receipt_findings printer b (str s) report h = absurd cc
assess_receipt_findings printer b (float r) report h = absurd cc
assess_receipt_findings printer b (int n) report h = absurd cc
assess_receipt_findings printer b (bool c) report h = absurd cc
assess_receipt_findings printer b null report h = absurd cc

questions-IsHonest : (printer : Printer) (b : Fields) → All (Returns IsHonest) (questions printer b)
unfolding Returns q_contracts q_continuity
questions-IsHonest printer b = (
  q_usage-IsHonest b,
  (
    q_autonomy-IsHonest printer b,
    (
      q_governance-IsHonest printer b,
      (
        q_data_scope-IsHonest printer b,
        (
          refl,
          (
            q_controls-IsHonest printer b,
            (
              q_third_party-IsHonest printer b,
              (refl, (q_monitoring-IsHonest printer b, (q_accountability-IsHonest printer b, tt))),
            ),
          ),
        ),
      ),
    ),
  ),
)

-- A report has a finding for each of the ten questions, each of them is either answered, or
-- unanswered, or out of scope, and none that the evidence cannot cover is answered.
pub assess-IsPartition :
    (printer : Printer) (b : Fields) (report : UnderwritingReport)
    → assess printer b ≡ ok report
    → All IsHonest report.findings
      × (length (answered_ids report)
            + length (unanswered_ids report)
            + length (out_of_scope_ids report)
          ≡ length report.findings)
      × (length report.findings ≡ 10)
unfolding assess answered_ids unanswered_ids out_of_scope_ids
assess-IsPartition printer b report h =
    let found = assess_receipt_findings printer b (get b "admission_receipt") report h in
    let (honest, counted) =
      all_findings-IsHonest (questions printer b) report.findings (questions-IsHonest printer b)
        found in
    (honest, parts_length report.findings honest, counted)
