-- ===== src/Underwriting/Evidence.antt =====
-- What an answered question rests on.
use minority_prophet_border.Py.Result.{Result, Result-cases, ok}
use minority_prophet_border.Prelude.{
  Bool, Bool-cases, String, false, inl, inr, true, ◌≡◌, &&-eq-true, ap, ◌∙◌, All, List, [], ◌||◌,
  ◌∷◌, not, ◌&&◌,
}
use minority_prophet_border.Underwriting.{bound, compare_digest, QuestionFinding, section}
use minority_prophet_border.Py.Value.{Value, attr_get, is_null, str, Fields, get, truthy}
use minority_prophet_border.Admission.Base.{document_digest}
use minority_prophet_border.Py.Equality.{value_eq}
use minority_prophet_border.Underwriting.Questions.{q_autonomy, q_governance}
use minority_prophet_border.Underwriting.Controls.{
  Checks, bound_documents, check_bindings, q_controls,
}
use minority_prophet_border.Admission.Controller.{admitted}
use minority_prophet_border.Py.Bindings.{is_empty}
use minority_prophet_border.Py.Printer.{Printer}

-- The document is there, and its digest is the one that the receipt records.
pub record IsBound (printer : Printer) (receipt : Value) (name : String) (document : Value)
    : Type 0 where
  pub digest : String
  pub computed : document_digest printer.base document ≡ ok digest
  pub recorded : Value
  pub read : attr_get receipt name ≡ ok recorded
  pub same : value_eq recorded (str digest) ≡ true
  pub supplied : is_null document ≡ false

bound-IsBound :
    (printer : Printer) (receipt : Value) (name : String) (document : Value) (why : String)
    → bound printer receipt name document ≡ ok (true, why)
    → IsBound printer receipt name document
unfolding bound compare_digest
bound-IsBound printer receipt name document why h = elim (Result-cases (attr_get receipt name)) [
  | inr (e, q) ↦ absurd (cc (rw q at h))
  | inl (recorded, q) ↦ elim (Bool-cases (is_null recorded)) [
    | inl y ↦ absurd (not_bound (rw (q, y) at h))
    | inr n ↦ elim (Bool-cases (is_null document)) [
      | inl y ↦ absurd (not_bound (rw (q, n, y) at h))
      | inr m ↦ elim (Result-cases (document_digest printer.base document)) [
        | inr (e, d) ↦ absurd (cc (rw (q, n, m, d) at h))
        | inl (digest, d) ↦ elim (Bool-cases (value_eq recorded (str digest))) [
          | inr x ↦ absurd (not_bound (rw (q, n, m, d, x) at h))
          | inl y ↦ record {
            digest = digest;
            computed = d;
            recorded = recorded;
            read = q;
            same = y;
            supplied = m;
          }
        ]
      ]
    ]
  ]
]
  where
    not_bound : {a b : String} → ◌≡◌ {A = Result (Bool × String)} (ok (false, a)) (ok (true, b)) → ⊥
    not_bound e = cc

-- Each finding is the one that a step of the question gives.
bound_cases :
    (printer : Printer) (receipt : Value) (name : String) (document : Value)
    (binding : Bool × String)
    → bound printer receipt name document ≡ ok binding
    → binding.0 ≡ true
    → IsBound printer receipt name document
bound_cases printer receipt name document (true, why) h t =
    bound-IsBound printer receipt name document why h
bound_cases printer receipt name document (false, why) h t = absurd cc

answered_field : {f g : QuestionFinding} → ok f ≡ ok g → g.answered ≡ true → f.answered ≡ true
answered_field h t = ap (λ f. f.answered) (ok_finding h) ∙ t
  where
    ok_finding : {f g : QuestionFinding} → ok f ≡ ok g → f ≡ g
    ok_finding e = cc

q_autonomy-IsBound :
    (printer : Printer) (b : Fields) (f : QuestionFinding)
    → q_autonomy printer b ≡ ok f
    → f.answered ≡ true
    → IsBound printer (section b "admission_receipt") "policy_digest" (get b "policy")
unfolding q_autonomy
q_autonomy-IsBound printer b f h t =
    let receipt = section b "admission_receipt" in
    elim (Result-cases (bound printer receipt "policy_digest" (get b "policy"))) [
      | inr (e, q) ↦ absurd (cc (rw q at h))
      | inl (binding, q) ↦
          elim (Result-cases (attr_get (section b "policy") "requires_human_approval")) [
            | inr (e, a) ↦ absurd (cc (rw (q, a) at h))
            | inl (approval, a) ↦
                elim (Result-cases (attr_get (section b "policy") "override_permitted")) [
                  | inr (e, o) ↦ absurd (cc (rw (q, a, o) at h))
                  | inl (override, o) ↦ elim (Result-cases (attr_get receipt "control_mode")) [
                    | inr (e, m) ↦ absurd (cc (rw (q, a, o, m) at h))
                    | inl (mode, m) ↦
                        bound_cases printer receipt "policy_digest" (get b "policy") binding q
                          (&&-eq-true binding.0 _ (answered_field (rw (q, a, o, m) at h) t)).0
                  ]
                ]
          ]
    ]

q_governance-IsBound :
    (printer : Printer) (b : Fields) (f : QuestionFinding)
    → q_governance printer b ≡ ok f
    → f.answered ≡ true
    → IsBound printer (section b "admission_receipt") "policy_digest" (get b "policy")
unfolding q_governance
q_governance-IsBound printer b f h t =
    let receipt = section b "admission_receipt" in
    let policy = section b "policy" in
    elim (Result-cases (bound printer receipt "policy_digest" (get b "policy"))) [
      | inr (e, q) ↦ absurd (cc (rw q at h))
      | inl (binding, q) ↦ elim (Result-cases (attr_get policy "policy_id")) [
        | inr (e, a) ↦ absurd (cc (rw (q, a) at h))
        | inl (policy_id, a) ↦ elim (Result-cases (attr_get policy "policy_version")) [
          | inr (e, o) ↦ absurd (cc (rw (q, a, o) at h))
          | inl (version, o) ↦ elim (Result-cases (attr_get policy "policy_digest")) [
            | inr (e, m) ↦ absurd (cc (rw (q, a, o, m) at h))
            | inl (digest, m) ↦
                bound_cases printer receipt "policy_digest" (get b "policy") binding q
                  (&&-eq-true binding.0 (truthy policy_id)
                    (&&-eq-true (binding.0 && truthy policy_id) (not (is_null version))
                      (answered_field (rw (q, a, o, m) at h) t)).0).0
          ]
        ]
      ]
    ]

check_bindings-All :
    (printer : Printer) (receipt : Value) (documents : List (String × Value)) (checks : Checks)
    → check_bindings printer receipt documents ≡ ok checks
    → is_empty checks.problems ≡ true
    → All (λ d. IsBound printer receipt d.0 d.1) documents
unfolding check_bindings
check_bindings-All printer receipt [] checks h t = tt
check_bindings-All printer receipt ((name, document) ∷ rest) checks h t =
    elim (Result-cases (bound printer receipt name document)) [
      | inr (e, q) ↦ absurd (cc (rw q at h))
      | inl ((true, why), q) ↦ elim (Result-cases (check_bindings printer receipt rest)) [
        | inr (e, p) ↦ absurd (cc (rw (q, p) at h))
        | inl (later, p) ↦ (
          bound-IsBound printer receipt name document why q,
          check_bindings-All printer receipt rest later p
              (ap (λ c. is_empty c.problems) (ok_checks (rw (q, p) at h)) ∙ t),
        )
      ]
      | inl ((false, why), q) ↦ elim (Result-cases (check_bindings printer receipt rest)) [
        | inr (e, p) ↦ absurd (cc (rw (q, p) at h))
        | inl (later, p) ↦
            absurd (cc (ap (λ c. is_empty c.problems) (ok_checks (rw (q, p) at h)) ∙ t))
      ]
    ]
  where
    ok_checks : {c d : Checks} → ok c ≡ ok d → c ≡ d
    ok_checks e = cc

-- The questions on autonomy and on governance are answered only for a policy that is there and whose
-- digest is the one that the admission receipt records.
pub policy_questions-IsBound :
    (printer : Printer) (b : Fields) (f g : QuestionFinding)
    → q_autonomy printer b ≡ ok f
    → q_governance printer b ≡ ok g
    → (f.answered || g.answered) ≡ true
    → IsBound printer (section b "admission_receipt") "policy_digest" (get b "policy")
policy_questions-IsBound printer b f g autonomy governance t = elim (Bool-cases f.answered) [
  | inl y ↦ q_autonomy-IsBound printer b f autonomy y
  | inr n ↦ q_governance-IsBound printer b g governance (rw n at t)
]

-- The question on controls is answered only where the receipt's decision is to admit, and the
-- declaration, the authority and the policy are each there with the digest that the receipt records.
pub q_controls-IsBound :
    (printer : Printer) (b : Fields) (f : QuestionFinding)
    → q_controls printer b ≡ ok f
    → f.answered ≡ true
    → IsBound printer (section b "admission_receipt") "declaration_digest" (get b "declaration")
      × IsBound printer
          (section b "admission_receipt")
          "authority_receipt_digest"
          (get b "authority")
      × IsBound printer (section b "admission_receipt") "policy_digest" (get b "policy")
      × ((decision : Value) × (attr_get (section b "admission_receipt") "decision" ≡ ok decision)
          × (value_eq decision (str "admit") ≡ true))
unfolding q_controls
q_controls-IsBound printer b f h t =
    let receipt = section b "admission_receipt" in
    elim (Result-cases (attr_get receipt "decision")) [
      | inr (e, q) ↦ absurd (cc (rw q at h))
      | inl (decision, q) ↦
          elim (Result-cases (check_bindings printer receipt (bound_documents b))) [
            | inr (e, p) ↦ absurd (cc (rw (q, p) at h))
            | inl (checks, p) ↦
                let (clean, admitted) =
                  &&-eq-true (is_empty checks.problems) _ (answered_field (rw (q, p) at h) t) in
                let all = check_bindings-All printer receipt (bound_documents b) checks p clean in
                (all.0, all.1.0, all.1.1.0, (decision, q, admitted))
          ]
    ]
