-- ===== src/SubjectLink/Soundness.antt =====
-- When a mix of evidence is accepted, and what one piece of evidence rests on.
use minority_prophet_border.Prelude.{
  All, Bool, Bool-cases, List, String, [], any, ap, arith, eq_iff, eq_refl, false, inl, inr, length,
  map, not, refl, some, true, ◌<◌, ◌==◌, ◌∙◌, ◌∷◌, ◌≡◌, ◌≤◌, &&-eq-true, all,
}
use minority_prophet_border.Py.Result.{Result, Result-cases, ok}
use minority_prophet_border.SubjectLink.{
  SubjectLinkEvidence, SubjectRequirement, all_types, check_link_texts, distinct,
  evaluate_subject_requirement, lacking, link_text, normalize_subject_link, timestamp, weigh,
  has_link_texts, link_texts, type_list, type_texts,
}
use minority_prophet_border.Py.Value.{Fields, Value, get, mem, null, str}
use minority_prophet_border.Py.Clock.{Time}
use minority_prophet_border.Py.Bindings.{has_duplicates, is_empty}
use minority_prophet_border.Mandate.Checks.{is_nonempty_text}
use minority_prophet_border.Platform.{Platform}
use minority_prophet_border.Py.Equality.{value_eq}

pub record IsSatisfied (items : List SubjectLinkEvidence) (requirement : SubjectRequirement)
    (subject : String) : Type 0 where
  pub audience : All (λ e. (e.audience == requirement.audience) ≡ true) items
  pub subjects : All (λ e. (e.pairwise_subject_id == subject) ≡ true) items
  pub nonces : has_duplicates (map (λ e. e.nonce) items) ≡ false
  pub types : All (λ t. mem t (all_types items) ≡ true) requirement.required_types
  pub providers : requirement.minimum_providers ≤ length (distinct (map (λ e. e.provider_id) items))

any-All :
    {A : Type 0}
    → (test : A → Bool) (xs : List A) → any (λ x. not (test x)) xs ≡ false
    → All (λ x. test x ≡ true) xs
any-All test [] h = tt
any-All test (x ∷ xs) h = (ground arith, any-All test xs (ground arith))

lacking-All :
    (required_types types : List String)
    → is_empty (lacking required_types types) ≡ true
    → All (λ t. mem t types ≡ true) required_types
lacking-All [] types h = tt
lacking-All (x ∷ xs) types h = elim (Bool-cases (mem x types)) [
  | inl y ↦ (y, lacking-All xs types (rw y at h))
  | inr n ↦ absurd (cc (rw n at h))
]

weigh-accept :
    (first : SubjectLinkEvidence) (items : List SubjectLinkEvidence)
    (requirement : SubjectRequirement)
    → (weigh first items requirement).action ≡ "accept"
    → (is_empty (lacking requirement.required_types (all_types items)) ≡ true)
      × (requirement.minimum_providers ≤ length (distinct (map (λ e. e.provider_id) items)))
      × ((weigh first items requirement).subject_id ≡ some first.pairwise_subject_id)
unfolding weigh
weigh-accept first items requirement h = (
  ground (arith, eq_iff "escalate" "accept"),
  ground (arith, eq_iff "escalate" "accept"),
  ground arith,
)

-- A mix of evidence is accepted only if every piece is for the required audience and about the
-- subject that the result names, no nonce comes twice, every required type is among theirs, and
-- they come from at least as many providers as required.
pub evaluate_subject_requirement-IsSatisfied :
    (items : List SubjectLinkEvidence) (requirement : SubjectRequirement)
    → (evaluate_subject_requirement items requirement).action ≡ "accept"
    → (subject : String) × ((evaluate_subject_requirement items requirement).subject_id
        ≡ some subject)
      × IsSatisfied items requirement subject
unfolding evaluate_subject_requirement
evaluate_subject_requirement-IsSatisfied [] requirement h =
    absurd (ground (arith, eq_iff "escalate" "accept"))
evaluate_subject_requirement-IsSatisfied (first ∷ rest) requirement h =
    let items = first ∷ rest in
    elim (Bool-cases (any (λ e. not (e.audience == requirement.audience)) items)) [
      | inl y ↦ absurd (ground (arith, eq_iff "block" "accept"))
      | inr a ↦
          elim (Bool-cases
            (any (λ e. not (e.pairwise_subject_id == first.pairwise_subject_id)) rest)) [
              | inl y ↦ absurd (ground (arith, eq_iff "block" "accept"))
              | inr s ↦ elim (Bool-cases (has_duplicates (map (λ e. e.nonce) items))) [
                | inl y ↦ absurd (ground (arith, eq_iff "block" "accept"))
                | inr n ↦
                    let (types, providers, named) =
                      weigh-accept first items requirement (ground arith) in
                    (
                      first.pairwise_subject_id,
                      ground arith,
                      record {
                        audience = any-All (λ e. e.audience == requirement.audience) items a;
                        subjects = (
                          eq_refl first.pairwise_subject_id,
                          any-All (λ e. e.pairwise_subject_id == first.pairwise_subject_id) rest s,
                        );
                        nonces = n;
                        types = lacking-All requirement.required_types (all_types items) types;
                        providers = providers;
                      },
                    )
              ]
            ]
    ]

-- What one piece of evidence rests on.
pub record IsLinked (p : Platform) (d : Fields) (verify_signature : Fields → Result Bool)
    (current : Time) (evidence : SubjectLinkEvidence) : Type 0 where
  pub verified : verify_signature d ≡ ok true
  pub subject : get d "pairwise_subject_id" ≡ str evidence.pairwise_subject_id
  pub audience : get d "audience" ≡ str evidence.audience
  pub distinct_types : has_duplicates evidence.credential_types ≡ false
  pub expires : timestamp p (get d "expires_at") ≡ ok evidence.expires_at
  pub unexpired : current.instant < evidence.expires_at.instant
  pub lifetime : evidence.issued_at.instant < evidence.expires_at.instant
  pub active : value_eq (get d "revocation_status") (str "active") ≡ true

nonempty_text-str :
    (d : Fields) (f : String) → is_nonempty_text (get d f) ≡ true → get d f ≡ str (link_text d f)
nonempty_text-str d f h = text_cases (get d f) h
  where
    text_cases : (v : Value) → is_nonempty_text v ≡ true → v ≡ str (elim v [ str s ↦ s | _ ↦ "" ])
    text_cases (str s) e = refl
    text_cases null e = cc
    text_cases _ e = cc

all-mem :
    (test : String → Bool) (xs : List String) (x : String)
    → all test xs ≡ true
    → mem x xs ≡ true
    → test x ≡ true
all-mem test [] x h m = cc
all-mem test (y ∷ ys) x h m =
    let (first, rest) = &&-eq-true (test y) (all test ys) h in
    elim (Bool-cases (y == x)) [
      | inl same ↦ rw ((eq_iff y x).0 same) at first
      | inr other ↦ all-mem test ys x rest (rw other at m)
    ]

has_link_texts-mem :
    (d : Fields) (f : String)
    → has_link_texts d ≡ true
    → mem f link_texts ≡ true
    → is_nonempty_text (get d f) ≡ true
unfolding has_link_texts
has_link_texts-mem d f h m = all-mem (λ g. is_nonempty_text (get d g)) link_texts f h m

check_link_texts_lem :
    (d : Fields) (types : List String)
    → check_link_texts d ≡ ok types
    → (has_link_texts d ≡ true) × (has_duplicates types ≡ false)
unfolding check_link_texts
check_link_texts_lem d types h = (ground arith, distinct_lem)
  where
    distinct_lem : has_duplicates types ≡ false
    distinct_lem = elim (Result-cases (type_list (get d "credential_types"))) [
      | inr (x, e) ↦ absurd (ground arith)
      | inl (items, e) ↦ elim (Result-cases (type_texts items)) [
        | inr (x, f) ↦ absurd (ground arith)
        | inl (texts, f) ↦ ground arith
      ]
    ]

-- Evidence is normalized only from a verified, active and unexpired receipt, whose subject,
-- audience and end it keeps, and its credential types are distinct.
pub normalize_subject_link-IsLinked :
    (p : Platform) (d : Fields) (verify_signature : Fields → Result Bool) (current : Time)
    (evidence : SubjectLinkEvidence)
    → normalize_subject_link p d verify_signature current ≡ ok evidence
    → IsLinked p d verify_signature current evidence
unfolding normalize_subject_link
normalize_subject_link-IsLinked p d verify_signature current evidence h =
    elim (Result-cases (check_link_texts d)) [
      | inr (x, e) ↦ absurd (ground arith)
      | inl (types, e) ↦
          let (present, apart) = check_link_texts_lem d types e in
          let subject = has_link_texts-mem d "pairwise_subject_id" present refl in
          let audience = has_link_texts-mem d "audience" present refl in
          let named : link_text d "pairwise_subject_id" ≡ evidence.pairwise_subject_id =
            ground arith in
          let addressed : link_text d "audience" ≡ evidence.audience = ground arith in
          let typed : types ≡ evidence.credential_types = ground arith in
          record {
            verified = ground arith;
            subject = nonempty_text-str d "pairwise_subject_id" subject ∙ ap str named;
            audience = nonempty_text-str d "audience" audience ∙ ap str addressed;
            distinct_types = rw typed at apart;
            expires = ground arith;
            unexpired = ground arith;
            lifetime = ground arith;
            active = ground arith;
          }
    ]
