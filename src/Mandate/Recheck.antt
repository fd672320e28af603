-- ===== src/Mandate/Recheck.antt =====
-- What holds when a Gate lets a relation pass.
use mathlib.Core.Path.{subst}
use minority_prophet_border.Mandate.Gate.{
  Currency, check_all_current, check_current, check_relation_stamp, check_relation_window,
  expected_relation, gate_mismatch, mandate_predicate, mandate_statement,
  verify_mandate_gate_context,
}
use minority_prophet_border.Prelude.{
  Bool, List, String, [], arith, false, inl, inr, true, ◌<◌, ◌∷◌, ◌≡◌, sym,
}
use minority_prophet_border.Dsse.{DsseVerifier, verify_envelope}
use minority_prophet_border.Py.Result.{Result, Result-cases, exn, ok}
use minority_prophet_border.Py.Equality.{value_eq}
use minority_prophet_border.Dsse.Soundness.{IsSigned, verify_envelope-IsSigned}
use minority_prophet_border.Platform.{Platform}
use minority_prophet_border.Mandate.Adapter.{Material}
use minority_prophet_border.Py.Bindings.Laws.{Agrees, match_gets-Agrees}
use minority_prophet_border.Py.Value.{Fields, Value, get, item, obj, str}
use minority_prophet_border.Py.Bindings.{to_utc, format_time}
use minority_prophet_border.Mandate.Checks.{mandate_time}
use minority_prophet_border.Py.Clock.{Time}
use minority_prophet_border.Py.Chain.{first_some}
use minority_prophet_border.Admission.Base.{document_digest}

-- The digest of the document is the text that the receipt has under the name.
abbrev pub Holds : Platform → Fields → String → Fields → Type 0
Holds p receipt name document =
    (d : String) × (document_digest p (obj document) ≡ ok d)
    × (value_eq (get receipt name) (str d) ≡ true)

-- The receipt has that field of the document.
abbrev pub Copies : Fields → String → Fields → String → Type 0
Copies receipt name document key = value_eq (get receipt name) (get document key) ≡ true

-- The time that the Mandate states, as the receipt writes it.
abbrev pub HoldsTime : Platform → Fields → String → Fields → String → Type 0
HoldsTime p receipt name mandate label =
    (t : Time) × (mandate_time p (get mandate name) (label ∷ []) ≡ ok t)
    × (value_eq (get receipt name) (str (format_time p t)) ≡ true)

-- The receipt agrees with the five documents in each of its fields.
pub record IsDocumented (p : Platform) (receipt : Fields) (m : Material) : Type 0 where
  pub request_id : Copies receipt "request_id" m.mandate "request_id"
  pub requester_id : Copies receipt "requester_id" m.mandate "requester_id"
  pub request_principal : Copies receipt "request_principal_id" m.request_authority "principal_id"
  pub requester_key : Copies receipt "requester_key_thumbprint" m.mandate "requester_key_thumbprint"
  pub executor_id : Copies receipt "executor_id" m.mandate "executor_id"
  pub executor_principal :
      Copies receipt "executor_principal_id" m.executor_authority "principal_id"
  pub executor_key : Copies receipt "executor_key_thumbprint" m.mandate "executor_key_thumbprint"
  pub nonce : Copies receipt "nonce" m.mandate "nonce"
  pub request : Holds p receipt "request_authority_receipt_digest" m.request_authority
  pub executor : Holds p receipt "executor_authority_receipt_digest" m.executor_authority
  pub credential : Holds p receipt "executor_credential_digest" m.executor_credential
  pub mandate : Holds p receipt "mandate_digest" m.mandate
  pub action : Holds p receipt "action_digest" m.action
  pub starts : HoldsTime p receipt "not_before" m.mandate "mandate.not_before"
  pub ends : HoldsTime p receipt "expires_at" m.mandate "mandate.expires_at"

-- The texts that a receipt should have by name: the five digests and the two times.
module _ (p : Platform) (m : Material) (d1 d2 d3 d4 d5 : String) (t u : Time) where
  abbrev listed : List (String × Value)
  listed =
      ("request_id", get m.mandate "request_id")
      ∷ ("requester_id", get m.mandate "requester_id")
      ∷ ("request_principal_id", get m.request_authority "principal_id")
      ∷ ("requester_key_thumbprint", get m.mandate "requester_key_thumbprint")
      ∷ ("executor_id", get m.mandate "executor_id")
      ∷ ("executor_principal_id", get m.executor_authority "principal_id")
      ∷ ("executor_key_thumbprint", get m.mandate "executor_key_thumbprint")
      ∷ ("request_authority_receipt_digest", str d1)
      ∷ ("executor_authority_receipt_digest", str d2)
      ∷ ("executor_credential_digest", str d3)
      ∷ ("mandate_digest", str d4)
      ∷ ("action_digest", str d5)
      ∷ ("not_before", str (format_time p t))
      ∷ ("expires_at", str (format_time p u))
      ∷ ("nonce", get m.mandate "nonce")
      ∷ []

  listed-IsDocumented :
      (receipt : Fields)
      → document_digest p (obj m.request_authority) ≡ ok d1
      → document_digest p (obj m.executor_authority) ≡ ok d2
      → document_digest p (obj m.executor_credential) ≡ ok d3
      → document_digest p (obj m.mandate) ≡ ok d4
      → document_digest p (obj m.action) ≡ ok d5
      → mandate_time p (get m.mandate "not_before") ("mandate.not_before" ∷ []) ≡ ok t
      → mandate_time p (get m.mandate "expires_at") ("mandate.expires_at" ∷ []) ≡ ok u
      → Agrees receipt listed
      → IsDocumented p receipt m
  listed-IsDocumented receipt e1 e2 e3 e4 e5 e6 e7
        (
          q1,
          (
            q2,
            (q3, (q4, (q5, (q6, (q7, (q8, (q9, (q10, (q11, (q12, (q13, (q14, (q15, _))))))))))))),
          ),
        ) =
      record {
        request_id = q1;
        requester_id = q2;
        request_principal = q3;
        requester_key = q4;
        executor_id = q5;
        executor_principal = q6;
        executor_key = q7;
        nonce = q15;
        request = (d1, e1, q8);
        executor = (d2, e2, q9);
        credential = (d3, e3, q10);
        mandate = (d4, e4, q11);
        action = (d5, e5, q12);
        starts = (t, e6, q13);
        ends = (u, e7, q14);
      }

same_list : {a b : List (String × Value)} → ok a ≡ ok b → a ≡ b
same_list e = cc

expected_relation-IsDocumented :
    (p : Platform) (receipt : Fields) (m : Material) (expected : List (String × Value))
    → expected_relation p m ≡ ok expected
    → Agrees receipt expected
    → IsDocumented p receipt m
unfolding expected_relation
expected_relation-IsDocumented p receipt m expected h agree =
    let (d1, e1, h1) = first_some (document_digest p (obj m.request_authority)) _ h in
    let (d2, e2, h2) = first_some (document_digest p (obj m.executor_authority)) _ h1 in
    let (d3, e3, h3) = first_some (document_digest p (obj m.executor_credential)) _ h2 in
    let (d4, e4, h4) = first_some (document_digest p (obj m.mandate)) _ h3 in
    let (d5, e5, h5) = first_some (document_digest p (obj m.action)) _ h4 in
    let (t, e6, h6) =
      first_some (mandate_time p (get m.mandate "not_before") ("mandate.not_before" ∷ [])) _ h5 in
    let (u, e7, h7) =
      first_some (mandate_time p (get m.mandate "expires_at") ("mandate.expires_at" ∷ [])) _ h6 in
    listed-IsDocumented p m d1 d2 d3 d4 d5 t u receipt e1 e2 e3 e4 e5 e6 e7
      (subst (Agrees receipt) (same_list (sym h7)) agree)

pub record IsRelated (p : Platform) (s : Currency) (verify : DsseVerifier) (receipt : Fields)
    (m : Material) (envelope : Fields) (audience : String) (now : Time) : Type 0 where
  pub statement : Fields
  pub stamped : IsSigned p envelope verify mandate_predicate statement
  pub stated :
      (expected : Fields) × (mandate_statement p receipt ≡ ok expected)
      × (value_eq (obj statement) (obj expected) ≡ true)
  pub audience_bound : value_eq (get receipt "audience") (str audience) ≡ true
  pub verification : value_eq (get receipt "verification") (str "verified") ≡ true
  pub bound : IsDocumented p receipt m
  pub ends :
      (t : Time) × (mandate_time p (get receipt "expires_at") ("receipt.expires_at" ∷ []) ≡ ok t)
      × (now.instant < t.instant)
  pub mandate_live : s.mandate_is_current m.mandate ≡ ok true
  pub requester_live : s.request_authority_is_current m.request_authority ≡ ok true
  pub executor_live : s.executor_authority_is_current m.executor_authority ≡ ok true
  pub credential_live : s.executor_credential_is_current m.executor_credential ≡ ok true

check_current_lem :
    (check : Fields → Result Bool) (document : Fields) (label : String)
    → check_current check document label ≡ ok tt
    → check document ≡ ok true
unfolding check_current
check_current_lem check document label h = elim (Result-cases (check document)) [
  | inl (true, e) ↦ e
  | inl (false, e) ↦ absurd (ground arith)
  | inr (exn c m, e) ↦ absurd (ground arith)
]

check_all_current_lem :
    (s : Currency) (m : Material)
    → check_all_current s m ≡ ok tt
    → (s.mandate_is_current m.mandate ≡ ok true)
      × (s.request_authority_is_current m.request_authority ≡ ok true)
      × (s.executor_authority_is_current m.executor_authority ≡ ok true)
      × (s.executor_credential_is_current m.executor_credential ≡ ok true)
unfolding check_all_current
check_all_current_lem s m h = (
  check_current_lem s.mandate_is_current m.mandate "mandate" (ground arith),
  check_current_lem s.request_authority_is_current m.request_authority "request authority"
      (ground arith),
  check_current_lem s.executor_authority_is_current m.executor_authority "executor authority"
      (ground arith),
  check_current_lem s.executor_credential_is_current m.executor_credential "executor credential"
      (ground arith),
)

check_relation_stamp_lem :
    (p : Platform) (receipt envelope : Fields) (verify : DsseVerifier)
    → check_relation_stamp p receipt envelope verify ≡ ok tt
    → (statement : Fields) × (expected : Fields) × (verify_envelope p envelope verify
          mandate_predicate
        ≡ ok statement)
      × (mandate_statement p receipt ≡ ok expected)
      × (value_eq (obj statement) (obj expected) ≡ true)
unfolding check_relation_stamp
check_relation_stamp_lem p receipt envelope verify h =
    elim (Result-cases (verify_envelope p envelope verify mandate_predicate)) [
      | inr (exn c m, e) ↦ absurd (ground arith)
      | inl (statement, e) ↦ elim (Result-cases (mandate_statement p receipt)) [
        | inr (x, k) ↦ absurd (ground arith)
        | inl (expected, k) ↦ (statement, expected, e, k, ground arith)
      ]
    ]

item-get : (d : Fields) (k : String) (v : Value) → item d k ≡ ok v → get d k ≡ v
item-get d k v h = ground arith

check_relation_window-ends :
    (p : Platform) (receipt : Fields) (now : Time)
    → check_relation_window p receipt now ≡ ok tt
    → (t : Time) × (mandate_time p (get receipt "expires_at") ("receipt.expires_at" ∷ []) ≡ ok t)
      × (now.instant < t.instant)
unfolding check_relation_window
check_relation_window-ends p receipt now h = elim (Result-cases (item receipt "expires_at")) [
  | inr (x, e) ↦ absurd (ground arith)
  | inl (v, e) ↦ elim (Result-cases (mandate_time p v ("receipt.expires_at" ∷ []))) [
    | inr (x, k) ↦ absurd (ground arith)
    | inl (t, k) ↦ (t, rw (item-get receipt "expires_at" v e) k, ground arith)
  ]
]

-- A Gate lets a relation pass only under a verified stamp whose statement is the receipt's own,
-- for its audience, before the receipt ends, when the receipt agrees with the five documents that
-- are presented in its digests, parties, keys, nonce and times, and when all four current-status checks answer yes.
pub verify_mandate_gate_context-IsRelated :
    (p : Platform) (s : Currency) (verify : DsseVerifier) (receipt : Fields) (m : Material)
    (envelope : Fields) (audience : String) (clock : Time)
    → verify_mandate_gate_context p s verify receipt m envelope audience clock ≡ ok tt
    → IsRelated p s verify receipt m envelope audience (to_utc clock)
unfolding verify_mandate_gate_context
verify_mandate_gate_context-IsRelated p s verify receipt m envelope audience clock h =
    elim (Result-cases (expected_relation p m)) [
      | inr (x, e) ↦ absurd (ground arith)
      | inl (expected, e) ↦
          let (statement, own, v, k, same) =
            check_relation_stamp_lem p receipt envelope verify (ground arith) in
          let (mandate_live, requester_live, executor_live, credential_live) =
            check_all_current_lem s m (ground arith) in
          record {
            statement = statement;
            stamped = verify_envelope-IsSigned p envelope verify mandate_predicate statement v;
            stated = (own, k, same);
            audience_bound = ground arith;
            verification = ground arith;
            bound =
                expected_relation-IsDocumented p receipt m expected e
                  (match_gets-Agrees gate_mismatch receipt expected (ground arith));
            ends = check_relation_window-ends p receipt (to_utc clock) (ground arith);
            mandate_live = mandate_live;
            requester_live = requester_live;
            executor_live = executor_live;
            credential_live = credential_live;
          }
    ]
