-- ===== src/Mandate/Gate.antt =====
-- border/mandate_adapter.py: the stamp of a relation receipt, and the recheck at a Gate.
use minority_prophet_border.Prelude.{
  Bool, List, String, [], leb, ltb, not, true, ◌&&◌, ◌==◌, ◌||◌, ◌∷◌,
}
use minority_prophet_border.Admission.Base.{document_digest}
use minority_prophet_border.Py.Value.{Fields, Value, dict, get, item, keys_are, obj, str}
use minority_prophet_border.Dsse.{
  DsseVerifier, Signer, sha256_subject, sign_envelope, statement_type, verify_envelope,
}
use minority_prophet_border.Py.Bindings.{format_time, match_gets, to_utc}
use minority_prophet_border.Mandate.Adapter.{Material, refuse_unless}
use minority_prophet_border.Py.Result.{Class, Exn, Result, err, ok, raise_if, rescue, ◌>>=◌, ◌>>◌}
use minority_prophet_border.Crossing.Verifier.{action_digest}
use minority_prophet_border.Py.Clock.{Time, is_naive}
use minority_prophet_border.Platform.{Platform}
use minority_prophet_border.Mandate.Checks.{mandate_refused, mandate_time}
use minority_prophet_border.Py.Equality.{value_eq}

abbrev pub mandate_predicate : String
mandate_predicate = "https://minority-prophet.dev/border-authority-relation/v1"

abbrev pub receipt_fields : List String
receipt_fields =
    "schema" ∷ "relationship" ∷ "relation_id" ∷ "request_id" ∷ "requester_id"
    ∷ "request_principal_id" ∷ "requester_key_thumbprint" ∷ "executor_id" ∷ "executor_principal_id"
    ∷ "executor_key_thumbprint" ∷ "request_authority_receipt_digest"
    ∷ "executor_authority_receipt_digest" ∷ "executor_credential_digest" ∷ "mandate_digest"
    ∷ "action_digest" ∷ "audience" ∷ "verification" ∷ "issued_at" ∷ "not_before" ∷ "expires_at"
    ∷ "nonce" ∷ []

unfoldable pub mandate_statement : Platform → Fields → Result Fields
mandate_statement p receipt = do
  refuse_unless (keys_are receipt receipt_fields)
      "relation receipt contains undeclared or missing fields"
  refuse_unless
      (value_eq (get receipt "schema") (str "border-authority-relation/v1")
        && value_eq (get receipt "relationship") (str "MANDATE"))
      "cannot stamp an unknown or non-Mandate relation"
  subject ← sha256_subject p (get receipt "relation_id") receipt
  ok (
      dict (
        ("_type", str statement_type)
        ∷ ("subject", subject)
        ∷ ("predicateType", str mandate_predicate)
        ∷ (
          "predicate",
          obj (
              dict (
                ("schema", str "border-authority-relation-stamp/v1")
                ∷ ("receipt", obj receipt)
                ∷ [])),
        )
        ∷ []))

unfoldable pub stamp_mandate_receipt : Platform → Fields → String → Signer → Result Fields
stamp_mandate_receipt p receipt key_id sign = do
  statement ← mandate_statement p receipt
  sign_envelope p statement key_id sign

-- The functions that a Gate asks about the current state of each document.
pub record Currency : Type 0 where
  pub request_authority_is_current : Fields → Result Bool
  pub executor_authority_is_current : Fields → Result Bool
  pub executor_credential_is_current : Fields → Result Bool
  pub mandate_is_current : Fields → Result Bool

-- `except Exception`
abbrev pub any_class : Class → Bool
any_class c = true

unfoldable pub expected_relation : Platform → Material → Result (List (String × Value))
expected_relation p m = do
  request_digest ← document_digest p (obj m.request_authority)
  executor_digest ← document_digest p (obj m.executor_authority)
  credential_digest ← document_digest p (obj m.executor_credential)
  mandate_digest ← document_digest p (obj m.mandate)
  action_digest ← document_digest p (obj m.action)
  starts ← mandate_time p (get m.mandate "not_before") ("mandate.not_before" ∷ [])
  expires ← mandate_time p (get m.mandate "expires_at") ("mandate.expires_at" ∷ [])
  ok (
      ("request_id", get m.mandate "request_id")
      ∷ ("requester_id", get m.mandate "requester_id")
      ∷ ("request_principal_id", get m.request_authority "principal_id")
      ∷ ("requester_key_thumbprint", get m.mandate "requester_key_thumbprint")
      ∷ ("executor_id", get m.mandate "executor_id")
      ∷ ("executor_principal_id", get m.executor_authority "principal_id")
      ∷ ("executor_key_thumbprint", get m.mandate "executor_key_thumbprint")
      ∷ ("request_authority_receipt_digest", str request_digest)
      ∷ ("executor_authority_receipt_digest", str executor_digest)
      ∷ ("executor_credential_digest", str credential_digest)
      ∷ ("mandate_digest", str mandate_digest)
      ∷ ("action_digest", str action_digest)
      ∷ ("not_before", str (format_time p starts))
      ∷ ("expires_at", str (format_time p expires))
      ∷ ("nonce", get m.mandate "nonce")
      ∷ [])

abbrev pub gate_mismatch : String → Exn
gate_mismatch f = mandate_refused ("Gate " ∷ f ∷ " mismatch" ∷ [])

-- One round of the loop over the current states; a check that raises counts as a refusal.
unfoldable pub check_current : (Fields → Result Bool) → Fields → String → Result (Unit {0})
check_current check document label = do
  live ←
      rescue any_class (check document)
        (λ e. err (mandate_refused (label ∷ " current-status check failed closed" ∷ [])))
  raise_if (not live)
      (mandate_refused (label ∷ " is revoked, stale, or indeterminate at Gate decision" ∷ []))

unfoldable pub check_all_current : Currency → Material → Result (Unit {0})
check_all_current s m = do
  check_current s.mandate_is_current m.mandate "mandate"
  check_current s.request_authority_is_current m.request_authority "request authority"
  check_current s.executor_authority_is_current m.executor_authority "executor authority"
  check_current s.executor_credential_is_current m.executor_credential "executor credential"

unfoldable pub check_relation_stamp : Platform → Fields → Fields → DsseVerifier → Result (Unit {0})
check_relation_stamp p receipt envelope verify = do
  statement ←
      rescue any_class (verify_envelope p envelope verify mandate_predicate)
        (λ e. err (mandate_refused ("Border relation DSSE verification failed" ∷ [])))
  expected ← mandate_statement p receipt
  refuse_unless (value_eq (obj statement) (obj expected)) "Border relation statement mismatch"

-- `receipt["not_before"] <= receipt["issued_at"] <= current < receipt["expires_at"]`
unfoldable pub check_relation_window : Platform → Fields → Time → Result (Unit {0})
check_relation_window p receipt current = do
  raw_starts ← item receipt "not_before"
  starts ← mandate_time p raw_starts ("receipt.not_before" ∷ [])
  raw_issued ← item receipt "issued_at"
  issued ← mandate_time p raw_issued ("receipt.issued_at" ∷ [])
  raw_expires ← item receipt "expires_at"
  expires ← mandate_time p raw_expires ("receipt.expires_at" ∷ [])
  refuse_unless
      (leb starts.instant issued.instant
        && leb issued.instant current.instant
        && ltb current.instant expires.instant)
      "Border relation receipt is not currently active"

-- `clock` is the `now` argument, or the clock's answer where none is given; `m.action` is the
-- candidate action.
unfoldable pub verify_mandate_gate_context :
    Platform
    → Currency
    → DsseVerifier
    → Fields
    → Material
    → Fields
    → String
    → Time
    → Result (Unit {0})
verify_mandate_gate_context p s verify receipt m envelope audience clock = do
  refuse_unless (value_eq (get receipt "schema") (str "border-authority-relation/v1"))
      "Gate received an unknown authority-relation receipt"
  refuse_unless
      (value_eq (get receipt "relationship") (str "MANDATE")
        && value_eq (get receipt "verification") (str "verified"))
      "Gate received a non-Mandate or unverified relation"
  raise_if (audience == "" || not (value_eq (get receipt "audience") (str audience)))
      (mandate_refused ("Gate audience mismatch" ∷ []))
  check_relation_stamp p receipt envelope verify
  raise_if (is_naive clock) (mandate_refused ("Gate clock must include a timezone" ∷ []))
  check_relation_window p receipt (to_utc clock)
  expected ← expected_relation p m
  match_gets gate_mismatch receipt expected
  check_all_current s m
