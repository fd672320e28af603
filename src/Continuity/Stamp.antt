-- ===== src/Continuity/Stamp.antt =====
-- border/intent_continuity.py: the stamp of a continuity receipt.
use minority_prophet_border.Prelude.{Bool, List, String, [], false, not, ◌∷◌}
use minority_prophet_border.Platform.{Platform}
use minority_prophet_border.Dsse.{
  DsseVerifier, Signer, sha256_subject, sign_envelope, statement_type, verify_envelope,
}
use minority_prophet_border.Py.Result.{Result, err, ok, raise_if, ◌>>=◌, ◌>>◌}
use minority_prophet_border.Py.Value.{Fields, Value, dict, get, obj, str}
use minority_prophet_border.Py.Bindings.{exact_fields}
use minority_prophet_border.Continuity.Scope.{failed}
use minority_prophet_border.Py.Equality.{value_eq}

abbrev pub continuity_predicate : String
continuity_predicate = "https://minority-prophet.dev/border-intent-continuity/v0.1"

abbrev pub continuity_receipt_fields : List String
continuity_receipt_fields =
    "schema" ∷ "verification" ∷ "mandate_id" ∷ "mandate_digest" ∷ "chain_digest" ∷ "owner_id"
    ∷ "task_id" ∷ "final_actor_id" ∷ "final_actor_key_thumbprint" ∷ "final_machine_id" ∷ "audience"
    ∷ "final_effect_digest" ∷ "issued_at" ∷ "expires_at" ∷ "nonce" ∷ []

unfoldable pub intent_continuity_statement : Platform → Value → Result Fields
intent_continuity_statement p v = do
  receipt ←
      exact_fields (failed ("continuity receipt has unknown or missing fields" ∷ []))
        continuity_receipt_fields v
  raise_if (not (value_eq (get receipt "schema") (str "border-intent-continuity/v0.1")))
      (failed ("unsupported continuity receipt schema" ∷ []))
  subject ← sha256_subject p (get receipt "mandate_id") receipt
  ok (
      dict (
        ("_type", str statement_type)
        ∷ ("subject", subject)
        ∷ ("predicateType", str continuity_predicate)
        ∷ ("predicate", obj (dict (("receipt", obj receipt) ∷ [])))
        ∷ []))

unfoldable pub stamp_intent_continuity : Platform → Value → String → Signer → Result Fields
stamp_intent_continuity p v key_id sign = do
  statement ← intent_continuity_statement p v
  sign_envelope p statement key_id sign

-- An envelope that is refused in any way is no stamp; a receipt with no statement still raises.
unfoldable pub verify_intent_continuity_stamp :
    Platform → Value → Fields → DsseVerifier → Result Bool
verify_intent_continuity_stamp p v envelope verify =
    elim (verify_envelope p envelope verify continuity_predicate) [
      | err e ↦ ok false
      | ok statement ↦ do
        expected ← intent_continuity_statement p v
        ok (value_eq (obj statement) (obj expected))
    ]
