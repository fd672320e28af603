-- ===== src/Admission/Gate.antt =====
-- border/admission.py: `stamp_bindings` and `verify_gate_context`, the Gate's recheck.
pub mod Recheck
use minority_prophet_border.Prelude.{
  String, Bool, true, false, not, Option, none, some, List, [], ◌∷◌,
}
use minority_prophet_border.Platform.{Platform}
use minority_prophet_border.Py.Result.{Result, ok, raise_if, ◌>>=◌, ◌>>◌}
use minority_prophet_border.Py.Text.{concat}
use minority_prophet_border.Py.Value.{
  Value, null, str, obj, Fields, dict, get, get_or, item, has_key, without, truthy,
}
use minority_prophet_border.Py.Equality.{value_eq}
use minority_prophet_border.Py.Clock.{Time, le_time}
use minority_prophet_border.Py.Bindings.{match_gets}
use minority_prophet_border.Admission.Base.{document_digest, refused, required, time_field}

abbrev pub stamped_fields : List String
stamped_fields =
    "admission_id" ∷ "declaration_digest" ∷ "authority_receipt_digest" ∷ "policy_digest"
    ∷ "action_digest" ∷ "expires_at" ∷ []

unfoldable pub stamp_bindings : Platform → Fields → Value → Result Fields
stamp_bindings p receipt decision_point = do
  required "admission receipt" receipt stamped_fields
  raise_if (not (has_key receipt "control_event_digest"))
      (refused "admission receipt missing: control_event_digest")
  raise_if (not (truthy decision_point)) (refused "decision_point is required")
  digest ← document_digest p (obj receipt)
  ok (
      dict (
        ("admission_receipt_digest", str digest)
        ∷ ("declaration_digest", get receipt "declaration_digest")
        ∷ ("authority_receipt_digest", get receipt "authority_receipt_digest")
        ∷ ("policy_digest", get receipt "policy_digest")
        ∷ ("action_digest", get receipt "action_digest")
        ∷ ("control_event_digest", get receipt "control_event_digest")
        ∷ ("decision_point", decision_point)
        ∷ ("expires_at", get receipt "expires_at")
        ∷ []))

-- `document_digest(control) if control is not None else None`
abbrev pub optional_digest : Platform → Option Fields → Result Value
optional_digest p none = ok null
optional_digest p (some d) = do digest ← document_digest p (obj d); ok (str digest)

-- The documents that a Gate holds.
pub record Presented : Type 0 where
  pub declaration : Fields
  pub authority : Fields
  pub policy : Fields
  pub candidate_action : Fields
  pub control : Option Fields

unfoldable pub expected_digests : Platform → Presented → Result (List (String × Value))
unfolding without
expected_digests p d = do
  declaration_digest ← document_digest p (obj d.declaration)
  authority_digest ← document_digest p (obj d.authority)
  policy_digest ← document_digest p (obj (without "policy_digest" d.policy))
  action_digest ← document_digest p (obj d.candidate_action)
  control_digest ← optional_digest p d.control
  ok (
      ("declaration_digest", str declaration_digest)
      ∷ ("authority_receipt_digest", str authority_digest)
      ∷ ("policy_digest", str policy_digest)
      ∷ ("action_digest", str action_digest)
      ∷ ("control_event_digest", control_digest)
      ∷ [])

-- `current` is the `now` argument, or the clock's answer where none is given.
unfoldable pub verify_gate_context :
    Platform
    → (Fields → Result Bool)
    → (Fields → Result Bool)
    → Fields
    → Fields
    → Presented
    → Time
    → Result (Unit {0})
unfolding concat
verify_gate_context p verify_border_stamp authority_is_current bindings receipt d current = do
  stamped ← verify_border_stamp bindings
  raise_if (not stamped) (refused "Border stamp signature verification failed")
  expected ← stamp_bindings p receipt (get_or bindings "decision_point" (str ""))
  raise_if (not (value_eq (obj bindings) (obj expected))) (refused "Border stamp binding mismatch")
  raise_if (not (value_eq (get receipt "decision") (str "admit")))
      (refused "Gate received a non-admission receipt")
  expires ← time_field p (get receipt "expires_at") "admission.expires_at"
  late ← le_time expires current
  raise_if late (refused "admission expired before Gate decision")
  live ← authority_is_current d.authority
  raise_if (not live) (refused "authority revoked or stale at Gate decision")
  checks ← expected_digests p d
  match_gets (λ f. refused (concat ("Gate " ∷ f ∷ " mismatch" ∷ []))) receipt checks
  raise_if (not (value_eq (obj d.candidate_action) (get d.declaration "action")))
      (refused "Gate candidate action differs from declaration")
