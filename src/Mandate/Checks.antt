-- ===== src/Mandate/Checks.antt =====
-- border/mandate_adapter.py: fields, times, authorities and actions. Times are in UTC, so that they
-- compare by their instants. After `required` a field is present, so that `d[key]` is `get d key`.
use minority_prophet_border.Py.Value.{Fields, Value, get, keys_are, obj, str}
use minority_prophet_border.Prelude.{
  Bool, List, String, [], count, false, leb, ltb, nat_eq, not, starts_with, ◌&&◌, ◌==◌, ◌||◌, ◌∷◌,
}
use minority_prophet_border.Py.Result.{Exn, Result, exn, mandate_error, ok, raise_if, ◌>>=◌, ◌>>◌}
use minority_prophet_border.Py.Equality.{value_eq}
use minority_prophet_border.Py.Clock.{Time}
use minority_prophet_border.Admission.Base.{document_digest}
use minority_prophet_border.Py.Bindings.{required, parse_utc}
use minority_prophet_border.Py.Text.{concat}
use minority_prophet_border.Platform.{Platform}

abbrev pub mandate_refused : List String → Exn
mandate_refused parts = exn mandate_error (concat parts)

abbrev pub mandate_required : Fields → List String → String → Result (Unit {0})
mandate_required record_ fields label = required mandate_error label record_ fields

unfoldable pub mandate_time : Platform → Value → List String → Result Time
unfolding concat
mandate_time p v name = parse_utc p mandate_error v (concat name)

abbrev pub active_fields : List String
active_fields =
    "receipt_id" ∷ "subject_id" ∷ "principal_id" ∷ "action_digest" ∷ "status" ∷ "decision"
    ∷ "not_before" ∷ "expires_at" ∷ "issued_at" ∷ "key_id" ∷ "signature" ∷ []

-- `issued <= starts <= now < expires`
abbrev pub issued_active : Time → Time → Time → Time → Bool
issued_active issued starts now expires =
    leb issued.instant starts.instant
    && leb starts.instant now.instant
    && ltb now.instant expires.instant

unfoldable pub active_authority : Platform → Fields → Time → String → Result (Time × Time)
active_authority p record_ now label = do
  mandate_required record_ active_fields label
  starts ← mandate_time p (get record_ "not_before") (label ∷ ".not_before" ∷ [])
  expires ← mandate_time p (get record_ "expires_at") (label ∷ ".expires_at" ∷ [])
  issued ← mandate_time p (get record_ "issued_at") (label ∷ ".issued_at" ∷ [])
  raise_if
      (not (value_eq (get record_ "status") (str "active"))
        || not (value_eq (get record_ "decision") (str "allow"))
        || not (issued_active issued starts now expires))
      (mandate_refused (label ∷ " is inactive, denied, expired, or revoked" ∷ []))
  ok (starts, expires)

abbrev pub action_fields : List String
action_fields = "type" ∷ "target" ∷ "payload_digest" ∷ []

abbrev pub is_nonempty_text : Value → Bool
is_nonempty_text (str s) = not (s == "")
is_nonempty_text _ = false

abbrev pub is_payload_digest : Value → Bool
is_payload_digest (str s) = nat_eq (count s) 71 && starts_with s "sha256:"
is_payload_digest _ = false

unfoldable pub validate_action : Platform → Fields → Result String
validate_action p action = do
  mandate_required action action_fields "action"
  raise_if (not (keys_are action action_fields))
      (mandate_refused ("action contains undeclared fields" ∷ []))
  raise_if
      (not (is_nonempty_text (get action "type")) || not (is_nonempty_text (get action "target")))
      (mandate_refused ("action type and target must be non-empty strings" ∷ []))
  raise_if (not (is_payload_digest (get action "payload_digest")))
      (mandate_refused ("action payload digest is invalid" ∷ []))
  document_digest p (obj action)
