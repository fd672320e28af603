-- ===== src/CrossingV1.antt =====
-- conformance/a2a-mcp-crossing-v1/runner/reference.py. The class `Decision` and the store are those
-- of version 2 but for the name of the table. `column` is how SQLite keeps a value in a column of
-- type TEXT: `none` stands for NULL.
pub mod Laws
pub mod Acceptance
use minority_prophet_border.Py.Result.{
  ◌>>◌, Exn, Result, attribute_error, early_return, err, exn, fixture_error, ok, value_error, ◌>>=◌,
}
use minority_prophet_border.Py.Value.{
  Fields, Items, Value, arr, cons, dict, end, field, float, get, item, nil, obj, str,
}
use minority_prophet_border.Py.Clock.{Time, is_naive, le_time, lt_time}
use minority_prophet_border.Jcs.{compact, encode, render}
use minority_prophet_border.Platform.{Platform}
use minority_prophet_border.Prelude.{
  Bool, List, Option, String, [], any, if◌then◌else◌, none, not, some, ℕ, ◌∷◌,
}
use minority_prophet_border.Crossing.Verifier.{
  Consumed, Decision, accepted, consume, differs, reject_if, rejected,
}
use minority_prophet_border.Py.Bindings.{to_utc}
use minority_prophet_border.Py.Text.{codes, replace}
use minority_prophet_border.Openid.Server.Wsgi.{reason}
use minority_prophet_border.Py.Equality.{value_eq}

abbrev fixture_refused : String → Exn
fixture_refused message = exn fixture_error message

-- `_no_float`
unfoldable mutual
  pub no_float : Value → Result (Unit {0})
  no_float (float r) =
      err (fixture_refused "floating-point JSON is outside the v1 canonical profile")
  no_float (obj d) = no_float_fields d
  no_float (arr vs) = no_float_items vs
  no_float _ = ok tt

  pub no_float_fields : Fields → Result (Unit {0})
  no_float_fields end = ok tt
  no_float_fields (field k v rest) = no_float v >> no_float_fields rest

  pub no_float_items : Items → Result (Unit {0})
  no_float_items nil = ok tt
  no_float_items (cons v vs) = no_float v >> no_float_items vs

unfoldable pub canonical_v1 : Value → Result (List ℕ)
unfolding encode render
canonical_v1 v = do no_float v; ok (encode (render (compact codes) v))

unfoldable pub digest_v1 : Platform → Value → Result String
digest_v1 p v = do bytes ← canonical_v1 v; ok (p.sha256 bytes)

unfoldable pub action_digest_v1 : Platform → Fields → Result String
action_digest_v1 p observed = do
  arguments ← item observed "arguments"
  server ← item observed "mcp_server"
  tool ← item observed "tool"
  digest_v1 p (obj (dict (("arguments", arguments) ∷ ("mcp_server", server) ∷ ("tool", tool) ∷ [])))

unfoldable pub time_v1 : Platform → Value → Result Time
unfolding replace
time_v1 p (str s) = elim (p.fromisoformat (replace s "Z" "+00:00")) [
  | none ↦ err (exn value_error "Invalid isoformat string")
  | some t ↦
      if is_naive t
      then err (fixture_refused "timestamps must include an offset")
      else ok (to_utc t)
]
time_v1 p v = err (exn attribute_error "replace")

abbrev pub profile_v1 : String
profile_v1 = "https://minorityprophet.org/conformance/a2a-mcp-crossing/v1"

abbrev pub bound_fields : List String
bound_fields =
    "requester_id" ∷ "task_id" ∷ "context_id" ∷ "mcp_server" ∷ "action_digest" ∷ "not_before"
    ∷ "expires_at" ∷ "status_ref" ∷ []

-- The reference and the authority
unfoldable pub check_bound : Platform → Fields → Fields → Result (Unit {0})
check_bound p reference authority = do
  reject_if (not (value_eq (get reference "profile") (str profile_v1))) "profile_mismatch"
  actual ← digest_v1 p (obj authority)
  reject_if (not (value_eq (get reference "authority_digest") (str actual)))
      "authority_digest_mismatch"
  reject_if (differs reference "authority_id" authority "authority_id") "authority_id_mismatch"
  reject_if (any (λ f. differs reference f authority f) bound_fields) "authority_digest_mismatch"

-- What arrived
unfoldable pub check_arrival : Platform → Fields → Fields → Result (Unit {0})
check_arrival p reference observed = do
  reject_if (differs observed "caller_id" reference "requester_id") "caller_mismatch"
  reject_if (differs observed "task_id" reference "task_id") "task_mismatch"
  reject_if (differs observed "context_id" reference "context_id") "context_mismatch"
  reject_if (differs observed "mcp_server" reference "mcp_server") "audience_mismatch"
  actual ← action_digest_v1 p observed
  reject_if (not (value_eq (str actual) (get reference "action_digest"))) "action_digest_mismatch"

-- The window and the status
unfoldable pub check_validity : Platform → Fields → Fields → Time → Result (Unit {0})
check_validity p reference status now = do
  start ← item reference "not_before"
  starts ← time_v1 p start
  early ← lt_time now starts
  reject_if early "not_yet_valid"
  finish ← item reference "expires_at"
  ends ← time_v1 p finish
  late ← le_time ends now
  reject_if late "expired"
  reject_if (differs status "status_ref" reference "status_ref") "status_reference_mismatch"
  reject_if (differs status "authority_id" reference "authority_id") "status_reference_mismatch"
  reject_if (not (value_eq (get status "status") (str "current"))) "authority_not_current"

-- The checks before the nonce is consumed, and the nonce
unfoldable pub check_v1 : Platform → Fields → Fields → Fields → Fields → Time → Result Value
check_v1 p reference authority status observed now = do
  check_bound p reference authority
  check_arrival p reference observed
  check_validity p reference status now
  item reference "nonce"

abbrev answered_as : Bool × Consumed → Result Decision × Consumed
answered_as (first, consumed) = (ok (if first then accepted else rejected "nonce_replay"), consumed)

-- The insertion of NULL is never a second one.
unfoldable pub consume_column : Result (Option String) → Consumed → Result Decision × Consumed
unfolding consume
consume_column (err e) consumed = (err e, consumed)
consume_column (ok none) consumed = (ok accepted, consumed)
consume_column (ok (some key)) consumed = answered_as (consume key consumed)

unfoldable pub settle_v1 :
    (Value → Result (Option String)) → Result Value → Consumed → Result Decision × Consumed
settle_v1 column (ok nonce) consumed = consume_column (column nonce) consumed
settle_v1 column (err (exn early_return reason)) consumed = (ok (rejected reason), consumed)
settle_v1 column (err e) consumed = (err e, consumed)

unfoldable pub verify_v1 :
    Platform
    → (Value → Result (Option String))
    → Fields
    → Fields
    → Fields
    → Fields
    → Time
    → Consumed
    → Result Decision × Consumed
verify_v1 p column reference authority status observed now consumed =
    settle_v1 column (check_v1 p reference authority status observed now) consumed
