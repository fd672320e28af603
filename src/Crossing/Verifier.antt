-- ===== src/Crossing/Verifier.antt =====
-- conformance/a2a-mcp-crossing-v2/runner/reference.py: `CrossingVerifier.verify` over the store of
-- consumed replay keys. An early `return` of a rejection ends the block as an exception of a class
-- of its own, and becomes a decision again at the end.
use minority_prophet_border.Prelude.{
  Bool, List, Option, String, [], any, false, if◌then◌else◌, ltb, none, not, some, true, ℕ, ◌*◌,
  ◌-◌, ◌||◌, ◌∷◌,
}
use minority_prophet_border.Platform.{Platform}
use minority_prophet_border.Py.Result.{
  Class, Exn, Result, early_return, err, exn, fixture_error, key_error, ok, raise_if, type_error,
  value_error, ◌>>=◌, ◌>>◌,
}
use minority_prophet_border.Crossing.Inputs.{Inputs, Raw, validate_inputs}
use minority_prophet_border.Py.Value.{Fields, dict, end, get, list, mem, obj, str}
use minority_prophet_border.Py.Clock.{Time, le_time, lt_time}
use minority_prophet_border.Crossing.Json.{crossing_time, digest}
use minority_prophet_border.Py.Equality.{value_eq}

pub record Decision : Type 0 where
  pub outcome : String
  pub reason : String

abbrev pub rejected : String → Decision
rejected reason = record { outcome = "reject"; reason = reason }

abbrev pub accepted : Decision
accepted = record { outcome = "succeed"; reason = "accepted" }

-- The table `consumed`, by its primary keys.
abbrev pub Consumed : Type 0
Consumed = List String

-- `SQLiteReplayStore.consume`: the insertion of a key that is there is rolled back.
unfoldable pub consume : String → Consumed → Bool × Consumed
consume key consumed = if mem key consumed then (false, consumed) else (true, key ∷ consumed)

abbrev pub profile : String
profile = "https://minorityprophet.org/conformance/a2a-mcp-crossing/v2"

-- `if condition: return Decision("reject", reason)`
abbrev pub reject_if : Bool → String → Result (Unit {0})
reject_if condition reason = raise_if condition (exn early_return reason)

abbrev pub differs : Fields → String → Fields → String → Bool
differs a f b g = not (value_eq (get a f) (get b g))

abbrev pub binding_of : Fields → Fields
binding_of authority = elim (get authority "a2a_binding") [ obj d ↦ d | _ ↦ end ]

abbrev pub immutable_fields : List String
immutable_fields =
    "issuer_id" ∷ "authority_id" ∷ "requester_id" ∷ "mcp_audience" ∷ "action_digest" ∷ "not_before"
    ∷ "expires_at" ∷ "status_ref" ∷ "nonce" ∷ []

-- A reissue on the first turn, against the initial stage that it continues.
unfoldable pub check_reissue : Platform → Fields → Fields → Fields → Fields → Result (Unit {0})
check_reissue p authority binding initial_reference initial_authority = do
  reject_if (not (value_eq (get initial_reference "profile") (str profile))) "profile_mismatch"
  initial_digest ← digest p (obj initial_authority)
  reject_if (not (value_eq (get initial_reference "authority_digest") (str initial_digest)))
      "initial_authority_digest_mismatch"
  reject_if (differs initial_reference "authority_id" initial_authority "authority_id")
      "initial_authority_id_mismatch"
  let initial_binding = binding_of initial_authority
  reject_if (not (value_eq (get initial_binding "stage") (str "initial"))) "initial_stage_invalid"
  reject_if (not (value_eq (get binding "previous_stage_digest") (str initial_digest)))
      "stage_link_mismatch"
  reject_if (differs binding "message_id" initial_binding "message_id") "stage_message_mismatch"
  reject_if (any (λ f. differs authority f initial_authority f) immutable_fields)
      "stage_reissue_mismatch"

-- `not initial_reference or not initial_authority`: an empty object is false too, but the contract
-- of the inputs has refused one.
unfoldable pub check_stage :
    Platform → Fields → Fields → Option Fields → Option Fields → Result (Unit {0})
check_stage p authority binding (some initial_reference) (some initial_authority) =
    if value_eq (get binding "mode") (str "first_turn_reissued")
    then check_reissue p authority binding initial_reference initial_authority
    else if value_eq (get binding "mode") (str "existing_task")
    then err (exn early_return "stage_evidence_unexpected")
    else err (exn early_return "stage_mode_invalid")
check_stage p authority binding none none =
    if value_eq (get binding "mode") (str "first_turn_reissued")
    then err (exn early_return "stage_evidence_missing")
    else reject_if (not (value_eq (get binding "mode") (str "existing_task"))) "stage_mode_invalid"
check_stage p authority binding _ _ =
    if value_eq (get binding "mode") (str "first_turn_reissued")
    then err (exn early_return "stage_evidence_missing")
    else if value_eq (get binding "mode") (str "existing_task")
    then err (exn early_return "stage_evidence_unexpected")
    else err (exn early_return "stage_mode_invalid")

-- `action_digest(observed)`
unfoldable pub action_digest : Platform → Fields → Result String
action_digest p observed = digest p (
    obj (
      dict (
        ("arguments", get observed "arguments")
        ∷ ("mcp_audience", get observed "mcp_audience")
        ∷ ("tool", get observed "tool")
        ∷ [])))

-- What arrived, against what the authority binds.
unfoldable pub check_observed : Platform → Fields → Fields → Fields → Result (Unit {0})
check_observed p authority binding observed = do
  reject_if (differs observed "caller_id" authority "requester_id") "caller_mismatch"
  reject_if (differs observed "message_id" binding "message_id") "message_mismatch"
  reject_if (differs observed "task_id" binding "task_id") "task_mismatch"
  reject_if (differs observed "context_id" binding "context_id") "context_mismatch"
  reject_if (differs observed "mcp_audience" authority "mcp_audience") "audience_mismatch"
  action ← action_digest p observed
  reject_if (not (value_eq (str action) (get authority "action_digest"))) "action_digest_mismatch"

-- A text that the contract of the inputs has required.
abbrev pub text_at : Fields → String → String
text_at d f = elim (get d f) [ str s ↦ s | _ ↦ "" ]

abbrev pub max_status_age : ℕ
max_status_age = 300 * 1_000_000

-- Validity and currency; the result is the authority's end.
unfoldable pub check_currency : Platform → Fields → Fields → Time → Result Time
check_currency p authority status now = do
  starts ← crossing_time p (text_at authority "not_before")
  early ← lt_time now starts
  reject_if early "not_yet_valid"
  expires ← crossing_time p (text_at authority "expires_at")
  late ← le_time expires now
  reject_if late "expired"
  reject_if
      (differs status "status_ref" authority "status_ref"
        || differs status "authority_id" authority "authority_id")
      "status_reference_mismatch"
  observed_at ← crossing_time p (text_at status "observed_at")
  reject_if
      (ltb now.instant observed_at.instant
        || ltb max_status_age (now.instant - observed_at.instant))
      "status_stale"
  reject_if (not (value_eq (get status "status") (str "current"))) "authority_not_current"
  ok expires

-- `replay_key(authority)`
unfoldable pub replay_key : Platform → Fields → Result String
replay_key p authority =
    digest p
      (list (get authority "issuer_id" ∷ get authority "authority_id" ∷ get authority "nonce" ∷ []))

-- All that comes before the replay store, with the key to consume.
unfoldable pub check_crossing : Platform → Inputs → Time → Result String
check_crossing p i now = do
  reject_if (not (value_eq (get i.reference "profile") (str profile))) "profile_mismatch"
  authority_digest ← digest p (obj i.authority)
  reject_if (not (value_eq (get i.reference "authority_digest") (str authority_digest)))
      "authority_digest_mismatch"
  reject_if (differs i.reference "authority_id" i.authority "authority_id") "authority_id_mismatch"
  let binding = binding_of i.authority
  reject_if (not (value_eq (get binding "stage") (str "resolved"))) "task_binding_unresolved"
  check_stage p i.authority binding i.initial_reference i.initial_authority
  check_observed p i.authority binding i.observed
  expires ← check_currency p i.authority i.status now
  replay_key p i.authority

abbrev spend : String → Consumed → Result Decision × Consumed
spend key consumed =
    let (first, consumed') = consume key consumed in
    (ok (if first then accepted else rejected "nonce_replay"), consumed')

abbrev pub settle : Result String → Consumed → Result Decision × Consumed
settle (ok key) consumed = spend key consumed
settle (err (exn early_return reason)) consumed = (ok (rejected reason), consumed)
settle (err e) consumed = (err e, consumed)

-- The classes of `except (FixtureError, KeyError, TypeError, ValueError)`
abbrev pub contract_class : Class → Bool
contract_class fixture_error = true
contract_class value_error = true
contract_class key_error = true
contract_class type_error = true
contract_class _ = false

abbrev pub uncontracted : Exn → Result Decision
uncontracted (exn c m) =
    if contract_class c then ok (rejected "input_contract_invalid") else err (exn c m)

unfoldable pub verify_crossing : Platform → Raw → Time → Consumed → Result Decision × Consumed
verify_crossing p raw now consumed = elim (validate_inputs p raw) [
  | ok i ↦ settle (check_crossing p i now) consumed
  | err e ↦ (uncontracted e, consumed)
]
