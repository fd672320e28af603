-- ===== src/Tests/CrossingV1.antt =====
-- A crossing of version 1.
use minority_prophet_border.CrossingV1.{
  action_digest_v1, canonical_v1, check_arrival, check_bound, check_v1, check_validity,
  consume_column, digest_v1, no_float, settle_v1, time_v1, verify_v1,
}
use minority_prophet_border.Prelude.Int.{pos}
use minority_prophet_border.Py.Result.{Result, err, exn, ok, value_error}
use minority_prophet_border.Jcs.{encode, render}
use minority_prophet_border.Py.Clock.{Time, utc}
use minority_prophet_border.Prelude.{Option, String, [], none, refl, some, ◌∷◌, ◌≡◌}
use minority_prophet_border.Py.Value.{Fields, Value, dict, int, null, obj, str}
use minority_prophet_border.Py.Text.{concat, replace}
use minority_prophet_border.CrossingV1.Acceptance.{
  Admits, IsCrossingV1, IsCrossingV1-verify_v1, verify_v1-IsCrossingV1, check_v1-IsCrossingV1,
}
use minority_prophet_border.Py.Equality.{value_eq}
use minority_prophet_border.Crossing.Verifier.{accepted, consume, rejected}
use minority_prophet_border.Tests.Runtime.{runs, runtime}

abbrev authority : Fields
authority = dict (
    ("authority_id", str "au")
    ∷ ("requester_id", str "a")
    ∷ ("task_id", str "t")
    ∷ ("context_id", str "c")
    ∷ ("mcp_server", str "m")
    ∷ ("action_digest", str "767699765")
    ∷ ("not_before", str "@10")
    ∷ ("expires_at", str "@90")
    ∷ ("status_ref", str "st")
    ∷ [])

abbrev reference : Fields
reference = dict (
    ("profile", str "https://minorityprophet.org/conformance/a2a-mcp-crossing/v1")
    ∷ ("authority_digest", str "200500358")
    ∷ ("authority_id", str "au")
    ∷ ("requester_id", str "a")
    ∷ ("task_id", str "t")
    ∷ ("context_id", str "c")
    ∷ ("mcp_server", str "m")
    ∷ ("action_digest", str "767699765")
    ∷ ("not_before", str "@10")
    ∷ ("expires_at", str "@90")
    ∷ ("status_ref", str "st")
    ∷ ("nonce", str "n-1")
    ∷ [])

abbrev unnamed : Fields
unnamed = dict (
    ("profile", str "https://minorityprophet.org/conformance/a2a-mcp-crossing/v1")
    ∷ ("authority_digest", str "200500358")
    ∷ ("authority_id", str "au")
    ∷ ("requester_id", str "a")
    ∷ ("task_id", str "t")
    ∷ ("context_id", str "c")
    ∷ ("mcp_server", str "m")
    ∷ ("action_digest", str "767699765")
    ∷ ("not_before", str "@10")
    ∷ ("expires_at", str "@90")
    ∷ ("status_ref", str "st")
    ∷ ("nonce", null)
    ∷ [])

abbrev status : Fields
status =
    dict (("status_ref", str "st") ∷ ("authority_id", str "au") ∷ ("status", str "current") ∷ [])

abbrev observed : Fields
observed = dict (
    ("caller_id", str "a")
    ∷ ("task_id", str "t")
    ∷ ("context_id", str "c")
    ∷ ("mcp_server", str "m")
    ∷ ("tool", str "pay")
    ∷ ("arguments", obj (dict (("x", int (pos 1)) ∷ [])))
    ∷ [])

-- SQLite keeps a text as it is, and a null as NULL.
abbrev column : Value → Result (Option String)
column (str s) = ok (some s)
column null = ok none
column v = err (exn value_error "no text")

abbrev now : Time
now = record { instant = 20; zone = some utc }

unfoldable v1_runs : Unit {0}
unfolding runs value_eq replace concat encode render no_float canonical_v1 digest_v1
    action_digest_v1 time_v1 check_bound check_arrival check_validity check_v1 consume
    consume_column settle_v1 verify_v1
v1_runs = tt

taken :
    verify_v1 runtime column reference authority status observed now [] ≡ (ok accepted, "n-1" ∷ [])
unfolding v1_runs
taken = refl

taken_again :
    verify_v1 runtime column reference authority status observed now ("n-1" ∷ [])
    ≡ (ok (rejected "nonce_replay"), "n-1" ∷ [])
unfolding v1_runs
taken_again = refl

-- A crossing whose nonce is null is accepted, and leaves no trace in the store.
taken_unnamed :
    verify_v1 runtime column unnamed authority status observed now [] ≡ (ok accepted, [])
unfolding v1_runs
taken_unnamed = refl

checked : check_v1 runtime reference authority status observed now ≡ ok (str "n-1")
unfolding v1_runs
checked = refl

verify_v1-IsCrossingV1_example :
    (nonce : Value) × IsCrossingV1 runtime reference authority status observed now nonce
    × Admits (column nonce) [] ("n-1" ∷ [])
verify_v1-IsCrossingV1_example =
    verify_v1-IsCrossingV1 runtime column reference authority status observed now [] ("n-1" ∷ [])
      taken

IsCrossingV1-verify_v1_example :
    verify_v1 runtime column reference authority status observed now [] ≡ (ok accepted, "n-1" ∷ [])
IsCrossingV1-verify_v1_example =
    IsCrossingV1-verify_v1 runtime column reference authority status observed now [] (str "n-1")
      "n-1"
      (check_v1-IsCrossingV1 runtime reference authority status observed now (str "n-1") checked)
      refl refl
