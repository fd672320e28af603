-- ===== src/Tests/Crossing.antt =====
-- One crossing of a resolved authority, and a second try of it.
use minority_prophet_border.Crossing.Inputs.{
  Inputs, Raw, require_digest, require_mapping, require_string, require_strings, validate_audience,
  validate_crossing_authority, validate_inputs, validate_reference, validate_stage,
}
use minority_prophet_border.Prelude.{String, [], none, refl, some, ℕ, ◌∷◌, ◌≡◌, ◌≢◌}
use minority_prophet_border.Prelude.Int.{pos}
use minority_prophet_border.Crossing.Verifier.{
  accepted, action_digest, check_crossing, check_currency, check_observed, check_reissue,
  check_stage, consume, replay_key, verify_crossing,
}
use minority_prophet_border.Py.Value.{Fields, dict, int, obj, str}
use minority_prophet_border.Crossing.Json.{
  canonical_bytes, canonical_text, crossing_time, digest, validate_json,
}
use minority_prophet_border.Py.Equality.{value_eq}
use minority_prophet_border.Py.Clock.{Time, utc}
use minority_prophet_border.Tests.Runtime.{hex_runtime, runs}
use minority_prophet_border.Py.Text.{concat, replace}
use minority_prophet_border.Py.Result.{ok}
use minority_prophet_border.Crossing.Replay.{run, Call, verify_crossing-spends}

abbrev reference : Fields
reference = dict (
    ("profile", str "https://minorityprophet.org/conformance/a2a-mcp-crossing/v2")
    ∷ ("authority_id", str "au-1")
    ∷ ("authority_digest", str "0000000000000000000000000000000000000000000000000000000573486244")
    ∷ [])

abbrev authority : Fields
authority = dict (
    ("issuer_id", str "i-1")
    ∷ ("authority_id", str "au-1")
    ∷ ("requester_id", str "r-1")
    ∷ (
      "mcp_audience",
      obj (dict (("value", str "https://mcp") ∷ ("source", str "oauth_resource") ∷ [])),
    )
    ∷ ("action_digest", str "0000000000000000000000000000000000000000000000000000000204328520")
    ∷ ("not_before", str "@10")
    ∷ ("expires_at", str "@90")
    ∷ ("status_ref", str "s-1")
    ∷ ("nonce", str "n-1")
    ∷ (
      "a2a_binding",
      obj (
          dict (
            ("stage", str "resolved")
            ∷ ("mode", str "existing_task")
            ∷ ("message_id", str "msg-1")
            ∷ ("task_id", str "t-1")
            ∷ ("context_id", str "c-1")
            ∷ [])),
    )
    ∷ [])

abbrev status : Fields
status = dict (
    ("status_ref", str "s-1")
    ∷ ("authority_id", str "au-1")
    ∷ ("observed_at", str "@40")
    ∷ ("status", str "current")
    ∷ [])

abbrev observed : Fields
observed = dict (
    ("caller_id", str "r-1")
    ∷ ("message_id", str "msg-1")
    ∷ ("task_id", str "t-1")
    ∷ ("context_id", str "c-1")
    ∷ ("tool", str "pay")
    ∷ ("arguments", obj (dict (("amount", int (pos 3)) ∷ [])))
    ∷ (
      "mcp_audience",
      obj (dict (("value", str "https://mcp") ∷ ("source", str "oauth_resource") ∷ [])),
    )
    ∷ [])

abbrev at : ℕ → Time
at n = record { instant = n; zone = some utc }

abbrev raw : Raw
raw = record {
  reference = obj reference;
  authority = obj authority;
  status = obj status;
  observed = obj observed;
  initial_reference = none;
  initial_authority = none;
}

abbrev inputs : Inputs
inputs = record {
  reference = reference;
  authority = authority;
  status = status;
  observed = observed;
  initial_reference = none;
  initial_authority = none;
}

abbrev key : String
key = "0000000000000000000000000000000000000000000000000000000176798306"

unfoldable crossing_runs : Unit {0}
unfolding runs concat replace value_eq validate_json canonical_text canonical_bytes digest
    crossing_time require_mapping require_string require_digest require_strings validate_audience
    validate_stage validate_crossing_authority validate_reference validate_inputs consume
    check_stage check_reissue action_digest check_observed check_currency replay_key check_crossing
    verify_crossing run
crossing_runs = tt

valid : validate_inputs hex_runtime raw ≡ ok inputs
unfolding crossing_runs
valid = refl

keyed : replay_key hex_runtime authority ≡ ok key
unfolding crossing_runs
keyed = refl

crossed : (verify_crossing hex_runtime raw (at 50) []).0 ≡ ok accepted
unfolding crossing_runs
crossed = refl

abbrev call : ℕ → Call
call n = record { raw = raw; now = at n }

verify_crossing-spends_example :
    (verify_crossing hex_runtime raw
      (at 70)
      (run hex_runtime (call 60 ∷ []) (verify_crossing hex_runtime raw (at 50) []).1)).0
    ≢ ok accepted
verify_crossing-spends_example =
    verify_crossing-spends hex_runtime (call 50) (call 70) (call 60 ∷ []) [] inputs inputs key valid
      valid keyed keyed crossed
