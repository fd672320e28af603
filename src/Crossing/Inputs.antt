-- ===== src/Crossing/Inputs.antt =====
-- conformance/a2a-mcp-crossing-v2/runner/reference.py: the contract of the inputs.
use minority_prophet_border.Py.Value.{Fields, Value, get, has_key, mem, obj, str}
use minority_prophet_border.Prelude.{
  Bool, List, Option, String, [], all, count, false, if◌then◌else◌, leb, nat_eq, none, not, some,
  true, ℕ, ◌&&◌, ◌==◌, ◌||◌, ◌∷◌,
}
use minority_prophet_border.Py.Result.{Result, err, ok, raise_if, ◌>>=◌, ◌>>◌}
use minority_prophet_border.Py.Text.{codes, concat}
use minority_prophet_border.Crossing.Json.{crossing_time, invalid, validate_json}
use minority_prophet_border.Platform.{Platform}

abbrev pub audience_sources : List String
audience_sources =
    "oauth_resource" ∷ "authenticated_endpoint" ∷ "certificate_identity" ∷ "pinned_configuration"
    ∷ []

abbrev pub as_mapping : String → Value → Result Fields
as_mapping name (obj d) = ok d
as_mapping name _ = err (invalid (concat (name ∷ " must be an object" ∷ [])))

unfoldable pub require_mapping : Fields → String → Result Fields
unfolding concat
require_mapping container f = as_mapping f (get container f)

abbrev as_text : String → Value → Result String
as_text name (str s) =
    if s == "" then err (invalid (concat (name ∷ " must be a non-empty string" ∷ []))) else ok s
as_text name _ = err (invalid (concat (name ∷ " must be a non-empty string" ∷ [])))

unfoldable pub require_string : Fields → String → Result String
unfolding concat
require_string container f = as_text f (get container f)

abbrev is_hex : ℕ → Bool
is_hex c = (leb b'0' c && leb c b'9') || (leb b'a' c && leb c b'f')

unfoldable pub require_digest : Fields → String → Result String
unfolding concat
require_digest container f = do
  value ← require_string container f
  raise_if (not (nat_eq (count value) 64) || not (all is_hex (codes value)))
      (invalid (concat (f ∷ " must be a lowercase SHA-256 digest" ∷ [])))
  ok value

unfoldable pub require_strings : Fields → List String → Result (Unit {0})
require_strings container [] = ok tt
require_strings container (f ∷ fs) = do _ ← require_string container f; require_strings container fs

unfoldable pub validate_audience : Fields → Result (Unit {0})
validate_audience container = do
  audience ← require_mapping container "mcp_audience"
  _ ← require_string audience "value"
  source ← require_string audience "source"
  raise_if (not (mem source audience_sources))
      (invalid "mcp_audience.source is not transport-bound")

abbrev pub authority_texts : List String
authority_texts =
    "issuer_id" ∷ "authority_id" ∷ "requester_id" ∷ "not_before" ∷ "expires_at" ∷ "status_ref"
    ∷ "nonce" ∷ []

unfoldable pub validate_stage : Fields → Result (Unit {0})
validate_stage binding = do
  mode ← require_string binding "mode"
  _ ← require_string binding "task_id"
  _ ← require_string binding "context_id"
  if mode == "first_turn_reissued"
      then (do _ ← require_digest binding "previous_stage_digest"; ok tt)
      else raise_if (mode == "existing_task" && has_key binding "previous_stage_digest")
          (invalid "existing_task cannot carry previous_stage_digest")

unfoldable pub validate_crossing_authority : Platform → Fields → Bool → Result (Unit {0})
validate_crossing_authority p authority initial = do
  require_strings authority authority_texts
  _ ← require_digest authority "action_digest"
  validate_audience authority
  starts ← require_string authority "not_before"
  _ ← crossing_time p starts
  expires ← require_string authority "expires_at"
  _ ← crossing_time p expires
  binding ← require_mapping authority "a2a_binding"
  _ ← require_string binding "stage"
  _ ← require_string binding "message_id"
  if initial then ok tt else validate_stage binding

unfoldable pub validate_reference : Fields → Result (Unit {0})
validate_reference reference = do
  _ ← require_string reference "profile"
  _ ← require_string reference "authority_id"
  _ ← require_digest reference "authority_digest"
  ok tt

-- The arguments of `verify`, before and after `_validate_inputs`.
pub record Raw : Type 0 where
  pub reference : Value
  pub authority : Value
  pub status : Value
  pub observed : Value
  pub initial_reference : Option Value
  pub initial_authority : Option Value

pub record Inputs : Type 0 where
  pub reference : Fields
  pub authority : Fields
  pub status : Fields
  pub observed : Fields
  pub initial_reference : Option Fields
  pub initial_authority : Option Fields

abbrev read_object : String → Value → Result Fields
read_object name v = do d ← as_mapping name v; validate_json (obj d); ok d

read_optional : String → (Fields → Result (Unit {0})) → Option Value → Result (Option Fields)
read_optional name check none = ok none
read_optional name check (some v) = do d ← read_object name v; check d; ok (some d)

unfoldable pub validate_inputs : Platform → Raw → Result Inputs
unfolding read_optional
validate_inputs p raw = do
  reference ← read_object "reference" raw.reference
  authority ← read_object "authority" raw.authority
  status ← read_object "status" raw.status
  observed ← read_object "observed" raw.observed
  validate_reference reference
  validate_crossing_authority p authority false
  require_strings status ("status_ref" ∷ "authority_id" ∷ "observed_at" ∷ "status" ∷ [])
  seen_at ← require_string status "observed_at"
  _ ← crossing_time p seen_at
  require_strings observed ("caller_id" ∷ "message_id" ∷ "task_id" ∷ "context_id" ∷ "tool" ∷ [])
  validate_audience observed
  _ ← as_mapping "arguments" (get observed "arguments")
  initial_reference ← read_optional "initial_reference" validate_reference raw.initial_reference
  initial_authority ←
      read_optional "initial_authority" (λ d. validate_crossing_authority p d true)
        raw.initial_authority
  ok (record {
    reference = reference;
    authority = authority;
    status = status;
    observed = observed;
    initial_reference = initial_reference;
    initial_authority = initial_authority;
  })
