-- ===== src/Admission/Validation.antt =====
-- border/admission.py: the controller's checks of the declaration, the authority, the policy's
-- routes and the human control event. After `required` a field is present, so that `d[key]` and
-- `d.get(key)` are the same and the latter, which cannot raise, is written.
use minority_prophet_border.Prelude.{
  String, ◌==◌, Bool, false, not, ◌&&◌, ◌||◌, List, [], ◌∷◌, if◌then◌else◌,
}
use minority_prophet_border.Platform.{Platform}
use minority_prophet_border.Py.Result.{
  exn, key_error, Result, ok, err, raise_if, or_else, and_then, ◌>>=◌, ◌>>◌,
}
use minority_prophet_border.Py.Value.{
  Value, str, obj, Fields, get, item, subscript, without, iterate, truthy,
}
use minority_prophet_border.Py.Equality.{value_eq}
use minority_prophet_border.Py.Clock.{Time, lt_time}
use minority_prophet_border.Py.Bindings.{match_items, in_set, in_window}
use minority_prophet_border.Admission.Base.{
  document_digest, refused, required, time_field, substitution,
}

-- The callbacks that a deployment injects; each may raise.
pub record Callbacks : Type 0 where
  pub verify_authority : Fields → Result Bool
  pub verify_control : Fields → Result Bool
  pub human_is_authorized : Fields → Result Bool

abbrev pub declaration_fields : List String
declaration_fields =
    "schema" ∷ "request_id" ∷ "subject_id" ∷ "principal_id" ∷ "delegation_id" ∷ "manifest_digest"
    ∷ "purpose" ∷ "action" ∷ "created_at" ∷ "not_before" ∷ "expires_at" ∷ "nonce" ∷ "audience" ∷ []

abbrev pub as_action : Value → Result Fields
as_action (obj action) = ok action
as_action _ = err (refused "declaration.action must be an object")

unfoldable pub validate_declaration : Platform → Fields → Time → Result String
validate_declaration p declaration now = do
  required "declaration" declaration declaration_fields
  schema ← item declaration "schema"
  raise_if (not (value_eq schema (str "trip-declaration/v1")))
      (refused "unknown declaration schema")
  raw_action ← item declaration "action"
  action ← as_action raw_action
  required "declaration.action" action ("type" ∷ "target" ∷ "payload_digest" ∷ [])
  starts ← time_field p (get declaration "not_before") "declaration.not_before"
  expires ← time_field p (get declaration "expires_at") "declaration.expires_at"
  created ← time_field p (get declaration "created_at") "declaration.created_at"
  early ← lt_time now created
  inactive ← or_else early (do active ← in_window starts now expires; ok (not active))
  raise_if inactive (refused "declaration is not currently active")
  document_digest p (obj action)

abbrev pub authority_fields : List String
authority_fields =
    "receipt_id" ∷ "request_id" ∷ "subject_id" ∷ "principal_id" ∷ "delegation_id" ∷ "action_digest"
    ∷ "status" ∷ "decision" ∷ "not_before" ∷ "expires_at" ∷ "issued_at" ∷ "key_id" ∷ "signature"
    ∷ []

abbrev pub authority_bindings : Fields → String → List (String × Value)
authority_bindings declaration action_digest =
    ("request_id", get declaration "request_id")
    ∷ ("subject_id", get declaration "subject_id")
    ∷ ("principal_id", get declaration "principal_id")
    ∷ ("delegation_id", get declaration "delegation_id")
    ∷ ("action_digest", str action_digest)
    ∷ []

unfoldable pub validate_authority :
    Platform → Callbacks → Fields → Fields → String → Time → Result (Unit {0})
validate_authority p callbacks authority declaration action_digest now = do
  required "authority" authority authority_fields
  verified ← callbacks.verify_authority authority
  raise_if (not verified) (refused "authority signature verification failed")
  match_items (substitution "authority") authority (authority_bindings declaration action_digest)
  starts ← time_field p (get authority "not_before") "authority.not_before"
  expires ← time_field p (get authority "expires_at") "authority.expires_at"
  status ← item authority "status"
  decision ← item authority "decision"
  inactive ←
      or_else (not (value_eq status (str "active")) || not (value_eq decision (str "allow")))
        (do active ← in_window starts now expires; ok (not active))
  raise_if inactive (refused "authority is inactive, denied, expired, or revoked")

abbrev pub policy_fields : List String
policy_fields =
    "policy_id" ∷ "policy_version" ∷ "policy_digest" ∷ "audience" ∷ "permitted_routes"
    ∷ "requires_human_approval" ∷ "override_permitted" ∷ []

-- `any(route.get(…) == action["type"] and … for route in routes if isinstance(route, dict))`
unfoldable pub any_route : Value → List Value → Result Bool
any_route action [] = ok false
any_route action (obj route ∷ rest) = do
  let later = any_route action rest
  kind ← subscript action "type"
  hit ←
      and_then (value_eq (get route "action_type") kind)
        (do target ← subscript action "target"; ok (value_eq (get route "target") target))
  or_else hit later
any_route action (_ ∷ rest) = any_route action rest

unfoldable pub route_allowed : Platform → Fields → Fields → Result Bool
unfolding any_route without
route_allowed p policy declaration = do
  required "policy" policy policy_fields
  actual ← document_digest p (obj (without "policy_digest" policy))
  raise_if (not (value_eq (get policy "policy_digest") (str actual)))
      (refused "runtime policy digest mismatch")
  audience ← item declaration "audience"
  and_then (value_eq (get policy "audience") audience) (do
    action ← item declaration "action"
    routes ← iterate (get policy "permitted_routes")
    any_route action routes)

abbrev pub control_fields : List String
control_fields =
    "schema" ∷ "event_id" ∷ "mode" ∷ "human_id" ∷ "role" ∷ "authority_ref" ∷ "subject_id"
    ∷ "request_id" ∷ "action_digest" ∷ "original_decision" ∷ "reason" ∷ "not_before" ∷ "expires_at"
    ∷ "nonce" ∷ "policy_version" ∷ "authentication_digest" ∷ "co_approvers" ∷ "signature" ∷ []

abbrev pub control_modes : List String
control_modes = "approval" ∷ "override" ∷ "manual_control" ∷ []

abbrev pub control_bindings : Fields → String → Fields → List (String × Value)
control_bindings declaration action_digest policy =
    ("subject_id", get declaration "subject_id")
    ∷ ("request_id", get declaration "request_id")
    ∷ ("action_digest", str action_digest)
    ∷ ("policy_version", get policy "policy_version")
    ∷ []

-- `{"approval": "human_approved", …}[mode]`
abbrev pub mode_name : Value → Result String
mode_name (str m) =
    if m == "approval"
    then ok "human_approved"
    else if m == "override"
    then ok "human_overridden"
    else if m == "manual_control"
    then ok "human_operated"
    else err (exn key_error m)
mode_name _ = err (exn key_error "mode")

-- What an event of this mode may do where the route is not allowed, or approval is required.
unfoldable pub check_override : Value → Fields → Bool → Result (Unit {0})
check_override mode policy allowed = do
  let overrides = value_eq mode (str "override")
  let permitted = truthy (get policy "override_permitted")
  raise_if (not allowed && (not overrides || not permitted))
      (refused "policy route cannot be overridden by this event")
  raise_if (truthy (get policy "requires_human_approval") && overrides && not permitted)
      (refused "approval requirement cannot be overridden by this event")

unfoldable pub validate_control :
    Platform → Callbacks → Fields → Fields → String → Fields → Time → Bool → Result String
validate_control p callbacks control declaration action_digest policy now allowed = do
  required "control" control control_fields
  mode ← item control "mode"
  invalid ←
      or_else (not (value_eq (get control "schema") (str "human-control/v1")))
        (do known ← in_set mode control_modes; ok (not known))
  raise_if invalid (refused "invalid human control event")
  verified ← callbacks.verify_control control
  raise_if (not verified) (refused "human control signature verification failed")
  authorized ← callbacks.human_is_authorized control
  raise_if (not authorized) (refused "human lacks authority for this intervention")
  match_items (substitution "human control") control
      (control_bindings declaration action_digest policy)
  starts ← time_field p (get control "not_before") "control.not_before"
  expires ← time_field p (get control "expires_at") "control.expires_at"
  active ← in_window starts now expires
  raise_if (not active) (refused "human control event is not active")
  check_override mode policy allowed
  mode_name mode
