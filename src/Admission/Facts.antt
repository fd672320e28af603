-- ===== src/Admission/Facts.antt =====
-- What each check of the admission controller has established when it lets an attempt through,
-- stated without the code's control flow.
pub mod Checks
use minority_prophet_border.Prelude.{
  ℕ, ◌≤◌, ◌<◌, String, ◌≡◌, ◌⊎◌, Bool, true, false, Option, none, some, List, [], ◌∷◌, All,
}
use minority_prophet_border.Platform.{Platform}
use minority_prophet_border.Py.Result.{Result, ok}
use minority_prophet_border.Py.Value.{
  Value, str, obj, Fields, get, without, truthy, has_key, is_blank, iterate, mem, subscript,
}
use minority_prophet_border.Py.Equality.{value_eq}
use minority_prophet_border.Py.Clock.{Time}
use minority_prophet_border.Py.Bindings.Laws.{Agrees}
use minority_prophet_border.Admission.Base.{document_digest, time_field}
use minority_prophet_border.Admission.Validation.{
  Callbacks, authority_bindings, control_bindings, control_modes, route_allowed,
}

-- The field is there, and is neither null nor an empty text.
abbrev pub IsPresent : Fields → String → Type 0
IsPresent doc f = (has_key doc f ≡ true) × (is_blank (get doc f) ≡ false)

-- The document's own time box holds `now`.
abbrev pub IsActive : Platform → String → String → Fields → Time → Type 0
IsActive p start_name end_name doc now =
    (starts : Time) × (expires : Time) × (time_field p (get doc "not_before") start_name
      ≡ ok starts)
    × (time_field p (get doc "expires_at") end_name ≡ ok expires)
    × (starts.instant ≤ now.instant)
    × (now.instant < expires.instant)

pub record IsDeclared (p : Platform) (declaration : Fields) (digest : String) (now : Time)
    : Type 0 where
  pub present : All (IsPresent declaration) (
      "schema" ∷ "request_id" ∷ "subject_id" ∷ "principal_id" ∷ "delegation_id" ∷ "manifest_digest"
      ∷ "purpose" ∷ "action" ∷ "created_at" ∷ "not_before" ∷ "expires_at" ∷ "nonce" ∷ "audience"
      ∷ [])
  pub schema : value_eq (get declaration "schema") (str "trip-declaration/v1") ≡ true
  pub created :
      (t : Time) × (time_field p (get declaration "created_at") "declaration.created_at" ≡ ok t)
      × (t.instant ≤ now.instant)
  pub active : IsActive p "declaration.not_before" "declaration.expires_at" declaration now
  pub action :
      (action : Fields) × (get declaration "action" ≡ obj action)
      × (document_digest p (obj action) ≡ ok digest)
      × All (IsPresent action) ("type" ∷ "target" ∷ "payload_digest" ∷ [])

pub record IsAuthorized (p : Platform) (callbacks : Callbacks) (authority declaration : Fields)
    (digest : String) (now : Time) : Type 0 where
  pub present : All (IsPresent authority) (
      "receipt_id" ∷ "request_id" ∷ "subject_id" ∷ "principal_id" ∷ "delegation_id"
      ∷ "action_digest" ∷ "status" ∷ "decision" ∷ "not_before" ∷ "expires_at" ∷ "issued_at"
      ∷ "key_id" ∷ "signature" ∷ [])
  pub verified : callbacks.verify_authority authority ≡ ok true
  pub bound : Agrees authority (
      ("request_id", get declaration "request_id")
      ∷ ("subject_id", get declaration "subject_id")
      ∷ ("principal_id", get declaration "principal_id")
      ∷ ("delegation_id", get declaration "delegation_id")
      ∷ ("action_digest", str digest)
      ∷ [])
  pub status : value_eq (get authority "status") (str "active") ≡ true
  pub decision : value_eq (get authority "decision") (str "allow") ≡ true
  pub active : IsActive p "authority.not_before" "authority.expires_at" authority now

pub record IsIntact (p : Platform) (policy : Fields) : Type 0 where
  pub present : All (IsPresent policy) (
      "policy_id" ∷ "policy_version" ∷ "policy_digest" ∷ "audience" ∷ "permitted_routes"
      ∷ "requires_human_approval" ∷ "override_permitted" ∷ [])
  pub digest :
      (d : String) × (document_digest p (obj (without "policy_digest" policy)) ≡ ok d)
      × (value_eq (get policy "policy_digest") (str d) ≡ true)

-- The route is for this action: an object with its type and its target.
abbrev pub IsRoute : Value → Value → Type 0
IsRoute action v =
    (route : Fields) × (kind : Value) × (target : Value) × (v ≡ obj route)
    × (subscript action "type" ≡ ok kind)
    × (subscript action "target" ≡ ok target)
    × (value_eq (get route "action_type") kind ≡ true)
    × (value_eq (get route "target") target ≡ true)

abbrev pub AnyRoute : Value → List Value → Type 0
AnyRoute action [] = ⊥
AnyRoute action (v ∷ rest) = IsRoute action v ⊎ AnyRoute action rest

-- The policy is for the declaration's audience, and one of its routes is for the declared action.
pub record IsPermitted (policy declaration : Fields) : Type 0 where
  pub audience : value_eq (get policy "audience") (get declaration "audience") ≡ true
  pub routes : List Value
  pub listed : iterate (get policy "permitted_routes") ≡ ok routes
  pub routed : AnyRoute (get declaration "action") routes

abbrev pub Overrides : Fields → Fields → Type 0
Overrides control policy =
    (value_eq (get control "mode") (str "override") ≡ true)
    × (truthy (get policy "override_permitted") ≡ true)

pub record IsControlled (p : Platform) (callbacks : Callbacks) (control declaration : Fields)
    (digest : String) (policy : Fields) (now : Time) : Type 0 where
  pub present : All (IsPresent control) (
      "schema" ∷ "event_id" ∷ "mode" ∷ "human_id" ∷ "role" ∷ "authority_ref" ∷ "subject_id"
      ∷ "request_id" ∷ "action_digest" ∷ "original_decision" ∷ "reason" ∷ "not_before"
      ∷ "expires_at" ∷ "nonce" ∷ "policy_version" ∷ "authentication_digest" ∷ "co_approvers"
      ∷ "signature" ∷ [])
  pub mode :
      (m : String) × (get control "mode" ≡ str m)
      × (mem m ("approval" ∷ "override" ∷ "manual_control" ∷ []) ≡ true)
  pub schema : value_eq (get control "schema") (str "human-control/v1") ≡ true
  pub verified : callbacks.verify_control control ≡ ok true
  pub entitled : callbacks.human_is_authorized control ≡ ok true
  pub bound : Agrees control (
      ("subject_id", get declaration "subject_id")
      ∷ ("request_id", get declaration "request_id")
      ∷ ("action_digest", str digest)
      ∷ ("policy_version", get policy "policy_version")
      ∷ [])
  pub active : IsActive p "control.not_before" "control.expires_at" control now
