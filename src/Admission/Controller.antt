-- ===== src/Admission/Controller.antt =====
-- border/admission.py: `BorderAdmissionController.admit` and the admissions that it remembers.
mod Steps
pub mod Soundness
pub mod Replay
pub mod Receipt
use minority_prophet_border.Prelude.{
  String, ◌==◌, Bool, true, false, not, ◌&&◌, Option, none, some, List, [], ◌∷◌, if◌then◌else◌,
}
use minority_prophet_border.Platform.{Platform}
use minority_prophet_border.Py.Result.{exn, type_error, Result, ok, err, raise_if, ◌>>=◌, ◌>>◌}
use minority_prophet_border.Py.Text.{append, last_chars}
use minority_prophet_border.Py.Value.{
  Value, null, str, arr, obj, Fields, dict, list, get, item, truthy, is_str, optional,
}
use minority_prophet_border.Py.Equality.{value_eq}
use minority_prophet_border.Py.Clock.{Time, lt_time}
use minority_prophet_border.Py.Bindings.{format_time}
use minority_prophet_border.Admission.Base.{document_digest, refused, time_field}
use minority_prophet_border.Admission.Validation.{
  Callbacks, validate_declaration, validate_authority, route_allowed, validate_control,
}

pub record AdmissionResult : Type 0 where
  pub outcome : String
  pub reason_codes : List String
  pub receipt : Option Fields

-- `self._admissions`: for each nonce the digest of the attempt and its receipt
abbrev pub Admissions : Type 0
Admissions = List (Value × String × Fields)

-- `self._admissions[nonce]`, or `none` for a missing key
unfoldable pub find : Value → Admissions → Option (String × Fields)
find nonce [] = none
find nonce ((key, digest, receipt) ∷ rest) =
    if value_eq key nonce then some (digest, receipt) else find nonce rest

-- `self._admissions[nonce] = entry`; a list or a dict has no hash
unfoldable pub store : Value → String × Fields → Admissions → Admissions
store nonce entry [] = (nonce, entry.0, entry.1) ∷ []
store nonce entry ((key, digest, receipt) ∷ rest) =
    if value_eq key nonce
    then (key, entry.0, entry.1) ∷ rest
    else (key, digest, receipt) ∷ store nonce entry rest

abbrev pub check_hashable : Value → Result (Unit {0})
check_hashable (arr vs) = err (exn type_error "unhashable type")
check_hashable (obj d) = err (exn type_error "unhashable type")
check_hashable _ = ok tt

abbrev pub admitted : Fields → AdmissionResult
admitted receipt = record { outcome = "admit"; reason_codes = []; receipt = some receipt }

abbrev pub secondary : String → AdmissionResult
secondary code = record { outcome = "secondary"; reason_codes = code ∷ []; receipt = none }

-- The digest of everything that one attempt presents.
unfoldable pub attempt_digest : Platform → Fields → Fields → Fields → Option Fields → Result String
attempt_digest p declaration authority policy control = document_digest p (
    obj (
      dict (
        ("declaration", obj declaration)
        ∷ ("authority", obj authority)
        ∷ ("policy", obj policy)
        ∷ ("control", optional control)
        ∷ [])))

-- `min(a, b)` for two times
abbrev pub earlier : Time → Time → Result Time
earlier a b = do second ← lt_time b a; ok (if second then b else a)

unfoldable pub make_receipt :
    Platform → Fields → Fields → Fields → String → Value → String → Time → Result Fields
make_receipt p declaration authority policy action_digest control_digest control_mode now = do
  request_id ← item declaration "request_id"
  receipt_id ← item authority "receipt_id"
  policy_digest ← item policy "policy_digest"
  id ← document_digest p (list (request_id ∷ receipt_id ∷ policy_digest ∷ control_digest ∷ []))
  subject_id ← item declaration "subject_id"
  principal_id ← item declaration "principal_id"
  delegation_id ← item declaration "delegation_id"
  declaration_digest ← document_digest p (obj declaration)
  authority_digest ← document_digest p (obj authority)
  declared_end ← time_field p (get declaration "expires_at") "declaration.expires_at"
  authority_end ← time_field p (get authority "expires_at") "authority.expires_at"
  expires ← earlier declared_end authority_end
  nonce ← item declaration "nonce"
  ok (
      dict (
        ("schema", str "border-admission/v1")
        ∷ ("admission_id", str (append "adm-" (last_chars 32 id)))
        ∷ ("request_id", request_id)
        ∷ ("subject_id", subject_id)
        ∷ ("principal_id", principal_id)
        ∷ ("delegation_id", delegation_id)
        ∷ ("action_digest", str action_digest)
        ∷ ("declaration_digest", str declaration_digest)
        ∷ ("authority_receipt_digest", str authority_digest)
        ∷ ("policy_digest", policy_digest)
        ∷ ("control_event_digest", control_digest)
        ∷ ("control_mode", str control_mode)
        ∷ ("decision", str "admit")
        ∷ ("issued_at", str (format_time p now))
        ∷ ("expires_at", str (format_time p expires))
        ∷ ("nonce", nonce)
        ∷ []))

-- What `control` contributes: the mode and the digest of the event.
unfoldable pub control_part :
    Platform
    → Callbacks
    → Option Fields
    → Fields
    → String
    → Fields
    → Time
    → Bool
    → Result (String × Value)
control_part p callbacks none declaration action_digest policy now allowed = ok ("autonomous", null)
control_part p callbacks (some control) declaration action_digest policy now allowed = do
  mode ← validate_control p callbacks control declaration action_digest policy now allowed
  digest ← document_digest p (obj control)
  ok (mode, str digest)

abbrev pub is_none : Option Fields → Bool
is_none none = true
is_none (some d) = false

-- From the clock reading on: a first attempt for its nonce.
unfoldable pub fresh :
    Platform
    → Callbacks
    → Fields
    → Fields
    → Fields
    → Option Fields
    → String
    → Time
    → Admissions
    → Result (AdmissionResult × Admissions)
fresh p callbacks declaration authority policy control attempt now admissions = do
  action_digest ← validate_declaration p declaration now
  validate_authority p callbacks authority declaration action_digest now
  allowed ← route_allowed p policy declaration
  if not allowed && is_none control
      then ok (secondary "policy_no_exact_route", admissions)
      else if truthy (get policy "requires_human_approval") && is_none control
      then ok (secondary "human_approval_required", admissions)
      else do
        part ← control_part p callbacks control declaration action_digest policy now allowed
        receipt ← make_receipt p declaration authority policy action_digest part.1 part.0 now
        check_hashable (get declaration "nonce")
        ok (admitted receipt, store (get declaration "nonce") (attempt, receipt) admissions)

-- A text nonce that was admitted before: the same receipt for the same attempt.
unfoldable pub replayed :
    String → String × Fields → Admissions → Result (AdmissionResult × Admissions)
replayed attempt (previous, receipt) admissions = do
  raise_if (not (previous == attempt))
      (refused "declaration nonce replay with substituted material")
  ok (admitted receipt, admissions)

abbrev pub previous_of : Value → Admissions → Option (String × Fields)
previous_of nonce admissions = if is_str nonce then find nonce admissions else none

unfoldable pub decide :
    Platform
    → Callbacks
    → Fields
    → Fields
    → Fields
    → Option Fields
    → Time
    → Admissions
    → Result (AdmissionResult × Admissions)
decide p callbacks declaration authority policy control now admissions = do
  attempt ← attempt_digest p declaration authority policy control
  elim (previous_of (get declaration "nonce") admissions) [
    | some previous ↦ replayed attempt previous admissions
    | none ↦ fresh p callbacks declaration authority policy control attempt now admissions
  ]

abbrev pub with_state {ℓ κ} : {S : Type ℓ} {A : Type κ} → S → Result (A × S) → Result A × S
with_state s (ok (a, t)) = (ok a, t)
with_state s (err e) = (err e, s)

-- `admit`; `now` is what the clock answers at this call. An exception leaves the admissions alone.
unfoldable pub admit :
    Platform
    → Callbacks
    → Fields
    → Fields
    → Fields
    → Option Fields
    → Time
    → Admissions
    → Result AdmissionResult × Admissions
admit p callbacks declaration authority policy control now admissions =
    with_state admissions (decide p callbacks declaration authority policy control now admissions)
