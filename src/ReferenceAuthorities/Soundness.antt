-- ===== src/ReferenceAuthorities/Soundness.antt =====
-- What a receipt of a reference authority rests on.
use minority_prophet_border.Admission.Base.{document_digest, time_field}
use minority_prophet_border.ReferenceAuthorities.{
  CapabilityGrants, SignedTokens, active_record, blank_fields, grant_fields,
  normalize_claims_record, normalize_grant, require, token_fields,
}
use minority_prophet_border.Prelude.{
  Bool, List, String, [], ap, false, not, refl, sym, true, ◌<◌, ◌∙◌, ◌∷◌, ◌≡◌, ◌≤◌,
}
use minority_prophet_border.Py.Result.{Exn, ok, raise_if}
use minority_prophet_border.Py.Clock.{Time}
use minority_prophet_border.Py.Chain.{first_ok, first_some, not-eq-false}
use minority_prophet_border.Py.Bindings.{in_window, is_empty}
use minority_prophet_border.Crossing.Json.{digest}
use minority_prophet_border.Py.Value.{Fields, Value, get, item, str}
use minority_prophet_border.Platform.{Platform}
use minority_prophet_border.Py.Printer.{Printer}
use minority_prophet_border.Py.Equality.{value_eq}
use minority_prophet_border.Py.Bindings.Laws.{in_window-eq-true}

-- The record is active at the time, by its own window.
pub record IsActiveRecord (p : Platform) (d : Fields) (now : Time) : Type 0 where
  pub start : Value
  pub finish : Value
  pub status : Value
  pub starts : Time
  pub ends : Time
  pub has_start : item d "not_before" ≡ ok start
  pub has_end : item d "expires_at" ≡ ok finish
  pub has_status : item d "status" ≡ ok status
  pub start_time : time_field p start "not_before" ≡ ok starts
  pub end_time : time_field p finish "expires_at" ≡ ok ends
  pub active : value_eq status (str "active") ≡ true
  pub window : (starts.instant ≤ now.instant) × (now.instant < ends.instant)

passes : (b : Bool) (e : Exn) → raise_if b e ≡ ok tt → b ≡ false
passes false e h = refl
passes true e h = absurd cc

active_record-IsActiveRecord :
    (p : Platform) (d : Fields) (now : Time)
    → active_record p d now ≡ ok tt
    → IsActiveRecord p d now
unfolding active_record
active_record-IsActiveRecord p d now h =
    let (start, a, h1) = first_some (item d "not_before") _ h in
    let (starts, b, h2) = first_some (time_field p start "not_before") _ h1 in
    let (finish, c, h3) = first_some (item d "expires_at") _ h2 in
    let (ends, e, h4) = first_some (time_field p finish "expires_at") _ h3 in
    let (status, f, h5) = first_some (item d "status") _ h4 in
    let (g, h6) = first_ok (raise_if (not (value_eq status (str "active"))) _) _ h5 in
    let (running, k, h7) = first_some (in_window starts now ends) _ h6 in
    record {
      start = start;
      finish = finish;
      status = status;
      starts = starts;
      ends = ends;
      has_start = a;
      has_end = c;
      has_status = f;
      start_time = b;
      end_time = e;
      active = not-eq-false _ (passes _ _ g);
      window = in_window-eq-true starts now ends (k ∙ ap ok (not-eq-false _ (passes _ _ h7)));
    }

empty_texts : (xs : List String) → is_empty xs ≡ true → xs ≡ []
empty_texts [] h = refl
empty_texts (x ∷ xs) h = absurd cc

none_blank :
    (d : Fields) (names : List String) → require d names ≡ ok tt → blank_fields d names ≡ []
unfolding require
none_blank d names h = empty_texts (blank_fields d names) (not-eq-false _ (passes _ _ h))

digest_field : {r s : Fields} → ok r ≡ ok s → get s "action_digest" ≡ get r "action_digest"
digest_field h = sym (ap (λ r. get r "action_digest") (same h))
  where
    same : {r s : Fields} → ok r ≡ ok s → r ≡ s
    same e = cc

-- A receipt is made from claims only if none of the required ones is blank, their signature
-- verifies, they are for the configured audience, and they are active at the time; it carries the
-- digest of their action.
pub normalize_claims_record-IsActiveRecord :
    (printer : Printer) (tokens : SignedTokens) (claims receipt : Fields) (now : Time)
    → normalize_claims_record printer tokens claims now ≡ ok receipt
    → (blank_fields claims token_fields ≡ [])
      × (tokens.verify claims ≡ ok true)
      × (value_eq (get claims "audience") (str tokens.audience) ≡ true)
      × IsActiveRecord printer.base claims now
      × ((digest : String) × (document_digest printer.base (get claims "action") ≡ ok digest)
          × (get receipt "action_digest" ≡ str digest))
unfolding normalize_claims_record
normalize_claims_record-IsActiveRecord printer tokens claims receipt now h =
    let (a, h1) = first_ok (require claims token_fields) _ h in
    let (verified, b, h2) = first_some (tokens.verify claims) _ h1 in
    let (c, h3) = first_ok (raise_if (not verified) _) _ h2 in
    let (d, h4) =
      first_ok (raise_if (not (value_eq (get claims "audience") (str tokens.audience))) _) _ h3 in
    let (e, h5) = first_ok (active_record printer.base claims now) _ h4 in
    let (digest, f, h6) = first_some (document_digest printer.base (get claims "action")) _ h5 in
    (
      none_blank claims token_fields a,
      b ∙ ap ok (not-eq-false _ (passes _ _ c)),
      not-eq-false _ (passes _ _ d),
      active_record-IsActiveRecord printer.base claims now e,
      (digest, f, digest_field h6),
    )

-- A receipt is made from a grant only if none of its required fields is blank, its signature
-- verifies, it is not revoked, and it is active at the time; it carries the digest of its invocation.
pub normalize_grant-IsActiveRecord :
    (printer : Printer) (grants : CapabilityGrants) (grant receipt : Fields) (now : Time)
    → normalize_grant printer grants grant now ≡ ok receipt
    → (blank_fields grant grant_fields ≡ [])
      × (grants.verify grant ≡ ok true)
      × (grants.is_revoked (get grant "grant_id") ≡ ok false)
      × IsActiveRecord printer.base grant now
      × ((digest : String) × (document_digest printer.base (get grant "invocation") ≡ ok digest)
          × (get receipt "action_digest" ≡ str digest))
unfolding normalize_grant
normalize_grant-IsActiveRecord printer grants grant receipt now h =
    let (a, h1) = first_ok (require grant grant_fields) _ h in
    let (verified, b, h2) = first_some (grants.verify grant) _ h1 in
    let (c, h3) = first_ok (raise_if (not verified) _) _ h2 in
    let (revoked, d, h4) = first_some (grants.is_revoked (get grant "grant_id")) _ h3 in
    let (k, h5) = first_ok (raise_if revoked _) _ h4 in
    let (e, h6) = first_ok (active_record printer.base grant now) _ h5 in
    let (digest, f, h7) = first_some (document_digest printer.base (get grant "invocation")) _ h6 in
    (
      none_blank grant grant_fields a,
      b ∙ ap ok (not-eq-false _ (passes _ _ c)),
      d ∙ ap ok (passes _ _ k),
      active_record-IsActiveRecord printer.base grant now e,
      (digest, f, digest_field h7),
    )
