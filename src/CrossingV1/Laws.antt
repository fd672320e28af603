-- ===== src/CrossingV1/Laws.antt =====
-- When a crossing of version 1 is accepted.
use minority_prophet_border.CrossingV1.{
  action_digest_v1, bound_fields, check_bound, digest_v1, profile_v1, time_v1, check_arrival,
  check_validity,
}
use minority_prophet_border.Py.Clock.{Time, le_time, lt_time}
use minority_prophet_border.Py.Value.{Fields, Value, get, item, obj, str}
use minority_prophet_border.Platform.{Platform}
use minority_prophet_border.Openid.Server.Wsgi.{reason}
use minority_prophet_border.Prelude.{Bool, String, any, false, not, refl, true, ◌≡◌, ap, ◌∙◌}
use minority_prophet_border.Py.Result.{ok}
use minority_prophet_border.Crossing.Verifier.{differs, reject_if}
use minority_prophet_border.Py.Equality.{value_eq}
use minority_prophet_border.Py.Chain.{first_ok, first_some, not-eq-false}

-- The reference stands for the authority.
pub record IsReference (p : Platform) (reference authority : Fields) : Type 0 where
  pub profiled : value_eq (get reference "profile") (str profile_v1) ≡ true
  pub actual : String
  pub computed : digest_v1 p (obj authority) ≡ ok actual
  pub recorded : value_eq (get reference "authority_digest") (str actual) ≡ true
  pub identified : differs reference "authority_id" authority "authority_id" ≡ false
  pub bound : any (λ f. differs reference f authority f) bound_fields ≡ false

-- What arrived is what the reference names.
pub record IsArrival (p : Platform) (reference observed : Fields) : Type 0 where
  pub caller : differs observed "caller_id" reference "requester_id" ≡ false
  pub task : differs observed "task_id" reference "task_id" ≡ false
  pub context : differs observed "context_id" reference "context_id" ≡ false
  pub server : differs observed "mcp_server" reference "mcp_server" ≡ false
  pub action : String
  pub computed : action_digest_v1 p observed ≡ ok action
  pub acted : value_eq (str action) (get reference "action_digest") ≡ true

-- The window is open, and the status is current.
pub record IsValid (p : Platform) (reference status : Fields) (now : Time) : Type 0 where
  pub start : Value
  pub finish : Value
  pub starts : Time
  pub ends : Time
  pub has_start : item reference "not_before" ≡ ok start
  pub has_end : item reference "expires_at" ≡ ok finish
  pub start_time : time_v1 p start ≡ ok starts
  pub end_time : time_v1 p finish ≡ ok ends
  pub begun : lt_time now starts ≡ ok false
  pub open_yet : le_time ends now ≡ ok false
  pub named : differs status "status_ref" reference "status_ref" ≡ false
  pub owned : differs status "authority_id" reference "authority_id" ≡ false
  pub current : value_eq (get status "status") (str "current") ≡ true

not_rejected : (b : Bool) (reason : String) → reject_if b reason ≡ ok tt → b ≡ false
not_rejected false reason h = refl
not_rejected true reason h = absurd cc

pub check_bound-IsReference :
    (p : Platform) (reference authority : Fields)
    → check_bound p reference authority ≡ ok tt
    → IsReference p reference authority
unfolding check_bound
check_bound-IsReference p reference authority h =
    let (a, h1) =
      first_ok
        (reject_if (not (value_eq (get reference "profile") (str profile_v1))) "profile_mismatch") _
        h in
    let (actual, d, h2) = first_some (digest_v1 p (obj authority)) _ h1 in
    let (b, h3) =
      first_ok
        (reject_if (not (value_eq (get reference "authority_digest") (str actual)))
          "authority_digest_mismatch")
        _ h2 in
    let (c, h4) =
      first_ok
        (reject_if (differs reference "authority_id" authority "authority_id")
          "authority_id_mismatch")
        _ h3 in
    record {
      profiled = not-eq-false _ (not_rejected _ _ a);
      actual = actual;
      computed = d;
      recorded = not-eq-false _ (not_rejected _ _ b);
      identified = not_rejected _ _ c;
      bound = not_rejected _ _ h4;
    }

pub check_arrival-IsArrival :
    (p : Platform) (reference observed : Fields)
    → check_arrival p reference observed ≡ ok tt
    → IsArrival p reference observed
unfolding check_arrival
check_arrival-IsArrival p reference observed h =
    let (a, h1) =
      first_ok (reject_if (differs observed "caller_id" reference "requester_id") "caller_mismatch")
        _ h in
    let (b, h2) =
      first_ok (reject_if (differs observed "task_id" reference "task_id") "task_mismatch") _ h1 in
    let (c, h3) =
      first_ok (reject_if (differs observed "context_id" reference "context_id") "context_mismatch")
        _ h2 in
    let (d, h4) =
      first_ok
        (reject_if (differs observed "mcp_server" reference "mcp_server") "audience_mismatch") _
        h3 in
    let (action, e, h5) = first_some (action_digest_v1 p observed) _ h4 in
    record {
      caller = not_rejected _ _ a;
      task = not_rejected _ _ b;
      context = not_rejected _ _ c;
      server = not_rejected _ _ d;
      action = action;
      computed = e;
      acted = not-eq-false _ (not_rejected _ _ h5);
    }

pub check_validity-IsValid :
    (p : Platform) (reference status : Fields) (now : Time)
    → check_validity p reference status now ≡ ok tt
    → IsValid p reference status now
unfolding check_validity
check_validity-IsValid p reference status now h =
    let (start, a, h1) = first_some (item reference "not_before") _ h in
    let (starts, b, h2) = first_some (time_v1 p start) _ h1 in
    let (early, c, h3) = first_some (lt_time now starts) _ h2 in
    let (d, h4) = first_ok (reject_if early "not_yet_valid") _ h3 in
    let (finish, e, h5) = first_some (item reference "expires_at") _ h4 in
    let (ends, f, h6) = first_some (time_v1 p finish) _ h5 in
    let (late, g, h7) = first_some (le_time ends now) _ h6 in
    let (k, h8) = first_ok (reject_if late "expired") _ h7 in
    let (l, h9) =
      first_ok
        (reject_if (differs status "status_ref" reference "status_ref") "status_reference_mismatch")
        _ h8 in
    let (m, h10) =
      first_ok
        (reject_if (differs status "authority_id" reference "authority_id")
          "status_reference_mismatch")
        _ h9 in
    record {
      start = start;
      finish = finish;
      starts = starts;
      ends = ends;
      has_start = a;
      has_end = e;
      start_time = b;
      end_time = f;
      begun = c ∙ ap ok (not_rejected _ _ d);
      open_yet = g ∙ ap ok (not_rejected _ _ k);
      named = not_rejected _ _ l;
      owned = not_rejected _ _ m;
      current = not-eq-false _ (not_rejected _ _ h10);
    }

-- The converses
pub IsReference-check_bound :
    (p : Platform) (reference authority : Fields)
    → IsReference p reference authority
    → check_bound p reference authority ≡ ok tt
unfolding check_bound
IsReference-check_bound p reference authority h =
    rw (h.profiled, h.computed, h.recorded, h.identified, h.bound) refl

pub IsArrival-check_arrival :
    (p : Platform) (reference observed : Fields)
    → IsArrival p reference observed
    → check_arrival p reference observed ≡ ok tt
unfolding check_arrival
IsArrival-check_arrival p reference observed h =
    rw (h.caller, h.task, h.context, h.server, h.computed, h.acted) refl

pub IsValid-check_validity :
    (p : Platform) (reference status : Fields) (now : Time)
    → IsValid p reference status now
    → check_validity p reference status now ≡ ok tt
unfolding check_validity
IsValid-check_validity p reference status now h =
    rw
      (
        h.has_start, h.start_time, h.begun, h.has_end, h.end_time, h.open_yet, h.named, h.owned,
        h.current,
      )
      refl
