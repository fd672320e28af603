-- ===== src/Crossing/Soundness.antt =====
-- What an accepted crossing rests on, and that its authority is spent once.
use minority_prophet_border.Prelude.{
  Bool-cases, String, arith, false, inl, inr, refl, true, ◌+◌, ◌<◌, ◌∷◌, ◌≡◌, ◌≤◌, eq_iff, ◌≢◌, ap,
  sym, ◌∙◌,
}
use minority_prophet_border.Py.Result.{Result, Result-cases, early_return, err, exn, ok, Exn}
use minority_prophet_border.Crossing.Verifier.{
  Consumed, accepted, action_digest, binding_of, check_crossing, check_currency, check_observed,
  consume, max_status_age, profile, replay_key, settle, text_at, contract_class, uncontracted,
  verify_crossing,
}
use minority_prophet_border.Crossing.Json.{crossing_time, digest}
use minority_prophet_border.Py.Value.{Fields, get, mem, obj, str}
use minority_prophet_border.Platform.{Platform}
use minority_prophet_border.Py.Clock.{Time}
use minority_prophet_border.Crossing.Inputs.{Inputs, Raw, validate_inputs}
use minority_prophet_border.Py.Equality.{value_eq}
use minority_prophet_border.Crossing.Stage.{IsStaged, check_stage-IsStaged}

pub record IsObserved (p : Platform) (authority observed : Fields) : Type 0 where
  pub caller : value_eq (get observed "caller_id") (get authority "requester_id") ≡ true
  pub message :
      value_eq (get observed "message_id") (get (binding_of authority) "message_id") ≡ true
  pub task : value_eq (get observed "task_id") (get (binding_of authority) "task_id") ≡ true
  pub context :
      value_eq (get observed "context_id") (get (binding_of authority) "context_id") ≡ true
  pub audience : value_eq (get observed "mcp_audience") (get authority "mcp_audience") ≡ true
  pub action :
      (a : String) × (action_digest p observed ≡ ok a)
      × (value_eq (str a) (get authority "action_digest") ≡ true)

pub record IsTimely (p : Platform) (authority status : Fields) (now : Time) : Type 0 where
  pub window :
      (starts : Time) × (expires : Time) × (crossing_time p (text_at authority "not_before")
        ≡ ok starts)
      × (crossing_time p (text_at authority "expires_at") ≡ ok expires)
      × (starts.instant ≤ now.instant)
      × (now.instant < expires.instant)
  pub current : value_eq (get status "status") (str "current") ≡ true
  pub reference : value_eq (get status "status_ref") (get authority "status_ref") ≡ true
  pub fresh :
      (observed_at : Time) × (crossing_time p (text_at status "observed_at") ≡ ok observed_at)
      × (observed_at.instant ≤ now.instant)
      × (now.instant ≤ observed_at.instant + max_status_age)

pub record IsReferenced (p : Platform) (reference authority : Fields) : Type 0 where
  pub profiled : value_eq (get reference "profile") (str profile) ≡ true
  pub digested :
      (d : String) × (digest p (obj authority) ≡ ok d)
      × (value_eq (get reference "authority_digest") (str d) ≡ true)
  pub named : value_eq (get reference "authority_id") (get authority "authority_id") ≡ true
  pub resolved : value_eq (get (binding_of authority) "stage") (str "resolved") ≡ true

pub record IsCrossing (p : Platform) (i : Inputs) (now : Time) (key : String) : Type 0 where
  pub referenced : IsReferenced p i.reference i.authority
  pub staged : IsStaged p i.authority i.initial_reference i.initial_authority
  pub observed : IsObserved p i.authority i.observed
  pub timely : IsTimely p i.authority i.status now
  pub replay : replay_key p i.authority ≡ ok key

check_observed-IsObserved :
    (p : Platform) (authority observed : Fields)
    → check_observed p authority (binding_of authority) observed ≡ ok tt
    → IsObserved p authority observed
unfolding check_observed
check_observed-IsObserved p authority observed h = record {
  caller = ground arith;
  message = ground arith;
  task = ground arith;
  context = ground arith;
  audience = ground arith;
  action = elim (Result-cases (action_digest p observed)) [
    | inl (a, e) ↦ (a, e, ground arith)
    | inr (x, e) ↦ absurd (ground arith)
  ];
}

check_currency-IsTimely :
    (p : Platform) (authority status : Fields) (now : Time) (expires : Time)
    → check_currency p authority status now ≡ ok expires
    → IsTimely p authority status now
unfolding check_currency
check_currency-IsTimely p authority status now expires h = record {
  window = elim (Result-cases (crossing_time p (text_at authority "not_before"))) [
    | inl (starts, s) ↦ elim (Result-cases (crossing_time p (text_at authority "expires_at"))) [
      | inl (ends, e) ↦ (starts, ends, s, e, ground arith, ground arith)
      | inr (x, e) ↦ absurd (ground arith)
    ]
    | inr (x, s) ↦ absurd (ground arith)
  ];
  current = ground arith;
  reference = ground arith;
  fresh = elim (Result-cases (crossing_time p (text_at status "observed_at"))) [
    | inl (t, e) ↦ (t, e, ground arith, ground arith)
    | inr (x, e) ↦ absurd (ground arith)
  ];
}

check_crossing-IsCrossing :
    (p : Platform) (i : Inputs) (now : Time) (key : String)
    → check_crossing p i now ≡ ok key
    → IsCrossing p i now key
unfolding check_crossing
check_crossing-IsCrossing p i now key h = elim (Result-cases (digest p (obj i.authority))) [
  | inl (d, e) ↦ elim (Result-cases (check_currency p i.authority i.status now)) [
    | inl (expires, c) ↦ record {
      referenced = record {
        profiled = ground arith;
        digested = (d, e, ground arith);
        named = ground arith;
        resolved = ground arith;
      };
      staged =
          check_stage-IsStaged p i.authority i.initial_reference i.initial_authority (ground arith);
      observed = check_observed-IsObserved p i.authority i.observed (ground arith);
      timely = check_currency-IsTimely p i.authority i.status now expires c;
      replay = ground arith;
    }
    | inr (x, c) ↦ absurd (ground arith)
  ]
  | inr (x, e) ↦ absurd (ground arith)
]

settle-accepted :
    (checked : Result String) (consumed : Consumed)
    → (settle checked consumed).0 ≡ ok accepted
    → (key : String) × (checked ≡ ok key)
      × (mem key consumed ≡ false)
      × ((settle checked consumed).1 ≡ key ∷ consumed)
unfolding consume
settle-accepted (ok key) consumed h = elim (Bool-cases (mem key consumed)) [
  | inl old ↦ absurd (cc (rw old at h))
  | inr new ↦ (key, refl, new, rw new refl)
]
settle-accepted (err (exn early_return m)) consumed h =
    absurd (ground (arith, eq_iff "reject" "succeed"))
settle-accepted (err (exn _ m)) consumed h = cc

uncontracted-accepted : (x : Exn) → uncontracted x ≢ ok accepted
uncontracted-accepted (exn c m) h = elim (Bool-cases (contract_class c)) [
  | inl y ↦ absurd (ground (arith, eq_iff "reject" "succeed"))
  | inr n ↦ absurd (ground arith)
]

pub verify_crossing-valid :
    (p : Platform) (raw : Raw) (now : Time) (consumed : Consumed) (i : Inputs)
    → validate_inputs p raw ≡ ok i
    → verify_crossing p raw now consumed ≡ settle (check_crossing p i now) consumed
unfolding verify_crossing check_crossing
verify_crossing-valid p raw now consumed i e = rw (verify_crossing, e) refl

pub verify_crossing-invalid :
    (p : Platform) (raw : Raw) (now : Time) (consumed : Consumed) (x : Exn)
    → validate_inputs p raw ≡ err x
    → verify_crossing p raw now consumed ≡ (uncontracted x, consumed)
unfolding verify_crossing
verify_crossing-invalid p raw now consumed x e = rw (verify_crossing, e) refl

pub verify_crossing-IsCrossing :
    (p : Platform) (raw : Raw) (now : Time) (consumed : Consumed)
    → (verify_crossing p raw now consumed).0 ≡ ok accepted
    → (i : Inputs) × (key : String) × (validate_inputs p raw ≡ ok i)
      × IsCrossing p i now key
      × (mem key consumed ≡ false)
      × ((verify_crossing p raw now consumed).1 ≡ key ∷ consumed)
verify_crossing-IsCrossing p raw now consumed h = elim (Result-cases (validate_inputs p raw)) [
  | inl (i, e) ↦
      let whole = verify_crossing-valid p raw now consumed i e in
      let (key, checked, new, spent) =
        settle-accepted (check_crossing p i now) consumed (sym (ap (λ r. r.0) whole) ∙ h) in
      (i, key, e, check_crossing-IsCrossing p i now key checked, new, ap (λ r. r.1) whole ∙ spent)
  | inr (x, e) ↦ absurd (
      uncontracted-accepted x
        (sym (ap (λ r. r.0) (verify_crossing-invalid p raw now consumed x e)) ∙ h))
]
