-- ===== src/CrossingV1/Acceptance.antt =====
-- The decision of version 1, from its checks and the store.
use minority_prophet_border.Py.Value.{Fields, Value, item, mem}
use minority_prophet_border.Platform.{Platform}
use minority_prophet_border.Prelude.{
  Bool-cases, Option, String, ap, arith, eq_iff, false, inl, inr, none, some, sym, ◌∷◌, ◌≡◌, ◌≢◌,
  refl,
}
use minority_prophet_border.CrossingV1.{
  check_arrival, check_bound, check_v1, check_validity, consume_column, settle_v1, verify_v1,
}
use minority_prophet_border.Py.Clock.{Time}
use minority_prophet_border.Crossing.Verifier.{Consumed, accepted, consume, rejected}
use minority_prophet_border.CrossingV1.Laws.{
  IsArrival, IsReference, IsValid, IsArrival-check_arrival, IsReference-check_bound,
  IsValid-check_validity, check_arrival-IsArrival, check_bound-IsReference, check_validity-IsValid,
}
use minority_prophet_border.Py.Chain.{first_ok}
use minority_prophet_border.Py.Result.{
  Result, err, ok, adapter_error, admission_error, attribute_error, canonicalization_error,
  continuity_error, early_return, exn, fixture_error, key_error, link_error, mandate_error,
  receipt_error, type_error, value_error,
}
use minority_prophet_border.Admission.Controller.{admitted}
use minority_prophet_border.Openid.Server.Wsgi.{reason}

pub record IsCrossingV1 (p : Platform) (reference authority status observed : Fields) (now : Time)
    (nonce : Value) : Type 0 where
  pub referenced : IsReference p reference authority
  pub arrival : IsArrival p reference observed
  pub valid : IsValid p reference status now
  pub has_nonce : item reference "nonce" ≡ ok nonce

pub check_v1-IsCrossingV1 :
    (p : Platform) (reference authority status observed : Fields) (now : Time) (nonce : Value)
    → check_v1 p reference authority status observed now ≡ ok nonce
    → IsCrossingV1 p reference authority status observed now nonce
unfolding check_v1
check_v1-IsCrossingV1 p reference authority status observed now nonce h =
    let (a, h1) = first_ok (check_bound p reference authority) _ h in
    let (b, h2) = first_ok (check_arrival p reference observed) _ h1 in
    let (c, h3) = first_ok (check_validity p reference status now) _ h2 in
    record {
      referenced = check_bound-IsReference p reference authority a;
      arrival = check_arrival-IsArrival p reference observed b;
      valid = check_validity-IsValid p reference status now c;
      has_nonce = h3;
    }

-- How the store admits a nonce: it keeps no NULL apart, and a key only once.
abbrev pub Admits : Result (Option String) → Consumed → Consumed → Type 0
Admits (err e) consumed after = ⊥
Admits (ok none) consumed after = after ≡ consumed
Admits (ok (some key)) consumed after = (mem key consumed ≡ false) × (after ≡ key ∷ consumed)

consume_column-Admits :
    (stored : Result (Option String)) (consumed after : Consumed)
    → consume_column stored consumed ≡ (ok accepted, after)
    → Admits stored consumed after
unfolding consume_column consume
consume_column-Admits (err e) consumed after h = absurd (cc (ap (λ x. x.0) h))
consume_column-Admits (ok none) consumed after h = sym (ap (λ x. x.1) h)
consume_column-Admits (ok (some key)) consumed after h = elim (Bool-cases (mem key consumed)) [
  | inl y ↦ absurd (replayed_≢ (ap (λ x. x.0) (rw y at h)))
  | inr n ↦ (n, sym (ap (λ x. x.1) (rw n at h)))
]
  where
    replayed_≢ : ok (rejected "nonce_replay") ≢ ok accepted
    replayed_≢ e = ground (arith, eq_iff "reject" "succeed")

settle_v1-Admits :
    (column : Value → Result (Option String)) (checked : Result Value) (consumed after : Consumed)
    → settle_v1 column checked consumed ≡ (ok accepted, after)
    → (nonce : Value) × (checked ≡ ok nonce) × Admits (column nonce) consumed after
unfolding settle_v1
settle_v1-Admits column (ok nonce) consumed after h =
    (nonce, refl, consume_column-Admits (column nonce) consumed after h)
settle_v1-Admits column (err (exn early_return reason)) consumed after h =
    absurd (ground (arith, eq_iff "reject" "succeed", ap (λ x. x.0) h))
settle_v1-Admits column (err (exn value_error m)) consumed after h = absurd (cc (ap (λ x. x.0) h))
settle_v1-Admits column (err (exn type_error m)) consumed after h = absurd (cc (ap (λ x. x.0) h))
settle_v1-Admits column (err (exn key_error m)) consumed after h = absurd (cc (ap (λ x. x.0) h))
settle_v1-Admits column (err (exn attribute_error m)) consumed after h =
    absurd (cc (ap (λ x. x.0) h))
settle_v1-Admits column (err (exn canonicalization_error m)) consumed after h =
    absurd (cc (ap (λ x. x.0) h))
settle_v1-Admits column (err (exn admission_error m)) consumed after h =
    absurd (cc (ap (λ x. x.0) h))
settle_v1-Admits column (err (exn adapter_error m)) consumed after h = absurd (cc (ap (λ x. x.0) h))
settle_v1-Admits column (err (exn mandate_error m)) consumed after h = absurd (cc (ap (λ x. x.0) h))
settle_v1-Admits column (err (exn continuity_error m)) consumed after h =
    absurd (cc (ap (λ x. x.0) h))
settle_v1-Admits column (err (exn link_error m)) consumed after h = absurd (cc (ap (λ x. x.0) h))
settle_v1-Admits column (err (exn fixture_error m)) consumed after h = absurd (cc (ap (λ x. x.0) h))
settle_v1-Admits column (err (exn receipt_error m)) consumed after h = absurd (cc (ap (λ x. x.0) h))

-- A crossing of version 1 is accepted only if the reference stands for the authority by digest and
-- by every bound field, what arrived is what it names, its window is open and its status current;
-- and if the nonce is one that the store keeps, it was not there before and is there after.
pub verify_v1-IsCrossingV1 :
    (p : Platform) (column : Value → Result (Option String))
    (reference authority status observed : Fields) (now : Time) (consumed after : Consumed)
    → verify_v1 p column reference authority status observed now consumed ≡ (ok accepted, after)
    → (nonce : Value) × IsCrossingV1 p reference authority status observed now nonce
      × Admits (column nonce) consumed after
unfolding verify_v1
verify_v1-IsCrossingV1 p column reference authority status observed now consumed after h =
    let (nonce, checked, admitted) =
      settle_v1-Admits column (check_v1 p reference authority status observed now) consumed after
        h in
    (nonce, check_v1-IsCrossingV1 p reference authority status observed now nonce checked, admitted)

-- Every crossing that meets those conditions, with a nonce that the store keeps and does not hold,
-- is accepted, and the nonce is spent.
pub IsCrossingV1-verify_v1 :
    (p : Platform) (column : Value → Result (Option String))
    (reference authority status observed : Fields) (now : Time) (consumed : Consumed)
    (nonce : Value) (key : String)
    → IsCrossingV1 p reference authority status observed now nonce
    → column nonce ≡ ok (some key)
    → mem key consumed ≡ false
    → verify_v1 p column reference authority status observed now consumed
      ≡ (ok accepted, key ∷ consumed)
unfolding verify_v1 check_v1 settle_v1 consume_column consume
IsCrossingV1-verify_v1 p column reference authority status observed now consumed nonce key h s f =
    rw
      (
        IsReference-check_bound p reference authority h.referenced,
        IsArrival-check_arrival p reference observed h.arrival,
        IsValid-check_validity p reference status now h.valid,
        h.has_nonce,
        s,
        f,
      )
      refl
