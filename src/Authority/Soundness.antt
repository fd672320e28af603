-- ===== src/Authority/Soundness.antt =====
-- What an envelope that passes the bindings says about the effect.
use mathlib.Core.Path.{subst}
use minority_prophet_border.Py.Result.{Result-cases, ok, Result, and_then}
use minority_prophet_border.Py.Value.{Value, int, null, str, subscript, Fields}
use minority_prophet_border.Prelude.{
  Bool, String, arith, eq_iff, false, inl, inr, refl, true, ℕ, ◌≡◌, ◌⊎◌, Bool-cases, sym, ◌<◌, ◌∙◌,
  ◌≤◌,
}
use minority_prophet_border.Platform.{Platform}
use minority_prophet_border.Authority.Envelope.{
  check_inactive, delegation_active, effect_was, same_at, check_decision, check_identity,
  validate_bindings, normalize_provider, authority_time,
}
use minority_prophet_border.Py.Equality.{value_eq}
use minority_prophet_border.Prelude.Int.{pos}
use minority_prophet_border.Py.Chain.{first_ok, first_some, guarded}
use minority_prophet_border.Py.Bindings.Laws.{in_window-eq-true}
use minority_prophet_border.Crossing.Verifier.{profile}
use minority_prophet_border.Underwriting.{bound}
use minority_prophet_border.Py.Clock.{Time}
use minority_prophet_border.Admission.Base.{document_digest}

-- Two fields are there and agree.
abbrev pub SameAt : Value → String → Value → String → Type 0
SameAt a key b other =
    (v : Value) × (w : Value) × (subscript a key ≡ ok v)
    × (subscript b other ≡ ok w)
    × (value_eq v w ≡ true)

-- The effect has this status and number of attempts.
abbrev pub EffectWas : Value → String → ℕ → Type 0
EffectWas effect status n =
    (v : Value) × (w : Value) × (subscript effect "status" ≡ ok v)
    × (subscript effect "attempt_count" ≡ ok w)
    × (value_eq v (str status) ≡ true)
    × (value_eq w (int (pos n)) ≡ true)

-- The delegation was active when the receipt was issued.
pub record IsActiveAt (p : Platform) (receipt delegation : Value) : Type 0 where
  pub raw_issued : Value
  pub raw_starts : Value
  pub raw_expires : Value
  pub status : Value
  pub issued : Time
  pub starts : Time
  pub expires : Time
  pub issued_at : subscript receipt "issued_at" ≡ ok raw_issued
  pub not_before : subscript delegation "not_before" ≡ ok raw_starts
  pub expires_at : subscript delegation "expires_at" ≡ ok raw_expires
  pub named : subscript delegation "status" ≡ ok status
  pub read_issued : authority_time p raw_issued ≡ ok issued
  pub read_starts : authority_time p raw_starts ≡ ok starts
  pub read_expires : authority_time p raw_expires ≡ ok expires
  pub active : value_eq status (str "active") ≡ true
  pub started : starts.instant ≤ issued.instant
  pub unexpired : issued.instant < expires.instant

and_then-eq-true :
    (b : Bool) (r : Result Bool) → and_then b r ≡ ok true → (b ≡ true) × (r ≡ ok true)
and_then-eq-true true r h = (refl, h)
and_then-eq-true false r h = absurd cc

delegation_active-IsActiveAt :
    (p : Platform) (receipt delegation : Value)
    → delegation_active p receipt delegation ≡ ok true
    → IsActiveAt p receipt delegation
unfolding delegation_active
delegation_active-IsActiveAt p receipt delegation h =
    let (raw_issued, e1, h1) = first_some (subscript receipt "issued_at") _ h in
    let (issued, e2, h2) = first_some (authority_time p raw_issued) _ h1 in
    let (raw_starts, e3, h3) = first_some (subscript delegation "not_before") _ h2 in
    let (starts, e4, h4) = first_some (authority_time p raw_starts) _ h3 in
    let (raw_expires, e5, h5) = first_some (subscript delegation "expires_at") _ h4 in
    let (expires, e6, h6) = first_some (authority_time p raw_expires) _ h5 in
    let (status, e7, h7) = first_some (subscript delegation "status") _ h6 in
    let (active, inside) = and_then-eq-true (value_eq status (str "active")) _ h7 in
    let (started, unexpired) = in_window-eq-true starts issued expires inside in
    record {
      raw_issued = raw_issued;
      raw_starts = raw_starts;
      raw_expires = raw_expires;
      status = status;
      issued = issued;
      starts = starts;
      expires = expires;
      issued_at = e1;
      not_before = e3;
      expires_at = e5;
      named = e7;
      read_issued = e2;
      read_starts = e4;
      read_expires = e6;
      active = active;
      started = started;
      unexpired = unexpired;
    }

-- An allowed action ran once under an active delegation, and a denied one did not run.
abbrev pub Decided : Platform → Value → Value → Value → Value → Type 0
Decided p receipt delegation decision effect =
    ((value_eq decision (str "allow") ≡ true)
      × EffectWas effect "succeeded" 1
      × IsActiveAt p receipt delegation)
    ⊎ ((value_eq decision (str "deny") ≡ true) × EffectWas effect "prevented" 0)

same_at-SameAt :
    (message : String) (a : Value) (key : String) (b : Value) (other : String)
    → same_at message a key b other ≡ ok tt
    → SameAt a key b other
unfolding same_at
same_at-SameAt message a key b other h = elim (Result-cases (subscript a key)) [
  | inr (x, e) ↦ absurd (ground arith)
  | inl (v, e) ↦ elim (Result-cases (subscript b other)) [
    | inr (x, f) ↦ absurd (ground arith)
    | inl (w, f) ↦ (v, w, e, f, ground arith)
  ]
]

effect_was-EffectWas :
    (effect : Value) (status : String) (n : ℕ) (message : String)
    → effect_was effect status n message ≡ ok tt
    → EffectWas effect status n
unfolding effect_was
effect_was-EffectWas effect status n message h = elim (Result-cases (subscript effect "status")) [
  | inr (x, e) ↦ absurd (ground arith)
  | inl (v, e) ↦ elim (Result-cases (subscript effect "attempt_count")) [
    | inr (x, f) ↦ absurd (ground arith)
    | inl (w, f) ↦ (v, w, e, f, ground arith, ground arith)
  ]
]

check_inactive-allow :
    (active : Bool) (decision effect : Value)
    → value_eq decision (str "deny") ≡ false
    → check_inactive active decision effect ≡ ok tt
    → active ≡ true
unfolding check_inactive
check_inactive-allow true decision effect n h = refl
check_inactive-allow false decision effect n h = absurd (ground arith)

allow-deny : (v : Value) → value_eq v (str "allow") ≡ true → value_eq v (str "deny") ≡ false
unfolding value_eq
allow-deny (str s) h = rw ((eq_iff s "allow").0 h) refl
allow-deny null h = cc
allow-deny _ h = cc

check_decision-Decided :
    (p : Platform) (receipt delegation decision effect : Value) (active : Bool)
    → check_decision decision effect ≡ ok tt
    → delegation_active p receipt delegation ≡ ok active
    → check_inactive active decision effect ≡ ok tt
    → Decided p receipt delegation decision effect
unfolding check_decision
check_decision-Decided p receipt delegation decision effect active h a i =
    elim (Bool-cases (value_eq decision (str "allow"))) [
      | inl y ↦
          let live = check_inactive-allow active decision effect (allow-deny decision y) i in
          inl (
            y,
            effect_was-EffectWas effect "succeeded" 1 "allow must execute exactly once"
                (ground arith),
            delegation_active-IsActiveAt p receipt delegation (rw live at a),
          )
      | inr n ↦ elim (Bool-cases (value_eq decision (str "deny"))) [
        | inl y ↦ inr (
          y,
          effect_was-EffectWas effect "prevented" 0 "deny must execute zero times" (ground arith),
        )
        | inr m ↦ absurd (ground arith)
      ]
    ]

-- The receipt's action digest is the digest of the request's action.
abbrev pub HasAction : Platform → Value → Value → Type 0
HasAction p request receipt =
    (bound : Value) × (action : Value) × (d : String) × (subscript receipt "action_digest"
      ≡ ok bound)
    × (subscript request "action" ≡ ok action)
    × (document_digest p action ≡ ok d)
    × (value_eq bound (str d) ≡ true)

pub record IsEnvelope (p : Platform) (envelope : Value) : Type 0 where
  pub request : Value
  pub receipt : Value
  pub delegation : Value
  pub decision : Value
  pub effect : Value
  pub request_lem : subscript envelope "request" ≡ ok request
  pub receipt_lem : subscript envelope "receipt" ≡ ok receipt
  pub delegation_lem : subscript receipt "delegation" ≡ ok delegation
  pub decision_lem : subscript receipt "decision" ≡ ok decision
  pub effect_lem : subscript receipt "effect" ≡ ok effect
  pub same_request : SameAt receipt "request_id" request "request_id"
  pub same_subject : SameAt receipt "subject_id" request "subject_id"
  pub same_principal : SameAt receipt "principal_id" request "principal_id"
  pub same_delegation : SameAt delegation "delegation_id" request "delegation_id"
  pub same_action : HasAction p request receipt
  pub same_key :
      (provider : Value) × (signature : Value) × (subscript receipt "provider" ≡ ok provider)
      × (subscript receipt "signature" ≡ ok signature)
      × SameAt provider "key_id" signature "key_id"
  pub decided : Decided p receipt delegation decision effect

check_identity_same :
    (p : Platform) (request receipt : Value)
    → check_identity p request receipt ≡ ok tt
    → SameAt receipt "request_id" request "request_id"
      × SameAt receipt "subject_id" request "subject_id"
      × SameAt receipt "principal_id" request "principal_id"
unfolding check_identity
check_identity_same p request receipt h = (
  same_at-SameAt "request_id substitution" receipt "request_id" request "request_id" (ground arith),
  same_at-SameAt "subject_id substitution" receipt "subject_id" request "subject_id" (ground arith),
  same_at-SameAt "principal_id substitution" receipt "principal_id" request "principal_id"
      (ground arith),
)

check_identity_bound :
    (p : Platform) (request receipt : Value)
    → check_identity p request receipt ≡ ok tt
    → ((delegation : Value) × (subscript receipt "delegation" ≡ ok delegation)
        × SameAt delegation "delegation_id" request "delegation_id")
      × HasAction p request receipt
      × ((provider : Value) × (signature : Value) × (subscript receipt "provider" ≡ ok provider)
          × (subscript receipt "signature" ≡ ok signature)
          × SameAt provider "key_id" signature "key_id")
unfolding check_identity
check_identity_bound p request receipt h =
    let (_, h1) =
      first_ok (same_at "request_id substitution" receipt "request_id" request "request_id") _ h in
    let (_, h2) =
      first_ok (same_at "subject_id substitution" receipt "subject_id" request "subject_id") _ h1 in
    let (_, h3) =
      first_ok (same_at "principal_id substitution" receipt "principal_id" request "principal_id") _
        h2 in
    let (delegation, e1, h4) = first_some (subscript receipt "delegation") _ h3 in
    let (e2, h5) =
      first_ok
        (same_at "delegation substitution" delegation "delegation_id" request "delegation_id") _
        h4 in
    let (bound, e3, h6) = first_some (subscript receipt "action_digest") _ h5 in
    let (action, e4, h7) = first_some (subscript request "action") _ h6 in
    let (d, e5, h8) = first_some (document_digest p action) _ h7 in
    let (e6, h9) = guarded (value_eq bound (str d)) _ _ h8 in
    let (provider, e7, h10) = first_some (subscript receipt "provider") _ h9 in
    let (signature, e8, h11) = first_some (subscript receipt "signature") _ h10 in
    (
      (
        delegation,
        e1,
        same_at-SameAt "delegation substitution" delegation "delegation_id" request "delegation_id"
            e2,
      ),
      (bound, action, d, e3, e4, e5, e6),
      (
        provider,
        signature,
        e7,
        e8,
        same_at-SameAt "signature key substitution" provider "key_id" signature "key_id" h11,
      ),
    )

same_value : {v w : Value} → ok v ≡ ok w → v ≡ w
same_value e = cc

validate_bindings-IsEnvelope :
    (p : Platform) (envelope : Value) → validate_bindings p envelope ≡ ok tt → IsEnvelope p envelope
unfolding validate_bindings
validate_bindings-IsEnvelope p envelope h = elim (Result-cases (subscript envelope "request")) [
  | inr (x, e) ↦ absurd (ground arith)
  | inl (request, q) ↦ elim (Result-cases (subscript envelope "receipt")) [
    | inr (x, e) ↦ absurd (ground arith)
    | inl (receipt, r) ↦ elim (Result-cases (subscript receipt "effect")) [
      | inr (x, e) ↦ absurd (ground arith)
      | inl (effect, f) ↦ elim (Result-cases (subscript receipt "decision")) [
        | inr (x, e) ↦ absurd (ground arith)
        | inl (decision, d) ↦ elim (Result-cases (subscript receipt "delegation")) [
          | inr (x, e) ↦ absurd (ground arith)
          | inl (delegation, g) ↦ elim (Result-cases (delegation_active p receipt delegation)) [
            | inr (x, e) ↦ absurd (ground arith)
            | inl (active, a) ↦
                let (i, s, n) = check_identity_same p request receipt (ground arith) in
                let ((other, named, linked), acted, signed) =
                  check_identity_bound p request receipt (ground arith) in
                record {
                  request = request;
                  receipt = receipt;
                  delegation = delegation;
                  decision = decision;
                  effect = effect;
                  request_lem = q;
                  receipt_lem = r;
                  delegation_lem = g;
                  decision_lem = d;
                  effect_lem = f;
                  same_request = i;
                  same_subject = s;
                  same_principal = n;
                  same_delegation =
                      subst (λ d. SameAt d "delegation_id" request "delegation_id")
                        (same_value (sym named ∙ g)) linked;
                  same_action = acted;
                  same_key = signed;
                  decided =
                      check_decision-Decided p receipt delegation decision effect active
                        (ground arith) a (ground arith);
                }
          ]
        ]
      ]
    ]
  ]
]

-- An envelope is returned only for a provider's record whose signature was verified, and only when
-- its receipt is about the request's identifiers, its delegation and the digest of its action, is
-- signed with the provider's key, and says either that the action was allowed,
-- succeeded in one attempt and was under a delegation that was active when it was issued, or that
-- it was denied and had no attempt.
pub normalize_provider-IsEnvelope :
    (p : Platform) (profile : Fields) (verify_signature : Fields → Result Bool) (provider : Fields)
    (envelope : Value)
    → normalize_provider p profile verify_signature provider ≡ ok envelope
    → (verify_signature provider ≡ ok true) × IsEnvelope p envelope
unfolding normalize_provider
normalize_provider-IsEnvelope p profile verify_signature provider envelope h =
    (ground arith, validate_bindings-IsEnvelope p envelope (ground arith))
