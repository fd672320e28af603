-- ===== src/Continuity/Allowed.antt =====
-- What `effect_within` has established of an effect.
use minority_prophet_border.Py.Value.{Fields, Value, item, null, obj, int, keys_are}
use minority_prophet_border.Prelude.{
  All, Bool-cases, List, String, [], inl, inr, true, ◌∷◌, ◌≡◌, arith, ◌≤◌, ap, ltb, sym, ℕ, ◌∙◌,
}
use minority_prophet_border.Continuity.Scope.{
  Scope, allowed_in, effect_bindings, effect_within, payment_bindings, values_within, effect_fields,
  payment_fields, nonnegative,
}
use minority_prophet_border.Py.Result.{ok, continuity_error, exn, Exn}
use minority_prophet_border.Py.Bindings.{value_in, exact_fields}
use minority_prophet_border.Py.Chain.{first_ok, first_some, guarded, last_unraised}
use minority_prophet_border.Prelude.Int.{negsuc, pos}
use minority_prophet_border.Underwriting.{bound}

-- The value of that field is one that the scope's set allows.
abbrev pub Allows : Scope → Fields → String → String → Type 0
Allows scope d f bound =
    (v : Value) × (item d f ≡ ok v) × (value_in v (allowed_in bound scope.allowed) ≡ true)

-- An effect with exactly the fields of one, each value allowed, and an amount within the maximum.
pub record IsAllowed (scope : Scope) (effect : Value) : Type 0 where
  pub fields : Fields
  pub payment : Fields
  pub amount : ℕ
  pub is_object : effect ≡ obj fields
  pub is_payment : item fields "payment" ≡ ok (obj payment)
  pub exact :
      keys_are fields (
        "task_id" ∷ "actor_id" ∷ "actor_key_thumbprint" ∷ "machine_id" ∷ "action" ∷ "destination"
        ∷ "method" ∷ "resource" ∷ "body_digest" ∷ "payment" ∷ [])
      ≡ true
  pub exact_payment :
      keys_are payment ("network" ∷ "asset" ∷ "recipient" ∷ "amount_minor" ∷ []) ≡ true
  pub action : Allows scope fields "action" "actions"
  pub destination : Allows scope fields "destination" "destinations"
  pub method : Allows scope fields "method" "methods"
  pub resource : Allows scope fields "resource" "resources"
  pub body : Allows scope fields "body_digest" "body_digests"
  pub network : Allows scope payment "network" "payment_networks"
  pub asset : Allows scope payment "asset" "payment_assets"
  pub recipient : Allows scope payment "recipient" "payment_recipients"
  pub is_amount : item payment "amount_minor" ≡ ok (int (pos amount))
  pub within : amount ≤ scope.max_amount

exact_fields-eq-ok :
    (e : Exn) (names : List String) (v : Value) (d : Fields)
    → exact_fields e names v ≡ ok d
    → (v ≡ obj d) × (keys_are d names ≡ true)
exact_fields-eq-ok e names (obj d') d h = elim (Bool-cases (keys_are d' names)) [
  | inl y ↦
      let same : d' ≡ d = ground arith in (ap obj same, ap (λ x. keys_are x names) (sym same) ∙ y)
  | inr n ↦ absurd (ground arith)
]
exact_fields-eq-ok e names null d h = cc
exact_fields-eq-ok e names _ d h = cc

nonnegative-eq-ok : (e : Exn) (v : Value) (n : ℕ) → nonnegative e v ≡ ok n → v ≡ int (pos n)
nonnegative-eq-ok e (int (pos m)) n h = ground arith
nonnegative-eq-ok e (int (negsuc m)) n h = cc
nonnegative-eq-ok e null n h = cc
nonnegative-eq-ok e _ n h = cc

values_within-All :
    (what : String) (scope : Scope) (d : Fields) (bindings : List (String × String))
    → values_within what scope d bindings ≡ ok tt
    → All (λ b. Allows scope d b.0 b.1) bindings
unfolding values_within
values_within-All what scope d [] h = tt
values_within-All what scope d ((f, bound) ∷ rest) h =
    let (v, e, h1) = first_some (item d f) _ h in
    let (y, h2) = guarded (value_in v (allowed_in bound scope.allowed)) _ _ h1 in
    ((v, e, y), values_within-All what scope d rest h2)

pub effect_within-IsAllowed :
    (scope : Scope) (effect : Value) → effect_within scope effect ≡ ok tt → IsAllowed scope effect
unfolding effect_within
effect_within-IsAllowed scope effect h =
    let (fields, e1, h1) =
      first_some
        (exact_fields (exn continuity_error "final effect has unknown or missing fields")
          effect_fields effect)
        _ h in
    let (raw, e2, h2) = first_some (item fields "payment") _ h1 in
    let (payment, e3, h3) =
      first_some
        (exact_fields (exn continuity_error "final payment has unknown or missing fields")
          payment_fields raw)
        _ h2 in
    let (e4, h4) = first_ok (values_within "final " scope fields effect_bindings) _ h3 in
    let (e5, h5) = first_ok (values_within "final payment " scope payment payment_bindings) _ h4 in
    let (raw_amount, e6, h6) = first_some (item payment "amount_minor") _ h5 in
    let (amount, e7, h7) =
      first_some (nonnegative (exn continuity_error "final payment amount is invalid") raw_amount) _
        h6 in
    let small = last_unraised (ltb scope.max_amount amount) _ h7 in
    let (is_object, exact) = exact_fields-eq-ok _ effect_fields effect fields e1 in
    let (is_payment, exact_payment) = exact_fields-eq-ok _ payment_fields raw payment e3 in
    let all = values_within-All "final " scope fields effect_bindings e4 in
    let paid = values_within-All "final payment " scope payment payment_bindings e5 in
    record {
      fields = fields;
      payment = payment;
      amount = amount;
      is_object = is_object;
      is_payment = e2 ∙ ap ok is_payment;
      exact = exact;
      exact_payment = exact_payment;
      action = all.0;
      destination = all.1.0;
      method = all.1.1.0;
      resource = all.1.1.1.0;
      body = all.1.1.1.1.0;
      network = paid.0;
      asset = paid.1.0;
      recipient = paid.1.1.0;
      is_amount = e6 ∙ ap ok (nonnegative-eq-ok _ raw_amount amount e7);
      within = ground arith;
    }
