-- ===== src/Continuity/Effect.antt =====
-- What holds of the final effect when a chain of delegations is accepted.
use minority_prophet_border.Py.Value.{Fields, Value, item, null, str, get, obj}
use minority_prophet_border.Continuity.Narrowing.{IsNarrower, mem-is_subset, walk-IsWithin}
use minority_prophet_border.Prelude.{
  All, Bool-cases, List, String, [], inl, inr, refl, true, ◌∷◌, ◌≡◌, arith, ◌≤◌,
}
use minority_prophet_border.Continuity.Scope.{
  Scope, allowed_in, effect_bindings, effect_within, is_subset, payment_bindings, values_within,
  effect_fields, payment_fields, validate_scope,
}
use minority_prophet_border.Py.Result.{Result-cases, ok, continuity_error, exn}
use minority_prophet_border.Py.Bindings.{value_in, exact_fields, format_time}
use minority_prophet_border.Continuity.Chain.{
  Link, Trust, check_effect, continuity_receipt, prove_intent_continuity, read_span, utc_time, walk,
  open_mandate,
}
use minority_prophet_border.Platform.{Platform}
use minority_prophet_border.Py.Clock.{Time}
use minority_prophet_border.Py.Text.{concat}
use minority_prophet_border.Underwriting.{bound}
use minority_prophet_border.Sandbox.Runtime.{opened}
use minority_prophet_border.Continuity.Allowed.{IsAllowed, effect_within-IsAllowed}

value_in-is_subset :
    (v : Value) (xs ys : List String)
    → is_subset xs ys ≡ true
    → value_in v xs ≡ true
    → value_in v ys ≡ true
value_in-is_subset (str s) xs ys sub h = mem-is_subset s xs ys sub h
value_in-is_subset null xs ys sub h = cc
value_in-is_subset _ xs ys sub h = cc

-- The parent allows what the child allows, for the fields of these bindings.
abbrev Covers : Scope → Scope → List (String × String) → Type 0
Covers parent child bindings =
    All (λ b. is_subset (allowed_in b.1 child.allowed) (allowed_in b.1 parent.allowed) ≡ true)
      bindings

values_within_mono :
    (what : String) (parent child : Scope) (d : Fields) (bindings : List (String × String))
    → Covers parent child bindings
    → values_within what child d bindings ≡ ok tt
    → values_within what parent d bindings ≡ ok tt
unfolding values_within
values_within_mono what parent child d [] c h = refl
values_within_mono what parent child d ((f, bound) ∷ rest) (c, cs) h =
    elim (Result-cases (item d f)) [
      | inl (v, e) ↦ elim (Bool-cases (value_in v (allowed_in bound child.allowed))) [
        | inl y ↦
            rw
              (
                e,
                value_in-is_subset v (allowed_in bound child.allowed)
                    (allowed_in bound parent.allowed) c y,
              )
              (values_within_mono what parent child d rest cs (rw (e, y) at h))
        | inr n ↦ absurd (cc (rw (e, n) at h))
      ]
      | inr (x, e) ↦ absurd (cc (rw e at h))
    ]

effect-Covers :
    (parent child : Scope) → IsNarrower parent child → Covers parent child effect_bindings
effect-Covers parent child n =
    let (a, (d, (m, (r, (b, _))))) = n.sets in (a, (d, (m, (r, (b, tt)))))

payment-Covers :
    (parent child : Scope) → IsNarrower parent child → Covers parent child payment_bindings
payment-Covers parent child n =
    let (_, (_, (_, (_, (_, (w, (a, (r, _)))))))) = n.sets in (w, (a, (r, tt)))

-- An effect within a narrower scope is within the wider one.
pub effect_within_mono :
    (parent child : Scope) (effect : Value)
    → IsNarrower parent child
    → effect_within child effect ≡ ok tt
    → effect_within parent effect ≡ ok tt
unfolding effect_within
effect_within_mono parent child v n h =
    elim (Result-cases (
      exact_fields (exn continuity_error "final effect has unknown or missing fields") effect_fields
        v)) [
          | inl (effect, e) ↦ elim (Result-cases (item effect "payment")) [
            | inl (raw, r) ↦
                elim (Result-cases (
                  exact_fields (exn continuity_error "final payment has unknown or missing fields")
                    payment_fields raw)) [
                      | inl (payment, q) ↦ ground (
                        arith,
                        values_within_mono "final " parent child effect effect_bindings
                            (effect-Covers parent child n),
                        values_within_mono "final payment " parent child payment payment_bindings
                            (payment-Covers parent child n),
                      )
                      | inr (x, q) ↦ absurd (ground arith)
                    ]
            | inr (x, r) ↦ absurd (ground arith)
          ]
          | inr (x, e) ↦ absurd (ground arith)
        ]

-- The scope of the Mandate holds the effect, and the receipt ends no later than the Mandate.
pub record IsContinuous (p : Platform) (mandate : Fields) (effect : Value) (receipt : Fields)
    : Type 0 where
  pub root : Scope
  pub root_scope : validate_scope (get mandate "scope") "mandate.scope" ≡ ok root
  pub within : IsAllowed root effect
  pub root_expiry : Time
  pub expires : utc_time p (get mandate "expires_at") "mandate.expires_at" ≡ ok root_expiry
  pub expiry : Time
  pub receipt_expiry : get receipt "expires_at" ≡ str (format_time p expiry)
  pub ends : expiry.instant ≤ root_expiry.instant

open_mandate-scope :
    (p : Platform) (trust : Trust) (mandate : Fields) (now : Time) (opened : Link × Time × String)
    → open_mandate p trust mandate now ≡ ok opened
    → (validate_scope (get mandate "scope") "mandate.scope" ≡ ok opened.0.scope)
      × (utc_time p (get mandate "expires_at") "mandate.expires_at" ≡ ok opened.0.expiry)
unfolding open_mandate read_span concat
open_mandate-scope p trust mandate now opened h = (ground arith, ground arith)

receipt_expiry_lem :
    (p : Platform) (mandate : Fields) (delegations : List Value) (effect : Value) (link : Link)
    (nonce : String) (now : Time) (receipt : Fields)
    → continuity_receipt p mandate delegations effect link nonce now ≡ ok receipt
    → get receipt "expires_at" ≡ str (format_time p link.expiry)
unfolding continuity_receipt
receipt_expiry_lem p mandate delegations effect link nonce now receipt h = ground arith

check_effect-within :
    (mandate : Fields) (link : Link) (effect : Value)
    → check_effect mandate link effect ≡ ok tt
    → effect_within link.scope effect ≡ ok tt
unfolding check_effect
check_effect-within mandate link effect h = ground arith

-- Whatever chain of delegations leads to it, an effect that is proved continuous has exactly the
-- fields of one, each of its bounded values is one that the scope of the Mandate itself allows, its
-- payment amount is at most that scope's maximum, and its receipt ends no later than the Mandate.
pub prove_intent_continuity-IsContinuous :
    (p : Platform) (trust : Trust) (mandate : Fields) (delegations : List Value) (effect : Value)
    (now : Time) (receipt : Fields)
    → prove_intent_continuity p trust (obj mandate) delegations effect now ≡ ok receipt
    → IsContinuous p mandate effect receipt
unfolding prove_intent_continuity
prove_intent_continuity-IsContinuous p trust mandate delegations effect now receipt h =
    elim (Result-cases (open_mandate p trust mandate now)) [
      | inl (opened, o) ↦
          elim (Result-cases (walk p trust mandate opened.1 now 0 opened.0 delegations)) [
            | inl (link, w) ↦
                let (scoped, ends) = open_mandate-scope p trust mandate now opened o in
                let inside =
                  walk-IsWithin p trust mandate opened.1 now 0 opened.0 link delegations w in
                let checked : check_effect mandate link effect ≡ ok tt = ground arith in
                let issued : continuity_receipt p mandate delegations effect link opened.2 now
                    ≡ ok receipt =
                  ground arith in
                record {
                  root = opened.0.scope;
                  root_scope = scoped;
                  within = effect_within-IsAllowed opened.0.scope effect (
                      effect_within_mono opened.0.scope link.scope effect inside.scope
                        (check_effect-within mandate link effect checked));
                  root_expiry = opened.0.expiry;
                  expires = ends;
                  expiry = link.expiry;
                  receipt_expiry =
                      receipt_expiry_lem p mandate delegations effect link opened.2 now receipt
                        issued;
                  ends = inside.expiry;
                }
            | inr (x, w) ↦ absurd (ground arith)
          ]
      | inr (x, o) ↦ absurd (ground arith)
    ]
