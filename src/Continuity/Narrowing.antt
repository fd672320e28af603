-- ===== src/Continuity/Narrowing.antt =====
-- Authority only narrows along a chain of delegations.
use mathlib.Core.Path.{subst}
use minority_prophet_border.Py.Text.{concat}
use minority_prophet_border.Continuity.Chain.{Link, Trust, hop_fields, hop_label, step, walk}
use minority_prophet_border.Prelude.{
  &&-eq-true, &&-of-true, All, Bool-cases, List, String, [], arith, eq_iff, eq_refl, inl, inr, refl,
  true, ℕ, ◌+◌, ◌==◌, ◌∷◌, ◌≡◌, ◌≤◌,
}
use minority_prophet_border.Continuity.Scope.{
  Scope, allowed_in, assert_narrower, failed, is_subset, narrower_sets, set_fields, validate_scope,
}
use minority_prophet_border.Platform.{Platform}
use minority_prophet_border.Py.Bindings.{exact_fields}
use minority_prophet_border.Py.Value.{Fields, Value, get, mem}
use minority_prophet_border.Py.Result.{Result-cases, ok}
use minority_prophet_border.Py.Clock.{Time}

pub mem-is_subset :
    (s : String) (ys zs : List String) → is_subset ys zs ≡ true → mem s ys ≡ true → mem s zs ≡ true
mem-is_subset s [] zs sub h = cc
mem-is_subset s (y ∷ ys) zs sub h =
    let (first, rest) = &&-eq-true (mem y zs) _ sub in
    elim (Bool-cases (y == s)) [
      | inl same ↦ rw ((eq_iff y s).0 same) at first
      | inr other ↦ mem-is_subset s ys zs rest (rw other at h)
    ]

is_subset_refl_aux : (xs ys : List String) → All (λ x. mem x ys ≡ true) xs → is_subset xs ys ≡ true
is_subset_refl_aux [] ys h = refl
is_subset_refl_aux (x ∷ xs) ys (h, hs) = &&-of-true _ _ h (is_subset_refl_aux xs ys hs)

mem-weaken :
    (y : String) (xs ys : List String)
    → All (λ x. mem x ys ≡ true) xs
    → All (λ x. mem x (y ∷ ys) ≡ true) xs
mem-weaken y [] ys h = tt
mem-weaken y (x ∷ xs) ys (h, hs) = (ground arith, mem-weaken y xs ys hs)

mem_self : (xs : List String) → All (λ x. mem x xs ≡ true) xs
mem_self [] = tt
mem_self (x ∷ xs) = (rw (eq_refl x) refl, mem-weaken x xs xs (mem_self xs))

is_subset_trans :
    (xs ys zs : List String)
    → is_subset xs ys ≡ true
    → is_subset ys zs ≡ true
    → is_subset xs zs ≡ true
is_subset_trans [] ys zs h k = refl
is_subset_trans (x ∷ xs) ys zs h k =
    let (first, rest) = &&-eq-true (mem x ys) _ h in
    &&-of-true _ _ (mem-is_subset x ys zs k first) (is_subset_trans xs ys zs rest k)

-- Every field of the child's scope allows no more than the parent's.
abbrev pub SetsNarrower : Scope → Scope → List String → Type 0
SetsNarrower parent child fs =
    All (λ f. is_subset (allowed_in f child.allowed) (allowed_in f parent.allowed) ≡ true) fs

pub record IsNarrower (parent child : Scope) : Type 0 where
  pub sets : SetsNarrower parent child set_fields
  pub amount : child.max_amount ≤ parent.max_amount

narrower_sets-SetsNarrower :
    (parent child : Scope) (fs : List String)
    → narrower_sets parent child fs ≡ ok tt
    → SetsNarrower parent child fs
unfolding narrower_sets
narrower_sets-SetsNarrower parent child [] h = tt
narrower_sets-SetsNarrower parent child (f ∷ fs) h =
    elim (Bool-cases (is_subset (allowed_in f child.allowed) (allowed_in f parent.allowed))) [
      | inl y ↦ (y, narrower_sets-SetsNarrower parent child fs (rw y at h))
      | inr n ↦ absurd (cc (rw n at h))
    ]

pub assert_narrower-IsNarrower :
    (parent child : Scope) → assert_narrower parent child ≡ ok tt → IsNarrower parent child
unfolding assert_narrower
assert_narrower-IsNarrower parent child h = record {
  sets = narrower_sets-SetsNarrower parent child set_fields (ground arith);
  amount = ground arith;
}

SetsNarrower-trans :
    (a b c : Scope) (fs : List String)
    → SetsNarrower a b fs
    → SetsNarrower b c fs
    → SetsNarrower a c fs
SetsNarrower-trans a b c [] h k = tt
SetsNarrower-trans a b c (f ∷ fs) (h, hs) (k, ks) = (
  is_subset_trans (allowed_in f c.allowed) (allowed_in f b.allowed) (allowed_in f a.allowed) k h,
  SetsNarrower-trans a b c fs hs ks,
)

SetsNarrower-refl : (a : Scope) (fs : List String) → SetsNarrower a a fs
SetsNarrower-refl a [] = tt
SetsNarrower-refl a (f ∷ fs) = (
  is_subset_refl_aux (allowed_in f a.allowed) (allowed_in f a.allowed)
      (mem_self (allowed_in f a.allowed)),
  SetsNarrower-refl a fs,
)

-- One end of the chain is within another, in scope and in time.
pub record IsWithin (a b : Link) : Type 0 where
  pub scope : IsNarrower a.scope b.scope
  pub expiry : b.expiry.instant ≤ a.expiry.instant

IsWithin-refl : (a : Link) → IsWithin a a
IsWithin-refl a = record {
  scope = record { sets = SetsNarrower-refl a.scope set_fields; amount = omega arith };
  expiry = omega arith;
}

IsWithin-trans : (a b c : Link) → IsWithin a b → IsWithin b c → IsWithin a c
IsWithin-trans a b c h k = record {
  scope = record {
    sets = SetsNarrower-trans a.scope b.scope c.scope set_fields h.scope.sets k.scope.sets;
    amount = omega (arith, h.scope.amount, k.scope.amount);
  };
  expiry = omega (arith, h.expiry, k.expiry);
}

module _ (p : Platform) (trust : Trust) (mandate : Fields) (root_start now : Time) where
  step-IsWithin :
      (label : String) (link link' : Link) (hop : Fields)
      → step p trust mandate root_start now label link hop ≡ ok link'
      → IsWithin link link'
  unfolding step
  step-IsWithin label link link' hop h =
      elim (Result-cases (validate_scope (get hop "scope") (concat (label ∷ ".scope" ∷ [])))) [
        | inl (narrowed, e) ↦
            let kept : link'.scope ≡ narrowed = ground arith in
            record {
              scope = rw kept (assert_narrower-IsNarrower link.scope narrowed (ground arith));
              expiry = ground arith;
            }
        | inr (x, e) ↦ absurd (ground arith)
      ]

  -- However long a chain of delegations is that the loop accepts, its end has a scope within that of
  -- the link it starts from, in every field and in the amount, and expires no later.
  pub walk-IsWithin :
      (index : ℕ) (link link' : Link) (hops : List Value)
      → walk p trust mandate root_start now index link hops ≡ ok link'
      → IsWithin link link'
  unfolding walk
  walk-IsWithin index link link' [] h =
      let same : link ≡ link' = cc in subst (IsWithin link) same (IsWithin-refl link)
  walk-IsWithin index link link' (v ∷ rest) h =
      elim (Result-cases (
        exact_fields (failed (hop_label index ∷ " has unknown or missing fields" ∷ [])) hop_fields
          v)) [
            | inl (hop, e) ↦
                elim (Result-cases
                  (step p trust mandate root_start now (hop_label index) link hop)) [
                    | inl (mid, s) ↦
                        IsWithin-trans link mid link'
                          (step-IsWithin (hop_label index) link mid hop s)
                          (walk-IsWithin (index + 1) mid link' rest (ground arith))
                    | inr (x, s) ↦ absurd (ground arith)
                  ]
            | inr (x, e) ↦ absurd (ground arith)
          ]
