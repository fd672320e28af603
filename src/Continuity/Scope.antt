-- ===== src/Continuity/Scope.antt =====
-- border/intent_continuity.py: bounded authority sets, their narrowing, and effects within them.
-- The source loops over a frozen set of field names, in no fixed order; the list's order is taken.
use minority_prophet_border.Py.Result.{
  Exn, Result, continuity_error, err, exn, ok, raise_if, ◌>>=◌, ◌>>◌,
}
use minority_prophet_border.Py.Value.{Fields, Value, arr, cons, int, item, mem}
use minority_prophet_border.Prelude.{
  Bool, List, String, [], all, if◌then◌else◌, ltb, none, not, some, ℕ, ◌==◌, ◌∷◌,
}
use minority_prophet_border.Py.Bindings.{exact_fields, has_duplicates, texts_of, value_in}
use minority_prophet_border.Prelude.Int.{pos}
use minority_prophet_border.Py.Text.{concat}

pub record Scope : Type 0 where
  -- the allowed texts under each field name
  pub allowed : List (String × List String)
  pub max_amount : ℕ

abbrev pub failed : List String → Exn
failed parts = exn continuity_error (concat parts)

abbrev pub set_fields : List String
set_fields =
    "actions" ∷ "destinations" ∷ "methods" ∷ "resources" ∷ "body_digests" ∷ "payment_networks"
    ∷ "payment_assets" ∷ "payment_recipients" ∷ []

abbrev pub scope_fields : List String
scope_fields = "max_payment_amount_minor" ∷ set_fields

-- A non-empty list of distinct non-empty texts.
unfoldable pub unique_texts : String → String → Value → Result (List String)
unfolding concat
unique_texts label f (arr (cons v vs)) = elim (texts_of (cons v vs)) [
  | none ↦ err (failed (label ∷ "." ∷ f ∷ " must be unique strings" ∷ []))
  | some texts ↦
      if has_duplicates texts
      then err (failed (label ∷ "." ∷ f ∷ " must be unique strings" ∷ []))
      else ok texts
]
unique_texts label f _ = err (failed (label ∷ "." ∷ f ∷ " must be unique strings" ∷ []))

unfoldable pub normalize_sets : String → Fields → List String → Result (List (String × List String))
normalize_sets label scope [] = ok []
normalize_sets label scope (f ∷ fs) = do
  v ← item scope f
  texts ← unique_texts label f v
  rest ← normalize_sets label scope fs
  ok ((f, texts) ∷ rest)

-- `isinstance(amount, bool) or not isinstance(amount, int) or amount < 0` raises.
abbrev pub nonnegative : Exn → Value → Result ℕ
nonnegative e (int (pos n)) = ok n
nonnegative e _ = err e

unfoldable pub validate_scope : Value → String → Result Scope
unfolding concat
validate_scope v label = do
  scope ← exact_fields (failed (label ∷ " has unknown or missing fields" ∷ [])) scope_fields v
  allowed ← normalize_sets label scope set_fields
  amount ← item scope "max_payment_amount_minor"
  max_amount ←
      nonnegative (failed (label ∷ ".max_payment_amount_minor must be nonnegative" ∷ [])) amount
  ok (record { allowed = allowed; max_amount = max_amount })

-- `scope[field]`
abbrev pub allowed_in : String → List (String × List String) → List String
allowed_in f [] = []
allowed_in f ((g, texts) ∷ rest) = if g == f then texts else allowed_in f rest

abbrev pub is_subset : List String → List String → Bool
is_subset xs ys = all (λ x. mem x ys) xs

unfoldable pub narrower_sets : Scope → Scope → List String → Result (Unit {0})
unfolding concat
narrower_sets parent child [] = ok tt
narrower_sets parent child (f ∷ fs) = do
  raise_if (not (is_subset (allowed_in f child.allowed) (allowed_in f parent.allowed)))
      (failed ("authority amplification in " ∷ f ∷ []))
  narrower_sets parent child fs

unfoldable pub assert_narrower : Scope → Scope → Result (Unit {0})
assert_narrower parent child = do
  narrower_sets parent child set_fields
  raise_if (ltb parent.max_amount child.max_amount)
      (exn continuity_error "authority amplification in payment amount")

abbrev pub effect_fields : List String
effect_fields =
    "task_id" ∷ "actor_id" ∷ "actor_key_thumbprint" ∷ "machine_id" ∷ "action" ∷ "destination"
    ∷ "method" ∷ "resource" ∷ "body_digest" ∷ "payment" ∷ []

abbrev pub payment_fields : List String
payment_fields = "network" ∷ "asset" ∷ "recipient" ∷ "amount_minor" ∷ []

-- Each field of an effect with the scope's field that bounds it.
abbrev pub effect_bindings : List (String × String)
effect_bindings =
    ("action", "actions")
    ∷ ("destination", "destinations")
    ∷ ("method", "methods")
    ∷ ("resource", "resources")
    ∷ ("body_digest", "body_digests")
    ∷ []

abbrev pub payment_bindings : List (String × String)
payment_bindings =
    ("network", "payment_networks")
    ∷ ("asset", "payment_assets")
    ∷ ("recipient", "payment_recipients")
    ∷ []

unfoldable pub values_within : String → Scope → Fields → List (String × String) → Result (Unit {0})
unfolding concat
values_within what scope d [] = ok tt
values_within what scope d ((f, bound) ∷ rest) = do
  v ← item d f
  raise_if (not (value_in v (allowed_in bound scope.allowed)))
      (failed (what ∷ f ∷ " substituted" ∷ []))
  values_within what scope d rest

unfoldable pub effect_within : Scope → Value → Result (Unit {0})
effect_within scope v = do
  effect ←
      exact_fields (exn continuity_error "final effect has unknown or missing fields") effect_fields
        v
  raw_payment ← item effect "payment"
  payment ←
      exact_fields (exn continuity_error "final payment has unknown or missing fields")
        payment_fields raw_payment
  values_within "final " scope effect effect_bindings
  values_within "final payment " scope payment payment_bindings
  raw_amount ← item payment "amount_minor"
  amount ← nonnegative (exn continuity_error "final payment amount is invalid") raw_amount
  raise_if (ltb scope.max_amount amount)
      (exn continuity_error "final payment amount exceeds mandate")
