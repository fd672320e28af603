-- ===== src/Jcs/Profile.antt =====
-- What `canonicalize` of border/jcs.py does with a value in its profile and with one outside it.
use minority_prophet_border.Py.Result.{◌>>◌, Result, canonicalization_error, err, exn, ok}
use minority_prophet_border.Prelude.{
  Bool, Bool-cases, String, [], false, inl, inr, not, refl, true, ℕ, ◌&&◌, ◌+◌, ◌∷◌, ◌≡◌, ◌⊎◌,
}
use minority_prophet_border.Jcs.{
  has_surrogate, validate, validate_fields, validate_items, validate_text,
}
use minority_prophet_border.Py.Value.{
  Fields, Items, Value, arr, bool, cons, end, field, float, int, nil, null, obj, str,
}
use minority_prophet_border.Py.Text.{append, concat, decimal}
use minority_prophet_border.Jcs.Text.{fields_in_profile, in_profile, in_range, items_in_profile}

-- A check that passes exactly where the test holds, and else raises the module's own exception
Decides : {A : Type 0} → Bool → Result A → A → Type 0
Decides test result value =
    ((test ≡ true) × (result ≡ ok value))
    ⊎ ((test ≡ false) × ((m : String) × (result ≡ err (exn canonicalization_error m))))

then-Decides :
    {A : Type 0} (a b : Bool) (first : Result (Unit {0})) (rest : Result A) (value : A)
    → Decides a first tt
    → Decides b rest value
    → Decides (a && b) (first >> rest) value
unfolding Decides
then-Decides a b first rest value (inl (t, q)) (inl (u, r)) = inl (rw (t, u) refl, rw q r)
then-Decides a b first rest value (inl (t, q)) (inr (u, (m, r))) = inr (rw (t, u) refl, (m, rw q r))
then-Decides a b first rest value (inr (t, (m, q))) h = inr (rw t refl, (m, rw q refl))

validate_text-Decides :
    (s path : String) → Decides (not (has_surrogate s)) (validate_text s path) tt
unfolding Decides validate_text
validate_text-Decides s path = elim (Bool-cases (has_surrogate s)) [
  | inl y ↦ inr (rw y refl, (concat ("lone surrogate at " ∷ path ∷ []), rw y refl))
  | inr n ↦ inl (rw n refl, rw n refl)
]

mutual
  unfolding Decides in_profile validate

  validate-Decides : (v : Value) (path : String) → Decides (in_profile v) (validate v path) tt
  validate-Decides null path = inl (refl, refl)
  validate-Decides (bool b) path = inl (refl, refl)
  validate-Decides (str s) path = validate_text-Decides s path
  validate-Decides (int n) path = elim (Bool-cases (in_range n)) [
    | inl y ↦ inl (y, rw y refl)
    | inr o ↦ inr (o, (concat ("integer outside interoperable range at " ∷ path ∷ []), rw o refl))
  ]
  validate-Decides (float r) path = inr (refl, (_, refl))
  validate-Decides (arr vs) path = validate_items-Decides vs path 0
  validate-Decides (obj d) path = validate_fields-Decides d path

  validate_items-Decides :
      (vs : Items) (path : String) (index : ℕ)
      → Decides (items_in_profile vs) (validate_items vs path index) tt
  validate_items-Decides nil path index = inl (refl, refl)
  validate_items-Decides (cons v vs) path index =
      then-Decides (in_profile v) (items_in_profile vs) _ _ tt
        (validate-Decides v (concat (path ∷ "[" ∷ decimal index ∷ "]" ∷ [])))
        (validate_items-Decides vs path (index + 1))

  validate_fields-Decides :
      (d : Fields) (path : String) → Decides (fields_in_profile d) (validate_fields d path) tt
  validate_fields-Decides end path = inl (refl, refl)
  validate_fields-Decides (field k v rest) path =
      then-Decides (not (has_surrogate k)) _ _ _ tt (validate_text-Decides k (append path ".<key>"))
        (then-Decides (in_profile v) (fields_in_profile rest) _ _ tt
          (validate-Decides v (concat (path ∷ "." ∷ k ∷ []))) (validate_fields-Decides rest path))
