-- ===== src/Py/Equality/Laws.antt =====
-- `==` on JSON values is reflexive where dictionaries have distinct keys, as Python's have.
use minority_prophet_border.Prelude.{
  String, eq_iff, eq_refl, ◌≡◌, refl, Bool, true, false, not, ◌&&◌, some, arith, length, &&-eq-true,
  &&-of-true, not-eq-true, nat_eq_refl,
}
use minority_prophet_border.Prelude.Int.{ℤ}
use minority_prophet_border.Py.Value.{
  Value, null, bool, int, float, str, arr, obj, Items, nil, cons, Fields, end, field, keys, lookup,
  mem,
}
use minority_prophet_border.Py.Equality.{num_eq, float_eq, value_eq, items_eq, fields_in}
use minority_prophet_border.Admission.Controller.{fresh}

-- Every dictionary inside has distinct keys.
unfoldable mutual
  pub well_formed : Value → Bool
  well_formed (arr vs) = well_formed_items vs
  well_formed (obj d) = well_formed_fields d
  well_formed _ = true

  pub well_formed_items : Items → Bool
  well_formed_items nil = true
  well_formed_items (cons v vs) = well_formed v && well_formed_items vs

  pub well_formed_fields : Fields → Bool
  well_formed_fields end = true
  well_formed_fields (field k v rest) =
      not (mem k (keys rest)) && (well_formed v && well_formed_fields rest)

-- Every entry of `d` is what `e` holds under its key.
abbrev pub Holds : Fields → Fields → Type 0
Holds end e = Unit
Holds (field k v rest) e = (lookup k e ≡ some v) × Holds rest e

Holds-field :
    (k : String) (v : Value) (d e : Fields)
    → mem k (keys d) ≡ false
    → Holds d e
    → Holds d (field k v e)
Holds-field k v end e fresh h = tt
Holds-field k v (field j w rest) e fresh (h, hs) =
    (ground (arith, eq_iff k j, eq_iff j k), Holds-field k v rest e (ground arith) hs)

Holds-refl : (d : Fields) → well_formed_fields d ≡ true → Holds d d
unfolding well_formed
Holds-refl end h = tt
Holds-refl (field k v rest) h =
    let (fresh, hs) = &&-eq-true _ (well_formed v && well_formed_fields rest) h in
    let (_, later) = &&-eq-true (well_formed v) _ hs in
    (rw (eq_refl k) refl, Holds-field k v rest rest (not-eq-true _ fresh) (Holds-refl rest later))

num_eq-int_refl : (n : ℤ) → num_eq n (int n) ≡ true
num_eq-int_refl n = ground arith

float_eq_refl : (r : String) → float_eq r r ≡ true
unfolding float_eq
float_eq_refl r = rw (eq_refl r) refl

mutual
  unfolding value_eq well_formed

  pub value_eq_refl : (v : Value) → well_formed v ≡ true → value_eq v v ≡ true
  value_eq_refl null h = refl
  value_eq_refl (bool b) h = ground arith
  value_eq_refl (int n) h = num_eq-int_refl n
  value_eq_refl (float r) h = float_eq_refl r
  value_eq_refl (str s) h = eq_refl s
  value_eq_refl (arr vs) h = items_eq_refl vs h
  value_eq_refl (obj d) h =
      &&-of-true _ _ (nat_eq_refl (length (keys d))) (fields_in_refl d d h (Holds-refl d h))

  pub items_eq_refl : (vs : Items) → well_formed_items vs ≡ true → items_eq vs vs ≡ true
  items_eq_refl nil h = refl
  items_eq_refl (cons v vs) h =
      let (hv, hvs) = &&-eq-true (well_formed v) _ h in
      &&-of-true _ _ (value_eq_refl v hv) (items_eq_refl vs hvs)

  pub fields_in_refl :
      (d e : Fields) → well_formed_fields d ≡ true → Holds d e → fields_in d e ≡ true
  fields_in_refl end e h k = refl
  fields_in_refl (field j v rest) e h (k, ks) =
      let (_, hs) = &&-eq-true (not (mem j (keys rest))) _ h in
      let (hv, later) = &&-eq-true (well_formed v) _ hs in
      rw k (&&-of-true _ _ (value_eq_refl v hv) (fields_in_refl rest e later ks))
