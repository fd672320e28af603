-- ===== src/Py/Equality.antt =====
-- Python's `==` on JSON values: `True == 1`, `1.0 == 1`, and dictionaries are equal in any order of
-- their keys. A float is carried by its `repr`, which below 10 ** 16 writes an integral float as its
-- decimals and ".0". Left out are an integral float from there on, whose `repr` has an exponent and
-- which is taken to differ from every int, and NaN, which is taken to equal itself.
pub mod Laws
use minority_prophet_border.Prelude.{
  ◌==◌, Bool, true, false, ◌&&◌, Option, none, some, length, nat_eq, String, ◌||◌,
}
use minority_prophet_border.Prelude.Int.{ℤ, pos, eqb_ℤ}
use minority_prophet_border.Py.Value.{
  Value, null, bool, int, float, str, arr, obj, Items, nil, cons, Fields, end, field, keys, lookup,
}
use minority_prophet_border.Py.Text.{append, decimal_ℤ}

abbrev pub of_bool : Bool → ℤ
of_bool true = pos 1
of_bool false = pos 0

-- The float with this `repr` is the integer.
unfoldable pub float_is : String → ℤ → Bool
unfolding decimal_ℤ
float_is r n = r == append (decimal_ℤ n) ".0" || (eqb_ℤ n (pos 0) && r == "-0.0")

-- The floats are the same, or both are zero.
unfoldable pub float_eq : String → String → Bool
unfolding float_is
float_eq r s = r == s || (float_is r (pos 0) && float_is s (pos 0))

abbrev pub num_eq : ℤ → Value → Bool
num_eq n (bool c) = eqb_ℤ n (of_bool c)
num_eq n (int m) = eqb_ℤ n m
num_eq n (float r) = float_is r n
num_eq n _ = false

abbrev with_some : Option Value → (Value → Bool) → Bool
with_some none f = false
with_some (some w) f = f w

unfoldable mutual
  unfolding float_is float_eq

  pub value_eq : Value → Value → Bool
  value_eq null null = true
  value_eq (bool b) v = num_eq (of_bool b) v
  value_eq (int n) v = num_eq n v
  value_eq (float r) (float r') = float_eq r r'
  value_eq (float r) (int n) = float_is r n
  value_eq (float r) (bool b) = float_is r (of_bool b)
  value_eq (str s) (str t) = s == t
  value_eq (arr vs) (arr ws) = items_eq vs ws
  value_eq (obj d) (obj e) = nat_eq (length (keys d)) (length (keys e)) && fields_in d e
  value_eq _ _ = false

  pub items_eq : Items → Items → Bool
  items_eq nil nil = true
  items_eq (cons v vs) (cons w ws) = value_eq v w && items_eq vs ws
  items_eq _ _ = false

  -- every entry has an equal one in the other dictionary
  pub fields_in : Fields → Fields → Bool
  fields_in end e = true
  fields_in (field k v rest) e = with_some (lookup k e) (value_eq v) && fields_in rest e
