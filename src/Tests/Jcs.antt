-- ===== src/Tests/Jcs.antt =====
-- Values inside the profile and outside it.
use minority_prophet_border.Prelude.{[], false, refl, true, ◌∷◌, ◌≡◌}
use minority_prophet_border.Py.Value.{Value, dict, int, list, null, obj, str, bool, float}
use minority_prophet_border.Py.Result.{canonicalization_error, err, exn, ok}
use minority_prophet_border.Jcs.{canonicalize, dumps, encode, render, validate, validate_text}
use minority_prophet_border.Py.Text.{concat, decimal}
use minority_prophet_border.Prelude.Int.{pos}
use minority_prophet_border.Jcs.Text.{in_profile}
use minority_prophet_border.Py.Equality.{value_eq}

abbrev inside : Value
inside = obj (dict (("b", list (null ∷ int (pos 3) ∷ [])) ∷ ("a", str "x") ∷ []))

abbrev outside_value : Value
outside_value = obj (dict (("a", list (int (pos 9_007_199_254_740_992) ∷ [])) ∷ []))

unfoldable jcs_runs : Unit {0}
unfolding in_profile validate validate_text concat decimal canonicalize dumps render encode
jcs_runs = tt

inside_lem : canonicalize inside ≡ ok (encode "{\"a\":\"x\",\"b\":[null,3]}")
unfolding jcs_runs
inside_lem = refl

outside_lem :
    canonicalize outside_value
    ≡ err (exn canonicalization_error "integer outside interoperable range at $.a[0]")
unfolding jcs_runs
outside_lem = refl

-- A float equals the integer that it is.
one_lem : value_eq (float "1.0") (int (pos 1)) ≡ true
unfolding value_eq decimal
one_lem = refl

half_lem : value_eq (int (pos 1)) (float "1.5") ≡ false
unfolding value_eq decimal
half_lem = refl

zero_lem : value_eq (float "-0.0") (bool false) ≡ true
unfolding value_eq decimal
zero_lem = refl
