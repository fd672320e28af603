-- ===== src/Py/Contains.antt =====
-- Python's `in`, on values of decoded JSON.
use minority_prophet_border.Prelude.{Bool, List, String, any, starts_with, ◌==◌, ◌||◌}
use minority_prophet_border.Py.Value.{Value, arr, has_key, keys, list_of, obj, str}
use minority_prophet_border.Py.Equality.{value_eq}
use minority_prophet_border.Py.Result.{Result, err, exn, ok, type_error}
use minority_prophet_border.Py.Bindings.{in_set}

-- `piece in text`, for two texts
abbrev pub has_piece : String → String → Bool
has_piece piece String.[] = piece == ""
has_piece piece (String.◌∷◌ c s) = starts_with (String.◌∷◌ c s) piece || has_piece piece s

abbrev pub any_equal : Value → List Value → Bool
any_equal v vs = any (λ w. value_eq w v) vs

-- `text in v` for any value
abbrev pub contains_text : String → Value → Result Bool
contains_text text (arr vs) = ok (any_equal (str text) (list_of vs))
contains_text text (obj d) = ok (has_key d text)
contains_text text (str s) = ok (has_piece text s)
contains_text text _ = err (exn type_error "argument is not iterable")

-- `v in container` for any values
abbrev pub contains_value : Value → Value → Result Bool
contains_value v (arr vs) = ok (any_equal v (list_of vs))
contains_value v (obj d) = in_set v (keys d)
contains_value (str s) (str text) = ok (has_piece s text)
contains_value v _ = err (exn type_error "argument is not iterable")
