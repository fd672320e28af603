-- ===== src/Py/Value.antt =====
-- The values of decoded JSON, and the dictionary operations that the source uses on them.
use minority_prophet_border.Prelude.{
  String, ◌==◌, Bool, true, false, not, ◌&&◌, ◌||◌, Option, none, some, List, [], ◌∷◌, map, all,
  if◌then◌else◌,
}
use minority_prophet_border.Prelude.Int.{ℤ, pos, eqb_ℤ}
use minority_prophet_border.Py.Result.{Result, ok, err, exn, key_error, type_error, attribute_error}
use minority_prophet_border.Py.Text.{chars}

-- A `float` is carried by its `repr`. A `dict` keeps the order of insertion.
mutual
  -- `{key: value, …}`
  pub data Fields : Type 0 where
    field : String → Value → Fields → Fields
    end : Fields

  -- `[value, …]`
  pub data Items : Type 0 where
    cons : Value → Items → Items
    nil : Items

  pub data Value : Type 0 where
    obj : Fields → Value
    arr : Items → Value
    str : String → Value
    float : String → Value
    int : ℤ → Value
    bool : Bool → Value
    null : Value

abbrev pub items_of : List Value → Items
items_of [] = nil
items_of (v ∷ vs) = cons v (items_of vs)

abbrev pub list_of : Items → List Value
list_of nil = []
list_of (cons v vs) = v ∷ list_of vs

abbrev pub dict : List (String × Value) → Fields
dict [] = end
dict ((k, v) ∷ rest) = field k v (dict rest)

abbrev pub list : List Value → Value
list vs = arr (items_of vs)

abbrev pub keys : Fields → List String
keys end = []
keys (field k v rest) = k ∷ keys rest

abbrev pub lookup : String → Fields → Option Value
lookup k end = none
lookup k (field j v rest) = if j == k then some v else lookup k rest

abbrev pub mem : String → List String → Bool
mem s [] = false
mem s (t ∷ rest) = t == s || mem s rest

-- `key in d`
abbrev pub has_key : Fields → String → Bool
has_key d k = mem k (keys d)

-- `d.get(key)` and `d.get(key, default)`
abbrev pub get_or : Fields → String → Value → Value
get_or d k default = elim (lookup k d) [ none ↦ default | some v ↦ v ]

abbrev pub get : Fields → String → Value
get d k = get_or d k null

-- `d[key]`
abbrev pub item : Fields → String → Result Value
item d k = elim (lookup k d) [ none ↦ err (exn key_error k) | some v ↦ ok v ]

-- `v[key]` for a text key, where `v` is any value
abbrev pub subscript : Value → String → Result Value
subscript (obj d) k = item d k
subscript _ k = err (exn type_error "not a mapping")

-- `v.get(key)`, where `v` is any value
abbrev pub attr_get : Value → String → Result Value
attr_get (obj d) k = ok (get d k)
attr_get _ k = err (exn attribute_error "get")

-- `d[key] = v`, which keeps the place of a key that is there
unfoldable pub put : String → Value → Fields → Fields
put k v end = field k v end
put k v (field j w rest) = if j == k then field k v rest else field j w (put k v rest)

-- `{key: value for key, value in d.items() if key != k}`
unfoldable pub without : String → Fields → Fields
without k end = end
without k (field j v rest) = let kept = without k rest in if j == k then kept else field j v kept

-- `set(d) == names`, for distinct names
abbrev pub keys_are : Fields → List String → Bool
keys_are d names = all (λ k. mem k names) (keys d) && all (λ k. mem k (keys d)) names

-- `for x in v`: a list gives its elements, a dict its keys, a text its characters.
abbrev pub iterate : Value → Result (List Value)
iterate (arr vs) = ok (list_of vs)
iterate (obj d) = ok (map str (keys d))
iterate (str s) = ok (map str (chars s))
iterate _ = err (exn type_error "not iterable")

-- `bool(v)`
abbrev pub truthy : Value → Bool
truthy null = false
truthy (bool b) = b
truthy (int n) = not (eqb_ℤ n (pos 0))
truthy (float r) = not (r == "0.0" || r == "-0.0")
truthy (str s) = not (s == "")
truthy (arr nil) = false
truthy (arr _) = true
truthy (obj end) = false
truthy (obj _) = true

-- `v in (None, "")`
abbrev pub is_blank : Value → Bool
is_blank null = true
is_blank (str s) = s == ""
is_blank _ = false

-- `isinstance(v, …)`; a `bool` is an `int` to Python
abbrev pub is_str : Value → Bool
is_str (str _) = true
is_str _ = false

abbrev pub is_dict : Value → Bool
is_dict (obj _) = true
is_dict _ = false

abbrev pub is_list : Value → Bool
is_list (arr _) = true
is_list _ = false

abbrev pub is_null : Value → Bool
is_null null = true
is_null _ = false

abbrev pub optional : Option Fields → Value
optional none = null
optional (some d) = obj d
