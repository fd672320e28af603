-- ===== src/Py/Bindings.antt =====
-- Shapes that recur in the source: missing fields, loops that compare fields with expected values,
-- RFC 3339 fields and time windows. The exception's class is the module's own.
pub mod Laws
use minority_prophet_border.Prelude.{
  String, Bool, true, false, not, ◌&&◌, ◌||◌, Option, none, some, List, [], ◌∷◌, length, nat_eq,
  if◌then◌else◌, ◌==◌,
}
use minority_prophet_border.Platform.{Platform}
use minority_prophet_border.Py.Result.{
  Class, Exn, exn, type_error, Result, ok, err, raise_if, and_then, ◌>>=◌, ◌>>◌,
}
use minority_prophet_border.Py.Text.{concat, join, replace}
use minority_prophet_border.Py.Value.{
  Value, str, arr, obj, Fields, get, item, has_key, is_blank, mem, Items, cons, keys_are, nil,
}
use minority_prophet_border.Py.Equality.{value_eq}
use minority_prophet_border.Py.Clock.{Time, is_naive, le_time, lt_time, utc}

-- `[field for field in fields if field not in record or record[field] in (None, "")]`
abbrev pub missing_fields : Fields → List String → List String
missing_fields rec [] = []
missing_fields rec (f ∷ fs) =
    let rest = missing_fields rec fs in
    if not (has_key rec f) || is_blank (get rec f) then f ∷ rest else rest

abbrev pub is_empty {ℓ} : {A : Type ℓ} → List A → Bool
is_empty [] = true
is_empty (x ∷ xs) = false

-- `_required(record, fields, label)` for a record that is an object
unfoldable pub required : Class → String → Fields → List String → Result (Unit {0})
unfolding concat join
required cls label rec fields =
    let missing = missing_fields rec fields in
    raise_if (not (is_empty missing))
      (exn cls (concat (label ∷ " missing: " ∷ join ", " missing ∷ [])))

-- `for field, value in expected.items(): if record[field] != value: raise …`
unfoldable pub match_items : (String → Exn) → Fields → List (String × Value) → Result (Unit {0})
match_items mismatch rec [] = ok tt
match_items mismatch rec ((f, v) ∷ rest) = do
  actual ← item rec f
  raise_if (not (value_eq actual v)) (mismatch f)
  match_items mismatch rec rest

-- The same loop over `record.get(field)`.
unfoldable pub match_gets : (String → Exn) → Fields → List (String × Value) → Result (Unit {0})
match_gets mismatch rec [] = ok tt
match_gets mismatch rec ((f, v) ∷ rest) = do
  raise_if (not (value_eq (get rec f) v)) (mismatch f)
  match_gets mismatch rec rest

-- `v in {…}` for a set of texts; a list or a dict has no hash.
abbrev pub in_set : Value → List String → Result Bool
in_set (arr vs) names = err (exn type_error "unhashable type")
in_set (obj d) names = err (exn type_error "unhashable type")
in_set (str s) names = ok (mem s names)
in_set _ names = ok false

-- An RFC 3339 field with a time zone.
unfoldable pub parse_time : Platform → Class → Value → String → Result Time
unfolding concat replace
parse_time p cls (str s) name = elim (p.fromisoformat (replace s "Z" "+00:00")) [
  | none ↦ err (exn cls (concat ("invalid " ∷ name ∷ [])))
  | some t ↦
      if is_naive t then err (exn cls (concat (name ∷ " must include a timezone" ∷ []))) else ok t
]
parse_time p cls _ name = err (exn cls (concat (name ∷ " must be an RFC 3339 string" ∷ [])))

-- `starts <= now < expires`
abbrev pub in_window : Time → Time → Time → Result Bool
in_window starts now expires = do
  started ← le_time starts now
  and_then started (lt_time now expires)

-- `t.isoformat().replace("+00:00", "Z")`
unfoldable pub format_time : Platform → Time → String
unfolding replace
format_time p t = replace (p.isoformat t) "+00:00" "Z"

-- `not isinstance(v, dict) or set(v) != names` raises.
abbrev pub exact_fields : Exn → List String → Value → Result Fields
exact_fields e names (obj d) = if keys_are d names then ok d else err e
exact_fields e names _ = err e

-- `_time` where it ends in `astimezone(timezone.utc)`
abbrev pub to_utc : Time → Time
to_utc t = record { instant = t.instant; zone = some utc }

unfoldable pub parse_utc : Platform → Class → Value → String → Result Time
parse_utc p cls v name = do t ← parse_time p cls v name; ok (to_utc t)

-- `len(values) != len(set(values))`
abbrev pub has_duplicates : List String → Bool
has_duplicates [] = false
has_duplicates (x ∷ xs) = mem x xs || has_duplicates xs

-- A list of texts, none of them empty; `none` for any other value.
abbrev pub texts_of : Items → Option (List String)
texts_of nil = some []
texts_of (cons (str s) vs) = elim (texts_of vs) [
  | none ↦ none
  | some ts ↦ if s == "" then none else some (s ∷ ts)
]
texts_of (cons _ vs) = none

-- `v in texts` for a tuple of texts
abbrev pub value_in : Value → List String → Bool
value_in (str s) texts = mem s texts
value_in _ texts = false
