-- ===== src/Crossing/Json.antt =====
-- conformance/a2a-mcp-crossing-v2/runner/reference.py: canonical JSON with keys in the order of their
-- UTF-16 code units, digests and times.
use minority_prophet_border.Py.Value.{
  Fields, Items, Value, arr, bool, cons, end, field, float, int, nil, null, obj, str,
}
use minority_prophet_border.Py.Result.{
  Exn, Result, err, exn, fixture_error, ok, raise_if, value_error, ◌>>=◌, ◌>>◌,
}
use minority_prophet_border.Jcs.{encode, max_safe_integer, render, compact}
use minority_prophet_border.Py.Clock.{Time, is_naive}
use minority_prophet_border.Prelude.{
  List, String, [], any, if◌then◌else◌, leb, ltb, none, not, some, ℕ, ◌%◌, ◌&&◌, ◌+◌, ◌-◌, ◌/◌, ◌∷◌,
}
use minority_prophet_border.Py.Text.{codes, replace}
use minority_prophet_border.Prelude.Int.{neg_part, pos_part}
use minority_prophet_border.Platform.{Platform}
use minority_prophet_border.Py.Bindings.{to_utc}

abbrev pub invalid : String → Exn
invalid message = exn fixture_error message

validate_text : String → Result (Unit {0})
validate_text s =
    raise_if (any (λ c. leb 0xD800 c && leb c 0xDFFF) (codes s))
      (invalid "Unicode surrogate code points are invalid fixture input")

unfoldable mutual
  unfolding validate_text

  pub validate_json : Value → Result (Unit {0})
  validate_json (float r) = err (invalid "floating-point JSON is invalid fixture input")
  validate_json (int n) =
      raise_if
        (not (
          leb (pos_part n) (pos_part max_safe_integer)
          && leb (neg_part n) (pos_part max_safe_integer)))
        (invalid "integer exceeds the interoperable safe range")
  validate_json (str s) = validate_text s
  validate_json (obj d) = validate_json_fields d
  validate_json (arr vs) = validate_json_items vs
  validate_json null = ok tt
  validate_json (bool b) = ok tt

  pub validate_json_items : Items → Result (Unit {0})
  validate_json_items nil = ok tt
  validate_json_items (cons v vs) = do validate_json v; validate_json_items vs

  pub validate_json_fields : Fields → Result (Unit {0})
  validate_json_fields end = ok tt
  validate_json_fields (field k v rest) = do
    validate_text k
    validate_json v
    validate_json_fields rest

-- `value.encode("utf-16-be")`, by code units
abbrev utf16_units : List ℕ → List ℕ
utf16_units [] = []
utf16_units (c ∷ cs) =
    let rest = utf16_units cs in
    if ltb c 0x10000
    then c ∷ rest
    else (0xD800 + (c - 0x10000) / 1024) ∷ (0xDC00 + (c - 0x10000) % 1024) ∷ rest

abbrev pub utf16 : String → List ℕ
utf16 s = utf16_units (codes s)

unfoldable pub canonical_text : Value → String
unfolding render
canonical_text v = render (compact utf16) v

unfoldable pub canonical_bytes : Value → Result (List ℕ)
unfolding validate_json canonical_text encode
canonical_bytes v = do validate_json v; ok (encode (canonical_text v))

unfoldable pub digest : Platform → Value → Result String
digest p v = do bytes ← canonical_bytes v; ok (p.sha256 bytes)

unfoldable pub crossing_time : Platform → String → Result Time
unfolding replace
crossing_time p s = elim (p.fromisoformat (replace s "Z" "+00:00")) [
  | none ↦ err (exn value_error "Invalid isoformat string")
  | some t ↦ if is_naive t then err (invalid "timestamps require an offset") else ok (to_utc t)
]
