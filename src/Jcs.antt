-- ===== src/Jcs.antt =====
-- border/jcs.py: the restricted RFC 8785 profile. `validate` refuses what lies outside the profile,
-- of decoded JSON values: a key that is no text and a value of another type are not among them.
-- `dumps` is `json.dumps(value, ensure_ascii=False, sort_keys=True, separators=(",", ":"))`.
pub mod Profile
pub mod Text
use minority_prophet_border.Prelude.{
  ℕ, ◌+◌, ◌/◌, ◌%◌, String, code, Bool, true, false, ◌&&◌, List, [], ◌∷◌, ◌++◌, map, any, leb, ltb,
  nat_eq, if◌then◌else◌, Option, none, some,
}
use minority_prophet_border.Prelude.Int.{ℤ, pos, negsuc, leb_ℤ}
use minority_prophet_border.Py.Result.{
  Result, ok, err, exn, Exn, canonicalization_error, raise_if, ◌>>◌, ◌>>=◌,
}
use minority_prophet_border.Py.Text.{
  append, concat, join, codes, decimal, decimal_ℤ, lt_codes, hex_digit,
}
use minority_prophet_border.Py.Value.{
  Value, null, bool, int, float, str, arr, obj, Items, nil, cons, Fields, end, field,
}

abbrev pub max_safe_integer : ℤ
max_safe_integer = pos 9_007_199_254_740_991

abbrev pub min_safe_integer : ℤ
min_safe_integer = negsuc 9_007_199_254_740_990

abbrev pub outside : List String → Exn
outside parts = exn canonicalization_error (concat parts)

-- Native texts hold scalar values alone, so on them this test never fires.
abbrev pub has_surrogate : String → Bool
has_surrogate s = any (λ c. leb 0xD800 c && leb c 0xDFFF) (codes s)

unfoldable pub validate_text : String → String → Result (Unit {0})
validate_text s path = raise_if (has_surrogate s) (outside ("lone surrogate at " ∷ path ∷ []))

unfoldable mutual
  unfolding validate_text

  pub validate : Value → String → Result (Unit {0})
  validate null path = ok tt
  validate (bool b) path = ok tt
  validate (str s) path = validate_text s path
  validate (int n) path =
      if leb_ℤ min_safe_integer n && leb_ℤ n max_safe_integer
      then ok tt
      else err (outside ("integer outside interoperable range at " ∷ path ∷ []))
  validate (float r) path = err (outside ("floating-point value forbidden at " ∷ path ∷ []))
  validate (arr vs) path = validate_items vs path 0
  validate (obj d) path = validate_fields d path

  pub validate_items : Items → String → ℕ → Result (Unit {0})
  validate_items nil path index = ok tt
  validate_items (cons v vs) path index = do
    validate v (concat (path ∷ "[" ∷ decimal index ∷ "]" ∷ []))
    validate_items vs path (index + 1)

  pub validate_fields : Fields → String → Result (Unit {0})
  validate_fields end path = ok tt
  validate_fields (field k v rest) path = do
    validate_text k (append path ".<key>")
    validate v (concat (path ∷ "." ∷ k ∷ []))
    validate_fields rest path

-- One character inside a JSON text.
escape : ℕ → String → String
unfolding hex_digit
escape c same =
    if nat_eq c 0x22
    then "\\\""
    else if nat_eq c 0x5C
    then "\\\\"
    else if nat_eq c 0x0A
    then "\\n"
    else if nat_eq c 0x0D
    then "\\r"
    else if nat_eq c 0x09
    then "\\t"
    else if nat_eq c 0x0C
    then "\\f"
    else if nat_eq c 0x08
    then "\\b"
    else if ltb c 0x20
    then concat ("\\u00" ∷ hex_digit (c / 16) ∷ hex_digit (c % 16) ∷ [])
    else same

escape_all : String → String
escape_all String.[] = ""
escape_all (String.◌∷◌ c s) = append (escape (code c) (String.◌∷◌ c String.[])) (escape_all s)

unfoldable pub quote : String → String
unfolding escape_all escape concat decimal
quote s = append "\"" (append (escape_all s) "\"")

-- The entries of a dictionary, each with its rendered value, in the order of their keys.
abbrev pub Entry : Type 0
Entry = String × String

abbrev pub insert_entry : (String → List ℕ) → Entry → List Entry → List Entry
insert_entry order e [] = e ∷ []
insert_entry order (k, t) ((j, u) ∷ rest) =
    if lt_codes (order k) (order j)
    then (k, t) ∷ (j, u) ∷ rest
    else (j, u) ∷ insert_entry order (k, t) rest

abbrev pub sort_entries : (String → List ℕ) → List Entry → List Entry
sort_entries order [] = []
sort_entries order (e ∷ rest) = insert_entry order e (sort_entries order rest)

-- `separators`, and the order of the keys: their insertion where there is none.
pub record Style : Type 0 where
  pub between : String
  pub after_key : String
  pub order : Option (String → List ℕ)

abbrev pub arrange : Option (String → List ℕ) → List Entry → List Entry
arrange none entries = entries
arrange (some order) entries = sort_entries order entries

abbrev pub render_entry : Style → Entry → String
render_entry style (k, t) = append (quote k) (append style.after_key t)

-- The text of a value, as `json.dumps(value, ensure_ascii=False, …)` writes it.
unfoldable mutual
  unfolding concat join decimal_ℤ quote

  pub render : Style → Value → String
  render style null = "null"
  render style (bool true) = "true"
  render style (bool false) = "false"
  render style (int n) = decimal_ℤ n
  render style (float r) = r
  render style (str s) = quote s
  render style (arr vs) = concat ("[" ∷ join style.between (render_items style vs) ∷ "]" ∷ [])
  render style (obj d) = concat (
      "{"
      ∷ join style.between (map (render_entry style) (arrange style.order (render_fields style d)))
      ∷ "}"
      ∷ [])

  pub render_items : Style → Items → List String
  render_items style nil = []
  render_items style (cons v vs) = render style v ∷ render_items style vs

  pub render_fields : Style → Fields → List Entry
  render_fields style end = []
  render_fields style (field k v rest) = (k, render style v) ∷ render_fields style rest

-- No space after a separator, and keys in this order.
abbrev pub compact : (String → List ℕ) → Style
compact order = record { between = ","; after_key = ":"; order = some order }

unfoldable pub dumps : Value → String
unfolding render
dumps v = render (compact codes) v

abbrev utf8 : ℕ → List ℕ
utf8 c =
    if ltb c 0x80
    then c ∷ []
    else if ltb c 0x800
    then (192 + c / 64) ∷ (128 + c % 64) ∷ []
    else if ltb c 0x10000
    then (224 + c / 4096) ∷ (128 + c / 64 % 64) ∷ (128 + c % 64) ∷ []
    else (240 + c / 262144) ∷ (128 + c / 4096 % 64) ∷ (128 + c / 64 % 64) ∷ (128 + c % 64) ∷ []

-- `text.encode("utf-8")`
unfoldable pub encode : String → List ℕ
encode String.[] = []
encode (String.◌∷◌ c s) = utf8 (code c) ++ encode s

unfoldable pub canonicalize : Value → Result (List ℕ)
unfolding validate dumps encode
canonicalize v = do validate v "$"; ok (encode (dumps v))
