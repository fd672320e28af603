-- ===== src/Py/Json.antt =====
-- `json.dumps` with `ensure_ascii`, in the separators that the source uses.
use minority_prophet_border.Prelude.{
  String, [], code, if◌then◌else◌, ltb, none, some, ℕ, ◌%◌, ◌+◌, ◌-◌, ◌/◌, ◌∷◌,
}
use minority_prophet_border.Jcs.{compact, render}
use minority_prophet_border.Py.Value.{Value}
use minority_prophet_border.Py.Text.{append, codes, concat, hex_digit}

-- `\uXXXX`
unit_text : ℕ → String
unfolding hex_digit concat
unit_text n = concat (
    "\\u"
    ∷ hex_digit (n / 4096)
    ∷ hex_digit (n / 256 % 16)
    ∷ hex_digit (n / 16 % 16)
    ∷ hex_digit (n % 16)
    ∷ [])

ascii_char : ℕ → String → String
unfolding unit_text
ascii_char c same =
    if ltb c 0x7F
    then same
    else if ltb c 0x10000
    then unit_text c
    else append (unit_text (0xD800 + (c - 0x10000) / 1024))
        (unit_text (0xDC00 + (c - 0x10000) % 1024))

-- The characters outside ASCII, and DEL, stand only inside the quoted texts of a rendered value.
unfoldable pub to_ascii : String → String
unfolding ascii_char
to_ascii String.[] = ""
to_ascii (String.◌∷◌ c s) = append (ascii_char (code c) (String.◌∷◌ c String.[])) (to_ascii s)

-- `json.dumps(value, sort_keys=True, separators=(",", ":"))`
unfoldable pub dumps_sorted : Value → String
unfolding render
dumps_sorted v = to_ascii (render (compact codes) v)

-- `json.dumps(value, separators=(",", ":"))`
unfoldable pub dumps_compact : Value → String
unfolding render
dumps_compact v = to_ascii (render (record { between = ","; after_key = ":"; order = none }) v)

-- `json.dumps(value, sort_keys=True)`
unfoldable pub dumps_spaced : Value → String
unfolding render
dumps_spaced v =
    to_ascii (render (record { between = ", "; after_key = ": "; order = some codes }) v)
