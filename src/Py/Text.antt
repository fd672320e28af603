-- ===== src/Py/Text.antt =====
-- Python's `str`: joining, slicing, `startswith`, `removeprefix`, `replace`, `split` and decimals.
use Prim.Native.String
use Prim.Native.Char.{code}
use minority_prophet_border.Prelude.{
  ◌&&◌, Bool, true, false, ℕ, zero, suc, ◌-◌, ◌/◌, ◌%◌, String, count, starts_with, List, [], ◌∷◌,
  ltb, nat_eq, if◌then◌else◌,
}
use minority_prophet_border.Prelude.Int.{ℤ, pos, negsuc}

abbrev pub append : String → String → String
append s t = String.◌++◌ s t

-- `"".join(parts)`, which also models f-strings
unfoldable pub concat : List String → String
concat [] = ""
concat (s ∷ rest) = append s (concat rest)

-- `separator.join(parts)`
unfoldable pub join : String → List String → String
join separator [] = ""
join separator (s ∷ []) = s
join separator (s ∷ t ∷ rest) = append s (append separator (join separator (t ∷ rest)))

abbrev pub codes : String → List ℕ
codes String.[] = []
codes (String.◌∷◌ c s) = code c ∷ codes s

abbrev pub chars : String → List String
chars String.[] = []
chars (String.◌∷◌ c s) = String.◌∷◌ c String.[] ∷ chars s

-- `text[n:]`
abbrev pub drop_chars : ℕ → String → String
drop_chars zero s = s
drop_chars (suc n) String.[] = String.[]
drop_chars (suc n) (String.◌∷◌ c s) = drop_chars n s

-- `text[-n:]`
abbrev pub last_chars : ℕ → String → String
last_chars n s = if ltb (count s) n then s else drop_chars (count s - n) s

unfoldable pub removeprefix : String → String → String
removeprefix s prefix = if starts_with s prefix then drop_chars (count prefix) s else s

-- `text.split(separator)` for a separator of one character, its code
split_from : String → ℕ → String → List String
split_from piece separator String.[] = piece ∷ []
split_from piece separator (String.◌∷◌ c s) =
    let closed = piece ∷ split_from "" separator s in
    let longer = split_from (append piece (String.◌∷◌ c String.[])) separator s in
    if nat_eq (code c) separator then closed else longer

unfoldable pub split : String → ℕ → List String
unfolding split_from
split s separator = split_from "" separator s

digit_text : ℕ → String
digit_text n =
    if nat_eq n 0
    then "0"
    else if nat_eq n 1
    then "1"
    else if nat_eq n 2
    then "2"
    else if nat_eq n 3
    then "3"
    else if nat_eq n 4
    then "4"
    else if nat_eq n 5
    then "5"
    else if nat_eq n 6
    then "6"
    else if nat_eq n 7
    then "7"
    else if nat_eq n 8
    then "8"
    else "9"

-- `n + 1` rounds are enough, since each divides by ten.
decimal_loop : ℕ → ℕ → String → String
decimal_loop zero n tail = tail
decimal_loop (suc fuel) n tail =
    let more = decimal_loop fuel (n / 10) (append (digit_text (n % 10)) tail) in
    if ltb n 10 then append (digit_text n) tail else more

-- `str(n)`
unfoldable pub decimal : ℕ → String
unfolding decimal_loop digit_text
decimal n = decimal_loop (suc n) n ""

-- One hexadecimal digit, of a number below sixteen
unfoldable pub hex_digit : ℕ → String
unfolding decimal
hex_digit n =
    if nat_eq n 10
    then "a"
    else if nat_eq n 11
    then "b"
    else if nat_eq n 12
    then "c"
    else if nat_eq n 13
    then "d"
    else if nat_eq n 14
    then "e"
    else if nat_eq n 15
    then "f"
    else decimal n

unfoldable pub decimal_ℤ : ℤ → String
unfolding decimal
decimal_ℤ (pos n) = decimal n
decimal_ℤ (negsuc n) = append "-" (decimal (suc n))

-- `text.replace(old, new)` for a non-empty `old`; `skip` characters of an occurrence are left to drop.
replace_from : String → String → ℕ → String → String
replace_from old new skip String.[] = ""
replace_from old new skip (String.◌∷◌ c s) =
    let hit = nat_eq skip 0 && starts_with (String.◌∷◌ c s) old in
    let rest = replace_from old new (if hit then count old - 1 else skip - 1) s in
    if hit then append new rest else if nat_eq skip 0 then String.◌∷◌ c rest else rest

unfoldable pub replace : String → String → String → String
unfolding replace_from
replace s old new = replace_from old new 0 s

-- Python orders texts by their code points.
abbrev pub lt_codes : List ℕ → List ℕ → Bool
lt_codes [] [] = false
lt_codes [] (d ∷ ds) = true
lt_codes (c ∷ cs) [] = false
lt_codes (c ∷ cs) (d ∷ ds) = if nat_eq c d then lt_codes cs ds else ltb c d
