-- ===== src/Tests/Runtime.antt =====
-- A platform that computes: a polynomial hash in place of SHA-256, and times written in digits.
use minority_prophet_border.Prelude.{
  ℕ, ◌+◌, ◌-◌, ◌*◌, ◌%◌, String, starts_with, Option, none, some, List, [], ◌∷◌, if◌then◌else◌,
  count, suc, zero,
}
use minority_prophet_border.Py.Text.{append, decimal, codes, drop_chars}
use minority_prophet_border.Py.Clock.{Time, utc}
use minority_prophet_border.Platform.{Platform}

unfoldable pub hash_from : ℕ → List ℕ → ℕ
hash_from h [] = h
hash_from h (b ∷ bs) = hash_from ((h * 257 + b) % 1000000007) bs

unfoldable pub digits_value : ℕ → List ℕ → ℕ
digits_value n [] = n
digits_value n (c ∷ cs) = digits_value (n * 10 + (c - 48)) cs

-- "@17" is the aware time of instant 17; anything else is no time.
unfoldable pub parse_at : String → Option Time
parse_at s =
    if starts_with s "@"
    then some (record { instant = digits_value 0 (codes (drop_chars 1 s)); zone = some utc })
    else none

abbrev pub runtime : Platform
runtime = record {
  sha256 = λ bytes. decimal (hash_from 7 bytes);
  hmac_sha256 = λ key bytes. hash_from (hash_from 3 key) bytes ∷ [];
  fromisoformat = parse_at;
  isoformat = λ t. append "@" (decimal t.instant);
  b64encode = λ bytes. decimal (hash_from 1 bytes);
  b64decode = λ text. none;
  json_loads = λ bytes. none;
}

-- A hash in the shape of SHA-256's: the digits stand after zeros, sixty-four in all.
unfoldable pub padded : ℕ → String → String
padded zero s = s
padded (suc n) s = let rest = padded n s in append "0" rest

abbrev pub hex_runtime : Platform
hex_runtime = record {
  sha256 = λ bytes. let s = decimal (hash_from 7 bytes) in padded (64 - count s) s;
  hmac_sha256 = λ key bytes. hash_from (hash_from 3 key) bytes ∷ [];
  fromisoformat = parse_at;
  isoformat = λ t. append "@" (decimal t.instant);
  b64encode = λ bytes. decimal (hash_from 1 bytes);
  b64decode = λ text. none;
  json_loads = λ bytes. none;
}

-- Opens what a run computes with.
unfoldable pub runs : Unit {0}
unfolding hash_from digits_value parse_at decimal padded
runs = tt
