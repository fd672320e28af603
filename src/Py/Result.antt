-- ===== src/Py/Result.antt =====
-- Python exceptions as values: what a function of the source returns or raises.
use minority_prophet_border.Prelude.{
  String, ◌≡◌, refl, ◌⊎◌, inl, inr, Bool, true, false, if◌then◌else◌,
}

-- The exception classes that the modelled files raise or let through.
pub data Class : Type 0 where
  value_error type_error key_error attribute_error : Class
  canonicalization_error admission_error adapter_error mandate_error : Class
  continuity_error link_error fixture_error receipt_error : Class
  -- an early `return` of a decision, carried to the end of the function
  early_return : Class

pub data Exn : Type 0 where
  exn : Class → String → Exn

pub data Result {ℓ} (Returned : Type ℓ) : Type ℓ where
  err : Exn → Result Returned
  ok : Returned → Result Returned

-- `if condition: raise exception`
abbrev pub raise_if : Bool → Exn → Result (Unit {0})
raise_if condition exception = if condition then err exception else ok tt

-- An exception ends the block.
infixl 5 ◌>>=◌ ◌>>◌
abbrev pub ◌>>=◌ {ℓ κ} :
    {First : Type ℓ} {Second : Type κ} → Result First → (First → Result Second) → Result Second
err exception >>= next = err exception
ok value >>= next = next value

abbrev pub ◌>>◌ {ℓ} : {Second : Type ℓ} → Result (Unit {0}) → Result Second → Result Second
first >> second = first >>= λ done. second

-- `a or b` and `a and b`, where `b` is an expression that may raise.
abbrev pub or_else : Bool → Result Bool → Result Bool
or_else a b = if a then ok true else b

abbrev pub and_then : Bool → Result Bool → Result Bool
and_then a b = if a then b else ok false

-- `try: result` with one `except` clause for the classes that `caught` names.
abbrev pub rescue {ℓ} :
    {Returned : Type ℓ}
    → (Class → Bool)
    → Result Returned
    → (Exn → Result Returned)
    → Result Returned
rescue caught (ok value) handler = ok value
rescue caught (err (exn c m)) handler = if caught c then handler (exn c m) else err (exn c m)

-- A result is a value or an exception; the equation is kept.
pub Result-cases {ℓ} :
    {Returned : Type ℓ} (result : Result Returned)
    → ((value : Returned) × (result ≡ ok value)) ⊎ ((exception : Exn) × (result ≡ err exception))
Result-cases (ok value) = inl (value, refl)
Result-cases (err exception) = inr (exception, refl)
