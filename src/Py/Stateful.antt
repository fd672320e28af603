-- ===== src/Py/Stateful.antt =====
-- Code that calls back into a host that keeps a state: a step gives a result and the state after it,
-- also where it raises.
use minority_prophet_border.Py.Result.{Class, Exn, Result, err, exn, ok}
use minority_prophet_border.Prelude.{Bool, if◌then◌else◌, Bool-cases, inl, inr, refl, ◌≡◌, ◌⊎◌}

abbrev pub Stateful {ℓ κ} : Type ℓ → Type κ → Type (ℓ ⊔ κ)
Stateful S A = S → Result A × S

module _ {ℓ κ} {S : Type ℓ} where
  abbrev pub lift : {A : Type κ} → Result A → Stateful S A
  lift result s = (result, s)

  abbrev pub next {μ} : {A : Type κ} {B : Type μ} → Result A × S → (A → Stateful S B) → Result B × S
  next (ok a, s) rest = rest a s
  next (err e, s) rest = (err e, s)

  infixl 5 ◌>>=◌
  abbrev pub ◌>>=◌ {μ} :
      {A : Type κ} {B : Type μ} → Stateful S A → (A → Stateful S B) → Stateful S B
  (first >>= rest) s = next (first s) rest

  -- `try: body` with one `except` clause for the classes that `caught` names
  abbrev pub recovered : {A : Type κ} → (Class → Bool) → (Exn → A) → Result A × S → Result A × S
  recovered caught handler (ok a, s) = (ok a, s)
  recovered caught handler (err (exn c m), s) =
      if caught c then (ok (handler (exn c m)), s) else (err (exn c m), s)

-- What a step ends in; the equation is kept.
pub Step-cases {ℓ κ} :
    {S : Type ℓ} {A : Type κ} (step : Result A × S)
    → ((a : A) × (s : S) × (step ≡ (ok a, s))) ⊎ ((e : Exn) × (s : S) × (step ≡ (err e, s)))
Step-cases (ok a, s) = inl (a, s, refl)
Step-cases (err e, s) = inr (e, s, refl)

pub recovered-state {ℓ κ} :
    {S : Type ℓ} {A : Type κ} (caught : Class → Bool) (handler : Exn → A) (step : Result A × S)
    → (recovered caught handler step).1 ≡ step.1
recovered-state caught handler (ok a, s) = refl
recovered-state caught handler (err (exn c m), s) = elim (Bool-cases (caught c)) [
  | inl y ↦ rw y refl
  | inr n ↦ rw n refl
]
