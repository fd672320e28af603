-- ===== src/Py/Chain.antt =====
-- A chain of steps that has given a result, taken apart at its first step.
use minority_prophet_border.Py.Result.{◌>>=◌, ◌>>◌, Result, err, ok, Exn, raise_if}
use minority_prophet_border.Prelude.{Bool, false, not, refl, true, ◌≡◌}

pub first_ok :
    {A : Type 0} (first : Result (Unit {0})) (rest : Result A) {x : A}
    → (first >> rest) ≡ ok x
    → (first ≡ ok tt) × (rest ≡ ok x)
first_ok (ok done) rest h = (refl, h)
first_ok (err e) rest h = absurd cc

pub first_some :
    {A B : Type 0} (first : Result A) (rest : A → Result B) {x : B}
    → (first >>= rest) ≡ ok x
    → (a : A) × (first ≡ ok a) × (rest a ≡ ok x)
first_some (ok a) rest h = (a, refl, h)
first_some (err e) rest h = absurd cc

-- A guard that the chain came past held.
pub guarded :
    {A : Type 0} (b : Bool) (e : Exn) (rest : Result A) {x : A}
    → (raise_if (not b) e >> rest) ≡ ok x
    → (b ≡ true) × (rest ≡ ok x)
guarded true e rest h = (refl, h)
guarded false e rest h = absurd cc

pub unraised :
    {A : Type 0} (b : Bool) (e : Exn) (rest : Result A) {x : A}
    → (raise_if b e >> rest) ≡ ok x
    → (b ≡ false) × (rest ≡ ok x)
unraised false e rest h = (refl, h)
unraised true e rest h = absurd cc

pub last_unraised : (b : Bool) (e : Exn) → raise_if b e ≡ ok tt → b ≡ false
last_unraised false e h = refl
last_unraised true e h = absurd cc

pub not-eq-false : (b : Bool) → not b ≡ false → b ≡ true
not-eq-false true h = refl
not-eq-false false h = absurd cc
