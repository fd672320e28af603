-- ===== src/Admission/Controller/Steps.antt =====
-- One decision, by whether the digest of the attempt exists and the nonce was admitted before.
use minority_prophet_border.Prelude.{String, eq_iff, ◌≡◌, Option, none, some, arith}
use minority_prophet_border.Platform.{Platform}
use minority_prophet_border.Py.Result.{Exn, Result, ok, err}
use minority_prophet_border.Py.Value.{Fields, get}
use minority_prophet_border.Py.Clock.{Time}
use minority_prophet_border.Admission.Validation.{Callbacks}
use minority_prophet_border.Admission.Controller.{
  AdmissionResult, Admissions, admitted, attempt_digest, fresh, replayed, previous_of, decide,
  with_state,
}

pub decide_new :
    (p : Platform) (callbacks : Callbacks) (declaration authority policy : Fields)
    (control : Option Fields) (now : Time) (s : Admissions) (attempt : String)
    → attempt_digest p declaration authority policy control ≡ ok attempt
    → previous_of (get declaration "nonce") s ≡ none
    → decide p callbacks declaration authority policy control now s
      ≡ fresh p callbacks declaration authority policy control attempt now s
unfolding decide
decide_new p callbacks declaration authority policy control now s attempt a new = rw (a, new)

pub decide_digest :
    (p : Platform) (callbacks : Callbacks) (declaration authority policy : Fields)
    (control : Option Fields) (now : Time) (s : Admissions) (e : Exn)
    → attempt_digest p declaration authority policy control ≡ err e
    → decide p callbacks declaration authority policy control now s ≡ err e
unfolding decide
decide_digest p callbacks declaration authority policy control now s e a = rw a

pub with_state-eq-ok {ℓ κ} :
    {S : Type ℓ} {A : Type κ} (s : S) (r : Result (A × S)) (a : A)
    → (with_state s r).0 ≡ ok a
    → r ≡ ok (a, (with_state s r).1)
with_state-eq-ok s (ok (b, t)) a h = ground arith
with_state-eq-ok s (err e) a h = cc

pub decide_old :
    (p : Platform) (callbacks : Callbacks) (declaration authority policy : Fields)
    (control : Option Fields) (now : Time) (s : Admissions) (attempt : String)
    (entry : String × Fields)
    → attempt_digest p declaration authority policy control ≡ ok attempt
    → previous_of (get declaration "nonce") s ≡ some entry
    → decide p callbacks declaration authority policy control now s ≡ replayed attempt entry s
unfolding decide
decide_old p callbacks declaration authority policy control now s attempt entry a old = rw (a, old)

pub replayed-eq-ok :
    (attempt : String) (entry : String × Fields) (s t : Admissions) (result : AdmissionResult)
    → replayed attempt entry s ≡ ok (result, t)
    → (entry.0 ≡ attempt) × (result ≡ admitted entry.1) × (t ≡ s)
unfolding replayed
replayed-eq-ok attempt (previous, receipt) s t result h =
    (ground (arith, eq_iff previous attempt), ground arith, ground arith)
