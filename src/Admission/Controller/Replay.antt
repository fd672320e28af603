-- ===== src/Admission/Controller/Replay.antt =====
-- A text nonce admits one attempt, in any history of calls.
use minority_prophet_border.Prelude.{
  String, ◌==◌, eq_iff, eq_refl, ◌≡◌, refl, sym, ◌∙◌, Bool-cases, inl, inr, true, false, Option,
  none, some, List, [], ◌∷◌, arith, if◌then◌else◌, Option-cases,
}
use minority_prophet_border.Platform.{Platform}
use minority_prophet_border.Py.Result.{Result, ok, err, Result-cases}
use minority_prophet_border.Py.Value.{Value, null, bool, int, float, str, arr, obj, Fields, get}
use minority_prophet_border.Py.Equality.{value_eq}
use minority_prophet_border.Py.Clock.{Time}
use minority_prophet_border.Admission.Base.{refused}
use minority_prophet_border.Admission.Validation.{Callbacks}
use minority_prophet_border.Admission.Controller.{
  AdmissionResult, Admissions, admitted, attempt_digest, find, store, fresh, replayed, previous_of,
  decide, admit,
}
use minority_prophet_border.Admission.Controller.Steps.{
  decide_new, decide_old, decide_digest, replayed-eq-ok, with_state-eq-ok,
}

find-store_self :
    (n : String) (entry : String × Fields) (s : Admissions)
    → find (str n) (store (str n) entry s) ≡ some entry
unfolding find store value_eq
find-store_self n entry [] = ground (arith, eq_refl n)
find-store_self n entry ((key, digest, receipt) ∷ rest) =
    ground (arith, find-store_self n entry rest)

-- A key equal to `m` is equal to a text exactly when `m` is.
value_eq_text :
    (key m : Value) (n : String)
    → value_eq key m ≡ true
    → value_eq m (str n) ≡ false
    → value_eq key (str n) ≡ false
unfolding value_eq
value_eq_text (str k) (str l) n h d = ground (arith, eq_iff k l)
value_eq_text (str k) _ n h d = cc
value_eq_text _ m n h d = refl

find-store_ne :
    (m : Value) (n : String) (entry : String × Fields) (s : Admissions)
    → value_eq m (str n) ≡ false
    → find (str n) (store m entry s) ≡ find (str n) s
unfolding find store
find-store_ne m n entry [] d = ground arith
find-store_ne m n entry ((key, digest, receipt) ∷ rest) d =
    ground (arith, find-store_ne m n entry rest d, value_eq_text key m n)

module _ (p : Platform) (callbacks : Callbacks) (declaration authority policy : Fields)
    (control : Option Fields) (attempt : String) (now : Time) (s : Admissions) where
  fresh-secondary :
      (result : AdmissionResult) (t : Admissions)
      → fresh p callbacks declaration authority policy control attempt now s ≡ ok (result, t)
      → result.receipt ≡ none
      → t ≡ s
  unfolding fresh
  fresh-secondary result t h e = ground arith

  fresh-admitted :
      (result : AdmissionResult) (t : Admissions) (receipt : Fields)
      → fresh p callbacks declaration authority policy control attempt now s ≡ ok (result, t)
      → result.receipt ≡ some receipt
      → (result ≡ admitted receipt) × (t ≡ store (get declaration "nonce") (attempt, receipt) s)
  unfolding fresh
  fresh-admitted result t receipt h e = (ground arith, ground arith)

-- A nonce with no previous admission differs from every admitted text nonce.
previous_of-ne :
    (m : Value) (n : String) (s : Admissions) (entry : String × Fields)
    → previous_of m s ≡ none
    → find (str n) s ≡ some entry
    → value_eq m (str n) ≡ false
unfolding value_eq
previous_of-ne (str k) n s entry new old = elim (Bool-cases (k == n)) [
  | inl same ↦ absurd (cc ((eq_iff k n).0 same))
  | inr other ↦ other
]
previous_of-ne null n s entry new old = refl
previous_of-ne (bool b) n s entry new old = refl
previous_of-ne (int i) n s entry new old = refl
previous_of-ne (float r) n s entry new old = refl
previous_of-ne (arr vs) n s entry new old = refl
previous_of-ne (obj d) n s entry new old = refl

module _ (p : Platform) (callbacks : Callbacks) (declaration authority policy : Fields)
    (control : Option Fields) (now : Time) (s : Admissions) where
  fresh-find :
      (n attempt : String) (entry : String × Fields) (result : AdmissionResult) (t : Admissions)
      → previous_of (get declaration "nonce") s ≡ none
      → find (str n) s ≡ some entry
      → fresh p callbacks declaration authority policy control attempt now s ≡ ok (result, t)
      → find (str n) t ≡ some entry
  fresh-find n attempt entry result t new old h = elim (Option-cases result.receipt) [
    | inl e ↦
        rw
          (fresh-secondary p callbacks declaration authority policy control attempt now s result t h
            e)
          old
    | inr (receipt, e) ↦
        let (_, stored) =
          fresh-admitted p callbacks declaration authority policy control attempt now s result t
            receipt h e in
        rw stored (
          find-store_ne (get declaration "nonce") n (attempt, receipt) s
            (previous_of-ne (get declaration "nonce") n s entry new old)
          ∙ old)
  ]

  decide-find :
      (n : String) (entry : String × Fields) (result : AdmissionResult) (t : Admissions)
      → find (str n) s ≡ some entry
      → decide p callbacks declaration authority policy control now s ≡ ok (result, t)
      → find (str n) t ≡ some entry
  decide-find n entry result t old h =
      elim (Result-cases (attempt_digest p declaration authority policy control)) [
        | inl (attempt, a) ↦ elim (Option-cases (previous_of (get declaration "nonce") s)) [
          | inl new ↦ fresh-find n attempt entry result t new old (
              sym (decide_new p callbacks declaration authority policy control now s attempt a new)
              ∙ h)
          | inr (before, again) ↦
              rw
                ((replayed-eq-ok attempt before s t result (
                  sym (
                    decide_old p callbacks declaration authority policy control now s attempt before
                      a again)
                  ∙ h)).2)
                old
        ]
        | inr (x, a) ↦ absurd (
            ground
              (arith, decide_digest p callbacks declaration authority policy control now s x a))
      ]

  -- No call changes what is stored under a text nonce.
  pub admit-find :
      (n : String) (entry : String × Fields)
      → find (str n) s ≡ some entry
      → find (str n) (admit p callbacks declaration authority policy control now s).1 ≡ some entry
  unfolding admit
  admit-find n entry old =
      elim (Result-cases (decide p callbacks declaration authority policy control now s)) [
        | inl ((result, t), e) ↦ rw e (decide-find n entry result t old e)
        | inr (x, e) ↦ rw e old
      ]

-- One call of `admit` with everything that it is given.
pub record Attempt : Type 0 where
  pub declaration : Fields
  pub authority : Fields
  pub policy : Fields
  pub control : Option Fields
  pub now : Time

module _ (p : Platform) (callbacks : Callbacks) where
  abbrev pub admit_one : Attempt → Admissions → Result AdmissionResult × Admissions
  admit_one a s = admit p callbacks a.declaration a.authority a.policy a.control a.now s

  -- The admissions after a history of calls, whatever they return or raise.
  pub run : Admissions → List Attempt → Admissions
  run s [] = s
  run s (a ∷ rest) = run (admit_one a s).1 rest

  run-find :
      (n : String) (entry : String × Fields) (s : Admissions) (history : List Attempt)
      → find (str n) s ≡ some entry
      → find (str n) (run s history) ≡ some entry
  unfolding run
  run-find n entry s [] old = old
  run-find n entry s (a ∷ rest) old =
      run-find n entry (admit_one a s).1 rest
        (admit-find p callbacks a.declaration a.authority a.policy a.control a.now s n entry old)

  abbrev settled : String × Fields → String → Result AdmissionResult
  settled (digest, receipt) attempt =
      if digest == attempt
      then ok (admitted receipt)
      else err (refused "declaration nonce replay with substituted material")

  admit_settled :
      (again : Attempt) (n attempt : String) (entry : String × Fields) (s : Admissions)
      → find (str n) s ≡ some entry
      → get again.declaration "nonce" ≡ str n
      → attempt_digest p again.declaration again.authority again.policy again.control ≡ ok attempt
      → admit_one again s ≡ (settled entry attempt, s)
  unfolding admit replayed
  admit_settled again n attempt entry s old named digest =
      rw
        (decide_old p callbacks again.declaration again.authority again.policy again.control
          again.now s attempt entry digest (rw named old))
        (ground arith)

  -- A first admission of a text nonce settles it: after any further history of calls, an attempt
  -- with that nonce gets the first receipt if its digest is that of the admitted attempt, and is
  -- refused as a replay if it is not, whatever the clock and the callbacks say; either way the
  -- admissions stay as they are.
  pub admit-settles :
      (first again : Attempt) (s : Admissions) (n digest attempt : String) (receipt : Fields)
      (history : List Attempt)
      → get first.declaration "nonce" ≡ str n
      → find (str n) s ≡ none
      → attempt_digest p first.declaration first.authority first.policy first.control ≡ ok digest
      → (admit_one first s).0 ≡ ok (admitted receipt)
      → get again.declaration "nonce" ≡ str n
      → attempt_digest p again.declaration again.authority again.policy again.control ≡ ok attempt
      → admit_one again (run (admit_one first s).1 history) ≡ (
        if digest == attempt
            then ok (admitted receipt)
            else err (refused "declaration nonce replay with substituted material"),
        run (admit_one first s).1 history,
      )
  unfolding admit
  admit-settles first again s n digest attempt receipt history named new a h named' a' =
      let d =
        with_state-eq-ok s
          (decide p callbacks first.declaration first.authority first.policy first.control first.now
            s)
          (admitted receipt) h in
      let f =
        sym (
          decide_new p callbacks first.declaration first.authority first.policy first.control
            first.now s digest a (rw named new))
        ∙ d in
      let (_, stored) =
        fresh-admitted p callbacks first.declaration first.authority first.policy first.control
          digest first.now s (admitted receipt) (admit_one first s).1 receipt f refl in
      admit_settled again n attempt (digest, receipt) (run (admit_one first s).1 history)
        (run-find n (digest, receipt) (admit_one first s).1 history
          (rw (stored, named) (find-store_self n (digest, receipt) s)))
        named' a'
