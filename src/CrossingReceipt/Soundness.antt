-- ===== src/CrossingReceipt/Soundness.antt =====
-- What an accepted receipt has matched.
use minority_prophet_border.Py.Result.{◌>>=◌, Result, err, ok}
use minority_prophet_border.Py.Printer.{Printer}
use minority_prophet_border.Py.Value.{
  Fields, Value, get, has_key, str, truthy, arr, bool, float, int, null, obj,
}
use minority_prophet_border.Prelude.{
  All, Bool, Bool-cases, List, Option, String, [], ap, false, inl, inr, none, not, refl, some, true,
  ℕ, ◌&&◌, ◌++◌, ◌∙◌, ◌∷◌, ◌≡◌, arith, if◌then◌else◌, sym,
}
use minority_prophet_border.Py.Text.{codes, lt_codes}
use minority_prophet_border.CrossingReceipt.{
  argument_reasons, binding_reasons, compare_secret, compute_digest, digest_arguments, reason_if,
  receipt_reasons, sign_receipt, signature_reasons, time_reasons, time_text, receipt_schema,
  see_nonce, verdict, verify_receipt, with_nonce,
}
use minority_prophet_border.Py.Chain.{first_some, not-eq-false}
use minority_prophet_border.Platform.{Platform}
use minority_prophet_border.Openid.Server.Wsgi.{reason}
use minority_prophet_border.Py.Equality.{value_eq}
use minority_prophet_border.Py.Contains.{any_equal}
use minority_prophet_border.Admission.Controller.{fresh}

-- The signature, where a key is given
abbrev pub IsSignedBy : Platform → Fields → Option (List ℕ) → Type 0
IsSignedBy p receipt none = Unit
IsSignedBy p receipt (some key) =
    (expected : String) × (sign_receipt p receipt key ≡ ok expected)
    × (compare_secret (get receipt "signature") expected ≡ ok true)

-- The nonce, where a set of nonces is given
abbrev pub IsFresh : Value → Option (List Value) → Option (List Value) → Type 0
IsFresh nonce none after = after ≡ none
IsFresh nonce (some seen) after = (any_equal nonce seen ≡ false) × (after ≡ some (nonce ∷ seen))

pub record IsReceived (printer : Printer) (receipt observed : Fields) (now : String)
    (key : Option (List ℕ)) : Type 0 where
  pub digest : String
  pub computed : compute_digest printer.base receipt ≡ ok digest
  pub recorded : value_eq (get receipt "digest") (str digest) ≡ true
  pub signed : IsSignedBy printer.base receipt key
  pub bound :
      All
        (λ f. (has_key observed f && not (value_eq (get observed f) (get receipt f))) ≡ false)
        ("caller" ∷ "task_id" ∷ "context_id" ∷ "tool" ∷ [])
  pub arguments :
      (has_key observed "arguments"
        && not (
            value_eq
              (str (digest_arguments printer.base (get observed "arguments")))
              (get receipt "argument_digest")))
      ≡ false
  pub current : truthy (get receipt "revoked") ≡ false
  pub started : lt_codes (codes now) (codes (time_text printer receipt "issued_at")) ≡ false
  pub running : lt_codes (codes now) (codes (time_text printer receipt "expires_at")) ≡ true

no_more : (xs ys : List String) → xs ++ ys ≡ [] → (xs ≡ []) × (ys ≡ [])
no_more [] ys h = (refl, h)
no_more (x ∷ xs) ys h = absurd cc

no_reason : (b : Bool) (reason : String) → reason_if b reason ≡ [] → b ≡ false
no_reason false reason h = refl
no_reason true reason h = absurd cc

binding_reasons-All :
    (printer : Printer) (receipt observed : Fields) (fs : List String)
    → binding_reasons printer receipt observed fs ≡ []
    → All (λ f. (has_key observed f && not (value_eq (get observed f) (get receipt f))) ≡ false) fs
unfolding binding_reasons
binding_reasons-All printer receipt observed [] h = tt
binding_reasons-All printer receipt observed (f ∷ fs) h =
    let (first, later) =
      no_more (reason_if (has_key observed f && not (value_eq (get observed f) (get receipt f))) _)
        (binding_reasons printer receipt observed fs) h in
    (no_reason _ _ first, binding_reasons-All printer receipt observed fs later)

compare_none :
    (r : Result Bool) (reason : String)
    → (r >>= λ same. ok (reason_if (not same) reason)) ≡ ok []
    → r ≡ ok true
compare_none (ok true) reason h = refl
compare_none (ok false) reason h = absurd cc
compare_none (err e) reason h = absurd cc

signature_reasons-IsSignedBy :
    (p : Platform) (receipt : Fields) (key : Option (List ℕ))
    → signature_reasons p receipt key ≡ ok []
    → IsSignedBy p receipt key
unfolding signature_reasons
signature_reasons-IsSignedBy p receipt none h = tt
signature_reasons-IsSignedBy p receipt (some key) h =
    let (expected, signed, h1) = first_some (sign_receipt p receipt key) _ h in
    elim (Bool-cases (truthy (get receipt "signature"))) [
      | inl y ↦ (
        expected,
        signed,
        compare_none (compare_secret (get receipt "signature") expected) _ (rw y at h1),
      )
      | inr n ↦ absurd (cc (rw n at h1))
    ]

receipt_reasons-IsReceived :
    (printer : Printer) (receipt observed : Fields) (now : String) (key : Option (List ℕ))
    → receipt_reasons printer receipt observed now key ≡ ok []
    → IsReceived printer receipt observed now key
unfolding receipt_reasons argument_reasons time_reasons
receipt_reasons-IsReceived printer receipt observed now key h =
    let (digest, computed, h1) = first_some (compute_digest printer.base receipt) _ h in
    let (signed, s, h2) = first_some (signature_reasons printer.base receipt key) _ h1 in
    let (a, h3) =
      no_more (reason_if (not (value_eq (get receipt "digest") (str digest))) _) _ (ok_texts h2) in
    let (b, h4) = no_more signed _ h3 in
    let (c, h5) = no_more (binding_reasons printer receipt observed _) _ h4 in
    let (d, h6) = no_more (argument_reasons printer.base receipt observed) _ h5 in
    let (e, h7) = no_more (reason_if (truthy (get receipt "revoked")) _) _ h6 in
    let (f, g) =
      no_more (reason_if (lt_codes (codes now) (codes (time_text printer receipt "issued_at"))) _) _
        h7 in
    record {
      digest = digest;
      computed = computed;
      recorded = not-eq-false _ (no_reason _ _ a);
      signed = signature_reasons-IsSignedBy printer.base receipt key (s ∙ ap ok b);
      bound = binding_reasons-All printer receipt observed _ c;
      arguments = no_reason _ _ d;
      current = no_reason _ _ e;
      started = no_reason _ _ f;
      running = not-eq-false _ (no_reason _ _ g);
    }
  where
    ok_texts : {xs ys : List String} → ok xs ≡ ok ys → xs ≡ ys
    ok_texts k = cc

verdict-true : (reasons texts : List String) → verdict reasons ≡ (true, texts) → reasons ≡ []
verdict-true [] texts h = refl
verdict-true (r ∷ rs) texts h = absurd (cc (ap (λ x. x.0) h))

ok_pair : {A : Type 0} {x y : A} → ok x ≡ ok y → x ≡ y
ok_pair k = cc

settled :
    (nonce : Value) (seen : List Value) (spent : List String × List Value)
    → ok (
        if any_equal nonce seen
        then ("nonce replay: this authorisation has already been spent" ∷ [], seen)
        else ([], nonce ∷ seen))
      ≡ ok spent
    → spent.0 ≡ []
    → IsFresh nonce (some seen) (some spent.1)
settled nonce seen spent h k = elim (Bool-cases (any_equal nonce seen)) [
  | inl y ↦ absurd (cc (ap (λ x. x.0) (ok_pair (rw y at h)) ∙ k))
  | inr n ↦ (n, ap some (sym (ap (λ x. x.1) (ok_pair (rw n at h)))))
]

see_nonce-IsFresh :
    (nonce : Value) (seen : List Value) (spent : List String × List Value)
    → see_nonce nonce seen ≡ ok spent
    → spent.0 ≡ []
    → IsFresh nonce (some seen) (some spent.1)
unfolding see_nonce
see_nonce-IsFresh (arr vs) seen spent h k = absurd cc
see_nonce-IsFresh (obj d) seen spent h k = absurd cc
see_nonce-IsFresh (str s) seen spent h k = settled (str s) seen spent h k
see_nonce-IsFresh (float r) seen spent h k = settled (float r) seen spent h k
see_nonce-IsFresh (int n) seen spent h k = settled (int n) seen spent h k
see_nonce-IsFresh (bool b) seen spent h k = settled (bool b) seen spent h k
see_nonce-IsFresh null seen spent h k = settled null seen spent h k

with_nonce-IsFresh :
    (nonce : Value) (seen after : Option (List Value)) (reasons texts : List String)
    → with_nonce nonce seen reasons ≡ ok ((true, texts), after)
    → (reasons ≡ []) × IsFresh nonce seen after
unfolding with_nonce
with_nonce-IsFresh nonce none after reasons texts h =
    let same = ok_pair h in
    (verdict-true reasons texts (ap (λ x. x.0) same), sym (ap (λ x. x.1) same))
with_nonce-IsFresh nonce (some seen) after reasons texts h =
    let (spent, s, h1) = first_some (see_nonce nonce seen) _ h in
    let same = ok_pair h1 in
    let (none_before, none_now) =
      no_more reasons spent.0 (verdict-true (reasons ++ spent.0) texts (ap (λ x. x.0) same)) in
    let (fresh, grown) = see_nonce-IsFresh nonce seen spent s none_now in
    (none_before, (fresh, sym (ap (λ x. x.1) same) ∙ grown))

-- A receipt is accepted only if its digest is the one of its bound fields, each of caller, task,
-- context, tool and arguments that was observed is the one that it binds, it is not revoked, and the
-- time is from its beginning and before its end; with a key, its signature is the one of its bound
-- fields under that key; with a set of nonces, its nonce was not seen, and is after.
pub verify_receipt-IsReceived :
    (printer : Printer) (receipt observed : Fields) (now : String)
    (seen after : Option (List Value)) (key : Option (List ℕ)) (texts : List String)
    → verify_receipt printer receipt observed now seen key ≡ ok ((true, texts), after)
    → IsReceived printer receipt observed now key × IsFresh (get receipt "nonce") seen after
unfolding verify_receipt
verify_receipt-IsReceived printer receipt observed now seen after key texts h =
    elim (Bool-cases (value_eq (get receipt "schema") (str receipt_schema))) [
      | inr n ↦ absurd (ground arith)
      | inl y ↦
          let (reasons, r, h1) =
            first_some (receipt_reasons printer receipt observed now key) _ (rw y at h) in
          let (clean, fresh) =
            with_nonce-IsFresh (get receipt "nonce") seen after reasons texts h1 in
          (receipt_reasons-IsReceived printer receipt observed now key (r ∙ ap ok clean), fresh)
    ]
