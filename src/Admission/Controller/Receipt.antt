-- ===== src/Admission/Controller/Receipt.antt =====
-- What the receipt of a first admission records.
use minority_prophet_border.Prelude.{
  ◌≤◌, String, ◌≡◌, sym, ◌∙◌, ◌⊎◌, inl, inr, Bool, Option, none, some, arith, eq_iff, true,
}
use minority_prophet_border.Platform.{Platform}
use minority_prophet_border.Py.Result.{ok, Result-cases}
use minority_prophet_border.Py.Value.{Value, null, str, obj, Fields, get, without}
use minority_prophet_border.Py.Clock.{Time}
use minority_prophet_border.Py.Bindings.{format_time}
use minority_prophet_border.Admission.Base.{document_digest, time_field}
use minority_prophet_border.Admission.Validation.{Callbacks, validate_declaration, route_allowed}
use minority_prophet_border.Admission.Controller.{
  Admissions, admitted, earlier, make_receipt, control_part, fresh, attempt_digest, previous_of,
  decide, admit,
}
use minority_prophet_border.Admission.Controller.Steps.{decide_new, decide_digest, with_state-eq-ok}
use minority_prophet_border.Openid.Server.{attempt}
use minority_prophet_border.Admission.Facts.{IsIntact}
use minority_prophet_border.Admission.Facts.Checks.{route_allowed-IsIntact}
use minority_prophet_border.Crossing.Json.{digest}
use minority_prophet_border.Py.Equality.{value_eq}

earlier-le :
    (a b : Time) {e : Time}
    → earlier a b ≡ ok e
    → ((e ≡ a) ⊎ (e ≡ b)) × (e.instant ≤ a.instant) × (e.instant ≤ b.instant)
earlier-le a b h = (ground arith, ground arith, ground arith)

-- The receipt ends with the first of the two documents that it rests on.
abbrev pub EndsFirst : Platform → Fields → Fields → Fields → Type 0
EndsFirst p declaration authority receipt =
    (declared : Time) × (authorized : Time) × (ends : Time) × (time_field p
        (get declaration "expires_at") "declaration.expires_at"
      ≡ ok declared)
    × (time_field p (get authority "expires_at") "authority.expires_at" ≡ ok authorized)
    × (get receipt "expires_at" ≡ str (format_time p ends))
    × ((ends ≡ declared) ⊎ (ends ≡ authorized))
    × (ends.instant ≤ declared.instant)
    × (ends.instant ≤ authorized.instant)

-- The document's digest stands in the receipt.
abbrev pub Records : Platform → Fields → String → Fields → Type 0
Records p receipt f doc =
    (d : String) × (document_digest p (obj doc) ≡ ok d) × (get receipt f ≡ str d)

pub record IsReceipt (p : Platform) (declaration authority policy : Fields) (action_digest : String)
    (control_digest : Value) (receipt : Fields) : Type 0 where
  pub decision : get receipt "decision" ≡ str "admit"
  pub nonce : get receipt "nonce" ≡ get declaration "nonce"
  pub action_bound : get receipt "action_digest" ≡ str action_digest
  pub policy_bound : get receipt "policy_digest" ≡ get policy "policy_digest"
  pub control_bound : get receipt "control_event_digest" ≡ control_digest
  pub declaration_bound : Records p receipt "declaration_digest" declaration
  pub authority_bound : Records p receipt "authority_receipt_digest" authority
  pub lifetime : EndsFirst p declaration authority receipt

module _ (p : Platform) (declaration authority policy : Fields) (action_digest : String)
    (control_digest : Value) (control_mode : String) (now : Time) {receipt : Fields}
    (h : make_receipt p declaration authority policy action_digest control_digest control_mode now
      ≡ ok receipt) where
  make_receipt-EndsFirst : EndsFirst p declaration authority receipt
  unfolding make_receipt
  make_receipt-EndsFirst =
      elim (Result-cases (time_field p (get declaration "expires_at") "declaration.expires_at")) [
        | inl (declared, d) ↦
            elim (Result-cases (time_field p (get authority "expires_at") "authority.expires_at")) [
              | inl (authorized, a) ↦ elim (Result-cases (earlier declared authorized)) [
                | inl (ends, e) ↦
                    let (which, l, r) = earlier-le declared authorized e in
                    (declared, authorized, ends, d, a, ground arith, which, l, r)
                | inr (x, e) ↦ absurd (ground arith)
              ]
              | inr (x, a) ↦ absurd (ground arith)
            ]
        | inr (x, d) ↦ absurd (ground arith)
      ]

  make_receipt-Records :
      Records p receipt "declaration_digest" declaration
      × Records p receipt "authority_receipt_digest" authority
  unfolding make_receipt
  make_receipt-Records = elim (Result-cases (document_digest p (obj declaration))) [
    | inl (d, e) ↦ elim (Result-cases (document_digest p (obj authority))) [
      | inl (a, e') ↦ ((d, e, ground arith), (a, e', ground arith))
      | inr (x, e') ↦ absurd (ground arith)
    ]
    | inr (x, e) ↦ absurd (ground arith)
  ]

  pub make_receipt-IsReceipt :
      IsReceipt p declaration authority policy action_digest control_digest receipt
  unfolding make_receipt
  make_receipt-IsReceipt = record {
    decision = ground arith;
    nonce = ground arith;
    action_bound = ground arith;
    policy_bound = ground arith;
    control_bound = ground arith;
    declaration_bound = make_receipt-Records.0;
    authority_bound = make_receipt-Records.1;
    lifetime = make_receipt-EndsFirst;
  }

-- `control_event_digest`: null, or the digest of the human event.
abbrev pub RecordsControl : Platform → Option Fields → Fields → Type 0
RecordsControl p none receipt = get receipt "control_event_digest" ≡ null
RecordsControl p (some c) receipt = Records p receipt "control_event_digest" c

control_part-digest :
    (p : Platform) (callbacks : Callbacks) (control : Option Fields) (declaration : Fields)
    (digest : String) (policy : Fields) (now : Time) (allowed : Bool) (part : String × Value)
    (receipt : Fields)
    → control_part p callbacks control declaration digest policy now allowed ≡ ok part
    → get receipt "control_event_digest" ≡ part.1
    → RecordsControl p control receipt
unfolding control_part
control_part-digest p callbacks none declaration digest policy now allowed part receipt h e =
    ground arith
control_part-digest p callbacks (some c) declaration digest policy now allowed part receipt h e =
    elim (Result-cases (document_digest p (obj c))) [
      | inl (d, q) ↦ (d, q, ground arith)
      | inr (x, q) ↦ absurd (ground arith)
    ]

pub eq-str : (v : Value) (s : String) → value_eq v (str s) ≡ true → v ≡ str s
unfolding value_eq
eq-str (str t) s h = ground (arith, eq_iff t s)
eq-str null s h = cc
eq-str _ s h = cc

recorded_policy :
    (p : Platform) (policy receipt : Fields)
    → IsIntact p policy
    → get receipt "policy_digest" ≡ get policy "policy_digest"
    → Records p receipt "policy_digest" (without "policy_digest" policy)
recorded_policy p policy receipt intact same =
    let (d, e, q) = intact.digest in (d, e, same ∙ eq-str _ d q)

-- The receipt of a first admission binds the declaration, the authority, the policy, the action
-- and the human event by their digests, and does not outlive the declaration or the authority.
pub fresh-IsReceipt :
    (p : Platform) (callbacks : Callbacks) (declaration authority policy : Fields)
    (control : Option Fields) (attempt : String) (now : Time) (s t : Admissions) (receipt : Fields)
    → fresh p callbacks declaration authority policy control attempt now s
      ≡ ok (admitted receipt, t)
    → (digest : String) × (validate_declaration p declaration now ≡ ok digest)
      × ((control_digest : Value) × IsReceipt p declaration authority policy digest control_digest
            receipt)
      × RecordsControl p control receipt
      × Records p receipt "policy_digest" (without "policy_digest" policy)
unfolding fresh
fresh-IsReceipt p callbacks declaration authority policy control attempt now s t receipt h =
    elim (Result-cases (validate_declaration p declaration now)) [
      | inl (digest, e) ↦ elim (Result-cases (route_allowed p policy declaration)) [
        | inl (allowed, r) ↦
            elim (Result-cases
              (control_part p callbacks control declaration digest policy now allowed)) [
                | inl (part, c) ↦
                    let made : make_receipt p declaration authority policy digest part.1 part.0 now
                        ≡ ok receipt =
                      ground arith in
                    let facts =
                      make_receipt-IsReceipt p declaration authority policy digest part.1 part.0 now
                        made in
                    (
                      digest,
                      e,
                      (part.1, facts),
                      control_part-digest p callbacks control declaration digest policy now allowed
                          part receipt c facts.control_bound,
                      recorded_policy p policy receipt
                          (route_allowed-IsIntact p policy declaration r) facts.policy_bound,
                    )
                | inr (x, c) ↦ absurd (ground arith)
              ]
        | inr (x, r) ↦ absurd (ground arith)
      ]
      | inr (x, e) ↦ absurd (ground arith)
    ]

module _ (p : Platform) (callbacks : Callbacks) (declaration authority policy : Fields)
    (control : Option Fields) (now : Time) (s : Admissions) (receipt : Fields)
    (new : previous_of (get declaration "nonce") s ≡ none)
    (h : (admit p callbacks declaration authority policy control now s).0
      ≡ ok (admitted receipt)) where
  pub admit-IsReceipt :
      (digest : String) × (validate_declaration p declaration now ≡ ok digest)
      × ((control_digest : Value) × IsReceipt p declaration authority policy digest control_digest
            receipt)
      × RecordsControl p control receipt
      × Records p receipt "policy_digest" (without "policy_digest" policy)
  unfolding admit
  admit-IsReceipt =
      let d =
        with_state-eq-ok s (decide p callbacks declaration authority policy control now s)
          (admitted receipt) h in
      elim (Result-cases (attempt_digest p declaration authority policy control)) [
        | inl (attempt, a) ↦
            fresh-IsReceipt p callbacks declaration authority policy control attempt now s
              (admit p callbacks declaration authority policy control now s).1 receipt
              (sym (decide_new p callbacks declaration authority policy control now s attempt a new)
                ∙ d)
        | inr (x, a) ↦ absurd (
            ground
              (arith, d, decide_digest p callbacks declaration authority policy control now s x a))
      ]
