-- ===== src/CrossingReceipt/Roundtrip.antt =====
-- What is created is accepted where it arrives as it was created.
use mathlib.Core.Path.{subst}
use minority_prophet_border.CrossingReceipt.{
  Crossing, absent_fields, bound_payload, create, dumped, receipt_bytes, unsigned_receipt,
  verify_receipt, argument_reasons, binding_reasons, compute_digest, digest_arguments,
  receipt_reasons, see_nonce, signature_reasons, time_reasons, with_nonce,
}
use minority_prophet_border.Py.Value.{Fields, Value, dict, obj, str, null}
use minority_prophet_border.Admission.Controller.{fresh}
use minority_prophet_border.Prelude.{
  List, String, [], false, none, refl, some, true, ℕ, ◌++◌, ◌∷◌, ◌≡◌, eq_refl, sym, ◌∙◌,
}
use minority_prophet_border.Platform.{Platform}
use minority_prophet_border.Py.Printer.{Printer}
use minority_prophet_border.Py.Text.{codes, lt_codes, append}
use minority_prophet_border.Crossing.Json.{digest}
use minority_prophet_border.Py.Result.{ok}
use minority_prophet_border.Py.Contains.{any_equal}
use minority_prophet_border.Py.Equality.{value_eq}

-- The crossing as the executing side sees it
abbrev pub observed_of : Crossing → Fields
observed_of c = dict (
    ("caller", str c.caller)
    ∷ ("task_id", str c.task_id)
    ∷ ("context_id", str c.context_id)
    ∷ ("tool", str c.tool)
    ∷ ("arguments", c.arguments)
    ∷ [])

abbrev created : Platform → Crossing → String → Value → Fields
created p c digest signature =
    dict (unsigned_receipt p c ++ (("digest", str digest) ∷ ("signature", signature) ∷ []))

abbrev payload_bytes : Platform → Crossing → List ℕ
payload_bytes p c = dumped (obj (dict (unsigned_receipt p c)))

created_bytes :
    (p : Platform) (c : Crossing) (rest : List (String × Value))
    → receipt_bytes (dict (unsigned_receipt p c ++ rest)) ≡ ok (payload_bytes p c)
unfolding receipt_bytes absent_fields bound_payload
created_bytes p c rest = refl

abbrev digest_text : Platform → Crossing → String
digest_text p c = append "sha256:" (p.sha256 (payload_bytes p c))

created_digest :
    (p : Platform) (c : Crossing) (rest : List (String × Value))
    → compute_digest p (dict (unsigned_receipt p c ++ rest)) ≡ ok (digest_text p c)
unfolding compute_digest
created_digest p c rest = rw (created_bytes p c rest) refl

create_lem :
    (p : Platform) (c : Crossing) → create p c none ≡ ok (created p c (digest_text p c) null)
unfolding create
create_lem p c = rw (created_digest p c []) refl

created_reasons :
    (printer : Printer) (c : Crossing) (now : String)
    → c.revoked ≡ false
    → lt_codes (codes now) (codes c.issued_at) ≡ false
    → lt_codes (codes now) (codes c.expires_at) ≡ true
    → receipt_reasons printer
        (created printer.base c (digest_text printer.base c) null)
        (observed_of c)
        now
        none
      ≡ ok []
unfolding receipt_reasons signature_reasons binding_reasons argument_reasons time_reasons value_eq
created_reasons printer c now current started running =
    rw
      (
        created_digest printer.base c
            (("digest", str (digest_text printer.base c)) ∷ ("signature", null) ∷ []),
        eq_refl (digest_text printer.base c),
        eq_refl c.caller,
        eq_refl c.task_id,
        eq_refl c.context_id,
        eq_refl c.tool,
        eq_refl (digest_arguments printer.base c.arguments),
        current,
        started,
        running,
      )
      refl

-- What `create` makes without a key, `verify` accepts for the same crossing between its times, where
-- it is not revoked and its nonce has not been seen; the nonce is seen after.
pub create-verify_receipt :
    (printer : Printer) (c : Crossing) (receipt : Fields) (now : String) (seen : List Value)
    → create printer.base c none ≡ ok receipt
    → c.revoked ≡ false
    → lt_codes (codes now) (codes c.issued_at) ≡ false
    → lt_codes (codes now) (codes c.expires_at) ≡ true
    → any_equal (str c.nonce) seen ≡ false
    → verify_receipt printer receipt (observed_of c) now (some seen) none
      ≡ ok
          ((true, "all bound fields matched the observed crossing" ∷ []), some (str c.nonce ∷ seen))
unfolding verify_receipt with_nonce see_nonce value_eq
create-verify_receipt printer c receipt now seen made current started running fresh =
    subst
      (λ r.
        verify_receipt printer r (observed_of c) now (some seen) none
        ≡ ok (
          (true, "all bound fields matched the observed crossing" ∷ []),
          some (str c.nonce ∷ seen),
        ))
      (ok_same (sym (create_lem printer.base c) ∙ made))
      (rw (created_reasons printer c now current started running, fresh) refl)
  where
    ok_same : {a b : Fields} → ok a ≡ ok b → a ≡ b
    ok_same e = cc
