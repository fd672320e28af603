-- ===== src/Tests/CrossingReceipt.antt =====
-- A receipt of one crossing, with a signature and without.
use minority_prophet_border.Py.Printer.{Printer}
use minority_prophet_border.CrossingReceipt.{
  Crossing, absent_fields, argument_reasons, binding_reasons, bound_payload, compare_secret,
  compute_digest, create, digest_arguments, dumped, hex_text, receipt_bytes, receipt_reasons,
  see_nonce, sign_receipt, signature_reasons, time_reasons, verify_receipt, with_nonce,
}
use minority_prophet_border.Py.Value.{Fields, dict, get, int, obj, str}
use minority_prophet_border.Jcs.{encode, render}
use minority_prophet_border.CrossingReceipt.Soundness.{
  IsFresh, IsReceived, verify_receipt-IsReceived,
}
use minority_prophet_border.CrossingReceipt.Roundtrip.{create-verify_receipt, observed_of}
use minority_prophet_border.Prelude.{[], false, none, refl, some, true, ◌∷◌, ◌≡◌}
use minority_prophet_border.Tests.Runtime.{runs, runtime}
use minority_prophet_border.Py.Text.{concat, join}
use minority_prophet_border.Prelude.Int.{pos}
use minority_prophet_border.Py.Equality.{value_eq}
use minority_prophet_border.Py.Result.{ok}
use minority_prophet_border.Tests.Web.{value_or}

abbrev printer : Printer
printer = record { base = runtime; str_of = λ v. "value"; repr_of = λ v. "value" }

abbrev crossing : Crossing
crossing = record {
  caller = "agent-a";
  task_id = "t-1";
  context_id = "c-1";
  tool = "pay";
  arguments = obj (dict (("amount", int (pos 5)) ∷ []));
  nonce = "n-1";
  issued_at = "2026-01-01";
  expires_at = "2026-02-01";
  revoked = false;
  previous_digest = "GENESIS";
}

unfoldable receipt_runs : Unit {0}
unfolding runs value_eq concat join encode render dumped digest_arguments absent_fields
    bound_payload receipt_bytes compute_digest hex_text sign_receipt create compare_secret
    signature_reasons binding_reasons argument_reasons time_reasons see_nonce receipt_reasons
    with_nonce verify_receipt
receipt_runs = tt

abbrev plain : Fields
unfolding receipt_runs
plain = value_or (dict []) (create runtime crossing none)

abbrev signed : Fields
unfolding receipt_runs
signed = value_or (dict []) (create runtime crossing (some (1 ∷ [])))

made : create runtime crossing none ≡ ok plain
unfolding receipt_runs
made = refl

received :
    verify_receipt printer signed (observed_of crossing) "2026-01-09" (some []) (some (1 ∷ []))
    ≡ ok ((true, "all bound fields matched the observed crossing" ∷ []), some (str "n-1" ∷ []))
unfolding receipt_runs
received = refl

-- A receipt that is refused for its caller spends the nonce all the same.
refused_and_spent :
    verify_receipt printer plain (dict (("caller", str "agent-b") ∷ [])) "2026-01-09" (some []) none
    ≡ ok (
      (false, "caller mismatch: receipt binds value, observed value" ∷ []),
      some (str "n-1" ∷ []),
    )
unfolding receipt_runs
refused_and_spent = refl

create-verify_receipt_example :
    verify_receipt printer plain (observed_of crossing) "2026-01-09" (some []) none
    ≡ ok ((true, "all bound fields matched the observed crossing" ∷ []), some (str "n-1" ∷ []))
create-verify_receipt_example =
    create-verify_receipt printer crossing plain "2026-01-09" [] made refl refl refl refl

verify_receipt-IsReceived_example :
    IsReceived printer signed (observed_of crossing) "2026-01-09" (some (1 ∷ []))
    × IsFresh (get signed "nonce") (some []) (some (str "n-1" ∷ []))
verify_receipt-IsReceived_example =
    verify_receipt-IsReceived printer signed (observed_of crossing) "2026-01-09" (some [])
      (some (str "n-1" ∷ [])) (some (1 ∷ []))
      ("all bound fields matched the observed crossing" ∷ []) received
