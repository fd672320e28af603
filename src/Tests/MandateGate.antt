-- ===== src/Tests/MandateGate.antt =====
-- A stamped relation at its Gate. Base64 is the identity on the texts' bytes, and the one payload
-- decodes to the statement.
use minority_prophet_border.Py.Result.{ok}
use minority_prophet_border.Mandate.Gate.{
  Currency, check_all_current, check_current, check_relation_stamp, check_relation_window,
  expected_relation, mandate_statement, verify_mandate_gate_context,
}
use minority_prophet_border.Tests.Runtime.{runtime}
use minority_prophet_border.Mandate.Recheck.{IsRelated, verify_mandate_gate_context-IsRelated}
use minority_prophet_border.Prelude.{[], refl, some, true, ◌∷◌, ◌≡◌}
use minority_prophet_border.Dsse.{
  DsseVerifier, any_verified, pre_auth_encoding, read_envelope, read_signature, sha256_subject,
  verify_envelope,
}
use minority_prophet_border.Py.Value.{Fields, dict, list, obj, str}
use minority_prophet_border.Tests.Mandate.{agreeing, at, mandate_runs, material, receipt}
use minority_prophet_border.Jcs.{encode}
use minority_prophet_border.Platform.{Platform}
use minority_prophet_border.Py.Text.{removeprefix}

abbrev statement : Fields
statement = dict (
    ("_type", str "https://in-toto.io/Statement/v1")
    ∷ (
      "subject",
      list (
          obj (
            dict (
              ("name", str "rel-sha256:356753049")
              ∷ ("digest", obj (dict (("sha256", str "668534359") ∷ [])))
              ∷ []))
          ∷ []),
    )
    ∷ ("predicateType", str "https://minority-prophet.dev/border-authority-relation/v1")
    ∷ (
      "predicate",
      obj (
          dict (
            ("schema", str "border-authority-relation-stamp/v1")
            ∷ (
              "receipt",
              obj (
                  dict (
                    ("schema", str "border-authority-relation/v1")
                    ∷ ("relationship", str "MANDATE")
                    ∷ ("relation_id", str "rel-sha256:356753049")
                    ∷ ("request_id", str "req-1")
                    ∷ ("requester_id", str "alice")
                    ∷ ("request_principal_id", str "pa")
                    ∷ ("requester_key_thumbprint", str "ka")
                    ∷ ("executor_id", str "bob")
                    ∷ ("executor_principal_id", str "pb")
                    ∷ ("executor_key_thumbprint", str "kb")
                    ∷ ("request_authority_receipt_digest", str "sha256:456221927")
                    ∷ ("executor_authority_receipt_digest", str "sha256:117347828")
                    ∷ ("executor_credential_digest", str "sha256:640452752")
                    ∷ ("mandate_digest", str "sha256:991914136")
                    ∷ ("action_digest", str "sha256:406997947")
                    ∷ ("audience", str "gate")
                    ∷ ("verification", str "verified")
                    ∷ ("issued_at", str "@50")
                    ∷ ("not_before", str "@30")
                    ∷ ("expires_at", str "@70")
                    ∷ ("nonce", str "invocation-nonce-1")
                    ∷ [])),
            )
            ∷ [])),
    )
    ∷ [])

abbrev envelope : Fields
envelope = dict (
    ("payloadType", str "application/vnd.in-toto+json")
    ∷ (
      "payload",
      str
          "{\"_type\":\"https://in-toto.io/Statement/v1\",\"predicate\":{\"receipt\":{\"action_digest\":\"sha256:406997947\",\"audience\":\"gate\",\"executor_authority_receipt_digest\":\"sha256:117347828\",\"executor_credential_digest\":\"sha256:640452752\",\"executor_id\":\"bob\",\"executor_key_thumbprint\":\"kb\",\"executor_principal_id\":\"pb\",\"expires_at\":\"@70\",\"issued_at\":\"@50\",\"mandate_digest\":\"sha256:991914136\",\"nonce\":\"invocation-nonce-1\",\"not_before\":\"@30\",\"relation_id\":\"rel-sha256:356753049\",\"relationship\":\"MANDATE\",\"request_authority_receipt_digest\":\"sha256:456221927\",\"request_id\":\"req-1\",\"request_principal_id\":\"pa\",\"requester_id\":\"alice\",\"requester_key_thumbprint\":\"ka\",\"schema\":\"border-authority-relation/v1\",\"verification\":\"verified\"},\"schema\":\"border-authority-relation-stamp/v1\"},\"predicateType\":\"https://minority-prophet.dev/border-authority-relation/v1\",\"subject\":[{\"digest\":{\"sha256\":\"668534359\"},\"name\":\"rel-sha256:356753049\"}]}",
    )
    ∷ (
      "signatures",
      list (
          obj (dict (("keyid", str "k-0") ∷ []))
          ∷ obj (dict (("keyid", str "k-1") ∷ ("sig", str "c2ln") ∷ []))
          ∷ []),
    )
    ∷ [])

abbrev gate_runtime : Platform
gate_runtime = record runtime {
  b64decode = λ text. some (encode text);
  json_loads = λ bytes. some (obj statement);
}

abbrev accepting : DsseVerifier
accepting key_id pae signature = ok true

abbrev currency : Currency
currency = record {
  request_authority_is_current = agreeing;
  executor_authority_is_current = agreeing;
  executor_credential_is_current = agreeing;
  mandate_is_current = agreeing;
}

unfoldable gate_runs : Unit {0}
unfolding mandate_runs encode removeprefix pre_auth_encoding sha256_subject read_signature
    any_verified read_envelope verify_envelope mandate_statement expected_relation check_current
    check_all_current check_relation_stamp check_relation_window verify_mandate_gate_context
gate_runs = tt

passed :
    verify_mandate_gate_context gate_runtime currency accepting receipt material envelope "gate"
      (at 60)
    ≡ ok tt
unfolding gate_runs
passed = refl

verify_mandate_gate_context-IsRelated_example :
    IsRelated gate_runtime currency accepting receipt material envelope "gate" (at 60)
verify_mandate_gate_context-IsRelated_example =
    verify_mandate_gate_context-IsRelated gate_runtime currency accepting receipt material envelope
      "gate" (at 60) passed
