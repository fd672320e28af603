-- ===== src/Tests/Authority.antt =====
-- A provider's record that has the envelope's own shape.
use minority_prophet_border.Py.Text.{concat, replace, split}
use minority_prophet_border.Authority.Profile.{
  analyze_profile, get_path, get_segments, open_profile, set_path, set_segments,
}
use minority_prophet_border.Py.Equality.{value_eq}
use minority_prophet_border.Py.Result.{Result, ok}
use minority_prophet_border.Authority.Envelope.{
  apply_constants, apply_mappings, authority_time, check_copied, check_decision, check_identity,
  check_inactive, check_origin, check_unknown, delegation_active, effect_was, normalize_provider,
  same_at, validate_bindings,
}
use minority_prophet_border.Prelude.{Bool, [], refl, true, ◌∷◌, ◌≡◌}
use minority_prophet_border.Prelude.Int.{pos}
use minority_prophet_border.Tests.Runtime.{runs, runtime}
use minority_prophet_border.Admission.Base.{document_digest}
use minority_prophet_border.Py.Value.{Fields, dict, int, list, obj, put, str}
use minority_prophet_border.Jcs.{canonicalize}
use minority_prophet_border.Authority.Soundness.{IsEnvelope, normalize_provider-IsEnvelope}

abbrev record_ : Fields
record_ = dict (
    (
      "request",
      obj (
          dict (
            ("request_id", str "r-1")
            ∷ ("subject_id", str "s-1")
            ∷ ("principal_id", str "p-1")
            ∷ ("delegation_id", str "d-1")
            ∷ (
              "action",
              obj (
                  dict (
                    ("type", str "pay")
                    ∷ ("target", str "shop")
                    ∷ ("payload_digest", str "d")
                    ∷ [])),
            )
            ∷ ("created_at", str "@10")
            ∷ ("nonce", str "n")
            ∷ [])),
    )
    ∷ (
      "receipt",
      obj (
          dict (
            ("receipt_id", str "rc")
            ∷ ("request_id", str "r-1")
            ∷ ("action_digest", str "sha256:695372238")
            ∷ ("subject_id", str "s-1")
            ∷ ("principal_id", str "p-1")
            ∷ (
              "delegation",
              obj (
                  dict (
                    ("delegation_id", str "d-1")
                    ∷ ("status", str "active")
                    ∷ ("not_before", str "@10")
                    ∷ ("expires_at", str "@90")
                    ∷ [])),
            )
            ∷ ("decision", str "allow")
            ∷ (
              "effect",
              obj (
                  dict (
                    ("status", str "succeeded")
                    ∷ ("attempt_count", int (pos 1))
                    ∷ ("idempotency_key", str "i")
                    ∷ [])),
            )
            ∷ (
              "evidence_origin",
              obj (
                  dict (
                    ("claim_digest", str "c")
                    ∷ ("origin_type", str "original")
                    ∷ ("root_id", str "o")
                    ∷ ("parent_roots", list [])
                    ∷ ("independence_basis", str "b")
                    ∷ [])),
            )
            ∷ ("provider", obj (dict (("provider_id", str "pv") ∷ ("key_id", str "k") ∷ [])))
            ∷ ("issued_at", str "@20")
            ∷ (
              "signature",
              obj (dict (("algorithm", str "a") ∷ ("key_id", str "k") ∷ ("value", str "v") ∷ [])),
            )
            ∷ [])),
    )
    ∷ [])

abbrev profile : Fields
profile = dict (
    (
      "mappings",
      obj (
          dict (
            ("request.request_id", str "request.request_id")
            ∷ ("request.subject_id", str "request.subject_id")
            ∷ ("request.principal_id", str "request.principal_id")
            ∷ ("request.delegation_id", str "request.delegation_id")
            ∷ ("request.action.type", str "request.action.type")
            ∷ ("request.action.target", str "request.action.target")
            ∷ ("request.action.payload_digest", str "request.action.payload_digest")
            ∷ ("request.created_at", str "request.created_at")
            ∷ ("request.nonce", str "request.nonce")
            ∷ ("receipt.receipt_id", str "receipt.receipt_id")
            ∷ ("receipt.request_id", str "receipt.request_id")
            ∷ ("receipt.action_digest", str "receipt.action_digest")
            ∷ ("receipt.subject_id", str "receipt.subject_id")
            ∷ ("receipt.principal_id", str "receipt.principal_id")
            ∷ ("receipt.delegation.delegation_id", str "receipt.delegation.delegation_id")
            ∷ ("receipt.delegation.status", str "receipt.delegation.status")
            ∷ ("receipt.delegation.not_before", str "receipt.delegation.not_before")
            ∷ ("receipt.delegation.expires_at", str "receipt.delegation.expires_at")
            ∷ ("receipt.decision", str "receipt.decision")
            ∷ ("receipt.effect.status", str "receipt.effect.status")
            ∷ ("receipt.effect.attempt_count", str "receipt.effect.attempt_count")
            ∷ ("receipt.effect.idempotency_key", str "receipt.effect.idempotency_key")
            ∷ ("receipt.evidence_origin.claim_digest", str "receipt.evidence_origin.claim_digest")
            ∷ ("receipt.evidence_origin.origin_type", str "receipt.evidence_origin.origin_type")
            ∷ ("receipt.evidence_origin.root_id", str "receipt.evidence_origin.root_id")
            ∷ ("receipt.evidence_origin.parent_roots", str "receipt.evidence_origin.parent_roots")
            ∷ (
              "receipt.evidence_origin.independence_basis",
              str "receipt.evidence_origin.independence_basis",
            )
            ∷ ("receipt.provider.provider_id", str "receipt.provider.provider_id")
            ∷ ("receipt.provider.key_id", str "receipt.provider.key_id")
            ∷ ("receipt.issued_at", str "receipt.issued_at")
            ∷ ("receipt.signature.algorithm", str "receipt.signature.algorithm")
            ∷ ("receipt.signature.key_id", str "receipt.signature.key_id")
            ∷ ("receipt.signature.value", str "receipt.signature.value")
            ∷ [])),
    )
    ∷ [])

abbrev envelope : Fields
envelope = dict (
    ("schema_version", str "0.1")
    ∷ (
      "request",
      obj (
          dict (
            ("request_id", str "r-1")
            ∷ ("subject_id", str "s-1")
            ∷ ("principal_id", str "p-1")
            ∷ ("delegation_id", str "d-1")
            ∷ (
              "action",
              obj (
                  dict (
                    ("type", str "pay")
                    ∷ ("target", str "shop")
                    ∷ ("payload_digest", str "d")
                    ∷ [])),
            )
            ∷ ("created_at", str "@10")
            ∷ ("nonce", str "n")
            ∷ [])),
    )
    ∷ (
      "receipt",
      obj (
          dict (
            ("receipt_id", str "rc")
            ∷ ("request_id", str "r-1")
            ∷ ("action_digest", str "sha256:695372238")
            ∷ ("subject_id", str "s-1")
            ∷ ("principal_id", str "p-1")
            ∷ (
              "delegation",
              obj (
                  dict (
                    ("delegation_id", str "d-1")
                    ∷ ("status", str "active")
                    ∷ ("not_before", str "@10")
                    ∷ ("expires_at", str "@90")
                    ∷ [])),
            )
            ∷ ("decision", str "allow")
            ∷ (
              "effect",
              obj (
                  dict (
                    ("status", str "succeeded")
                    ∷ ("attempt_count", int (pos 1))
                    ∷ ("idempotency_key", str "i")
                    ∷ [])),
            )
            ∷ (
              "evidence_origin",
              obj (
                  dict (
                    ("claim_digest", str "c")
                    ∷ ("origin_type", str "original")
                    ∷ ("root_id", str "o")
                    ∷ ("parent_roots", list [])
                    ∷ ("independence_basis", str "b")
                    ∷ [])),
            )
            ∷ ("provider", obj (dict (("provider_id", str "pv") ∷ ("key_id", str "k") ∷ [])))
            ∷ ("issued_at", str "@20")
            ∷ (
              "signature",
              obj (dict (("algorithm", str "a") ∷ ("key_id", str "k") ∷ ("value", str "v") ∷ [])),
            )
            ∷ [])),
    )
    ∷ [])

abbrev signed : Fields → Result Bool
signed d = ok true

unfoldable authority_runs : Unit {0}
unfolding runs document_digest canonicalize concat replace value_eq split put get_segments get_path
    set_segments set_path analyze_profile open_profile apply_mappings apply_constants same_at
    check_identity effect_was check_decision authority_time delegation_active check_inactive
    check_copied check_unknown check_origin validate_bindings normalize_provider
authority_runs = tt

opened : open_profile profile ≡ ok tt
unfolding authority_runs
opened = refl

normalized : normalize_provider runtime profile signed record_ ≡ ok (obj envelope)
unfolding authority_runs
normalized = refl

normalize_provider-IsEnvelope_example :
    (signed record_ ≡ ok true) × IsEnvelope runtime (obj envelope)
normalize_provider-IsEnvelope_example =
    normalize_provider-IsEnvelope runtime profile signed record_ (obj envelope) normalized
