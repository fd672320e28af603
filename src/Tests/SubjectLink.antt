-- ===== src/Tests/SubjectLink.antt =====
-- Evidence of two providers for one subject.
use minority_prophet_border.Tests.Runtime.{runs, runtime}
use minority_prophet_border.Py.Value.{Fields, dict, list, str}
use minority_prophet_border.SubjectLink.{
  SubjectLinkEvidence, SubjectRequirement, check_link_texts, evaluate_subject_requirement,
  has_link_texts, normalize_subject_link, timestamp, weigh,
}
use minority_prophet_border.Py.Clock.{Time, utc}
use minority_prophet_border.Prelude.{Bool, String, [], refl, some, true, ℕ, ◌∷◌, ◌≡◌}
use minority_prophet_border.Py.Equality.{value_eq}
use minority_prophet_border.Py.Text.{replace}
use minority_prophet_border.SubjectLink.Soundness.{
  IsLinked, IsSatisfied, evaluate_subject_requirement-IsSatisfied, normalize_subject_link-IsLinked,
}
use minority_prophet_border.Py.Result.{Result, ok}

abbrev at : ℕ → Time
at n = record { instant = n; zone = some utc }

abbrev link : Fields
link = dict (
    ("schema", str "subject-link-evidence/v0.1")
    ∷ ("provider_id", str "p1")
    ∷ ("provider_subject_id", str "s-p1")
    ∷ ("pairwise_subject_id", str "pair-1")
    ∷ ("credential_types", list (str "email" ∷ []))
    ∷ ("link_method", str "oidc")
    ∷ (
      "evidence_digest",
      str "sha256:0a0a0a0a0a0a0a0a0a0a0a0a0a0a0a0a0a0a0a0a0a0a0a0a0a0a0a0a0a0a0a0a",
    )
    ∷ ("audience", str "gate")
    ∷ ("issued_at", str "@10")
    ∷ ("expires_at", str "@90")
    ∷ ("revocation_status", str "active")
    ∷ ("nonce", str "link-nonce-000001")
    ∷ ("key_id", str "k")
    ∷ ("signature", str "s")
    ∷ [])

abbrev first : SubjectLinkEvidence
first = record {
  provider_id = "p1";
  provider_subject_id = "s-p1";
  pairwise_subject_id = "pair-1";
  credential_types = "email" ∷ [];
  link_method = "oidc";
  evidence_digest = "sha256:0a0a0a0a0a0a0a0a0a0a0a0a0a0a0a0a0a0a0a0a0a0a0a0a0a0a0a0a0a0a0a0a";
  audience = "gate";
  issued_at = at 10;
  expires_at = at 90;
  nonce = "link-nonce-000001";
  key_id = "k";
}

abbrev second : SubjectLinkEvidence
second = record {
  provider_id = "p2";
  provider_subject_id = "s-p2";
  pairwise_subject_id = "pair-1";
  credential_types = "passport" ∷ "email" ∷ [];
  link_method = "oidc";
  evidence_digest = "sha256:0a0a0a0a0a0a0a0a0a0a0a0a0a0a0a0a0a0a0a0a0a0a0a0a0a0a0a0a0a0a0a0a";
  audience = "gate";
  issued_at = at 10;
  expires_at = at 90;
  nonce = "link-nonce-000002";
  key_id = "k";
}

abbrev requirement : SubjectRequirement
requirement = record {
  audience = "gate";
  required_types = "email" ∷ "passport" ∷ [];
  minimum_providers = 2;
}

abbrev signed : Fields → Result Bool
signed d = ok true

normalized : normalize_subject_link runtime link signed (at 50) ≡ ok first
unfolding runs replace value_eq timestamp has_link_texts check_link_texts normalize_subject_link
normalized = refl

normalize_subject_link-IsLinked_example : IsLinked runtime link signed (at 50) first
normalize_subject_link-IsLinked_example =
    normalize_subject_link-IsLinked runtime link signed (at 50) first normalized

accepted_mix : (evaluate_subject_requirement (first ∷ second ∷ []) requirement).action ≡ "accept"
unfolding evaluate_subject_requirement weigh
accepted_mix = refl

evaluate_subject_requirement-IsSatisfied_example :
    (subject : String) × ((evaluate_subject_requirement
        (first ∷ second ∷ [])
        requirement).subject_id
      ≡ some subject)
    × IsSatisfied (first ∷ second ∷ []) requirement subject
evaluate_subject_requirement-IsSatisfied_example =
    evaluate_subject_requirement-IsSatisfied (first ∷ second ∷ []) requirement accepted_mix
