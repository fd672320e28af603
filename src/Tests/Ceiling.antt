-- ===== src/Tests/Ceiling.antt =====
-- A token's claims within their authority's ceiling.
use minority_prophet_border.Py.Value.{Fields, dict, get, int, list, str}
use minority_prophet_border.Jcs.{canonicalize}
use minority_prophet_border.Py.Result.{err, ok}
use minority_prophet_border.Prelude.{[], refl, some, ℕ, ◌∷◌, ◌≡◌}
use minority_prophet_border.Openid.Aiim.{
  Observed, TokenProvider, claim_time, grants_scope, normalize_claims, normalize_token,
  token_active, token_receipt, with_client_id,
}
use minority_prophet_border.Prelude.Int.{pos}
use minority_prophet_border.Admission.Base.{document_digest, refused}
use minority_prophet_border.Tests.Web.{toy_web, value_or, web_runs}
use minority_prophet_border.Py.Text.{concat, replace}
use minority_prophet_border.Py.Clock.{Time, utc}
use minority_prophet_border.Py.Bindings.{format_time}
use minority_prophet_border.Py.Equality.{value_eq}

abbrev claims : Fields
claims = dict (
    ("iss", str "https://as")
    ∷ ("sub", str "agent-1")
    ∷ ("client_id", str "client-1")
    ∷ ("aud", list (str "https://m/mcp" ∷ []))
    ∷ ("scope", str "read mcp")
    ∷ ("iat", int (pos 10))
    ∷ ("nbf", int (pos 10))
    ∷ ("exp", int (pos 90))
    ∷ ("jti", str "t-1")
    ∷ [])

abbrev provider : TokenProvider
provider = record {
  verify_token = λ token. ok claims;
  issuer = "https://as";
  audience = "https://m/mcp";
  required_scope = "mcp";
}

abbrev observed : Observed
observed = record {
  request_id = "req-1";
  subject_id = "agent-1";
  principal_id = "acme";
  delegation_id = "del-1";
  action = dict (("tool", str "echo") ∷ []);
}

abbrev clock : ℕ → Time
clock n = record { instant = n; zone = some utc }

unfoldable token_runs : Unit {0}
unfolding web_runs value_eq document_digest canonicalize concat replace format_time grants_scope
    token_active claim_time with_client_id token_receipt normalize_claims normalize_token
token_runs = tt

abbrev receipt : Fields
unfolding token_runs
receipt = value_or (dict []) (normalize_claims toy_web provider claims "tok" observed (clock 20))

authorized : (get receipt "expires_at" ≡ str "@90") × (get receipt "key_id" ≡ str "verified-token")
unfolding token_runs
authorized = (refl, refl)

-- The token is over at its end.
ended :
    normalize_token toy_web provider "tok" observed (clock 90)
    ≡ err (refused "OAuth token is not currently active")
unfolding token_runs
ended = refl
