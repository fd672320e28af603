-- ===== src/Openid/Ceiling.antt =====
-- What the claims of an access token have satisfied when the gateway makes them an authority.
use minority_prophet_border.Py.Result.{raise_if}
use minority_prophet_border.Py.Equality.{value_eq}
use minority_prophet_border.Openid.Aiim.{TokenProvider, audience_list, grants_scope}
use minority_prophet_border.Prelude.Int.{leb_ℤ, ℤ}
use minority_prophet_border.Prelude.{false, true, ◌≡◌}
use minority_prophet_border.Py.Value.{Fields, get, str}
use minority_prophet_border.Py.Result.{ok, Result, raise_if}
use minority_prophet_border.Py.Contains.{any_equal}
use minority_prophet_border.Openid.Web.{Web}

-- `int(nbf) <= now < int(exp)` and `int(iat) <= now`
pub record IsCurrent (w : Web) (claims : Fields) (now : ℤ) : Type 0 where
  pub starts : ℤ
  pub ends : ℤ
  pub issued : ℤ
  pub has_start : w.int_of (get claims "nbf") ≡ ok starts
  pub has_end : w.int_of (get claims "exp") ≡ ok ends
  pub has_issue : w.int_of (get claims "iat") ≡ ok issued
  pub started : leb_ℤ starts now ≡ true
  pub running : leb_ℤ ends now ≡ false
  pub past_issue : leb_ℤ issued now ≡ true

pub record IsCeiling (w : Web) (provider : TokenProvider) (claims : Fields) (now : ℤ) : Type 0 where
  pub issuer : value_eq (get claims "iss") (str provider.issuer) ≡ true
  pub audience : any_equal (str provider.audience) (audience_list (get claims "aud")) ≡ true
  pub scope : grants_scope w provider.required_scope (get claims "scope") ≡ ok true
  pub current : IsCurrent w claims now
