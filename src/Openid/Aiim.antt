-- ===== src/Openid/Aiim.antt =====
-- border/openid_aiim.py: the metadata of the gateway, and the authority that an access token gives.
use minority_prophet_border.Openid.Web.{Web, is_https, shown, words}
use minority_prophet_border.Py.Bindings.{format_time, in_set, is_empty}
use minority_prophet_border.Prelude.{
  Bool, List, String, [], all, any, false, if◌then◌else◌, map, not, true, ◌&&◌, ◌==◌, ◌||◌, ◌∷◌,
}
use minority_prophet_border.Py.Contains.{any_equal, contains_text, has_piece}
use minority_prophet_border.Py.Result.{
  Result, and_then, attribute_error, err, exn, ok, raise_if, rescue, type_error, ◌>>=◌, ◌>>◌,
}
use minority_prophet_border.Py.Value.{
  Fields, Value, arr, cons, dict, get, get_or, has_key, is_blank, iterate, list, list_of, mem, obj,
  put, str, truthy,
}
use minority_prophet_border.Prelude.Int.{leb_ℤ, ℤ}
use minority_prophet_border.Admission.Base.{document_digest, refused}
use minority_prophet_border.Py.Text.{append, concat, split}
use minority_prophet_border.Mandate.Gate.{any_class}
use minority_prophet_border.Jcs.{encode}
use minority_prophet_border.Py.Clock.{Time}
use minority_prophet_border.Py.Equality.{value_eq}
use minority_prophet_border.Crossing.Json.{digest}

abbrev dotted : List String → Bool
dotted segments = any (λ s. s == "." || s == "..") segments

unfoldable pub https : Web → String → String → Result (Unit {0})
unfolding split concat
https w value name = do
  u ← w.urlparse value
  let segments = split (w.unquote u.path) b'/'
  raise_if (not (is_https u))
      (refused (concat (name ∷ " must be an absolute HTTPS URL without a fragment" ∷ [])))
  raise_if (name == "client_id" && (u.path == "" || dotted segments))
      (refused "client_id must contain a safe path")

-- `urlparse` takes a false value for an empty address, and raises on any other that is no text.
unfoldable pub https_value : Web → Value → String → Result (Unit {0})
https_value w (str s) name = https w s name
https_value w v name =
    if truthy v
    then err (exn attribute_error "decode")
    else err (refused (concat (name ∷ " must be an absolute HTTPS URL without a fragment" ∷ [])))

unfoldable pub all_https : Web → List Value → String → Result (Unit {0})
all_https w [] name = ok tt
all_https w (v ∷ vs) name = do https_value w v name; all_https w vs name

-- `set(values)` raises on a list or a dict.
abbrev pub hashable : Value → Bool
hashable (arr vs) = false
hashable (obj d) = false
hashable _ = true

abbrev pub repeats : List Value → Bool
repeats [] = false
repeats (v ∷ vs) = any_equal v vs || repeats vs

abbrev pub redirect_list : Value → Result (List Value)
redirect_list (arr (cons v vs)) = ok (v ∷ list_of vs)
redirect_list _ = err (refused "CIMD redirect_uris are required")

abbrev pub shared_secret_methods : List String
shared_secret_methods = "client_secret_post" ∷ "client_secret_basic" ∷ "client_secret_jwt" ∷ []

unfoldable pub validate_cimd_document : Web → String → Fields → Result Fields
validate_cimd_document w client_id document = do
  https w client_id "client_id"
  raise_if (not (value_eq (get document "client_id") (str client_id)))
      (refused "CIMD client_id does not match its metadata URL")
  redirects ← redirect_list (get document "redirect_uris")
  raise_if (not (all hashable redirects)) (exn type_error "unhashable type")
  raise_if (repeats redirects) (refused "CIMD redirect_uris must be unique")
  all_https w redirects "redirect_uri"
  let has_jwks = truthy (get document "jwks")
  let has_uri = truthy (get document "jwks_uri")
  raise_if (if has_jwks then has_uri else not has_uri)
      (refused "CIMD must provide exactly one of jwks or jwks_uri")
  if has_uri then https_value w (get document "jwks_uri") "jwks_uri" else ok tt
  grants ← contains_text "authorization_code" (get_or document "grant_types" (list []))
  raise_if (not grants) (refused "CIMD authorization_code grant is required")
  shared ← in_set (get_or document "token_endpoint_auth_method" (str "none")) shared_secret_methods
  raise_if shared (refused "CIMD cannot establish shared-secret client authentication")
  ok document

unfoldable pub protected_resource_metadata :
    Web → String → List String → List String → Result Fields
protected_resource_metadata w resource servers scopes = do
  https w resource "resource"
  raise_if (is_empty servers) (refused "at least one authorization server is required")
  all_https w (map str servers) "authorization_server"
  raise_if (is_empty scopes || any (λ s. s == "") scopes)
      (refused "scopes_supported must be non-empty")
  ok (
      dict (
        ("resource", str resource)
        ∷ ("authorization_servers", list (map str servers))
        ∷ ("scopes_supported", list (map str scopes))
        ∷ []))

unfoldable pub www_authenticate : Web → String → String → Result String
unfolding concat
www_authenticate w metadata_url required_scope = do
  https w metadata_url "resource_metadata"
  raise_if (required_scope == "" || has_piece "\"" required_scope)
      (refused "required scope is invalid")
  ok (
      concat (
        "Bearer resource_metadata=\"" ∷ metadata_url ∷ "\", scope=\"" ∷ required_scope ∷ "\"" ∷ []))

-- `OAuthAccessAuthorityProvider`
pub record TokenProvider : Type 0 where
  pub verify_token : String → Result Fields
  pub issuer : String
  pub audience : String
  pub required_scope : String

-- What the host has observed of one request.
pub record Observed : Type 0 where
  pub request_id : String
  pub subject_id : String
  pub principal_id : String
  pub delegation_id : String
  pub action : Fields

abbrev pub required_claims : List String
required_claims = "iss" ∷ "sub" ∷ "client_id" ∷ "aud" ∷ "scope" ∷ "iat" ∷ "nbf" ∷ "exp" ∷ "jti" ∷ []

-- The client id of a token that names it `azp`
unfoldable pub with_client_id : Fields → Fields
unfolding put
with_client_id claims =
    if not (has_key claims "client_id") && truthy (get claims "azp")
    then put "client_id" (get claims "azp") claims
    else claims

abbrev pub audience_list : Value → List Value
audience_list (arr vs) = list_of vs
audience_list v = v ∷ []

-- `scope in set(…)`, for a text of words or any other iterable
unfoldable pub grants_scope : Web → String → Value → Result Bool
unfolding words
grants_scope w scope (str s) = ok (mem scope (words w.is_space s))
grants_scope w scope v = do
  parts ← iterate v
  raise_if (not (all hashable parts)) (exn type_error "unhashable type")
  ok (any_equal (str scope) parts)

-- `int(nbf) <= now < int(exp) and int(iat) <= now`, read in this order
unfoldable pub token_active : Web → Fields → ℤ → Result Bool
token_active w claims now = do
  starts ← w.int_of (get claims "nbf")
  running ←
      and_then (leb_ℤ starts now) (do ends ← w.int_of (get claims "exp"); ok (not (leb_ℤ ends now)))
  and_then running (do issued ← w.int_of (get claims "iat"); ok (leb_ℤ issued now))

-- A numeric date as an RFC 3339 text
unfoldable pub claim_time : Web → Fields → String → Result Value
claim_time w claims name = do
  n ← w.int_of (get claims name)
  t ← w.from_timestamp n
  ok (str (format_time w.base t))

-- `a or b`, on values
abbrev pub either_value : Value → Value → Value
either_value a b = if truthy a then a else b

unfoldable pub token_receipt : Web → TokenProvider → Fields → String → Observed → Result Fields
unfolding concat encode
token_receipt w provider claims token o = do
  digest ← document_digest w.base (obj o.action)
  starts ← claim_time w claims "nbf"
  ends ← claim_time w claims "exp"
  issued ← claim_time w claims "iat"
  ok (
      dict (
        (
          "receipt_id",
          str (
              concat
                ("oauth:" ∷ shown w (get claims "iss") ∷ ":" ∷ shown w (get claims "jti") ∷ [])),
        )
        ∷ ("request_id", str o.request_id)
        ∷ ("subject_id", str o.subject_id)
        ∷ ("principal_id", str o.principal_id)
        ∷ ("delegation_id", str o.delegation_id)
        ∷ ("action_digest", str digest)
        ∷ ("status", str "active")
        ∷ ("decision", str "allow")
        ∷ ("not_before", starts)
        ∷ ("expires_at", ends)
        ∷ ("issued_at", issued)
        ∷ (
          "key_id",
          str (
              shown w (
                either_value (get claims "kid")
                  (either_value (get claims "cnf") (str "verified-token")))),
        )
        ∷ ("signature", str (append "sha256:" (w.base.sha256 (encode token))))
        ∷ (
          "interop",
          obj (
              dict (
                ("profile", str "openid-aiim-2026/oauth")
                ∷ ("client_id", get claims "client_id")
                ∷ ("scope", str provider.required_scope)
                ∷ ("binding_basis", str "gateway-observed-action")
                ∷ [])),
        )
        ∷ []))

-- `clock` is what the provider's clock answers.
unfoldable pub normalize_claims :
    Web → TokenProvider → Fields → String → Observed → Time → Result Fields
normalize_claims w provider raw token o clock = do
  let claims = with_client_id raw
  raise_if (any (λ f. is_blank (get claims f)) required_claims)
      (refused "verified access token is missing required claims")
  raise_if
      (not (value_eq (get claims "iss") (str provider.issuer))
        || not (any_equal (str provider.audience) (audience_list (get claims "aud"))))
      (refused "OAuth issuer or audience mismatch")
  granted ← grants_scope w provider.required_scope (get claims "scope")
  raise_if (not granted) (refused "OAuth token lacks the required scope")
  active ← token_active w claims (w.timestamp_of clock)
  raise_if (not active) (refused "OAuth token is not currently active")
  token_receipt w provider claims token o

-- `normalize`: any failure of the verifier is one refusal.
unfoldable pub normalize_token : Web → TokenProvider → String → Observed → Time → Result Fields
normalize_token w provider token o clock = do
  claims ←
      rescue any_class (provider.verify_token token)
        (λ e. err (refused "OAuth access-token verification failed"))
  normalize_claims w provider claims token o clock
