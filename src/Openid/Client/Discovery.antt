-- ===== src/Openid/Client/Discovery.antt =====
-- border/openid_gateway.py: what `OAuthMcpClient` reads of a challenge, of metadata, of a callback
-- and of a token response.
use minority_prophet_border.Prelude.{
  Bool, List, Option, String, [], false, if◌then◌else◌, nat_eq, none, not, some, true, ◌==◌, ◌||◌,
}
use minority_prophet_border.Py.Contains.{contains_text}
use minority_prophet_border.Py.Value.{
  Fields, Value, arr, cons, get, get_or, is_null, list, mem, str,
}
use minority_prophet_border.Openid.Web.{Web, rstrip, shown, words}
use minority_prophet_border.Py.Result.{Result, err, ok, raise_if, ◌>>=◌, ◌>>◌}
use minority_prophet_border.Openid.Http.{
  HttpResponse, challenge_parameter, header_value, json_body, secure_endpoint,
}
use minority_prophet_border.Py.Equality.{value_eq}
use minority_prophet_border.Py.Table.{row_of}
use minority_prophet_border.Admission.Base.{refused}

pub record Challenge : Type 0 where
  pub metadata_url : String
  pub scope : String

unfoldable pub challenge_of : Web → List (String × String) → Result Challenge
challenge_of w headers = do
  let challenge = header_value w "www-authenticate" headers
  address ← challenge_parameter w challenge "resource_metadata"
  url ← secure_endpoint w (str address) "resource_metadata"
  scope ← challenge_parameter w challenge "scope"
  ok (record { metadata_url = url; scope = scope })

-- `isinstance(servers, list) and servers`, its first element
abbrev pub first_server : Value → Result Value
first_server (arr (cons v vs)) = ok v
first_server _ = err (refused "OPRM omitted authorization_servers")

unfoldable pub issuer_of : Web → String → Fields → Result String
unfolding rstrip
issuer_of w resource metadata = do
  raise_if (not (value_eq (get metadata "resource") (str resource)))
      (refused "OPRM resource does not exactly match the requested MCP resource")
  server ← first_server (get metadata "authorization_servers")
  secure_endpoint w (str (rstrip (nat_eq b'/') (shown w server))) "authorization server issuer"

pub record Endpoints : Type 0 where
  pub authorization : String
  pub token : String

-- What the metadata of the authorization server gives; `none` where neither address answered.
unfoldable pub endpoints_of : Web → String → Option Fields → Result Endpoints
endpoints_of w issuer none = err (refused "authorization-server discovery failed")
endpoints_of w issuer (some metadata) = do
  raise_if (not (value_eq (get metadata "issuer") (str issuer)))
      (refused "authorization-server metadata issuer mismatch")
  endpoint ← secure_endpoint w (get metadata "authorization_endpoint") "authorization_endpoint"
  token_endpoint ← secure_endpoint w (get metadata "token_endpoint") "token_endpoint"
  pkce ← contains_text "S256" (get_or metadata "code_challenge_methods_supported" (list []))
  raise_if (not pkce) (refused "authorization server does not advertise PKCE S256")
  ok (record { authorization = endpoint; token = token_endpoint })

-- The state and the code that a callback carries
pub record Callback : Type 0 where
  pub state : String
  pub code : String

abbrev first_value : String → List (String × String) → String
first_value name values = elim (row_of name values) [ none ↦ "" | some v ↦ v ]

abbrev is_present : Option String → Bool
is_present none = false
is_present (some v) = true

unfoldable pub callback_of : Web → String → String → Result Callback
callback_of w redirect_uri url = do
  parsed ← w.urlparse url
  expected ← w.urlparse redirect_uri
  raise_if
      (not (parsed.scheme == expected.scheme)
        || not (parsed.netloc == expected.netloc)
        || not (parsed.path == expected.path)
        || not (parsed.fragment == ""))
      (refused "authorization callback does not match redirect_uri")
  let values = w.parse_qs parsed.query
  raise_if (is_present (row_of "error" values)) (refused "authorization server returned an error")
  ok (record { state = first_value "state" values; code = first_value "code" values })

-- `isinstance(token, str) and token`
abbrev pub token_text : Value → Result String
token_text (str s) =
    if s == "" then err (refused "authorization server did not issue an access token") else ok s
token_text _ = err (refused "authorization server did not issue an access token")

-- `scope in str(returned).split()`, where a scope is returned
unfoldable pub keeps_scope : Web → String → Value → Bool
unfolding words
keeps_scope w scope returned = is_null returned || mem scope (words w.is_space (shown w returned))

unfoldable pub token_of : Web → String → HttpResponse → Result String
token_of w scope r = do
  document ← json_body w.base r
  raise_if (not (nat_eq r.status 200))
      (refused "authorization server did not issue an access token")
  token ← token_text (get document "access_token")
  raise_if (not (keeps_scope w scope (get document "scope")))
      (refused "authorization server omitted the requested scope")
  ok token
