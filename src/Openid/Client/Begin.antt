-- ===== src/Openid/Client/Begin.antt =====
-- border/openid_gateway.py: `OAuthMcpClient.begin`.
use minority_prophet_border.Py.Stateful.{◌>>=◌, Stateful, lift}
use minority_prophet_border.Py.Value.{Fields, Value}
use minority_prophet_border.Openid.Client.{
  Client, Peer, PendingAuthorization, get_request, post_json,
}
use minority_prophet_border.Openid.Client.Discovery.{
  Challenge, Endpoints, challenge_of, endpoints_of, issuer_of,
}
use minority_prophet_border.Prelude.{
  List, Option, String, [], if◌then◌else◌, nat_eq, none, some, ℕ, ◌∷◌,
}
use minority_prophet_border.Openid.Http.{HttpResponse, json_body, metadata_urls, secure_endpoint}
use minority_prophet_border.Openid.Server.{answer}
use minority_prophet_border.Py.Result.{Result, err, ok}
use minority_prophet_border.Py.Table.{set_row}
use minority_prophet_border.Jcs.{encode}
use minority_prophet_border.Py.Text.{concat}
use minority_prophet_border.Openid.Web.{Web}

-- `begin` gives the first response, or the address to send the user to with what is then pending.
pub data Begun : Type 0 where
  answered : HttpResponse → Begun
  redirected : PendingAuthorization → String → Begun

abbrev pub authorization_url : Web → String → PendingAuthorization → String → String
unfolding concat encode
authorization_url w client_id p endpoint = concat (
    endpoint
    ∷ "?"
    ∷ w.urlencode (
        ("response_type", "code")
        ∷ ("client_id", client_id)
        ∷ ("redirect_uri", p.redirect_uri)
        ∷ ("scope", p.scope)
        ∷ ("resource", p.resource)
        ∷ ("state", p.state)
        ∷ ("code_challenge", w.b64url (w.sha256_bytes (encode p.verifier)))
        ∷ ("code_challenge_method", "S256")
        ∷ [])
    ∷ [])

abbrev pub pending_at :
    Web → Client → String → List ℕ → List ℕ → Challenge → Endpoints → PendingAuthorization
pending_at w c resource verifier_bytes state_bytes challenge endpoints = record {
  state = w.b64url state_bytes;
  verifier = w.b64url verifier_bytes;
  redirect_uri = c.redirect_uri;
  resource = resource;
  token_endpoint = endpoints.token;
  scope = challenge.scope;
}

module _ {World : Type 0} where
  -- The loop over the two discovery addresses, up to the first that answers
  unfoldable pub discover : Web → Peer World → List String → Stateful World (Option Fields)
  discover w peer [] = lift (ok none)
  discover w peer (url ∷ urls) = do
    candidate ← peer.request (get_request url)
    if nat_eq candidate.status 200
        then (lift (json_body w.base candidate) >>= λ document. lift (ok (some document)))
        else discover w peer urls

  -- What follows a response with status 401
  unfoldable pub authorize_at :
      Web → Peer World → Client → String → List ℕ → List ℕ → HttpResponse → Stateful World Begun
  authorize_at w peer c resource verifier_bytes state_bytes first = do
    challenge ← lift (challenge_of w first.headers)
    answer ← peer.request (get_request challenge.metadata_url)
    metadata ← lift (json_body w.base answer)
    issuer ← lift (issuer_of w resource metadata)
    urls ← lift (metadata_urls w issuer)
    found ← discover w peer (urls.0 ∷ urls.1 ∷ [])
    endpoints ← lift (endpoints_of w issuer found)
    let p = pending_at w c resource verifier_bytes state_bytes challenge endpoints
    lift (ok (redirected p (authorization_url w c.client_id p endpoints.authorization)))

  unfoldable pub request_access :
      Web → Peer World → Client → Value → Fields → List ℕ → List ℕ → Stateful World Begun
  request_access w peer c resource_url request verifier_bytes state_bytes = do
    resource ← lift (secure_endpoint w resource_url "MCP resource")
    first ← peer.request (post_json resource [] request)
    if nat_eq first.status 401
        then authorize_at w peer c resource verifier_bytes state_bytes first
        else lift (ok (answered first))

  -- `begin`: an authorization is pending only once nothing more can fail.
  unfoldable pub record_pending : Client → Result Begun × World → Result Begun × (Client × World)
  record_pending c (err e, s) = (err e, (c, s))
  record_pending c (ok (answered r), s) = (ok (answered r), (c, s))
  record_pending c (ok (redirected p url), s) =
      (ok (redirected p url), (record c { pending = set_row p.state p c.pending }, s))

  unfoldable pub begin :
      Web
      → Peer World
      → Value
      → Fields
      → List ℕ
      → List ℕ
      → Client
      → World
      → Result Begun × (Client × World)
  begin w peer resource_url request verifier_bytes state_bytes c s =
      record_pending c (request_access w peer c resource_url request verifier_bytes state_bytes s)
