-- ===== src/Tests/Client.antt =====
-- A client at a resource, its authorization server and a host that answers as they do.
use minority_prophet_border.Openid.Client.Complete.{
  Use, calls, complete, completes, exchange, put_text, redeem, redeem_callback, store_token,
  use_all,
}
use minority_prophet_border.Openid.Client.Once.{complete_once}
use minority_prophet_border.Openid.Client.Begin.{
  Begun, answered, authorize_at, begin, discover, record_pending, redirected, request_access,
}
use minority_prophet_border.Py.Value.{dict, str}
use minority_prophet_border.Prelude.{List, String, [], if◌then◌else◌, refl, ℕ, ◌+◌, ◌==◌, ◌∷◌, ◌≡◌}
use minority_prophet_border.Openid.Http.{
  HttpResponse, challenge_component, challenge_parameter, header_value, json_body, metadata_urls,
  secure_endpoint,
}
use minority_prophet_border.Openid.Client.Endpoints.{begin-IsPending, IsAsked}
use minority_prophet_border.Openid.Client.Metadata.{IsSecure}
use minority_prophet_border.Openid.Client.{
  Client, Peer, PendingAuthorization, call, settle_call, HttpRequest,
}
use minority_prophet_border.Py.Result.{Result, err, ok}
use minority_prophet_border.Openid.Client.Issued.{IsCompletion, complete-IsCompletion}
use minority_prophet_border.Admission.Base.{refused}
use minority_prophet_border.Openid.Client.Discovery.{
  Callback, callback_of, challenge_of, endpoints_of, issuer_of, token_of, keeps_scope,
}
use minority_prophet_border.Py.Text.{concat}
use minority_prophet_border.Tests.Web.{toy_web, value_or, web_runs}
use minority_prophet_border.Py.Table.{set_row}
use minority_prophet_border.Py.Equality.{value_eq}

abbrev response : ℕ → List (String × String) → ℕ → HttpResponse
response status headers first = record { status = status; headers = headers; body = first ∷ [] }

abbrev challenge : List (String × String)
challenge = ("www-authenticate", "bearer resource_metadata=\"https://m/meta\", scope=\"mcp\"") ∷ []

unfoldable answers : HttpRequest → HttpResponse
answers r =
    if r.url == "https://m/mcp"
    then response 401 challenge b'x'
    else if r.url == "https://m/meta"
    then response 200 [] b'r'
    else if r.url == "https://as/.well-known/oauth-authorization-server"
    then response 200 [] b's'
    else if r.url == "https://as/token"
    then response 200 [] b't'
    else response 404 [] b'x'

-- The world counts the requests.
abbrev peer : Peer ℕ
peer = record {
  request = λ r n. (ok (answers r), n + 1);
  client_authentication = λ endpoint n. (ok (("client_assertion", "signed") ∷ []), n);
}

abbrev client : Client
client = record {
  client_id = "client-1";
  redirect_uri = "https://c/back";
  pending = [];
  tokens = [];
}

unfoldable client_runs : Unit {0}
unfolding web_runs answers header_value challenge_component challenge_parameter json_body
    secure_endpoint metadata_urls challenge_of issuer_of endpoints_of callback_of token_of discover
    authorize_at request_access record_pending begin put_text exchange store_token redeem
    redeem_callback complete settle_call call value_eq keeps_scope
client_runs = tt

abbrev begun : Result Begun × (Client × ℕ)
unfolding client_runs
begun = begin toy_web peer (str "https://m/mcp") (dict []) (1 ∷ []) (2 ∷ []) client 0

abbrev pending_of : Begun → PendingAuthorization
pending_of (redirected p url) = p
pending_of (answered r) = record {
  state = "";
  verifier = "";
  redirect_uri = "";
  resource = "";
  token_endpoint = "";
  scope = "";
}

abbrev url_of : Begun → String
url_of (redirected p url) = url
url_of (answered r) = ""

abbrev nothing : Begun
nothing = answered (response 500 [] 0)

abbrev waiting : PendingAuthorization
unfolding client_runs
waiting = pending_of (value_or nothing begun.0)

abbrev address : String
unfolding client_runs
address = url_of (value_or nothing begun.0)

abbrev begun_client : Client
unfolding client_runs
begun_client = begun.1.0

sent :
    begin toy_web peer (str "https://m/mcp") (dict []) (1 ∷ []) (2 ∷ []) client 0
    ≡ (ok (redirected waiting address), (begun_client, 3))
unfolding client_runs
sent = refl

begin-IsPending_example :
    (str "https://m/mcp" ≡ str waiting.resource)
    × IsSecure toy_web waiting.resource
    × IsAsked toy_web peer client (1 ∷ []) (2 ∷ []) (dict []) waiting 0 3
    × (begun_client ≡ record client { pending = set_row waiting.state waiting client.pending })
begin-IsPending_example =
    begin-IsPending toy_web peer client (1 ∷ []) (2 ∷ []) (str "https://m/mcp") (dict []) waiting
      address begun_client 0 3 sent

abbrev back : String
unfolding client_runs
back = concat ("https://c/back?code=c-1&state=" ∷ waiting.state ∷ [])

abbrev completed_client : Client
unfolding client_runs
completed_client = (complete toy_web peer back begun_client 3).1.0

completed : complete toy_web peer back begun_client 3 ≡ (ok "https://m/mcp", (completed_client, 4))
unfolding client_runs
completed = refl

stored : completed_client.tokens ≡ ("https://m/mcp", "tok-1") ∷ []
unfolding client_runs
stored = refl

complete-IsCompletion_example :
    IsCompletion toy_web peer back "https://m/mcp" begun_client completed_client 3 4
complete-IsCompletion_example =
    complete-IsCompletion toy_web peer back "https://m/mcp" begun_client completed_client 3 4
      completed

abbrev callback : Callback
unfolding client_runs
callback = record { state = waiting.state; code = "c-1" }

read : callback_of toy_web begun_client.redirect_uri back ≡ ok callback
unfolding client_runs
read = refl

-- The token is rejected in between.
abbrev uses : List Use
uses = calls "https://m/mcp" (dict []) ∷ []

abbrev used_client : Client
unfolding client_runs
used_client = (use_all toy_web peer (completes back ∷ uses) begun_client 3).0

used : use_all toy_web peer (completes back ∷ uses) begun_client 3 ≡ (used_client, 5)
unfolding client_runs
used = refl

complete_once_example :
    complete toy_web peer back used_client 5
    ≡ (err (refused "authorization callback state or code is invalid"), (used_client, 5))
complete_once_example =
    complete_once toy_web peer back callback uses begun_client used_client 3 5 read used
