-- ===== src/Openid/Client.antt =====
-- border/openid_gateway.py: `OAuthMcpClient`. The transport is the caller's, and `World` what it
-- reads and changes. The random bytes of `secrets.token_bytes` are arguments.
pub mod Begin
pub mod Discovery
pub mod Complete
pub mod Once
pub mod Issued
pub mod Endpoints
pub mod Metadata
use minority_prophet_border.Py.Stateful.{Stateful, ◌>>=◌, lift}
use minority_prophet_border.Py.Result.{Result, err, ok}
use minority_prophet_border.Py.Table.{row_of, without_row}
use minority_prophet_border.Py.Value.{Fields, Value}
use minority_prophet_border.Py.Text.{concat}
use minority_prophet_border.Openid.Web.{Web}
use minority_prophet_border.Openid.Http.{HttpResponse, client_identifier, secure_endpoint}
use minority_prophet_border.Admission.Base.{refused}
use minority_prophet_border.Prelude.{
  List, Option, String, [], if◌then◌else◌, nat_eq, none, some, ◌∷◌,
}

pub record PendingAuthorization : Type 0 where
  pub state : String
  pub verifier : String
  pub redirect_uri : String
  pub resource : String
  pub token_endpoint : String
  pub scope : String

pub record Client : Type 0 where
  pub client_id : String
  pub redirect_uri : String
  pub pending : List (String × PendingAuthorization)
  pub tokens : List (String × String)

pub record HttpRequest : Type 0 where
  pub method : String
  pub url : String
  pub headers : List (String × String)
  pub form : Option (List (String × String))
  pub json : Option Fields

pub record Peer (World : Type 0) : Type 0 where
  pub request : HttpRequest → Stateful World HttpResponse
  pub client_authentication : String → Stateful World (List (String × String))

abbrev pub get_request : String → HttpRequest
get_request url = record { method = "GET"; url = url; headers = []; form = none; json = none }

abbrev pub post_json : String → List (String × String) → Fields → HttpRequest
post_json url headers body = record {
  method = "POST";
  url = url;
  headers = headers;
  form = none;
  json = some body;
}

abbrev pub post_form : String → List (String × String) → HttpRequest
post_form url form = record {
  method = "POST";
  url = url;
  headers = [];
  form = some form;
  json = none;
}

-- `__init__`
unfoldable pub open_client : Web → Value → Value → Result Client
open_client w client_id redirect_uri = elim (client_identifier w client_id "client_id") [
  | err e ↦ err e
  | ok id ↦ elim (secure_endpoint w redirect_uri "redirect_uri") [
    | err e ↦ err e
    | ok uri ↦ ok (record { client_id = id; redirect_uri = uri; pending = []; tokens = [] })
  ]
]

module _ {World : Type 0} where
  -- The end of `call`: a token that is rejected is dropped.
  unfoldable pub settle_call :
      String → Client → Result HttpResponse × World → Result HttpResponse × (Client × World)
  settle_call resource c (err e, t) = (err e, (c, t))
  settle_call resource c (ok r, t) =
      if nat_eq r.status 401
      then (
        err (refused "downstream token was rejected; reauthorization is required"),
        (record c { tokens = without_row resource c.tokens }, t),
      )
      else (ok r, (c, t))

  unfoldable pub call :
      Peer World → String → Fields → Client → World → Result HttpResponse × (Client × World)
  unfolding concat
  call peer resource request c s = elim (row_of resource c.tokens) [
    | none ↦ (err (refused "no access token is available for this resource"), (c, s))
    | some token ↦ settle_call resource c (
        peer.request
          (post_json resource (("Authorization", concat ("Bearer " ∷ token ∷ [])) ∷ []) request) s)
  ]
