-- ===== src/Openid/Server/Routes.antt =====
-- border/openid_gateway.py: `OpenIDGatewayServer.handle`, the routes around a tool call.
use minority_prophet_border.Py.Stateful.{◌>>=◌, Stateful, lift}
use minority_prophet_border.Py.Text.{concat}
use minority_prophet_border.Openid.Server.{Gateway, attempt}
use minority_prophet_border.Openid.Http.{HttpResponse, bearer, json_response}
use minority_prophet_border.Prelude.{
  Bool, List, String, [], if◌then◌else◌, length, ltb, none, not, some, true, ℕ, ◌&&◌, ◌==◌, ◌||◌,
  ◌∷◌,
}
use minority_prophet_border.Py.Result.{Result, err, ok}
use minority_prophet_border.Py.Value.{bool, dict, str}
use minority_prophet_border.Openid.Web.{Web}
use minority_prophet_border.Openid.Aiim.{protected_resource_metadata, www_authenticate}

-- The branches of `handle` on the method and the path, in their order
pub data Route : Type 0 where
  health readiness_probe resource_metadata client_document key_set mcp not_found : Route

unfoldable pub route_of : String → String → Route
route_of method path =
    if method == "GET" && path == "/healthz"
    then health
    else if method == "GET" && path == "/readyz"
    then readiness_probe
    else if method == "GET" && path == "/.well-known/oauth-protected-resource/mcp"
    then resource_metadata
    else if method == "GET" && path == "/client.json"
    then client_document
    else if method == "GET" && path == "/jwks.json"
    then key_set
    else if not (method == "POST") || not (path == "/mcp")
    then not_found
    else mcp

unfoldable pub ready_response : Bool → HttpResponse
ready_response ready =
    json_response (if ready then 200 else 503) (dict (("ready", bool ready) ∷ [])) []

module _ {Authority Host : Type 0} where
  unfoldable pub challenged : Web → Gateway Authority Host → Result HttpResponse
  unfolding concat
  challenged w g =
      elim (www_authenticate w
        (concat (g.base_url ∷ "/.well-known/oauth-protected-resource/mcp" ∷ [])) g.required_scope) [
          | err e ↦ err e
          | ok challenge ↦ ok (
              json_response 401 (dict (("error", str "invalid_token") ∷ []))
                (("WWW-Authenticate", challenge) ∷ []))
        ]

  unfoldable pub post_mcp :
      Web → Gateway Authority Host → List (String × String) → List ℕ → Stateful Host HttpResponse
  post_mcp w g headers body =
      if ltb g.max_body_bytes (length body)
      then lift (ok (json_response 413 (dict (("error", str "request_too_large") ∷ [])) []))
      else elim (bearer w headers) [
        | none ↦ lift (challenged w g)
        | some token ↦ attempt w g token body
      ]

  unfoldable pub resource_document : Web → Gateway Authority Host → Result HttpResponse
  unfolding concat
  resource_document w g =
      elim (protected_resource_metadata w (concat (g.base_url ∷ "/mcp" ∷ []))
        g.authorization_servers (g.required_scope ∷ [])) [
          | err e ↦ err e
          | ok document ↦ ok (json_response 200 document [])
        ]

  unfoldable pub probed : Gateway Authority Host → Stateful Host HttpResponse
  probed g = do ready ← g.readiness; lift (ok (ready_response ready))

  unfoldable pub serve :
      Web
      → Gateway Authority Host
      → List (String × String)
      → List ℕ
      → Route
      → Stateful Host HttpResponse
  serve w g headers body health = lift (ok (json_response 200 (dict (("live", bool true) ∷ [])) []))
  serve w g headers body readiness_probe = probed g
  serve w g headers body resource_metadata = lift (resource_document w g)
  serve w g headers body client_document = lift (ok (json_response 200 g.cimd_document []))
  serve w g headers body key_set = lift (ok (json_response 200 g.jwks []))
  serve w g headers body mcp = post_mcp w g headers body
  serve w g headers body not_found =
      lift (ok (json_response 404 (dict (("error", str "not_found") ∷ [])) []))

  unfoldable pub handle :
      Web
      → Gateway Authority Host
      → String
      → String
      → List (String × String)
      → List ℕ
      → Stateful Host HttpResponse
  handle w g method path headers body = serve w g headers body (route_of method path)
