-- ===== src/Openid/Server/Statuses.antt =====
-- The statuses of the gateway's responses, and what `wsgi` makes of them.
use mathlib.Core.Path.{subst}
use minority_prophet_border.Py.Result.{Result, Result-cases, err, exn, ok, Exn}
use minority_prophet_border.Openid.Http.{HttpResponse, bearer, json_request, json_response}
use minority_prophet_border.Py.Equality.{value_eq}
use minority_prophet_border.Prelude.{
  Bool-cases, List, Option, Option-cases, String, false, inl, inr, length, ltb, none, refl, some,
  true, ℕ, ◌≡◌, [], ap, ◌∙◌, ◌∷◌, ◌⊎◌, ◌≢◌,
}
use minority_prophet_border.Openid.Server.{
  Gateway, answer, attempt, call_tool, check_token, dispatch, id_of, identified, initialized,
  is_caught, protocol_version, rejection,
}
use minority_prophet_border.Py.Stateful.{Step-cases, recovered}
use minority_prophet_border.Openid.Server.Routes.{
  challenged, post_mcp, Route, client_document, handle, health, key_set, mcp, not_found, probed,
  readiness_probe, ready_response, resource_document, resource_metadata, serve, route_of,
}
use minority_prophet_border.Py.Value.{Fields, Value, get, lookup, str}
use minority_prophet_border.Openid.Web.{Web}
use minority_prophet_border.Openid.Server.Wsgi.{
  reason, Environ, first_bytes, http_headers, path_info, read_length, served, variable, wsgi,
}
use minority_prophet_border.Openid.Aiim.{protected_resource_metadata, www_authenticate}
use minority_prophet_border.Py.Text.{concat}

HasReason : Result HttpResponse → Type 0
HasReason (err e) = Unit
HasReason (ok r) = (text : String) × (reason r.status ≡ ok text)

same_error :
    {A B : Type 0} {e f : Exn}
    → ◌≡◌ {A = Result A} (err f) (err e)
    → ◌≡◌ {A = Result B} (err f) (err e)
same_error h = ap err (injective h)
  where
    injective : {C : Type 0} {x y : Exn} → ◌≡◌ {A = Result C} (err x) (err y) → x ≡ y
    injective k = cc

served_response : {e : Exn} (r : HttpResponse) → HasReason (ok r) → served r ≢ err e
unfolding HasReason served
served_response r (text, known) h = cc (rw (known, served) at h)

module _ {Authority Host : Type 0} (w : Web) (g : Gateway Authority Host) where
  initialized-HasReason : (request : Fields) (v : Value) → HasReason (initialized g request v)
  unfolding initialized HasReason json_response reason
  initialized-HasReason request v = elim (Result-cases (protocol_version request)) [
    | inl (version, q) ↦ rw (q, HasReason) ("OK", refl)
    | inr (e, q) ↦ rw (q, HasReason) tt
  ]

  call_tool-HasReason :
      (token : String) (request : Fields) (v : Value) (id_text : String) (s : Host)
      → HasReason (call_tool g token request v id_text s).0
  unfolding call_tool HasReason json_response reason
  call_tool-HasReason token request v id_text s = elim (Step-cases (g.authorize token request s)) [
    | inr (e, t, q) ↦ rw q tt
    | inl (authority, t, q) ↦ elim (Step-cases (g.admit_once id_text t)) [
      | inr (e, u, p) ↦ rw (q, p) tt
      | inl (false, u, p) ↦ rw (q, p) tt
      | inl (true, u, p) ↦ elim (Step-cases (g.execute request authority u)) [
        | inr (e, x, f) ↦ rw (q, p, f) tt
        | inl (d, x, f) ↦ rw (q, p, f) ("OK", refl)
      ]
    ]
  ]

  dispatch-HasReason :
      (token : String) (request : Fields) (v : Value) (id_text : String) (s : Host)
      → HasReason (dispatch g token request v id_text s).0
  unfolding dispatch HasReason json_response reason
  dispatch-HasReason token request v id_text s =
      let name = get request "method" in
      elim (Bool-cases (value_eq name (str "initialize"))) [
        | inl y ↦ rw y (initialized-HasReason request v)
        | inr n ↦ elim (Bool-cases (value_eq name (str "tools/list"))) [
          | inl y ↦ rw (n, y) ("OK", refl)
          | inr m ↦ elim (Bool-cases (value_eq name (str "tools/call"))) [
            | inl y ↦ rw (n, m, y) (call_tool-HasReason token request v id_text s)
            | inr o ↦ rw (n, m, o) ("OK", refl)
          ]
        ]
      ]

  identified-HasReason :
      (token : String) (request : Fields) (id : Option Value) (s : Host)
      → HasReason (identified g token request id s).0
  unfolding identified HasReason reason
  identified-HasReason token request none s =
      elim (Bool-cases (value_eq (get request "method") (str "notifications/initialized"))) [
        | inl y ↦ rw y ("Accepted", refl)
        | inr n ↦ rw n tt
      ]
  identified-HasReason token request (some v) s = elim (Result-cases (id_of v)) [
    | inr (e, q) ↦ rw (q, identified) tt
    | inl (id_text, q) ↦ rw (q, identified) (dispatch-HasReason token request v id_text s)
  ]

  answer-HasReason :
      (token : String) (request : Fields) (s : Host) → HasReason (answer g token request s).0
  unfolding answer HasReason
  answer-HasReason token request s =
      elim (Bool-cases (value_eq (get request "jsonrpc") (str "2.0"))) [
        | inr n ↦ rw n tt
        | inl y ↦ elim (Step-cases (check_token g.authenticate token request s)) [
          | inr (e, t, q) ↦ rw (y, q) tt
          | inl (done, t, q) ↦
              rw (y, q) (identified-HasReason token request (lookup "id" request) t)
        ]
      ]

  recovered-HasReason :
      (step : Result HttpResponse × Host)
      → HasReason step.0
      → HasReason (recovered is_caught rejection step).0
  unfolding HasReason json_response reason
  recovered-HasReason (ok r, s) h = h
  recovered-HasReason (err (exn c m), s) h = elim (Bool-cases (is_caught c)) [
    | inl y ↦ rw y ("Forbidden", refl)
    | inr n ↦ rw n tt
  ]

  challenged-HasReason : HasReason (challenged w g)
  unfolding challenged HasReason json_response reason
  challenged-HasReason =
      elim (Result-cases (
        www_authenticate w (concat (g.base_url ∷ "/.well-known/oauth-protected-resource/mcp" ∷ []))
          g.required_scope)) [
            | inl (text, q) ↦ rw (q, HasReason) ("Unauthorized", refl)
            | inr (e, q) ↦ rw (q, HasReason) tt
          ]

  resource_document-HasReason : HasReason (resource_document w g)
  unfolding resource_document HasReason json_response reason
  resource_document-HasReason =
      elim (Result-cases (
        protected_resource_metadata w (concat (g.base_url ∷ "/mcp" ∷ [])) g.authorization_servers
          (g.required_scope ∷ []))) [
            | inl (text, q) ↦ rw (q, HasReason) ("OK", refl)
            | inr (e, q) ↦ rw (q, HasReason) tt
          ]

  probed-HasReason : (s : Host) → HasReason (probed g s).0
  unfolding probed ready_response HasReason json_response reason
  probed-HasReason s = elim (Step-cases (g.readiness s)) [
    | inl (true, t, q) ↦ rw q ("OK", refl)
    | inl (false, t, q) ↦ rw q ("Service Unavailable", refl)
    | inr (e, t, q) ↦ rw q tt
  ]

  post_mcp-HasReason :
      (headers : List (String × String)) (body : List ℕ) (s : Host)
      → HasReason (post_mcp w g headers body s).0
  unfolding post_mcp attempt challenged HasReason json_response reason
  post_mcp-HasReason headers body s = elim (Bool-cases (ltb g.max_body_bytes (length body))) [
    | inl y ↦ rw y ("Content Too Large", refl)
    | inr n ↦ elim (Option-cases (bearer w headers)) [
      | inl absent ↦ rw (n, absent) challenged-HasReason
      | inr (token, b) ↦ elim (Result-cases (json_request w body)) [
        | inr (e, q) ↦ rw (n, b, q) (recovered-HasReason (err e, s) tt)
        | inl (request, q) ↦
            rw (n, b, q)
              (recovered-HasReason (answer g token request s) (answer-HasReason token request s))
      ]
    ]
  ]

  serve-HasReason :
      (headers : List (String × String)) (body : List ℕ) (route : Route) (s : Host)
      → HasReason (serve w g headers body route s).0
  unfolding serve HasReason json_response reason
  serve-HasReason headers body health s = ("OK", refl)
  serve-HasReason headers body readiness_probe s = probed-HasReason s
  serve-HasReason headers body resource_metadata s = resource_document-HasReason
  serve-HasReason headers body client_document s = ("OK", refl)
  serve-HasReason headers body key_set s = ("OK", refl)
  serve-HasReason headers body mcp s = post_mcp-HasReason headers body s
  serve-HasReason headers body not_found s = ("Not Found", refl)

  handle-HasReason :
      (method path : String) (headers : List (String × String)) (body : List ℕ) (s : Host)
      → HasReason (handle w g method path headers body s).0
  unfolding handle
  handle-HasReason method path headers body s =
      serve-HasReason headers body (route_of method path) s

  -- Every response of `handle` has a status that `wsgi` has a reason for, so `wsgi` raises only what
  -- reading the declared length raises, or for want of a method, or what `handle` raises.
  pub wsgi_raises :
      (environ : Environ) (s : Host) (e : Exn)
      → (wsgi w g environ s).0 ≡ err e
      → (read_length w g.max_body_bytes environ.content_length ≡ err e)
        ⊎ ((variable "REQUEST_METHOD" environ.variables ≡ err e)
            ⊎ ((size : ℕ) × (method : String) × ((handle w g method
                    (path_info environ.variables)
                    (http_headers environ.variables)
                    (first_bytes size environ.input)
                    s).0
                  ≡ err e)))
  unfolding wsgi
  wsgi_raises environ s e h =
      elim (Result-cases (read_length w g.max_body_bytes environ.content_length)) [
        | inr (f, q) ↦ inl (q ∙ same_error (rw q at h))
        | inl (size, q) ↦ elim (Result-cases (variable "REQUEST_METHOD" environ.variables)) [
          | inr (f, p) ↦ inr (inl (p ∙ same_error (rw (q, p) at h)))
          | inl (method, p) ↦
              elim (Step-cases (
                handle w g method (path_info environ.variables) (http_headers environ.variables)
                  (first_bytes size environ.input) s)) [
                    | inr (f, t, r) ↦
                        inr (inr (size, method, ap (λ x. x.0) r ∙ same_error (rw (q, p, r) at h)))
                    | inl (response, t, r) ↦ absurd (
                        served_response response
                          (subst HasReason (ap (λ x. x.0) r) (
                            handle-HasReason method (path_info environ.variables)
                              (http_headers environ.variables) (first_bytes size environ.input) s))
                          (rw (q, p, r) at h))
                  ]
        ]
      ]
