-- ===== src/Openid/Server/Effects.antt =====
-- What a request does to the state of the host.
use minority_prophet_border.Py.Stateful.{◌>>=◌, recovered-state, next}
use mathlib.Core.Path.{subst}
use minority_prophet_border.Py.Value.{Fields, Value, get, str, lookup, null}
use minority_prophet_border.Py.Result.{Exn, Result, err, ok, Result-cases}
use minority_prophet_border.Prelude.{
  Bool, Bool-cases, List, String, false, inl, inr, some, true, ℕ, ◌≡◌, ◌≢◌, none, refl,
  Option-cases, ap, sym, ◌∙◌, Option, length, ltb,
}
use minority_prophet_border.Openid.Server.{
  Gateway, call_tool, dispatch, id_of, answer, attempt, identified, is_caught, rejection,
  check_token,
}
use minority_prophet_border.Openid.Http.{bearer, json_request, HttpResponse}
use minority_prophet_border.Openid.Web.{Web}
use minority_prophet_border.Py.Stateful.{Stateful, Step-cases, lift}
use minority_prophet_border.Py.Equality.{value_eq}
use minority_prophet_border.Openid.Server.Routes.{
  handle, post_mcp, probed, Route, client_document, health, key_set, mcp, not_found,
  readiness_probe, resource_metadata, route_of, serve,
}

-- The host's state before a request and after it
pub data Effect {Authority Host : Type 0} (w : Web) (g : Gateway Authority Host)
    (headers : List (String × String)) (body : List ℕ) : Host → Host → Type 0 where
  untouched : (s : Host) → Effect w g headers body s s
  readied : (s t : Host) (r : Result Bool) → g.readiness s ≡ (r, t) → Effect w g headers body s t
  authenticated :
      (s t : Host) (token : String) (r : Result (Unit {0}))
      (check : String → Stateful Host (Unit {0}))
      → bearer w headers ≡ some token
      → g.authenticate ≡ some check
      → check token s ≡ (r, t)
      → Effect w g headers body s t
  unauthorized :
      (s t : Host) (token : String) (request : Fields) (e : Exn)
      → bearer w headers ≡ some token
      → json_request w body ≡ ok request
      → g.authorize token request s ≡ (err e, t)
      → Effect w g headers body s t
  not_admitted :
      (s t u : Host) (token : String) (request : Fields) (authority : Authority) (id_text : String)
      (r : Result Bool)
      → bearer w headers ≡ some token
      → json_request w body ≡ ok request
      → g.authorize token request s ≡ (ok authority, t)
      → g.admit_once id_text t ≡ (r, u)
      → r ≢ ok true
      → Effect w g headers body s u
  executed :
      (s t u v : Host) (token : String) (request : Fields) (authority : Authority)
      (id_text : String) (r : Result Fields)
      → bearer w headers ≡ some token
      → json_request w body ≡ ok request
      → id_of (get request "id") ≡ ok id_text
      → g.authorize token request s ≡ (ok authority, t)
      → g.admit_once id_text t ≡ (ok true, u)
      → g.execute request authority u ≡ (r, v)
      → Effect w g headers body s v

module _ {Authority Host : Type 0} (w : Web) (g : Gateway Authority Host)
    (headers : List (String × String)) (body : List ℕ) where
  probed-Effect : (s : Host) → Effect w g headers body s (probed g s).1
  unfolding probed
  probed-Effect s = elim (Step-cases (g.readiness s)) [
    | inl (ready, t, q) ↦ rw q (readied s t (ok ready) q)
    | inr (e, t, q) ↦ rw q (readied s t (err e) q)
  ]

  call_tool-Effect :
      (token : String) (request : Fields) (v : Value) (id_text : String) (s : Host)
      → bearer w headers ≡ some token
      → json_request w body ≡ ok request
      → id_of (get request "id") ≡ ok id_text
      → Effect w g headers body s (call_tool g token request v id_text s).1
  unfolding call_tool
  call_tool-Effect token request v id_text s b j i =
      elim (Step-cases (g.authorize token request s)) [
        | inr (e, t, q) ↦ rw q (unauthorized s t token request e b j q)
        | inl (authority, t, q) ↦ elim (Step-cases (g.admit_once id_text t)) [
          | inr (e, u, p) ↦
              rw (q, p)
                (not_admitted s t u token request authority id_text (err e) b j q p err-≢-ok)
          | inl (true, u, p) ↦ elim (Step-cases (g.execute request authority u)) [
            | inr (e, x, f) ↦
                rw (q, p, f) (executed s t u x token request authority id_text (err e) b j i q p f)
            | inl (d, x, f) ↦
                rw (q, p, f) (executed s t u x token request authority id_text (ok d) b j i q p f)
          ]
          | inl (false, u, p) ↦
              rw (q, p)
                (not_admitted s t u token request authority id_text (ok false) b j q p (λ e. cc))
        ]
      ]
    where
      err-≢-ok : {e : Exn} → err e ≢ ok true
      err-≢-ok h = cc

  dispatch-Effect :
      (token : String) (request : Fields) (v : Value) (id_text : String) (s : Host)
      → bearer w headers ≡ some token
      → json_request w body ≡ ok request
      → id_of (get request "id") ≡ ok id_text
      → Effect w g headers body s (dispatch g token request v id_text s).1
  unfolding dispatch
  dispatch-Effect token request v id_text s b j i =
      let name = get request "method" in
      elim (Bool-cases (value_eq name (str "initialize"))) [
        | inl y ↦ rw y (untouched s)
        | inr n ↦ elim (Bool-cases (value_eq name (str "tools/list"))) [
          | inl y ↦ rw (n, y) (untouched s)
          | inr m ↦ elim (Bool-cases (value_eq name (str "tools/call"))) [
            | inl y ↦ rw (n, m, y) (call_tool-Effect token request v id_text s b j i)
            | inr o ↦ rw (n, m, o) (untouched s)
          ]
        ]
      ]

  -- Any other method than a tool call leaves the host alone.
  dispatch-state :
      (token : String) (request : Fields) (v : Value) (id_text : String) (s : Host)
      → value_eq (get request "method") (str "tools/call") ≡ false
      → (dispatch g token request v id_text s).1 ≡ s
  unfolding dispatch
  dispatch-state token request v id_text s o =
      let name = get request "method" in
      elim (Bool-cases (value_eq name (str "initialize"))) [
        | inl y ↦ rw y refl
        | inr n ↦ elim (Bool-cases (value_eq name (str "tools/list"))) [
          | inl y ↦ rw (n, y) refl
          | inr m ↦ rw (n, m, o) refl
        ]
      ]

  identified-Effect :
      (token : String) (request : Fields) (id : Option Value) (s : Host)
      → bearer w headers ≡ some token
      → json_request w body ≡ ok request
      → lookup "id" request ≡ id
      → Effect w g headers body s (identified g token request id s).1
  unfolding identified
  identified-Effect token request none s b j found =
      elim (Bool-cases (value_eq (get request "method") (str "notifications/initialized"))) [
        | inl y ↦ rw y (untouched s)
        | inr n ↦ rw n (untouched s)
      ]
  identified-Effect token request (some v) s b j found = elim (Result-cases (id_of v)) [
    | inr (e, q) ↦ rw (q, identified) (untouched s)
    | inl (id_text, q) ↦
        rw (q, identified)
          (dispatch-Effect token request v id_text s b j (ap id_of (ap of_lookup found) ∙ q))
  ]
    where
      of_lookup : Option Value → Value
      of_lookup none = null
      of_lookup (some v) = v

  identified-state :
      (token : String) (request : Fields) (id : Option Value) (s : Host)
      → value_eq (get request "method") (str "tools/call") ≡ false
      → (identified g token request id s).1 ≡ s
  unfolding identified
  identified-state token request none s o =
      elim (Bool-cases (value_eq (get request "method") (str "notifications/initialized"))) [
        | inl y ↦ rw y refl
        | inr n ↦ rw n refl
      ]
  identified-state token request (some v) s o = elim (Result-cases (id_of v)) [
    | inr (e, q) ↦ rw (q, identified) refl
    | inl (id_text, q) ↦ rw (q, identified) (dispatch-state token request v id_text s o)
  ]

  checked-Effect :
      (authenticate : Option (String → Stateful Host (Unit {0}))) (token : String)
      (request : Fields) (s : Host)
      → bearer w headers ≡ some token
      → json_request w body ≡ ok request
      → g.authenticate ≡ authenticate
      → Effect w g headers body s
          (next
            (check_token authenticate token request s)
            (λ checked. identified g token request (lookup "id" request))).1
  unfolding check_token
  checked-Effect none token request s b j ungated =
      identified-Effect token request (lookup "id" request) s b j refl
  checked-Effect (some check) token request s b j closed =
      elim (Bool-cases (value_eq (get request "method") (str "tools/call"))) [
        | inl call ↦ rw call (identified-Effect token request (lookup "id" request) s b j refl)
        | inr other ↦ elim (Step-cases (check token s)) [
          | inr (e, t, q) ↦ rw (other, q) (authenticated s t token (err e) check b closed q)
          | inl (done, t, q) ↦
              rw (other, q, identified-state token request (lookup "id" request) t other)
                (authenticated s t token (ok done) check b closed q)
        ]
      ]

  answer-Effect :
      (token : String) (request : Fields) (s : Host)
      → bearer w headers ≡ some token
      → json_request w body ≡ ok request
      → Effect w g headers body s (answer g token request s).1
  unfolding answer
  answer-Effect token request s b j =
      elim (Bool-cases (value_eq (get request "jsonrpc") (str "2.0"))) [
        | inr n ↦ rw n (untouched s)
        | inl versioned ↦ rw versioned (checked-Effect g.authenticate token request s b j refl)
      ]

  attempt-Effect :
      (token : String) (s : Host)
      → bearer w headers ≡ some token
      → Effect w g headers body s (attempt w g token body s).1
  unfolding attempt
  attempt-Effect token s b = elim (Result-cases (json_request w body)) [
    | inr (e, q) ↦
        subst (Effect w g headers body s)
          (sym (recovered-state is_caught rejection (step s)) ∙ refl) (rw q (untouched s))
    | inl (request, q) ↦
        rw (recovered-state is_caught rejection (step s), q) (answer-Effect token request s b q)
  ]
    where
      step : Stateful Host HttpResponse
      step = lift (json_request w body) >>= λ request. answer g token request

  post_mcp-Effect : (s : Host) → Effect w g headers body s (post_mcp w g headers body s).1
  unfolding post_mcp
  post_mcp-Effect s = elim (Bool-cases (ltb g.max_body_bytes (length body))) [
    | inl y ↦ rw y (untouched s)
    | inr n ↦ elim (Option-cases (bearer w headers)) [
      | inl absent ↦ rw (n, absent) (untouched s)
      | inr (token, b) ↦ rw (n, b) (attempt-Effect token s b)
    ]
  ]

  serve-Effect :
      (route : Route) (s : Host) → Effect w g headers body s (serve w g headers body route s).1
  unfolding serve
  serve-Effect health s = untouched s
  serve-Effect readiness_probe s = probed-Effect s
  serve-Effect resource_metadata s = untouched s
  serve-Effect client_document s = untouched s
  serve-Effect key_set s = untouched s
  serve-Effect mcp s = post_mcp-Effect s
  serve-Effect not_found s = untouched s

  -- Whatever the request, the host's state after `handle` is the one before it, or comes from the
  -- readiness probe, or from the check of a bearer token, or from a tool call: `authorize` for the
  -- token and the decoded request, then `admit_once` for the identifier of that request, and
  -- `execute` only where the first gave an authority, which it is handed, and the second `True`.
  pub handle-Effect :
      (method path : String) (s : Host)
      → Effect w g headers body s (handle w g method path headers body s).1
  unfolding handle
  handle-Effect method path s = serve-Effect (route_of method path) s
