-- ===== src/Openid/Server/Limit.antt =====
-- The limit on the length of a request's body.
use mathlib.Core.Path.{subst}
use minority_prophet_border.Prelude.{
  List, [], arith, length, refl, suc, zero, ℕ, ◌+◌, ◌∷◌, ◌≡◌, ◌≤◌, String, ap, ltb, some, true, ◌<◌,
  ◌∙◌, sym, ◌++◌,
}
use minority_prophet_border.Openid.Server.Wsgi.{
  first_bytes, read_length, Environ, Served, cut_length, declared_length, http_headers, variable,
  wsgi, reason, served, path_info,
}
use minority_prophet_border.Py.Value.{dict, str}
use minority_prophet_border.Py.Result.{ok}
use minority_prophet_border.Prelude.Int.{pos}
use minority_prophet_border.Openid.Web.{Web}
use minority_prophet_border.Py.Table.{row_of}
use minority_prophet_border.Openid.Server.Routes.{handle, post_mcp, route_of, serve}
use minority_prophet_border.Openid.Server.{Gateway}
use minority_prophet_border.Openid.Http.{json_response, HttpResponse}
use minority_prophet_border.Py.Text.{concat, decimal}

length-first_bytes : (n : ℕ) (input : List ℕ) → n ≤ length input → length (first_bytes n input) ≡ n
unfolding first_bytes
length-first_bytes zero input h = refl
length-first_bytes (suc n) [] h = absurd (omega arith)
length-first_bytes (suc n) (b ∷ input) h = ground (arith, length-first_bytes n input)

cut_length_long : (most n : ℕ) → most < n → cut_length most (ok (pos n)) ≡ ok (most + 1)
unfolding cut_length
cut_length_long most n h = ground arith

post_mcp_long :
    {Authority Host : Type 0} (w : Web) (g : Gateway Authority Host)
    (headers : List (String × String)) (body : List ℕ) (s : Host)
    → g.max_body_bytes < length body
    → post_mcp w g headers body s
      ≡ (ok (json_response 413 (dict (("error", str "request_too_large") ∷ [])) []), s)
unfolding post_mcp
post_mcp_long w g headers body s h = rw (lt→ltb h) refl
  where
    lt→ltb : {m n : ℕ} → m < n → ltb m n ≡ true
    lt→ltb less = ground arith

variable_there :
    (key : String) {v : String} (vs : List (String × String))
    → row_of key vs ≡ some v
    → variable key vs ≡ ok v
unfolding variable
variable_there key vs h = rw (variable, h) refl

path_there :
    {path : String} (vs : List (String × String))
    → row_of "PATH_INFO" vs ≡ some path
    → path_info vs ≡ path
path_there vs h = rw (path_info, h) refl

abbrev too_large : Served
unfolding json_response concat decimal
too_large = record {
  status_line = "413 Content Too Large";
  headers = answer.headers ++ (("Content-Length", decimal (length answer.body)) ∷ []);
  body = answer.body;
}
  where
    answer : HttpResponse
    answer = json_response 413 (dict (("error", str "request_too_large") ∷ [])) []

-- A `POST` to `/mcp` that declares a body longer than the limit, and sends one, is answered with
-- status 413 from the first bytes alone, one more than the limit, and the host is left as it was.
pub wsgi_refuses_long :
    {Authority Host : Type 0} (w : Web) (g : Gateway Authority Host) (environ : Environ) (s : Host)
    (n : ℕ)
    → declared_length w environ.content_length ≡ ok (pos n)
    → g.max_body_bytes < n
    → g.max_body_bytes < length environ.input
    → row_of "REQUEST_METHOD" environ.variables ≡ some "POST"
    → row_of "PATH_INFO" environ.variables ≡ some "/mcp"
    → (response : Served) × (wsgi w g environ s ≡ (ok response, s))
      × (response.status_line ≡ "413 Content Too Large")
      × (read_length w g.max_body_bytes environ.content_length ≡ ok (g.max_body_bytes + 1))
unfolding wsgi read_length variable handle serve route_of served reason json_response concat decimal
wsgi_refuses_long w g environ s n declared long sent method path =
    let size = g.max_body_bytes + 1 in
    let cut = ap (cut_length g.max_body_bytes) declared ∙ cut_length_long g.max_body_bytes n long in
    let body = first_bytes size environ.input in
    let over = post_mcp_long w g (http_headers environ.variables) body s (
      subst (λ m. g.max_body_bytes < m) (sym (length-first_bytes size environ.input (omega arith)))
        (omega arith)) in
    (
      too_large,
      rw
          (
            cut,
            variable_there "REQUEST_METHOD" environ.variables method,
            path_there environ.variables path,
            over,
          )
          refl,
      refl,
      cut,
    )
