-- ===== src/Openid/Server/Wsgi.antt =====
-- border/openid_gateway.py: `OpenIDGatewayServer.wsgi`. `variables` are the entries of `environ`
-- whose values are texts, and `input` is what its stream has to read.
use minority_prophet_border.Py.Stateful.{◌>>=◌}
use minority_prophet_border.Prelude.{
  List, String, [], if◌then◌else◌, length, ltb, nat_eq, none, some, starts_with, suc, zero, ℕ, ◌++◌,
  ◌+◌, ◌∷◌,
}
use minority_prophet_border.Py.Stateful.{Stateful, lift}
use minority_prophet_border.Prelude.Int.{negsuc, pos, ℤ}
use minority_prophet_border.Py.Value.{Value, int, truthy}
use minority_prophet_border.Py.Result.{Result, err, exn, key_error, ok, type_error, value_error}
use minority_prophet_border.Py.Table.{row_of}
use minority_prophet_border.Py.Text.{concat, decimal, drop_chars, replace}
use minority_prophet_border.Openid.Http.{HttpResponse}
use minority_prophet_border.Openid.Server.{Gateway}
use minority_prophet_border.Openid.Server.Routes.{handle}
use minority_prophet_border.Openid.Web.{Web}

pub record Environ : Type 0 where
  pub variables : List (String × String)
  pub content_length : Value
  pub input : List ℕ

-- What `start_response` is called with, and the body that is returned
pub record Served : Type 0 where
  pub status_line : String
  pub headers : List (String × String)
  pub body : List ℕ

-- The declared length, cut to what is read; one that is no number, or is negative, counts as one
-- more than the limit.
unfoldable pub cut_length : ℕ → Result ℤ → Result ℕ
cut_length most (ok (pos n)) = ok (if ltb n (most + 1) then n else most + 1)
cut_length most (ok (negsuc n)) = ok (most + 1)
cut_length most (err (exn value_error m)) = ok (most + 1)
cut_length most (err (exn type_error m)) = ok (most + 1)
cut_length most (err e) = err e

-- `int(environ.get("CONTENT_LENGTH") or 0)`
unfoldable pub declared_length : Web → Value → Result ℤ
declared_length w content_length =
    w.int_of (if truthy content_length then content_length else int (pos 0))

unfoldable pub read_length : Web → ℕ → Value → Result ℕ
read_length w most content_length = cut_length most (declared_length w content_length)

-- `stream.read(n)`
unfoldable pub first_bytes : ℕ → List ℕ → List ℕ
first_bytes zero input = []
first_bytes (suc n) [] = []
first_bytes (suc n) (b ∷ input) = b ∷ first_bytes n input

-- `{key[5:].replace("_", "-"): value … if key.startswith("HTTP_")}`
unfoldable pub http_headers : List (String × String) → List (String × String)
unfolding replace
http_headers [] = []
http_headers ((k, v) ∷ rest) =
    let more = http_headers rest in
    if starts_with k "HTTP_" then (replace (drop_chars 5 k) "_" "-", v) ∷ more else more

-- `environ[key]`
unfoldable pub variable : String → List (String × String) → Result String
variable key variables = elim (row_of key variables) [
  | none ↦ err (exn key_error key)
  | some v ↦ ok v
]

-- `reasons[status]`
unfoldable pub reason : ℕ → Result String
unfolding decimal
reason status =
    if nat_eq status 200
    then ok "OK"
    else if nat_eq status 202
    then ok "Accepted"
    else if nat_eq status 401
    then ok "Unauthorized"
    else if nat_eq status 403
    then ok "Forbidden"
    else if nat_eq status 404
    then ok "Not Found"
    else if nat_eq status 413
    then ok "Content Too Large"
    else if nat_eq status 503
    then ok "Service Unavailable"
    else err (exn key_error (decimal status))

unfoldable pub served : HttpResponse → Result Served
unfolding concat decimal
served r = elim (reason r.status) [
  | err e ↦ err e
  | ok text ↦ ok (record {
    status_line = concat (decimal r.status ∷ " " ∷ text ∷ []);
    headers = r.headers ++ (("Content-Length", decimal (length r.body)) ∷ []);
    body = r.body;
  })
]

-- `environ.get("PATH_INFO", "/")`
abbrev pub path_info : List (String × String) → String
path_info variables = elim (row_of "PATH_INFO" variables) [ none ↦ "/" | some path ↦ path ]

module _ {Authority Host : Type 0} where
  unfoldable pub wsgi : Web → Gateway Authority Host → Environ → Stateful Host Served
  wsgi w g environ = do
    size ← lift (read_length w g.max_body_bytes environ.content_length)
    method ← lift (variable "REQUEST_METHOD" environ.variables)
    response ←
        handle w g method (path_info environ.variables) (http_headers environ.variables)
          (first_bytes size environ.input)
    lift (served response)
