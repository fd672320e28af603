-- ===== src/Tests/Server.antt =====
-- A gateway whose host counts what it is asked, admits an identifier once, and echoes.
use mathlib.Core.Path.{subst}
use minority_prophet_border.Openid.Server.Limit.{wsgi_refuses_long}
use minority_prophet_border.Py.Json.{dumps_compact, to_ascii}
use minority_prophet_border.Openid.Server.Wsgi.{
  Environ, Served, cut_length, declared_length, first_bytes, http_headers, path_info, read_length,
  reason, served, variable, wsgi,
}
use minority_prophet_border.Openid.Server.Routes.{
  challenged, handle, post_mcp, probed, ready_response, resource_document, route_of, serve,
}
use minority_prophet_border.Openid.Http.{
  bearer, header_value, json_request, json_response, unique_pairs,
}
use minority_prophet_border.Prelude.{
  Bool, List, String, [], arith, false, if◌then◌else◌, none, refl, true, ℕ, ◌+◌, ◌∷◌, ◌≡◌, ◌⊎◌,
}
use minority_prophet_border.Py.Text.{concat, replace}
use minority_prophet_border.Openid.Server.{
  Gateway, answer, attempt, call_tool, check_token, dispatch, id_of, identified, protocol_version,
  rejection,
}
use minority_prophet_border.Py.Result.{Result, err, exn, key_error, ok}
use minority_prophet_border.Openid.Server.Statuses.{wsgi_raises}
use minority_prophet_border.Py.Equality.{value_eq}
use minority_prophet_border.Py.Value.{dict, int, mem, null, put, str, Fields, end}
use minority_prophet_border.Openid.Server.Effects.{Effect, handle-Effect}
use minority_prophet_border.Jcs.{render}
use minority_prophet_border.Openid.Aiim.{https, www_authenticate}
use minority_prophet_border.Tests.Web.{toy_web, web_runs}
use minority_prophet_border.Admission.Base.{refused}
use minority_prophet_border.Prelude.Int.{pos}
use minority_prophet_border.Openid.Http.Pairs.{distinct_names, unique_pairs-distinct_names}

-- The identifiers admitted, and the number of calls carried out
pub record Host : Type 0 where
  pub admitted : List String
  pub calls : ℕ

unfoldable admits : String → Host → Result Bool × Host
admits id s =
    if mem id s.admitted then (ok false, s) else (ok true, record s { admitted = id ∷ s.admitted })

abbrev gateway : Gateway String Host
gateway = record {
  base_url = "https://m";
  authorization_servers = "https://as" ∷ [];
  required_scope = "mcp";
  cimd_document = dict [];
  jwks = dict [];
  authorize = λ token request s. (ok token, s);
  readiness = λ s. (ok true, s);
  admit_once = admits;
  execute = λ request authority s.
      (ok (dict (("by", str authority) ∷ [])), record s { calls = s.calls + 1 });
  server_name = "border";
  server_version = "0.1.0";
  tools = [];
  authenticate = none;
  max_body_bytes = 2;
}

abbrev fresh_host : Host
fresh_host = record { admitted = []; calls = 0 }

abbrev served_host : Host
served_host = record { admitted = "7" ∷ []; calls = 1 }

abbrev bearer_header : List (String × String)
bearer_header = ("authorization", "bearer tok") ∷ []

unfoldable server_runs : Unit {0}
unfolding web_runs admits json_response dumps_compact to_ascii render header_value bearer
    unique_pairs put json_request id_of protocol_version call_tool dispatch check_token identified
    answer attempt challenged post_mcp resource_document ready_response route_of probed serve handle
    cut_length declared_length read_length first_bytes http_headers variable reason served wsgi
    value_eq www_authenticate https concat replace
server_runs = tt

-- A call is carried out once; the same identifier is refused when it comes again.
called : (handle toy_web gateway "POST" "/mcp" bearer_header (b'q' ∷ []) fresh_host).1 ≡ served_host
unfolding server_runs
called = refl

called_again :
    handle toy_web gateway "POST" "/mcp" bearer_header (b'q' ∷ []) served_host
    ≡ (ok (rejection (refused "MCP request identifier was already admitted")), served_host)
unfolding server_runs
called_again = refl

handle-Effect_example : Effect toy_web gateway bearer_header (b'q' ∷ []) fresh_host served_host
handle-Effect_example =
    subst (Effect toy_web gateway bearer_header (b'q' ∷ []) fresh_host) called
      (handle-Effect toy_web gateway bearer_header (b'q' ∷ []) "POST" "/mcp" fresh_host)

-- A request of three bytes to a gateway that takes two
abbrev long_request : Environ
long_request = record {
  variables = ("REQUEST_METHOD", "POST") ∷ ("PATH_INFO", "/mcp") ∷ [];
  content_length = int (pos 3);
  input = b'q' ∷ b'q' ∷ b'q' ∷ [];
}

declared : declared_length toy_web long_request.content_length ≡ ok (pos 3)
unfolding server_runs
declared = refl

wsgi_refuses_long_example :
    (response : Served) × (wsgi toy_web gateway long_request fresh_host ≡ (ok response, fresh_host))
    × (response.status_line ≡ "413 Content Too Large")
    × (read_length toy_web gateway.max_body_bytes long_request.content_length
        ≡ ok (gateway.max_body_bytes + 1))
wsgi_refuses_long_example =
    wsgi_refuses_long toy_web gateway long_request fresh_host 3 declared (omega arith) (omega arith)
      refl refl

-- A request without a method
abbrev no_method : Environ
no_method = record { variables = []; content_length = null; input = [] }

unmethodical : (wsgi toy_web gateway no_method fresh_host).0 ≡ err (exn key_error "REQUEST_METHOD")
unfolding server_runs
unmethodical = refl

wsgi_raises_example :
    (read_length toy_web gateway.max_body_bytes no_method.content_length
      ≡ err (exn key_error "REQUEST_METHOD"))
    ⊎ ((variable "REQUEST_METHOD" no_method.variables ≡ err (exn key_error "REQUEST_METHOD"))
        ⊎ ((size : ℕ) × (method : String) × ((handle toy_web gateway method
                (path_info no_method.variables)
                (http_headers no_method.variables)
                (first_bytes size no_method.input)
                fresh_host).0
              ≡ err (exn key_error "REQUEST_METHOD"))))
wsgi_raises_example =
    wsgi_raises toy_web gateway no_method fresh_host (exn key_error "REQUEST_METHOD") unmethodical

abbrev twice : Fields
twice = dict (("id", int (pos 7)) ∷ ("method", str "initialize") ∷ ("id", int (pos 8)) ∷ [])

repeated : unique_pairs end twice ≡ err (refused "MCP request contains duplicate key: id")
unfolding server_runs
repeated = refl

unique_pairs-distinct_names_example :
    ((distinct_names twice ≡ true) × (unique_pairs end twice ≡ ok twice))
    ⊎ ((distinct_names twice ≡ false)
        × ((k : String) × (unique_pairs end twice
              ≡ err (refused (concat ("MCP request contains duplicate key: " ∷ k ∷ []))))))
unique_pairs-distinct_names_example = unique_pairs-distinct_names twice
