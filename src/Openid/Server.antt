-- ===== src/Openid/Server.antt =====
-- border/openid_gateway.py: `OpenIDGatewayServer`. `Host` is the host's state, which its callbacks
-- read and change, and `Authority` is what `authorize` gives and `execute` takes.
pub mod Routes
pub mod Effects
pub mod Wsgi
pub mod Statuses
pub mod Limit
use minority_prophet_border.Py.Stateful.{Stateful, ◌>>=◌, lift, recovered}
use minority_prophet_border.Prelude.{
  Bool, List, Option, String, [], count, false, if◌then◌else◌, length, ltb, map, nat_eq, none, not,
  some, true, ℕ, ◌&&◌, ◌==◌, ◌||◌, ◌∷◌,
}
use minority_prophet_border.Py.Value.{
  Fields, Value, bool, dict, end, get, get_or, int, list, lookup, null, obj, str,
}
use minority_prophet_border.Admission.Base.{refused}
use minority_prophet_border.Py.Text.{concat, decimal_ℤ}
use minority_prophet_border.Openid.Aiim.{
  protected_resource_metadata, validate_cimd_document, www_authenticate,
}
use minority_prophet_border.Py.Result.{
  Class, Exn, Result, attribute_error, early_return, err, exn, key_error, ok, raise_if, ◌>>◌,
}
use minority_prophet_border.Prelude.Int.{negsuc}
use minority_prophet_border.Openid.Http.{HttpResponse, bearer, json_request, json_response}
use minority_prophet_border.Admission.Controller.{admitted, fresh}
use minority_prophet_border.Openid.Web.{Web, rstrip}
use minority_prophet_border.Py.Equality.{value_eq}

pub record Gateway (Authority Host : Type 0) : Type 1 where
  pub base_url : String
  pub authorization_servers : List String
  pub required_scope : String
  pub cimd_document : Fields
  pub jwks : Fields
  pub authorize : String → Fields → Stateful Host Authority
  pub readiness : Stateful Host Bool
  pub admit_once : String → Stateful Host Bool
  pub execute : Fields → Authority → Stateful Host Fields
  pub server_name : String
  pub server_version : String
  pub tools : List Fields
  pub authenticate : Option (String → Stateful Host (Unit {0}))
  pub max_body_bytes : ℕ

-- The classes that are an `AdmissionError`, a `ValueError`, a `TypeError` or a `JSONDecodeError`
abbrev pub is_caught : Class → Bool
is_caught key_error = false
is_caught attribute_error = false
is_caught early_return = false
is_caught _ = true

abbrev message_of : Exn → String
message_of (exn c message) = message

abbrev rpc_response : List (String × Value) → HttpResponse
rpc_response rest = json_response 200 (dict (("jsonrpc", str "2.0") ∷ rest)) []

-- A request identifier is a text or an integer, and its text is not empty and not long.
abbrev text_of_id : Value → Option String
text_of_id (str s) = some s
text_of_id (int n) = some (decimal_ℤ n)
text_of_id _ = none

unfoldable pub id_of : Value → Result String
id_of v = elim (text_of_id v) [
  | none ↦ err (refused "MCP request identifier is invalid")
  | some s ↦
      if s == "" || ltb 128 (count s)
      then err (refused "MCP request identifier is invalid")
      else ok s
]

-- `request.get("params", {}).get("protocolVersion", "2025-06-18")`
unfoldable pub protocol_version : Fields → Result Value
protocol_version request = of_params (get_or request "params" (obj end))
  where
    of_params : Value → Result Value
    of_params (obj d) = ok (get_or d "protocolVersion" (str "2025-06-18"))
    of_params _ = err (exn attribute_error "get")

abbrev pub rejection : Exn → HttpResponse
rejection e =
    json_response 403
      (dict (
        ("jsonrpc", str "2.0")
        ∷ ("id", null)
        ∷ (
          "error",
          obj (dict (("code", int (negsuc 32000)) ∷ ("message", str (message_of e)) ∷ [])),
        )
        ∷ []))
      []

-- Where a request is not a tool call, the token alone is checked.
unfoldable pub check_token :
    {Host : Type 0}
    → Option (String → Stateful Host (Unit {0}))
    → String
    → Fields
    → Stateful Host (Unit {0})
check_token none token request = lift (ok tt)
check_token (some authenticate) token request =
    if value_eq (get request "method") (str "tools/call") then lift (ok tt) else authenticate token

module _ {Authority Host : Type 0} where
  -- `__init__`: the document is validated for the address that stands without its last slashes.
  unfoldable pub open_gateway : Web → Gateway Authority Host → Result (Gateway Authority Host)
  unfolding concat rstrip
  open_gateway w g =
      let base = rstrip (nat_eq b'/') g.base_url in
      elim (validate_cimd_document w (concat (base ∷ "/client.json" ∷ [])) g.cimd_document) [
        | err e ↦ err e
        | ok document ↦ ok (record g { base_url = base; cimd_document = document })
      ]

  unfoldable pub initialized : Gateway Authority Host → Fields → Value → Result HttpResponse
  initialized g request request_id = elim (protocol_version request) [
    | err e ↦ err e
    | ok version ↦ ok (
        rpc_response (
          ("id", request_id)
          ∷ (
            "result",
            obj (
                dict (
                  ("protocolVersion", version)
                  ∷ (
                    "capabilities",
                    obj (dict (("tools", obj (dict (("listChanged", bool false) ∷ []))) ∷ [])),
                  )
                  ∷ (
                    "serverInfo",
                    obj (
                        dict
                          (("name", str g.server_name) ∷ ("version", str g.server_version) ∷ [])),
                  )
                  ∷ [])),
          )
          ∷ []))
  ]

  -- `tools/call`: authority, then a single admission of the identifier, then the tool
  unfoldable pub call_tool :
      Gateway Authority Host → String → Fields → Value → String → Stateful Host HttpResponse
  call_tool g token request request_id id_text = do
    authority ← g.authorize token request
    fresh ← g.admit_once id_text
    admitted ← lift (raise_if (not fresh) (refused "MCP request identifier was already admitted"))
    result ← g.execute request authority
    lift (ok (rpc_response (("id", request_id) ∷ ("result", obj result) ∷ [])))

  unfoldable pub dispatch :
      Gateway Authority Host → String → Fields → Value → String → Stateful Host HttpResponse
  dispatch g token request request_id id_text =
      let name = get request "method" in
      if value_eq name (str "initialize")
      then lift (initialized g request request_id)
      else if value_eq name (str "tools/list")
      then lift (
          ok (
            rpc_response (
              ("id", request_id)
              ∷ ("result", obj (dict (("tools", list (map obj g.tools)) ∷ [])))
              ∷ [])))
      else if value_eq name (str "tools/call")
      then call_tool g token request request_id id_text
      else lift (
          ok (
            rpc_response (
              ("id", request_id)
              ∷ (
                "error",
                obj (
                    dict (("code", int (negsuc 32600)) ∷ ("message", str "method not found") ∷ [])),
              )
              ∷ [])))

  -- What follows that check, for the identifier of the request
  unfoldable pub identified :
      Gateway Authority Host → String → Fields → Option Value → Stateful Host HttpResponse
  identified g token request none =
      if value_eq (get request "method") (str "notifications/initialized")
      then lift
          (ok (record { status = 202; headers = ("Cache-Control", "no-store") ∷ []; body = [] }))
      else lift (err (refused "MCP request identifier is required"))
  identified g token request (some request_id) = elim (id_of request_id) [
    | err e ↦ lift (err e)
    | ok id_text ↦ dispatch g token request request_id id_text
  ]

  unfoldable pub answer : Gateway Authority Host → String → Fields → Stateful Host HttpResponse
  answer g token request = do
    versioned ← lift (
        raise_if (not (value_eq (get request "jsonrpc") (str "2.0")))
          (refused "MCP request must be a JSON-RPC 2.0 request"))
    checked ← check_token g.authenticate token request
    identified g token request (lookup "id" request)

  -- The `try` of `handle`
  unfoldable pub attempt :
      Web → Gateway Authority Host → String → List ℕ → Stateful Host HttpResponse
  attempt w g token body s =
      recovered is_caught rejection
        ((lift (json_request w body) >>= λ request. answer g token request) s)
