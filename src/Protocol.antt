-- ===== src/Protocol.antt =====
-- border/protocol_continuity.py: delegations carried by A2A messages and MCP requests, and the
-- final effect of an HTTP request with its x402 payment.
pub mod Carried
pub mod Soundness
use minority_prophet_border.Py.Result.{
  Result, err, exn, ok, raise_if, type_error, value_error, ◌>>=◌, ◌>>◌,
}
use minority_prophet_border.Continuity.Chain.{Trust, prove_intent_continuity}
use minority_prophet_border.Prelude.{
  Bool, List, String, [], all, any, count, if◌then◌else◌, leb, ltb, not, starts_with, true, ℕ, ◌&&◌,
  ◌*◌, ◌+◌, ◌-◌, ◌==◌, ◌||◌, ◌∷◌,
}
use minority_prophet_border.Crossing.Verifier.{accepted}
use minority_prophet_border.Py.Equality.{value_eq}
use minority_prophet_border.Py.Value.{
  Fields, Value, arr, dict, end, get, get_or, has_key, int, list, list_of, obj, str, without,
}
use minority_prophet_border.Crossing.Json.{digest}
use minority_prophet_border.Continuity.Scope.{failed}
use minority_prophet_border.Admission.Base.{document_digest}
use minority_prophet_border.Py.Clock.{Time}
use minority_prophet_border.Py.Text.{codes, concat}
use minority_prophet_border.Prelude.Int.{pos}
use minority_prophet_border.Platform.{Platform}
use minority_prophet_border.Py.Contains.{contains_text}

abbrev pub extension_name : String
extension_name = "https://minority-prophet.dev/extensions/intent-continuity/v0.1"

abbrev pub as_object : String → Value → Result Fields
as_object label (obj d) = ok d
as_object label _ = err (failed (label ∷ " must be an object" ∷ []))

unfoldable pub bound_delegation :
    Platform → (Fields → Result Bool) → Fields → Fields → Result Fields
bound_delegation p verify carrier projection = do
  extension ←
      as_object (concat (extension_name ∷ " continuity extension" ∷ []))
        (get carrier extension_name)
  delegation ← as_object "carried delegation" (get extension "delegation")
  verified ← verify delegation
  raise_if (not verified) (failed ("carried delegation verification failed" ∷ []))
  digest ← document_digest p (obj projection)
  raise_if (not (value_eq (get delegation "protocol_binding_digest") (str digest)))
      (failed ("protocol carrier projection substituted" ∷ []))
  ok (without "protocol_binding_digest" delegation)

-- What an A2A message is bound by: its identity, and its parts by digest.
unfoldable pub a2a_projection : Platform → Fields → Result Fields
a2a_projection p message = do
  parts ← document_digest p (get message "parts")
  ok (
      dict (
        ("protocol", str "a2a")
        ∷ ("messageId", get message "messageId")
        ∷ ("contextId", get message "contextId")
        ∷ ("taskId", get message "taskId")
        ∷ ("role", get message "role")
        ∷ ("partsDigest", str parts)
        ∷ []))

unfoldable pub a2a_delegation : Platform → (Fields → Result Bool) → Value → Result Fields
a2a_delegation p verify v = do
  message ← as_object "A2A message" v
  declared ← contains_text extension_name (get_or message "extensions" (list []))
  raise_if (not declared) (failed ("A2A continuity extension is not declared" ∷ []))
  projection ← a2a_projection p message
  metadata ← as_object "A2A metadata" (get message "metadata")
  bound_delegation p verify metadata projection

unfoldable pub mcp_projection : Platform → Fields → Result Fields
mcp_projection p params = do
  arguments ← document_digest p (get_or params "arguments" (obj end))
  ok (
      dict (
        ("protocol", str "mcp")
        ∷ ("method", str "tools/call")
        ∷ ("name", get params "name")
        ∷ ("argumentsDigest", str arguments)
        ∷ []))

unfoldable pub mcp_delegation : Platform → (Fields → Result Bool) → Value → Result Fields
mcp_delegation p verify v = do
  request ← as_object "MCP request" v
  params ← as_object "MCP params" (get request "params")
  raise_if (not (value_eq (get request "method") (str "tools/call")))
      (failed ("MCP request is not tools/call" ∷ []))
  projection ← mcp_projection p params
  metadata ← as_object "MCP _meta" (get params "_meta")
  bound_delegation p verify metadata projection

abbrev pub is_digit : ℕ → Bool
is_digit c = leb 48 c && leb c 57

abbrev pub digits_from : ℕ → List ℕ → ℕ
digits_from n [] = n
digits_from n (c ∷ cs) = digits_from (n * 10 + (c - 48)) cs

-- `isinstance(v, str) and v.isascii() and v.isdigit()`
abbrev pub unsigned_decimal : Value → Result String
unsigned_decimal (str s) =
    if s == "" || not (all is_digit (codes s))
    then err (failed ("x402 V2 amount must be an unsigned decimal string" ∷ []))
    else ok s
unsigned_decimal _ = err (failed ("x402 V2 amount must be an unsigned decimal string" ∷ []))

-- `int(s)` for decimal digits; Python refuses more than 4300 of them.
abbrev pub int_of_digits : String → Result ℕ
int_of_digits s =
    if ltb 4300 (count s)
    then err (exn value_error "Exceeds the limit (4300 digits) for integer string conversion")
    else ok (digits_from 0 (codes s))

unfoldable pub carried_effect : Fields → Fields → Fields → String → ℕ → Fields
carried_effect http accepted continuity body_digest amount = dict (
    ("task_id", get continuity "taskId")
    ∷ ("actor_id", get continuity "actorId")
    ∷ ("actor_key_thumbprint", get continuity "actorKeyThumbprint")
    ∷ ("machine_id", get continuity "machineId")
    ∷ ("action", str "http.request")
    ∷ ("destination", get http "url")
    ∷ ("method", get http "method")
    ∷ ("resource", get continuity "resource")
    ∷ ("body_digest", str body_digest)
    ∷ (
      "payment",
      obj (
          dict (
            ("network", get accepted "network")
            ∷ ("asset", get accepted "asset")
            ∷ ("recipient", get accepted "payTo")
            ∷ ("amount_minor", int (pos amount))
            ∷ [])),
    )
    ∷ [])

unfoldable pub final_effect_from_http_x402 : Platform → Value → Value → Result Fields
final_effect_from_http_x402 p http_request payment_payload = do
  http ← as_object "HTTP request" http_request
  payment ← as_object "x402 payment payload" payment_payload
  accepted ← as_object "x402 accepted requirement" (get payment "accepted")
  extensions ← as_object "x402 extensions" (get payment "extensions")
  continuity ← as_object "x402 continuity extension" (get extensions extension_name)
  raise_if (not (value_eq (get payment "x402Version") (int (pos 2))))
      (failed ("only x402 V2 is supported" ∷ []))
  digits ← unsigned_decimal (get accepted "amount")
  body_digest ← document_digest p (get http "body")
  amount ← int_of_digits digits
  request_digest ← document_digest p (
      obj (
        dict (
          ("url", get http "url")
          ∷ ("method", get http "method")
          ∷ ("bodyDigest", str body_digest)
          ∷ ("resource", get continuity "resource")
          ∷ [])))
  raise_if (not (value_eq (get continuity "httpRequestDigest") (str request_digest)))
      (failed ("x402 HTTP resource binding substituted" ∷ []))
  ok (carried_effect http accepted continuity body_digest amount)

-- `ContinuityTrustProvider`
pub record Provider : Type 0 where
  pub trust : Trust
  pub verify_payment : Value → Result Bool

-- The four documents that carry one path.
pub record Carriers : Type 0 where
  pub a2a_message : Value
  pub mcp_request : Value
  pub http_request : Value
  pub payment_payload : Value

-- Each carried delegation has been verified as it was carried.
abbrev pub trusting : Trust → Trust
trusting t = record {
  verify_mandate = t.verify_mandate;
  verify_delegation = λ hop. ok true;
  mandate_is_current = t.mandate_is_current;
}

unfoldable pub prove_protocol_continuity :
    Platform → Provider → Value → Carriers → Time → Result Fields
prove_protocol_continuity p provider mandate c now = do
  a2a ← a2a_delegation p provider.trust.verify_delegation c.a2a_message
  mcp ← mcp_delegation p provider.trust.verify_delegation c.mcp_request
  paid ← provider.verify_payment c.payment_payload
  raise_if (not paid) (failed ("x402 payment verification failed" ∷ []))
  effect ← final_effect_from_http_x402 p c.http_request c.payment_payload
  prove_intent_continuity p (trusting provider.trust) mandate (obj a2a ∷ obj mcp ∷ []) (obj effect)
      now
