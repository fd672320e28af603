-- ===== src/Protocol/Carried.antt =====
-- What each carrier of border/protocol_continuity.py has established: the A2A message, the MCP call
-- and the HTTP request with its payment.
use mathlib.Core.Path.{subst}
use minority_prophet_border.Prelude.{Bool, String, [], arith, true, ◌∷◌, ◌≡◌, ap, sym, ℕ, ◌∙◌}
use minority_prophet_border.Protocol.{
  a2a_delegation, a2a_projection, as_object, bound_delegation, extension_name,
  final_effect_from_http_x402, mcp_delegation, mcp_projection, carried_effect, int_of_digits,
  unsigned_decimal,
}
use minority_prophet_border.Py.Result.{Result, ok}
use minority_prophet_border.Py.Equality.{value_eq}
use minority_prophet_border.Py.Value.{
  Fields, Value, get, null, obj, str, without, dict, end, get_or, int, list,
}
use minority_prophet_border.Platform.{Platform}
use minority_prophet_border.Py.Text.{concat}
use minority_prophet_border.Admission.Base.{document_digest}
use minority_prophet_border.Prelude.Int.{pos}
use minority_prophet_border.Py.Chain.{first_some, guarded}
use minority_prophet_border.Py.Contains.{contains_text}

as_object-eq-ok : (label : String) (v : Value) (d : Fields) → as_object label v ≡ ok d → v ≡ obj d
as_object-eq-ok label (obj e) d h = ground arith
as_object-eq-ok label null d h = cc
as_object-eq-ok label _ d h = cc

-- A delegation that some carried one stands for: carried in the extension of this carrier, verified
-- as it was carried, and bound to this projection by its digest.
pub record IsCarried (p : Platform) (verify : Fields → Result Bool)
    (carrier projection delegation : Fields) : Type 0 where
  pub extension : Fields
  pub carried : Fields
  pub extended : get carrier extension_name ≡ obj extension
  pub held : get extension "delegation" ≡ obj carried
  pub verified : verify carried ≡ ok true
  pub bound :
      (d : String) × (document_digest p (obj projection) ≡ ok d)
      × (value_eq (get carried "protocol_binding_digest") (str d) ≡ true)
  pub normalized : delegation ≡ without "protocol_binding_digest" carried

bound_delegation-IsCarried :
    (p : Platform) (verify : Fields → Result Bool) (carrier projection delegation : Fields)
    → bound_delegation p verify carrier projection ≡ ok delegation
    → IsCarried p verify carrier projection delegation
unfolding bound_delegation
bound_delegation-IsCarried p verify carrier projection delegation h =
    let label = concat (extension_name ∷ " continuity extension" ∷ []) in
    let (extension, e1, h1) = first_some (as_object label (get carrier extension_name)) _ h in
    let (carried, e2, h2) =
      first_some (as_object "carried delegation" (get extension "delegation")) _ h1 in
    let (holds, e3, h3) = first_some (verify carried) _ h2 in
    let (e4, h4) = guarded holds _ _ h3 in
    let (d, e5, h5) = first_some (document_digest p (obj projection)) _ h4 in
    let (e6, h6) = guarded (value_eq (get carried "protocol_binding_digest") (str d)) _ _ h5 in
    record {
      extension = extension;
      carried = carried;
      extended = as_object-eq-ok label _ extension e1;
      held = as_object-eq-ok "carried delegation" _ carried e2;
      verified = e3 ∙ ap ok e4;
      bound = (d, e5, e6);
      normalized = same (sym h6);
    }
  where
    same : {d e : Fields} → ok d ≡ ok e → d ≡ e
    same q = cc

-- The A2A message that carries a delegation: it declares the extension, and the delegation in its
-- metadata is bound to its identity and to its parts.
pub record IsMessage (p : Platform) (verify : Fields → Result Bool) (v : Value)
    (delegation : Fields) : Type 0 where
  pub message : Fields
  pub metadata : Fields
  pub parts : String
  pub is_object : v ≡ obj message
  pub declared : contains_text extension_name (get_or message "extensions" (list [])) ≡ ok true
  pub described : get message "metadata" ≡ obj metadata
  pub digested : document_digest p (get message "parts") ≡ ok parts
  pub carried :
      IsCarried p verify metadata
        (dict (
          ("protocol", str "a2a")
          ∷ ("messageId", get message "messageId")
          ∷ ("contextId", get message "contextId")
          ∷ ("taskId", get message "taskId")
          ∷ ("role", get message "role")
          ∷ ("partsDigest", str parts)
          ∷ []))
        delegation

same_projection : {d e : Fields} → ok d ≡ ok e → d ≡ e
same_projection q = cc

pub a2a_delegation-IsMessage :
    (p : Platform) (verify : Fields → Result Bool) (v : Value) (delegation : Fields)
    → a2a_delegation p verify v ≡ ok delegation
    → IsMessage p verify v delegation
unfolding a2a_delegation a2a_projection
a2a_delegation-IsMessage p verify v delegation h =
    let (message, e1, h1) = first_some (as_object "A2A message" v) _ h in
    let (holds, e2, h2) =
      first_some (contains_text extension_name (get_or message "extensions" (list []))) _ h1 in
    let (e3, h3) = guarded holds _ _ h2 in
    let (projection, e4, h4) = first_some (a2a_projection p message) _ h3 in
    let (metadata, e5, h5) = first_some (as_object "A2A metadata" (get message "metadata")) _ h4 in
    let (parts, e6, h6) = first_some (document_digest p (get message "parts")) _ e4 in
    record {
      message = message;
      metadata = metadata;
      parts = parts;
      is_object = as_object-eq-ok "A2A message" v message e1;
      declared = e2 ∙ ap ok e3;
      described = as_object-eq-ok "A2A metadata" _ metadata e5;
      digested = e6;
      carried =
          subst (λ x. IsCarried p verify metadata x delegation) (same_projection (sym h6))
            (bound_delegation-IsCarried p verify metadata projection delegation h5);
    }

-- The MCP request that carries a delegation: it calls a tool, and the delegation in the metadata of
-- its parameters is bound to the tool's name and arguments.
pub record IsCall (p : Platform) (verify : Fields → Result Bool) (v : Value) (delegation : Fields)
    : Type 0 where
  pub request : Fields
  pub params : Fields
  pub metadata : Fields
  pub arguments : String
  pub is_object : v ≡ obj request
  pub with_params : get request "params" ≡ obj params
  pub method : value_eq (get request "method") (str "tools/call") ≡ true
  pub described : get params "_meta" ≡ obj metadata
  pub digested : document_digest p (get_or params "arguments" (obj (dict []))) ≡ ok arguments
  pub carried :
      IsCarried p verify metadata
        (dict (
          ("protocol", str "mcp")
          ∷ ("method", str "tools/call")
          ∷ ("name", get params "name")
          ∷ ("argumentsDigest", str arguments)
          ∷ []))
        delegation

pub mcp_delegation-IsCall :
    (p : Platform) (verify : Fields → Result Bool) (v : Value) (delegation : Fields)
    → mcp_delegation p verify v ≡ ok delegation
    → IsCall p verify v delegation
unfolding mcp_delegation mcp_projection
mcp_delegation-IsCall p verify v delegation h =
    let (request, e1, h1) = first_some (as_object "MCP request" v) _ h in
    let (params, e2, h2) = first_some (as_object "MCP params" (get request "params")) _ h1 in
    let (e3, h3) = guarded (value_eq (get request "method") (str "tools/call")) _ _ h2 in
    let (projection, e4, h4) = first_some (mcp_projection p params) _ h3 in
    let (metadata, e5, h5) = first_some (as_object "MCP _meta" (get params "_meta")) _ h4 in
    let (arguments, e6, h6) =
      first_some (document_digest p (get_or params "arguments" (obj end))) _ e4 in
    record {
      request = request;
      params = params;
      metadata = metadata;
      arguments = arguments;
      is_object = as_object-eq-ok "MCP request" v request e1;
      with_params = as_object-eq-ok "MCP params" _ params e2;
      method = e3;
      described = as_object-eq-ok "MCP _meta" _ metadata e5;
      digested = e6;
      carried =
          subst (λ x. IsCarried p verify metadata x delegation) (same_projection (sym h6))
            (bound_delegation-IsCarried p verify metadata projection delegation h5);
    }

-- The effect of an HTTP request with its x402 payment, which is bound to that request by a digest.
pub record IsPaidRequest (p : Platform) (http_request payment_payload : Value) (effect : Fields)
    : Type 0 where
  pub http : Fields
  pub payment : Fields
  pub accepted : Fields
  pub extensions : Fields
  pub continuity : Fields
  pub digits : String
  pub amount : ℕ
  pub body : String
  pub request : String
  pub is_request : http_request ≡ obj http
  pub is_payment : payment_payload ≡ obj payment
  pub requirement : get payment "accepted" ≡ obj accepted
  pub extended : get payment "extensions" ≡ obj extensions
  pub continued : get extensions extension_name ≡ obj continuity
  pub version : value_eq (get payment "x402Version") (int (pos 2)) ≡ true
  pub priced : unsigned_decimal (get accepted "amount") ≡ ok digits
  pub counted : int_of_digits digits ≡ ok amount
  pub digested : document_digest p (get http "body") ≡ ok body
  pub requested :
      document_digest p (
        obj (
          dict (
            ("url", get http "url")
            ∷ ("method", get http "method")
            ∷ ("bodyDigest", str body)
            ∷ ("resource", get continuity "resource")
            ∷ [])))
      ≡ ok request
  pub bound : value_eq (get continuity "httpRequestDigest") (str request) ≡ true
  pub made :
      effect
      ≡ dict (
          ("task_id", get continuity "taskId")
          ∷ ("actor_id", get continuity "actorId")
          ∷ ("actor_key_thumbprint", get continuity "actorKeyThumbprint")
          ∷ ("machine_id", get continuity "machineId")
          ∷ ("action", str "http.request")
          ∷ ("destination", get http "url")
          ∷ ("method", get http "method")
          ∷ ("resource", get continuity "resource")
          ∷ ("body_digest", str body)
          ∷ (
            "payment",
            obj (
                dict (
                  ("network", get accepted "network")
                  ∷ ("asset", get accepted "asset")
                  ∷ ("recipient", get accepted "payTo")
                  ∷ ("amount_minor", int (pos amount))
                  ∷ [])),
          )
          ∷ [])

pub final_effect-IsPaidRequest :
    (p : Platform) (http_request payment_payload : Value) (effect : Fields)
    → final_effect_from_http_x402 p http_request payment_payload ≡ ok effect
    → IsPaidRequest p http_request payment_payload effect
unfolding final_effect_from_http_x402 carried_effect
final_effect-IsPaidRequest p http_request payment_payload effect h =
    let (http, e1, h1) = first_some (as_object "HTTP request" http_request) _ h in
    let (payment, e2, h2) = first_some (as_object "x402 payment payload" payment_payload) _ h1 in
    let (accepted, e3, h3) =
      first_some (as_object "x402 accepted requirement" (get payment "accepted")) _ h2 in
    let (extensions, e4, h4) =
      first_some (as_object "x402 extensions" (get payment "extensions")) _ h3 in
    let (continuity, e5, h5) =
      first_some (as_object "x402 continuity extension" (get extensions extension_name)) _ h4 in
    let (e6, h6) = guarded (value_eq (get payment "x402Version") (int (pos 2))) _ _ h5 in
    let (digits, e7, h7) = first_some (unsigned_decimal (get accepted "amount")) _ h6 in
    let (body, e8, h8) = first_some (document_digest p (get http "body")) _ h7 in
    let (amount, e9, h9) = first_some (int_of_digits digits) _ h8 in
    let (request, e10, h10) = first_some (document_digest p _) _ h9 in
    let (e11, h11) =
      guarded (value_eq (get continuity "httpRequestDigest") (str request)) _ _ h10 in
    record {
      http = http;
      payment = payment;
      accepted = accepted;
      extensions = extensions;
      continuity = continuity;
      digits = digits;
      amount = amount;
      body = body;
      request = request;
      is_request = as_object-eq-ok "HTTP request" _ http e1;
      is_payment = as_object-eq-ok "x402 payment payload" _ payment e2;
      requirement = as_object-eq-ok "x402 accepted requirement" _ accepted e3;
      extended = as_object-eq-ok "x402 extensions" _ extensions e4;
      continued = as_object-eq-ok "x402 continuity extension" _ continuity e5;
      version = e6;
      priced = e7;
      counted = e9;
      digested = e8;
      requested = e10;
      bound = e11;
      made = same_projection (sym h11);
    }
