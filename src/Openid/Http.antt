-- ===== src/Openid/Http.antt =====
-- border/openid_gateway.py: responses, and what the two halves of the gateway read of a request.
pub mod Pairs
use minority_prophet_border.Openid.Web.{
  Web, partition, strip, Loaded, is_https, loaded, not_utf8, raised, rstrip,
}
use minority_prophet_border.Prelude.{
  List, Option, String, [], if◌then◌else◌, nat_eq, none, not, some, ℕ, ◌&&◌, ◌==◌, ◌∷◌, Bool, any,
  count, ltb, starts_with, ◌||◌,
}
use minority_prophet_border.Py.Result.{Result, err, ok, raise_if, ◌>>◌, ◌>>=◌}
use minority_prophet_border.Py.Value.{Fields, Value, obj, end, field, has_key, put, str}
use minority_prophet_border.Jcs.{encode}
use minority_prophet_border.Py.Text.{concat, codes, drop_chars, split}
use minority_prophet_border.Platform.{Platform}
use minority_prophet_border.Py.Json.{dumps_compact}
use minority_prophet_border.Admission.Base.{refused}

pub record HttpResponse : Type 0 where
  pub status : ℕ
  pub headers : List (String × String)
  pub body : List ℕ

-- `HttpResponse.json`; the callers' headers are not among the two that are merged.
unfoldable pub json_response : ℕ → Fields → List (String × String) → HttpResponse
unfolding dumps_compact encode
json_response status document headers = record {
  status = status;
  headers = ("Content-Type", "application/json") ∷ ("Cache-Control", "no-store") ∷ headers;
  body = encode (dumps_compact (obj document));
}

-- `json_body`
unfoldable pub json_body : Platform → HttpResponse → Result Fields
json_body p r = elim (p.json_loads r.body) [
  | none ↦ err (refused "peer returned invalid JSON")
  | some v ↦ only_object v
]
  where
    only_object : Value → Result Fields
    only_object (obj d) = ok d
    only_object _ = err (refused "peer JSON response must be an object")

-- `next((v for k, v in headers.items() if k.lower() == name), "")`
unfoldable pub header_value : Web → String → List (String × String) → String
header_value w name [] = ""
header_value w name ((k, v) ∷ rest) = if w.lower k == name then v else header_value w name rest

unfoldable pub bearer : Web → List (String × String) → Option String
unfolding header_value partition
bearer w headers =
    let (scheme, found, token) = partition b' ' (header_value w "authorization" headers) in
    if w.lower scheme == "bearer" && not (token == "") then some token else none

abbrev double_quote : ℕ
double_quote = 34

-- The first of the comma-separated components that assigns the name
unfoldable pub challenge_component : Web → String → List String → Result String
unfolding partition strip concat
challenge_component w name [] = err (refused (concat ("Bearer challenge omitted " ∷ name ∷ [])))
challenge_component w name (c ∷ cs) =
    let (key, found, value) = partition b'=' (strip w.is_space c) in
    let rest = challenge_component w name cs in
    if found && key == name then ok (strip (nat_eq double_quote) (strip w.is_space value)) else rest

unfoldable pub challenge_parameter : Web → String → String → Result String
unfolding split
challenge_parameter w challenge name = do
  raise_if (not (starts_with (w.lower challenge) "bearer "))
      (refused "MCP server did not return a Bearer challenge")
  challenge_component w name (split (drop_chars 7 challenge) b',')

-- `unique_pairs`: `value` holds the pairs so far.
unfoldable pub unique_pairs : Fields → Fields → Result Fields
unfolding put concat
unique_pairs value end = ok value
unique_pairs value (field k v rest) =
    let more = unique_pairs (put k v value) rest in
    if has_key value k
    then err (refused (concat ("MCP request contains duplicate key: " ∷ k ∷ [])))
    else more

unfoldable pub json_request : Web → List ℕ → Result Fields
json_request w body = only_object (w.json_hook (unique_pairs end) body)
  where
    only_object : Loaded → Result Fields
    only_object not_utf8 = err (refused "MCP request must be UTF-8 JSON")
    only_object (raised e) = err e
    only_object (loaded (obj d)) = ok d
    only_object (loaded _) = err (refused "MCP request must be a JSON object")

unfoldable pub secure_endpoint : Web → Value → String → Result String
unfolding concat
secure_endpoint w (str s) name = do
  u ← w.urlparse s
  raise_if (not (is_https u)) (refused (concat (name ∷ " must be an absolute HTTPS URL" ∷ [])))
  ok s
secure_endpoint w _ name = err (refused (concat (name ∷ " is missing" ∷ [])))

abbrev unprintable : Web → ℕ → Bool
unprintable w c = w.is_space c || not (w.is_printable c)

unfoldable pub client_identifier : Web → Value → String → Result String
unfolding concat
client_identifier w (str s) name =
    if s == ""
    then err (refused (concat (name ∷ " is missing" ∷ [])))
    else if starts_with (w.lower s) "http://" || starts_with (w.lower s) "https://"
    then secure_endpoint w (str s) name
    else if ltb 255 (count s) || any (unprintable w) (codes s)
    then err (refused (concat (name ∷ " is not a usable client identifier" ∷ [])))
    else ok s
client_identifier w _ name = err (refused (concat (name ∷ " is missing" ∷ [])))

-- `authorization_server_metadata_urls`, the two of them
unfoldable pub metadata_urls : Web → String → Result (String × String)
unfolding rstrip concat
metadata_urls w issuer = do
  u ← w.urlparse issuer
  raise_if
      (not (u.scheme == "https") || u.netloc == "" || not (u.query == "") || not (u.fragment == ""))
      (refused "authorization server issuer must be an HTTPS URL")
  let path = rstrip (nat_eq b'/') u.path
  let origin = concat (u.scheme ∷ "://" ∷ u.netloc ∷ [])
  ok (
    concat (origin ∷ "/.well-known/oauth-authorization-server" ∷ path ∷ []),
    concat (origin ∷ "/.well-known/openid-configuration" ∷ path ∷ []),
  )
