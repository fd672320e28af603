-- ===== src/Tests/Web.antt =====
-- A `Web` that computes, for addresses of the shape scheme://host/path?query and ASCII texts.
use minority_prophet_border.Py.Clock.{utc}
use minority_prophet_border.Prelude.Int.{negsuc, pos, ℤ}
use minority_prophet_border.Prelude.{
  List, Option, String, [], if◌then◌else◌, nat_eq, none, some, true, ℕ, ◌∷◌,
}
use minority_prophet_border.Openid.Web.{
  Loaded, Url, Web, loaded, not_utf8, partition, raised, lstrip, rstrip, strip, words,
}
use minority_prophet_border.Py.Text.{append, concat, decimal, join, removeprefix, split}
use minority_prophet_border.Tests.Runtime.{hash_from, runtime, runs}
use minority_prophet_border.Py.Value.{Fields, Value, dict, int, list, obj, str}
use minority_prophet_border.Py.Result.{Result, err, exn, ok, type_error, value_error}
use minority_prophet_border.Jcs.{encode}

abbrev no_url : Url
no_url = record {
  scheme = "";
  netloc = "";
  path = "";
  query = "";
  fragment = "";
  username = "";
  password = "";
}

unfoldable pub parse_url : String → Url
unfolding partition removeprefix
parse_url s =
    let (scheme, found, rest) = partition b':' s in
    let (before, asked, query) = partition b'?' (removeprefix rest "//") in
    let (host, slash, path) = partition b'/' before in
    record no_url {
      scheme = scheme;
      netloc = host;
      path = if slash then append "/" path else "";
      query = query;
    }

unfoldable pub parse_pairs : List String → List (String × String)
unfolding partition
parse_pairs [] = []
parse_pairs (s ∷ rest) =
    let (key, found, value) = partition b'=' s in (key, value) ∷ parse_pairs rest

unfoldable pub print_pairs : List (String × String) → List String
unfolding concat
print_pairs [] = []
print_pairs ((k, v) ∷ rest) = concat (k ∷ "=" ∷ v ∷ []) ∷ print_pairs rest

unfoldable pub small_int : Value → Result ℤ
small_int (int n) = ok n
small_int (str s) = err (exn value_error "invalid literal")
small_int _ = err (exn type_error "no int")

-- Bytes decode by their first one.
unfoldable pub first_byte : List ℕ → ℕ
first_byte [] = 0
first_byte (b ∷ bs) = b

unfoldable pub documents : ℕ → Option Value
documents b =
    if nat_eq b b'r'
    then some (
        obj (
          dict (
            ("resource", str "https://m/mcp")
            ∷ ("authorization_servers", list (str "https://as" ∷ []))
            ∷ [])))
    else if nat_eq b b's'
    then some (
        obj (
          dict (
            ("issuer", str "https://as")
            ∷ ("authorization_endpoint", str "https://as/authorize")
            ∷ ("token_endpoint", str "https://as/token")
            ∷ ("code_challenge_methods_supported", list (str "S256" ∷ []))
            ∷ [])))
    else if nat_eq b b't'
    then some (obj (dict (("access_token", str "tok-1") ∷ ("scope", str "mcp read") ∷ [])))
    else none

unfoldable pub hooked : (Fields → Result Fields) → List ℕ → Loaded
hooked hook body =
    if nat_eq (first_byte body) b'q'
    then finished (
        hook
          (dict (("jsonrpc", str "2.0") ∷ ("id", int (pos 7)) ∷ ("method", str "tools/call") ∷ [])))
    else not_utf8
  where
    finished : Result Fields → Loaded
    finished (ok d) = loaded (obj d)
    finished (err e) = raised e

abbrev pub toy_web : Web
toy_web = record {
  base = record runtime { json_loads = λ bytes. documents (first_byte bytes) };
  urlparse = λ s. ok (parse_url s);
  parse_qs = λ s. parse_pairs (split s b'&');
  urlencode = λ pairs. join "&" (print_pairs pairs);
  unquote = λ s. s;
  b64url = λ bytes. decimal (hash_from 5 bytes);
  sha256_bytes = λ bytes. hash_from 7 bytes ∷ [];
  json_hook = hooked;
  str_of = λ v. "value";
  int_of = small_int;
  lower = λ s. s;
  is_space = nat_eq b' ';
  is_printable = λ c. true;
  timestamp_of = λ t. pos t.instant;
  from_timestamp = λ n. elim n [
    | pos m ↦ ok (record { instant = m; zone = some utc })
    | negsuc m ↦ err (exn value_error "year is out of range")
  ];
}

-- The value of a run that succeeds
abbrev pub value_or {ℓ} : {A : Type ℓ} → A → Result A → A
value_or default (ok value) = value
value_or default (err e) = default

unfoldable pub web_runs : Unit {0}
unfolding runs partition removeprefix parse_url parse_pairs print_pairs small_int first_byte
    documents hooked split words lstrip rstrip strip join concat decimal encode hash_from
web_runs = tt
