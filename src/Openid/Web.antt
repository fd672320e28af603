-- ===== src/Openid/Web.antt =====
-- What the gateway uses of Python's standard library for the web, as parameters, and texts taken
-- apart at a character.
use minority_prophet_border.Py.Value.{Fields, Value, str}
use minority_prophet_border.Prelude.{
  Bool, List, String, [], code, false, if◌then◌else◌, nat_eq, not, true, ℕ, ◌&&◌, ◌==◌, ◌∷◌,
}
use minority_prophet_border.Py.Result.{Exn, Result}
use minority_prophet_border.Py.Clock.{Time}
use minority_prophet_border.Prelude.Int.{ℤ}
use minority_prophet_border.Py.Text.{append}
use minority_prophet_border.Platform.{Platform}

-- `urlparse(value)`. A user name or password that is absent is the empty text: both are false.
pub record Url : Type 0 where
  pub scheme : String
  pub netloc : String
  pub path : String
  pub query : String
  pub fragment : String
  pub username : String
  pub password : String

-- What `json.loads` with a hook ends in.
pub data Loaded : Type 0 where
  not_utf8 : Loaded
  raised : Exn → Loaded
  loaded : Value → Loaded

pub record Web : Type 0 where
  pub base : Platform
  -- an address that is malformed raises `ValueError`
  pub urlparse : String → Result Url
  -- the first value of each name in `parse_qs(query)`
  pub parse_qs : String → List (String × String)
  pub urlencode : List (String × String) → String
  pub unquote : String → String
  -- `urlsafe_b64encode(data).rstrip(b"=").decode()`
  pub b64url : List ℕ → String
  pub sha256_bytes : List ℕ → List ℕ
  -- `json.loads(body, object_pairs_hook=hook)`
  pub json_hook : (Fields → Result Fields) → List ℕ → Loaded
  -- `str(v)` and `int(v)` for any value
  pub str_of : Value → String
  pub int_of : Value → Result ℤ
  pub lower : String → String
  pub is_space : ℕ → Bool
  pub is_printable : ℕ → Bool
  -- `int(t.timestamp())` and `datetime.fromtimestamp(n, timezone.utc)`
  pub timestamp_of : Time → ℤ
  pub from_timestamp : ℤ → Result Time

-- `text.partition(c)`; the flag says whether the character is there.
unfoldable pub partition : ℕ → String → String × Bool × String
partition separator String.[] = ("", false, "")
partition separator (String.◌∷◌ c s) =
    let (before, found, after) = partition separator s in
    if nat_eq (code c) separator
    then ("", true, s)
    else (append (String.◌∷◌ c String.[]) before, found, after)

-- `text.split()`: the pieces between white space, without the empty ones
words_from : (ℕ → Bool) → String → String → List String
words_from is_space piece String.[] = if piece == "" then [] else piece ∷ []
words_from is_space piece (String.◌∷◌ c s) =
    let closed = words_from is_space "" s in
    let longer = words_from is_space (append piece (String.◌∷◌ c String.[])) s in
    if is_space (code c) then (if piece == "" then closed else piece ∷ closed) else longer

unfoldable pub words : (ℕ → Bool) → String → List String
unfolding words_from
words is_space s = words_from is_space "" s

unfoldable pub lstrip : (ℕ → Bool) → String → String
lstrip drop String.[] = ""
lstrip drop (String.◌∷◌ c s) = if drop (code c) then lstrip drop s else String.◌∷◌ c s

unfoldable pub rstrip : (ℕ → Bool) → String → String
rstrip drop String.[] = ""
rstrip drop (String.◌∷◌ c s) =
    let rest = rstrip drop s in
    if drop (code c) && rest == "" then "" else append (String.◌∷◌ c String.[]) rest

unfoldable pub strip : (ℕ → Bool) → String → String
unfolding lstrip rstrip
strip drop s = rstrip drop (lstrip drop s)

-- `str(value)` of what an f-string holds
abbrev pub shown : Web → Value → String
shown w (str s) = s
shown w v = w.str_of v

-- An address is absolute and over HTTPS, with no fragment and no credentials.
abbrev pub is_https : Url → Bool
is_https u =
    u.scheme == "https"
    && not (u.netloc == "")
    && u.fragment == ""
    && u.username == ""
    && u.password == ""
