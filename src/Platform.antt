-- ===== src/Platform.antt =====
-- The functions of the Python runtime that the source calls and this library does not compute:
-- hashing, ISO 8601 times, base64 and JSON decoding. Laws are hypotheses where a theorem needs them.
use minority_prophet_border.Prelude.{ℕ, String, Option, List}
use minority_prophet_border.Py.Value.{Value}
use minority_prophet_border.Py.Clock.{Time}

pub record Platform : Type 0 where
  -- `hashlib.sha256(data).hexdigest()`
  pub sha256 : List ℕ → String
  -- `hmac.new(key, data, hashlib.sha256).digest()`
  pub hmac_sha256 : List ℕ → List ℕ → List ℕ
  -- `datetime.fromisoformat`, where `none` is its `ValueError`
  pub fromisoformat : String → Option Time
  pub isoformat : Time → String
  -- `base64.b64encode(data).decode("ascii")` and `base64.b64decode(text, validate=True)`
  pub b64encode : List ℕ → String
  pub b64decode : String → Option (List ℕ)
  -- `json.loads(data)`, where `none` is its error
  pub json_loads : List ℕ → Option Value
