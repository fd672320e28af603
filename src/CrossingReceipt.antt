-- ===== src/CrossingReceipt.antt =====
-- conformance/crossing_receipt.py. A set of nonces is a list of values, and a reading of the clock
-- is a text, as in the source.
pub mod Roundtrip
pub mod Soundness
use minority_prophet_border.Py.Value.{
  Fields, Value, arr, bool, dict, end, field, get, get_or, has_key, null, obj, str, truthy,
}
use minority_prophet_border.Py.Bindings.{is_empty}
use minority_prophet_border.Prelude.{
  Bool, List, Option, String, [], all, false, if◌then◌else◌, ltb, none, not, some, true, ℕ, ◌%◌,
  ◌&&◌, ◌++◌, ◌/◌, ◌==◌, ◌∷◌,
}
use minority_prophet_border.Platform.{Platform}
use minority_prophet_border.Py.Result.{Result, err, exn, ok, receipt_error, type_error, ◌>>=◌, ◌>>◌}
use minority_prophet_border.Jcs.{compact, encode, render}
use minority_prophet_border.Py.Text.{append, codes, concat, hex_digit, join, lt_codes}
use minority_prophet_border.Py.Printer.{Printer, text_of}
use minority_prophet_border.Crossing.Json.{digest}
use minority_prophet_border.Openid.Server.Wsgi.{reason}
use minority_prophet_border.Py.Equality.{value_eq}
use minority_prophet_border.Py.Contains.{any_equal}

abbrev pub receipt_schema : String
receipt_schema = "agentwex.crossing-receipt.v0"

-- `BOUND_FIELDS`
abbrev pub receipt_bound_fields : List String
receipt_bound_fields =
    "schema" ∷ "caller" ∷ "task_id" ∷ "context_id" ∷ "tool" ∷ "argument_digest" ∷ "nonce"
    ∷ "issued_at" ∷ "expires_at" ∷ "revoked" ∷ "previous_digest" ∷ []

-- `json.dumps(v, sort_keys=True, separators=(",", ":"), ensure_ascii=False).encode("utf-8")`
unfoldable pub dumped : Value → List ℕ
unfolding encode render
dumped v = encode (render (compact codes) v)

unfoldable pub digest_arguments : Platform → Value → String
digest_arguments p arguments = append "sha256:" (p.sha256 (dumped arguments))

unfoldable pub absent_fields : Fields → List String → List String
absent_fields receipt [] = []
absent_fields receipt (f ∷ fs) =
    let rest = absent_fields receipt fs in if has_key receipt f then rest else f ∷ rest

-- `{f: receipt[f] for f in BOUND_FIELDS}`, where none is missing
unfoldable pub bound_payload : Fields → List String → Fields
bound_payload receipt [] = end
bound_payload receipt (f ∷ fs) = field f (get receipt f) (bound_payload receipt fs)

-- `canonical_bytes`
unfoldable pub receipt_bytes : Fields → Result (List ℕ)
unfolding concat join
receipt_bytes receipt =
    let missing = absent_fields receipt receipt_bound_fields in
    if is_empty missing
    then ok (dumped (obj (bound_payload receipt receipt_bound_fields)))
    else err
        (exn receipt_error (concat ("receipt is missing bound fields: " ∷ join ", " missing ∷ [])))

unfoldable pub compute_digest : Platform → Fields → Result String
compute_digest p receipt = do bytes ← receipt_bytes receipt; ok (append "sha256:" (p.sha256 bytes))

-- `digest.hexdigest()`
unfoldable pub hex_text : List ℕ → String
unfolding hex_digit
hex_text [] = ""
hex_text (b ∷ bs) = append (append (hex_digit (b / 16)) (hex_digit (b % 16))) (hex_text bs)

unfoldable pub sign_receipt : Platform → Fields → List ℕ → Result String
sign_receipt p receipt key = do
  bytes ← receipt_bytes receipt
  ok (append "hmac-sha256:" (hex_text (p.hmac_sha256 key bytes)))

-- The arguments of `create`, but for the key
pub record Crossing : Type 0 where
  pub caller : String
  pub task_id : String
  pub context_id : String
  pub tool : String
  pub arguments : Value
  pub nonce : String
  pub issued_at : String
  pub expires_at : String
  pub revoked : Bool
  pub previous_digest : String

-- The entries before `digest`
abbrev pub unsigned_receipt : Platform → Crossing → List (String × Value)
unsigned_receipt p c =
    ("schema", str receipt_schema)
    ∷ ("caller", str c.caller)
    ∷ ("task_id", str c.task_id)
    ∷ ("context_id", str c.context_id)
    ∷ ("tool", str c.tool)
    ∷ ("argument_digest", str (digest_arguments p c.arguments))
    ∷ ("nonce", str c.nonce)
    ∷ ("issued_at", str c.issued_at)
    ∷ ("expires_at", str c.expires_at)
    ∷ ("revoked", bool c.revoked)
    ∷ ("previous_digest", str c.previous_digest)
    ∷ []

abbrev pub signature_of : Platform → Fields → Option (List ℕ) → Result Value
signature_of p receipt none = ok null
signature_of p receipt (some key) = do s ← sign_receipt p receipt key; ok (str s)

unfoldable pub create : Platform → Crossing → Option (List ℕ) → Result Fields
create p c key = do
  digest ← compute_digest p (dict (unsigned_receipt p c))
  signature ← signature_of p (dict (unsigned_receipt p c ++ (("digest", str digest) ∷ []))) key
  ok (dict (unsigned_receipt p c ++ (("digest", str digest) ∷ ("signature", signature) ∷ [])))

-- `hmac.compare_digest`, for texts of ASCII characters only
abbrev pub is_ascii : String → Bool
is_ascii s = all (λ c. ltb c 128) (codes s)

unfoldable pub compare_secret : Value → String → Result Bool
compare_secret (str s) expected =
    if is_ascii s && is_ascii expected
    then ok (s == expected)
    else err (exn type_error "comparing strings with non-ASCII characters is not supported")
compare_secret v expected = err (exn type_error "unsupported operand types")

abbrev pub reason_if : Bool → String → List String
reason_if condition reason = if condition then reason ∷ [] else []

unfoldable pub signature_reasons : Platform → Fields → Option (List ℕ) → Result (List String)
signature_reasons p receipt none = ok []
signature_reasons p receipt (some key) = do
  expected ← sign_receipt p receipt key
  if truthy (get receipt "signature")
      then (compare_secret (get receipt "signature") expected >>= λ same.
          ok (reason_if (not same) "signature does not verify"))
      else ok ("signature required but absent" ∷ [])

unfoldable pub binding_reasons : Printer → Fields → Fields → List String → List String
unfolding concat
binding_reasons printer receipt observed [] = []
binding_reasons printer receipt observed (f ∷ fs) =
    reason_if (has_key observed f && not (value_eq (get observed f) (get receipt f))) (
      concat (
        f
        ∷ " mismatch: receipt binds "
        ∷ printer.repr_of (get receipt f)
        ∷ ", observed "
        ∷ printer.repr_of (get observed f)
        ∷ []))
    ++ binding_reasons printer receipt observed fs

unfoldable pub argument_reasons : Platform → Fields → Fields → List String
argument_reasons p receipt observed =
    reason_if
      (has_key observed "arguments"
        && not (
            value_eq (str (digest_arguments p (get observed "arguments")))
              (get receipt "argument_digest")))
      "argument digest mismatch: the payload is not the one authorised"

-- `str(receipt.get(name, ""))`
abbrev pub time_text : Printer → Fields → String → String
time_text printer receipt name = text_of printer (get_or receipt name (str ""))

unfoldable pub time_reasons : Printer → Fields → String → List String
time_reasons printer receipt now =
    reason_if (truthy (get receipt "revoked")) "authority is revoked"
    ++ (reason_if (lt_codes (codes now) (codes (time_text printer receipt "issued_at")))
          "receipt is not yet valid"
        ++ reason_if (not (lt_codes (codes now) (codes (time_text printer receipt "expires_at"))))
            "authority is expired")

-- The nonce is added where it is not yet seen, whatever else is wrong.
unfoldable pub see_nonce : Value → List Value → Result (List String × List Value)
see_nonce (arr vs) seen = err (exn type_error "unhashable type")
see_nonce (obj d) seen = err (exn type_error "unhashable type")
see_nonce v seen = ok (
    if any_equal v seen
    then ("nonce replay: this authorisation has already been spent" ∷ [], seen)
    else ([], v ∷ seen))

abbrev pub verdict : List String → Bool × List String
verdict [] = (true, "all bound fields matched the observed crossing" ∷ [])
verdict (r ∷ rs) = (false, r ∷ rs)

-- The reasons but for the nonce
unfoldable pub receipt_reasons :
    Printer → Fields → Fields → String → Option (List ℕ) → Result (List String)
receipt_reasons printer receipt observed now key = do
  recomputed ← compute_digest printer.base receipt
  signed ← signature_reasons printer.base receipt key
  ok (
      reason_if (not (value_eq (get receipt "digest") (str recomputed)))
        "digest does not match the bound fields"
      ++ (signed
          ++ (binding_reasons printer receipt observed
                ("caller" ∷ "task_id" ∷ "context_id" ∷ "tool" ∷ [])
              ++ (argument_reasons printer.base receipt observed
                  ++ time_reasons printer receipt now))))

unfoldable pub with_nonce :
    Value → Option (List Value) → List String → Result ((Bool × List String) × Option (List Value))
with_nonce nonce none reasons = ok (verdict reasons, none)
with_nonce nonce (some values) reasons =
    see_nonce nonce values >>= λ spent. ok (verdict (reasons ++ spent.0), some spent.1)

-- `verify`, with the set of seen nonces after it
unfoldable pub verify_receipt :
    Printer
    → Fields
    → Fields
    → String
    → Option (List Value)
    → Option (List ℕ)
    → Result ((Bool × List String) × Option (List Value))
unfolding concat
verify_receipt printer receipt observed now seen key =
    if not (value_eq (get receipt "schema") (str receipt_schema))
    then ok (
      (false, concat ("unknown schema: " ∷ printer.repr_of (get receipt "schema") ∷ []) ∷ []),
      seen,
    )
    else receipt_reasons printer receipt observed now key >>= λ reasons.
        with_nonce (get receipt "nonce") seen reasons
