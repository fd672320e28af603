-- ===== src/Sandbox/Runtime.antt =====
-- border/live_sandbox.py: `SQLiteEchoRuntime`. A method that opens a transaction is one step on the
-- tables, since the lock and `BEGIN IMMEDIATE` make it so. The columns with the time of a write are
-- left out: nothing reads them. The action and `payload_digest` come from another package; the
-- record holds the fields that this code reads.
pub mod Once
pub mod Grants
pub mod Refinement
pub mod Bounds
use minority_prophet_border.Py.Result.{Result, err, exn, ok, raise_if, value_error, ◌>>=◌, ◌>>◌}
use minority_prophet_border.Jcs.{encode}
use minority_prophet_border.Prelude.{
  Bool, List, Option, String, [], false, if◌then◌else◌, length, none, not, some, true, ℕ, ◌==◌,
  ◌||◌, ◌∷◌,
}
use minority_prophet_border.Admission.Base.{document_digest, refused}
use minority_prophet_border.Py.Value.{Fields, Value, bool, dict, obj, str}
use minority_prophet_border.Platform.{Platform}
use minority_prophet_border.Py.Table.{row_of}
use minority_prophet_border.Admission.Controller.{replayed}
use minority_prophet_border.Py.Json.{dumps_sorted}
use minority_prophet_border.Py.Text.{append}

pub record Action : Type 0 where
  pub action_id : String
  pub action_type : String
  pub target : String
  pub payload_digest : String
  pub idempotency_key : String
  pub payload : Fields

-- A row of `interop_actions`, but for its key.
pub record Row : Type 0 where
  pub fingerprint : String
  pub result_json : String
  pub result_digest : String

-- The two tables.
pub record Runtime : Type 0 where
  pub actions : List (String × Row)
  pub grants : List (String × String)

pub record RuntimeReceipt : Type 0 where
  pub action_id : String
  pub idempotency_key : String
  pub status : String
  pub attempt_count : ℕ
  pub result_digest : Option String
  pub diagnostics : Fields

abbrev pub opened : Runtime
opened = record { actions = []; grants = [] }

unfoldable pub action_fingerprint : Platform → Action → Result String
action_fingerprint p a = document_digest p (
    obj (
      dict (
        ("action_id", str a.action_id)
        ∷ ("action_type", str a.action_type)
        ∷ ("target", str a.target)
        ∷ ("payload_digest", str a.payload_digest)
        ∷ [])))

unfoldable pub bind_grant : String → String → Runtime → Result (Unit {0}) × Runtime
bind_grant grant_key idempotency_key s = elim (row_of grant_key s.grants) [
  | none ↦ (ok tt, record s { grants = (grant_key, idempotency_key) ∷ s.grants })
  | some bound ↦ (
    raise_if (not (bound == idempotency_key))
        (refused "access-token grant was already used for another request"),
    s,
  )
]

-- `payload_digest` is the other package's function.
unfoldable pub prepare : (Fields → String) → Action → Result Action
prepare payload_digest a = do
  raise_if (not (a.action_type == "tools/call") || not (a.target == "interop.echo"))
      (refused "sandbox runtime route is not allowlisted")
  raise_if (not (payload_digest a.payload == a.payload_digest))
      (refused "sandbox runtime payload digest mismatch")
  ok a

abbrev pub echoed : Fields → Value
echoed payload = obj (dict (("echo", obj payload) ∷ ("effect", str "harmless") ∷ []))

-- The row that a first execution writes.
unfoldable pub new_row : Platform → Action → String → Row
unfolding dumps_sorted encode
new_row p a print =
    let serialized = dumps_sorted (echoed a.payload) in
    record {
      fingerprint = print;
      result_json = serialized;
      result_digest = append "sha256:" (p.sha256 (encode serialized));
    }

abbrev pub succeeded : Action → Row → Bool → RuntimeReceipt
succeeded a row replayed = record {
  action_id = a.action_id;
  idempotency_key = a.idempotency_key;
  status = "succeeded";
  attempt_count = 1;
  result_digest = some row.result_digest;
  diagnostics = dict (("replayed", bool replayed) ∷ []);
}

-- The transaction: the row that is there, or a new one.
unfoldable pub settle_action :
    Platform → Action → String → Option Row → Runtime → Result RuntimeReceipt × Runtime
settle_action p a print (some row) s =
    if row.fingerprint == print
    then (ok (succeeded a row true), s)
    else (err (refused "idempotency key was substituted across actions"), s)
settle_action p a print none s =
    let row = new_row p a print in
    (ok (succeeded a row false), record s { actions = (a.idempotency_key, row) ∷ s.actions })

unfoldable pub execute_once : Platform → Action → Runtime → Result RuntimeReceipt × Runtime
execute_once p a s = elim (action_fingerprint p a) [
  | err e ↦ (err e, s)
  | ok print ↦ settle_action p a print (row_of a.idempotency_key s.actions) s
]

unfoldable pub prevent : Action → String → RuntimeReceipt
prevent a reason = record {
  action_id = a.action_id;
  idempotency_key = a.idempotency_key;
  status = "prevented";
  attempt_count = 0;
  result_digest = none;
  diagnostics = dict (("reason", str reason) ∷ []);
}

-- `result_for`, up to the decoding of the stored text
unfoldable pub stored_result : String → Runtime → Result String
stored_result key s = elim (row_of key s.actions) [
  | none ↦ err (refused "sandbox effect receipt is missing")
  | some row ↦ ok row.result_json
]

unfoldable pub result_for : Platform → String → Runtime → Result Value
unfolding encode
result_for p key s = do
  text ← stored_result key s
  elim (p.json_loads (encode text)) [ none ↦ err (exn value_error "invalid JSON") | some v ↦ ok v ]

unfoldable pub effect_count : Runtime → ℕ
effect_count s = length s.actions

-- The calls that change the tables.
pub data Operation : Type 0 where
  binds : String → String → Operation
  executes : Action → Operation

abbrev pub operate : Platform → Operation → Runtime → Runtime
operate p (binds grant key) s = (bind_grant grant key s).1
operate p (executes a) s = (execute_once p a s).1

abbrev pub operate_all : Platform → List Operation → Runtime → Runtime
operate_all p [] s = s
operate_all p (o ∷ os) s = operate_all p os (operate p o s)
