-- ===== src/Mandate/Invocation.antt =====
-- An accepted invocation, from the checks on its way to a receipt.
use minority_prophet_border.Mandate.Soundness.{
  IsBounded, IsCredentialed, IsExecutable, IsRequested, check_credential-IsCredentialed,
  check_executor-IsExecutable, check_requester-IsRequested, check_window-IsBounded,
}
use minority_prophet_border.Mandate.Adapter.{
  MandateContext, Material, Receipts, check_credential, check_executor, check_invocation,
  check_requester, check_window, normalize_invocation, invocation_fields,
}
use minority_prophet_border.Py.Equality.{value_eq}
use minority_prophet_border.Prelude.{String, arith, inl, inr, true, ◌≡◌}
use minority_prophet_border.Py.Value.{Fields, get, obj, str, keys_are}
use minority_prophet_border.Py.Result.{Result-cases, ok}
use minority_prophet_border.Py.Bindings.{to_utc}
use minority_prophet_border.Admission.Base.{document_digest}
use minority_prophet_border.Py.Clock.{Time}
use minority_prophet_border.Mandate.Checks.{validate_action}
use minority_prophet_border.Platform.{Platform}

-- Everything that a receipt rests on.
pub record IsInvocation (p : Platform) (c : MandateContext) (m : Material) (now : Time)
    : Type 0 where
  pub action_hash : String
  pub digest : document_digest p (obj m.action) ≡ ok action_hash
  pub request : Time × Time
  pub executor : Time × Time
  pub credential : Time × Time
  pub window : Time × Time
  pub exact : keys_are m.mandate invocation_fields ≡ true
  pub schema : value_eq (get m.mandate "schema") (str "authorized-invocation/v1") ≡ true
  pub relationship : value_eq (get m.mandate "relationship") (str "MANDATE") ≡ true
  pub signed : c.verify_invocation m.mandate ≡ ok true
  pub audience : value_eq (get m.mandate "audience") (str c.audience) ≡ true
  pub action : value_eq (get m.mandate "action_digest") (str action_hash) ≡ true
  pub requested : IsRequested p c m now request
  pub executable : IsExecutable p c m action_hash now executor
  pub credentialed : IsCredentialed p c m action_hash now credential
  pub bounded : IsBounded p m.mandate now request executor credential window

validate_action-digest :
    (p : Platform) (action : Fields) (action_hash : String)
    → validate_action p action ≡ ok action_hash
    → document_digest p (obj action) ≡ ok action_hash
unfolding validate_action
validate_action-digest p action action_hash h = ground arith

check_invocation-signed :
    (c : MandateContext) (mandate : Fields) (action_hash : String)
    → check_invocation c mandate action_hash ≡ ok tt
    → (c.verify_invocation mandate ≡ ok true)
      × (value_eq (get mandate "audience") (str c.audience) ≡ true)
      × (value_eq (get mandate "action_digest") (str action_hash) ≡ true)
      × (keys_are mandate invocation_fields ≡ true)
      × (value_eq (get mandate "schema") (str "authorized-invocation/v1") ≡ true)
      × (value_eq (get mandate "relationship") (str "MANDATE") ≡ true)
unfolding check_invocation
check_invocation-signed c mandate action_hash h =
    (ground arith, ground arith, ground arith, ground arith, ground arith, ground arith)

module _ (p : Platform) (c : MandateContext) (m : Material) (clock : Time) where
  -- The results of the checks on the way to the receipts.
  abbrev pub Checked : Type 0
  Checked =
      (action_hash : String) × (request : Time × Time) × (executor : Time × Time)
      × (credential : Time × Time) × (window : Time × Time) × (validate_action p m.action
          ≡ ok action_hash)
      × (check_invocation c m.mandate action_hash ≡ ok tt)
      × (check_requester p c m (to_utc clock) ≡ ok request)
      × (check_executor p c m action_hash (to_utc clock) ≡ ok executor)
      × (check_credential p c m action_hash (to_utc clock) ≡ ok credential)
      × (check_window p m.mandate request executor credential (to_utc clock) ≡ ok window)

  pub normalize_invocation-Checked :
      (receipts : Receipts) (result : Fields × Receipts)
      → normalize_invocation p c m clock receipts ≡ ok result
      → Checked
  unfolding normalize_invocation
  normalize_invocation-Checked receipts result h =
      elim (Result-cases (validate_action p m.action)) [
        | inr (x, e) ↦ absurd (ground arith)
        | inl (action_hash, a) ↦ elim (Result-cases (check_requester p c m (to_utc clock))) [
          | inr (x, e) ↦ absurd (ground arith)
          | inl (request, r) ↦
              elim (Result-cases (check_executor p c m action_hash (to_utc clock))) [
                | inr (x, e) ↦ absurd (ground arith)
                | inl (executor, x) ↦
                    elim (Result-cases (check_credential p c m action_hash (to_utc clock))) [
                      | inr (y, e) ↦ absurd (ground arith)
                      | inl (credential, k) ↦
                          elim (Result-cases
                            (check_window p m.mandate request executor credential (to_utc clock))) [
                              | inr (y, e) ↦ absurd (ground arith)
                              | inl (window, w) ↦ (
                                action_hash,
                                request,
                                executor,
                                credential,
                                window,
                                a,
                                ground arith,
                                r,
                                x,
                                k,
                                w,
                              )
                            ]
                    ]
              ]
        ]
      ]

  -- A receipt is returned only when the Mandate is signed, for this audience and this action, its
  -- requester is allowed to ask for the action, its executor is allowed to carry it out and holds
  -- a credential for that path, and the window that it states holds the present and is inside the
  -- windows that the two authorities and the credential state. A replayed nonce passes the same checks before it is answered.
  pub normalize_invocation-IsInvocation :
      (receipts : Receipts) (result : Fields × Receipts)
      → normalize_invocation p c m clock receipts ≡ ok result
      → IsInvocation p c m (to_utc clock)
  normalize_invocation-IsInvocation receipts result h =
      let (action_hash, request, executor, credential, window, a, i, r, x, k, w) =
        normalize_invocation-Checked receipts result h in
      let (signed, audience, action, exact, schema, relationship) =
        check_invocation-signed c m.mandate action_hash i in
      let now = to_utc clock in
      record {
        action_hash = action_hash;
        digest = validate_action-digest p m.action action_hash a;
        request = request;
        executor = executor;
        credential = credential;
        window = window;
        exact = exact;
        schema = schema;
        relationship = relationship;
        signed = signed;
        audience = audience;
        action = action;
        requested = check_requester-IsRequested p c m now request r;
        executable = check_executor-IsExecutable p c m now executor action_hash x;
        credentialed = check_credential-IsCredentialed p c m now credential action_hash k;
        bounded = check_window-IsBounded p m.mandate request executor credential now window w;
      }
