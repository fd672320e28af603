-- ===== src/Mandate/Soundness.antt =====
-- What an accepted invocation rests on: two authority paths, and a window inside both.
use minority_prophet_border.Py.Bindings.Laws.{Agrees, match_items-Agrees}
use minority_prophet_border.Prelude.{String, [], arith, inl, inr, true, ◌<◌, ◌∷◌, ◌≡◌, ◌≤◌}
use minority_prophet_border.Mandate.Checks.{active_authority, mandate_time}
use minority_prophet_border.Mandate.Adapter.{
  MandateContext, Material, check_credential, check_executor, check_requester, check_window,
  credential_bindings, credential_substitution, earliest, latest,
}
use minority_prophet_border.Admission.Base.{document_digest}
use minority_prophet_border.Py.Result.{Result-cases, ok}
use minority_prophet_border.Py.Value.{Fields, get, obj, str}
use minority_prophet_border.Platform.{Platform}
use minority_prophet_border.Py.Equality.{value_eq}
use minority_prophet_border.Py.Clock.{Time}

-- The window of a document, from its issue on, that holds `now`.
pub record IsOpen (p : Platform) (document : Fields) (label : String) (now : Time)
    (window : Time × Time) : Type 0 where
  pub starts : mandate_time p (get document "not_before") (label ∷ ".not_before" ∷ []) ≡ ok window.0
  pub ends : mandate_time p (get document "expires_at") (label ∷ ".expires_at" ∷ []) ≡ ok window.1
  pub issued :
      (t : Time) × (mandate_time p (get document "issued_at") (label ∷ ".issued_at" ∷ []) ≡ ok t)
      × (t.instant ≤ window.0.instant)
  pub started : window.0.instant ≤ now.instant
  pub unexpired : now.instant < window.1.instant
  pub active : value_eq (get document "status") (str "active") ≡ true
  pub allowed : value_eq (get document "decision") (str "allow") ≡ true

active_authority-IsOpen :
    (p : Platform) (document : Fields) (now : Time) (label : String) (window : Time × Time)
    → active_authority p document now label ≡ ok window
    → IsOpen p document label now window
unfolding active_authority
active_authority-IsOpen p document now label window h = record {
  starts = ground arith;
  ends = ground arith;
  issued =
      elim (Result-cases (mandate_time p (get document "issued_at") (label ∷ ".issued_at" ∷ []))) [
        | inl (t, e) ↦ (t, e, ground arith)
        | inr (x, e) ↦ absurd (ground arith)
      ];
  started = ground arith;
  unexpired = ground arith;
  active = ground arith;
  allowed = ground arith;
}

-- The path of the one who asks.
pub record IsRequested (p : Platform) (c : MandateContext) (m : Material) (now : Time)
    (window : Time × Time) : Type 0 where
  pub verified : c.verify_request_authority m.request_authority ≡ ok true
  pub authorized : c.request_authorizes m.request_authority m.action ≡ ok true
  pub active : IsOpen p m.request_authority "request authority" now window
  pub requester :
      value_eq (get m.request_authority "subject_id") (get m.mandate "requester_id") ≡ true
  pub key :
      value_eq
        (get m.request_authority "subject_key_thumbprint")
        (get m.mandate "requester_key_thumbprint")
      ≡ true
  pub request : value_eq (get m.request_authority "request_id") (get m.mandate "request_id") ≡ true
  pub digest :
      (d : String) × (document_digest p (obj m.request_authority) ≡ ok d)
      × (value_eq (get m.mandate "request_authority_receipt_digest") (str d) ≡ true)

-- The path of the one who acts.
pub record IsExecutable (p : Platform) (c : MandateContext) (m : Material) (action_hash : String)
    (now : Time) (window : Time × Time) : Type 0 where
  pub verified : c.verify_executor_authority m.executor_authority ≡ ok true
  pub authorized : c.executor_authorizes m.executor_authority m.action ≡ ok true
  pub active : IsOpen p m.executor_authority "executor authority" now window
  pub executor :
      value_eq (get m.executor_authority "subject_id") (get m.mandate "executor_id") ≡ true
  pub action : value_eq (get m.executor_authority "action_digest") (str action_hash) ≡ true

-- The credential by which the executor is bound to that path.
pub record IsCredentialed (p : Platform) (c : MandateContext) (m : Material) (action_hash : String)
    (now : Time) (window : Time × Time) : Type 0 where
  pub verified : c.verify_executor_credential m.executor_credential ≡ ok true
  pub active : value_eq (get m.executor_credential "status") (str "active") ≡ true
  pub audience : value_eq (get m.executor_credential "audience") (str c.audience) ≡ true
  pub starts :
      mandate_time p
        (get m.executor_credential "not_before")
        ("executor credential.not_before" ∷ [])
      ≡ ok window.0
  pub ends :
      mandate_time p
        (get m.executor_credential "expires_at")
        ("executor credential.expires_at" ∷ [])
      ≡ ok window.1
  pub started : window.0.instant ≤ now.instant
  pub unexpired : now.instant < window.1.instant
  pub bound :
      (d : String) × (document_digest p (obj m.executor_authority) ≡ ok d)
      × Agrees m.executor_credential (
          ("subject_id", get m.mandate "executor_id")
          ∷ ("subject_key_thumbprint", get m.mandate "executor_key_thumbprint")
          ∷ ("authority_receipt_digest", str d)
          ∷ ("action_digest", str action_hash)
          ∷ [])

module _ (p : Platform) (c : MandateContext) (m : Material) (now : Time)
    (window : Time × Time) where
  pub check_requester-IsRequested :
      check_requester p c m now ≡ ok window → IsRequested p c m now window
  unfolding check_requester
  check_requester-IsRequested h =
      elim (Result-cases (active_authority p m.request_authority now "request authority")) [
        | inl (w, a) ↦
            let same : w ≡ window = ground arith in
            record {
              verified = ground arith;
              authorized = ground arith;
              active =
                  active_authority-IsOpen p m.request_authority now "request authority" window
                    (rw same at a);
              requester = ground arith;
              key = ground arith;
              request = ground arith;
              digest = elim (Result-cases (document_digest p (obj m.request_authority))) [
                | inl (d, e) ↦ (d, e, ground arith)
                | inr (x, e) ↦ absurd (ground arith)
              ];
            }
        | inr (x, a) ↦ absurd (ground arith)
      ]

  pub check_executor-IsExecutable :
      (action_hash : String)
      → check_executor p c m action_hash now ≡ ok window
      → IsExecutable p c m action_hash now window
  unfolding check_executor
  check_executor-IsExecutable action_hash h =
      elim (Result-cases (active_authority p m.executor_authority now "executor authority")) [
        | inl (w, a) ↦
            let same : w ≡ window = ground arith in
            record {
              verified = ground arith;
              authorized = ground arith;
              active =
                  active_authority-IsOpen p m.executor_authority now "executor authority" window
                    (rw same at a);
              executor = ground arith;
              action = ground arith;
            }
        | inr (x, a) ↦ absurd (ground arith)
      ]

  pub check_credential-IsCredentialed :
      (action_hash : String)
      → check_credential p c m action_hash now ≡ ok window
      → IsCredentialed p c m action_hash now window
  unfolding check_credential
  check_credential-IsCredentialed action_hash h = record {
    verified = ground arith;
    active = ground arith;
    audience = ground arith;
    starts = ground arith;
    ends = ground arith;
    started = ground arith;
    unexpired = ground arith;
    bound = elim (Result-cases (document_digest p (obj m.executor_authority))) [
      | inl (d, e) ↦ (
        d,
        e,
        match_items-Agrees credential_substitution m.executor_credential
            (credential_bindings m.mandate d action_hash) (ground arith),
      )
      | inr (x, e) ↦ absurd (ground arith)
    ];
  }

-- A window inside another.
abbrev pub Inside : Time × Time → Time × Time → Type 0
Inside inner outer = (outer.0.instant ≤ inner.0.instant) × (inner.1.instant ≤ outer.1.instant)

-- The Mandate's own window, from its issue on, which holds `now` and lies inside the other three.
pub record IsBounded (p : Platform) (mandate : Fields) (now : Time)
    (request executor credential window : Time × Time) : Type 0 where
  pub starts : mandate_time p (get mandate "not_before") ("mandate.not_before" ∷ []) ≡ ok window.0
  pub ends : mandate_time p (get mandate "expires_at") ("mandate.expires_at" ∷ []) ≡ ok window.1
  pub issued :
      (t : Time) × (mandate_time p (get mandate "issued_at") ("mandate.issued_at" ∷ []) ≡ ok t)
      × (t.instant ≤ window.0.instant)
  pub started : window.0.instant ≤ now.instant
  pub unexpired : now.instant < window.1.instant
  pub requested : Inside window request
  pub executed : Inside window executor
  pub credentialed : Inside window credential

check_window_ends :
    (p : Platform) (mandate : Fields) (request executor credential : Time × Time) (now : Time)
    (window : Time × Time)
    → check_window p mandate request executor credential now ≡ ok window
    → (window.0.instant ≤ now.instant)
      × (now.instant < window.1.instant)
      × ((latest (latest request.0 executor.0) credential.0).instant ≤ window.0.instant)
      × (window.1.instant ≤ (earliest (earliest request.1 executor.1) credential.1).instant)
unfolding check_window
check_window_ends p mandate request executor credential now window h =
    (ground arith, ground arith, ground arith, ground arith)

latest_above :
    (a b : Time) → (a.instant ≤ (latest a b).instant) × (b.instant ≤ (latest a b).instant)
latest_above a b = (ground arith, ground arith)

earliest_below :
    (a b : Time) → ((earliest a b).instant ≤ a.instant) × ((earliest a b).instant ≤ b.instant)
earliest_below a b = (ground arith, ground arith)

check_window-Time :
    (p : Platform) (mandate : Fields) (request executor credential : Time × Time) (now : Time)
    (window : Time × Time)
    → check_window p mandate request executor credential now ≡ ok window
    → (mandate_time p (get mandate "not_before") ("mandate.not_before" ∷ []) ≡ ok window.0)
      × (mandate_time p (get mandate "expires_at") ("mandate.expires_at" ∷ []) ≡ ok window.1)
      × ((t : Time) × (mandate_time p (get mandate "issued_at") ("mandate.issued_at" ∷ []) ≡ ok t)
          × (t.instant ≤ window.0.instant))
unfolding check_window
check_window-Time p mandate request executor credential now window h = (
  ground arith,
  ground arith,
  elim (Result-cases (mandate_time p (get mandate "issued_at") ("mandate.issued_at" ∷ []))) [
    | inl (t, e) ↦ (t, e, ground arith)
    | inr (x, e) ↦ absurd (ground arith)
  ],
)

pub check_window-IsBounded :
    (p : Platform) (mandate : Fields) (request executor credential : Time × Time) (now : Time)
    (window : Time × Time)
    → check_window p mandate request executor credential now ≡ ok window
    → IsBounded p mandate now request executor credential window
check_window-IsBounded p mandate request executor credential now window h =
    let (started, unexpired, low, high) =
      check_window_ends p mandate request executor credential now window h in
    let (starts, ends, issued) =
      check_window-Time p mandate request executor credential now window h in
    let (a, b) = latest_above request.0 executor.0 in
    let (ab, k) = latest_above (latest request.0 executor.0) credential.0 in
    let (d, e) = earliest_below request.1 executor.1 in
    let (de, f) = earliest_below (earliest request.1 executor.1) credential.1 in
    record {
      starts = starts;
      ends = ends;
      issued = issued;
      started = started;
      unexpired = unexpired;
      requested = (omega (arith, low, a, ab), omega (arith, high, d, de));
      executed = (omega (arith, low, b, ab), omega (arith, high, e, de));
      credentialed = (omega (arith, low, k), omega (arith, high, f));
    }
