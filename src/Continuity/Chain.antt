-- ===== src/Continuity/Chain.antt =====
-- border/intent_continuity.py: `prove_intent_continuity`. Times are in UTC, so that they compare by
-- their instants; `now` is `clock().astimezone(timezone.utc)` of this call.
use minority_prophet_border.Prelude.{
  Bool, List, String, [], count, if◌then◌else◌, leb, ltb, not, ℕ, ◌&&◌, ◌+◌, ◌||◌, ◌∷◌,
}
use minority_prophet_border.Py.Text.{concat, decimal}
use minority_prophet_border.Py.Result.{
  Exn, Result, and_then, continuity_error, err, ok, raise_if, ◌>>=◌, ◌>>◌,
}
use minority_prophet_border.Py.Value.{Fields, Value, attr_get, dict, get, list, mem, obj, str}
use minority_prophet_border.Continuity.Scope.{
  Scope, assert_narrower, effect_within, failed, validate_scope,
}
use minority_prophet_border.Py.Bindings.{exact_fields, format_time, is_empty, parse_utc}
use minority_prophet_border.Py.Equality.{value_eq}
use minority_prophet_border.Admission.Base.{document_digest}
use minority_prophet_border.Platform.{Platform}
use minority_prophet_border.Py.Clock.{Time}

abbrev pub mandate_fields : List String
mandate_fields =
    "schema" ∷ "mandate_id" ∷ "owner_id" ∷ "actor_id" ∷ "actor_key_thumbprint" ∷ "machine_id"
    ∷ "task_id" ∷ "audience" ∷ "scope" ∷ "not_before" ∷ "expires_at" ∷ "issued_at" ∷ "nonce"
    ∷ "key_id" ∷ "signature" ∷ []

abbrev pub hop_fields : List String
hop_fields =
    "schema" ∷ "hop_id" ∷ "from_actor_id" ∷ "from_actor_key_thumbprint" ∷ "to_actor_id"
    ∷ "to_actor_key_thumbprint" ∷ "to_machine_id" ∷ "task_id" ∷ "audience" ∷ "parent_digest"
    ∷ "protocol_in" ∷ "protocol_out" ∷ "scope" ∷ "not_before" ∷ "expires_at" ∷ "issued_at" ∷ "nonce"
    ∷ "key_id" ∷ "signature" ∷ []

pub record Trust : Type 0 where
  pub verify_mandate : Fields → Result Bool
  pub verify_delegation : Fields → Result Bool
  pub mandate_is_current : Value → Result Bool

unfoldable pub utc_time : Platform → Value → String → Result Time
utc_time p v name = parse_utc p continuity_error v name

-- The variables of the loop over the delegations.
pub record Link : Type 0 where
  pub scope : Scope
  pub parent_digest : String
  pub actor : Value
  pub actor_key : Value
  pub machine : Value
  pub expiry : Time
  pub seen : List String

-- A nonce of at least sixteen characters, not in `seen`.
abbrev pub fresh_nonce : List String → Exn → Value → Result String
fresh_nonce seen e (str s) = if ltb (count s) 16 || mem s seen then err e else ok s
fresh_nonce seen e _ = err e

-- `starts` and `expires` of one document and of its issue.
pub record Span : Type 0 where
  pub issued : Time
  pub starts : Time
  pub expires : Time

unfoldable pub read_span : Platform → Fields → String → Result Span
unfolding concat
read_span p d label = do
  starts ← utc_time p (get d "not_before") (concat (label ∷ ".not_before" ∷ []))
  expires ← utc_time p (get d "expires_at") (concat (label ∷ ".expires_at" ∷ []))
  issued ← utc_time p (get d "issued_at") (concat (label ∷ ".issued_at" ∷ []))
  ok (record { issued = issued; starts = starts; expires = expires })

-- The first part: the Mandate itself.
unfoldable pub open_mandate : Platform → Trust → Fields → Time → Result (Link × Time × String)
open_mandate p trust mandate now = do
  verified ←
      and_then (value_eq (get mandate "schema") (str "mandate/v0.1")) (trust.verify_mandate mandate)
  raise_if (not verified) (failed ("Mandate verification failed" ∷ []))
  current ← trust.mandate_is_current (get mandate "mandate_id")
  raise_if (not current) (failed ("Mandate is revoked or indeterminate" ∷ []))
  span ← read_span p mandate "mandate"
  raise_if
      (not (
        leb span.issued.instant span.starts.instant
        && leb span.starts.instant now.instant
        && ltb now.instant span.expires.instant))
      (failed ("Mandate is not currently active" ∷ []))
  nonce ← fresh_nonce [] (failed ("Mandate nonce is invalid" ∷ [])) (get mandate "nonce")
  scope ← validate_scope (get mandate "scope") "mandate.scope"
  digest ← document_digest p (obj mandate)
  ok (
    record {
      scope = scope;
      parent_digest = digest;
      actor = get mandate "actor_id";
      actor_key = get mandate "actor_key_thumbprint";
      machine = get mandate "machine_id";
      expiry = span.expires;
      seen = nonce ∷ [];
    },
    span.starts,
    nonce,
  )

-- One round of the loop.
unfoldable pub step : Platform → Trust → Fields → Time → Time → String → Link → Fields → Result Link
unfolding concat
step p trust mandate root_start now label link hop = do
  verified ←
      and_then (value_eq (get hop "schema") (str "mandate-delegation/v0.1"))
        (trust.verify_delegation hop)
  raise_if (not verified) (failed (label ∷ " verification failed" ∷ []))
  raise_if (not (value_eq (get hop "parent_digest") (str link.parent_digest)))
      (failed (label ∷ " parent substitution" ∷ []))
  raise_if
      (not (value_eq (get hop "from_actor_id") link.actor)
        || not (value_eq (get hop "from_actor_key_thumbprint") link.actor_key))
      (failed (label ∷ " caller substitution" ∷ []))
  raise_if (not (value_eq (get hop "task_id") (get mandate "task_id")))
      (failed (label ∷ " task/context substitution" ∷ []))
  raise_if (not (value_eq (get hop "audience") (get mandate "audience")))
      (failed (label ∷ " audience substitution" ∷ []))
  span ← read_span p hop label
  raise_if
      (not (
        leb root_start.instant span.issued.instant
        && leb span.issued.instant span.starts.instant
        && leb span.starts.instant now.instant
        && ltb now.instant span.expires.instant
        && leb span.expires.instant link.expiry.instant))
      (failed (label ∷ " time window is not a narrowing" ∷ []))
  nonce ←
      fresh_nonce link.seen (failed (label ∷ " nonce is invalid or replayed" ∷ []))
        (get hop "nonce")
  narrowed ← validate_scope (get hop "scope") (concat (label ∷ ".scope" ∷ []))
  assert_narrower link.scope narrowed
  digest ← document_digest p (obj hop)
  ok (record {
    scope = narrowed;
    parent_digest = digest;
    actor = get hop "to_actor_id";
    actor_key = get hop "to_actor_key_thumbprint";
    machine = get hop "to_machine_id";
    expiry = span.expires;
    seen = nonce ∷ link.seen;
  })

abbrev pub hop_label : ℕ → String
hop_label index = concat ("delegation[" ∷ decimal index ∷ "]" ∷ [])

unfoldable pub walk : Platform → Trust → Fields → Time → Time → ℕ → Link → List Value → Result Link
walk p trust mandate root_start now index link [] = ok link
walk p trust mandate root_start now index link (v ∷ rest) = do
  hop ← exact_fields (failed (hop_label index ∷ " has unknown or missing fields" ∷ [])) hop_fields v
  link' ← step p trust mandate root_start now (hop_label index) link hop
  walk p trust mandate root_start now (index + 1) link' rest

-- The checks of the final effect against the end of the chain.
unfoldable pub check_effect : Fields → Link → Value → Result (Unit {0})
check_effect mandate link effect = do
  task ← attr_get effect "task_id"
  raise_if (not (value_eq task (get mandate "task_id")))
      (failed ("final task/context substituted" ∷ []))
  caller ← attr_get effect "actor_id"
  raise_if (not (value_eq caller link.actor)) (failed ("final caller substituted" ∷ []))
  key ← attr_get effect "actor_key_thumbprint"
  raise_if (not (value_eq key link.actor_key)) (failed ("final actor key substituted" ∷ []))
  machine ← attr_get effect "machine_id"
  raise_if (not (value_eq machine link.machine)) (failed ("final machine substituted" ∷ []))
  effect_within link.scope effect

unfoldable pub digests : Platform → List Value → Result (List Value)
digests p [] = ok []
digests p (v ∷ rest) = do
  digest ← document_digest p v
  later ← digests p rest
  ok (str digest ∷ later)

unfoldable pub continuity_receipt :
    Platform → Fields → List Value → Value → Link → String → Time → Result Fields
continuity_receipt p mandate delegations effect link nonce now = do
  each ← digests p (obj mandate ∷ delegations)
  chain_digest ← document_digest p (list each)
  mandate_digest ← document_digest p (obj mandate)
  effect_digest ← document_digest p effect
  ok (
      dict (
        ("schema", str "border-intent-continuity/v0.1")
        ∷ ("verification", str "verified")
        ∷ ("mandate_id", get mandate "mandate_id")
        ∷ ("mandate_digest", str mandate_digest)
        ∷ ("chain_digest", str chain_digest)
        ∷ ("owner_id", get mandate "owner_id")
        ∷ ("task_id", get mandate "task_id")
        ∷ ("final_actor_id", link.actor)
        ∷ ("final_actor_key_thumbprint", link.actor_key)
        ∷ ("final_machine_id", link.machine)
        ∷ ("audience", get mandate "audience")
        ∷ ("final_effect_digest", str effect_digest)
        ∷ ("issued_at", str (format_time p now))
        ∷ ("expires_at", str (format_time p link.expiry))
        ∷ ("nonce", str nonce)
        ∷ []))

unfoldable pub prove_intent_continuity :
    Platform → Trust → Value → List Value → Value → Time → Result Fields
prove_intent_continuity p trust v delegations effect now = do
  mandate ← exact_fields (failed ("Mandate has unknown or missing fields" ∷ [])) mandate_fields v
  opened ← open_mandate p trust mandate now
  raise_if (is_empty delegations) (failed ("at least one delegation crossing is required" ∷ []))
  link ← walk p trust mandate opened.1 now 0 opened.0 delegations
  check_effect mandate link effect
  continuity_receipt p mandate delegations effect link opened.2 now
