-- ===== src/Admission/Acceptance.antt =====
-- The Gate accepts what the controller has just admitted.
use minority_prophet_border.Prelude.{
  ◌<◌, String, eq_refl, ◌≡◌, refl, inl, inr, Bool, true, Option, none, some, List, [], ◌∷◌, arith,
  false,
}
use minority_prophet_border.Platform.{Platform}
use minority_prophet_border.Py.Result.{Result, ok, Result-cases}
use minority_prophet_border.Py.Text.{concat}
use minority_prophet_border.Py.Value.{Value, null, str, obj, Fields, dict, get, get_or, without}
use minority_prophet_border.Py.Equality.{value_eq}
use minority_prophet_border.Py.Equality.Laws.{well_formed, value_eq_refl}
use minority_prophet_border.Py.Clock.{Time, Zone, both_aware, is_naive}
use minority_prophet_border.Py.Bindings.Laws.{Agrees, Agrees-match_gets}
use minority_prophet_border.Admission.Base.{document_digest, refused, time_field}
use minority_prophet_border.Admission.Validation.{Callbacks}
use minority_prophet_border.Admission.Facts.Checks.{validate_declaration-IsDeclared}
use minority_prophet_border.Admission.Controller.{Admissions, admitted, previous_of, admit}
use minority_prophet_border.Admission.Controller.Receipt.{Records, RecordsControl, admit-IsReceipt}
use minority_prophet_border.Admission.Gate.{
  stamp_bindings, optional_digest, Presented, expected_digests, verify_gate_context,
}
use minority_prophet_border.Crossing.Json.{digest}
use minority_prophet_border.Continuity.Chain.{digests}

-- The bindings of a receipt equal themselves, and carry the decision point.
module _ (p : Platform) (receipt bindings : Fields) (point : String)
    (h : stamp_bindings p receipt (str point) ≡ ok bindings) where
  stamped_point : get_or bindings "decision_point" (str "") ≡ str point
  unfolding stamp_bindings
  stamped_point = ground arith

  abbrev stamped : String → Fields
  stamped digest = dict (
      ("admission_receipt_digest", str digest)
      ∷ ("declaration_digest", get receipt "declaration_digest")
      ∷ ("authority_receipt_digest", get receipt "authority_receipt_digest")
      ∷ ("policy_digest", get receipt "policy_digest")
      ∷ ("action_digest", get receipt "action_digest")
      ∷ ("control_event_digest", get receipt "control_event_digest")
      ∷ ("decision_point", str point)
      ∷ ("expires_at", get receipt "expires_at")
      ∷ [])

  stamped_lem : (digest : String) × (bindings ≡ stamped digest)
  unfolding stamp_bindings
  stamped_lem = elim (Result-cases (document_digest p (obj receipt))) [
    | inl (digest, e) ↦ (digest, ground arith)
    | inr (x, e) ↦ absurd (ground arith)
  ]

  stamped_well_formed :
      (a b c d e : String) (f : Value)
      → get receipt "declaration_digest" ≡ str a
      → get receipt "authority_receipt_digest" ≡ str b
      → get receipt "policy_digest" ≡ str c
      → get receipt "action_digest" ≡ str d
      → get receipt "expires_at" ≡ str e
      → get receipt "control_event_digest" ≡ f
      → well_formed f ≡ true
      → well_formed (obj bindings) ≡ true
  unfolding well_formed
  stamped_well_formed a b c d e f ha hb hc hd he hf w =
      rw stamped_lem.1 (rw (ha, hb, hc, hd, he, hf, w) refl)

control-digest :
    (p : Platform) (control : Option Fields) (receipt : Fields)
    → RecordsControl p control receipt
    → (v : Value) × (optional_digest p control ≡ ok v)
      × (get receipt "control_event_digest" ≡ v)
      × (well_formed v ≡ true)
unfolding well_formed
control-digest p none receipt h = (null, refl, h, refl)
control-digest p (some c) receipt (d, e, h) = (str d, ground arith, h, refl)

both_aware_lem :
    (a b : Time) → is_naive a ≡ false → is_naive b ≡ false → both_aware a.zone b.zone ≡ true
both_aware_lem a b ha hb = zones a.zone b.zone ha hb
  where
    zones :
        (x y : Option Zone)
        → elim x [ none ↦ true | some z ↦ false ] ≡ false
        → elim y [ none ↦ true | some z ↦ false ] ≡ false
        → both_aware x y ≡ true
    zones (some x) (some y) hx hy = refl
    zones none y hx hy = cc
    zones (some x) none hx hy = cc

value_eq_of_str : (v : Value) (s : String) → v ≡ str s → value_eq v (str s) ≡ true
value_eq_of_str v s e = rw e (unfold value_eq in eq_refl s)

module _ (p : Platform) (callbacks : Callbacks) (declaration authority policy action : Fields)
    (control : Option Fields) (now : Time) (s : Admissions) (receipt : Fields)
    (new : previous_of (get declaration "nonce") s ≡ none)
    (h : (admit p callbacks declaration authority policy control now s).0 ≡ ok (admitted receipt))
    (acts : get declaration "action" ≡ obj action) where
  abbrev presented : Presented
  presented = record {
    declaration = declaration;
    authority = authority;
    policy = policy;
    candidate_action = action;
    control = control;
  }

  same_policy :
      (d : String) × (document_digest p (obj (without "policy_digest" policy)) ≡ ok d)
      × (get receipt "policy_digest" ≡ str d)
  same_policy =
      let (_, _, _, _, recorded) =
        admit-IsReceipt p callbacks declaration authority policy control now s receipt new h in
      recorded

  same_action : Records p receipt "action_digest" action
  same_action =
      let (digest, e, (control_digest, r), _, _) =
        admit-IsReceipt p callbacks declaration authority policy control now s receipt new h in
      let (a, named, q, _) = (validate_declaration-IsDeclared p declaration now e).action in
      let same : a ≡ action = cc in (digest, rw same at q, r.action_bound)

  same_documents :
      (digests : List (String × Value)) × (expected_digests p presented ≡ ok digests)
      × Agrees receipt digests
  unfolding expected_digests
  same_documents =
      let (_, _, (_, r), c, _) =
        admit-IsReceipt p callbacks declaration authority policy control now s receipt new h in
      let (d1, e1, q1) = r.declaration_bound in
      let (d2, e2, q2) = r.authority_bound in
      let (d3, e3, q3) = same_policy in
      let (d4, e4, q4) = same_action in
      let (v, e5, q5, w) = control-digest p control receipt c in
      (
        ("declaration_digest", str d1)
            ∷ ("authority_receipt_digest", str d2)
            ∷ ("policy_digest", str d3)
            ∷ ("action_digest", str d4)
            ∷ ("control_event_digest", v)
            ∷ [],
        rw (e1, e2, e3, e4, e5) refl,
        (
          value_eq_of_str _ d1 q1,
          (
            value_eq_of_str _ d2 q2,
            (value_eq_of_str _ d3 q3, (value_eq_of_str _ d4 q4, (rw q5 (value_eq_refl v w), tt))),
          ),
        ),
      )

  bindings_refl :
      (bindings : Fields) (point : String)
      → stamp_bindings p receipt (str point) ≡ ok bindings
      → value_eq (obj bindings) (obj bindings) ≡ true
  bindings_refl bindings point made =
      let (_, _, (_, r), c, _) =
        admit-IsReceipt p callbacks declaration authority policy control now s receipt new h in
      let (d1, _, q1) = r.declaration_bound in
      let (d2, _, q2) = r.authority_bound in
      let (d3, _, q3) = same_policy in
      let (d4, _, q4) = same_action in
      let q6 = r.lifetime.5 in
      let (v, _, q5, w) = control-digest p control receipt c in
      value_eq_refl (obj bindings)
        (stamped_well_formed p receipt bindings point made d1 d2 d3 d4 _ v q1 q2 q3 q4 q6 q5 w)

  -- What the controller has admitted for the first time passes the Gate with the same documents and
  -- the declared action, under a stamp that verifies, until the receipt's end and while the
  -- authority is current. The nonce was free, the end of the receipt and the current time each have
  -- a zone, whichever it is, and the action names no member twice.
  pub admit-verify_gate_context :
      (verify_border_stamp authority_is_current : Fields → Result Bool) (bindings : Fields)
      (point : String) (current expires : Time)
      → well_formed (obj action) ≡ true
      → stamp_bindings p receipt (str point) ≡ ok bindings
      → verify_border_stamp bindings ≡ ok true
      → authority_is_current authority ≡ ok true
      → time_field p (get receipt "expires_at") "admission.expires_at" ≡ ok expires
      → is_naive expires ≡ false
      → is_naive current ≡ false
      → current.instant < expires.instant
      → verify_gate_context p verify_border_stamp authority_is_current bindings receipt presented
          current
        ≡ ok tt
  unfolding verify_gate_context
  admit-verify_gate_context vs live bindings point current expires w made stamped is_live timed ez
        cz lt =
      let (_, _, (_, r), c, _) =
        admit-IsReceipt p callbacks declaration authority policy control now s receipt new h in
      let (digests, e, agree) = same_documents in
      let same = bindings_refl bindings point made in
      let decided = value_eq_of_str _ "admit" r.decision in
      let aware = both_aware_lem current expires cz ez in
      let acted : value_eq (obj action) (get declaration "action") ≡ true =
        rw acts (value_eq_refl (obj action) w) in
      ground (
        arith,
        stamped_point p receipt bindings point made,
        same,
        aware,
        decided,
        acted,
        e,
        Agrees-match_gets (λ f. refused (concat ("Gate " ∷ f ∷ " mismatch" ∷ []))) receipt digests
            agree,
      )
