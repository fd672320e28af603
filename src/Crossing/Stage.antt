-- ===== src/Crossing/Stage.antt =====
-- The stage of a crossing, and what its check has established.
use minority_prophet_border.Prelude.{
  Bool-cases, String, arith, false, inl, inr, true, ◌∷◌, ◌≡◌, All, List, Option, [], any, none,
  some,
}
use minority_prophet_border.Py.Result.{ok}
use minority_prophet_border.Crossing.Verifier.{
  binding_of, check_stage, profile, check_reissue, differs, immutable_fields,
}
use minority_prophet_border.Crossing.Json.{digest}
use minority_prophet_border.Py.Value.{Fields, get, obj, str}
use minority_prophet_border.Platform.{Platform}
use minority_prophet_border.Py.Equality.{value_eq}
use minority_prophet_border.Py.Chain.{first_some, guarded, last_unraised}

-- An authority that was issued again on the first turn: the initial one is digested and named by
-- its reference, is of the initial stage, is linked by its digest and message, and agrees in every
-- field that may not change.
pub record IsReissued (p : Platform) (authority initial_reference initial_authority : Fields)
    : Type 0 where
  pub profiled : value_eq (get initial_reference "profile") (str profile) ≡ true
  pub initial_digest : String
  pub computed : digest p (obj initial_authority) ≡ ok initial_digest
  pub digested : value_eq (get initial_reference "authority_digest") (str initial_digest) ≡ true
  pub named :
      value_eq (get initial_reference "authority_id") (get initial_authority "authority_id") ≡ true
  pub first : value_eq (get (binding_of initial_authority) "stage") (str "initial") ≡ true
  pub linked :
      value_eq (get (binding_of authority) "previous_stage_digest") (str initial_digest) ≡ true
  pub message :
      value_eq
        (get (binding_of authority) "message_id")
        (get (binding_of initial_authority) "message_id")
      ≡ true
  pub unchanged :
      All
        (λ f. value_eq (get authority f) (get initial_authority f) ≡ true)
        ("issuer_id" ∷ "authority_id" ∷ "requester_id" ∷ "mcp_audience" ∷ "action_digest"
          ∷ "not_before" ∷ "expires_at" ∷ "status_ref" ∷ "nonce" ∷ [])

-- The stage that the authority names, and the evidence for it: none for an existing task, and the
-- initial authority for one that was issued again.
abbrev pub IsStaged : Platform → Fields → Option Fields → Option Fields → Type 0
IsStaged p authority (some initial_reference) (some initial_authority) =
    (value_eq (get (binding_of authority) "mode") (str "first_turn_reissued") ≡ true)
    × IsReissued p authority initial_reference initial_authority
IsStaged p authority none none =
    value_eq (get (binding_of authority) "mode") (str "existing_task") ≡ true
IsStaged p authority _ _ = ⊥

all_same :
    (a b : Fields) (fs : List String)
    → any (λ f. differs a f b f) fs ≡ false
    → All (λ f. value_eq (get a f) (get b f) ≡ true) fs
all_same a b [] h = tt
all_same a b (f ∷ fs) h = elim (Bool-cases (value_eq (get a f) (get b f))) [
  | inl y ↦ (y, all_same a b fs (rw y at h))
  | inr n ↦ absurd (cc (rw n at h))
]

check_reissue-IsReissued :
    (p : Platform) (authority initial_reference initial_authority : Fields)
    → check_reissue p authority (binding_of authority) initial_reference initial_authority ≡ ok tt
    → IsReissued p authority initial_reference initial_authority
unfolding check_reissue
check_reissue-IsReissued p authority initial_reference initial_authority h =
    let binding = binding_of authority in
    let initial_binding = binding_of initial_authority in
    let (q1, h1) = guarded (value_eq (get initial_reference "profile") (str profile)) _ _ h in
    let (d, e, h2) = first_some (digest p (obj initial_authority)) _ h1 in
    let (q2, h3) = guarded (value_eq (get initial_reference "authority_digest") (str d)) _ _ h2 in
    let (q3, h4) =
      guarded
        (value_eq (get initial_reference "authority_id") (get initial_authority "authority_id")) _ _
        h3 in
    let (q4, h5) = guarded (value_eq (get initial_binding "stage") (str "initial")) _ _ h4 in
    let (q5, h6) = guarded (value_eq (get binding "previous_stage_digest") (str d)) _ _ h5 in
    let (q6, h7) =
      guarded (value_eq (get binding "message_id") (get initial_binding "message_id")) _ _ h6 in
    let q7 =
      last_unraised (any (λ f. differs authority f initial_authority f) immutable_fields) _ h7 in
    record {
      profiled = q1;
      initial_digest = d;
      computed = e;
      digested = q2;
      named = q3;
      first = q4;
      linked = q5;
      message = q6;
      unchanged = all_same authority initial_authority immutable_fields q7;
    }

pub check_stage-IsStaged :
    (p : Platform) (authority : Fields) (initial_reference initial_authority : Option Fields)
    → check_stage p authority (binding_of authority) initial_reference initial_authority ≡ ok tt
    → IsStaged p authority initial_reference initial_authority
unfolding check_stage
check_stage-IsStaged p authority (some r) (some a) h =
    elim (Bool-cases (value_eq (get (binding_of authority) "mode") (str "first_turn_reissued"))) [
      | inl y ↦ (y, check_reissue-IsReissued p authority r a (rw y at h))
      | inr n ↦ absurd (ground arith)
    ]
check_stage-IsStaged p authority none none h = ground arith
check_stage-IsStaged p authority (some r) none h = absurd (ground arith)
check_stage-IsStaged p authority none (some a) h = absurd (ground arith)
