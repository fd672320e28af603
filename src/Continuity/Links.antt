-- ===== src/Continuity/Links.antt =====
-- The chain itself: each delegation names its predecessor, and is made by whom that one names.
use mathlib.Core.Path.{subst}
-- The delegation `hop` follows a document of digest `link.parent_digest`, held by `link.actor`.
use minority_prophet_border.Prelude.{
  List, String, [], arith, false, true, ◌∷◌, ◌≡◌, Bool-cases, ap, inl, inr, ℕ, ◌+◌,
}
use minority_prophet_border.Py.Value.{Fields, Value, get, mem, null, obj, str}
use minority_prophet_border.Admission.Base.{document_digest}
use minority_prophet_border.Continuity.Chain.{
  Link, Trust, fresh_nonce, step, hop_fields, hop_label, walk,
}
use minority_prophet_border.Py.Result.{Exn, ok, Result-cases}
use minority_prophet_border.Py.Clock.{Time}
use minority_prophet_border.Py.Equality.{value_eq}
use minority_prophet_border.Platform.{Platform}
use minority_prophet_border.Continuity.Scope.{failed}
use minority_prophet_border.Py.Bindings.{exact_fields}

pub record Follows (p : Platform) (mandate : Fields) (link : Link) (hop : Fields) : Type 0 where
  pub parent : value_eq (get hop "parent_digest") (str link.parent_digest) ≡ true
  pub caller : value_eq (get hop "from_actor_id") link.actor ≡ true
  pub caller_key : value_eq (get hop "from_actor_key_thumbprint") link.actor_key ≡ true
  pub task : value_eq (get hop "task_id") (get mandate "task_id") ≡ true
  pub audience : value_eq (get hop "audience") (get mandate "audience") ≡ true

-- What the next delegation is held against.
pub record Extends (p : Platform) (hop : Fields) (before after : Link) : Type 0 where
  pub digest : document_digest p (obj hop) ≡ ok after.parent_digest
  pub actor : after.actor ≡ get hop "to_actor_id"
  pub actor_key : after.actor_key ≡ get hop "to_actor_key_thumbprint"
  pub machine : after.machine ≡ get hop "to_machine_id"
  pub nonce :
      (s : String) × (get hop "nonce" ≡ str s)
      × (mem s before.seen ≡ false)
      × (after.seen ≡ s ∷ before.seen)

-- A chain of verified delegations between two ends.
pub data Chain (p : Platform) (trust : Trust) (mandate : Fields)
    : Link → List Value → Link → Type 0 where
  here : {link : Link} → Chain p trust mandate link [] link
  next :
      {before after final : Link} {hop : Fields} {rest : List Value}
      → trust.verify_delegation hop ≡ ok true
      → Follows p mandate before hop
      → Extends p hop before after
      → Chain p trust mandate after rest final
      → Chain p trust mandate before (obj hop ∷ rest) final

fresh_nonce-cases :
    (seen : List String) (e : Exn) (v : Value) (s : String)
    → fresh_nonce seen e v ≡ ok s
    → (v ≡ str s) × (mem s seen ≡ false)
fresh_nonce-cases seen e (str t) s h = elim (Bool-cases (mem t seen)) [
  | inl again ↦ absurd (ground arith)
  | inr new ↦ let same : t ≡ s = ground arith in (ap str same, rw same at new)
]
fresh_nonce-cases seen e null s h = cc
fresh_nonce-cases seen e _ s h = cc

module _ (p : Platform) (trust : Trust) (mandate : Fields) (root_start now : Time) where
  module _ (label : String) (before after : Link) (hop : Fields)
      (h : step p trust mandate root_start now label before hop ≡ ok after) where
    step-verified : trust.verify_delegation hop ≡ ok true
    unfolding step
    step-verified = ground arith

    step-Follows : Follows p mandate before hop
    unfolding step
    step-Follows = record {
      parent = ground arith;
      caller = ground arith;
      caller_key = ground arith;
      task = ground arith;
      audience = ground arith;
    }

    step-Extends : Extends p hop before after
    unfolding step
    step-Extends =
        elim (Result-cases (
          fresh_nonce before.seen (failed (label ∷ " nonce is invalid or replayed" ∷ []))
            (get hop "nonce"))) [
              | inl (s, n) ↦
                  let (named, new) = fresh_nonce-cases before.seen _ (get hop "nonce") s n in
                  record {
                    digest = ground arith;
                    actor = ground arith;
                    actor_key = ground arith;
                    machine = ground arith;
                    nonce = (s, named, new, ground arith);
                  }
              | inr (x, n) ↦ absurd (ground arith)
            ]

  exact_fields-obj :
      (e : Exn) (names : List String) (v : Value) (d : Fields)
      → exact_fields e names v ≡ ok d
      → v ≡ obj d
  exact_fields-obj e names (obj d') d h = ground arith
  exact_fields-obj e names null d h = cc
  exact_fields-obj e names _ d h = cc

  -- The delegations that the loop accepts form a chain: each is verified, names the digest of its
  -- predecessor, is made by the actor and key that the predecessor names, for the Mandate's task
  -- and audience, under a nonce that no document before it has.
  pub walk-Chain :
      (index : ℕ) (link link' : Link) (hops : List Value)
      → walk p trust mandate root_start now index link hops ≡ ok link'
      → Chain p trust mandate link hops link'
  unfolding walk
  walk-Chain index link link' [] h =
      let same : link ≡ link' = cc in subst (Chain p trust mandate link []) same here
  walk-Chain index link link' (v ∷ rest) h =
      elim (Result-cases (
        exact_fields (failed (hop_label index ∷ " has unknown or missing fields" ∷ [])) hop_fields
          v)) [
            | inl (hop, e) ↦
                elim (Result-cases
                  (step p trust mandate root_start now (hop_label index) link hop)) [
                    | inl (mid, s) ↦ rw (exact_fields-obj _ hop_fields v hop e) (
                        next (step-verified (hop_label index) link mid hop s)
                          (step-Follows (hop_label index) link mid hop s)
                          (step-Extends (hop_label index) link mid hop s)
                          (walk-Chain (index + 1) mid link' rest (ground arith)))
                    | inr (x, s) ↦ absurd (ground arith)
                  ]
            | inr (x, e) ↦ absurd (ground arith)
          ]
