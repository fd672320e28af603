-- ===== src/Sandbox/Runtime/Refinement.antt =====
-- The table of actions as a ledger in which the first claim of a key stands, and its size.
use mathlib.Core.Path.{fun_ext}
use minority_prophet_border.Sandbox.Runtime.{
  Action, Operation, Row, Runtime, binds, execute_once, executes, new_row, operate, operate_all,
  settle_action, action_fingerprint,
}
use minority_prophet_border.Prelude.{
  Bool-cases, List, Option, String, [], ap, arith, eq_iff, if◌then◌else◌, inl, inr, none, refl,
  some, ◌==◌, ◌∙◌, ◌∷◌, ◌≡◌,
}
use minority_prophet_border.Py.Table.{row_of}
use minority_prophet_border.Py.Result.{Result-cases, err, ok}
use minority_prophet_border.Platform.{Platform}
use minority_prophet_border.Sandbox.Runtime.Once.{bind_grant-actions}

-- The abstract view: what each key holds.
abbrev pub Ledger : Type 0
Ledger = String → Option Row

abbrev pub claim : String → Row → Ledger → Ledger
claim key row ledger k = elim (ledger k) [
  | none ↦ if key == k then some row else none
  | some held ↦ some held
]

-- An execution claims its key with the row that it would write; binding a grant claims nothing.
abbrev pub record_claim : Platform → Operation → Ledger → Ledger
record_claim p (binds grant key) ledger = ledger
record_claim p (executes a) ledger = elim (action_fingerprint p a) [
  | err e ↦ ledger
  | ok print ↦ claim a.idempotency_key (new_row p a print) ledger
]

abbrev pub record_claims : Platform → List Operation → Ledger → Ledger
record_claims p [] ledger = ledger
record_claims p (o ∷ os) ledger = record_claims p os (record_claim p o ledger)

abbrev pub view : Runtime → Ledger
view s key = row_of key s.actions

module _ (p : Platform) where
  settle_action-claim :
      (a : Action) (print : String) (held : Option Row) (s : Runtime) (k : String)
      → row_of a.idempotency_key s.actions ≡ held
      → view (settle_action p a print held s).1 k
        ≡ claim a.idempotency_key (new_row p a print) (view s) k
  unfolding settle_action
  settle_action-claim a print (some row) s k e = elim (Bool-cases (a.idempotency_key == k)) [
    | inl same ↦ let held = rw ((eq_iff a.idempotency_key k).0 same) at e in ground arith
    | inr other ↦ ground arith
  ]
  settle_action-claim a print none s k e = elim (Bool-cases (a.idempotency_key == k)) [
    | inl same ↦ let free = rw ((eq_iff a.idempotency_key k).0 same) at e in ground arith
    | inr other ↦ ground arith
  ]

  execute_once-claim :
      (a : Action) (s : Runtime)
      → view (execute_once p a s).1 ≡ record_claim p (executes a) (view s)
  unfolding execute_once
  execute_once-claim a s = elim (Result-cases (action_fingerprint p a)) [
    | inl (print, e) ↦ fun_ext λ k.
        rw (execute_once, record_claim, e)
          (settle_action-claim a print (row_of a.idempotency_key s.actions) s k refl)
    | inr (x, e) ↦ fun_ext λ k. rw (execute_once, record_claim, e) refl
  ]

  operate-claim : (o : Operation) (s : Runtime) → view (operate p o s) ≡ record_claim p o (view s)
  operate-claim (binds grant key) s = fun_ext λ k. ap (row_of k) (bind_grant-actions p grant key s)
  operate-claim (executes a) s = execute_once-claim a s

  -- Over any history of calls, the table refines a ledger in which each key belongs to the first
  -- action that claims it: what the table holds is what the ledger says, key by key.
  pub operate_all-refines :
      (os : List Operation) (s : Runtime) → view (operate_all p os s) ≡ record_claims p os (view s)
  operate_all-refines [] s = refl
  operate_all-refines (o ∷ os) s =
      operate_all-refines os (operate p o s) ∙ ap (record_claims p os) (operate-claim o s)
