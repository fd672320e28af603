-- ===== src/Sandbox/Runtime/Once.antt =====
-- An action runs once: its key keeps the first row, and a retry answers from that row.
use minority_prophet_border.Sandbox.Runtime.{
  Action, Operation, Row, Runtime, RuntimeReceipt, bind_grant, binds, execute_once, executes,
  new_row, operate_all, settle_action, succeeded, action_fingerprint,
}
use minority_prophet_border.Prelude.{
  Bool-cases, List, Option, String, [], ap, arith, eq_iff, if◌then◌else◌, inl, inr, none, refl,
  some, sym, true, ◌==◌, ◌∙◌, ◌∷◌, ◌≡◌,
}
use minority_prophet_border.Admission.Base.{refused}
use minority_prophet_border.Py.Result.{Result-cases, err, ok}
use minority_prophet_border.Py.Table.{row_of, row_of_here, row_of_kept}
use minority_prophet_border.Crossing.Json.{digest}
use minority_prophet_border.Platform.{Platform}

module _ (p : Platform) where
  settle_action-keeps :
      (a : Action) (print : String) (held : Option Row) (s : Runtime) (key : String) (row : Row)
      → row_of a.idempotency_key s.actions ≡ held
      → row_of key s.actions ≡ some row
      → row_of key (settle_action p a print held s).1.actions ≡ some row
  unfolding settle_action
  settle_action-keeps a print (some r) s key row e h = elim (Bool-cases (r.fingerprint == print)) [
    | inl y ↦ rw y h
    | inr n ↦ rw n h
  ]
  settle_action-keeps a print none s key row e h =
      row_of_kept key a.idempotency_key row (new_row p a print) s.actions e h

  execute_once-keeps :
      (a : Action) (s : Runtime) (key : String) (row : Row)
      → row_of key s.actions ≡ some row
      → row_of key (execute_once p a s).1.actions ≡ some row
  unfolding execute_once
  execute_once-keeps a s key row h = elim (Result-cases (action_fingerprint p a)) [
    | inl (print, e) ↦
        rw (execute_once, e)
          (settle_action-keeps a print (row_of a.idempotency_key s.actions) s key row refl h)
    | inr (x, e) ↦ rw (execute_once, e) h
  ]

  pub bind_grant-actions :
      (grant key : String) (s : Runtime) → (bind_grant grant key s).1.actions ≡ s.actions
  unfolding bind_grant
  bind_grant-actions grant key s = ground arith

  operate_all-keeps :
      (os : List Operation) (s : Runtime) (key : String) (row : Row)
      → row_of key s.actions ≡ some row
      → row_of key (operate_all p os s).actions ≡ some row
  operate_all-keeps [] s key row h = h
  operate_all-keeps (binds grant k ∷ os) s key row h =
      operate_all-keeps os _ key row (rw (bind_grant-actions grant k s) h)
  operate_all-keeps (executes a ∷ os) s key row h =
      operate_all-keeps os _ key row (execute_once-keeps a s key row h)

  -- What a first or a repeated execution leaves under the key.
  settle_action-stores :
      (a : Action) (print : String) (held : Option Row) (s : Runtime) (receipt : RuntimeReceipt)
      → row_of a.idempotency_key s.actions ≡ held
      → (settle_action p a print held s).0 ≡ ok receipt
      → (row : Row) × (row_of a.idempotency_key (settle_action p a print held s).1.actions
          ≡ some row)
        × (row.fingerprint ≡ print)
        × (receipt.result_digest ≡ some row.result_digest)
  unfolding settle_action new_row
  settle_action-stores a print (some r) s receipt e h = elim (Bool-cases (r.fingerprint == print)) [
    | inl y ↦ (r, rw y e, (eq_iff r.fingerprint print).0 y, ground arith)
    | inr n ↦ absurd (ground arith)
  ]
  settle_action-stores a print none s receipt e h = (
    new_row p a print,
    row_of_here a.idempotency_key (new_row p a print) s.actions,
    refl,
    ground arith,
  )

  execute_once-stores :
      (a : Action) (s : Runtime) (receipt : RuntimeReceipt)
      → (execute_once p a s).0 ≡ ok receipt
      → (row : Row) × (row_of a.idempotency_key (execute_once p a s).1.actions ≡ some row)
        × (action_fingerprint p a ≡ ok row.fingerprint)
        × (receipt.result_digest ≡ some row.result_digest)
  unfolding execute_once
  execute_once-stores a s receipt h = elim (Result-cases (action_fingerprint p a)) [
    | inl (print, e) ↦
        let (row, held, same, digest) =
          settle_action-stores a print (row_of a.idempotency_key s.actions) s receipt refl
            (rw (execute_once, e) at h) in
        (row, rw (execute_once, e) held, e ∙ ap ok (sym same), digest)
    | inr (x, e) ↦ absurd (cc (rw (execute_once, e) at h))
  ]

  execute_once_held :
      (a : Action) (s : Runtime) (print : String) (row : Row)
      → action_fingerprint p a ≡ ok print
      → row_of a.idempotency_key s.actions ≡ some row
      → execute_once p a s ≡ (
        if row.fingerprint == print
            then ok (succeeded a row true)
            else err (refused "idempotency key was substituted across actions"),
        s,
      )
  unfolding execute_once settle_action
  execute_once_held a s print row e h = ground arith

  -- Once an action has run under a key, whatever calls come between, a later action with that key
  -- gets the result of the first run, marked as replayed, if the two have the same fingerprint,
  -- and is refused as a substitution if not; in both cases the tables stay as they are.
  pub execute_once_settles :
      (first second : Action) (between : List Operation) (s : Runtime) (receipt : RuntimeReceipt)
      (print : String)
      → second.idempotency_key ≡ first.idempotency_key
      → (execute_once p first s).0 ≡ ok receipt
      → action_fingerprint p second ≡ ok print
      → (row : Row) × (action_fingerprint p first ≡ ok row.fingerprint)
        × (receipt.result_digest ≡ some row.result_digest)
        × (execute_once p second (operate_all p between (execute_once p first s).1) ≡ (
          if row.fingerprint == print
              then ok (succeeded second row true)
              else err (refused "idempotency key was substituted across actions"),
          operate_all p between (execute_once p first s).1,
        ))
  execute_once_settles first second between s receipt print same h e =
      let (row, held, first_print, digest) = execute_once-stores first s receipt h in
      (
        row,
        first_print,
        digest,
        execute_once_held second (operate_all p between (execute_once p first s).1) print row e (
            rw same (
              operate_all-keeps between (execute_once p first s).1 first.idempotency_key row held)),
      )
