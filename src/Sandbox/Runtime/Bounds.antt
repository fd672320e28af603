-- ===== src/Sandbox/Runtime/Bounds.antt =====
-- How many effects a history of calls can have.
use mathlib.Core.Path.{subst}
use minority_prophet_border.Platform.{Platform}
use minority_prophet_border.Prelude.{
  Bool-cases, List, Option, String, [], ap, arith, inl, inr, length, none, refl, some, ℕ, ◌+◌, ◌==◌,
  ◌∙◌, ◌∷◌, ◌≡◌, ◌≤◌,
}
use minority_prophet_border.Sandbox.Runtime.{
  Action, Operation, Row, Runtime, action_fingerprint, bind_grant, binds, effect_count,
  execute_once, executes, new_row, operate_all, settle_action,
}
use minority_prophet_border.Py.Table.{row_of, row_of_here}
use minority_prophet_border.Sandbox.Runtime.Once.{bind_grant-actions}
use minority_prophet_border.Py.Result.{Result-cases}

-- Every execution of the history is under this key.
abbrev pub OnKey : String → List Operation → Type 0
OnKey key [] = Unit
OnKey key (binds grant k ∷ os) = OnKey key os
OnKey key (executes a ∷ os) = (a.idempotency_key ≡ key) × OnKey key os

-- One where the key is free.
abbrev pub room : String → Runtime → ℕ
room key s = elim (row_of key s.actions) [ none ↦ 1 | some row ↦ 0 ]

room_free : (key : String) (s : Runtime) → row_of key s.actions ≡ none → room key s ≡ 1
room_free key s e = rw (room, e) refl

room_held :
    (key : String) (s : Runtime) (row : Row) → row_of key s.actions ≡ some row → room key s ≡ 0
room_held key s row e = rw (room, e) refl

module _ (p : Platform) where
  effect_count-bind_grant :
      (grant key : String) (s : Runtime) → effect_count (bind_grant grant key s).1 ≡ effect_count s
  unfolding effect_count
  effect_count-bind_grant grant key s = ap length (bind_grant-actions p grant key s)

  room-bind_grant :
      (grant key k : String) (s : Runtime) → room k (bind_grant grant key s).1 ≡ room k s
  unfolding bind_grant
  room-bind_grant grant key k s = ground arith

  settle_action-room :
      (a : Action) (print : String) (held : Option Row) (s : Runtime)
      → row_of a.idempotency_key s.actions ≡ held
      → effect_count (settle_action p a print held s).1
          + room a.idempotency_key (settle_action p a print held s).1
        ≡ effect_count s + room a.idempotency_key s
  unfolding settle_action effect_count
  settle_action-room a print (some row) s e = elim (Bool-cases (row.fingerprint == print)) [
    | inl y ↦ rw y refl
    | inr n ↦ rw n refl
  ]
  settle_action-room a print none s e =
      let s' = (settle_action p a print none s).1 in
      let before = room_free a.idempotency_key s e in
      let after =
        room_held a.idempotency_key s' (new_row p a print)
          (row_of_here a.idempotency_key (new_row p a print) s.actions) in
      omega (arith, before, after)

  execute_once-room :
      (a : Action) (s : Runtime)
      → effect_count (execute_once p a s).1 + room a.idempotency_key (execute_once p a s).1
        ≡ effect_count s + room a.idempotency_key s
  unfolding execute_once
  execute_once-room a s = elim (Result-cases (action_fingerprint p a)) [
    | inl (print, e) ↦
        rw (execute_once, e)
          (settle_action-room a print (row_of a.idempotency_key s.actions) s refl)
    | inr (x, e) ↦ rw (execute_once, e) refl
  ]

  operate_all-room :
      (os : List Operation) (s : Runtime) (key : String)
      → OnKey key os
      → effect_count (operate_all p os s) + room key (operate_all p os s)
        ≡ effect_count s + room key s
  operate_all-room [] s key h = refl
  operate_all-room (binds grant k ∷ os) s key h =
      operate_all-room os _ key h
      ∙ rw (effect_count-bind_grant grant k s, room-bind_grant grant k key s) refl
  operate_all-room (executes a ∷ os) s key (same, h) =
      operate_all-room os _ key h
      ∙ subst
          (λ k.
            effect_count (execute_once p a s).1 + room k (execute_once p a s).1
            ≡ effect_count s + room k s)
          same (execute_once-room a s)

  effect_count-settle_action :
      (a : Action) (print : String) (held : Option Row) (s : Runtime)
      → effect_count s ≤ effect_count (settle_action p a print held s).1
  unfolding settle_action effect_count
  effect_count-settle_action a print (some row) s = ground arith
  effect_count-settle_action a print none s = omega arith

  effect_count-execute_once :
      (a : Action) (s : Runtime) → effect_count s ≤ effect_count (execute_once p a s).1
  unfolding execute_once
  effect_count-execute_once a s = elim (Result-cases (action_fingerprint p a)) [
    | inl (print, e) ↦
        rw (execute_once, e)
          (effect_count-settle_action a print (row_of a.idempotency_key s.actions) s)
    | inr (x, e) ↦ rw (execute_once, e) (omega arith)
  ]

  effect_count-operate_all :
      (os : List Operation) (s : Runtime) → effect_count s ≤ effect_count (operate_all p os s)
  effect_count-operate_all [] s = omega arith
  effect_count-operate_all (binds grant k ∷ os) s = omega (
    arith,
    effect_count-operate_all os (bind_grant grant k s).1,
    effect_count-bind_grant grant k s,
  )
  effect_count-operate_all (executes a ∷ os) s =
      omega
        (arith, effect_count-operate_all os (execute_once p a s).1, effect_count-execute_once a s)

  -- However often an idempotency key is presented, with whatever actions and grants, at most one
  -- effect is recorded, none where the key is taken, and none is ever removed.
  pub operate_all_bounds :
      (os : List Operation) (s : Runtime) (key : String)
      → OnKey key os
      → (effect_count s ≤ effect_count (operate_all p os s))
        × (effect_count (operate_all p os s) ≤ effect_count s + room key s)
  operate_all_bounds os s key h =
      (effect_count-operate_all os s, omega (arith, operate_all-room os s key h))
