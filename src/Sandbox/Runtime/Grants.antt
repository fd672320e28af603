-- ===== src/Sandbox/Runtime/Grants.antt =====
-- A grant serves one request.
use minority_prophet_border.Py.Table.{row_of, row_of_here, row_of_kept}
use minority_prophet_border.Py.Result.{Result-cases, ok, raise_if}
use minority_prophet_border.Prelude.{
  Bool-cases, List, Option-cases, String, [], ap, arith, eq_iff, inl, inr, not, refl, some, ◌==◌,
  ◌∙◌, ◌∷◌, ◌≡◌,
}
use minority_prophet_border.Sandbox.Runtime.{
  Action, Operation, Runtime, bind_grant, binds, execute_once, executes, operate_all, settle_action,
  action_fingerprint,
}
use minority_prophet_border.Admission.Base.{refused}
use minority_prophet_border.Platform.{Platform}

bind_grant-keeps :
    (grant other key bound : String) (s : Runtime)
    → row_of grant s.grants ≡ some bound
    → row_of grant (bind_grant other key s).1.grants ≡ some bound
unfolding bind_grant
bind_grant-keeps grant other key bound s h = elim (Option-cases (row_of other s.grants)) [
  | inl e ↦ rw (bind_grant, e) (row_of_kept grant other bound key s.grants e h)
  | inr (k, e) ↦ rw (bind_grant, e) h
]

execute_once-grants :
    (p : Platform) (a : Action) (s : Runtime) → (execute_once p a s).1.grants ≡ s.grants
unfolding execute_once settle_action
execute_once-grants p a s = elim (Result-cases (action_fingerprint p a)) [
  | inr (x, e) ↦ rw (execute_once, e) refl
  | inl (print, e) ↦ elim (Option-cases (row_of a.idempotency_key s.actions)) [
    | inl free ↦ ground arith
    | inr (row, held) ↦ ground arith
  ]
]

operate_all-grants :
    (p : Platform) (os : List Operation) (s : Runtime) (grant bound : String)
    → row_of grant s.grants ≡ some bound
    → row_of grant (operate_all p os s).grants ≡ some bound
operate_all-grants p [] s grant bound h = h
operate_all-grants p (binds other key ∷ os) s grant bound h =
    operate_all-grants p os _ grant bound (bind_grant-keeps grant other key bound s h)
operate_all-grants p (executes a ∷ os) s grant bound h =
    operate_all-grants p os _ grant bound (rw (execute_once-grants p a s) h)

bind_grant-binds :
    (grant key : String) (s : Runtime)
    → (bind_grant grant key s).0 ≡ ok tt
    → row_of grant (bind_grant grant key s).1.grants ≡ some key
unfolding bind_grant
bind_grant-binds grant key s h = elim (Option-cases (row_of grant s.grants)) [
  | inl e ↦ rw (bind_grant, e) (row_of_here grant key s.grants)
  | inr (bound, e) ↦ elim (Bool-cases (bound == key)) [
    | inl y ↦ rw (bind_grant, e) (e ∙ ap some ((eq_iff bound key).0 y))
    | inr n ↦ absurd (ground arith)
  ]
]

bind_grant_bound :
    (grant key bound : String) (s : Runtime)
    → row_of grant s.grants ≡ some bound
    → bind_grant grant key s ≡ (
      raise_if
          (not (bound == key))
          (refused "access-token grant was already used for another request"),
      s,
    )
unfolding bind_grant
bind_grant_bound grant key bound s h = rw (bind_grant, h) refl

-- Once a grant is bound to a request, whatever calls come between, it is accepted again for that
-- request alone: for any other it is refused. In both cases the tables stay as they are.
pub bind_grant_settles :
    (p : Platform) (grant key key' : String) (between : List Operation) (s : Runtime)
    → (bind_grant grant key s).0 ≡ ok tt
    → bind_grant grant key' (operate_all p between (bind_grant grant key s).1) ≡ (
      raise_if
          (not (key == key'))
          (refused "access-token grant was already used for another request"),
      operate_all p between (bind_grant grant key s).1,
    )
bind_grant_settles p grant key key' between s h =
    bind_grant_bound grant key' key (operate_all p between (bind_grant grant key s).1) (
      operate_all-grants p between (bind_grant grant key s).1 grant key
        (bind_grant-binds grant key s h))
