-- ===== src/Tests/Sandbox.antt =====
-- Two deliveries of one call, and another call under the key of the first.
use minority_prophet_border.Jcs.{canonicalize, encode, render}
use minority_prophet_border.Sandbox.Runtime.{
  Action, Row, Runtime, action_fingerprint, bind_grant, execute_once, new_row, opened,
  settle_action, succeeded, Operation, binds, effect_count, executes, operate_all,
}
use minority_prophet_border.Tests.Runtime.{runs, runtime}
use minority_prophet_border.Py.Value.{dict}
use minority_prophet_border.Prelude.{
  String, [], false, refl, ◌≡◌, List, if◌then◌else◌, not, some, true, ◌+◌, ◌==◌, ◌∷◌, ◌≤◌,
}
use minority_prophet_border.Py.Result.{err, ok, raise_if}
use minority_prophet_border.Admission.Base.{document_digest, refused}
use minority_prophet_border.Tests.Web.{value_or}
use minority_prophet_border.Py.Json.{dumps_sorted, to_ascii}
use minority_prophet_border.Py.Text.{concat}
use minority_prophet_border.Sandbox.Runtime.Once.{execute_once_settles}
use minority_prophet_border.Sandbox.Runtime.Grants.{bind_grant_settles}
use minority_prophet_border.Sandbox.Runtime.Refinement.{operate_all-refines, record_claims, view}
use minority_prophet_border.Sandbox.Runtime.Bounds.{operate_all_bounds, room}

abbrev action : String → Action
action tool = record {
  action_id = "a-1";
  action_type = "tools/call";
  target = tool;
  payload_digest = "d";
  idempotency_key = "k-1";
  payload = dict [];
}

abbrev echo : Action
echo = action "interop.echo"

abbrev other : Action
other = action "interop.other"

unfoldable sandbox_runs : Unit {0}
unfolding runs document_digest canonicalize action_fingerprint new_row settle_action execute_once
    bind_grant dumps_sorted to_ascii render encode concat
sandbox_runs = tt

abbrev settled : Runtime
unfolding sandbox_runs
settled = (execute_once runtime echo opened).1

abbrev print_of : Action → String
unfolding sandbox_runs
print_of a = value_or "" (action_fingerprint runtime a)

abbrev first_row : Row
unfolding sandbox_runs
first_row = new_row runtime echo (print_of echo)

executed : (execute_once runtime echo opened).0 ≡ ok (succeeded echo first_row false)
unfolding sandbox_runs
executed = refl

printed : action_fingerprint runtime other ≡ ok (print_of other)
unfolding sandbox_runs
printed = refl

substituted :
    (execute_once runtime other settled).0
    ≡ err (refused "idempotency key was substituted across actions")
unfolding sandbox_runs
substituted = refl

bound_once : (bind_grant "g-1" "k-1" opened).0 ≡ ok tt
unfolding sandbox_runs
bound_once = refl

abbrev between : List Operation
between = binds "g-1" "k-1" ∷ executes echo ∷ []

execute_once_settles_example :
    (row : Row) × (action_fingerprint runtime echo ≡ ok row.fingerprint)
    × ((succeeded echo first_row false).result_digest ≡ some row.result_digest)
    × (execute_once runtime other (operate_all runtime between (execute_once runtime echo opened).1)
        ≡ (
          if row.fingerprint == print_of other
              then ok (succeeded other row true)
              else err (refused "idempotency key was substituted across actions"),
          operate_all runtime between (execute_once runtime echo opened).1,
        ))
execute_once_settles_example =
    execute_once_settles runtime echo other between opened (succeeded echo first_row false)
      (print_of other) refl executed printed

bind_grant_settles_example :
    bind_grant "g-1" "k-2" (operate_all runtime between (bind_grant "g-1" "k-1" opened).1) ≡ (
      raise_if
          (not ("k-1" == "k-2"))
          (refused "access-token grant was already used for another request"),
      operate_all runtime between (bind_grant "g-1" "k-1" opened).1,
    )
bind_grant_settles_example = bind_grant_settles runtime "g-1" "k-1" "k-2" between opened bound_once

operate_all-refines_example :
    view (operate_all runtime between opened) ≡ record_claims runtime between (view opened)
operate_all-refines_example = operate_all-refines runtime between opened

operate_all_bounds_example :
    (effect_count opened ≤ effect_count (operate_all runtime between opened))
    × (effect_count (operate_all runtime between opened) ≤ effect_count opened + room "k-1" opened)
operate_all_bounds_example = operate_all_bounds runtime between opened "k-1" (refl, tt)
