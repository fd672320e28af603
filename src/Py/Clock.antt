-- ===== src/Py/Clock.antt =====
-- `datetime`. An instant is counted in microseconds; a naive time has no zone.
use minority_prophet_border.Prelude.{
  ℕ, String, Bool, true, false, Option, none, some, leb, ltb, if◌then◌else◌,
}
use minority_prophet_border.Py.Result.{Result, ok, err, exn, type_error}

pub data Zone : Type 0 where
  utc : Zone
  offset : String → Zone

pub record Time : Type 0 where
  pub instant : ℕ
  pub zone : Option Zone

abbrev pub is_naive : Time → Bool
is_naive t = elim t.zone [ none ↦ true | some z ↦ false ]

abbrev pub both_aware : Option Zone → Option Zone → Bool
both_aware none none = true
both_aware (some _) (some _) = true
both_aware _ _ = false

-- An order test between a naive and an aware time raises `TypeError`.
abbrev pub compare_times : (ℕ → ℕ → Bool) → Time → Time → Result Bool
compare_times test a b =
    if both_aware a.zone b.zone
    then ok (test a.instant b.instant)
    else err (exn type_error "can't compare offset-naive and offset-aware datetimes")

abbrev pub le_time : Time → Time → Result Bool
le_time = compare_times leb

abbrev pub lt_time : Time → Time → Result Bool
lt_time = compare_times ltb
