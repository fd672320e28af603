-- ===== src/Py/Bindings/Laws.antt =====
-- What the recurring checks have established when they let the code through.
use minority_prophet_border.Prelude.{◌≤◌, ◌<◌, String, ◌≡◌, refl, true, List, [], ◌∷◌, arith, All}
use minority_prophet_border.Py.Result.{Exn, ok}
use minority_prophet_border.Py.Value.{Value, Fields, get}
use minority_prophet_border.Py.Equality.{value_eq}
use minority_prophet_border.Py.Clock.{Time}
use minority_prophet_border.Py.Bindings.{match_items, match_gets, in_window}

-- Each expected field has an equal value in the record.
abbrev pub Agrees : Fields → List (String × Value) → Type 0
Agrees rec expected = All (λ e. value_eq (get rec e.0) e.1 ≡ true) expected

pub match_items-Agrees :
    (m : String → Exn) (rec : Fields) (expected : List (String × Value))
    → match_items m rec expected ≡ ok tt
    → Agrees rec expected
unfolding match_items
match_items-Agrees m rec [] h = tt
match_items-Agrees m rec ((f, v) ∷ rest) h = ground (arith, match_items-Agrees m rec rest)

pub match_gets-Agrees :
    (m : String → Exn) (rec : Fields) (expected : List (String × Value))
    → match_gets m rec expected ≡ ok tt
    → Agrees rec expected
unfolding match_gets
match_gets-Agrees m rec [] h = tt
match_gets-Agrees m rec ((f, v) ∷ rest) h = ground (arith, match_gets-Agrees m rec rest)

pub Agrees-match_gets :
    (m : String → Exn) (rec : Fields) (expected : List (String × Value))
    → Agrees rec expected
    → match_gets m rec expected ≡ ok tt
unfolding match_gets
Agrees-match_gets m rec [] h = refl
Agrees-match_gets m rec ((f, v) ∷ rest) h = ground (arith, Agrees-match_gets m rec rest)

pub in_window-eq-true :
    (starts now expires : Time)
    → in_window starts now expires ≡ ok true
    → (starts.instant ≤ now.instant) × (now.instant < expires.instant)
in_window-eq-true starts now expires h = ground arith
