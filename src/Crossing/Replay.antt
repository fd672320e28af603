-- ===== src/Crossing/Replay.antt =====
-- An authority crosses once, whatever happens in between.
-- One call of `verify`, with the clock's reading.
use minority_prophet_border.Crossing.Soundness.{
  verify_crossing-IsCrossing, verify_crossing-invalid, verify_crossing-valid,
}
use minority_prophet_border.Prelude.{
  List, String, [], arith, eq_refl, false, inl, inr, refl, true, ◌∷◌, ◌≡◌, ◌≢◌,
}
use minority_prophet_border.Crossing.Verifier.{
  Consumed, accepted, check_crossing, consume, replay_key, settle, verify_crossing,
}
use minority_prophet_border.Py.Result.{Result, Result-cases, early_return, err, exn, ok}
use minority_prophet_border.Py.Value.{mem}
use minority_prophet_border.Crossing.Inputs.{Inputs, Raw, validate_inputs}
use minority_prophet_border.Platform.{Platform}
use minority_prophet_border.Py.Clock.{Time}

pub record Call : Type 0 where
  pub raw : Raw
  pub now : Time

-- The consumed keys after a history of calls.
unfoldable pub run : Platform → List Call → Consumed → Consumed
run p [] consumed = consumed
run p (c ∷ cs) consumed = run p cs (verify_crossing p c.raw c.now consumed).1

mem_here : (key : String) (consumed : Consumed) → mem key (key ∷ consumed) ≡ true
mem_here key consumed = rw (eq_refl key) refl

consume-keeps :
    (key other : String) (consumed : Consumed)
    → mem key consumed ≡ true
    → mem key (consume other consumed).1 ≡ true
unfolding consume
consume-keeps key other consumed h = ground arith

settle-keeps :
    (key : String) (checked : Result String) (consumed : Consumed)
    → mem key consumed ≡ true
    → mem key (settle checked consumed).1 ≡ true
settle-keeps key (ok other) consumed h = consume-keeps key other consumed h
settle-keeps key (err (exn early_return m)) consumed h = h
settle-keeps key (err (exn _ m)) consumed h = h

verify_crossing-keeps :
    (p : Platform) (c : Call) (key : String) (consumed : Consumed)
    → mem key consumed ≡ true
    → mem key (verify_crossing p c.raw c.now consumed).1 ≡ true
verify_crossing-keeps p c key consumed h = elim (Result-cases (validate_inputs p c.raw)) [
  | inl (i, e) ↦
      rw (verify_crossing-valid p c.raw c.now consumed i e)
        (settle-keeps key (check_crossing p i c.now) consumed h)
  | inr (x, e) ↦ rw (verify_crossing-invalid p c.raw c.now consumed x e) h
]

run-keeps :
    (p : Platform) (cs : List Call) (key : String) (consumed : Consumed)
    → mem key consumed ≡ true
    → mem key (run p cs consumed) ≡ true
unfolding run
run-keeps p [] key consumed h = h
run-keeps p (c ∷ cs) key consumed h =
    run-keeps p cs key _ (verify_crossing-keeps p c key consumed h)

ok_same : {A : Type 0} → (r : Result A) (x y : A) → r ≡ ok x → r ≡ ok y → x ≡ y
ok_same r x y h k = cc

-- The key that an accepted call spends is the one of its authority.
accepted-key :
    (p : Platform) (c : Call) (consumed : Consumed) (i : Inputs) (key : String)
    → validate_inputs p c.raw ≡ ok i
    → replay_key p i.authority ≡ ok key
    → (verify_crossing p c.raw c.now consumed).0 ≡ ok accepted
    → (mem key consumed ≡ false) × ((verify_crossing p c.raw c.now consumed).1 ≡ key ∷ consumed)
accepted-key p c consumed i key e k h =
    let (i', key', e', crossing, new, spent) =
      verify_crossing-IsCrossing p c.raw c.now consumed h in
    let same : i ≡ i' = ok_same _ i i' e e' in
    let k' : replay_key p i.authority ≡ ok key' = rw same crossing.replay in
    let keys : key ≡ key' = ok_same _ key key' k k' in (rw keys new, rw keys spent)

-- Once a crossing is accepted, no call after it is accepted for an authority of the same issuer,
-- identity and nonce (that is, of the same replay key), whatever calls and clock readings lie
-- between them and whatever else the two calls hold.
pub verify_crossing-spends :
    (p : Platform) (first second : Call) (between : List Call) (consumed : Consumed) (i j : Inputs)
    (key : String)
    → validate_inputs p first.raw ≡ ok i
    → validate_inputs p second.raw ≡ ok j
    → replay_key p i.authority ≡ ok key
    → replay_key p j.authority ≡ ok key
    → (verify_crossing p first.raw first.now consumed).0 ≡ ok accepted
    → (verify_crossing p second.raw second.now
        (run p between (verify_crossing p first.raw first.now consumed).1)).0
      ≢ ok accepted
verify_crossing-spends p first second between consumed i j key e e' k k' h again =
    let (_, spent) = accepted-key p first consumed i key e k h in
    let held : mem key (verify_crossing p first.raw first.now consumed).1 ≡ true =
      rw spent (mem_here key consumed) in
    let kept = run-keeps p between key _ held in
    let (new, _) = accepted-key p second _ j key e' k' again in absurd (ground arith)
