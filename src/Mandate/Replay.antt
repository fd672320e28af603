-- ===== src/Mandate/Replay.antt =====
-- A nonce has one receipt, for one set of documents.
use mathlib.Core.Path.{subst}
use minority_prophet_border.Py.Value.{Fields, Value, get, null, str}
use minority_prophet_border.Mandate.Adapter.{
  MandateContext, Material, Receipts, invocation_nonce, normalize_invocation, receipt_of,
  settle_receipt, source_digest, normalize_step, relation_receipt,
}
use minority_prophet_border.Prelude.{
  Bool-cases, Option, String, arith, eq_iff, eq_refl, inl, inr, none, refl, some, ◌==◌, ◌∷◌, ◌≡◌,
  List, [], ap, sym, ◌∙◌,
}
use minority_prophet_border.Py.Result.{Result, Result-cases, ok, Exn, err}
use minority_prophet_border.Py.Clock.{Time}
use minority_prophet_border.Platform.{Platform}
use minority_prophet_border.Mandate.Invocation.{normalize_invocation-Checked}
use minority_prophet_border.Py.Bindings.{to_utc}

module _ (nonce source : String) (made : Result Fields) (receipts : Receipts)
    (result : Fields × Receipts) where
  -- What a nonce has in the memory after it is settled.
  settle_receipt-stores :
      (held : Option (String × Fields))
      → receipt_of nonce receipts ≡ held
      → settle_receipt held nonce source made receipts ≡ ok result
      → receipt_of nonce result.1 ≡ some (source, result.0)
  unfolding settle_receipt
  settle_receipt-stores none e h = elim (Result-cases made) [
    | inl (receipt, m) ↦
        let same : (receipt, (nonce, (source, receipt)) ∷ receipts) ≡ result = ground arith in
        subst (λ r. receipt_of nonce r.1 ≡ some (source, r.0)) same (rw (eq_refl nonce) refl)
    | inr (x, m) ↦ absurd (ground arith)
  ]
  settle_receipt-stores (some (previous, receipt)) e h = elim (Bool-cases (previous == source)) [
    | inl y ↦
        let same : (receipt, receipts) ≡ result = ground arith in
        subst (λ r. receipt_of nonce r.1 ≡ some (source, r.0)) same
          (rw ((eq_iff previous source).0 y) at e)
    | inr n ↦ absurd (ground arith)
  ]

  settle_receipt-keeps :
      (held : Option (String × Fields)) (k : String) (entry : String × Fields)
      → receipt_of nonce receipts ≡ held
      → settle_receipt held nonce source made receipts ≡ ok result
      → receipt_of k receipts ≡ some entry
      → receipt_of k result.1 ≡ some entry
  unfolding settle_receipt
  settle_receipt-keeps none k entry e h old = elim (Result-cases made) [
    | inl (receipt, m) ↦
        let same : (nonce, (source, receipt)) ∷ receipts ≡ result.1 = ground arith in
        subst (λ r. receipt_of k r ≡ some entry) same
          (elim (Bool-cases (nonce == k)) [
            | inl y ↦ absurd (clash (rw ((eq_iff nonce k).0 y) at e) old)
            | inr n ↦ rw n old
          ])
    | inr (x, m) ↦ absurd (ground arith)
  ]
    where
      clash : {A : Type 0} → {o : Option A} → {a : A} → o ≡ none → o ≡ some a → ⊥
      clash e f = cc
  settle_receipt-keeps (some (previous, receipt)) k entry e h old =
      let same : receipts ≡ result.1 = ground arith in
      subst (λ r. receipt_of k r ≡ some entry) same old

invocation_nonce-str : (v : Value) (nonce : String) → invocation_nonce v ≡ ok nonce → v ≡ str nonce
invocation_nonce-str (str s) nonce h = ground arith
invocation_nonce-str null nonce h = cc
invocation_nonce-str _ nonce h = cc

-- One call, with the clock's reading.
pub record Request : Type 0 where
  pub material : Material
  pub clock : Time

module _ (p : Platform) (c : MandateContext) where
  -- Where a call that answers ends.
  Settled : Material → Receipts → Fields × Receipts → Type 0
  Settled m receipts result =
      (nonce : String) × (source : String) × (made : Result Fields) × (get m.mandate "nonce"
        ≡ str nonce)
      × (source_digest p m ≡ ok source)
      × (settle_receipt (receipt_of nonce receipts) nonce source made receipts ≡ ok result)

  normalize_invocation-Settled :
      (m : Material) (clock : Time) (receipts : Receipts) (result : Fields × Receipts)
      → normalize_invocation p c m clock receipts ≡ ok result
      → Settled m receipts result
  unfolding normalize_invocation Settled
  normalize_invocation-Settled m clock receipts result h =
      let (action_hash, request, executor, credential, window, a, i, r, x, k, w) =
        normalize_invocation-Checked p c m clock receipts result h in
      elim (Result-cases (source_digest p m)) [
        | inr (y, e) ↦ absurd (ground arith)
        | inl (source, s) ↦ elim (Result-cases (invocation_nonce (get m.mandate "nonce"))) [
          | inr (y, e) ↦ absurd (ground arith)
          | inl (nonce, n) ↦ (
            nonce,
            source,
            relation_receipt p c.audience m action_hash nonce window (to_utc clock),
            invocation_nonce-str (get m.mandate "nonce") nonce n,
            s,
            ground arith,
          )
        ]
      ]

  unfoldable pub receipts_after : List Request → Receipts → Receipts
  receipts_after [] receipts = receipts
  receipts_after (r ∷ rs) receipts =
      receipts_after rs (normalize_step p c r.material r.clock receipts).1

  normalize_step_ok :
      (m : Material) (clock : Time) (receipts : Receipts) (receipt : Fields)
      → (normalize_step p c m clock receipts).0 ≡ ok receipt
      → normalize_invocation p c m clock receipts
        ≡ ok (receipt, (normalize_step p c m clock receipts).1)
  unfolding normalize_step
  normalize_step_ok m clock receipts receipt h = ground arith

  normalize_step_state :
      (m : Material) (clock : Time) (receipts : Receipts) (result : Fields × Receipts)
      → normalize_invocation p c m clock receipts ≡ ok result
      → (normalize_step p c m clock receipts).1 ≡ result.1
  unfolding normalize_step
  normalize_step_state m clock receipts result e = ground arith

  normalize_step_refused :
      (m : Material) (clock : Time) (receipts : Receipts) (x : Exn)
      → normalize_invocation p c m clock receipts ≡ err x
      → (normalize_step p c m clock receipts).1 ≡ receipts
  unfolding normalize_step
  normalize_step_refused m clock receipts x e = ground arith

  normalize_step-keeps :
      (m : Material) (clock : Time) (receipts : Receipts) (k : String) (entry : String × Fields)
      → receipt_of k receipts ≡ some entry
      → receipt_of k (normalize_step p c m clock receipts).1 ≡ some entry
  unfolding Settled
  normalize_step-keeps m clock receipts k entry old =
      elim (Result-cases (normalize_invocation p c m clock receipts)) [
        | inl (result, e) ↦
            let (nonce, source, made, n, s, settled) =
              normalize_invocation-Settled m clock receipts result e in
            rw (normalize_step_state m clock receipts result e) (
              settle_receipt-keeps nonce source made receipts result (receipt_of nonce receipts) k
                entry refl settled old)
        | inr (x, e) ↦ rw (normalize_step_refused m clock receipts x e) old
      ]

  receipts_after-keeps :
      (rs : List Request) (receipts : Receipts) (k : String) (entry : String × Fields)
      → receipt_of k receipts ≡ some entry
      → receipt_of k (receipts_after rs receipts) ≡ some entry
  unfolding receipts_after
  receipts_after-keeps [] receipts k entry old = old
  receipts_after-keeps (r ∷ rs) receipts k entry old =
      receipts_after-keeps rs _ k entry
        (normalize_step-keeps r.material r.clock receipts k entry old)

  -- The memory after an answer holds it under the nonce, with the digest of the material.
  normalize_step-stores :
      (m : Material) (clock : Time) (receipts : Receipts) (receipt : Fields) (nonce : String)
      → get m.mandate "nonce" ≡ str nonce
      → (normalize_step p c m clock receipts).0 ≡ ok receipt
      → (source : String) × (source_digest p m ≡ ok source)
        × (receipt_of nonce (normalize_step p c m clock receipts).1 ≡ some (source, receipt))
  unfolding Settled
  normalize_step-stores m clock receipts receipt nonce named h =
      let e = normalize_step_ok m clock receipts receipt h in
      let (nonce', source, made, n, s, settled) =
        normalize_invocation-Settled m clock receipts _ e in
      let same : nonce' ≡ nonce = ground arith in
      (
        source,
        s,
        subst (λ x. receipt_of x (normalize_step p c m clock receipts).1 ≡ some (source, receipt))
            same
            (settle_receipt-stores nonce' source made receipts _ (receipt_of nonce' receipts) refl
              settled),
      )

  -- After a nonce has been answered, whatever calls come between, a call under the same nonce that
  -- is answered gets the same receipt, and its documents have the same digest.
  pub normalize_step_once :
      (first second : Request) (between : List Request) (receipts : Receipts) (nonce : String)
      (receipt receipt' : Fields)
      → get first.material.mandate "nonce" ≡ str nonce
      → get second.material.mandate "nonce" ≡ str nonce
      → (normalize_step p c first.material first.clock receipts).0 ≡ ok receipt
      → (normalize_step p c second.material second.clock
          (receipts_after between (normalize_step p c first.material first.clock receipts).1)).0
        ≡ ok receipt'
      → (receipt' ≡ receipt) × (source_digest p second.material ≡ source_digest p first.material)
  normalize_step_once first second between receipts nonce receipt receipt' n n' h h' =
      let (source, s, held) =
        normalize_step-stores first.material first.clock receipts receipt nonce n h in
      let middle =
        receipts_after between (normalize_step p c first.material first.clock receipts).1 in
      let (source', s', held') =
        normalize_step-stores second.material second.clock middle receipt' nonce n' h' in
      let kept =
        normalize_step-keeps second.material second.clock middle nonce (source, receipt)
          (receipts_after-keeps between _ nonce (source, receipt) held) in
      let (a, b) = same_entry kept held' in (sym b, s' ∙ ap ok (sym a) ∙ sym s)
    where
      same_entry :
          {o : Option (String × Fields)} {a b : String} {x y : Fields}
          → o ≡ some (a, x)
          → o ≡ some (b, y)
          → (a ≡ b) × (x ≡ y)
      same_entry e f = (ground arith, ground arith)
