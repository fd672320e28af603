-- ===== src/Openid/Http/Pairs.antt =====
-- What the hook of `json.loads` lets through: objects that name no member twice.
use mathlib.Core.Path.{subst}
use minority_prophet_border.Prelude.{
  Bool, Bool-cases, String, ap, arith, false, inl, inr, not, refl, true, ◌&&◌, ◌==◌, ◌||◌, ◌≡◌,
  &&-eq-true, &&-of-true, eq_iff, eq_refl, not-eq-true, sym, ◌∙◌, [], ◌∷◌, ◌⊎◌,
}
use minority_prophet_border.Py.Value.{Fields, Value, end, field, has_key, keys, mem, put}
use minority_prophet_border.Py.Result.{ok, Exn, Result, Result-cases, err}
use minority_prophet_border.Openid.Http.{unique_pairs}
use minority_prophet_border.Admission.Base.{refused}
use minority_prophet_border.Py.Text.{concat}

abbrev joined : Fields → Fields → Fields
joined end d = d
joined (field k v rest) d = field k v (joined rest d)

joined_end : (d : Fields) → joined d end ≡ d
joined_end end = refl
joined_end (field k v rest) = ap (field k v) (joined_end rest)

joined_assoc : (a b c : Fields) → joined (joined a b) c ≡ joined a (joined b c)
joined_assoc end b c = refl
joined_assoc (field k v a) b c = ap (field k v) (joined_assoc a b c)

put_absent :
    (k : String) (v : Value) (d : Fields)
    → has_key d k ≡ false
    → put k v d ≡ joined d (field k v end)
unfolding put
put_absent k v end h = refl
put_absent k v (field j w rest) h = elim (Bool-cases (j == k)) [
  | inl y ↦ absurd (cc (rw y at h))
  | inr n ↦ rw n (ap (field j w) (put_absent k v rest (rw n at h)))
]

mem-joined :
    (s k : String) (v : Value) (d : Fields)
    → mem s (keys (joined d (field k v end))) ≡ (mem s (keys d) || k == s)
mem-joined s k v end = elim (Bool-cases (k == s)) [ inl y ↦ rw y refl | inr n ↦ rw n refl ]
mem-joined s k v (field j w rest) = elim (Bool-cases (j == s)) [
  | inl y ↦ rw y refl
  | inr n ↦ rw (n, mem-joined s k v rest) refl
]

-- No key of the second is a key of the first.
abbrev apart : Fields → Fields → Bool
apart a end = true
apart a (field k v rest) = not (has_key a k) && apart a rest

same_text : (s t : String) → (s == t) ≡ (t == s)
same_text s t = elim (Bool-cases (s == t)) [
  | inl y ↦ subst (λ x. (s == x) ≡ (x == s)) ((eq_iff s t).0 y) refl
  | inr n ↦ elim (Bool-cases (t == s)) [
    | inl z ↦ absurd (clash n (subst (λ x. (x == t) ≡ true) ((eq_iff t s).0 z) (eq_refl t)))
    | inr m ↦ n ∙ sym m
  ]
]
  where
    clash : {b : Bool} → b ≡ false → b ≡ true → ⊥
    clash f t = cc

apart_snoc :
    (k : String) (v : Value) (a d : Fields)
    → apart (joined a (field k v end)) d ≡ (apart a d && not (mem k (keys d)))
apart_snoc k v a end = refl
apart_snoc k v a (field j w rest) =
    rw (mem-joined j k v a, apart_snoc k v a rest, same_text k j) (ground arith)

-- The pairs with no name twice
abbrev pub distinct_names : Fields → Bool
distinct_names end = true
distinct_names (field k v rest) = not (has_key rest k) && distinct_names rest

unique_pairs-joined :
    (value d : Fields)
    → apart value d ≡ true
    → distinct_names d ≡ true
    → unique_pairs value d ≡ ok (joined value d)
unfolding unique_pairs
unique_pairs-joined value end a h = ap ok (sym (joined_end value))
unique_pairs-joined value (field k v rest) a h =
    let (new, others) = &&-eq-true (not (has_key value k)) (apart value rest) a in
    let (once, later) = &&-eq-true (not (has_key rest k)) (distinct_names rest) h in
    let fresh = not-eq-true (has_key value k) new in
    rw fresh (
      ap (λ d. unique_pairs d rest) (put_absent k v value fresh)
      ∙ unique_pairs-joined (joined value (field k v end)) rest
          (apart_snoc k v value rest ∙ &&-of-true (apart value rest) _ others once) later
      ∙ ap ok (joined_assoc value (field k v end) rest))

unique_pairs-apart :
    (value d e : Fields)
    → unique_pairs value d ≡ ok e
    → (apart value d ≡ true) × (distinct_names d ≡ true)
unfolding unique_pairs
unique_pairs-apart value end e h = (refl, refl)
unique_pairs-apart value (field k v rest) e h = elim (Bool-cases (has_key value k)) [
  | inl y ↦ absurd (cc (rw y at h))
  | inr n ↦
      let (a, later) =
        unique_pairs-apart (joined value (field k v end)) rest e
          (sym (ap (λ d. unique_pairs d rest) (put_absent k v value n)) ∙ (rw n at h)) in
      let (others, once) = &&-eq-true (apart value rest) _ (sym (apart_snoc k v value rest) ∙ a) in
      (
        &&-of-true (not (has_key value k)) (apart value rest) (rw n refl) others,
        &&-of-true (not (has_key rest k)) (distinct_names rest) once later,
      )
]

unique_pairs-eq-err :
    (value d : Fields) (e : Exn)
    → unique_pairs value d ≡ err e
    → (k : String) × (e ≡ refused (concat ("MCP request contains duplicate key: " ∷ k ∷ [])))
unfolding unique_pairs
unique_pairs-eq-err value end e h = cc
unique_pairs-eq-err value (field k v rest) e h = elim (Bool-cases (has_key value k)) [
  | inl y ↦ (k, ground arith)
  | inr n ↦ unique_pairs-eq-err (put k v value) rest e (rw n at h)
]

-- Decoded pairs make an object where no name comes twice, and the object is then the pairs as they
-- came; where a name does come twice, they are refused with the error that names a key.
pub unique_pairs-distinct_names :
    (d : Fields)
    → ((distinct_names d ≡ true) × (unique_pairs end d ≡ ok d))
      ⊎ ((distinct_names d ≡ false)
          × ((k : String) × (unique_pairs end d
                ≡ err (refused (concat ("MCP request contains duplicate key: " ∷ k ∷ []))))))
unique_pairs-distinct_names d = elim (Result-cases (unique_pairs end d)) [
  | inl (made, q) ↦
      let once = (unique_pairs-apart end d made q).1 in
      inl (once, unique_pairs-joined end d (apart_end d) once)
  | inr (e, q) ↦ elim (Bool-cases (distinct_names d)) [
    | inl y ↦ absurd (clash q (unique_pairs-joined end d (apart_end d) y))
    | inr n ↦ let (k, named) = unique_pairs-eq-err end d e q in inr (n, (k, q ∙ ap err named))
  ]
]
  where
    clash : {r : Result Fields} {x : Exn} → r ≡ err x → r ≡ ok d → ⊥
    clash f t = cc

    apart_end : (d : Fields) → apart end d ≡ true
    apart_end end = refl
    apart_end (field k v rest) = apart_end rest
