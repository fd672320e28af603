-- ===== src/Py/Table.antt =====
-- A table with a primary key, or a dictionary of the program's own: the rows in the order of their
-- insertion, the last one first. A key is inserted only where there is none.
use minority_prophet_border.Prelude.{
  Bool-cases, List, Option, String, [], eq_iff, eq_refl, if◌then◌else◌, inl, inr, none, refl, some,
  ◌==◌, ◌∷◌, ◌≡◌, ap,
}

module _ {ℓ} {A : Type ℓ} where
  abbrev pub row_of : String → List (String × A) → Option A
  row_of key [] = none
  row_of key ((k, row) ∷ rest) = if k == key then some row else row_of key rest

  -- `d.pop(key, None)`, its change
  abbrev pub without_row : String → List (String × A) → List (String × A)
  without_row key [] = []
  without_row key ((k, row) ∷ rest) =
      let kept = without_row key rest in if k == key then kept else (k, row) ∷ kept

  -- `d[key] = row`, up to the order of the rows
  abbrev pub set_row : String → A → List (String × A) → List (String × A)
  set_row key row rows = (key, row) ∷ without_row key rows

  pub row_of_here :
      (key : String) (row : A) (rows : List (String × A))
      → row_of key ((key, row) ∷ rows) ≡ some row
  row_of_here key row rows = rw (eq_refl key) refl

  -- A row that is there stays under a row with a key that was free.
  pub row_of_kept :
      (key other : String) (row new : A) (rows : List (String × A))
      → row_of other rows ≡ none
      → row_of key rows ≡ some row
      → row_of key ((other, new) ∷ rows) ≡ some row
  row_of_kept key other row new rows free old = elim (Bool-cases (other == key)) [
    | inl same ↦ absurd (row_clash (rw ((eq_iff other key).0 same) at free) old)
    | inr ne ↦ rw ne old
  ]
    where
      row_clash : {o : Option A} → {a : A} → o ≡ none → o ≡ some a → ⊥
      row_clash e f = cc

  pub row_of-without_row :
      (key : String) (rows : List (String × A)) → row_of key (without_row key rows) ≡ none
  row_of-without_row key [] = refl
  row_of-without_row key ((k, row) ∷ rest) = elim (Bool-cases (k == key)) [
    | inl same ↦ rw same (row_of-without_row key rest)
    | inr ne ↦ rw ne (rw ne (row_of-without_row key rest))
  ]

  pub row_of-without_row-none :
      (key other : String) (rows : List (String × A))
      → row_of key rows ≡ none
      → row_of key (without_row other rows) ≡ none
  row_of-without_row-none key other [] h = refl
  row_of-without_row-none key other ((k, row) ∷ rest) h = elim (Bool-cases (k == key)) [
    | inl same ↦ absurd (some_clash (rw same at h))
    | inr ne ↦ elim (Bool-cases (k == other)) [
      | inl drop ↦ rw drop (row_of-without_row-none key other rest (rw ne at h))
      | inr keep ↦ rw keep (rw ne (row_of-without_row-none key other rest (rw ne at h)))
    ]
  ]
    where
      some_clash : {a : A} → some a ≡ none → ⊥
      some_clash e = cc

  pub without_row_absent :
      (key : String) (rows : List (String × A))
      → row_of key rows ≡ none
      → without_row key rows ≡ rows
  without_row_absent key [] h = refl
  without_row_absent key ((k, row) ∷ rest) h = elim (Bool-cases (k == key)) [
    | inl same ↦ absurd (row_clash (rw same at h))
    | inr ne ↦ rw ne (ap (λ rows. (k, row) ∷ rows) (without_row_absent key rest (rw ne at h)))
  ]
    where
      row_clash : {a : A} → some a ≡ none → ⊥
      row_clash e = cc
