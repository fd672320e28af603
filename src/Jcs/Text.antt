-- ===== src/Jcs/Text.antt =====
-- The text of a value in the profile of border/jcs.py, described without the printer's code.
use mathlib.Core.List.{Perm}
use mathlib.Core.List.Perm
use minority_prophet_border.Py.Value.{
  Fields, Items, Value, arr, bool, cons, end, field, float, int, nil, null, obj, str,
}
use minority_prophet_border.Prelude.{
  &&-eq-true, Bool, Bool-cases, List, String, [], ap, arith, false, inl, inr, map, not, refl, true,
  ℕ, ◌&&◌, ◌∷◌, ◌≡◌,
}
use minority_prophet_border.Jcs.{
  Entry, compact, dumps, has_surrogate, insert_entry, max_safe_integer, min_safe_integer, quote,
  render, render_entry, render_fields, render_items, sort_entries,
}
use minority_prophet_border.Py.Text.{append, codes, concat, decimal_ℤ, join, lt_codes}
use minority_prophet_border.Prelude.Int.{leb_ℤ, ℤ}

-- Integers that a double holds exactly, texts and keys without surrogates, and no float
abbrev pub in_range : ℤ → Bool
in_range n = leb_ℤ min_safe_integer n && leb_ℤ n max_safe_integer

unfoldable mutual
  pub in_profile : Value → Bool
  in_profile null = true
  in_profile (bool b) = true
  in_profile (str s) = not (has_surrogate s)
  in_profile (int n) = in_range n
  in_profile (float r) = false
  in_profile (arr vs) = items_in_profile vs
  in_profile (obj d) = fields_in_profile d

  pub items_in_profile : Items → Bool
  items_in_profile nil = true
  items_in_profile (cons v vs) = in_profile v && items_in_profile vs

  pub fields_in_profile : Fields → Bool
  fields_in_profile end = true
  fields_in_profile (field k v rest) =
      not (has_surrogate k) && (in_profile v && fields_in_profile rest)

-- Each key is not before the one in front of it, by code points.
abbrev pub IsSorted : List Entry → Type 0
IsSorted [] = Unit
IsSorted (e ∷ []) = Unit
IsSorted (e ∷ f ∷ rest) = (lt_codes (codes f.0) (codes e.0) ≡ false) × IsSorted (f ∷ rest)

abbrev pub entry_text : Entry → String
entry_text e = append (quote e.0) (append ":" e.1)

-- The text is one of the value: compact, with the entries of each object in the order of their keys.
unfoldable mutual
  pub IsText : Value → String → Type 0
  IsText null t = t ≡ "null"
  IsText (bool true) t = t ≡ "true"
  IsText (bool false) t = t ≡ "false"
  IsText (int n) t = t ≡ decimal_ℤ n
  IsText (float r) t = ⊥
  IsText (str s) t = t ≡ quote s
  IsText (arr vs) t =
      (texts : List String) × AreTexts vs texts × (t ≡ concat ("[" ∷ join "," texts ∷ "]" ∷ []))
  IsText (obj d) t =
      (entries : List Entry) × (sorted : List Entry) × AreEntries d entries
      × Perm sorted entries
      × IsSorted sorted
      × (t ≡ concat ("{" ∷ join "," (map entry_text sorted) ∷ "}" ∷ []))

  pub AreTexts : Items → List String → Type 0
  AreTexts nil [] = Unit
  AreTexts (cons v vs) (t ∷ texts) = IsText v t × AreTexts vs texts
  AreTexts nil (t ∷ texts) = ⊥
  AreTexts (cons v vs) [] = ⊥

  pub AreEntries : Fields → List Entry → Type 0
  AreEntries end [] = Unit
  AreEntries (field k v rest) (e ∷ entries) = (e.0 ≡ k) × IsText v e.1 × AreEntries rest entries
  AreEntries end (e ∷ entries) = ⊥
  AreEntries (field k v rest) [] = ⊥

lt_codes_asym : (a b : List ℕ) → lt_codes a b ≡ true → lt_codes b a ≡ false
lt_codes_asym [] [] h = cc
lt_codes_asym [] (d ∷ ds) h = refl
lt_codes_asym (c ∷ cs) [] h = cc
lt_codes_asym (c ∷ cs) (d ∷ ds) h = ground (arith, lt_codes_asym cs ds)

insert_entry-Perm : (e : Entry) (l : List Entry) → Perm (insert_entry codes e l) (e ∷ l)
insert_entry-Perm e [] = Perm.refl _
insert_entry-Perm (k, t) ((j, u) ∷ rest) = elim (Bool-cases (lt_codes (codes k) (codes j))) [
  | inl y ↦ rw y (Perm.refl _)
  | inr n ↦
      rw n (
        Perm.trans (Perm.cons (j, u) (insert_entry-Perm (k, t) rest))
          (Perm.swap (k, t) (j, u) rest))
]

sort_entries-Perm : (l : List Entry) → Perm (sort_entries codes l) l
sort_entries-Perm [] = Perm.refl _
sort_entries-Perm (e ∷ rest) =
    Perm.trans (insert_entry-Perm e (sort_entries codes rest))
      (Perm.cons e (sort_entries-Perm rest))

insert_entry-IsSorted :
    (e : Entry) (l : List Entry) → IsSorted l → IsSorted (insert_entry codes e l)
insert_entry-IsSorted e [] h = tt
insert_entry-IsSorted (k, t) ((j, u) ∷ []) h = elim (Bool-cases (lt_codes (codes k) (codes j))) [
  | inl y ↦ rw y (lt_codes_asym (codes k) (codes j) y, tt)
  | inr n ↦ rw n (n, tt)
]
insert_entry-IsSorted (k, t) ((j, u) ∷ (i, s) ∷ rest) (h, hs) =
    elim (Bool-cases (lt_codes (codes k) (codes j))) [
      | inl y ↦ rw y (lt_codes_asym (codes k) (codes j) y, (h, hs))
      | inr n ↦ rw n (elim (Bool-cases (lt_codes (codes k) (codes i))) [
        | inl z ↦ rw z (n, (lt_codes_asym (codes k) (codes i) z, hs))
        | inr m ↦
            let more = insert_entry-IsSorted (k, t) ((i, s) ∷ rest) hs in rw m (h, rw m at more)
      ])
    ]

sort_entries-IsSorted : (l : List Entry) → IsSorted (sort_entries codes l)
sort_entries-IsSorted [] = tt
sort_entries-IsSorted (e ∷ rest) =
    insert_entry-IsSorted e (sort_entries codes rest) (sort_entries-IsSorted rest)

same_entries : (l : List Entry) → map (render_entry (compact codes)) l ≡ map entry_text l
same_entries [] = refl
same_entries ((k, t) ∷ rest) = ap (λ r. entry_text (k, t) ∷ r) (same_entries rest)

mutual
  unfolding IsText in_profile render

  pub render-IsText : (v : Value) → in_profile v ≡ true → IsText v (render (compact codes) v)
  render-IsText null h = refl
  render-IsText (bool true) h = refl
  render-IsText (bool false) h = refl
  render-IsText (int n) h = refl
  render-IsText (float r) h = absurd cc
  render-IsText (str s) h = refl
  render-IsText (arr vs) h = (render_items (compact codes) vs, render_items-AreTexts vs h, refl)
  render-IsText (obj d) h =
      let entries = render_fields (compact codes) d in
      (
        entries,
        sort_entries codes entries,
        render_fields-AreEntries d h,
        sort_entries-Perm entries,
        sort_entries-IsSorted entries,
        ap (λ l. concat ("{" ∷ join "," l ∷ "}" ∷ [])) (same_entries (sort_entries codes entries)),
      )

  render_items-AreTexts :
      (vs : Items) → items_in_profile vs ≡ true → AreTexts vs (render_items (compact codes) vs)
  render_items-AreTexts nil h = tt
  render_items-AreTexts (cons v vs) h =
      let (hv, hvs) = &&-eq-true (in_profile v) _ h in
      (render-IsText v hv, render_items-AreTexts vs hvs)

  render_fields-AreEntries :
      (d : Fields) → fields_in_profile d ≡ true → AreEntries d (render_fields (compact codes) d)
  render_fields-AreEntries end h = tt
  render_fields-AreEntries (field k v rest) h =
      let (_, hs) = &&-eq-true (not (has_surrogate k)) _ h in
      let (hv, hrest) = &&-eq-true (in_profile v) _ hs in
      (refl, render-IsText v hv, render_fields-AreEntries rest hrest)

pub dumps-IsText : (v : Value) → in_profile v ≡ true → IsText v (dumps v)
unfolding dumps
dumps-IsText v h = render-IsText v h
