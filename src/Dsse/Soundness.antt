-- ===== src/Dsse/Soundness.antt =====
-- What a verified envelope rests on.
use minority_prophet_border.Dsse.{
  DsseVerifier, any_verified, malformed_class, payload_type, pre_auth_encoding, read_envelope,
  read_signature, same_bytes, as_statement, decoded_json, signature_list, verify_envelope,
}
use minority_prophet_border.Prelude.{
  &&-eq-true, Bool-cases, List, String, [], ap, arith, false, inl, inr, nat_eq, refl, some, true, ℕ,
  ◌∷◌, ◌≡◌, ◌⊎◌, Option, none, ◌∙◌,
}
use minority_prophet_border.Py.Result.{Result-cases, exn, ok}
use minority_prophet_border.Py.Value.{Fields, Items, Value, arr, cons, get, nil, obj, str, null}
use minority_prophet_border.Py.Equality.{value_eq}
use minority_prophet_border.Platform.{Platform}
use minority_prophet_border.Jcs.{canonicalize}

-- Some signature of the list can be read and verifies over these bytes.
abbrev pub IsSignedBy : Platform → DsseVerifier → List ℕ → Items → Type 0
IsSignedBy p verify pae nil = ⊥
IsSignedBy p verify pae (cons v vs) =
    ((read : Value × List ℕ) × (read_signature p v ≡ ok read)
      × (verify read.0 pae read.1 ≡ ok true))
    ⊎ IsSignedBy p verify pae vs

pub record IsSigned (p : Platform) (envelope : Fields) (verify : DsseVerifier)
    (predicate_type : String) (statement : Fields) : Type 0 where
  pub payload : List ℕ
  pub signatures : Items
  pub typed : value_eq (get envelope "payloadType") (str payload_type) ≡ true
  pub read : read_envelope p envelope ≡ ok (payload, arr signatures)
  pub signed : IsSignedBy p verify (pre_auth_encoding payload_type payload) signatures
  pub decoded : p.json_loads payload ≡ some (obj statement)
  pub canonical : canonicalize (obj statement) ≡ ok payload
  pub predicate : value_eq (get statement "predicateType") (str predicate_type) ≡ true

same_bytes-eq : (xs ys : List ℕ) → same_bytes xs ys ≡ true → xs ≡ ys
same_bytes-eq [] [] h = refl
same_bytes-eq [] (b ∷ later) h = cc
same_bytes-eq (a ∷ rest) [] h = cc
same_bytes-eq (a ∷ rest) (b ∷ later) h =
    let (first, others) = &&-eq-true (nat_eq a b) (same_bytes rest later) h in
    let same : a ≡ b = ground arith in rw same (ap (λ t. b ∷ t) (same_bytes-eq rest later others))

any_verified-IsSignedBy :
    (p : Platform) (verify : DsseVerifier) (pae : List ℕ) (signatures : Items)
    → any_verified p verify pae signatures ≡ ok true
    → IsSignedBy p verify pae signatures
unfolding any_verified
any_verified-IsSignedBy p verify pae nil h = cc
any_verified-IsSignedBy p verify pae (cons v vs) h = elim (Result-cases (read_signature p v)) [
  | inl (read, e) ↦ elim (Result-cases (verify read.0 pae read.1)) [
    | inl (true, good) ↦ inl (read, e, good)
    | inl (false, bad) ↦
        inr (any_verified-IsSignedBy p verify pae vs (rw (any_verified, e, bad) at h))
    | inr (x, bad) ↦ absurd (cc (rw (any_verified, e, bad) at h))
  ]
  | inr (exn c m, e) ↦ elim (Bool-cases (malformed_class c)) [
    | inl y ↦ inr (any_verified-IsSignedBy p verify pae vs (rw (any_verified, e, y) at h))
    | inr n ↦ absurd (cc (rw (any_verified, e, n) at h))
  ]
]

signature_list-arr :
    (v : Value) (signatures : Items) → signature_list v ≡ ok signatures → v ≡ arr signatures
signature_list-arr (arr (cons v vs)) signatures h = ground arith
signature_list-arr (arr nil) signatures h = cc
signature_list-arr null signatures h = cc
signature_list-arr _ signatures h = cc

as_statement-obj : (v : Value) (d : Fields) → as_statement v ≡ ok d → v ≡ obj d
as_statement-obj (obj d') d h = ground arith
as_statement-obj null d h = cc
as_statement-obj _ d h = cc

decoded_json-some : (o : Option Value) (v : Value) → decoded_json o ≡ ok v → o ≡ some v
decoded_json-some none v h = cc
decoded_json-some (some w) v h = ground arith

module _ (p : Platform) (envelope : Fields) (verify : DsseVerifier) (predicate_type : String)
    (statement : Fields) (h : verify_envelope p envelope verify predicate_type ≡ ok statement) where
  -- The parts of an envelope, and the value that its payload decodes to.
  verify_envelope_read :
      (read : List ℕ × Value) × (read_envelope p envelope ≡ ok read)
      × ((signatures : Items) × (signature_list read.1 ≡ ok signatures)
          × (any_verified p verify (pre_auth_encoding payload_type read.0) signatures ≡ ok true))
      × ((v : Value) × (decoded_json (p.json_loads read.0) ≡ ok v)
          × (as_statement v ≡ ok statement)
          × ((bytes : List ℕ) × (canonicalize v ≡ ok bytes) × (same_bytes bytes read.0 ≡ true)))
  unfolding verify_envelope
  verify_envelope_read = elim (Result-cases (read_envelope p envelope)) [
    | inr (x, e) ↦ absurd (ground arith)
    | inl (read, e) ↦ elim (Result-cases (signature_list read.1)) [
      | inr (x, s) ↦ absurd (ground arith)
      | inl (signatures, s) ↦ elim (Result-cases (decoded_json (p.json_loads read.0))) [
        | inr (x, d) ↦ absurd (ground arith)
        | inl (v, d) ↦ elim (Result-cases (canonicalize v)) [
          | inr (x, c) ↦ absurd (ground arith)
          | inl (bytes, c) ↦ (
            read,
            e,
            (signatures, s, ground arith),
            (v, d, ground arith, (bytes, c, ground arith)),
          )
        ]
      ]
    ]
  ]

  verify_envelope_types :
      (value_eq (get envelope "payloadType") (str payload_type) ≡ true)
      × (value_eq (get statement "predicateType") (str predicate_type) ≡ true)
  unfolding verify_envelope
  verify_envelope_types = (ground arith, ground arith)

pub verify_envelope-IsSigned :
    (p : Platform) (envelope : Fields) (verify : DsseVerifier) (predicate_type : String)
    (statement : Fields)
    → verify_envelope p envelope verify predicate_type ≡ ok statement
    → IsSigned p envelope verify predicate_type statement
verify_envelope-IsSigned p envelope verify predicate_type statement h =
    let ((payload, raw), e, (signatures, s, good), (v, d, w, (bytes, c, same))) =
      verify_envelope_read p envelope verify predicate_type statement h in
    let (typed, predicate) = verify_envelope_types p envelope verify predicate_type statement h in
    let is_obj = as_statement-obj v statement w in
    let is_arr = signature_list-arr raw signatures s in
    let is_payload = same_bytes-eq bytes payload same in
    record {
      payload = payload;
      signatures = signatures;
      typed = typed;
      read = e ∙ ap (λ x. ok (payload, x)) is_arr;
      signed =
          any_verified-IsSignedBy p verify (pre_auth_encoding payload_type payload) signatures good;
      decoded = decoded_json-some (p.json_loads payload) (obj statement) (rw is_obj at d);
      canonical = rw is_payload at (rw is_obj at c);
      predicate = predicate;
    }
