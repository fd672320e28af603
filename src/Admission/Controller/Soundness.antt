-- ===== src/Admission/Controller/Soundness.antt =====
-- What a first admission of a nonce rests on.
use minority_prophet_border.Prelude.{
  String, ◌≡◌, refl, sym, ◌∙◌, ◌≢◌, Bool-cases, ◌⊎◌, inl, inr, Bool, true, false, Option, none,
  some, arith, ap,
}
use minority_prophet_border.Platform.{Platform}
use minority_prophet_border.Py.Result.{ok, Result-cases}
use minority_prophet_border.Py.Value.{Value, str, Fields, get, truthy}
use minority_prophet_border.Py.Equality.{value_eq}
use minority_prophet_border.Py.Clock.{Time}
use minority_prophet_border.Admission.Validation.{
  Callbacks, validate_declaration, route_allowed, validate_control,
}
use minority_prophet_border.Admission.Facts.{
  IsDeclared, IsAuthorized, IsIntact, IsControlled, Overrides, IsPermitted,
}
use minority_prophet_border.Admission.Facts.Checks.{
  validate_declaration-IsDeclared, validate_authority-IsAuthorized, route_allowed-IsIntact,
  validate_control-IsControlled, validate_control-Overrides, validate_control_approval,
  route_allowed-IsPermitted,
}
use minority_prophet_border.Admission.Controller.{
  Admissions, admitted, attempt_digest, control_part, store, fresh, previous_of, decide, admit,
}
use minority_prophet_border.Admission.Controller.Steps.{decide_new, decide_digest, with_state-eq-ok}
use minority_prophet_border.Openid.Server.{attempt}

-- The policy permits the action, or the human event is a permitted override.
abbrev pub IsRouted : Fields → Fields → Option Fields → Type 0
IsRouted declaration policy control =
    IsPermitted policy declaration ⊎ ((c : Fields) × (control ≡ some c) × Overrides c policy)

-- A required approval is there, and is no override that the policy does not permit.
abbrev pub IsApproved : Fields → Option Fields → Type 0
IsApproved policy control =
    (truthy (get policy "requires_human_approval") ≡ false)
    ⊎ ((c : Fields) × (control ≡ some c)
        × ((value_eq (get c "mode") (str "override") ≡ false)
            ⊎ (truthy (get policy "override_permitted") ≡ true)))

-- A human event that was given is verified, entitled, bound and active.
abbrev pub IsEventControlled :
    Platform → Callbacks → Fields → String → Fields → Time → Option Fields → Type 0
IsEventControlled p callbacks declaration digest policy now none = Unit
IsEventControlled p callbacks declaration digest policy now (some c) =
    IsControlled p callbacks c declaration digest policy now

pub record IsAdmissible (p : Platform) (callbacks : Callbacks)
    (declaration authority policy : Fields) (control : Option Fields) (now : Time) : Type 0 where
  pub digest : String
  pub declared : IsDeclared p declaration digest now
  pub authorized : IsAuthorized p callbacks authority declaration digest now
  pub intact : IsIntact p policy
  pub controlled : IsEventControlled p callbacks declaration digest policy now control
  pub routed : IsRouted declaration policy control
  pub approved : IsApproved policy control

-- The facts of the human event, where there is one.
module _ (p : Platform) (callbacks : Callbacks) (declaration : Fields) (digest : String)
    (policy : Fields) (now : Time) (allowed : Bool) where
  abbrev Accepted : Option Fields → Type 0
  Accepted control =
      (part : String × Value) × (control_part p callbacks control declaration digest policy now
          allowed
        ≡ ok part)

  control_part-IsControlled :
      (control : Option Fields)
      → Accepted control
      → IsEventControlled p callbacks declaration digest policy now control
  unfolding control_part
  control_part-IsControlled none a = tt
  control_part-IsControlled (some d) (part, h) =
      elim (Result-cases (validate_control p callbacks d declaration digest policy now allowed)) [
        | inl (mode, e) ↦
            validate_control-IsControlled p callbacks d declaration digest policy now allowed e
        | inr (x, e) ↦ absurd (ground arith)
      ]

  control_part-IsRouted :
      (control : Option Fields)
      → Accepted control
      → route_allowed p policy declaration ≡ ok allowed
      → (allowed ≡ false → control ≢ none)
      → IsRouted declaration policy control
  unfolding control_part
  control_part-IsRouted none a r routed = elim (Bool-cases allowed) [
    | inl y ↦ inl (route_allowed-IsPermitted p policy declaration (r ∙ ap ok y))
    | inr n ↦ absurd (routed n refl)
  ]
  control_part-IsRouted (some d) (part, h) r routed = elim (Bool-cases allowed) [
    | inl y ↦ inl (route_allowed-IsPermitted p policy declaration (r ∙ ap ok y))
    | inr n ↦
        elim (Result-cases (validate_control p callbacks d declaration digest policy now allowed)) [
          | inl (mode, e) ↦ inr (
            d,
            refl,
            validate_control-Overrides p callbacks d declaration digest policy now allowed e n,
          )
          | inr (x, e) ↦ absurd (ground arith)
        ]
  ]

  override_permitted :
      (d : Fields)
      → (value_eq (get d "mode") (str "override") ≡ true
          → truthy (get policy "override_permitted") ≡ true)
      → (value_eq (get d "mode") (str "override") ≡ false)
        ⊎ (truthy (get policy "override_permitted") ≡ true)
  override_permitted d permitted = elim (Bool-cases (value_eq (get d "mode") (str "override"))) [
    | inl y ↦ inr (permitted y)
    | inr n ↦ inl n
  ]

  control_part-IsApproved :
      (control : Option Fields)
      → Accepted control
      → (truthy (get policy "requires_human_approval") ≡ true → control ≢ none)
      → IsApproved policy control
  unfolding control_part
  control_part-IsApproved none a needed =
      elim (Bool-cases (truthy (get policy "requires_human_approval"))) [
        | inl y ↦ absurd (needed y refl)
        | inr n ↦ inl n
      ]
  control_part-IsApproved (some d) (part, h) needed =
      elim (Bool-cases (truthy (get policy "requires_human_approval"))) [
        | inl y ↦
            elim (Result-cases
              (validate_control p callbacks d declaration digest policy now allowed)) [
                | inl (mode, e) ↦ inr (
                  d,
                  refl,
                  override_permitted d (
                      validate_control_approval p callbacks d declaration digest policy now allowed
                        e y),
                )
                | inr (x, e) ↦ absurd (ground arith)
              ]
        | inr n ↦ inl n
      ]

module _ (p : Platform) (callbacks : Callbacks) (declaration authority policy : Fields)
    (control : Option Fields) (attempt : String) (now : Time) (s : Admissions) {receipt : Fields}
    {t : Admissions}
    (h : fresh p callbacks declaration authority policy control attempt now s
      ≡ ok (admitted receipt, t)) where
  fresh-stored : t ≡ store (get declaration "nonce") (attempt, receipt) s
  unfolding fresh
  fresh-stored = ground arith

  fresh-IsAdmissible : IsAdmissible p callbacks declaration authority policy control now
  unfolding fresh
  fresh-IsAdmissible = elim (Result-cases (validate_declaration p declaration now)) [
    | inl (digest, e) ↦ elim (Result-cases (route_allowed p policy declaration)) [
      | inl (allowed, r) ↦
          elim (Result-cases
            (control_part p callbacks control declaration digest policy now allowed)) [
              | inl (part, c) ↦ record {
                digest = digest;
                declared = validate_declaration-IsDeclared p declaration now e;
                authorized =
                    validate_authority-IsAuthorized p callbacks authority declaration digest now
                      (ground arith);
                intact = route_allowed-IsIntact p policy declaration r;
                controlled =
                    control_part-IsControlled p callbacks declaration digest policy now allowed
                      control (part, c);
                routed =
                    control_part-IsRouted p callbacks declaration digest policy now allowed control
                      (part, c) r (λ x y. ground arith);
                approved =
                    control_part-IsApproved p callbacks declaration digest policy now allowed
                      control (part, c) (λ x y. ground arith);
              }
              | inr (x, c) ↦ absurd (ground arith)
            ]
      | inr (x, r) ↦ absurd (ground arith)
    ]
    | inr (x, e) ↦ absurd (ground arith)
  ]

-- When a nonce that holds no admission is admitted, every check has passed: each document has its
-- required fields, the declaration is active, the authority is verified, bound to it, active and
-- allows, and the policy carries its own digest. Either the policy is for the declaration's audience
-- and one of its routes has the action's type and target, or the human event is a permitted
-- override. A required approval is there, and a human event that was given is of a known mode,
-- verified, entitled, bound and active. The receipt is then stored under the nonce together with the digest of the attempt.
pub admit-IsAdmissible :
    (p : Platform) (callbacks : Callbacks) (declaration authority policy : Fields)
    (control : Option Fields) (now : Time) (s : Admissions) (receipt : Fields)
    → previous_of (get declaration "nonce") s ≡ none
    → (admit p callbacks declaration authority policy control now s).0 ≡ ok (admitted receipt)
    → IsAdmissible p callbacks declaration authority policy control now
      × ((attempt : String) × (attempt_digest p declaration authority policy control ≡ ok attempt)
          × ((admit p callbacks declaration authority policy control now s).1
              ≡ store (get declaration "nonce") (attempt, receipt) s))
unfolding admit
admit-IsAdmissible p callbacks declaration authority policy control now s receipt new h =
    let d =
      with_state-eq-ok s (decide p callbacks declaration authority policy control now s)
        (admitted receipt) h in
    elim (Result-cases (attempt_digest p declaration authority policy control)) [
      | inl (attempt, a) ↦
          let f =
            sym (decide_new p callbacks declaration authority policy control now s attempt a new)
            ∙ d in
          (
            fresh-IsAdmissible p callbacks declaration authority policy control attempt now s f,
            (
              attempt,
              a,
              fresh-stored p callbacks declaration authority policy control attempt now s f,
            ),
          )
      | inr (x, a) ↦ absurd (
          ground
            (arith, d, decide_digest p callbacks declaration authority policy control now s x a))
    ]
