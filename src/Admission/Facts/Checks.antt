-- ===== src/Admission/Facts/Checks.antt =====
-- Each check, when it returns, has established its facts.
use mathlib.Core.Path.{subst}
use minority_prophet_border.Prelude.{
  String, ◌≡◌, sym, ◌∙◌, not, ◌&&◌, ◌||◌, refl, ◌⊎◌, inl, inr, Bool, true, false, arith, All,
  Bool-cases, List, [], ap, eq_iff, ◌∷◌,
}
use minority_prophet_border.Platform.{Platform}
use minority_prophet_border.Py.Result.{raise_if, ◌>>◌, Exn, ok, err, Result-cases, Result, and_then}
use minority_prophet_border.Py.Value.{
  Value, str, obj, Fields, get, without, truthy, has_key, is_blank, item, iterate, mem, null,
  subscript,
}
use minority_prophet_border.Py.Equality.{value_eq}
use minority_prophet_border.Py.Clock.{Time}
use minority_prophet_border.Py.Bindings.Laws.{match_items-Agrees}
use minority_prophet_border.Admission.Base.{
  required, refused, document_digest, time_field, substitution,
}
use minority_prophet_border.Admission.Validation.{
  Callbacks, check_override, as_action, authority_bindings, control_bindings, validate_declaration,
  validate_authority, route_allowed, validate_control, any_route, authority_fields, control_fields,
  declaration_fields, mode_name, policy_fields,
}
use minority_prophet_border.Admission.Facts.{
  IsDeclared, IsAuthorized, IsIntact, IsControlled, Overrides, AnyRoute, IsPermitted, IsPresent,
}
use minority_prophet_border.Py.Bindings.{is_empty, missing_fields}
use minority_prophet_border.Py.Chain.{first_ok, first_some, guarded, last_unraised, not-eq-false}
use minority_prophet_border.Crossing.Json.{digest}

as_action-cases :
    (v : Value) → ((action : Fields) × (v ≡ obj action)) ⊎ ((e : Exn) × (as_action v ≡ err e))
as_action-cases (obj action) = inl (action, refl)
as_action-cases _ = inr (_, refl)

missing_fields-IsPresent :
    (doc : Fields) (fs : List String)
    → is_empty (missing_fields doc fs) ≡ true
    → All (IsPresent doc) fs
missing_fields-IsPresent doc [] h = tt
missing_fields-IsPresent doc (f ∷ fs) h = elim (Bool-cases (has_key doc f)) [
  | inr n ↦ absurd (cc (rw n at h))
  | inl y ↦ elim (Bool-cases (is_blank (get doc f))) [
    | inl b ↦ absurd (cc (rw (y, b) at h))
    | inr b ↦ ((y, b), missing_fields-IsPresent doc fs (rw (y, b) at h))
  ]
]

required-IsPresent :
    (label : String) (doc : Fields) (fs : List String)
    → required label doc fs ≡ ok tt
    → All (IsPresent doc) fs
unfolding required
required-IsPresent label doc fs h =
    missing_fields-IsPresent doc fs
      (not-eq-false (is_empty (missing_fields doc fs)) (last_unraised _ _ h))

pub validate_declaration-IsDeclared :
    (p : Platform) (declaration : Fields) (now : Time) {digest : String}
    → validate_declaration p declaration now ≡ ok digest
    → IsDeclared p declaration digest now
unfolding validate_declaration
validate_declaration-IsDeclared p declaration now h = record {
  present =
      required-IsPresent "declaration" declaration declaration_fields
        (first_ok (required "declaration" declaration declaration_fields) _ h).0;
  schema = ground arith;
  created =
      elim (Result-cases (time_field p (get declaration "created_at") "declaration.created_at")) [
        | inl (t, e) ↦ (t, e, ground arith)
        | inr (x, e) ↦ absurd (ground arith)
      ];
  active =
      elim (Result-cases (time_field p (get declaration "not_before") "declaration.not_before")) [
        | inl (t, e) ↦
            elim (Result-cases
              (time_field p (get declaration "expires_at") "declaration.expires_at")) [
                | inl (u, e') ↦ (t, u, e, e', ground arith, ground arith)
                | inr (x, e') ↦ absurd (ground arith)
              ]
        | inr (x, e) ↦ absurd (ground arith)
      ];
  action = elim (as_action-cases (get declaration "action")) [
    | inl (action, e) ↦ (
      action,
      e,
      ground arith,
      required-IsPresent "declaration.action" action ("type" ∷ "target" ∷ "payload_digest" ∷ [])
          (ground arith),
    )
    | inr (x, e) ↦ absurd (ground arith)
  ];
}

pub validate_authority-IsAuthorized :
    (p : Platform) (callbacks : Callbacks) (authority declaration : Fields) (digest : String)
    (now : Time)
    → validate_authority p callbacks authority declaration digest now ≡ ok tt
    → IsAuthorized p callbacks authority declaration digest now
unfolding validate_authority
validate_authority-IsAuthorized p callbacks authority declaration digest now h = record {
  present =
      required-IsPresent "authority" authority authority_fields
        (first_ok (required "authority" authority authority_fields) _ h).0;
  verified = ground arith;
  bound =
      match_items-Agrees (substitution "authority") authority
        (authority_bindings declaration digest) (ground arith);
  status = ground arith;
  decision = ground arith;
  active = ground arith;
}

pub route_allowed-IsIntact :
    (p : Platform) (policy declaration : Fields) {allowed : Bool}
    → route_allowed p policy declaration ≡ ok allowed
    → IsIntact p policy
unfolding route_allowed
route_allowed-IsIntact p policy declaration h = record {
  present =
      required-IsPresent "policy" policy policy_fields
        (first_ok (required "policy" policy policy_fields) _ h).0;
  digest = elim (Result-cases (document_digest p (obj (without "policy_digest" policy)))) [
    | inl (d, e) ↦ (d, e, ground arith)
    | inr (x, e) ↦ absurd (ground arith)
  ];
}

and_then-eq-true :
    (b : Bool) (r : Result Bool) → and_then b r ≡ ok true → (b ≡ true) × (r ≡ ok true)
and_then-eq-true true r h = (refl, h)
and_then-eq-true false r h = absurd cc

same_test : {a b : Bool} → ok a ≡ ok b → a ≡ b
same_test e = cc

any_route-AnyRoute :
    (action : Value) (routes : List Value)
    → any_route action routes ≡ ok true
    → AnyRoute action routes
unfolding any_route
any_route-AnyRoute action [] h = absurd cc
any_route-AnyRoute action (obj route ∷ rest) h =
    let (kind, e1, h1) = first_some (subscript action "type") _ h in
    let (hit, e2, h2) = first_some (and_then (value_eq (get route "action_type") kind) _) _ h1 in
    elim (Bool-cases hit) [
      | inl y ↦
          let (typed, h3) =
            and_then-eq-true (value_eq (get route "action_type") kind) _ (e2 ∙ ap ok y) in
          let (target, e4, h4) = first_some (subscript action "target") _ h3 in
          inl (route, kind, target, refl, e1, e4, typed, same_test h4)
      | inr n ↦ inr (any_route-AnyRoute action rest (rw n at h2))
    ]
any_route-AnyRoute action (null ∷ rest) h = inr (any_route-AnyRoute action rest h)
any_route-AnyRoute action (_ ∷ rest) h = inr (any_route-AnyRoute action rest h)

item-get : (d : Fields) (k : String) (v : Value) → item d k ≡ ok v → v ≡ get d k
item-get d k v h = ground arith

pub route_allowed-IsPermitted :
    (p : Platform) (policy declaration : Fields)
    → route_allowed p policy declaration ≡ ok true
    → IsPermitted policy declaration
unfolding route_allowed
route_allowed-IsPermitted p policy declaration h =
    let (_, h1) = first_ok (required "policy" policy policy_fields) _ h in
    let (d, _, h2) = first_some (document_digest p (obj (without "policy_digest" policy))) _ h1 in
    let (_, h3) = guarded (value_eq (get policy "policy_digest") (str d)) _ _ h2 in
    let (audience, e4, h4) = first_some (item declaration "audience") _ h3 in
    let (same, h5) = and_then-eq-true (value_eq (get policy "audience") audience) _ h4 in
    let (action, e6, h6) = first_some (item declaration "action") _ h5 in
    let (routes, e7, h7) = first_some (iterate (get policy "permitted_routes")) _ h6 in
    record {
      audience =
          subst (λ a. value_eq (get policy "audience") a ≡ true)
            (item-get declaration "audience" audience e4) same;
      routes = routes;
      listed = e7;
      routed =
          subst (λ a. AnyRoute a routes) (item-get declaration "action" action e6)
            (any_route-AnyRoute action routes h7);
    }

mode_name-mem :
    (v : Value) (name : String)
    → mode_name v ≡ ok name
    → (m : String) × (v ≡ str m) × (mem m ("approval" ∷ "override" ∷ "manual_control" ∷ []) ≡ true)
mode_name-mem (str m) name h = (m, refl, known m name h)
  where
    known :
        (m name : String)
        → mode_name (str m) ≡ ok name
        → mem m ("approval" ∷ "override" ∷ "manual_control" ∷ []) ≡ true
    known m name h = ground (
      arith,
      eq_iff m "approval",
      eq_iff m "override",
      eq_iff m "manual_control",
      eq_iff "approval" m,
      eq_iff "override" m,
      eq_iff "manual_control" m,
    )
mode_name-mem null name h = cc
mode_name-mem _ name h = cc

-- The tests on the mode, with Booleans for what they read.
guards : Bool → Bool → Bool → Bool → Result (Unit {0})
guards allowed overrides permitted needed = do
  raise_if (not allowed && (not overrides || not permitted))
      (refused "policy route cannot be overridden by this event")
  raise_if (needed && overrides && not permitted)
      (refused "approval requirement cannot be overridden by this event")

guards-routed : (a o q n : Bool) → guards a o q n ≡ ok tt → a ≡ false → (o ≡ true) × (q ≡ true)
unfolding guards
guards-routed false true true n h e = (refl, refl)
guards-routed true o q n h e = cc
guards-routed false false q n h e = cc
guards-routed false true false n h e = cc

guards_approved : (a o q n : Bool) → guards a o q n ≡ ok tt → n ≡ true → o ≡ true → q ≡ true
unfolding guards
guards_approved a o true n h e f = refl
guards_approved true true false true h e f = cc
guards_approved false true false true h e f = cc
guards_approved a false false n h e f = cc
guards_approved a true false false h e f = cc

check_override-guards :
    (mode : Value) (policy : Fields) (allowed : Bool)
    → check_override mode policy allowed
      ≡ guards allowed
          (value_eq mode (str "override"))
          (truthy (get policy "override_permitted"))
          (truthy (get policy "requires_human_approval"))
unfolding check_override guards
check_override-guards mode policy allowed = refl

module _ (p : Platform) (callbacks : Callbacks) (control declaration : Fields) (digest : String)
    (policy : Fields) (now : Time) (allowed : Bool) {mode : String}
    (h : validate_control p callbacks control declaration digest policy now allowed ≡ ok mode) where
  control_named : (v : Value) × (item control "mode" ≡ ok v) × (mode_name v ≡ ok mode)
  unfolding validate_control
  control_named = elim (Result-cases (item control "mode")) [
    | inr (x, e) ↦ absurd (ground arith)
    | inl (v, e) ↦ (v, e, ground arith)
  ]

  control_mode_known :
      (m : String) × (get control "mode" ≡ str m)
      × (mem m ("approval" ∷ "override" ∷ "manual_control" ∷ []) ≡ true)
  control_mode_known =
      let (v, e, q) = control_named in
      let same = item-get control "mode" v e in
      let (m, named, known) = mode_name-mem v mode q in (m, sym same ∙ named, known)

  pub validate_control-IsControlled : IsControlled p callbacks control declaration digest policy now
  unfolding validate_control
  validate_control-IsControlled = record {
    present =
        required-IsPresent "control" control control_fields
          (first_ok (required "control" control control_fields) _ h).0;
    mode = control_mode_known;
    schema = ground arith;
    verified = ground arith;
    entitled = ground arith;
    bound =
        match_items-Agrees (substitution "human control") control
          (control_bindings declaration digest policy) (ground arith);
    active = ground arith;
  }

  control_checked : check_override (get control "mode") policy allowed ≡ ok tt
  unfolding validate_control
  control_checked = ground arith

  control_guarded :
      guards allowed
        (value_eq (get control "mode") (str "override"))
        (truthy (get policy "override_permitted"))
        (truthy (get policy "requires_human_approval"))
      ≡ ok tt
  control_guarded =
      sym (check_override-guards (get control "mode") policy allowed) ∙ control_checked

  -- Outside the permitted routes only a permitted override comes through.
  pub validate_control-Overrides : allowed ≡ false → Overrides control policy
  validate_control-Overrides e = guards-routed allowed _ _ _ control_guarded e

  -- An approval requirement is met by an approval, manual control, or a permitted override.
  pub validate_control_approval :
      truthy (get policy "requires_human_approval") ≡ true
      → value_eq (get control "mode") (str "override") ≡ true
      → truthy (get policy "override_permitted") ≡ true
  validate_control_approval r o = guards_approved allowed _ _ _ control_guarded r o
