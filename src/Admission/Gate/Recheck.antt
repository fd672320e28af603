-- ===== src/Admission/Gate/Recheck.antt =====
-- What a Gate has rechecked when it lets an admitted trip pass.
use minority_prophet_border.Prelude.{
  ◌<◌, String, ◌≡◌, Bool, true, List, [], ◌∷◌, Option, none, some,
}
use minority_prophet_border.Platform.{Platform}
use minority_prophet_border.Py.Result.{Result, ok}
use minority_prophet_border.Py.Value.{Value, str, obj, Fields, get, get_or, null, without}
use minority_prophet_border.Py.Equality.{value_eq}
use minority_prophet_border.Py.Clock.{Time}
use minority_prophet_border.Admission.Base.{time_field, document_digest}
use minority_prophet_border.Admission.Gate.{stamp_bindings, Presented}

-- The digest of the document is the text that the receipt has under the name.
abbrev pub Holds : Platform → Fields → String → Value → Type 0
Holds p receipt name document =
    (d : String) × (document_digest p document ≡ ok d)
    × (value_eq (get receipt name) (str d) ≡ true)

-- `control_event_digest`: null where there is no human event.
abbrev pub HoldsControl : Platform → Fields → Option Fields → Type 0
HoldsControl p receipt none = value_eq (get receipt "control_event_digest") null ≡ true
HoldsControl p receipt (some c) = Holds p receipt "control_event_digest" (obj c)

-- Every document that is presented has the digest that the receipt records.
pub record IsDocumented (p : Platform) (receipt : Fields) (d : Presented) : Type 0 where
  pub declaration : Holds p receipt "declaration_digest" (obj d.declaration)
  pub authority : Holds p receipt "authority_receipt_digest" (obj d.authority)
  pub policy : Holds p receipt "policy_digest" (obj (without "policy_digest" d.policy))
  pub action : Holds p receipt "action_digest" (obj d.candidate_action)
  pub control : HoldsControl p receipt d.control

-- The five digests by name.
abbrev listed : String → String → String → String → Value → List (String × Value)
listed d1 d2 d3 d4 v =
    ("declaration_digest", str d1)
    ∷ ("authority_receipt_digest", str d2)
    ∷ ("policy_digest", str d3)
    ∷ ("action_digest", str d4)
    ∷ ("control_event_digest", v)
    ∷ []

-- The facts about one Gate decision.
pub record IsCurrent (p : Platform)
    (verify_border_stamp authority_is_current : Fields → Result Bool) (bindings receipt : Fields)
    (d : Presented) (current : Time) : Type 0 where
  pub stamped : verify_border_stamp bindings ≡ ok true
  pub bound :
      (expected : Fields) × (stamp_bindings p receipt (get_or bindings "decision_point" (str ""))
        ≡ ok expected)
      × (value_eq (obj bindings) (obj expected) ≡ true)
  pub admitted : value_eq (get receipt "decision") (str "admit") ≡ true
  pub unexpired :
      (expires : Time) × (time_field p (get receipt "expires_at") "admission.expires_at"
        ≡ ok expires)
      × (current.instant < expires.instant)
  pub live : authority_is_current d.authority ≡ ok true
  pub documents : IsDocumented p receipt d
  pub action : value_eq (obj d.candidate_action) (get d.declaration "action") ≡ true
