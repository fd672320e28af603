-- ===== src/SubjectLink.antt =====
-- border/subject_link.py: evidence that a provider links a subject, and the mix of evidence that a
-- deployment requires. A set of texts is a list without duplicates; `sorted` orders by code points.
pub mod Soundness
use minority_prophet_border.Prelude.{
  Bool, List, Option, String, [], all, any, count, false, if◌then◌else◌, leb, length, ltb, map,
  nat_eq, none, not, some, starts_with, suc, true, ℕ, ◌&&◌, ◌++◌, ◌==◌, ◌||◌, ◌∷◌,
}
use minority_prophet_border.Py.Value.{
  Fields, Items, Value, arr, bool, cons, dict, end, get, int, keys_are, mem, str,
}
use minority_prophet_border.Py.Text.{codes, drop_chars, lt_codes, replace}
use minority_prophet_border.Py.Bindings.{has_duplicates, is_empty, texts_of}
use minority_prophet_border.Prelude.Int.{pos, ℤ}
use minority_prophet_border.Py.Result.{
  Exn, Result, err, exn, link_error, ok, raise_if, value_error, ◌>>=◌, ◌>>◌,
}
use minority_prophet_border.Platform.{Platform}
use minority_prophet_border.Mandate.Checks.{is_nonempty_text}
use minority_prophet_border.Py.Clock.{Time, is_naive}
use minority_prophet_border.Py.Equality.{value_eq}

abbrev pub link_fields : List String
link_fields =
    "schema" ∷ "provider_id" ∷ "provider_subject_id" ∷ "pairwise_subject_id" ∷ "credential_types"
    ∷ "link_method" ∷ "evidence_digest" ∷ "audience" ∷ "issued_at" ∷ "expires_at"
    ∷ "revocation_status" ∷ "nonce" ∷ "key_id" ∷ "signature" ∷ []

abbrev pub link_texts : List String
link_texts =
    "provider_id" ∷ "provider_subject_id" ∷ "pairwise_subject_id" ∷ "link_method" ∷ "audience"
    ∷ "nonce" ∷ "key_id" ∷ "signature" ∷ []

pub record SubjectLinkEvidence : Type 0 where
  pub provider_id : String
  pub provider_subject_id : String
  pub pairwise_subject_id : String
  pub credential_types : List String
  pub link_method : String
  pub evidence_digest : String
  pub audience : String
  pub issued_at : Time
  pub expires_at : Time
  pub nonce : String
  pub key_id : String

abbrev pub link_refused : String → Exn
link_refused message = exn link_error message

-- `_timestamp`
unfoldable pub timestamp : Platform → Value → Result Time
unfolding replace
timestamp p (str s) = elim (p.fromisoformat (replace s "Z" "+00:00")) [
  | none ↦ err (link_refused "invalid subject-link time")
  | some t ↦
      if is_naive t then err (link_refused "subject-link time must include a timezone") else ok t
]
timestamp p _ = err (link_refused "subject-link time must be a string")

-- A text that a check has found to be there.
abbrev pub link_text : Fields → String → String
link_text d f = elim (get d f) [ str s ↦ s | _ ↦ "" ]

abbrev pub type_list : Value → Result Items
type_list (arr (cons v vs)) = ok (cons v vs)
type_list _ = err (link_refused "credential_types must be a non-empty list")

abbrev pub type_texts : Items → Result (List String)
type_texts vs = elim (texts_of vs) [
  | none ↦ err (link_refused "credential type must be a non-empty string")
  | some texts ↦ ok texts
]

abbrev pub is_hex_digit : ℕ → Bool
is_hex_digit c = (leb 48 c && leb c 57) || (leb 97 c && leb c 102)

-- The pattern `sha256:[0-9a-f]{64}\Z`, on the whole text
abbrev pub is_digest : Value → Bool
is_digest (str s) =
    nat_eq (count s) 71 && starts_with s "sha256:" && all is_hex_digit (codes (drop_chars 7 s))
is_digest _ = false

unfoldable pub has_link_texts : Fields → Bool
has_link_texts d = all (λ f. is_nonempty_text (get d f)) link_texts

unfoldable pub check_link_texts : Fields → Result (List String)
check_link_texts d = do
  raise_if (not (has_link_texts d))
      (link_refused "subject-link identifiers must be non-empty strings")
  raise_if (ltb (count (link_text d "nonce")) 16) (link_refused "subject-link nonce is too short")
  items ← type_list (get d "credential_types")
  types ← type_texts items
  raise_if (has_duplicates types) (link_refused "duplicate credential type")
  raise_if (not (is_digest (get d "evidence_digest")))
      (link_refused "invalid subject-link evidence digest")
  ok types

-- `current` is the `now` argument, or the clock's answer where none is given.
unfoldable pub normalize_subject_link :
    Platform → Fields → (Fields → Result Bool) → Time → Result SubjectLinkEvidence
normalize_subject_link p d verify_signature current = do
  raise_if (not (keys_are d link_fields))
      (link_refused "subject-link receipt fields do not match the contract")
  raise_if (not (value_eq (get d "schema") (str "subject-link-evidence/v0.1")))
      (link_refused "unsupported subject-link schema")
  verified ← verify_signature d
  raise_if (not verified) (link_refused "subject-link signature verification failed")
  types ← check_link_texts d
  issued ← timestamp p (get d "issued_at")
  expires ← timestamp p (get d "expires_at")
  raise_if (is_naive current) (link_refused "decision clock must include a timezone")
  raise_if (leb expires.instant issued.instant || leb expires.instant current.instant)
      (link_refused "subject-link receipt is expired or has an invalid lifetime")
  raise_if (not (value_eq (get d "revocation_status") (str "active")))
      (link_refused "subject-link receipt is not active")
  ok (record {
    provider_id = link_text d "provider_id";
    provider_subject_id = link_text d "provider_subject_id";
    pairwise_subject_id = link_text d "pairwise_subject_id";
    credential_types = types;
    link_method = link_text d "link_method";
    evidence_digest = link_text d "evidence_digest";
    audience = link_text d "audience";
    issued_at = issued;
    expires_at = expires;
    nonce = link_text d "nonce";
    key_id = link_text d "key_id";
  })

-- A requirement, as its constructor lets it be.
pub record SubjectRequirement : Type 0 where
  pub audience : String
  pub required_types : List String
  pub minimum_providers : ℕ

unfoldable pub make_requirement : String → List String → ℤ → Result SubjectRequirement
make_requirement audience required_types (pos (suc n)) = do
  raise_if (audience == "" || is_empty required_types)
      (exn value_error "subject requirement must be explicit and non-empty")
  ok (record { audience = audience; required_types = required_types; minimum_providers = suc n })
make_requirement audience required_types _ =
    err (exn value_error "subject requirement must be explicit and non-empty")

pub record SubjectRequirementResult : Type 0 where
  pub action : String
  pub reason : String
  pub subject_id : Option String
  pub providers : List String
  pub credential_types : List String
  pub missing_types : List String
  pub establishes_provider_independence : Bool
  pub diagnostics : Fields

abbrev pub distinct : List String → List String
distinct [] = []
distinct (x ∷ xs) = let rest = distinct xs in if mem x xs then rest else x ∷ rest

abbrev pub insert_text : String → List String → List String
insert_text x [] = x ∷ []
insert_text x (y ∷ ys) =
    let rest = insert_text x ys in if lt_codes (codes y) (codes x) then y ∷ rest else x ∷ y ∷ ys

abbrev pub sorted : List String → List String
sorted [] = []
sorted (x ∷ xs) = insert_text x (sorted xs)

abbrev pub all_types : List SubjectLinkEvidence → List String
all_types [] = []
all_types (e ∷ es) = e.credential_types ++ all_types es

-- `required - types`
abbrev pub lacking : List String → List String → List String
lacking [] types = []
lacking (x ∷ xs) types = let rest = lacking xs types in if mem x types then rest else x ∷ rest

abbrev pub refused_result : String → String → SubjectRequirementResult
refused_result action reason = record {
  action = action;
  reason = reason;
  subject_id = none;
  providers = [];
  credential_types = [];
  missing_types = [];
  establishes_provider_independence = false;
  diagnostics = end;
}

-- The last two results, for the items of one subject.
unfoldable pub weigh :
    SubjectLinkEvidence → List SubjectLinkEvidence → SubjectRequirement → SubjectRequirementResult
weigh first items requirement =
    let providers = distinct (map (λ e. e.provider_id) items) in
    let types = all_types items in
    let missing = lacking requirement.required_types types in
    if not (is_empty missing) || ltb (length providers) requirement.minimum_providers
    then record {
      action = "escalate";
      reason = "subject requirement is not satisfied";
      subject_id = some first.pairwise_subject_id;
      providers = sorted providers;
      credential_types = sorted (distinct types);
      missing_types = sorted missing;
      establishes_provider_independence = false;
      diagnostics = dict (("minimum_providers", int (pos requirement.minimum_providers)) ∷ []);
    }
    else record {
      action = "accept";
      reason = "explicit subject requirement is satisfied";
      subject_id = some first.pairwise_subject_id;
      providers = sorted providers;
      credential_types = sorted (distinct types);
      missing_types = [];
      establishes_provider_independence = false;
      diagnostics = dict (("provider_count_is_not_independence", bool true) ∷ []);
    }

unfoldable pub evaluate_subject_requirement :
    List SubjectLinkEvidence → SubjectRequirement → SubjectRequirementResult
evaluate_subject_requirement [] requirement = refused_result "escalate" "no subject-link evidence"
evaluate_subject_requirement (first ∷ rest) requirement =
    if any (λ e. not (e.audience == requirement.audience)) (first ∷ rest)
    then refused_result "block" "subject-link audience mismatch"
    else if any (λ e. not (e.pairwise_subject_id == first.pairwise_subject_id)) rest
    then refused_result "block" "subject-link receipts identify different subjects"
    else if has_duplicates (map (λ e. e.nonce) (first ∷ rest))
    then refused_result "block" "subject-link receipt replay"
    else weigh first (first ∷ rest) requirement
