-- ===== src/Tests/Continuity.antt =====
-- A Mandate of two delegations, from the owner's actor to the one that pays.
use minority_prophet_border.Continuity.Chain.{
  Link, Trust, check_effect, continuity_receipt, digests, open_mandate, prove_intent_continuity,
  read_span, step, utc_time, walk,
}
use minority_prophet_border.Admission.Base.{document_digest}
use minority_prophet_border.Py.Value.{Fields, dict, int, list, obj, str}
use minority_prophet_border.Py.Equality.{value_eq}
use minority_prophet_border.Continuity.Narrowing.{IsWithin, walk-IsWithin}
use minority_prophet_border.Tests.Runtime.{runs, runtime}
use minority_prophet_border.Prelude.{[], refl, some, true, ℕ, ◌∷◌, ◌≡◌}
use minority_prophet_border.Continuity.Scope.{
  assert_narrower, effect_within, narrower_sets, normalize_sets, unique_texts, validate_scope,
  values_within,
}
use minority_prophet_border.Py.Text.{concat, join, replace}
use minority_prophet_border.Continuity.Effect.{IsContinuous, prove_intent_continuity-IsContinuous}
use minority_prophet_border.Jcs.{canonicalize}
use minority_prophet_border.Prelude.Int.{pos}
use minority_prophet_border.Py.Clock.{Time, utc}
use minority_prophet_border.Continuity.Links.{Chain, walk-Chain}
use minority_prophet_border.Py.Bindings.{format_time, parse_time, parse_utc}
use minority_prophet_border.Py.Result.{ok}

abbrev mandate : Fields
mandate = dict (
    ("schema", str "mandate/v0.1")
    ∷ ("mandate_id", str "m-1")
    ∷ ("owner_id", str "o-1")
    ∷ ("actor_id", str "a-1")
    ∷ ("actor_key_thumbprint", str "k-1")
    ∷ ("machine_id", str "mc-1")
    ∷ ("task_id", str "t-1")
    ∷ ("audience", str "gate")
    ∷ (
      "scope",
      obj (
          dict (
            ("actions", list (str "buy" ∷ str "sell" ∷ []))
            ∷ ("destinations", list (str "https://api" ∷ []))
            ∷ ("methods", list (str "POST" ∷ []))
            ∷ ("resources", list (str "/r" ∷ []))
            ∷ ("body_digests", list (str "b1" ∷ []))
            ∷ ("payment_networks", list (str "n1" ∷ []))
            ∷ ("payment_assets", list (str "usd" ∷ []))
            ∷ ("payment_recipients", list (str "shop" ∷ []))
            ∷ ("max_payment_amount_minor", int (pos 500))
            ∷ [])),
    )
    ∷ ("not_before", str "@20")
    ∷ ("expires_at", str "@90")
    ∷ ("issued_at", str "@10")
    ∷ ("nonce", str "mandate-nonce-01")
    ∷ ("key_id", str "kid")
    ∷ ("signature", str "sig")
    ∷ [])

abbrev first_hop : Fields
first_hop = dict (
    ("schema", str "mandate-delegation/v0.1")
    ∷ ("hop_id", str "h-1")
    ∷ ("from_actor_id", str "a-1")
    ∷ ("from_actor_key_thumbprint", str "k-1")
    ∷ ("to_actor_id", str "a-2")
    ∷ ("to_actor_key_thumbprint", str "k-2")
    ∷ ("to_machine_id", str "mc-2")
    ∷ ("task_id", str "t-1")
    ∷ ("audience", str "gate")
    ∷ ("parent_digest", str "sha256:817586820")
    ∷ ("protocol_in", str "a2a")
    ∷ ("protocol_out", str "mcp")
    ∷ (
      "scope",
      obj (
          dict (
            ("actions", list (str "buy" ∷ str "sell" ∷ []))
            ∷ ("destinations", list (str "https://api" ∷ []))
            ∷ ("methods", list (str "POST" ∷ []))
            ∷ ("resources", list (str "/r" ∷ []))
            ∷ ("body_digests", list (str "b1" ∷ []))
            ∷ ("payment_networks", list (str "n1" ∷ []))
            ∷ ("payment_assets", list (str "usd" ∷ []))
            ∷ ("payment_recipients", list (str "shop" ∷ []))
            ∷ ("max_payment_amount_minor", int (pos 400))
            ∷ [])),
    )
    ∷ ("not_before", str "@30")
    ∷ ("expires_at", str "@85")
    ∷ ("issued_at", str "@25")
    ∷ ("nonce", str "delegation-nonce-1")
    ∷ ("key_id", str "kid")
    ∷ ("signature", str "sig")
    ∷ [])

abbrev second_hop : Fields
second_hop = dict (
    ("schema", str "mandate-delegation/v0.1")
    ∷ ("hop_id", str "h-2")
    ∷ ("from_actor_id", str "a-2")
    ∷ ("from_actor_key_thumbprint", str "k-2")
    ∷ ("to_actor_id", str "a-3")
    ∷ ("to_actor_key_thumbprint", str "k-3")
    ∷ ("to_machine_id", str "mc-3")
    ∷ ("task_id", str "t-1")
    ∷ ("audience", str "gate")
    ∷ ("parent_digest", str "sha256:804034176")
    ∷ ("protocol_in", str "a2a")
    ∷ ("protocol_out", str "mcp")
    ∷ (
      "scope",
      obj (
          dict (
            ("actions", list (str "buy" ∷ []))
            ∷ ("destinations", list (str "https://api" ∷ []))
            ∷ ("methods", list (str "POST" ∷ []))
            ∷ ("resources", list (str "/r" ∷ []))
            ∷ ("body_digests", list (str "b1" ∷ []))
            ∷ ("payment_networks", list (str "n1" ∷ []))
            ∷ ("payment_assets", list (str "usd" ∷ []))
            ∷ ("payment_recipients", list (str "shop" ∷ []))
            ∷ ("max_payment_amount_minor", int (pos 300))
            ∷ [])),
    )
    ∷ ("not_before", str "@30")
    ∷ ("expires_at", str "@80")
    ∷ ("issued_at", str "@25")
    ∷ ("nonce", str "delegation-nonce-2")
    ∷ ("key_id", str "kid")
    ∷ ("signature", str "sig")
    ∷ [])

abbrev effect : Fields
effect = dict (
    ("task_id", str "t-1")
    ∷ ("actor_id", str "a-3")
    ∷ ("actor_key_thumbprint", str "k-3")
    ∷ ("machine_id", str "mc-3")
    ∷ ("action", str "buy")
    ∷ ("destination", str "https://api")
    ∷ ("method", str "POST")
    ∷ ("resource", str "/r")
    ∷ ("body_digest", str "b1")
    ∷ (
      "payment",
      obj (
          dict (
            ("network", str "n1")
            ∷ ("asset", str "usd")
            ∷ ("recipient", str "shop")
            ∷ ("amount_minor", int (pos 250))
            ∷ [])),
    )
    ∷ [])

abbrev receipt : Fields
receipt = dict (
    ("schema", str "border-intent-continuity/v0.1")
    ∷ ("verification", str "verified")
    ∷ ("mandate_id", str "m-1")
    ∷ ("mandate_digest", str "sha256:817586820")
    ∷ ("chain_digest", str "sha256:129836152")
    ∷ ("owner_id", str "o-1")
    ∷ ("task_id", str "t-1")
    ∷ ("final_actor_id", str "a-3")
    ∷ ("final_actor_key_thumbprint", str "k-3")
    ∷ ("final_machine_id", str "mc-3")
    ∷ ("audience", str "gate")
    ∷ ("final_effect_digest", str "sha256:655635497")
    ∷ ("issued_at", str "@50")
    ∷ ("expires_at", str "@80")
    ∷ ("nonce", str "mandate-nonce-01")
    ∷ [])

abbrev at : ℕ → Time
at n = record { instant = n; zone = some utc }

abbrev trust : Trust
trust = record {
  verify_mandate = λ d. ok true;
  verify_delegation = λ d. ok true;
  mandate_is_current = λ v. ok true;
}

unfoldable pub continuity_runs : Unit {0}
unfolding runs document_digest canonicalize concat join replace value_eq format_time parse_time
    parse_utc utc_time read_span open_mandate step walk check_effect digests continuity_receipt
    prove_intent_continuity unique_texts normalize_sets validate_scope narrower_sets assert_narrower
    values_within effect_within
continuity_runs = tt

proved :
    prove_intent_continuity runtime trust
      (obj mandate)
      (obj first_hop ∷ obj second_hop ∷ [])
      (obj effect)
      (at 50)
    ≡ ok receipt
unfolding continuity_runs
proved = refl

prove_intent_continuity-IsContinuous_example : IsContinuous runtime mandate (obj effect) receipt
prove_intent_continuity-IsContinuous_example =
    prove_intent_continuity-IsContinuous runtime trust mandate (obj first_hop ∷ obj second_hop ∷ [])
      (obj effect) (at 50) receipt proved

abbrev root : Link
root = record {
  scope = record {
    allowed =
        ("actions", "buy" ∷ "sell" ∷ [])
        ∷ ("destinations", "https://api" ∷ [])
        ∷ ("methods", "POST" ∷ [])
        ∷ ("resources", "/r" ∷ [])
        ∷ ("body_digests", "b1" ∷ [])
        ∷ ("payment_networks", "n1" ∷ [])
        ∷ ("payment_assets", "usd" ∷ [])
        ∷ ("payment_recipients", "shop" ∷ [])
        ∷ [];
    max_amount = 500;
  };
  parent_digest = "sha256:817586820";
  actor = str "a-1";
  actor_key = str "k-1";
  machine = str "mc-1";
  expiry = at 90;
  seen = "mandate-nonce-01" ∷ [];
}

abbrev last : Link
last = record {
  scope = record {
    allowed =
        ("actions", "buy" ∷ [])
        ∷ ("destinations", "https://api" ∷ [])
        ∷ ("methods", "POST" ∷ [])
        ∷ ("resources", "/r" ∷ [])
        ∷ ("body_digests", "b1" ∷ [])
        ∷ ("payment_networks", "n1" ∷ [])
        ∷ ("payment_assets", "usd" ∷ [])
        ∷ ("payment_recipients", "shop" ∷ [])
        ∷ [];
    max_amount = 300;
  };
  parent_digest = "sha256:458180751";
  actor = str "a-3";
  actor_key = str "k-3";
  machine = str "mc-3";
  expiry = at 80;
  seen = "delegation-nonce-2" ∷ "delegation-nonce-1" ∷ "mandate-nonce-01" ∷ [];
}

walked :
    walk runtime trust mandate (at 20) (at 50) 0 root (obj first_hop ∷ obj second_hop ∷ [])
    ≡ ok last
unfolding continuity_runs
walked = refl

walk-Chain_example : Chain runtime trust mandate root (obj first_hop ∷ obj second_hop ∷ []) last
walk-Chain_example =
    walk-Chain runtime trust mandate (at 20) (at 50) 0 root last
      (obj first_hop ∷ obj second_hop ∷ []) walked

walk-IsWithin_example : IsWithin root last
walk-IsWithin_example =
    walk-IsWithin runtime trust mandate (at 20) (at 50) 0 root last
      (obj first_hop ∷ obj second_hop ∷ []) walked
