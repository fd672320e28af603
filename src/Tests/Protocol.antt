-- ===== src/Tests/Protocol.antt =====
-- One path over A2A, MCP, HTTP and x402.
use minority_prophet_border.Tests.Continuity.{continuity_runs}
use minority_prophet_border.Py.Clock.{Time, utc}
use minority_prophet_border.Protocol.{
  Carriers, Provider, a2a_delegation, a2a_projection, bound_delegation, carried_effect,
  final_effect_from_http_x402, mcp_delegation, mcp_projection, prove_protocol_continuity,
}
use minority_prophet_border.Py.Value.{Fields, dict, int, list, obj, str, without}
use minority_prophet_border.Prelude.{[], refl, some, true, ℕ, ◌∷◌, ◌≡◌}
use minority_prophet_border.Py.Result.{ok}
use minority_prophet_border.Protocol.Soundness.{
  IsCarriedPath, prove_protocol_continuity-IsCarriedPath,
}
use minority_prophet_border.Prelude.Int.{pos}
use minority_prophet_border.Tests.Runtime.{runtime}

abbrev mandate : Fields
mandate = dict (
    ("schema", str "mandate/v0.1")
    ∷ ("mandate_id", str "m-1")
    ∷ ("owner_id", str "o-1")
    ∷ ("actor_id", str "a-1")
    ∷ ("actor_key_thumbprint", str "k-1")
    ∷ ("machine_id", str "mc-1")
    ∷ ("task_id", str "t-1")
    ∷ ("audience", str "gate")
    ∷ (
      "scope",
      obj (
          dict (
            ("actions", list (str "http.request" ∷ []))
            ∷ ("destinations", list (str "https://api" ∷ []))
            ∷ ("methods", list (str "POST" ∷ []))
            ∷ ("resources", list (str "/r" ∷ []))
            ∷ ("body_digests", list (str "sha256:974713487" ∷ []))
            ∷ ("payment_networks", list (str "n1" ∷ []))
            ∷ ("payment_assets", list (str "usd" ∷ []))
            ∷ ("payment_recipients", list (str "shop" ∷ []))
            ∷ ("max_payment_amount_minor", int (pos 500))
            ∷ [])),
    )
    ∷ ("not_before", str "@20")
    ∷ ("expires_at", str "@90")
    ∷ ("issued_at", str "@10")
    ∷ ("nonce", str "mandate-nonce-01")
    ∷ ("key_id", str "kid")
    ∷ ("signature", str "sig")
    ∷ [])

abbrev message : Fields
message = dict (
    ("messageId", str "x-1")
    ∷ ("contextId", str "c-1")
    ∷ ("taskId", str "t-1")
    ∷ ("role", str "user")
    ∷ ("parts", list (obj (dict (("text", str "buy one") ∷ [])) ∷ []))
    ∷ (
      "extensions",
      list (str "https://minority-prophet.dev/extensions/intent-continuity/v0.1" ∷ []),
    )
    ∷ (
      "metadata",
      obj (
          dict (
            (
              "https://minority-prophet.dev/extensions/intent-continuity/v0.1",
              obj (
                  dict (
                    (
                      "delegation",
                      obj (
                          dict (
                            ("schema", str "mandate-delegation/v0.1")
                            ∷ ("hop_id", str "h-1")
                            ∷ ("from_actor_id", str "a-1")
                            ∷ ("from_actor_key_thumbprint", str "k-1")
                            ∷ ("to_actor_id", str "a-2")
                            ∷ ("to_actor_key_thumbprint", str "k-2")
                            ∷ ("to_machine_id", str "mc-2")
                            ∷ ("task_id", str "t-1")
                            ∷ ("audience", str "gate")
                            ∷ ("parent_digest", str "sha256:200922715")
                            ∷ ("protocol_in", str "a2a")
                            ∷ ("protocol_out", str "mcp")
                            ∷ (
                              "scope",
                              obj (
                                  dict (
                                    ("actions", list (str "http.request" ∷ []))
                                    ∷ ("destinations", list (str "https://api" ∷ []))
                                    ∷ ("methods", list (str "POST" ∷ []))
                                    ∷ ("resources", list (str "/r" ∷ []))
                                    ∷ ("body_digests", list (str "sha256:974713487" ∷ []))
                                    ∷ ("payment_networks", list (str "n1" ∷ []))
                                    ∷ ("payment_assets", list (str "usd" ∷ []))
                                    ∷ ("payment_recipients", list (str "shop" ∷ []))
                                    ∷ ("max_payment_amount_minor", int (pos 400))
                                    ∷ [])),
                            )
                            ∷ ("not_before", str "@30")
                            ∷ ("expires_at", str "@85")
                            ∷ ("issued_at", str "@25")
                            ∷ ("nonce", str "delegation-nonce-1")
                            ∷ ("key_id", str "kid")
                            ∷ ("signature", str "sig")
                            ∷ ("protocol_binding_digest", str "sha256:48044917")
                            ∷ [])),
                    )
                    ∷ [])),
            )
            ∷ [])),
    )
    ∷ [])

abbrev request : Fields
request = dict (
    ("method", str "tools/call")
    ∷ (
      "params",
      obj (
          dict (
            ("name", str "buy")
            ∷ ("arguments", obj (dict (("n", int (pos 1)) ∷ [])))
            ∷ (
              "_meta",
              obj (
                  dict (
                    (
                      "https://minority-prophet.dev/extensions/intent-continuity/v0.1",
                      obj (
                          dict (
                            (
                              "delegation",
                              obj (
                                  dict (
                                    ("schema", str "mandate-delegation/v0.1")
                                    ∷ ("hop_id", str "h-2")
                                    ∷ ("from_actor_id", str "a-2")
                                    ∷ ("from_actor_key_thumbprint", str "k-2")
                                    ∷ ("to_actor_id", str "a-3")
                                    ∷ ("to_actor_key_thumbprint", str "k-3")
                                    ∷ ("to_machine_id", str "mc-3")
                                    ∷ ("task_id", str "t-1")
                                    ∷ ("audience", str "gate")
                                    ∷ ("parent_digest", str "sha256:523232183")
                                    ∷ ("protocol_in", str "a2a")
                                    ∷ ("protocol_out", str "mcp")
                                    ∷ (
                                      "scope",
                                      obj (
                                          dict (
                                            ("actions", list (str "http.request" ∷ []))
                                            ∷ ("destinations", list (str "https://api" ∷ []))
                                            ∷ ("methods", list (str "POST" ∷ []))
                                            ∷ ("resources", list (str "/r" ∷ []))
                                            ∷ ("body_digests", list (str "sha256:974713487" ∷ []))
                                            ∷ ("payment_networks", list (str "n1" ∷ []))
                                            ∷ ("payment_assets", list (str "usd" ∷ []))
                                            ∷ ("payment_recipients", list (str "shop" ∷ []))
                                            ∷ ("max_payment_amount_minor", int (pos 300))
                                            ∷ [])),
                                    )
                                    ∷ ("not_before", str "@30")
                                    ∷ ("expires_at", str "@80")
                                    ∷ ("issued_at", str "@25")
                                    ∷ ("nonce", str "delegation-nonce-2")
                                    ∷ ("key_id", str "kid")
                                    ∷ ("signature", str "sig")
                                    ∷ ("protocol_binding_digest", str "sha256:57825651")
                                    ∷ [])),
                            )
                            ∷ [])),
                    )
                    ∷ [])),
            )
            ∷ [])),
    )
    ∷ [])

abbrev http : Fields
http = dict (
    ("url", str "https://api")
    ∷ ("method", str "POST")
    ∷ ("body", obj (dict (("q", int (pos 1)) ∷ [])))
    ∷ [])

abbrev payment : Fields
payment = dict (
    ("x402Version", int (pos 2))
    ∷ (
      "accepted",
      obj (
          dict (
            ("network", str "n1")
            ∷ ("asset", str "usd")
            ∷ ("payTo", str "shop")
            ∷ ("amount", str "250")
            ∷ [])),
    )
    ∷ (
      "extensions",
      obj (
          dict (
            (
              "https://minority-prophet.dev/extensions/intent-continuity/v0.1",
              obj (
                  dict (
                    ("taskId", str "t-1")
                    ∷ ("actorId", str "a-3")
                    ∷ ("actorKeyThumbprint", str "k-3")
                    ∷ ("machineId", str "mc-3")
                    ∷ ("resource", str "/r")
                    ∷ ("httpRequestDigest", str "sha256:669609544")
                    ∷ [])),
            )
            ∷ [])),
    )
    ∷ [])

abbrev receipt : Fields
receipt = dict (
    ("schema", str "border-intent-continuity/v0.1")
    ∷ ("verification", str "verified")
    ∷ ("mandate_id", str "m-1")
    ∷ ("mandate_digest", str "sha256:200922715")
    ∷ ("chain_digest", str "sha256:996688075")
    ∷ ("owner_id", str "o-1")
    ∷ ("task_id", str "t-1")
    ∷ ("final_actor_id", str "a-3")
    ∷ ("final_actor_key_thumbprint", str "k-3")
    ∷ ("final_machine_id", str "mc-3")
    ∷ ("audience", str "gate")
    ∷ ("final_effect_digest", str "sha256:624311741")
    ∷ ("issued_at", str "@50")
    ∷ ("expires_at", str "@80")
    ∷ ("nonce", str "mandate-nonce-01")
    ∷ [])

abbrev at : ℕ → Time
at n = record { instant = n; zone = some utc }

abbrev provider : Provider
provider = record {
  trust = record {
    verify_mandate = λ d. ok true;
    verify_delegation = λ d. ok true;
    mandate_is_current = λ v. ok true;
  };
  verify_payment = λ v. ok true;
}

abbrev carriers : Carriers
carriers = record {
  a2a_message = obj message;
  mcp_request = obj request;
  http_request = obj http;
  payment_payload = obj payment;
}

unfoldable protocol_runs : Unit {0}
unfolding continuity_runs without bound_delegation a2a_projection a2a_delegation mcp_projection
    mcp_delegation carried_effect final_effect_from_http_x402 prove_protocol_continuity
protocol_runs = tt

proved_path : prove_protocol_continuity runtime provider (obj mandate) carriers (at 50) ≡ ok receipt
unfolding protocol_runs
proved_path = refl

prove_protocol_continuity-IsCarriedPath_example :
    IsCarriedPath runtime provider mandate carriers receipt
prove_protocol_continuity-IsCarriedPath_example =
    prove_protocol_continuity-IsCarriedPath runtime provider mandate carriers (at 50) receipt
      proved_path
