-- ===== src/Protocol/Soundness.antt =====
-- What a path that is carried by the protocols rests on.
use minority_prophet_border.Prelude.{[], arith, inl, inr, true, ◌∷◌, ◌≡◌}
use minority_prophet_border.Protocol.{
  Carriers, Provider, a2a_delegation, final_effect_from_http_x402, mcp_delegation,
  prove_protocol_continuity, trusting,
}
use minority_prophet_border.Py.Result.{Result-cases, ok}
use minority_prophet_border.Continuity.Effect.{IsContinuous, prove_intent_continuity-IsContinuous}
use minority_prophet_border.Py.Value.{Fields, obj}
use minority_prophet_border.Platform.{Platform}
use minority_prophet_border.Py.Clock.{Time}
use minority_prophet_border.Protocol.Carried.{
  IsCall, IsMessage, IsPaidRequest, a2a_delegation-IsMessage, final_effect-IsPaidRequest,
  mcp_delegation-IsCall,
}

pub record IsCarriedPath (p : Platform) (provider : Provider) (mandate : Fields) (c : Carriers)
    (receipt : Fields) : Type 0 where
  pub a2a : Fields
  pub a2a_carried : IsMessage p provider.trust.verify_delegation c.a2a_message a2a
  pub mcp : Fields
  pub mcp_carried : IsCall p provider.trust.verify_delegation c.mcp_request mcp
  pub paid : provider.verify_payment c.payment_payload ≡ ok true
  pub effect : Fields
  pub effect_lem : IsPaidRequest p c.http_request c.payment_payload effect
  pub continuous : IsContinuous p mandate (obj effect) receipt

-- A path over A2A, MCP, HTTP and x402 gets a receipt only if both delegations were verified as
-- they were carried and are bound to the digest of what they were carried by: the identity and parts
-- of the A2A message, and the tool and arguments of the MCP call. The payment was verified and names
-- the digest of the HTTP request, and the effect of that request with its payment is within the
-- Mandate.
pub prove_protocol_continuity-IsCarriedPath :
    (p : Platform) (provider : Provider) (mandate : Fields) (c : Carriers) (now : Time)
    (receipt : Fields)
    → prove_protocol_continuity p provider (obj mandate) c now ≡ ok receipt
    → IsCarriedPath p provider mandate c receipt
unfolding prove_protocol_continuity
prove_protocol_continuity-IsCarriedPath p provider mandate c now receipt h =
    let verify = provider.trust.verify_delegation in
    elim (Result-cases (a2a_delegation p verify c.a2a_message)) [
      | inr (x, e) ↦ absurd (ground arith)
      | inl (a2a, e) ↦ elim (Result-cases (mcp_delegation p verify c.mcp_request)) [
        | inr (x, f) ↦ absurd (ground arith)
        | inl (mcp, f) ↦
            elim (Result-cases (final_effect_from_http_x402 p c.http_request c.payment_payload)) [
              | inr (x, g) ↦ absurd (ground arith)
              | inl (effect, g) ↦ record {
                a2a = a2a;
                a2a_carried = a2a_delegation-IsMessage p verify c.a2a_message a2a e;
                mcp = mcp;
                mcp_carried = mcp_delegation-IsCall p verify c.mcp_request mcp f;
                paid = ground arith;
                effect = effect;
                effect_lem = final_effect-IsPaidRequest p c.http_request c.payment_payload effect g;
                continuous =
                    prove_intent_continuity-IsContinuous p (trusting provider.trust) mandate
                      (obj a2a ∷ obj mcp ∷ []) (obj effect) now receipt (ground arith);
              }
            ]
      ]
    ]
