-- ===== src/Guard/Route.antt =====
-- When the agent may pay alone: the outcomes of `chooseGuardedRoute` (guard/route.ts).
use stellar_voice_control_pr.Common.{◌≡◌, ◌≢◌, ◌↔◌, true, false, none, Result, ok, err, arith}
use stellar_voice_control_pr.Common.Int.{pos, ◌≤ℤ◌, ◌<ℤ◌}
use stellar_voice_control_pr.Guard.{
  GuardClientError, GuardRoute, pay_executor, GuardRouteDecision, GuardRouteInput, includes,
  choose_guarded_route, invalid_amount, asset_not_allowed, over_per_tx_limit,
}

-- What the agent's mandate asks of a payment.
pub record IsInsideMandate (i : GuardRouteInput) : Type 0 where
  pub positive : pos 0 <ℤ i.amount_raw
  pub allowed : includes i.rule.allowed_assets i.asset_contract_id ≡ true
  pub under_cap : i.amount_raw ≤ℤ i.rule.per_tx_limit
  pub registered : i.executor ≢ none
  pub under_auto : i.amount_raw ≤ℤ i.rule.auto_approve_limit
  pub known : i.rule.known_recipients_only ≡ true → i.recipient_known ≡ true

abbrev pub IsRouted : GuardRoute → Result GuardClientError GuardRouteDecision → Type 0
IsRouted r (ok d) = d.route ≡ r
IsRouted r (err _) = ⊥

mandate_sound :
    (i : GuardRouteInput) → IsRouted pay_executor (choose_guarded_route i) → IsInsideMandate i
unfolding choose_guarded_route
mandate_sound i h = ground arith

mandate_complete :
    (i : GuardRouteInput) → IsInsideMandate i → IsRouted pay_executor (choose_guarded_route i)
unfolding choose_guarded_route
mandate_complete i h = ground arith

-- The agent may pay alone exactly when the amount is positive, the asset is allowed, the amount is
-- within the per-payment cap and the auto-approve limit, an executor is registered, and the
-- recipient is known where the rule asks for it.
pub choose_guarded_route-pay_executor_iff :
    (i : GuardRouteInput) → IsRouted pay_executor (choose_guarded_route i) ↔ IsInsideMandate i
choose_guarded_route-pay_executor_iff i = (mandate_sound i, mandate_complete i)

-- The hard refusals and their order: the amount is tested first, then the asset, then the cap.
choose_guarded_route_refusals :
    (i : GuardRouteInput)
    → ((choose_guarded_route i ≡ err (record { name = invalid_amount; code = 101 }))
        ↔ (i.amount_raw ≤ℤ pos 0))
      × ((choose_guarded_route i ≡ err (record { name = asset_not_allowed; code = 106 })) ↔ (
          (pos 0 <ℤ i.amount_raw) × (includes i.rule.allowed_assets i.asset_contract_id ≡ false)))
      × ((choose_guarded_route i ≡ err (record { name = over_per_tx_limit; code = 103 })) ↔ (
          (pos 0 <ℤ i.amount_raw)
          × (includes i.rule.allowed_assets i.asset_contract_id ≡ true)
          × (i.rule.per_tx_limit <ℤ i.amount_raw)))
unfolding choose_guarded_route
choose_guarded_route_refusals i = ground arith
