-- ===== src/Approval/Narrowing.antt =====
-- The app's profile only narrows the route that the chain allows (approval/routing.ts), and the
-- profile that `profileFromChain` derives narrows nothing.
use stellar_voice_control_pr.Common.{
  ◌≡◌, ◌≢◌, ◌↔◌, false, Option, none, some, ok, arith, eq_iff, Option-cases, inl, inr,
}
use stellar_voice_control_pr.Guard.{
  pay_executor, GuardRoute, GuardRouteInput, GuardRouteDecision, choose_guarded_route,
}
use stellar_voice_control_pr.Approval.{
  ApprovalProfile, always_ask, mode_of, profile_from_chain, resolve_approval_route,
  requires_approval_card,
}

-- The card is skipped exactly when the chain allows the agent alone and the profile's mode is not
-- `always_ask`; a missing profile counts as `always_ask`.
requires_approval_card_iff :
    (profile : Option ApprovalProfile) (chain_route : GuardRoute)
    → (requires_approval_card (resolve_approval_route profile chain_route) ≡ false)
      ↔ ((chain_route ≡ pay_executor) × (mode_of profile ≢ always_ask))
unfolding requires_approval_card resolve_approval_route
requires_approval_card_iff none chain_route = ground arith
requires_approval_card_iff (some p) chain_route = ground arith

-- The profile that is derived from the chain's rule and executor never overrides the chain's
-- decision on a payment under that rule and executor, if the executor is not the empty text.
profile_from_chain_agrees :
    (i : GuardRouteInput) (d : GuardRouteDecision)
    → i.executor ≢ some ""
    → choose_guarded_route i ≡ ok d
    → resolve_approval_route (some (profile_from_chain (some i.rule) i.executor)) d.route ≡ d.route
unfolding choose_guarded_route profile_from_chain resolve_approval_route
profile_from_chain_agrees i d named e = elim (Option-cases i.executor) [
  | inl unset ↦ ground arith
  | inr (s, set) ↦ ground (arith, eq_iff s "")
]
