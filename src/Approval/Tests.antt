-- ===== src/Approval/Tests.antt =====
-- Runs of the approval policy on concrete rules and payments.
use stellar_voice_control_pr.Common.{
  String, Bool, true, false, ◌≡◌, ◌≢◌, refl, ◌↔◌, none, some, [], ◌∷◌, ok,
}
use stellar_voice_control_pr.Common.Int.{pos}
use stellar_voice_control_pr.Guard.{
  Rule, GuardRouteInput, pay_executor, choose_guarded_route, soft_route, includes, inside_mandate,
}
use stellar_voice_control_pr.Common.Text.{codes}
use stellar_voice_control_pr.Decimal.{amount_matches, scaled_value}
use stellar_voice_control_pr.Guard.Amount.{to_raw_units}
use stellar_voice_control_pr.Approval.Draft.{
  AutoPayDraft, AutoPayDraftInput, make_auto_pay_draft, parse_amount, recode, allowance_of,
  rule_from_draft, validate_auto_pay_draft, validate_rule_and_allowance, assert_valid_assets,
  assert_asset_matches_rule,
}
use stellar_voice_control_pr.Approval.Draft.Valid.{IsFundedRule, validate_auto_pay_draft_iff}
use stellar_voice_control_pr.Guard.Route.{IsRouted}
use stellar_voice_control_pr.Approval.{
  same, tightening, loosening, mixed, classify_change, moves, assert_tightening,
}
use stellar_voice_control_pr.Approval.Classify.{
  IsNoLooser, classify_change_iff, assert_tightening_never_widens,
}

abbrev wide : Rule
wide = record {
  auto_approve_limit = pos 50;
  per_tx_limit = pos 100;
  daily_limit = pos 300;
  allowed_assets = "USDC" ∷ "EURC" ∷ [];
  known_recipients_only = false;
}

abbrev narrow : Rule
narrow = record wide { auto_approve_limit = pos 20; allowed_assets = "USDC" ∷ [] }

abbrev payment : GuardRouteInput
payment = record {
  rule = narrow;
  executor = some "GAGENT";
  amount_raw = pos 10;
  asset_contract_id = "USDC";
  recipient_known = false;
}

narrowing_run : classify_change (some wide) narrow ≡ tightening
unfolding classify_change moves includes
narrowing_run = refl

passed : assert_tightening (classify_change (some wide) narrow) ≡ ok tt
unfolding classify_change assert_tightening moves includes
passed = refl

routed : IsRouted pay_executor (choose_guarded_route payment)
unfolding choose_guarded_route soft_route includes
routed = refl

decided :
    choose_guarded_route payment ≡ ok (record { route = pay_executor; reason = inside_mandate })
unfolding choose_guarded_route soft_route includes
decided = refl

classify_change_iff_example :
    ((classify_change (some wide) narrow ≡ same)
      ↔ (IsNoLooser wide narrow × IsNoLooser narrow wide))
    × ((classify_change (some wide) narrow ≡ tightening)
        ↔ (IsNoLooser wide narrow × (¬ IsNoLooser narrow wide)))
    × ((classify_change (some wide) narrow ≡ loosening)
        ↔ ((¬ IsNoLooser wide narrow) × IsNoLooser narrow wide))
    × ((classify_change (some wide) narrow ≡ mixed)
        ↔ ((¬ IsNoLooser wide narrow) × (¬ IsNoLooser narrow wide)))
classify_change_iff_example = classify_change_iff wide narrow

assert_tightening_never_widens_example :
    IsRouted pay_executor (choose_guarded_route (record payment { rule = wide }))
assert_tightening_never_widens_example =
    assert_tightening_never_widens wide narrow payment passed routed

executor_is_named : payment.executor ≢ some ""
executor_is_named = λ e. cc

abbrev any_key : String → Bool
any_key s = true

abbrev typed : AutoPayDraftInput
typed = record {
  executor = "GAGENT";
  threshold = codes "5";
  per_tx_limit = codes "5";
  daily_limit = codes "20";
  allowed_assets = "CUSDC" ∷ [];
  known_recipients_only = true;
  allowance = none;
  allowance_days = none;
}

abbrev typed_draft : AutoPayDraft
typed_draft = record {
  executor = "GAGENT";
  threshold_raw = pos 50_000_000;
  daily_limit_raw = pos 200_000_000;
  per_tx_limit_raw = pos 50_000_000;
  allowed_assets = "CUSDC" ∷ [];
  known_recipients_only = true;
  allowance_raw = pos 1_400_000_000;
  allowance_days = pos 30;
}

typed_run : make_auto_pay_draft typed ≡ ok typed_draft
unfolding make_auto_pay_draft parse_amount recode allowance_of to_raw_units amount_matches
    scaled_value
typed_run = refl

typed_passes : validate_auto_pay_draft any_key any_key typed_draft ≡ ok tt
unfolding validate_auto_pay_draft validate_rule_and_allowance assert_valid_assets
    assert_asset_matches_rule rule_from_draft
typed_passes = refl

validate_auto_pay_draft_iff_example :
    (validate_auto_pay_draft any_key any_key typed_draft ≡ ok tt) ↔ (
      (any_key "GAGENT" ≡ true)
      × IsFundedRule any_key (rule_from_draft typed_draft) (pos 1_400_000_000) (pos 30))
validate_auto_pay_draft_iff_example = validate_auto_pay_draft_iff any_key any_key typed_draft
