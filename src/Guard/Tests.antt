-- ===== src/Guard/Tests.antt =====
-- Runs of the guard client's policy and of its amount conversions on concrete inputs.
use stellar_voice_control_pr.Common.{◌≡◌, refl, ◌↔◌, true, some, [], ◌∷◌, ok, err, ◌>>=◌, arith}
use stellar_voice_control_pr.Common.Int.{pos}
use stellar_voice_control_pr.Common.Text.{codes}
use stellar_voice_control_pr.Decimal.{amount_matches, scaled_value, scaled_text}
use stellar_voice_control_pr.Guard.{
  Rule, GuardRouteInput, pay_executor, pay_owner, includes, choose_guarded_route, invalid_amount,
  soft_route, over_auto_approve,
}
use stellar_voice_control_pr.Guard.Amount.{
  to_raw_units, from_raw_units, to_raw_units-from_raw_units,
}
use stellar_voice_control_pr.Guard.Route.{
  IsRouted, IsInsideMandate, choose_guarded_route-pay_executor_iff,
}

abbrev small_rule : Rule
small_rule = record {
  auto_approve_limit = pos 50;
  per_tx_limit = pos 100;
  daily_limit = pos 300;
  allowed_assets = "USDC" ∷ [];
  known_recipients_only = true;
}

abbrev small_payment : GuardRouteInput
small_payment = record {
  rule = small_rule;
  executor = some "GAGENT";
  amount_raw = pos 40;
  asset_contract_id = "USDC";
  recipient_known = true;
}

abbrev foreign_payment : GuardRouteInput
foreign_payment = record small_payment { asset_contract_id = "XLM" }

small_payment_run : IsRouted pay_executor (choose_guarded_route small_payment)
unfolding choose_guarded_route soft_route includes
small_payment_run = refl

large_payment_run :
    choose_guarded_route (record small_payment { amount_raw = pos 60 })
    ≡ ok (record { route = pay_owner; reason = over_auto_approve (pos 60) (pos 50) })
unfolding choose_guarded_route soft_route includes
large_payment_run = refl

to_raw_units_run : to_raw_units (codes "10.5") ≡ ok (pos 105_000_000)
unfolding to_raw_units amount_matches scaled_value
to_raw_units_run = refl

to_raw_units_refusal :
    to_raw_units (codes "1.00000001") ≡ err (record { name = invalid_amount; code = 101 })
unfolding to_raw_units amount_matches scaled_value
to_raw_units_refusal = refl

from_raw_units_run : from_raw_units (pos 105_000_000) ≡ ok (codes "10.5")
unfolding from_raw_units scaled_text
from_raw_units_run = refl

choose_guarded_route-pay_executor_iff_example :
    IsRouted pay_executor (choose_guarded_route small_payment) ↔ IsInsideMandate small_payment
choose_guarded_route-pay_executor_iff_example = choose_guarded_route-pay_executor_iff small_payment

to_raw_units-from_raw_units_example :
    (from_raw_units (pos 105_000_000) >>= to_raw_units) ≡ ok (pos 105_000_000)
to_raw_units-from_raw_units_example = to_raw_units-from_raw_units 105_000_000 (omega arith)
