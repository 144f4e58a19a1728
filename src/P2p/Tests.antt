-- ===== src/P2p/Tests.antt =====
-- Runs of the price conversions on concrete prices.
use stellar_voice_control_pr.Common.{◌≡◌, refl, ok, err, ◌>>=◌, arith}
use stellar_voice_control_pr.Common.Int.{pos}
use stellar_voice_control_pr.Common.Text.{codes}
use stellar_voice_control_pr.Decimal.{amount_matches, scaled_value, scaled_text}
use stellar_voice_control_pr.P2p.{
  try_to_kurus, kurus_to_try, invalid_price, try_to_kurus-kurus_to_try,
}

try_to_kurus_run : try_to_kurus (codes "3400.5") ≡ ok (pos 340_050)
unfolding try_to_kurus amount_matches scaled_value
try_to_kurus_run = refl

zero_refused : try_to_kurus (codes "0.00") ≡ err invalid_price
unfolding try_to_kurus amount_matches scaled_value
zero_refused = refl

kurus_to_try_run : kurus_to_try (pos 340_050) ≡ ok (codes "3400.5")
unfolding kurus_to_try scaled_text
kurus_to_try_run = refl

try_to_kurus-kurus_to_try_example : (kurus_to_try (pos 340_050) >>= try_to_kurus) ≡ ok (pos 340_050)
try_to_kurus-kurus_to_try_example = try_to_kurus-kurus_to_try 340_050 (omega arith)
