-- ===== src/P2p.antt =====
-- The escrow price of the P2P lane: stellar/src/p2p/amount.ts. Lira texts and integer kurus.
mod Tests
use stellar_voice_control_pr.Common.{
  ℕ, ◌^◌, ◌<◌, ◌≡◌, refl, Bool, true, false, not, Result, ok, err, ◌>>=◌, arith, leb, ◌==◌, inl,
  inr, Bool-cases, if◌then◌else◌,
}
use stellar_voice_control_pr.Common.Int.{ℤ, pos, ltb_ℤ, pos_part}
use stellar_voice_control_pr.Common.Text.{Text}
use stellar_voice_control_pr.Decimal.{amount_matches, scaled_value, scaled_text}
use stellar_voice_control_pr.Decimal.Scaled.{scaled_text_lem}

-- `P2pRefusalCode`
pub data P2pRefusalCode : Type 0 where
  not_configured invalid_intent invalid_price simulation_failed : P2pRefusalCode

unfoldable pub try_to_kurus : Text → Result P2pRefusalCode ℤ
try_to_kurus amount =
    if not (amount_matches 2 amount)
    then err invalid_price
    else if leb (scaled_value 2 amount) 0
    then err invalid_price
    else ok (pos (scaled_value 2 amount))

unfoldable pub kurus_to_try : ℤ → Result P2pRefusalCode Text
kurus_to_try kurus =
    if ltb_ℤ kurus (pos 0) then err invalid_price else ok (scaled_text 2 (pos_part kurus))

-- The text of any price below 10 ^ 14 kurus reads back as that price, except that the text of a zero
-- price is refused.
pub try_to_kurus-kurus_to_try :
    (kurus : ℕ)
    → kurus < 10 ^ 14
    → (kurus_to_try (pos kurus) >>= try_to_kurus)
      ≡ (if kurus == 0 then err invalid_price else ok (pos kurus))
unfolding try_to_kurus kurus_to_try
try_to_kurus-kurus_to_try kurus h =
    let (m, v) = scaled_text_lem 1 kurus h in
    let printed : kurus_to_try (pos kurus) ≡ ok (scaled_text 2 kurus) = ground arith in
    let read : try_to_kurus (scaled_text 2 kurus)
        ≡ (if kurus == 0 then err invalid_price else ok (pos kurus)) =
      rw (m, v) (ground arith) in
    rw printed read
