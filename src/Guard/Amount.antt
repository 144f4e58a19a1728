-- ===== src/Guard/Amount.antt =====
-- Decimal amounts and raw token units: stellar/src/guard/amount.ts.
use stellar_voice_control_pr.Common.{
  ℕ, ◌-◌, ◌^◌, ◌<◌, ◌≡◌, refl, not, Result, ok, err, ◌>>=◌, arith, ltb, inl, inr, Bool-cases,
  if◌then◌else◌,
}
use stellar_voice_control_pr.Common.Int.{ℤ, pos, ltb_ℤ, pos_part, ◌≤ℤ◌, ◌<ℤ◌}
use stellar_voice_control_pr.Common.Text.{Text}
use stellar_voice_control_pr.Decimal.{amount_matches, scaled_value, scaled_text}
use stellar_voice_control_pr.Decimal.Scaled.{scaled_value-lt, scaled_text_lem}
use stellar_voice_control_pr.Guard.{GuardClientError, invalid_amount, refuse}

abbrev token_decimals : ℕ
token_decimals = 7

abbrev pub i128_max : ℕ
i128_max = 2 ^ 127 - 1

unfoldable pub to_raw_units : Text → Result GuardClientError ℤ
to_raw_units amount =
    if not (amount_matches token_decimals amount)
    then refuse invalid_amount 101
    else if ltb i128_max (scaled_value token_decimals amount)
    then refuse invalid_amount 101
    else ok (pos (scaled_value token_decimals amount))

unfoldable pub from_raw_units : ℤ → Result GuardClientError Text
from_raw_units raw =
    if ltb_ℤ raw (pos 0)
    then refuse invalid_amount 101
    else ok (scaled_text token_decimals (pos_part raw))

-- A text that has the accepted form is converted, and every other text is refused: the test against
-- i128::MAX behind the pattern refuses nothing.
to_raw_units_by_pattern :
    (amount : Text)
    → to_raw_units amount ≡ (
        if amount_matches 7 amount
        then ok (pos (scaled_value 7 amount))
        else err (record { name = invalid_amount; code = 101 }))
unfolding to_raw_units
to_raw_units_by_pattern amount = elim (Bool-cases (amount_matches 7 amount)) [
  | inl m ↦ let small = scaled_value-lt 7 amount m in ground arith
  | inr m ↦ rw m refl
]

-- An amount that `toRawUnits` gives is not negative and below 10 ^ 19 raw units.
pub to_raw_units_bounds :
    (amount : Text) (raw : ℤ)
    → to_raw_units amount ≡ ok raw
    → (pos 0 ≤ℤ raw) × (raw <ℤ pos (10 ^ 19))
to_raw_units_bounds amount raw h = elim (Bool-cases (amount_matches 7 amount)) [
  | inl m ↦
      let small = scaled_value-lt 7 amount m in
      let by_pattern = to_raw_units_by_pattern amount in ground arith
  | inr m ↦ let by_pattern = to_raw_units_by_pattern amount in ground arith
]

-- The text that `fromRawUnits` gives for any amount below 10 ^ 19 raw units is accepted by
-- `toRawUnits`, which gives the same amount back.
pub to_raw_units-from_raw_units :
    (raw : ℕ) → raw < 10 ^ 19 → (from_raw_units (pos raw) >>= to_raw_units) ≡ ok (pos raw)
unfolding to_raw_units from_raw_units
to_raw_units-from_raw_units raw h =
    let (m, v) = scaled_text_lem 6 raw h in
    let printed : from_raw_units (pos raw) ≡ ok (scaled_text 7 raw) = ground arith in
    let read : to_raw_units (scaled_text 7 raw) ≡ ok (pos raw) = rw (m, v) (ground arith) in
    rw printed read
