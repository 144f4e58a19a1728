-- ===== src/Suggest/Rounding.antt =====
-- Rounding up to a step: `ceilDiv`, `roundUpToStep`, `displayStepRaw`, `roundUpToDisplayMultiple` and
-- `mulDivCeil` of stellar/src/suggest/amount.ts.
use native.Mathlib.Nat.{pow-suc, mod-lt, div-add-mod', div-eq_of_lt}
use stellar_voice_control_pr.Common.{
  ℕ, zero, suc, ◌+◌, ◌-◌, ◌*◌, ◌/◌, ◌^◌, ◌≤◌, ◌<◌, ◌≡◌, ◌||◌, ◌==◌, ltb, Result, ok, err, ◌>>=◌,
  arith, if◌then◌else◌,
}
use stellar_voice_control_pr.Common.Int.{ℤ, pos, pos_part, leb_ℤ, ltb_ℤ}

-- What the helpers throw.
pub data AmountError : Type 0 where
  invalid_decimals divisor_not_positive step_not_positive invalid_multiple negative_value :
      AmountError

unfoldable pub unit_scale : ℕ → Result AmountError ℕ
unit_scale decimals = if ltb 100 decimals then err invalid_decimals else ok (10 ^ decimals)

unfoldable pub ceil_div : ℤ → ℤ → Result AmountError ℤ
ceil_div a b =
    if leb_ℤ b (pos 0)
    then err divisor_not_positive
    else if leb_ℤ a (pos 0)
    then ok (pos 0)
    else ok (pos ((pos_part a + pos_part b - 1) / pos_part b))

unfoldable pub round_up_to_step : ℤ → ℤ → Result AmountError ℤ
unfolding ceil_div
round_up_to_step raw step =
    if leb_ℤ step (pos 0)
    then err step_not_positive
    else if leb_ℤ raw (pos 0)
    then ok (pos 0)
    else (ceil_div raw step >>= (λ n. ok (pos (pos_part n * pos_part step))))

unfoldable pub display_step_raw : (multiple decimals : ℕ) → Result AmountError ℤ
unfolding unit_scale
display_step_raw multiple decimals =
    if multiple == 0
    then err invalid_multiple
    else (unit_scale decimals >>= (λ scale. ok (pos (multiple * scale))))

unfoldable pub round_up_to_display_multiple : ℤ → (decimals multiple : ℕ) → Result AmountError ℤ
unfolding display_step_raw round_up_to_step
round_up_to_display_multiple raw decimals multiple =
    display_step_raw multiple decimals >>= (λ step. round_up_to_step raw step)

unfoldable pub mul_div_ceil : (a numerator denominator : ℤ) → Result AmountError ℤ
unfolding ceil_div
mul_div_ceil a numerator denominator =
    if leb_ℤ denominator (pos 0)
    then err divisor_not_positive
    else if ltb_ℤ numerator (pos 0) || ltb_ℤ a (pos 0)
    then err negative_value
    else ceil_div (pos (pos_part a * pos_part numerator)) denominator

pow_positive : (k : ℕ) → 1 ≤ 10 ^ k
pow_positive zero = omega arith
pow_positive (suc k) = omega (arith, pow_positive k, pow-suc 10 k)

step_positive : (m p : ℕ) → 1 ≤ m → 1 ≤ p → 1 ≤ m * p
step_positive m p hm hp = grind arith

abbrev up : ℕ → ℕ → ℕ
up raw step = (raw + step - 1) / step * step

up_bounds : (raw step : ℕ) → 1 ≤ step → (raw ≤ up raw step) × (up raw step < raw + step)
up_bounds raw step h =
    let whole = div-add-mod' (raw + step - 1) step in
    let part = mod-lt (raw + step - 1) h in omega (arith, whole, part)

round_up_to_step_lem :
    (raw step : ℕ) → 1 ≤ step → round_up_to_step (pos raw) (pos step) ≡ ok (pos (up raw step))
unfolding round_up_to_step ceil_div
round_up_to_step_lem zero step h =
    let none_fit : (0 + step - 1) / step ≡ 0 = div-eq_of_lt (omega arith) in ground arith
round_up_to_step_lem (suc raw) step h = ground arith

display_step_raw_lem :
    (multiple decimals : ℕ)
    → 1 ≤ multiple
    → decimals ≤ 100
    → display_step_raw multiple decimals ≡ ok (pos (multiple * 10 ^ decimals))
unfolding display_step_raw unit_scale
display_step_raw_lem multiple decimals hm hd = ground arith

-- Rounding up an amount to a multiple of display units gives a multiple of the step that is not
-- below the amount and less than one step above it, for every positive multiple and at most 100
-- decimals.
round_up_to_display_multiple_least :
    (raw decimals multiple : ℕ)
    → 1 ≤ multiple
    → decimals ≤ 100
    → let step = multiple * 10 ^ decimals in
      (n : ℕ) × (round_up_to_display_multiple (pos raw) decimals multiple ≡ ok (pos (n * step)))
      × (raw ≤ n * step)
      × (n * step < raw + step)
unfolding round_up_to_display_multiple
round_up_to_display_multiple_least raw decimals multiple hm hd =
    let step = multiple * 10 ^ decimals in
    let positive : 1 ≤ step = step_positive multiple (10 ^ decimals) hm (pow_positive decimals) in
    let (low, high) = up_bounds raw step positive in
    (
      (raw + step - 1) / step,
      rw (display_step_raw_lem multiple decimals hm hd) (round_up_to_step_lem raw step positive),
      low,
      high,
    )
