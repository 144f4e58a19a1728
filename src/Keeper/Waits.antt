-- ===== src/Keeper/Waits.antt =====
-- The wait between two ticks (`run` of stellar/src/keeper/keeper.ts).
use native.Mathlib.Nat.{pow-suc}
use stellar_voice_control_pr.Common.{
  ℕ, zero, suc, ◌*◌, ◌^◌, ◌≤◌, ◌≡◌, refl, ◌↔◌, min, true, false, arith,
}
use stellar_voice_control_pr.Keeper.{KeeperOptions, poll_delay}

pow_two_positive : (k : ℕ) → 1 ≤ 2 ^ k
pow_two_positive zero = omega arith
pow_two_positive (suc k) = omega (arith, pow_two_positive k, pow-suc 2 k)

mul_grows : (p m : ℕ) → 1 ≤ m → p ≤ p * m
mul_grows p m h = grind arith

-- After a good tick the keeper waits for the poll interval. After a failed one it waits at most two
-- minutes, and no less than the poll interval exactly if that interval is at most two minutes.
poll_delay_bounds :
    (opts : KeeperOptions) (failures : ℕ)
    → (poll_delay opts true failures ≡ opts.poll_seconds * 1000)
      × (poll_delay opts false failures ≤ 120_000)
      × ((opts.poll_seconds * 1000 ≤ poll_delay opts false failures)
          ↔ (opts.poll_seconds * 1000 ≤ 120_000))
unfolding poll_delay
poll_delay_bounds opts failures =
    let grows =
      mul_grows (opts.poll_seconds * 1000) (2 ^ min failures 6)
        (pow_two_positive (min failures 6)) in
    (refl, omega arith, (λ h. omega arith, λ h. omega (arith, grows)))
