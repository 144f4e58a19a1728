-- ===== src/Errors/Backoff.antt =====
-- Bounds of `backoffMs` (stellar/src/keeper/errors.ts).
use native.Mathlib.Decide.{dec_le}
use native.Mathlib.Nat.{pow-suc, pow-le-pow_right}
use stellar_voice_control_pr.Common.{
  ℕ, suc, ◌+◌, ◌-◌, ◌*◌, ◌^◌, ◌≤◌, ◌<◌, ◌≡◌, refl, ◌∙◌, ap, min, arith,
}
use stellar_voice_control_pr.Errors.{ErrorKind, BackoffPolicy, backoff_policy, backoff_ms}

-- What is asked of a policy: it starts above zero, and its cap is reached by the twentieth doubling.
record IsPolicy (p : BackoffPolicy) : Type 0 where
  positive : 0 < p.base_ms
  capped : p.base_ms ≤ p.max_ms
  reached : p.max_ms ≤ p.base_ms * 2 ^ 20

backoff_policy-IsPolicy : (kind : ErrorKind) → IsPolicy (backoff_policy kind)
unfolding backoff_policy
backoff_policy-IsPolicy kind = ground arith

delay : BackoffPolicy → ℕ → ℕ
delay p e = min p.max_ms (p.base_ms * 2 ^ e)

mul_mono : (b x y : ℕ) → x ≤ y → b * x ≤ b * y
mul_mono b x y h = grind arith

pow_mono : (e e' : ℕ) → e ≤ e' → 2 ^ e ≤ 2 ^ e'
pow_mono e e' h = pow-le-pow_right {n = 2} (omega arith) h

delay_bounds :
    (p : BackoffPolicy) (e : ℕ) → IsPolicy p → (p.base_ms ≤ delay p e) × (delay p e ≤ p.max_ms)
unfolding delay
delay_bounds p e v =
    omega (arith, v.capped, mul_mono p.base_ms 1 (2 ^ e) (pow_mono 0 e (omega arith)))

delay_mono : (p : BackoffPolicy) (e e' : ℕ) → e ≤ e' → delay p e ≤ delay p e'
unfolding delay
delay_mono p e e' h = omega (arith, mul_mono p.base_ms (2 ^ e) (2 ^ e') (pow_mono e e' h))

delay_doubles : (p : BackoffPolicy) (e : ℕ) → delay p (suc e) ≤ 2 * delay p e
unfolding delay
delay_doubles p e = simp pow-suc (omega arith)

-- One more doubling, or none.
delay_step : (p : BackoffPolicy) (e e' : ℕ) → e ≤ e' → e' ≤ suc e → delay p e' ≤ 2 * delay p e
delay_step p e e' h k = elim (dec_le e' e) [
  | yes same ↦ let eq : e' ≡ e = omega arith in omega (arith, ap (delay p) eq)
  | no more ↦ let eq : e' ≡ suc e = omega arith in omega (arith, ap (delay p) eq, delay_doubles p e)
]

backoff-delay :
    (kind : ErrorKind) (n : ℕ) → backoff_ms kind n ≡ delay (backoff_policy kind) (min (n - 1) 20)
unfolding delay backoff_ms
backoff-delay kind n = refl

delay_zero : (p : BackoffPolicy) → IsPolicy p → delay p 0 ≡ p.base_ms
unfolding delay
delay_zero p v = omega (arith, v.capped)

delay_last : (p : BackoffPolicy) (e : ℕ) → IsPolicy p → e ≡ 20 → delay p e ≡ p.max_ms
unfolding delay
delay_last p e v eq = rw eq (omega (arith, v.reached))

-- A backoff lies between the base and the cap of its kind, and is not zero.
pub backoff_ms_bounds :
    (kind : ErrorKind) (n : ℕ)
    → (0 < backoff_ms kind n)
      × ((backoff_policy kind).base_ms ≤ backoff_ms kind n)
      × (backoff_ms kind n ≤ (backoff_policy kind).max_ms)
backoff_ms_bounds kind n =
    let v = backoff_policy-IsPolicy kind in
    rw (backoff-delay kind n) (omega (arith, delay_bounds (backoff_policy kind) (min (n - 1) 20) v))

-- The first failure waits for the base delay, a further failure never waits less and at most twice
-- as long, and from the twenty-first failure on the wait is the cap.
backoff_ms_growth :
    (kind : ErrorKind) (n : ℕ)
    → (backoff_ms kind 1 ≡ (backoff_policy kind).base_ms)
      × (backoff_ms kind n ≤ backoff_ms kind (suc n))
      × (backoff_ms kind (suc n) ≤ 2 * backoff_ms kind n)
      × (backoff_ms kind (21 + n) ≡ (backoff_policy kind).max_ms)
backoff_ms_growth kind n =
    let p = backoff_policy kind in
    let v = backoff_policy-IsPolicy kind in
    (
      backoff-delay kind 1 ∙ delay_zero p v,
      rw (backoff-delay kind n, backoff-delay kind (suc n))
          (delay_mono p (min (n - 1) 20) (min (suc n - 1) 20) (omega arith)),
      rw (backoff-delay kind n, backoff-delay kind (suc n))
          (delay_step p (min (n - 1) 20) (min (suc n - 1) 20) (omega arith) (omega arith)),
      backoff-delay kind (21 + n) ∙ delay_last p (min (21 + n - 1) 20) v (omega arith),
    )
