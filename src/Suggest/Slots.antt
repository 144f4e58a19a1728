-- ===== src/Suggest/Slots.antt =====
-- The first run of a proposed schedule (`advanceFirstRunAt` of stellar/src/suggest/suggest.ts).
use native.Mathlib.Nat.{mod-lt, div-add-mod'}
use stellar_voice_control_pr.Common.{
  ℕ, zero, suc, ◌+◌, ◌-◌, ◌*◌, ◌/◌, ◌≤◌, ◌<◌, ◌≡◌, refl, ap, ◌∙◌, leb, max, Bool-cases, inl, inr,
  arith, if◌then◌else◌,
}

abbrev pub max_first_run_advance_steps : ℕ
max_first_run_advance_steps = 10_000

-- The bounded loop, on the number of steps left.
unfoldable pub advance : ℕ → (interval now first_run_at : ℕ) → ℕ
advance zero interval now at = at
advance (suc left) interval now at =
    let rest = advance left interval now (at + interval) in if leb at now then rest else at

unfoldable pub advance_first_run_at : (last_ts interval now : ℕ) → ℕ
advance_first_run_at last_ts interval now =
    let at = advance max_first_run_advance_steps interval now (last_ts + interval) in
    if leb at now then last_ts + ((now - last_ts) / interval + 1) * interval else at

-- The slot behind `now`, in one step.
abbrev pub next_slot : (last_ts interval now : ℕ) → ℕ
next_slot last_ts interval now = last_ts + ((now - last_ts) / interval + 1) * interval

-- The loop stops at a slot that is not beyond the next one.
abbrev IsSlot : (last_ts interval now at : ℕ) → Type 0
IsSlot last_ts interval now at =
    (k : ℕ) × (at ≡ last_ts + k * interval) × (1 ≤ k) × (k ≤ (now - last_ts) / interval + 1)

mul_mono : (a b p : ℕ) → a ≤ b → a * p ≤ b * p
mul_mono a b p h = grind arith

mul_lt_cancel : (a b p : ℕ) → a * p < b * p → a < b
mul_lt_cancel a b p h = elim (Bool-cases (leb b a)) [
  | inl below ↦ let reversed = mul_mono b a p (ground arith) in absurd (omega (arith, reversed))
  | inr above ↦ ground arith
]

quotient_bounds : (a i : ℕ) → 1 ≤ i → (a / i * i ≤ a) × (a < (a / i + 1) * i)
quotient_bounds a i h =
    let whole = div-add-mod' a i in
    let part = mod-lt a h in omega (arith, whole, part, succ_mul (a / i) i)
  where
    succ_mul : (q i : ℕ) → (q + 1) * i ≡ q * i + i
    succ_mul q i = omega arith

step_IsSlot :
    (last_ts i now at : ℕ)
    → 1 ≤ i
    → at ≤ now
    → IsSlot last_ts i now at
    → IsSlot last_ts i now (at + i)
step_IsSlot last_ts i now at h early (k, e, low, high) =
    let (q1, q2) = quotient_bounds (now - last_ts) i h in
    let room : k * i < ((now - last_ts) / i + 1) * i = omega (arith, q2) in
    let fits : k < (now - last_ts) / i + 1 = mul_lt_cancel k ((now - last_ts) / i + 1) i room in
    (k + 1, omega arith, omega arith, omega (arith, fits))

advance-IsSlot :
    (left last_ts i now at : ℕ)
    → 1 ≤ i
    → IsSlot last_ts i now at
    → IsSlot last_ts i now (advance left i now at)
unfolding advance
advance-IsSlot zero last_ts i now at h slot = slot
advance-IsSlot (suc left) last_ts i now at h slot = elim (Bool-cases (leb at now)) [
  | inl early ↦ rw early (
      advance-IsSlot left last_ts i now (at + i) h
        (step_IsSlot last_ts i now at h (ground arith) slot))
  | inr late ↦ rw late slot
]

slot_beyond_now :
    (last_ts i now at : ℕ)
    → 1 ≤ i
    → now < at
    → IsSlot last_ts i now at
    → at ≡ next_slot last_ts i now
slot_beyond_now last_ts i now at h late (k, e, low, high) =
    elim (Bool-cases (leb k ((now - last_ts) / i))) [
      | inl before ↦
          let (q1, q2) = quotient_bounds (now - last_ts) i h in
          let small = mul_mono k ((now - last_ts) / i) i (ground arith) in
          let some_step : 1 * i ≤ k * i = mul_mono 1 k i low in
          absurd (omega (arith, q1, small, some_step))
      | inr last ↦
          let exact : k ≡ (now - last_ts) / i + 1 = ground (arith, high) in
          e ∙ ap (λ m. last_ts + m * i) exact
    ]

-- For a positive interval the loop of at most 10,000 steps and its fallback give the same as one
-- division: the first slot after the last payment, in whole intervals, that is strictly after now.
pub advance_first_run_at-next_slot :
    (last_ts interval now : ℕ)
    → 1 ≤ interval
    → (advance_first_run_at last_ts interval now ≡ next_slot last_ts interval now)
      × (now < next_slot last_ts interval now)
      × (next_slot last_ts interval now ≤ max (last_ts + interval) (now + interval))
unfolding advance_first_run_at
advance_first_run_at-next_slot last_ts i now h =
    let (q1, q2) = quotient_bounds (now - last_ts) i h in
    let at = advance max_first_run_advance_steps i now (last_ts + i) in
    let slot =
      advance-IsSlot max_first_run_advance_steps last_ts i now (last_ts + i) h
        (1, omega arith, omega arith, omega arith) in
    (
      elim (Bool-cases (leb at now)) [
        | inl early ↦ rw early refl
        | inr late ↦ rw late (slot_beyond_now last_ts i now at h (ground arith) slot)
      ],
      omega (arith, q2),
      omega (arith, q1),
    )
