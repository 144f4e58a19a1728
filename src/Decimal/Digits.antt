-- ===== src/Decimal/Digits.antt =====
-- Printing a number and reading it back, and the size of both.
use native.Mathlib.Nat.{pow-suc}
use stellar_voice_control_pr.Common.{
  ℕ, zero, suc, ◌+◌, ◌-◌, ◌*◌, ◌/◌, ◌%◌, ◌^◌, ◌≤◌, ◌<◌, ◌≡◌, ap, ◌∙◌, true, inl, inr, Bool-cases,
  [], ◌∷◌, ◌++◌, length, All, arith, ltb,
}
use stellar_voice_control_pr.Common.Text.{Text, is_digit, span_digits}
use stellar_voice_control_pr.Decimal.{digits_value, digits_of, to_text}

abbrev pub AllDigits : Text → Type 0
AllDigits s = All (λ c. is_digit c ≡ true) s

digits_of-value :
    (fuel n : ℕ) (acc : Text)
    → n < fuel
    → digits_value 0 (digits_of fuel n acc) ≡ digits_value n acc
unfolding digits_of digits_value
digits_of-value zero n acc h = absurd (omega arith)
digits_of-value (suc fuel) n acc h = elim (Bool-cases (ltb n 10)) [
  | inl last ↦ rw last (ap (λ m. digits_value m acc) (omega arith))
  | inr more ↦ rw more (
      digits_of-value fuel (n / 10) ((48 + n % 10) ∷ acc) (ground arith)
      ∙ ap (λ m. digits_value m acc) (omega arith))
]

digits_of-digits : (fuel n : ℕ) (acc : Text) → AllDigits acc → AllDigits (digits_of fuel n acc)
unfolding digits_of
digits_of-digits zero n acc h = h
digits_of-digits (suc fuel) n acc h =
    ground (arith, digits_of-digits fuel (n / 10) ((48 + n % 10) ∷ acc))

digits_of-length :
    (fuel n k : ℕ) (acc : Text)
    → n < fuel
    → n < 10 ^ suc k
    → (suc (length acc) ≤ length (digits_of fuel n acc))
      × (length (digits_of fuel n acc) ≤ suc k + length acc)
unfolding digits_of
digits_of-length zero n k acc h b = absurd (omega arith)
digits_of-length (suc fuel) n zero acc h b = ground arith
digits_of-length (suc fuel) n (suc k) acc h b = elim (Bool-cases (ltb n 10)) [
  | inl last ↦ rw last (omega arith)
  | inr more ↦
      let small : n / 10 < 10 ^ suc k = omega (arith, pow-suc 10 (suc k)) in
      let rest = digits_of-length fuel (n / 10) k ((48 + n % 10) ∷ acc) (ground arith) small in
      rw more (omega (arith, rest))
]

pub digits_value-to_text : (n : ℕ) → digits_value 0 (to_text n) ≡ n
unfolding to_text digits_value
digits_value-to_text n = digits_of-value (suc n) n [] (omega arith)

pub to_text-digits : (n : ℕ) → AllDigits (to_text n)
unfolding to_text
to_text-digits n = digits_of-digits (suc n) n [] tt

-- A number below 10 ^ (k + 1) takes between one and k + 1 digits.
pub length-to_text :
    (n k : ℕ) → n < 10 ^ suc k → (1 ≤ length (to_text n)) × (length (to_text n) ≤ suc k)
unfolding to_text
length-to_text n k h = omega (arith, digits_of-length (suc n) n k [] (omega arith) h)

lt_pow : (n : ℕ) → n < 10 ^ suc n
lt_pow zero = omega arith
lt_pow (suc n) = omega (arith, lt_pow n, pow-suc 10 (suc n))

pub to_text_nonempty : (n : ℕ) → 1 ≤ length (to_text n)
to_text_nonempty n = (length-to_text n n (lt_pow n)).0

-- Digits in front of something that is no digit are read up to there.
pub span_digits-append :
    (s rest : Text)
    → AllDigits s
    → span_digits rest ≡ ([], rest)
    → span_digits (s ++ rest) ≡ (s, rest)
unfolding span_digits
span_digits-append [] rest h e = e
span_digits-append (c ∷ s) rest h e = rw (span_digits-append s rest h.1 e, h.0)

mul_mono : (a b p : ℕ) → a ≤ b → a * p ≤ b * p
mul_mono a b p h = grind arith

digits_value-lt :
    (s : Text) (acc : ℕ) → AllDigits s → suc (digits_value acc s) ≤ suc acc * 10 ^ length s
unfolding digits_value
digits_value-lt [] acc h = omega arith
digits_value-lt (c ∷ s) acc h =
    let step : suc (acc * 10 + (c - 48)) * 10 ^ length s ≤ suc acc * 10 * 10 ^ length s =
      mul_mono _ _ (10 ^ length s) (ground arith) in
    rw (pow-suc 10 (length s)) (omega (arith, digits_value-lt s (acc * 10 + (c - 48)) h.1, step))

pub digits_value-lt_pow : (s : Text) → AllDigits s → digits_value 0 s < 10 ^ length s
digits_value-lt_pow s h = omega (arith, digits_value-lt s 0 h)
