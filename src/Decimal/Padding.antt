-- ===== src/Decimal/Padding.antt =====
-- Padding with zeros and stripping them.
use mathlib.Core.List.{append-nil}
use mathlib.Core.Path.{ap₂}
use native.Mathlib.Nat.{sub-zero, suc-sub-suc}
use stellar_voice_control_pr.Common.{
  ℕ, zero, suc, ◌-◌, ◌≤◌, ◌≡◌, refl, sym, ap, ◌∙◌, true, inl, inr, Bool-cases, [], ◌∷◌, ◌++◌,
  length, length-append, All-append, arith, ◌==◌, ◌&&◌,
}
use stellar_voice_control_pr.Common.Text.{Text, is_digit}
use stellar_voice_control_pr.Decimal.{
  digits_value, zeros, pad_start, pad_end, strip_zeros, is_empty,
}
use stellar_voice_control_pr.Decimal.Digits.{AllDigits}

length-zeros : (n : ℕ) → length (zeros n) ≡ n
unfolding zeros
length-zeros zero = refl
length-zeros (suc n) = ap suc (length-zeros n)

pub zeros-digits : (n : ℕ) (s : Text) → AllDigits s → AllDigits (zeros n ++ s)
unfolding zeros
zeros-digits zero s h = h
zeros-digits (suc n) s h = (refl, zeros-digits n s h)

zeros-value : (n : ℕ) (s : Text) → digits_value 0 (zeros n ++ s) ≡ digits_value 0 s
unfolding zeros digits_value
zeros-value zero s = refl
zeros-value (suc n) s = zeros-value n s

pub pad_start_lem :
    (width : ℕ) (s : Text)
    → AllDigits s
    → length s ≤ width
    → (length (pad_start width s) ≡ width)
      × (digits_value 0 (pad_start width s) ≡ digits_value 0 s)
      × AllDigits (pad_start width s)
unfolding pad_start
pad_start_lem width s h fit = (
  omega (arith, length-append {0} (zeros (width - length s)) s, length-zeros (width - length s)),
  zeros-value (width - length s) s,
  zeros-digits (width - length s) s h,
)

strip_zeros-length : (s : Text) → length (strip_zeros s) ≤ length s
unfolding strip_zeros
strip_zeros-length [] = omega arith
strip_zeros-length (c ∷ s) = ground (arith, strip_zeros-length s)

strip_zeros-digits : (s : Text) → AllDigits s → AllDigits (strip_zeros s)
unfolding strip_zeros
strip_zeros-digits [] h = tt
strip_zeros-digits (c ∷ s) h = ground (arith, strip_zeros-digits s h.1)

pub nil_of_empty : (s : Text) → is_empty s ≡ true → s ≡ []
nil_of_empty [] h = refl
nil_of_empty (c ∷ s) h = cc

-- Stripped zeros are put back by padding to the old length.
pad_end-strip_zeros : (s : Text) → pad_end (length s) (strip_zeros s) ≡ s
unfolding pad_end strip_zeros
pad_end-strip_zeros [] = refl
pad_end-strip_zeros (c ∷ s) = elim (Bool-cases (c == 48 && is_empty (strip_zeros s))) [
  | inl gone ↦
      rw (gone, sub-zero) (ap₂ ◌∷◌ (ground arith) (zeros_of_gone s gone (pad_end-strip_zeros s)))
  | inr stays ↦ rw (stays, suc-sub-suc) (ap (λ t. c ∷ t) (pad_end-strip_zeros s))
]
  where
    zeros_of_gone :
        (t : Text)
        → (c == 48 && is_empty (strip_zeros t)) ≡ true
        → pad_end (length t) (strip_zeros t) ≡ t
        → zeros (length t) ≡ t
    zeros_of_gone t g ih =
        let empty : strip_zeros t ≡ [] = nil_of_empty (strip_zeros t) (ground arith) in
        ap zeros (sym (sub-zero (length t))) ∙ (rw empty at ih)

pub strip_zeros_lem :
    (width : ℕ) (s : Text)
    → AllDigits s
    → length s ≡ width
    → (length (strip_zeros s) ≤ width)
      × (pad_end width (strip_zeros s) ≡ s)
      × AllDigits (strip_zeros s)
strip_zeros_lem width s h e = (
  omega (arith, strip_zeros-length s),
  ap (λ w. pad_end w (strip_zeros s)) (sym e) ∙ pad_end-strip_zeros s,
  strip_zeros-digits s h,
)

pub pad_end-digits :
    (width : ℕ) (s : Text)
    → AllDigits s
    → length s ≤ width
    → AllDigits (pad_end width s) × (length (pad_end width s) ≡ width)
unfolding pad_end
pad_end-digits width s h fit = (
  digits-append s (zeros (width - length s)) h
      (rw (append-nil (zeros (width - length s))) at (zeros-digits (width - length s) [] tt)),
  omega (arith, length-append {0} s (zeros (width - length s)), length-zeros (width - length s)),
)
  where
    digits-append : (s t : Text) → AllDigits s → AllDigits t → AllDigits (s ++ t)
    digits-append = All-append (λ c. is_digit c ≡ true)
