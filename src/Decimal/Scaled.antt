-- ===== src/Decimal/Scaled.antt =====
-- The shared shape of the amount conversions: an accepted text is a whole part and a fraction, its
-- value is bounded, and the text of an amount reads back as that amount.
use mathlib.Core.List.{append-nil}
use native.Mathlib.Nat.{pow-le-pow_right, pow-suc, div-lt_iff_lt-mul, mod-lt, div-add-mod'}
use stellar_voice_control_pr.Common.{
  ℕ, zero, suc, ◌+◌, ◌*◌, ◌/◌, ◌%◌, ◌^◌, ◌≤◌, ◌<◌, ◌≡◌, refl, ap, ◌∙◌, true, ◌&&◌, inl, inr,
  Bool-cases, [], ◌∷◌, ◌++◌, length, arith,
}
use stellar_voice_control_pr.Common.Text.{Text, is_digit, span_digits}
use stellar_voice_control_pr.Decimal.{
  digits_value, to_text, pad_start, pad_end, strip_zeros, before_dot, after_dot, fits,
  amount_matches, fraction_matches, scaled_value, join_parts, scaled_text,
}
use stellar_voice_control_pr.Decimal.Digits.{
  AllDigits, digits_value-to_text, to_text-digits, length-to_text, span_digits-append,
  digits_value-lt_pow,
}
use stellar_voice_control_pr.Decimal.Padding.{
  nil_of_empty, pad_start_lem, strip_zeros_lem, pad_end-digits,
}

before_dot-digits : (s : Text) → AllDigits s → before_dot s ≡ s
unfolding before_dot
before_dot-digits [] h = refl
before_dot-digits (c ∷ s) h = ground (arith, before_dot-digits s h.1)

before_dot-append : (s t : Text) → AllDigits s → before_dot (s ++ b'.' ∷ t) ≡ s
unfolding before_dot
before_dot-append [] t h = refl
before_dot-append (c ∷ s) t h = ground (arith, before_dot-append s t h.1)

after_dot-digits : (s : Text) → AllDigits s → after_dot s ≡ []
unfolding after_dot
after_dot-digits [] h = refl
after_dot-digits (c ∷ s) h = ground (arith, after_dot-digits s h.1)

after_dot-append : (s t : Text) → AllDigits s → after_dot (s ++ b'.' ∷ t) ≡ t
unfolding after_dot
after_dot-append [] t h = refl
after_dot-append (c ∷ s) t h = ground (arith, after_dot-append s t h.1)

span_digits_all : (s : Text) → AllDigits s → span_digits s ≡ (s, [])
unfolding span_digits
span_digits_all [] h = refl
span_digits_all (c ∷ s) h = rw (span_digits_all s h.1, h.0)

-- A whole part and a fraction, joined: what `split(".")` gives back.
join_parts-whole : (w f : Text) → AllDigits w → before_dot (join_parts w f) ≡ w
unfolding join_parts
join_parts-whole w [] dw = before_dot-digits w dw
join_parts-whole w (c ∷ f) dw = before_dot-append w (c ∷ f) dw

join_parts-fraction :
    (w f : Text) → AllDigits w → AllDigits f → before_dot (after_dot (join_parts w f)) ≡ f
unfolding join_parts before_dot
join_parts-fraction w [] dw df = ap before_dot (after_dot-digits w dw)
join_parts-fraction w (c ∷ f) dw df =
    ap before_dot (after_dot-append w (c ∷ f) dw) ∙ before_dot-digits (c ∷ f) df

join_parts-matches :
    (p : ℕ) (w f : Text)
    → AllDigits w
    → AllDigits f
    → (1 ≤ length w) × (length w ≤ 12)
    → length f ≤ p
    → amount_matches p (join_parts w f) ≡ true
unfolding amount_matches join_parts fraction_matches span_digits
join_parts-matches p w [] dw df hw hf = rw (span_digits_all w dw) (ground arith)
join_parts-matches p w (c ∷ f) dw df hw hf =
    let split : span_digits (w ++ b'.' ∷ c ∷ f) ≡ (w, b'.' ∷ c ∷ f) =
      span_digits-append w (b'.' ∷ c ∷ f) dw refl in
    rw (split, span_digits_all f df.1, df.0) (ground arith)

pub scaled_value-join_parts :
    (p : ℕ) (w f : Text)
    → AllDigits w
    → AllDigits f
    → scaled_value p (join_parts w f) ≡ digits_value 0 w * 10 ^ p + digits_value 0 (pad_end p f)
unfolding scaled_value
scaled_value-join_parts p w f dw df =
    rw (join_parts-whole w f dw, join_parts-fraction w f dw df) refl

-- An accepted text is a whole part and a fraction, joined.
abbrev IsJoined : ℕ → Text → Type 0
IsJoined p s =
    (w : Text) × (f : Text) × (s ≡ join_parts w f)
    × AllDigits w
    × AllDigits f
    × (length w ≤ 12)
    × (length f ≤ p)

span_digits-splits :
    (s : Text) → (s ≡ (span_digits s).0 ++ (span_digits s).1) × AllDigits (span_digits s).0
unfolding span_digits
span_digits-splits [] = (refl, tt)
span_digits-splits (c ∷ s) = elim (Bool-cases (is_digit c)) [
  | inl digit ↦
      let (split, ds) = span_digits-splits s in rw digit (ap (λ t. c ∷ t) split, (digit, ds))
  | inr other ↦ rw other (refl, tt)
]

IsJoined-fraction :
    (p : ℕ) (s w ds : Text)
    → s ≡ w ++ b'.' ∷ ds
    → AllDigits w
    → AllDigits ds
    → length w ≤ 12
    → fits p ds ≡ true
    → IsJoined p s
unfolding join_parts
IsJoined-fraction p s w [] e dw dd hw h = absurd (ground arith)
IsJoined-fraction p s w (d ∷ ds) e dw dd hw h = (w, d ∷ ds, e, dw, dd, hw, ground arith)

IsJoined-of :
    (p : ℕ) (s w rest : Text)
    → s ≡ w ++ rest
    → AllDigits w
    → (fits 12 w && fraction_matches p rest) ≡ true
    → IsJoined p s
unfolding fraction_matches join_parts
IsJoined-of p s w [] e dw h = (w, [], e ∙ append-nil w, dw, tt, ground arith, omega arith)
IsJoined-of p s w (c ∷ t) e dw h =
    let (split, dd) = span_digits-splits t in
    let none_left : (span_digits t).1 ≡ [] = nil_of_empty (span_digits t).1 (ground arith) in
    let dot : c ≡ b'.' = ground arith in
    let tail : t ≡ (span_digits t).0 = split ∙ rw none_left (append-nil _) in
    IsJoined-fraction p s w (span_digits t).0
      (e ∙ ap (λ u. w ++ u) (ap (λ d. d ∷ t) dot ∙ ap (λ u. b'.' ∷ u) tail)) dw dd (ground arith)
      (ground arith)

matches-IsJoined : (p : ℕ) (s : Text) → amount_matches p s ≡ true → IsJoined p s
unfolding amount_matches
matches-IsJoined p s h =
    let (split, ds) = span_digits-splits s in
    IsJoined-of p s (span_digits s).0 (span_digits s).1 split ds h

pow_positive : (k : ℕ) → 0 < 10 ^ k
pow_positive zero = omega arith
pow_positive (suc k) = omega (arith, pow_positive k, pow-suc 10 k)

join_lt : (a b m p : ℕ) → a < m → b < p → a * p + b < m * p
join_lt a b m p ha hb = grind arith

pub scaled_value-lt :
    (p : ℕ) (s : Text) → amount_matches p s ≡ true → scaled_value p s < 10 ^ 12 * 10 ^ p
scaled_value-lt p s h =
    let (w, f, e, dw, df, hw, hf) = matches-IsJoined p s h in
    let (dp, lp) = pad_end-digits p f df hf in
    let whole : digits_value 0 w < 10 ^ 12 =
      omega (arith, digits_value-lt_pow w dw, pow-le-pow_right {n = 10} (omega arith) hw) in
    let fraction : digits_value 0 (pad_end p f) < 10 ^ p =
      rw lp at (digits_value-lt_pow (pad_end p f) dp) in
    rw (e, scaled_value-join_parts p w f dw df) (join_lt _ _ _ _ whole fraction)

module _ (k whole part : ℕ) (hw : whole < 10 ^ 12) (hp : part < 10 ^ suc k) where
  printed : Text
  printed = join_parts (to_text whole) (strip_zeros (pad_start (suc k) (to_text part)))

  scaled_pieces :
      (amount_matches (suc k) printed ≡ true)
      × (scaled_value (suc k) printed ≡ whole * 10 ^ suc k + part)
  unfolding printed
  scaled_pieces =
      let (pl, pv, pd) =
        pad_start_lem (suc k) (to_text part) (to_text-digits part) (length-to_text part k hp).1 in
      let (sl, sp, sd) = strip_zeros_lem (suc k) (pad_start (suc k) (to_text part)) pd pl in
      (
        join_parts-matches (suc k) _ _ (to_text-digits whole) sd (length-to_text whole 11 hw) sl,
        (scaled_value-join_parts (suc k) _ _ (to_text-digits whole) sd
            ∙ rw (digits_value-to_text whole, sp, pv, digits_value-to_text part) refl),
      )

-- The text of an amount is accepted, and its value is that amount.
pub scaled_text_lem :
    (k raw : ℕ)
    → raw < 10 ^ 12 * 10 ^ suc k
    → (amount_matches (suc k) (scaled_text (suc k) raw) ≡ true)
      × (scaled_value (suc k) (scaled_text (suc k) raw) ≡ raw)
unfolding scaled_text printed
scaled_text_lem k raw h =
    let positive : 0 < 10 ^ suc k = pow_positive (suc k) in
    let (m, v) =
      scaled_pieces k (raw / 10 ^ suc k) (raw % 10 ^ suc k) ((div-lt_iff_lt-mul positive).1 h)
        (mod-lt raw positive) in
    (m, v ∙ div-add-mod' raw (10 ^ suc k))
