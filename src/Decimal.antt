-- ===== src/Decimal.antt =====
-- Decimal texts: the parts of JavaScript's `BigInt`, `toString`, `padStart`, `padEnd`, `replace` and
-- `split` that the amount conversions use (stellar/src/guard/amount.ts, stellar/src/p2p/amount.ts),
-- and the shape that these conversions share, with the number of fraction digits as an argument.
pub mod Digits
pub mod Padding
pub mod Scaled
use stellar_voice_control_pr.Common.{
  ℕ, zero, suc, ◌+◌, ◌-◌, ◌*◌, ◌/◌, ◌%◌, ◌^◌, Bool, true, false, ◌&&◌, ◌==◌, leb, ltb, List, [],
  ◌∷◌, ◌++◌, length, if◌then◌else◌,
}
use stellar_voice_control_pr.Common.Text.{Text, span_digits}

-- `BigInt(digits)` and `Number(digits)`, from the number read so far.
unfoldable pub digits_value : ℕ → Text → ℕ
digits_value acc [] = acc
digits_value acc (c ∷ s) = digits_value (acc * 10 + (c - 48)) s

-- The digits of a number in front of a text; the fuel is above the number.
unfoldable pub digits_of : ℕ → ℕ → Text → Text
digits_of zero n acc = acc
digits_of (suc fuel) n acc =
    let more = digits_of fuel (n / 10) ((48 + n % 10) ∷ acc) in
    if ltb n 10 then (48 + n) ∷ acc else more

-- `n.toString()`
unfoldable pub to_text : ℕ → Text
unfolding digits_of
to_text n = digits_of (suc n) n []

unfoldable pub zeros : ℕ → Text
zeros zero = []
zeros (suc n) = 48 ∷ zeros n

-- `padStart(width, "0")`
unfoldable pub pad_start : ℕ → Text → Text
unfolding zeros
pad_start width s = zeros (width - length s) ++ s

-- `padEnd(width, "0")`
unfoldable pub pad_end : ℕ → Text → Text
unfolding zeros
pad_end width s = s ++ zeros (width - length s)

abbrev pub is_empty : Text → Bool
is_empty [] = true
is_empty (c ∷ s) = false

-- `replace(/0+$/, "")`
unfoldable pub strip_zeros : Text → Text
strip_zeros [] = []
strip_zeros (c ∷ s) = let rest = strip_zeros s in if c == 48 && is_empty rest then [] else c ∷ rest

-- `split(".")`, its first part and the rest behind the dot.
unfoldable pub before_dot : Text → Text
before_dot [] = []
before_dot (c ∷ s) = let rest = before_dot s in if c == b'.' then [] else c ∷ rest

unfoldable pub after_dot : Text → Text
after_dot [] = []
after_dot (c ∷ s) = if c == b'.' then s else after_dot s

-- `\d{1,most}$` behind the digits of a text.
abbrev fits : ℕ → Text → Bool
fits most ds = leb 1 (length ds) && leb (length ds) most

-- `(\.\d{1,places})?$`
unfoldable pub fraction_matches : ℕ → Text → Bool
unfolding span_digits
fraction_matches places [] = true
fraction_matches places (c ∷ s) =
    let (ds, rest) = span_digits s in (c == b'.' && fits places ds) && is_empty rest

-- `/^\d{1,12}(\.\d{1,places})?$/`; what follows the digits is no digit, so that the longest run of
-- digits decides.
unfoldable pub amount_matches : ℕ → Text → Bool
unfolding fraction_matches span_digits
amount_matches places s =
    let (ds, rest) = span_digits s in fits 12 ds && fraction_matches places rest

-- `BigInt(whole) * 10 ** places + BigInt(frac.padEnd(places, "0") || "0")`
unfoldable pub scaled_value : ℕ → Text → ℕ
unfolding digits_value before_dot after_dot pad_end
scaled_value places s =
    digits_value 0 (before_dot s) * 10 ^ places
    + digits_value 0 (pad_end places (before_dot (after_dot s)))

-- `frac ? `${whole}.${frac}` : `${whole}``
unfoldable pub join_parts : Text → Text → Text
join_parts whole [] = whole
join_parts whole (c ∷ s) = whole ++ (b'.' ∷ c ∷ s)

unfoldable pub scaled_text : ℕ → ℕ → Text
unfolding to_text strip_zeros pad_start join_parts
scaled_text places raw =
    join_parts (to_text (raw / 10 ^ places))
      (strip_zeros (pad_start places (to_text (raw % 10 ^ places))))
