-- ===== src/Execution/Sha256/Digest.antt =====
-- The printing of agent/src/execution.ts, `sha256Hex`: the shape of a digest, and that the words are
-- read back from it.
use stellar_voice_control_pr.Common.{
  ℕ, zero, suc, ◌+◌, ◌-◌, ◌*◌, ◌/◌, ◌%◌, ◌≤◌, ◌<◌, ◌≡◌, refl, ap, ◌∙◌, ◌⊎◌, inl, inr, Bool-cases,
  List, [], ◌∷◌, ◌++◌, length, length-append, All, All-append, leb, ltb, lt→ltb, arith,
  if◌then◌else◌,
}
use stellar_voice_control_pr.Common.Text.{Text}
use stellar_voice_control_pr.Decimal.{zeros, pad_start}
use stellar_voice_control_pr.Execution.Sha256.{
  word_mod, Registers, process_block, process_blocks, initial_registers, hex_digit, to_hex,
  hex_word, hex_registers, registers_of, sha256_hex, take, drop, padded_length, pad_message,
}
use stellar_voice_control_pr.Execution.Sha256.Padding.{take-append, drop-append}

-- `[0-9a-f]`
abbrev pub IsHex : ℕ → Type 0
IsHex c = ((48 ≤ c) × (c ≤ 57)) ⊎ ((97 ≤ c) × (c ≤ 102))

abbrev pub digit_value : ℕ → ℕ
digit_value c = if leb c 57 then c - 48 else c - 87

abbrev pub hex_value : ℕ → Text → ℕ
hex_value acc [] = acc
hex_value acc (c ∷ s) = hex_value (acc * 16 + digit_value c) s

abbrev hex_bound : ℕ → ℕ
hex_bound zero = 1
hex_bound (suc n) = 16 * hex_bound n

digit_value-hex_digit : (n : ℕ) → n < 16 → digit_value (hex_digit n) ≡ n
unfolding hex_digit
digit_value-hex_digit n h = ground arith

hex_digit-IsHex : (n : ℕ) → n < 16 → IsHex (hex_digit n)
unfolding hex_digit
hex_digit-IsHex n h = elim (Bool-cases (ltb n 10)) [
  | inl e ↦ rw e (inl (omega arith, ground arith))
  | inr e ↦ rw e (inr (ground arith, omega arith))
]

to_hex-All : (fuel n : ℕ) (s : Text) → All IsHex s → All IsHex (to_hex fuel n s)
unfolding to_hex
to_hex-All zero n s h = h
to_hex-All (suc fuel) n s h = elim (Bool-cases (ltb n 16)) [
  | inl e ↦ rw e (hex_digit-IsHex n (ground arith), h)
  | inr e ↦ rw e (
      to_hex-All fuel (n / 16) (hex_digit (n % 16) ∷ s) (hex_digit-IsHex (n % 16) (omega arith), h))
]

length-to_hex : (fuel n : ℕ) (s : Text) → length (to_hex fuel n s) ≤ fuel + length s
unfolding to_hex
length-to_hex zero n s = omega arith
length-to_hex (suc fuel) n s = ground (arith, length-to_hex fuel (n / 16) (hex_digit (n % 16) ∷ s))

hex_value-to_hex :
    (fuel n : ℕ) (s : Text)
    → n < hex_bound (suc fuel)
    → hex_value 0 (to_hex (suc fuel) n s) ≡ hex_value n s
unfolding to_hex
hex_value-to_hex zero n s h =
    rw (lt→ltb n 16 (omega arith))
      (ap (λ v. hex_value v s) (omega (arith, digit_value-hex_digit n (omega arith))))
hex_value-to_hex (suc fuel) n s h =
    let last = hex_digit (n % 16) in
    elim (Bool-cases (ltb n 16)) [
      | inl e ↦
          rw e (ap (λ v. hex_value v s) (omega (arith, digit_value-hex_digit n (ground arith))))
      | inr e ↦ rw e (
          hex_value-to_hex fuel (n / 16) (last ∷ s) (omega arith)
          ∙ ap (λ v. hex_value v s) (omega (arith, digit_value-hex_digit (n % 16) (omega arith))))
    ]

hex_value-zeros : (n : ℕ) (s : Text) → hex_value 0 (zeros n ++ s) ≡ hex_value 0 s
unfolding zeros
hex_value-zeros zero s = refl
hex_value-zeros (suc n) s = hex_value-zeros n s

length-zeros : (n : ℕ) → length (zeros n) ≡ n
unfolding zeros
length-zeros zero = refl
length-zeros (suc n) = ap suc (length-zeros n)

zeros-All : (n : ℕ) → All IsHex (zeros n)
unfolding zeros
zeros-All zero = tt
zeros-All (suc n) = (inl (omega arith, omega arith), zeros-All n)

length-hex_word : (n : ℕ) → length (hex_word n) ≡ 8
unfolding hex_word pad_start
length-hex_word n =
    let s = to_hex 8 n [] in
    omega (
      arith,
      length-append {0} (zeros (8 - length s)) s,
      length-zeros (8 - length s),
      length-to_hex 8 n [],
    )

hex_word-All : (n : ℕ) → All IsHex (hex_word n)
unfolding hex_word pad_start
hex_word-All n =
    let s = to_hex 8 n [] in
    All-append IsHex (zeros (8 - length s)) s (zeros-All (8 - length s)) (to_hex-All 8 n [] tt)

pub hex_value-hex_word : (n : ℕ) → n < word_mod → hex_value 0 (hex_word n) ≡ n
unfolding hex_word pad_start
hex_value-hex_word n h =
    let s = to_hex 8 n [] in
    hex_value-zeros (8 - length s) s ∙ hex_value-to_hex 7 n [] (omega arith)

abbrev pub Fits : Registers → Type 0
Fits r =
    (r.a < word_mod)
    × (r.b < word_mod)
    × (r.c < word_mod)
    × (r.d < word_mod)
    × (r.e < word_mod)
    × (r.f < word_mod)
    × (r.g < word_mod)
    × (r.h < word_mod)

process_block-Fits : (block : List ℕ) (r : Registers) → Fits (process_block block r)
unfolding process_block
process_block-Fits block r = omega arith

process_blocks-Fits :
    (n : ℕ) (bytes : List ℕ) (r : Registers) → Fits r → Fits (process_blocks n bytes r)
unfolding process_blocks
process_blocks-Fits zero bytes r h = h
process_blocks-Fits (suc n) bytes r h =
    process_blocks-Fits n (drop 64 bytes) (process_block (take 64 bytes) r)
      (process_block-Fits (take 64 bytes) r)

registers_of-Fits : (bytes : List ℕ) → Fits (registers_of bytes)
unfolding registers_of
registers_of-Fits bytes =
    process_blocks-Fits (padded_length (length bytes) / 64) (pad_message bytes) initial_registers
      (omega arith)

-- The words of a digest.
unfoldable pub read_registers : Text → Registers
unfolding take drop
read_registers s = record {
  a = hex_value 0 (take 8 s);
  b = hex_value 0 (take 8 (drop 8 s));
  c = hex_value 0 (take 8 (drop 8 (drop 8 s)));
  d = hex_value 0 (take 8 (drop 8 (drop 8 (drop 8 s))));
  e = hex_value 0 (take 8 (drop 8 (drop 8 (drop 8 (drop 8 s)))));
  f = hex_value 0 (take 8 (drop 8 (drop 8 (drop 8 (drop 8 (drop 8 s))))));
  g = hex_value 0 (take 8 (drop 8 (drop 8 (drop 8 (drop 8 (drop 8 (drop 8 s)))))));
  h = hex_value 0 (drop 8 (drop 8 (drop 8 (drop 8 (drop 8 (drop 8 (drop 8 s)))))));
}

take_word : (n : ℕ) (s : Text) → take 8 (hex_word n ++ s) ≡ hex_word n
take_word n s = rw (← length-hex_word n) (take-append (hex_word n) s)

drop_word : (n : ℕ) (s : Text) → drop 8 (hex_word n ++ s) ≡ s
drop_word n s = rw (← length-hex_word n) (drop-append (hex_word n) s)

read_registers-hex_registers : (r : Registers) → Fits r → read_registers (hex_registers r) ≡ r
unfolding read_registers hex_registers
read_registers-hex_registers r h = simp (
  take_word,
  drop_word,
  hex_value-hex_word r.a h.0,
  hex_value-hex_word r.b h.1,
  hex_value-hex_word r.c h.2,
  hex_value-hex_word r.d h.3,
  hex_value-hex_word r.e h.4,
  hex_value-hex_word r.f h.5,
  hex_value-hex_word r.g h.6,
  hex_value-hex_word r.h h.7,
)

IsShape : ℕ → Text → Type 0
IsShape n s = (length s ≡ n) × All IsHex s

append-IsShape : (w n : ℕ) (s : Text) → IsShape n s → IsShape (8 + n) (hex_word w ++ s)
unfolding IsShape
append-IsShape w n s h = (
  omega (arith, length-append {0} (hex_word w) s, length-hex_word w),
  All-append IsHex (hex_word w) s (hex_word-All w) h.1,
)

-- A digest has 64 lowercase hexadecimal digits, and the eight words that the loop leaves are read
-- back from it, so that two texts with one digest leave the same words.
pub sha256_hex_shape :
    (bytes : List ℕ)
    → (length (sha256_hex bytes) ≡ 64)
      × All IsHex (sha256_hex bytes)
      × (read_registers (sha256_hex bytes) ≡ registers_of bytes)
unfolding sha256_hex hex_registers IsShape
sha256_hex_shape bytes =
    let r = registers_of bytes in
    let shape = append-IsShape r.a 56 _ (
      append-IsShape r.b 48 _ (
        append-IsShape r.c 40 _ (
          append-IsShape r.d 32 _ (
            append-IsShape r.e 24 _ (
              append-IsShape r.f 16 _ (
                append-IsShape r.g 8 (hex_word r.h) (length-hex_word r.h, hex_word-All r.h))))))) in
    (shape.0, shape.1, read_registers-hex_registers r (registers_of-Fits bytes))
