-- ===== src/Execution/Sha256/Padding.antt =====
-- The padding of agent/src/execution.ts, `sha256Hex`.
use stellar_voice_control_pr.Common.{
  ℕ, zero, suc, ◌+◌, ◌-◌, ◌*◌, ◌/◌, ◌%◌, ◌<◌, ◌≡◌, refl, ap, sym, List, [], ◌∷◌, ◌++◌, append_assoc,
  length, length-append, arith, All, All-append, ◌^◌,
}
use stellar_voice_control_pr.Execution.Sha256.{
  word_mod, be_bytes, zero_bytes, padded_length, pad_message, take, drop,
}

length-zero_bytes : (n : ℕ) → length (zero_bytes n) ≡ n
unfolding zero_bytes
length-zero_bytes zero = refl
length-zero_bytes (suc n) = ap suc (length-zero_bytes n)

pub take-append : (xs ys : List ℕ) → take (length xs) (xs ++ ys) ≡ xs
unfolding take
take-append [] ys = refl
take-append (x ∷ xs) ys = ap (λ t. x ∷ t) (take-append xs ys)

pub drop-append : (xs ys : List ℕ) → drop (length xs) (xs ++ ys) ≡ ys
unfolding drop
drop-append [] ys = refl
drop-append (x ∷ xs) ys = drop-append xs ys

-- Big-endian bytes as a number.
abbrev pub be_value : ℕ → List ℕ → ℕ
be_value acc [] = acc
be_value acc (b ∷ bytes) = be_value (acc * 256 + b) bytes

be_value-length_bytes :
    (n : ℕ)
    → n < word_mod * word_mod
    → be_value 0 (be_bytes (n / word_mod) ++ be_bytes (n % word_mod)) ≡ n
unfolding be_bytes
be_value-length_bytes n h = omega arith

-- The buffer without its last eight bytes.
abbrev head_of : List ℕ → List ℕ
head_of bytes = bytes ++ 0x80 ∷ zero_bytes (padded_length (length bytes) - length bytes - 9)

abbrev tail_of : List ℕ → List ℕ
tail_of bytes = be_bytes (length bytes * 8 / word_mod) ++ be_bytes (length bytes * 8 % word_mod)

pad_message-append : (bytes : List ℕ) → pad_message bytes ≡ head_of bytes ++ tail_of bytes
unfolding pad_message
pad_message-append bytes = sym (append_assoc bytes _ (tail_of bytes))

length-head_of : (bytes : List ℕ) → length (head_of bytes) ≡ padded_length (length bytes) - 8
length-head_of bytes =
    let n = length bytes in
    omega (
      arith,
      length-append {0} bytes (0x80 ∷ zero_bytes (padded_length n - n - 9)),
      length-zero_bytes (padded_length n - n - 9),
    )

length-tail_of : (bytes : List ℕ) → length (tail_of bytes) ≡ 8
unfolding be_bytes
length-tail_of bytes = refl

pub length-pad_message :
    (bytes : List ℕ) → length (pad_message bytes) ≡ padded_length (length bytes)
length-pad_message bytes = omega (
  arith,
  ap length (pad_message-append bytes),
  length-append {0} (head_of bytes) (tail_of bytes),
  length-head_of bytes,
  length-tail_of bytes,
)

-- The padding of FIPS 180-4: behind the message the byte 0x80, fewer than 64 zeros, and the length in
-- bits as eight bytes, the highest first; the whole is a number of blocks of 64 bytes.
abbrev pub IsPadded : List ℕ → List ℕ → Type 0
IsPadded bytes padded =
    (zeros : List ℕ) × (tail : List ℕ) × (padded ≡ bytes ++ 0x80 ∷ (zeros ++ tail))
    × All (λ b. b ≡ 0) zeros
    × (length zeros < 64)
    × (length tail ≡ 8)
    × All (λ b. b < 256) tail
    × (be_value 0 tail ≡ length bytes * 8)
    × (length padded % 64 ≡ 0)

zero_bytes-All : (n : ℕ) → All (λ b. b ≡ 0) (zero_bytes n)
unfolding zero_bytes
zero_bytes-All zero = tt
zero_bytes-All (suc n) = (refl, zero_bytes-All n)

be_bytes-All : (value : ℕ) → All (λ b. b < 256) (be_bytes value)
unfolding be_bytes
be_bytes-All value = (omega arith, (omega arith, (omega arith, (omega arith, tt))))

tail_of-All : (bytes : List ℕ) → All (λ b. b < 256) (tail_of bytes)
tail_of-All bytes =
    let bits = length bytes * 8 in
    All-append (λ b. b < 256) (be_bytes (bits / word_mod)) (be_bytes (bits % word_mod))
      (be_bytes-All (bits / word_mod)) (be_bytes-All (bits % word_mod))

-- Below 2 ^ 31 - 72 bytes, where the 32-bit `&` of the source is exact, the buffer of a message is
-- its padding by FIPS 180-4: the message, the byte 0x80, fewer than 64 zeros, and the length in bits
-- as eight bytes, with a number of whole blocks in all.
pub pad_message-IsPadded :
    (bytes : List ℕ) → length bytes + 72 < 2 ^ 31 → IsPadded bytes (pad_message bytes)
unfolding pad_message
pad_message-IsPadded bytes h =
    let n = length bytes in
    let zeros = padded_length n - n - 9 in
    (
      zero_bytes zeros,
      tail_of bytes,
      refl,
      zero_bytes-All zeros,
      omega (arith, length-zero_bytes zeros),
      length-tail_of bytes,
      tail_of-All bytes,
      be_value-length_bytes (n * 8) (omega arith),
      omega (arith, length-pad_message bytes),
    )
