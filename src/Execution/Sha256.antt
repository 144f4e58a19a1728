-- ===== src/Execution/Sha256.antt =====
-- `sha256Hex` of agent/src/execution.ts, on the bytes that `TextEncoder` gives. A number stands for
-- a 32-bit word; `>>> 0` is the remainder by 2 ^ 32, and `~e` is 2 ^ 32 - 1 - e.
pub mod Padding
pub mod Digest
use Prim.Native.Nat.{bit_and, bit_or, bit_xor}
use stellar_voice_control_pr.Common.{
  ℕ, zero, suc, ◌+◌, ◌-◌, ◌*◌, ◌/◌, ◌%◌, ◌^◌, List, [], ◌∷◌, ◌++◌, length, Bool, ltb, if◌then◌else◌,
}
use stellar_voice_control_pr.Common.Text.{Text}
use stellar_voice_control_pr.Decimal.{pad_start}

abbrev pub word_mod : ℕ
word_mod = 0x1_0000_0000

abbrev sha256_k : List ℕ
sha256_k =
    0x428a2f98 ∷ 0x71374491 ∷ 0xb5c0fbcf ∷ 0xe9b5dba5 ∷ 0x3956c25b ∷ 0x59f111f1 ∷ 0x923f82a4
    ∷ 0xab1c5ed5 ∷ 0xd807aa98 ∷ 0x12835b01 ∷ 0x243185be ∷ 0x550c7dc3 ∷ 0x72be5d74 ∷ 0x80deb1fe
    ∷ 0x9bdc06a7 ∷ 0xc19bf174 ∷ 0xe49b69c1 ∷ 0xefbe4786 ∷ 0x0fc19dc6 ∷ 0x240ca1cc ∷ 0x2de92c6f
    ∷ 0x4a7484aa ∷ 0x5cb0a9dc ∷ 0x76f988da ∷ 0x983e5152 ∷ 0xa831c66d ∷ 0xb00327c8 ∷ 0xbf597fc7
    ∷ 0xc6e00bf3 ∷ 0xd5a79147 ∷ 0x06ca6351 ∷ 0x14292967 ∷ 0x27b70a85 ∷ 0x2e1b2138 ∷ 0x4d2c6dfc
    ∷ 0x53380d13 ∷ 0x650a7354 ∷ 0x766a0abb ∷ 0x81c2c92e ∷ 0x92722c85 ∷ 0xa2bfe8a1 ∷ 0xa81a664b
    ∷ 0xc24b8b70 ∷ 0xc76c51a3 ∷ 0xd192e819 ∷ 0xd6990624 ∷ 0xf40e3585 ∷ 0x106aa070 ∷ 0x19a4c116
    ∷ 0x1e376c08 ∷ 0x2748774c ∷ 0x34b0bcb5 ∷ 0x391c0cb3 ∷ 0x4ed8aa4a ∷ 0x5b9cca4f ∷ 0x682e6ff3
    ∷ 0x748f82ee ∷ 0x78a5636f ∷ 0x84c87814 ∷ 0x8cc70208 ∷ 0x90befffa ∷ 0xa4506ceb ∷ 0xbef9a3f7
    ∷ 0xc67178f2 ∷ []

-- `w[i] ?? 0`
abbrev get_or_zero : List ℕ → ℕ → ℕ
get_or_zero [] i = 0
get_or_zero (x ∷ xs) zero = x
get_or_zero (x ∷ xs) (suc i) = get_or_zero xs i

-- `rotr`
unfoldable pub rotr : ℕ → ℕ → ℕ
rotr value bits = bit_or (value / 2 ^ bits) (value * 2 ^ (32 - bits) % word_mod)

-- `view.setUint32(…, value, false)`: the four bytes, the highest first.
unfoldable pub be_bytes : ℕ → List ℕ
be_bytes value =
    (value / 0x100_0000 % 256) ∷ (value / 0x1_0000 % 256) ∷ (value / 256 % 256) ∷ (value % 256) ∷ []

unfoldable pub zero_bytes : ℕ → List ℕ
zero_bytes zero = []
zero_bytes (suc n) = 0 ∷ zero_bytes n

-- `(bytes.length + 9 + 63) & ~63`; `&` is a 32-bit operation, so this is the length below
-- 2 ^ 31 - 72 bytes, and from there the source throws on a negative length.
abbrev pub padded_length : ℕ → ℕ
padded_length n = (n + 9 + 63) / 64 * 64

-- The buffer: the bytes, 0x80, zeros, and the length in bits as two words.
unfoldable pub pad_message : List ℕ → List ℕ
unfolding zero_bytes be_bytes
pad_message bytes =
    let n = length bytes in
    bytes
    ++ (0x80
        ∷ (zero_bytes (padded_length n - n - 9)
            ++ (be_bytes (n * 8 / word_mod) ++ be_bytes (n * 8 % word_mod))))

-- `view.getUint32(offset + i * 4, false)` for the words of a block; what is left of it ends it.
unfoldable pub read_words : List ℕ → List ℕ
read_words (a ∷ b ∷ c ∷ d ∷ bytes) =
    (a * 0x100_0000 + b * 0x1_0000 + c * 256 + d) ∷ read_words bytes
read_words bytes = []

-- One round of the loop that extends `w`.
abbrev next_word : List ℕ → ℕ → ℕ
next_word w i =
    let x = get_or_zero w (i - 15) in
    let y = get_or_zero w (i - 2) in
    let s0 = bit_xor (bit_xor (rotr x 7) (rotr x 18)) (x / 2 ^ 3) in
    let s1 = bit_xor (bit_xor (rotr y 17) (rotr y 19)) (y / 2 ^ 10) in
    (get_or_zero w (i - 16) + s0 + get_or_zero w (i - 7) + s1) % word_mod

-- `for (let i = 16; i < 64; i++)`, on the rounds left.
unfoldable pub extend_words : ℕ → ℕ → List ℕ → List ℕ
unfolding rotr
extend_words zero i w = w
extend_words (suc left) i w = extend_words left (i + 1) (w ++ next_word w i ∷ [])

pub record Registers : Type 0 where
  pub a : ℕ
  pub b : ℕ
  pub c : ℕ
  pub d : ℕ
  pub e : ℕ
  pub f : ℕ
  pub g : ℕ
  pub h : ℕ

-- One round of the compression, with `SHA256_K[i]` and `w[i]`.
unfoldable pub round : ℕ → ℕ → Registers → Registers
unfolding rotr
round k w r =
    let s1 = bit_xor (bit_xor (rotr r.e 6) (rotr r.e 11)) (rotr r.e 25) in
    let ch = bit_xor (bit_and r.e r.f) (bit_and (0xffff_ffff - r.e) r.g) in
    let temp1 = (r.h + s1 + ch + k + w) % word_mod in
    let s0 = bit_xor (bit_xor (rotr r.a 2) (rotr r.a 13)) (rotr r.a 22) in
    let maj = bit_xor (bit_xor (bit_and r.a r.b) (bit_and r.a r.c)) (bit_and r.b r.c) in
    let temp2 = (s0 + maj) % word_mod in
    record {
      a = (temp1 + temp2) % word_mod;
      b = r.a;
      c = r.b;
      d = r.c;
      e = (r.d + temp1) % word_mod;
      f = r.e;
      g = r.f;
      h = r.g;
    }

unfoldable pub rounds : List ℕ → List ℕ → Registers → Registers
unfolding round
rounds [] ws r = r
rounds (k ∷ ks) [] r = rounds ks [] (round k 0 r)
rounds (k ∷ ks) (w ∷ ws) r = rounds ks ws (round k w r)

abbrev add_words : ℕ → ℕ → ℕ
add_words x y = (x + y) % word_mod

-- One block of 64 bytes.
unfoldable pub process_block : List ℕ → Registers → Registers
unfolding rounds read_words extend_words
process_block block h =
    let r = rounds sha256_k (extend_words 48 16 (read_words block)) h in
    record {
      a = add_words h.a r.a;
      b = add_words h.b r.b;
      c = add_words h.c r.c;
      d = add_words h.d r.d;
      e = add_words h.e r.e;
      f = add_words h.f r.f;
      g = add_words h.g r.g;
      h = add_words h.h r.h;
    }

unfoldable pub take : ℕ → List ℕ → List ℕ
take zero xs = []
take (suc n) [] = []
take (suc n) (x ∷ xs) = x ∷ take n xs

unfoldable pub drop : ℕ → List ℕ → List ℕ
drop zero xs = xs
drop (suc n) [] = []
drop (suc n) (x ∷ xs) = drop n xs

-- `for (let offset = 0; offset < paddedLength; offset += 64)`, on the blocks left.
unfoldable pub process_blocks : ℕ → List ℕ → Registers → Registers
unfolding process_block take drop
process_blocks zero bytes h = h
process_blocks (suc left) bytes h =
    process_blocks left (drop 64 bytes) (process_block (take 64 bytes) h)

abbrev initial_registers : Registers
initial_registers = record {
  a = 0x6a09e667;
  b = 0xbb67ae85;
  c = 0x3c6ef372;
  d = 0xa54ff53a;
  e = 0x510e527f;
  f = 0x9b05688c;
  g = 0x1f83d9ab;
  h = 0x5be0cd19;
}

-- The digit of `toString(16)`
unfoldable pub hex_digit : ℕ → ℕ
hex_digit n = if ltb n 10 then 48 + n else 87 + n

-- `word.toString(16)`, with fuel for its digits; a zero has one.
unfoldable pub to_hex : ℕ → ℕ → Text → Text
unfolding hex_digit
to_hex zero n s = s
to_hex (suc fuel) n s =
    let rest = to_hex fuel (n / 16) (hex_digit (n % 16) ∷ s) in
    if ltb n 16 then hex_digit n ∷ s else rest

-- `word.toString(16).padStart(8, "0")`
unfoldable pub hex_word : ℕ → Text
unfolding to_hex pad_start
hex_word word = pad_start 8 (to_hex 8 word [])

-- The words of the last line, in their order, joined.
unfoldable pub hex_registers : Registers → Text
hex_registers r =
    hex_word r.a
    ++ (hex_word r.b
        ++ (hex_word r.c
            ++ (hex_word r.d
                ++ (hex_word r.e ++ (hex_word r.f ++ (hex_word r.g ++ hex_word r.h))))))

-- `h0` to `h7` behind the loop.
unfoldable pub registers_of : List ℕ → Registers
unfolding pad_message process_blocks
registers_of bytes =
    process_blocks (padded_length (length bytes) / 64) (pad_message bytes) initial_registers

-- `sha256Hex`
unfoldable pub sha256_hex : List ℕ → Text
unfolding registers_of hex_registers hex_word
sha256_hex bytes = hex_registers (registers_of bytes)
