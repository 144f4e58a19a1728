-- ===== src/Anchor/Memo.antt =====
-- The memo of a withdrawal: `parseWithdrawMemo` of stellar/src/anchor/sep6.ts, on what `getTransaction`
-- reads, where a memo is a text. `TextEncoder` and `Buffer` are parameters: the length of a text in
-- bytes, and the hexadecimal text of what a base64 text encodes.
use text.Mathlib.Text.{◌==◌ as str_eq}
use stellar_voice_control_pr.Common.{
  ℕ, ◌+◌, ◌-◌, ◌^◌, ◌==◌, leb, ltb, Bool, false, ◌&&◌, ◌||◌, Option, none, some, [], ◌∷◌, String,
  length, map, every, Result, ok, err, ◌>>=◌, if◌then◌else◌,
}
use stellar_voice_control_pr.Common.Text.{Text, is_digit, present}
use stellar_voice_control_pr.Decimal.{digits_value, to_text}
use stellar_voice_control_pr.Anchor.{
  SessionFault, bad_memo, WithdrawMemo, MemoType, memo_text, memo_id, memo_hash,
}

-- `[0-9a-fA-F]`
abbrev pub is_hex_digit : ℕ → Bool
is_hex_digit c = is_digit c || (leb b'a' c && leb c b'f') || (leb b'A' c && leb c b'F')

-- `[A-Za-z0-9+/]`
abbrev is_base64_digit : ℕ → Bool
is_base64_digit c =
    is_digit c || (leb b'a' c && leb c b'z') || (leb b'A' c && leb c b'Z') || c == b'+' || c == b'/'

-- `/^[A-Za-z0-9+/]{43}=$/`, behind the digits that are still due.
unfoldable pub is_base64_key : ℕ → Text → Bool
is_base64_key left [] = false
is_base64_key left (c ∷ s) =
    let rest = is_base64_key (left - 1) s in
    if left == 0 then c == b'=' && length s == 0 else is_base64_digit c && rest

-- `toLowerCase` on a letter or a digit.
abbrev pub to_lower : ℕ → ℕ
to_lower c = if leb b'A' c && leb c b'Z' then c + 32 else c

-- An id: at most 20 digits, below 2 ^ 64.
unfoldable pub parse_id : Text → Result SessionFault WithdrawMemo
unfolding digits_value to_text
parse_id value =
    if every is_digit value
      && leb 1 (length value)
      && leb (length value) 20
      && ltb (digits_value 0 value) (2 ^ 64)
    then ok (record { memo_type = memo_id; value = to_text (digits_value 0 value) })
    else err bad_memo

module _ (byte_length : Text → ℕ) (hex_of_base64 : Text → Text) where
  -- A hash: 64 hexadecimal digits, or 32 bytes in base64.
  unfoldable pub parse_hash : Text → Result SessionFault WithdrawMemo
  unfolding is_base64_key
  parse_hash value =
      if length value == 64 && every is_hex_digit value
      then ok (record { memo_type = memo_hash; value = map to_lower value })
      else if is_base64_key 43 value && length (hex_of_base64 value) == 64
      then ok (record { memo_type = memo_hash; value = hex_of_base64 value })
      else err bad_memo

  unfoldable pub parse_typed : MemoType → Text → Result SessionFault WithdrawMemo
  unfolding parse_id parse_hash
  parse_typed memo_text value =
      if ltb 28 (byte_length value)
      then err bad_memo
      else ok (record { memo_type = memo_text; value = value })
  parse_typed memo_id value = parse_id value
  parse_typed memo_hash value = parse_hash value

  -- The type that a name stands for.
  unfoldable pub memo_type_of : Option String → Option MemoType
  memo_type_of none = none
  memo_type_of (some name) =
      if str_eq name "text"
      then some memo_text
      else if str_eq name "id"
      then some memo_id
      else if str_eq name "hash"
      then some memo_hash
      else none

  -- A memo text that is there.
  unfoldable pub parse_present : Text → Option String → Result SessionFault (Option WithdrawMemo)
  unfolding parse_typed memo_type_of
  parse_present value memo_type = elim (memo_type_of memo_type) [
    | none ↦ err bad_memo
    | some t ↦ parse_typed t value >>= λ memo. ok (some memo)
  ]

  -- `parseWithdrawMemo`
  unfoldable pub parse_withdraw_memo :
      Option Text → Option String → Result SessionFault (Option WithdrawMemo)
  unfolding parse_present
  parse_withdraw_memo none memo_type = elim (present memo_type) [
    | none ↦ ok none
    | some _ ↦ err bad_memo
  ]
  parse_withdraw_memo (some []) memo_type = elim (present memo_type) [
    | none ↦ ok none
    | some _ ↦ err bad_memo
  ]
  parse_withdraw_memo (some (c ∷ s)) memo_type = parse_present (c ∷ s) memo_type
