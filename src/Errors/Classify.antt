-- ===== src/Errors/Classify.antt =====
-- What the classification of an error text says (`classifyContractText`, `classifyThrown`,
-- `firstLine` of stellar/src/keeper/errors.ts).
use stellar_voice_control_pr.Common.{
  ℕ, zero, suc, ◌≤◌, ◌<◌, ◌≡◌, refl, ◌≢◌, ◌↔◌, ◌⊎◌, inl, inr, Bool-cases, Option, none, some, List,
  [], ◌∷◌, ◌++◌, length, length-append, All, All-append, arith, ltb,
}
use stellar_voice_control_pr.Common.Text.{Text, codes, span_digits, strip_prefix, skip_spaces}
use stellar_voice_control_pr.Decimal.{to_text, digits_value}
use stellar_voice_control_pr.Decimal.Digits.{
  AllDigits, to_text-digits, digits_value-to_text, span_digits-append, to_text_nonempty,
}
use stellar_voice_control_pr.Errors.{
  ErrorKind, ErrorName, named, contract_error, unknown_contract, GuardErrorDef, error_def, cut_line,
  slice_to, first_line, match_here, find_code, first_match, classify_plain, classify_contract_text,
  classify_thrown, thrown_message, Thrown,
}

-- A contract code has an entry exactly if it is one of the token's 2 to 15 or the guard's 100 to
-- 116.
error_def_known :
    (code : ℕ)
    → (error_def code ≡ none) ↔ ((code < 2) ⊎ ((15 < code) × (code < 100)) ⊎ (116 < code))
unfolding error_def
error_def_known code = ground arith

slice_to-length : (n : ℕ) (s : Text) → length (slice_to n s) ≤ n
unfolding slice_to
slice_to-length zero s = omega arith
slice_to-length (suc n) [] = omega arith
slice_to-length (suc n) (c ∷ s) = omega (arith, slice_to-length n s)

first_line-length : (s : Text) → length (first_line s) ≤ 300
unfolding first_line
first_line-length s = elim (Bool-cases (ltb 300 (length (cut_line s)))) [
  | inl long ↦ rw long (
      omega (
        arith,
        length-append {0} (slice_to 297 (cut_line s)) (codes "..."),
        slice_to-length 297 (cut_line s),
      ))
  | inr short ↦ rw short (ground arith)
]

-- No line feed in a text.
abbrev pub OneLine : Text → Type 0
OneLine = All (λ c. c ≢ 10)

cut_line-OneLine : (s : Text) → OneLine (cut_line s)
unfolding cut_line
cut_line-OneLine [] = tt
cut_line-OneLine (c ∷ []) = ground arith
cut_line-OneLine (c ∷ d ∷ s) = ground (arith, cut_line-OneLine (d ∷ s))

slice_to-OneLine : (n : ℕ) (s : Text) → OneLine s → OneLine (slice_to n s)
unfolding slice_to
slice_to-OneLine zero s h = tt
slice_to-OneLine (suc n) [] h = tt
slice_to-OneLine (suc n) (c ∷ s) h = (h.0, slice_to-OneLine n s h.1)

first_line-OneLine : (s : Text) → OneLine (first_line s)
unfolding first_line
first_line-OneLine s = elim (Bool-cases (ltb 300 (length (cut_line s)))) [
  | inl long ↦ rw long (
      All-append (λ c. c ≢ 10) (slice_to 297 (cut_line s)) (codes "...")
        (slice_to-OneLine 297 (cut_line s) (cut_line-OneLine s)) (ground arith))
  | inr short ↦ rw short (cut_line-OneLine s)
]

classify_plain-message : (s : Text) → (classify_plain s).message ≡ first_line s
unfolding classify_plain
classify_plain-message s = ground arith

pub classify_contract_text-message :
    (s : Text) (table : Option (List (ℕ × GuardErrorDef)))
    → (classify_contract_text s table).message ≡ first_line s
unfolding classify_contract_text
classify_contract_text-message s table = ground (arith, classify_plain-message s)

classify_thrown-message : (e : Thrown) → (classify_thrown e).message ≡ first_line (thrown_message e)
unfolding classify_thrown
classify_thrown-message e = ground (arith, classify_contract_text-message (thrown_message e) none)

-- Whatever is thrown, the message that is kept of it is one line of at most 300 code units.
classify_thrown_message_bounds :
    (e : Thrown) → OneLine (classify_thrown e).message × (length (classify_thrown e).message ≤ 300)
classify_thrown_message_bounds e =
    rw (classify_thrown-message e)
      (first_line-OneLine (thrown_message e), first_line-length (thrown_message e))

abbrev pub kind_of : Option GuardErrorDef → ErrorKind
kind_of none = unknown_contract
kind_of (some d) = d.kind

abbrev pub name_of : ℕ → Option GuardErrorDef → ErrorName
name_of code none = contract_error code
name_of code (some d) = named d.name

find_code-host_error :
    (ds rest : Text)
    → AllDigits ds
    → 1 ≤ length ds
    → find_code (codes "HostError: Error(Contract, #" ++ (ds ++ b')' ∷ rest)) ≡ some ds
unfolding find_code first_match match_here strip_prefix skip_spaces span_digits
find_code-host_error [] rest h n = absurd (omega arith)
find_code-host_error (c ∷ ds) rest h n =
    let split : span_digits (ds ++ b')' ∷ rest) ≡ (ds, b')' ∷ rest) =
      span_digits-append ds (b')' ∷ rest) h.1 refl in
    rw (split, h.0) refl

classify_of_code :
    (text ds : Text)
    → find_code text ≡ some ds
    → let c = classify_contract_text text none in
      let code = digits_value 0 ds in
      (c.code ≡ some code)
      × (c.kind ≡ kind_of (error_def code))
      × (c.name ≡ name_of code (error_def code))
unfolding classify_contract_text
classify_of_code text ds h = ground arith

-- The text that the host prints for a contract error is classified by its code, whatever follows
-- it: the code is read back, the kind and the name are those of the code's entry, or unknown with
-- the code in the name where it has none.
pub host_error_is_classified :
    (code : ℕ) (rest : Text)
    → let c =
        classify_contract_text
          (codes "HostError: Error(Contract, #" ++ (to_text code ++ b')' ∷ rest))
          none in
      (c.code ≡ some code)
      × (c.kind ≡ kind_of (error_def code))
      × (c.name ≡ name_of code (error_def code))
host_error_is_classified code rest = rw (digits_value-to_text code) at (
    classify_of_code (codes "HostError: Error(Contract, #" ++ (to_text code ++ b')' ∷ rest))
      (to_text code)
      (find_code-host_error (to_text code) rest (to_text-digits code) (to_text_nonempty code)))
