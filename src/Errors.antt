-- ===== src/Errors.antt =====
-- Error classification and backoff: stellar/src/keeper/errors.ts. Texts are lists of code units
-- where the code walks them. A name is a literal, or `ContractError#n` for a code n. Contract
-- codes are u32, so that `Number` reads their digits exactly.
pub mod Backoff
pub mod Classify
mod Tests
use text.Mathlib.Text.{◌==◌ as str_eq}
use stellar_voice_control_pr.Common.{
  ℕ, zero, suc, ◌+◌, ◌-◌, ◌*◌, ◌^◌, min, max, Bool, true, false, ◌&&◌, ◌||◌, ◌==◌, leb, ltb, Option,
  none, some, List, [], ◌∷◌, ◌++◌, String, length, if◌then◌else◌,
}
use stellar_voice_control_pr.Common.Dict.{get}
use stellar_voice_control_pr.Decimal.{digits_value}
use stellar_voice_control_pr.Common.Text.{
  Text, codes, strip_prefix, contains_text, skip_spaces, span_digits,
}

pub data ErrorKind : Type 0 where
  already_executed not_due inactive rule_violated allowance_missing unknown_contract : ErrorKind
  auth_required keeper_funds bad_seq tx_expired rpc unknown : ErrorKind

pub data ErrorName : Type 0 where
  named : String → ErrorName
  contract_error : ℕ → ErrorName

pub record ClassifiedError : Type 0 where
  pub kind : ErrorKind
  pub name : ErrorName
  pub code : Option ℕ
  pub message : Text

pub record GuardErrorDef : Type 0 where
  pub name : String
  pub kind : ErrorKind

abbrev entry : ℕ → String → ErrorKind → ℕ × GuardErrorDef
entry code name kind = (code, record { name = name; kind = kind })

abbrev pub guard_errors : List (ℕ × GuardErrorDef)
guard_errors =
    entry 100 "NotConfigured" rule_violated
    ∷ entry 101 "InvalidAmount" rule_violated
    ∷ entry 102 "InvalidRule" rule_violated
    ∷ entry 103 "OverPerTxLimit" rule_violated
    ∷ entry 104 "OverDailyLimit" rule_violated
    ∷ entry 105 "NeedsOwnerApproval" rule_violated
    ∷ entry 106 "AssetNotAllowed" rule_violated
    ∷ entry 107 "NoExecutor" auth_required
    ∷ entry 108 "NotExecutor" auth_required
    ∷ entry 109 "ScheduleNotFound" inactive
    ∷ entry 110 "ScheduleNotDue" not_due
    ∷ entry 111 "ScheduleInactive" inactive
    ∷ entry 112 "InvalidSchedule" inactive
    ∷ entry 113 "NotScheduleOwner" auth_required
    ∷ entry 114 "TooManySchedules" rule_violated
    ∷ entry 115 "Overflow" unknown_contract
    ∷ entry 116 "InsufficientAllowance" allowance_missing
    ∷ []

abbrev pub token_errors : List (ℕ × GuardErrorDef)
token_errors =
    entry 2 "SacOperationNotSupported" unknown_contract
    ∷ entry 3 "SacAlreadyInitialized" unknown_contract
    ∷ entry 4 "SacUnauthorized" auth_required
    ∷ entry 5 "SacAuthentication" auth_required
    ∷ entry 6 "SacAccountMissing" rule_violated
    ∷ entry 7 "SacAccountIsNotClassic" rule_violated
    ∷ entry 8 "SacNegativeAmount" rule_violated
    ∷ entry 9 "SacAllowanceError" allowance_missing
    ∷ entry 10 "SacBalanceError" allowance_missing
    ∷ entry 11 "SacBalanceDeauthorized" rule_violated
    ∷ entry 12 "SacOverflow" unknown_contract
    ∷ entry 13 "SacTrustlineMissing" rule_violated
    ∷ entry 14 "SacInsufficientAccountReserve" allowance_missing
    ∷ entry 15 "SacTooManyAccountSubentries" rule_violated
    ∷ []

abbrev guard_error_base : ℕ
guard_error_base = 100

-- `(code >= GUARD_ERROR_BASE ? GUARD_ERRORS : TOKEN_ERRORS)[code]`
unfoldable pub error_def : ℕ → Option GuardErrorDef
error_def code = if leb guard_error_base code then get code guard_errors else get code token_errors

-- `split(/\r?\n/, 1)[0]`
unfoldable pub cut_line : Text → Text
cut_line [] = []
cut_line (c ∷ []) = if c == 10 then [] else c ∷ []
cut_line (c ∷ d ∷ s) =
    let rest = cut_line (d ∷ s) in if c == 10 || (c == 13 && d == 10) then [] else c ∷ rest

-- `slice(0, n)`
unfoldable pub slice_to : ℕ → Text → Text
slice_to zero s = []
slice_to (suc n) [] = []
slice_to (suc n) (c ∷ s) = c ∷ slice_to n s

unfoldable pub first_line : Text → Text
unfolding cut_line slice_to
first_line text =
    let line = cut_line text in
    if ltb 300 (length line) then slice_to 297 line ++ codes "..." else line

-- `\)` behind the digits, which are at least one
abbrev close_code : Text × Text → Option Text
close_code ([], rest) = none
close_code (d ∷ ds, []) = none
close_code (d ∷ ds, c ∷ rest) = if c == b')' then some (d ∷ ds) else none

-- `#(\d+)\)`
abbrev after_comma : Text → Option Text
after_comma [] = none
after_comma (c ∷ s) = if c == b'#' then close_code (span_digits s) else none

-- A match of CONTRACT_ERROR_RE at the head of a text: the digits of its group.
unfoldable pub match_here : Text → Option Text
unfolding strip_prefix skip_spaces span_digits
match_here s = elim (strip_prefix (codes "Error(Contract,") s) [
  | none ↦ none
  | some rest ↦ after_comma (skip_spaces rest)
]

first_match : Option Text → Option Text → Option Text
first_match none o = o
first_match (some m) o = some m

-- `CONTRACT_ERROR_RE.exec(text)?.[1]`: the first match.
unfoldable pub find_code : Text → Option Text
unfolding match_here first_match
find_code [] = match_here []
find_code (c ∷ s) = first_match (match_here (c ∷ s)) (find_code s)

abbrev plain : ErrorKind → String → Text → ClassifiedError
plain kind name text = record {
  kind = kind;
  name = named name;
  code = none;
  message = first_line text;
}

abbrev from_def : ℕ → Text → Option GuardErrorDef → ClassifiedError
from_def code text none = record {
  kind = unknown_contract;
  name = contract_error code;
  code = some code;
  message = first_line text;
}
from_def code text (some d) = record {
  kind = d.kind;
  name = named d.name;
  code = some code;
  message = first_line text;
}

-- Some literal alternative of a pattern occurs.
unfoldable pub occurs : List String → Text → Bool
unfolding contains_text
occurs [] text = false
occurs (p ∷ ps) text = contains_text (codes p) text || occurs ps text

-- The part of `classifyContractText` behind the contract code.
unfoldable pub classify_plain : Text → ClassifiedError
unfolding occurs
classify_plain text =
    if occurs ("txBadSeq" ∷ []) text
    then plain bad_seq "txBadSeq" text
    else if occurs ("txInsufficientBalance" ∷ "txInsufficientFee" ∷ "txNoAccount" ∷ []) text
    then plain keeper_funds "KeeperUnderfunded" text
    else if occurs ("txTooLate" ∷ "txTooEarly" ∷ []) text
    then plain tx_expired "txTooLate" text
    else if occurs ("AlreadyExecuted" ∷ []) text
    then plain already_executed "AlreadyExecuted" text
    else if occurs ("NotDue" ∷ []) text
    then plain not_due "NotDue" text
    else if occurs ("ScheduleInactive" ∷ "Inactive" ∷ "Cancelled" ∷ "NoRunsLeft" ∷ []) text
    then plain inactive "ScheduleInactive" text
    else if occurs ("AllowanceMissing" ∷ "InsufficientAllowance" ∷ "InsufficientBalance" ∷ []) text
    then plain allowance_missing "AllowanceMissing" text
    else if occurs
        ("LimitExceeded" ∷ "RecipientNotAllowed" ∷ "AssetNotAllowed" ∷ "RuleViolated" ∷ []) text
    then plain rule_violated "RuleViolated" text
    else plain unknown "Unknown" text

-- `classifyContractText(text, table)`; `none` is the missing table.
unfoldable pub classify_contract_text : Text → Option (List (ℕ × GuardErrorDef)) → ClassifiedError
unfolding find_code digits_value error_def classify_plain first_line
classify_contract_text text table = elim (find_code text) [
  | none ↦ classify_plain text
  | some digits ↦
      let code = digits_value 0 digits in
      from_def code text (elim table [ none ↦ error_def code | some t ↦ get code t ])
]

-- A thrown value: an `Error` with its name and message, or any other value as its text.
pub data Thrown : Type 0 where
  an_error : (name : String) → (message : Text) → Thrown
  other : Text → Thrown

abbrev thrown_name : Thrown → String
thrown_name (an_error name m) = name
thrown_name (other text) = "Error"

abbrev pub thrown_message : Thrown → Text
thrown_message (an_error name m) = m
thrown_message (other text) = text

unfoldable pub classify_thrown : Thrown → ClassifiedError
unfolding classify_contract_text
classify_thrown e = elim (find_code (thrown_message e)) [
  | none ↦ plain rpc (thrown_name e) (thrown_message e)
  | some _ ↦ classify_contract_text (thrown_message e) none
]

-- `classifyTxResultCode`
unfoldable pub classify_tx_result_code : String → ClassifiedError
classify_tx_result_code code = record {
  kind =
      if str_eq code "txBadSeq"
      then bad_seq
      else if str_eq code "txInsufficientBalance"
          || str_eq code "txInsufficientFee"
          || str_eq code "txNoAccount"
      then keeper_funds
      else if str_eq code "txTooLate" || str_eq code "txTooEarly"
      then tx_expired
      else unknown;
  name = named code;
  code = none;
  message = codes code;
}

pub record BackoffPolicy : Type 0 where
  pub base_ms : ℕ
  pub max_ms : ℕ

abbrev policy : ℕ → ℕ → BackoffPolicy
policy base most = record { base_ms = base; max_ms = most }

unfoldable pub backoff_policy : ErrorKind → BackoffPolicy
backoff_policy already_executed = policy 60_000 600_000
backoff_policy not_due = policy 15_000 120_000
backoff_policy inactive = policy 300_000 3_600_000
backoff_policy rule_violated = policy 60_000 3_600_000
backoff_policy allowance_missing = policy 60_000 3_600_000
backoff_policy unknown_contract = policy 60_000 1_800_000
backoff_policy auth_required = policy 300_000 3_600_000
backoff_policy keeper_funds = policy 60_000 600_000
backoff_policy bad_seq = policy 5_000 60_000
backoff_policy tx_expired = policy 5_000 60_000
backoff_policy rpc = policy 5_000 60_000
backoff_policy unknown = policy 30_000 600_000

-- `Math.max(0, consecutiveFailures - 1)` is the truncated difference.
unfoldable pub backoff_ms : ErrorKind → ℕ → ℕ
unfolding backoff_policy
backoff_ms kind consecutive_failures =
    let p = backoff_policy kind in min p.max_ms (p.base_ms * 2 ^ min (consecutive_failures - 1) 20)
