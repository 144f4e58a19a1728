-- ===== src/Anchor.antt =====
-- The anchor client: stellar/src/anchor. Here is what its parts share: the data of types.ts, the
-- amounts of amount.ts, and the calls that the session makes. The network (SEP-1, SEP-6, SEP-10,
-- SEP-12, Horizon), the signer and the stellar SDK are parameters: a type of worlds, and for each
-- call a function from the world before to the answer (or the thrown value) and the world after. An
-- anchor's toml is of an abstract type.
pub mod Memo
pub mod Poll
pub mod Session
mod Tests
use text.Mathlib.Text.{◌==◌ as str_eq}
use stellar_voice_control_pr.Common.{
  ℕ, ◌+◌, [], ◌∷◌, any, Bool, true, false, not, ◌&&◌, ◌||◌, ◌==◌, leb, Option, none, some, List,
  String, length, Result, ok, err, if◌then◌else◌,
}
use stellar_voice_control_pr.Common.Text.{Text, span_digits}
use stellar_voice_control_pr.Decimal.{fraction_matches, scaled_value}

-- What a call threw: an `AnchorHttpError` with its status, a `TypeError`, or anything else, with its
-- name where it is an `Error`.
pub data AnchorThrown : Type 0 where
  http : (status : ℕ) → AnchorThrown
  type_error : AnchorThrown
  other : (name : Option String) → AnchorThrown

-- What an operation of the session throws.
pub data SessionFault : Type 0 where
  thrown : AnchorThrown → SessionFault
  bad_amount : Text → SessionFault
  no_withdrawal other_amount no_account not_enough no_payout_account bad_destination bad_memo :
      SessionFault
  own_account ended_unpaid payout_overdue : SessionFault
  other_transaction unsigned_transaction no_challenge : SessionFault
  out_of_fuel : SessionFault

pub record AnchorAsset : Type 0 where
  pub code : String
  pub issuer : String
  pub fiat : Option String

pub record AuthToken : Type 0 where
  pub jwt : String
  pub account : String
  pub expires_at : Option ℕ

pub data MemoType : Type 0 where
  memo_text memo_id memo_hash : MemoType

pub record WithdrawMemo : Type 0 where
  pub memo_type : MemoType
  pub value : Text

pub record WithdrawInstructions : Type 0 where
  pub id : String
  pub account_id : Option String
  pub memo : Option WithdrawMemo

-- An order as `getTransaction` reads it.
pub record AnchorTransaction : Type 0 where
  pub id : String
  pub status : String
  pub withdraw_anchor_account : Option String
  pub withdraw_memo : Option Text
  pub withdraw_memo_type : Option String

-- A line of `HorizonAccount.balances`.
pub record HorizonBalance : Type 0 where
  pub asset_type : String
  pub asset_code : Option String
  pub asset_issuer : Option String
  pub balance : Text

pub record HorizonAccount : Type 0 where
  pub sequence : String
  pub balances : List HorizonBalance

-- What `buildWithdrawPayment` builds an envelope from.
pub record Payment : Type 0 where
  pub source : String
  pub sequence : String
  pub asset : AnchorAsset
  pub amount : Text
  pub destination : String
  pub memo : Option WithdrawMemo

-- An envelope that `TransactionBuilder.fromXDR` has read.
pub record Envelope : Type 0 where
  pub body_hash : String
  pub signatures : ℕ

-- What `describeXdr` reads from an envelope.
pub record Description : Type 0 where
  pub lines : List String
  pub fee_xlm : String
  pub source : String

-- What the session calls; `T` is the type of tomls.
pub record AnchorPort (W T : Type 0) : Type 0 where
  pub now : W → ℕ
  pub sleep : ℕ → W → W
  pub discover : W → Result AnchorThrown T × W
  pub find_asset : T → Result AnchorThrown AnchorAsset
  pub authenticate : T → W → Result AnchorThrown AuthToken × W
  pub request_challenge : T → String → W → Result AnchorThrown String × W
  pub complete_challenge : T → String → String → String → W → Result AnchorThrown AuthToken × W
  pub ensure_customer : T → AuthToken → W → Result AnchorThrown (Unit {0}) × W
  pub ensure_transaction_customer : T → AuthToken → String → W → Result AnchorThrown (Unit {0}) × W
  pub public_key : W → Result AnchorThrown String × W
  pub sign_transaction : String → W → Result AnchorThrown String × W
  pub start_withdraw :
      T → AuthToken → String → Text → W → Result AnchorThrown WithdrawInstructions × W
  pub get_transaction : T → AuthToken → String → W → Result AnchorThrown AnchorTransaction × W
  pub load_account : String → W → Result AnchorThrown (Option HorizonAccount) × W
  pub submit_envelope : String → W → Result AnchorThrown String × W
  pub is_valid_key : String → Bool
  pub byte_length : Text → ℕ
  pub hex_of_base64 : Text → Text
  pub build_envelope : Payment → Result AnchorThrown String
  pub read_envelope : String → Result AnchorThrown Envelope
  pub describe_xdr : String → Result AnchorThrown Description

-- `DECIMAL` of amount.ts: `/^\d+(\.\d{1,7})?$/`
unfoldable pub is_decimal : Text → Bool
unfolding span_digits fraction_matches
is_decimal s = let (ds, rest) = span_digits s in not (length ds == 0) && fraction_matches 7 rest

-- `toStroops`
unfoldable pub to_stroops : Text → Result SessionFault ℕ
unfolding is_decimal scaled_value
to_stroops amount =
    if is_decimal amount then ok (scaled_value 7 amount) else err (bad_amount amount)

-- `assertAmount`
unfoldable pub assert_amount : Text → Result SessionFault (Unit {0})
unfolding to_stroops
assert_amount amount = elim (to_stroops amount) [
  | err e ↦ err (bad_amount amount)
  | ok n ↦ if leb n 0 then err (bad_amount amount) else ok tt
]

-- `isExpired` of sep10.ts, with its default skew of a minute.
unfoldable pub is_expired : Option AuthToken → ℕ → Bool
is_expired none now = true
is_expired (some token) now = elim token.expires_at [
  | none ↦ false
  | some expires_at ↦ leb expires_at (now + 60000)
]

-- `StatusClass`
pub data StatusClass : Type 0 where
  in_progress needs_trustline needs_user needs_info waiting_user_transfer success ended :
      StatusClass

abbrev ended_statuses : List String
ended_statuses = "refunded" ∷ "expired" ∷ "no_market" ∷ "too_small" ∷ "too_large" ∷ "error" ∷ []

-- `classifyStatus`; the class `failed` is `ended`.
unfoldable pub classify_status : String → StatusClass
classify_status status =
    if str_eq status "completed"
    then success
    else if any (str_eq status) ended_statuses
    then ended
    else if str_eq status "pending_trust"
    then needs_trustline
    else if str_eq status "pending_customer_info_update"
        || str_eq status "pending_transaction_info_update"
    then needs_info
    else if str_eq status "pending_user"
    then needs_user
    else if str_eq status "pending_user_transfer_start"
    then waiting_user_transfer
    else in_progress
