-- ===== src/Enabling/Card.antt =====
-- The data of stellar/src/approval/enableAutoPay.ts: the steps, the card, and the calls that the builders need.
use stellar_voice_control_pr.Common.{ℕ, Bool, Option, List, String, Result}
use stellar_voice_control_pr.Common.Int.{ℤ}
use stellar_voice_control_pr.Guard.{Rule}
use stellar_voice_control_pr.Approval.{ConfirmationLevel, ApprovalError}
use stellar_voice_control_pr.Approval.Draft.{ApprovalErrorCode}

pub data ApprovalStepKind : Type 0 where
  set_executor set_rule approve revoke_executor : ApprovalStepKind

-- What a builder throws: an `ApprovalError`, or what a call that it makes threw.
pub data Failure : Type 0 where
  refused : ApprovalErrorCode → Failure
  loosening : ApprovalError → Failure
  call_failed : String → Failure

pub record BuiltCall (X : Type 0) : Type 0 where
  pub unsigned_xdr : X
  pub payload_hash : String

-- `liveUntilLedger - currentLedger` is `ledgers_remaining`.
pub record AllowanceCall (X : Type 0) : Type 0 where
  pub call : BuiltCall X
  pub ledgers_remaining : ℕ

pub record BuiltApprovalStep (X : Type 0) : Type 0 where
  pub kind : ApprovalStepKind
  pub unsigned_xdr : X
  pub payload_hash : String

pub record ApprovalActionSummary : Type 0 where
  pub kind : ApprovalStepKind
  pub lines : List String
  pub arming : Bool

pub record ApprovalExposure : Type 0 where
  pub threshold_raw : ℤ
  pub daily_limit_raw : ℤ
  pub allowance_raw : ℤ
  pub allowance_expires_local : String
  pub allowance_expires_utc : String

-- The notes of a card, named by their constants.
pub data Note : Type 0 where
  arming_step schedule_allowance always_ask revoke_executor_caveat kill_switch_caveat : Note
  allowance_change : (current next : ℤ) → Note
  allowance_lower : Note

pub record ApprovalCardSummary : Type 0 where
  pub actions : List ApprovalActionSummary
  pub exposure : Option ApprovalExposure
  pub notes : List Note
  pub confirmation : ConfirmationLevel

pub record BuiltFlow (X : Type 0) : Type 0 where
  pub steps : List (BuiltApprovalStep X)
  pub summary : ApprovalCardSummary
  pub order : List ApprovalStepKind

-- `EnableAutoPayDeps` and `DisableAutoPayDeps`, with the owner put into the calls.
pub record EnableAutoPayDeps (W X : Type 0) : Type 0 where
  pub is_valid_contract : String → Bool
  pub is_valid_key : String → Bool
  pub build_allowance :
      (asset : String) → (amount days : ℤ) → W → Result Failure (AllowanceCall X) × W
  pub build_rule : Rule → W → Result Failure (BuiltCall X) × W
  pub build_executor : String → W → Result Failure (BuiltCall X) × W
  pub build_revoke : W → Result Failure (BuiltCall X) × W
  pub build_no_allowance : (asset : String) → W → Result Failure (BuiltCall X) × W
  pub decoded_lines : X → List String
  pub rule_of_xdr : X → Rule
  pub now : W → ℕ
  pub local_time : ℕ → String
  pub utc_time : ℕ → String
  pub current_allowance_raw : Option ℤ
  pub current : Option (Option Rule × Option String)
