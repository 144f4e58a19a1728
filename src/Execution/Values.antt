-- ===== src/Execution/Values.antt =====
-- The values of agent/src/execution.ts: what tools and approvers return, the request and the outcome.
use stellar_voice_control_pr.Common.{Bool, Option, List, String, Result}
use stellar_voice_control_pr.Common.Text.{Text}
use stellar_voice_control_pr.TurnFlow.{IntentKind}

-- A thrown value: whether it is an `Error`, its name, its `code` if that is a string, and
-- `detailOf` it.
pub record ThrownValue : Type 0 where
  pub is_error : Bool
  pub name : String
  pub code : Option String
  pub detail : String

-- A field that should be a string.
pub data Field : Type 0 where
  str : String → Field
  not_str : Field

-- What a tool returns, as `isUsableToolResult` reads it.
pub data RawSummary : Type 0 where
  no_summary : RawSummary
  raw_summary :
      (title : Field) → (lines : Option (List Field)) → (estimated_fee : Field) → RawSummary

pub data RawXdr : Type 0 where
  xdr_text : Text → RawXdr
  no_xdr : RawXdr

pub data RawResult : Type 0 where
  no_object : RawResult
  raw_result : RawXdr → RawSummary → RawResult

-- The summary, without its explorer link, which neither guard nor gate reads.
pub record Summary : Type 0 where
  pub title : String
  pub lines : List String
  pub estimated_fee : String

-- `ChainToolResult`
pub record ChainToolResult : Type 0 where
  pub unsigned_xdr : Text
  pub summary : Summary

pub record ApprovalRequest (I : Type 0) : Type 0 where
  pub intent : I
  pub summary : Summary
  pub payload_hash : Text
  pub unsigned_xdr : Text

-- What an approver answers: `undefined` or `null`, another value that is no object and has no
-- fields, or an `ApprovalDecision`.
pub data RawDecision : Type 0 where
  no_decision bare_value : RawDecision
  decision : (approved : Bool) → (reason : Field) → (approval_id : Field) → RawDecision

-- `ChainTool` and `IntentApprover`
abbrev pub ChainTool : Type 0 → Type 0 → Type 0
ChainTool I W = I → W → Result ThrownValue RawResult × W

abbrev pub Approver : Type 0 → Type 0 → Type 0
Approver I W = ApprovalRequest I → W → Result ThrownValue RawDecision × W

pub data ExecutionStatus : Type 0 where
  executed rejected unsupported unavailable failed : ExecutionStatus

pub record ExecutionOutcome (I : Type 0) : Type 0 where
  pub status : ExecutionStatus
  pub intent : I
  pub label : Option String
  pub detail : Option String
  pub result : Option ChainToolResult
  pub payload_hash : Option Text
  pub approval_id : Option String

-- `ExecuteIntentOptions`, with `intent.kind` and `TextEncoder`.
pub record ExecuteIntentOptions (I W : Type 0) : Type 0 where
  pub approver : Approver I W
  pub chain_tools : IntentKind → Option (ChainTool I W)
  pub digest_override : Option (Text → Text)
  pub kind_of : I → IntentKind
  pub encode : Text → Text
