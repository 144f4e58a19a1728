-- ===== src/Execution.antt =====
-- The execution of a validated intent: agent/src/execution.ts, with the labels of agent/src/errors.ts.
-- The chain tools and the approver are parameters, on a type of worlds. A value of type `unknown` is
-- modelled by what the guards read of it. `TextEncoder` is a parameter of the digest.
pub mod Values
pub mod Sha256
pub mod Gate
pub mod Closed
mod Tests
pub use stellar_voice_control_pr.Execution.Values.{
  ThrownValue, Field, RawSummary, RawXdr, RawResult, Summary, ChainToolResult, ApprovalRequest,
  RawDecision, ChainTool, Approver, ExecutionStatus, ExecutionOutcome, ExecuteIntentOptions, str,
  not_str, no_summary, raw_summary, xdr_text, no_xdr, no_object, raw_result, no_decision,
  bare_value, decision, executed, rejected, unsupported, unavailable, failed,
}
use Prim.Native.String
use text.Mathlib.Text.{◌==◌ as str_eq}
use stellar_voice_control_pr.Common.{
  Bool, true, false, ◌&&◌, Option, none, some, List, [], ◌∷◌, String, Result, ok, err,
  if◌then◌else◌,
}
use stellar_voice_control_pr.Common.Text.{Text}
use stellar_voice_control_pr.TurnFlow.{IntentKind}
use stellar_voice_control_pr.Execution.Sha256.{sha256_hex}

-- `createAutoApprovalPlaceholder` and `createDenyApprover`
unfoldable pub auto_approver : {I W : Type 0} → Approver I W
auto_approver request w = (ok (decision true not_str not_str), w)

unfoldable pub deny_approver : {I W : Type 0} → String → Approver I W
deny_approver reason request w = (ok (decision false (str reason) not_str), w)

-- `resolveApprover`
unfoldable pub resolve_approver : {I W : Type 0} → Bool → Approver I W
unfolding auto_approver deny_approver
resolve_approver auto_approve =
    if auto_approve then auto_approver else deny_approver "the approval gate is not configured"

-- `xdrDigest`
unfoldable pub xdr_digest : (Text → Text) → Text → Text
xdr_digest encode unsigned_xdr = sha256_hex (encode unsigned_xdr)

-- `REFUSAL_LABELS`
abbrev refusal_labels : List (String × String)
refusal_labels =
    ("not_configured", "Chain not configured")
    ∷ ("invalid_intent", "Bad payment request")
    ∷ ("invalid_amount", "Invalid amount")
    ∷ ("unsupported_asset", "Asset not supported")
    ∷ ("unknown_recipient", "I don't know that recipient")
    ∷ ("mode_not_supported", "Private payments unavailable")
    ∷ ("guarded_route_not_available", "Guarded route unavailable")
    ∷ ("recipient_no_trustline", "Recipient can't hold that asset")
    ∷ ("trustline_check_failed", "Asset check failed")
    ∷ ("account_not_found", "Account not funded")
    ∷ ("guard_rule_missing", "No spending rule")
    ∷ ("guard_limit_exceeded", "Spending limit reached")
    ∷ ("guard_asset_not_allowed", "Asset not allowed")
    ∷ ("guard_client_error", "Guard error")
    ∷ []

abbrev label_in : String → List (String × String) → Option String
label_in code [] = none
label_in code ((c, label) ∷ labels) = if str_eq code c then some label else label_in code labels

-- `refusalLabel`; an empty code is falsy, and no key of the table.
unfoldable pub refusal_label : Option String → String
refusal_label none = "Chain error"
refusal_label (some code) = elim (label_in code refusal_labels) [
  | none ↦ "Chain error"
  | some label ↦ label
]

unfoldable pub is_not_implemented_error : ThrownValue → Bool
is_not_implemented_error e = e.is_error && str_eq e.name "NotImplementedError"

abbrev pub is_code : Option String → String → Bool
is_code none code = false
is_code (some c) code = str_eq c code

-- `lines.every((line) => typeof line === "string")`
abbrev pub texts_of : List Field → Option (List String)
texts_of [] = some []
texts_of (not_str ∷ fields) = none
texts_of (str s ∷ fields) = elim (texts_of fields) [ none ↦ none | some ss ↦ some (s ∷ ss) ]

abbrev pub summary_of : RawSummary → Option Summary
summary_of (raw_summary (str title) (some lines) (str fee)) = elim (texts_of lines) [
  | none ↦ none
  | some ls ↦ some (record { title = title; lines = ls; estimated_fee = fee })
]
summary_of raw = none

-- `isUsableToolResult`, with the result that it vouches for.
unfoldable pub usable_tool_result : RawResult → Option ChainToolResult
usable_tool_result no_object = none
usable_tool_result (raw_result no_xdr raw) = none
usable_tool_result (raw_result (xdr_text []) raw) = none
usable_tool_result (raw_result (xdr_text (c ∷ cs)) raw) = elim (summary_of raw) [
  | none ↦ none
  | some summary ↦ some (record { unsigned_xdr = c ∷ cs; summary = summary })
]

abbrev pub no_result : {I : Type 0} → ExecutionStatus → I → String → String → ExecutionOutcome I
no_result status intent label detail = record {
  status = status;
  intent = intent;
  label = some label;
  detail = some detail;
  result = none;
  payload_hash = none;
  approval_id = none;
}

-- The texts of `Intent["kind"]`
unfoldable pub kind_text : IntentKind → String
kind_text IntentKind.deposit = "deposit"
kind_text IntentKind.withdraw = "withdraw"
kind_text IntentKind.swap = "swap"
kind_text IntentKind.send = "send"
kind_text IntentKind.guard_policy = "guard_policy"
kind_text IntentKind.raw_tx = "raw_tx"
kind_text IntentKind.schedule_payment = "schedule_payment"
kind_text IntentKind.cancel_schedule = "cancel_schedule"
kind_text IntentKind.p2p_offer = "p2p_offer"
kind_text IntentKind.p2p_accept = "p2p_accept"
kind_text IntentKind.p2p_confirm = "p2p_confirm"
kind_text IntentKind.p2p_cancel = "p2p_cancel"
kind_text IntentKind.p2p_reclaim = "p2p_reclaim"

abbrev unsupported_detail : IntentKind → String
unsupported_detail kind =
    String.◌++◌ "no chain tool is registered for intent kind \"" (String.◌++◌ (kind_text kind) "\"")

-- The first `catch`: what a tool threw.
unfoldable pub tool_failure : {I : Type 0} → I → ThrownValue → ExecutionOutcome I
unfolding is_not_implemented_error refusal_label
tool_failure intent e =
    if is_not_implemented_error e
    then no_result unavailable intent "Chain not wired" e.detail
    else if is_code e.code "not_configured"
    then no_result failed intent "Chain not configured" e.detail
    else no_result failed intent (refusal_label e.code) e.detail

abbrev pub text_or : Field → String → String
text_or (str s) other = s
text_or not_str other = other

abbrev pub text_of : Field → Option String
text_of (str s) = some s
text_of not_str = none

-- What the approver decided.
unfoldable pub decide : {I : Type 0} → I → ChainToolResult → Text → RawDecision → ExecutionOutcome I
decide intent result payload_hash no_decision =
    no_result failed intent "Approval error" "the approver returned no decision"
decide intent result payload_hash bare_value =
    no_result failed intent "Approval error" "the approver returned no decision"
decide intent result payload_hash (decision approved reason id) =
    if approved
    then record {
      status = executed;
      intent = intent;
      label = none;
      detail = none;
      result = some result;
      payload_hash = some payload_hash;
      approval_id = text_of id;
    }
    else no_result rejected intent "Not approved"
        (text_or reason "the approval gate rejected the intent")

module _ {I W : Type 0} (options : ExecuteIntentOptions I W) where
  -- `(options.xdrDigest ?? xdrDigest)(…)`
  unfoldable pub digest_of : Text → Text
  digest_of unsigned_xdr = elim options.digest_override [
    | none ↦ xdr_digest options.encode unsigned_xdr
    | some digest ↦ digest unsigned_xdr
  ]

  unfoldable pub request_for : I → ChainToolResult → ApprovalRequest I
  request_for intent result = record {
    intent = intent;
    summary = result.summary;
    payload_hash = digest_of result.unsigned_xdr;
    unsigned_xdr = result.unsigned_xdr;
  }

  -- The answer of the approver, or what it threw.
  unfoldable pub after_approver :
      I → ChainToolResult → Result ThrownValue RawDecision × W → ExecutionOutcome I × W
  unfolding decide
  after_approver intent result (ok raw, w) =
      (decide intent result (digest_of result.unsigned_xdr) raw, w)
  after_approver intent result (err e, w) = (no_result failed intent "Approval error" e.detail, w)

  -- From the usable result on, if there is one.
  unfoldable pub ask : I → Option ChainToolResult → W → ExecutionOutcome I × W
  unfolding after_approver
  ask intent none w = (
    no_result failed intent "Chain error"
        "the chain tool returned no usable unsigned XDR + summary",
    w,
  )
  ask intent (some result) w =
      after_approver intent result (options.approver (request_for intent result) w)

  -- The answer of the tool, or what it threw.
  unfoldable pub after_tool : I → Result ThrownValue RawResult × W → ExecutionOutcome I × W
  unfolding ask tool_failure
  after_tool intent (ok raw, w) = ask intent (usable_tool_result raw) w
  after_tool intent (err e, w) = (tool_failure intent e, w)

  unfoldable pub run_tool : I → Option (ChainTool I W) → W → ExecutionOutcome I × W
  unfolding after_tool
  run_tool intent none w = (
    no_result unsupported intent "Not supported" (unsupported_detail (options.kind_of intent)),
    w,
  )
  run_tool intent (some tool) w = after_tool intent (tool intent w)

  -- `executeIntent`
  unfoldable pub execute_intent : I → W → ExecutionOutcome I × W
  unfolding run_tool
  execute_intent intent w = run_tool intent (options.chain_tools (options.kind_of intent)) w
