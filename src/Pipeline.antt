-- ===== src/Pipeline.antt =====
-- The approval, signing and submission of built transactions: app/src/lib/txPipeline.ts. The
-- approver, the signer, the resequencer and the clock are parameters on a type of worlds. Each
-- report of progress is noted with its index and phase. `resolveDeps` enters as its result.
pub mod Submitted
pub mod Sequence
mod Tests
use Prim.Native.String
use stellar_voice_control_pr.Common.{
  ℕ, zero, suc, ◌+◌, Bool, true, false, Option, none, some, List, [], ◌∷◌, ◌++◌, String, Result, ok,
  err, if◌then◌else◌,
}
use stellar_voice_control_pr.Common.Text.{Text, present}
use stellar_voice_control_pr.Common.Action.{pure, throw, ◌>>=◌, ◌>>◌}
use stellar_voice_control_pr.Execution.{
  ThrownValue, Field, str, not_str, RawDecision, no_decision, bare_value, decision, ChainToolResult,
  ApprovalRequest, Approver, ExecutionStatus, executed, ExecutionOutcome, text_or, text_of,
  xdr_digest,
}

-- `TxRunOutcome`
pub data TxRunOutcome : Type 0 where
  submitted : (tx_hash : String) → (explorer_url : String) → (at_ms : ℕ) → TxRunOutcome
  denied did_fail : (label : String) → (reason : String) → (at_ms : ℕ) → TxRunOutcome

-- `SubmittedOutcome` of app/src/lib/signing.ts, as the pipeline reads it.
pub record SubmittedOutcome : Type 0 where
  pub status : ExecutionStatus
  pub tx_hash : Option String
  pub explorer_url : Option String
  pub label : Option String
  pub detail : Option String

-- `TxPipelineDeps`, with `TextEncoder` for the digest.
pub record TxPipelineDeps (I W : Type 0) : Type 0 where
  pub approver : Approver I W
  pub sign : ExecutionOutcome I → W → Result ThrownValue SubmittedOutcome × W
  pub now : W → ℕ
  pub resequence : ChainToolResult → W → Result ThrownValue ChainToolResult × W
  pub encode : Text → Text

-- `TxRunStep`
pub record TxRunStep (I W : Type 0) : Type 0 where
  pub result : ChainToolResult
  pub intent : I
  pub label : String
  pub build : Option (W → Result ThrownValue ChainToolResult × W)

pub data TxPhase : Type 0 where
  approving is_submitted was_denied has_failed : TxPhase

-- The world, and the progress that was reported.
pub record Run (W : Type 0) : Type 0 where
  pub progress : List (ℕ × TxPhase)
  pub world : W

-- `outcome.status`
abbrev pub phase_of : TxRunOutcome → TxPhase
phase_of (submitted h u t) = is_submitted
phase_of (denied l r t) = was_denied
phase_of (did_fail l r t) = has_failed

abbrev pub went_through : TxRunOutcome → Bool
went_through (submitted h u t) = true
went_through outcome = false

abbrev pub first_text : Option String → Option String → String → String
first_text (some s) o other = s
first_text none (some s) other = s
first_text none none other = other

-- `signed.status === "executed" && signed.txHash && signed.explorerUrl`
unfoldable pub receipt : SubmittedOutcome → Option (String × String)
receipt signed = elim signed.status [
  | executed ↦ elim (present signed.tx_hash) [
    | none ↦ none
    | some h ↦ elim (present signed.explorer_url) [ none ↦ none | some u ↦ some (h, u) ]
  ]
  | _ ↦ none
]

-- What reading `decision.approved` throws where the decision is undefined; for null the detail says
-- null.
abbrev pub no_approved_field : ThrownValue
no_approved_field = record {
  is_error = true;
  name = "TypeError";
  code = none;
  detail = "Cannot read properties of undefined (reading 'approved')";
}

unfoldable pub with_receipt :
    String → SubmittedOutcome → ℕ → Option (String × String) → TxRunOutcome
with_receipt label signed t (some (h, u)) = submitted h u t
with_receipt label signed t none =
    did_fail label (first_text signed.detail signed.label "the transaction was not submitted") t

module _ {I W : Type 0} (deps : TxPipelineDeps I W) where
  unfoldable pub request_of : ChainToolResult → I → ApprovalRequest I
  request_of result intent = record {
    intent = intent;
    summary = result.summary;
    payload_hash = xdr_digest deps.encode result.unsigned_xdr;
    unsigned_xdr = result.unsigned_xdr;
  }

  -- What the signer is handed.
  unfoldable pub outcome_for : ChainToolResult → I → Field → ExecutionOutcome I
  outcome_for result intent id = record {
    status = executed;
    intent = intent;
    label = none;
    detail = none;
    result = some result;
    payload_hash = some (xdr_digest deps.encode result.unsigned_xdr);
    approval_id = text_of id;
  }

  -- The signer's answer, or what it threw.
  unfoldable pub after_sign : String → Result ThrownValue SubmittedOutcome × W → TxRunOutcome × W
  unfolding with_receipt receipt
  after_sign label (err e, w) =
      (did_fail label (String.◌++◌ "Signing error: " e.detail) (deps.now w), w)
  after_sign label (ok signed, w) = (with_receipt label signed (deps.now w) (receipt signed), w)

  -- The approver's answer, or what it threw. A decision that is undefined or null has no field to read;
  -- another value that is no object has no `approved`, and is denied.
  unfoldable pub after_decision :
      ChainToolResult
      → I
      → String
      → Result ThrownValue RawDecision × W
      → Result ThrownValue TxRunOutcome × W
  unfolding after_sign
  after_decision result intent label (err e, w) =
      (ok (did_fail label (String.◌++◌ "Approval error: " e.detail) (deps.now w)), w)
  after_decision result intent label (ok no_decision, w) = (err no_approved_field, w)
  after_decision result intent label (ok bare_value, w) =
      (ok (denied label "the approval gate denied the request" (deps.now w)), w)
  after_decision result intent label (ok (decision false reason id), w) =
      (ok (denied label (text_or reason "the approval gate denied the request") (deps.now w)), w)
  after_decision result intent label (ok (decision true reason id), w) =
      let (outcome, w') = after_sign label (deps.sign (outcome_for result intent id) w) in
      (ok outcome, w')

  -- `runWith`; the label is `meta.label ?? result.summary.title`.
  unfoldable pub run_with :
      ChainToolResult → I → Option String → W → Result ThrownValue TxRunOutcome × W
  unfolding after_decision
  run_with result intent label w =
      after_decision result intent (first_text label none result.summary.title)
        (deps.approver (request_of result intent) w)

  -- `onProgress?.(…)`
  abbrev pub report_progress : ℕ → TxPhase → Run W → Run W
  report_progress i phase s = record s { progress = s.progress ++ (i, phase) ∷ [] }

  -- `step.build ? await step.build() : step.result`, and the resequencing.
  unfoldable pub fresh_result : TxRunStep I W → W → Result ThrownValue ChainToolResult × W
  fresh_result step = elim step.build [
    | none ↦ deps.resequence step.result
    | some build ↦ build >>= deps.resequence
  ]

  -- The reports round the approval of a step.
  unfoldable pub close_step :
      ℕ → Run W → Result ThrownValue TxRunOutcome × W → Result ThrownValue TxRunOutcome × Run W
  close_step i s (err e, w) = (err e, report_progress i approving (record s { world = w }))
  close_step i s (ok outcome, w) = (
    ok outcome,
    report_progress i (phase_of outcome) (report_progress i approving (record s { world = w })),
  )

  -- The resequenced result is approved; a failure to resequence ends the step.
  unfoldable pub approve_step :
      ℕ
      → TxRunStep I W
      → Run W
      → Result ThrownValue ChainToolResult × W
      → Result ThrownValue TxRunOutcome × Run W
  unfolding close_step run_with
  approve_step i step s (err e, w) = (
    ok (did_fail step.label (String.◌++◌ "Resequencing error: " e.detail) (deps.now w)),
    report_progress i has_failed (record s { world = w }),
  )
  approve_step i step s (ok result, w) =
      close_step i s (run_with result step.intent (some step.label) w)

  -- One round of the loop.
  unfoldable pub run_step : ℕ → TxRunStep I W → Run W → Result ThrownValue TxRunOutcome × Run W
  unfolding approve_step fresh_result
  run_step i step s = approve_step i step s (fresh_result step s.world)

  -- The loop, on the steps left; it breaks behind the first outcome that was not submitted.
  unfoldable pub run_steps :
      ℕ → List (TxRunStep I W) → Run W → Result ThrownValue (List TxRunOutcome) × Run W
  run_steps i [] s = (ok [], s)
  run_steps i (step ∷ steps) s =
      (run_step i step >>= λ outcome. elim (went_through outcome) [
        | true ↦ run_steps (suc i) steps >>= λ outcomes. pure (outcome ∷ outcomes)
        | false ↦ pure (outcome ∷ [])
      ])
        s

-- What is returned where the seams cannot be built.
abbrev unavailable : ThrownValue → ℕ → TxRunOutcome
unavailable e t = did_fail "Approval unavailable" e.detail t

module _ {I W : Type 0} (date_now : W → ℕ) where
  -- `runTx`
  unfoldable pub run_tx :
      Result ThrownValue (TxPipelineDeps I W)
      → ChainToolResult
      → I
      → Option String
      → W
      → Result ThrownValue TxRunOutcome × W
  unfolding run_with
  run_tx (err e) result intent label w = (ok (unavailable e (date_now w)), w)
  run_tx (ok deps) result intent label w = run_with deps result intent label w

  -- `runTxSequence`
  unfoldable pub run_tx_sequence :
      Result ThrownValue (TxPipelineDeps I W)
      → List (TxRunStep I W)
      → Run W
      → Result ThrownValue (List TxRunOutcome) × Run W
  unfolding run_steps
  run_tx_sequence (err e) steps s = (ok (unavailable e (date_now s.world) ∷ []), s)
  run_tx_sequence (ok deps) steps s = run_steps deps 0 steps s
