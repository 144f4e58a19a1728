-- ===== src/Pipeline/Submitted.antt =====
-- What a submitted transaction has passed (app/src/lib/txPipeline.ts).
use stellar_voice_control_pr.Common.{
  ℕ, ◌≡◌, refl, sym, ◌∙◌, true, false, Option, none, some, String, Result, ok, err,
}
use stellar_voice_control_pr.Execution.{
  ThrownValue, Field, RawDecision, no_decision, bare_value, decision, ChainToolResult,
}
use stellar_voice_control_pr.Pipeline.{
  TxRunOutcome, submitted, SubmittedOutcome, TxPipelineDeps, TxRunStep, Run, receipt, with_receipt,
  first_text, request_of, outcome_for, after_sign, after_decision, run_with, fresh_result,
  close_step, approve_step, run_step,
}

with_receipt_submitted :
    (label : String) (signed : SubmittedOutcome) (t at : ℕ) (o : Option (String × String))
    (h u : String)
    → with_receipt label signed t o ≡ submitted h u at
    → o ≡ some (h, u)
unfolding with_receipt
with_receipt_submitted label signed t at none h u eq = cc
with_receipt_submitted label signed t at (some (h', u')) h u eq = cc

module _ {I W : Type 0} (deps : TxPipelineDeps I W) where
  -- The signer's answer has a hash and a link.
  abbrev pub Receipt : String → String → Result ThrownValue SubmittedOutcome × W → W → Type 0
  Receipt h u answer w =
      (signed : SubmittedOutcome) × (answer ≡ (ok signed, w)) × (receipt signed ≡ some (h, u))

  after_sign_submitted :
      (label h u : String) (t : ℕ) (x : Result ThrownValue SubmittedOutcome × W)
      → (after_sign deps label x).0 ≡ submitted h u t
      → Receipt h u x (after_sign deps label x).1
  unfolding after_sign
  after_sign_submitted label h u t (err e, w) eq = cc
  after_sign_submitted label h u t (ok signed, w) eq =
      (signed, refl, with_receipt_submitted label signed (deps.now w) t (receipt signed) h u eq)

  -- The approver, asked for exactly this result with its digest, approved it, and the signer, handed
  -- exactly this result with the id of the approval, answered with the hash and the link.
  pub record IsSigned (result : ChainToolResult) (intent : I) (h u : String) (w w2 : W)
      : Type 0 where
    pub reason : Field
    pub id : Field
    pub w1 : W
    pub approved :
        deps.approver (request_of deps result intent) w ≡ (ok (decision true reason id), w1)
    pub signed : Receipt h u (deps.sign (outcome_for deps result intent id) w1) w2

  after_decision_submitted :
      (result : ChainToolResult) (intent : I) (label h u : String) (t : ℕ) (w : W)
      (x : Result ThrownValue RawDecision × W)
      → deps.approver (request_of deps result intent) w ≡ x
      → (after_decision deps result intent label x).0 ≡ ok (submitted h u t)
      → IsSigned result intent h u w (after_decision deps result intent label x).1
  unfolding after_decision
  after_decision_submitted result intent label h u t w (err e, v) ask eq = cc
  after_decision_submitted result intent label h u t w (ok no_decision, v) ask eq = cc
  after_decision_submitted result intent label h u t w (ok bare_value, v) ask eq = cc
  after_decision_submitted result intent label h u t w (ok (decision false reason id), v) ask eq =
      cc
  after_decision_submitted result intent label h u t w (ok (decision true reason id), v) ask eq =
      record {
        reason = reason;
        id = id;
        w1 = v;
        approved = ask;
        signed =
            after_sign_submitted label h u t (deps.sign (outcome_for deps result intent id) v) (cc);
      }

  run_with_submitted :
      (result : ChainToolResult) (intent : I) (label : Option String) (h u : String) (t : ℕ) (w : W)
      → (run_with deps result intent label w).0 ≡ ok (submitted h u t)
      → IsSigned result intent h u w (run_with deps result intent label w).1
  unfolding run_with
  run_with_submitted result intent label h u t w eq =
      after_decision_submitted result intent (first_text label none result.summary.title) h u t w
        (deps.approver (request_of deps result intent) w) refl eq

  close_step_lem :
      (i : ℕ) (s : Run W) (x : Result ThrownValue TxRunOutcome × W)
      → ((close_step deps i s x).0 ≡ x.0) × ((close_step deps i s x).1.world ≡ x.1)
  unfolding close_step
  close_step_lem i s (err e, w) = (refl, refl)
  close_step_lem i s (ok outcome, w) = (refl, refl)

  -- A step was built and resequenced, and exactly the resequenced result was approved and signed.
  abbrev pub StepSigned : TxRunStep I W → String → String → W → W → Type 0
  StepSigned step h u w w2 =
      (result : ChainToolResult) × (w1 : W) × (fresh_result deps step w ≡ (ok result, w1))
      × IsSigned result step.intent h u w1 w2

  approve_step_submitted :
      (i : ℕ) (step : TxRunStep I W) (s : Run W) (h u : String) (t : ℕ)
      (x : Result ThrownValue ChainToolResult × W)
      → fresh_result deps step s.world ≡ x
      → (approve_step deps i step s x).0 ≡ ok (submitted h u t)
      → StepSigned step h u s.world (approve_step deps i step s x).1.world
  unfolding approve_step
  approve_step_submitted i step s h u t (err e, w) fresh eq = cc
  approve_step_submitted i step s h u t (ok result, w) fresh eq =
      let x = run_with deps result step.intent (some step.label) w in
      let same = close_step_lem i s x in
      let signed =
        run_with_submitted result step.intent (some step.label) h u t w (sym same.0 ∙ eq) in
      (result, w, fresh, rw same.1 signed)

  -- A step of a sequence is submitted only if its result was built and resequenced in the current
  -- world, the approver approved exactly the resequenced result with its digest, and the signer,
  -- handed exactly this result with the id of the approval, answered with the hash and the link.
  pub run_step_submitted :
      (i : ℕ) (step : TxRunStep I W) (s : Run W) (h u : String) (t : ℕ)
      → (run_step deps i step s).0 ≡ ok (submitted h u t)
      → StepSigned step h u s.world (run_step deps i step s).1.world
  unfolding run_step
  run_step_submitted i step s h u t eq =
      approve_step_submitted i step s h u t (fresh_result deps step s.world) refl eq
