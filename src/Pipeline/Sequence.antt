-- ===== src/Pipeline/Sequence.antt =====
-- The order of a sequence of transactions (app/src/lib/txPipeline.ts, `runTxSequence`).
use stellar_voice_control_pr.Common.{
  ℕ, suc, ◌≡◌, ◌≢◌, refl, ap, true, false, Option, some, List, [], ◌∷◌, String, Result, ok, err,
}
use stellar_voice_control_pr.Common.Action.{pure, ◌>>=◌, >>=_rule}
use stellar_voice_control_pr.Execution.{
  ThrownValue, RawDecision, no_decision, bare_value, decision, ChainToolResult, ApprovalRequest,
}
use stellar_voice_control_pr.Pipeline.{
  TxRunOutcome, submitted, denied, did_fail, TxPipelineDeps, TxRunStep, Run, went_through,
  after_decision, run_with, close_step, approve_step, fresh_result, run_step, run_steps,
  run_tx_sequence, request_of,
}
use stellar_voice_control_pr.Pipeline.Submitted.{StepSigned, run_step_submitted}

-- Something was thrown.
abbrev pub IsErr {ℓ} : {A : Type ℓ} → Result ThrownValue A → Type 0
IsErr (ok a) = ⊥
IsErr (err e) = Unit

module _ {I W : Type 0} (deps : TxPipelineDeps I W) where
  -- A round of the loop for this step, from the world `w`, has this outcome and leaves `v`.
  abbrev pub LeftBy : TxRunStep I W → W → TxRunOutcome → W → Type 0
  LeftBy step w o v =
      (i : ℕ) × (s : Run W) × (t : Run W) × (s.world ≡ w)
      × (run_step deps i step s ≡ (ok o, t))
      × (t.world ≡ v)

  -- The outcomes answer the steps in order: every step whose outcome is submitted was signed in the
  -- world that the step before it left, and behind an outcome that was not submitted there is no
  -- other and no more work.
  abbrev pub Chain : List (TxRunStep I W) → W → List TxRunOutcome → W → Type 0
  Chain [] w [] v = v ≡ w
  Chain [] w (o ∷ os) v = ⊥
  Chain (step ∷ steps) w [] v = ⊥
  Chain (step ∷ steps) w (submitted h u t ∷ os) v =
      (w1 : W) × StepSigned deps step h u w w1 × Chain steps w1 os v
  Chain (step ∷ steps) w (denied l r t ∷ os) v = (os ≡ []) × LeftBy step w (denied l r t) v
  Chain (step ∷ steps) w (did_fail l r t ∷ os) v = (os ≡ []) × LeftBy step w (did_fail l r t) v

  abbrev Chained :
      List (TxRunStep I W) → W → Result ThrownValue (List TxRunOutcome) × Run W → Type 0
  Chained steps w (ok os, s) = Chain steps w os s.world
  Chained steps w (err e, s) = Unit

  abbrev go_on :
      ℕ
      → List (TxRunStep I W)
      → TxRunOutcome
      → Run W
      → Result ThrownValue (List TxRunOutcome) × Run W
  go_on i steps outcome = elim (went_through outcome) [
    | true ↦ run_steps deps (suc i) steps >>= λ outcomes. pure (outcome ∷ outcomes)
    | false ↦ pure (outcome ∷ [])
  ]

  go_on-Chained :
      (i : ℕ) (step : TxRunStep I W) (steps : List (TxRunStep I W)) (o : TxRunOutcome) (s t : Run W)
      → run_step deps i step s ≡ (ok o, t)
      → Chained steps t.world (run_steps deps (suc i) steps t)
      → Chained (step ∷ steps) s.world (go_on i steps o t)
  go_on-Chained i step steps (submitted h u at) s t eq ih =
      let signed : StepSigned deps step h u s.world t.world =
        rw (ap (λ x. x.1.world) eq) at
          (run_step_submitted deps i step s h u at (ap (λ x. x.0) eq)) in
      >>=_rule (Chained steps t.world) (Chained (step ∷ steps) s.world)
        (run_steps deps (suc i) steps) (λ os. pure (submitted h u at ∷ os)) t ih
        (λ os v c. (t.world, signed, c)) (λ e v c. tt)
  go_on-Chained i step steps (denied l r at) s t eq ih = (refl, (i, s, t, refl, eq, refl))
  go_on-Chained i step steps (did_fail l r at) s t eq ih = (refl, (i, s, t, refl, eq, refl))

  run_steps-Chained :
      (i : ℕ) (steps : List (TxRunStep I W)) (s : Run W)
      → Chained steps s.world (run_steps deps i steps s)
  unfolding run_steps
  run_steps-Chained i [] s = refl
  run_steps-Chained i (step ∷ steps) s =
      >>=_rule (λ x. run_step deps i step s ≡ x) (Chained (step ∷ steps) s.world)
        (run_step deps i step) (go_on i steps) s refl
        (λ o t eq. go_on-Chained i step steps o s t eq (run_steps-Chained (suc i) steps t))
        (λ e t eq. tt)

  -- The approver never answers with nothing: it throws, or answers with a value.
  abbrev pub Decides : Type 0
  Decides = (request : ApprovalRequest I) (w : W) → (deps.approver request w).0 ≢ ok no_decision

  abbrev Returns {ℓ} : {A : Type ℓ} {S : Type 0} → Result ThrownValue A × S → Type 0
  Returns (ok a, s) = Unit
  Returns (err e, s) = ⊥

  after_decision-Returns :
      (result : ChainToolResult) (intent : I) (label : String)
      (x : Result ThrownValue RawDecision × W)
      → x.0 ≢ ok no_decision
      → Returns (after_decision deps result intent label x)
  unfolding after_decision
  after_decision-Returns result intent label (err e, w) h = tt
  after_decision-Returns result intent label (ok no_decision, w) h = h refl
  after_decision-Returns result intent label (ok bare_value, w) h = tt
  after_decision-Returns result intent label (ok (decision false reason id), w) h = tt
  after_decision-Returns result intent label (ok (decision true reason id), w) h = tt

  run_with-Returns :
      (result : ChainToolResult) (intent : I) (label : Option String) (w : W)
      → Decides
      → Returns (run_with deps result intent label w)
  unfolding run_with
  run_with-Returns result intent label w d =
      after_decision-Returns result intent _ (deps.approver (request_of deps result intent) w)
        (d (request_of deps result intent) w)

  close_step-Returns :
      (i : ℕ) (s : Run W) (x : Result ThrownValue TxRunOutcome × W)
      → Returns x
      → Returns (close_step deps i s x)
  unfolding close_step
  close_step-Returns i s (ok o, w) h = tt
  close_step-Returns i s (err e, w) h = h

  approve_step-Returns :
      (i : ℕ) (step : TxRunStep I W) (s : Run W) (x : Result ThrownValue ChainToolResult × W)
      → Decides
      → Returns (approve_step deps i step s x)
  unfolding approve_step
  approve_step-Returns i step s (err e, w) d = tt
  approve_step-Returns i step s (ok result, w) d =
      close_step-Returns i s (run_with deps result step.intent (some step.label) w)
        (run_with-Returns result step.intent (some step.label) w d)

  run_step-Returns :
      (i : ℕ) (step : TxRunStep I W) (s : Run W) → Decides → Returns (run_step deps i step s)
  unfolding run_step
  run_step-Returns i step s d = approve_step-Returns i step s (fresh_result deps step s.world) d

  go_on-Returns :
      (i : ℕ) (steps : List (TxRunStep I W)) (o : TxRunOutcome) (t : Run W)
      → Returns (run_steps deps (suc i) steps t)
      → Returns (go_on i steps o t)
  go_on-Returns i steps (submitted h u at) t ih =
      >>=_rule Returns Returns (run_steps deps (suc i) steps) (λ os. pure (submitted h u at ∷ os)) t
        ih (λ os v c. tt) (λ e v c. c)
  go_on-Returns i steps (denied l r at) t ih = tt
  go_on-Returns i steps (did_fail l r at) t ih = tt

  run_steps-Returns :
      (i : ℕ) (steps : List (TxRunStep I W)) (s : Run W)
      → Decides
      → Returns (run_steps deps i steps s)
  unfolding run_steps
  run_steps-Returns i [] s d = tt
  run_steps-Returns i (step ∷ steps) s d =
      >>=_rule Returns Returns (run_step deps i step) (go_on i steps) s
        (run_step-Returns i step s d)
        (λ o t c. go_on-Returns i steps o t (run_steps-Returns (suc i) steps t d)) (λ e t c. c)

  returned :
      (steps : List (TxRunStep I W)) (w : W) (x : Result ThrownValue (List TxRunOutcome) × Run W)
      → Chained steps w x
      → Returns x
      → (os : List TxRunOutcome) × (s : Run W) × (x ≡ (ok os, s)) × Chain steps w os s.world
  returned steps w (ok os, s) c r = (os, s, refl, c)
  returned steps w (err e, s) c r = absurd r

  -- If the approver never answers with nothing, a sequence returns. Its outcomes answer the steps in
  -- order, each submitted one approved and signed for its own resequenced step in the world that the
  -- step before left; it ends behind the first outcome that was not submitted, with no more work.
  pub run_tx_sequence_in_order :
      (date_now : W → ℕ) (steps : List (TxRunStep I W)) (s : Run W)
      → Decides
      → (os : List TxRunOutcome) × (t : Run W) × (run_tx_sequence date_now (ok deps) steps s
          ≡ (ok os, t))
        × Chain steps s.world os t.world
  unfolding run_tx_sequence
  run_tx_sequence_in_order date_now steps s d =
      returned steps s.world (run_steps deps 0 steps s) (run_steps-Chained 0 steps s)
        (run_steps-Returns 0 steps s d)

module _ {I W : Type 0} (result : ChainToolResult) (intent : I) (w : W) where
  -- The seams could be built, and the approver, asked for this result, answers undefined or null.
  abbrev pub AnswersNothing : Result ThrownValue (TxPipelineDeps I W) → Type 0
  AnswersNothing (ok deps) = (deps.approver (request_of deps result intent) w).0 ≡ ok no_decision
  AnswersNothing (err e) = ⊥
