-- ===== src/Pipeline/Tests.antt =====
-- A plan of two payments through gates that approve, deny and say nothing (app/src/lib/txPipeline.ts).
use stellar_voice_control_pr.Common.{
  ℕ, ◌+◌, ◌≡◌, refl, true, none, some, List, [], ◌∷◌, String, ok, err,
}
use stellar_voice_control_pr.Common.Text.{codes}
use stellar_voice_control_pr.Execution.{
  str, not_str, decision, no_decision, bare_value, executed, Approver, ChainToolResult,
}
use stellar_voice_control_pr.Pipeline.{
  TxRunOutcome, submitted, denied, TxPipelineDeps, TxRunStep, Run, run_tx, run_step,
  run_tx_sequence, receipt, no_approved_field,
}
use stellar_voice_control_pr.Pipeline.Submitted.{StepSigned, run_step_submitted}
use stellar_voice_control_pr.Pipeline.Sequence.{Chain, run_tx_sequence_in_order}

abbrev payment : ChainToolResult
payment = record {
  unsigned_xdr = codes "AAAA";
  summary = record { title = "Send 5"; lines = []; estimated_fee = "100" };
}

abbrev yes_gate : Approver String ℕ
yes_gate request w = (ok (decision true not_str (str "id-1")), w + 1)

abbrev silent_gate : Approver String ℕ
silent_gate request w = (ok no_decision, w + 1)

abbrev with_gate : Approver String ℕ → TxPipelineDeps String ℕ
with_gate gate = record {
  approver = gate;
  sign = λ outcome w. (
    ok (record {
      status = executed;
      tx_hash = some "hash";
      explorer_url = some "link";
      label = none;
      detail = none;
    }),
    w + 1,
  );
  now = λ w. w;
  resequence = λ result w. (ok result, w + 1);
  encode = λ s. s;
}

abbrev pay : TxRunStep String ℕ
pay = record { result = payment; intent = "pay Ali"; label = "Pay"; build = none }

abbrev at_start : Run ℕ
at_start = record { progress = []; world = 0 }

pay_is_submitted : (run_step (with_gate yes_gate) 0 pay at_start).0 ≡ ok (submitted "hash" "link" 3)
unfolding run_step receipt
pay_is_submitted = refl

run_step_submitted_example :
    StepSigned
      (with_gate yes_gate)
      pay
      "hash"
      "link"
      0
      (run_step (with_gate yes_gate) 0 pay at_start).1.world
run_step_submitted_example =
    run_step_submitted (with_gate yes_gate) 0 pay at_start "hash" "link" 3 pay_is_submitted

run_tx_sequence_in_order_example :
    (os : List TxRunOutcome) × (t : Run ℕ) × (run_tx_sequence
        (λ w. w)
        (ok (with_gate yes_gate))
        (pay ∷ pay ∷ [])
        at_start
      ≡ (ok os, t))
    × Chain (with_gate yes_gate) (pay ∷ pay ∷ []) 0 os t.world
run_tx_sequence_in_order_example =
    run_tx_sequence_in_order (with_gate yes_gate) (λ w. w) (pay ∷ pay ∷ []) at_start
      (λ request w e. cc)

-- Nothing at all makes it throw.
silence_throws :
    run_tx (λ w. w) (ok (with_gate silent_gate)) payment "pay Ali" none 0
    ≡ (err no_approved_field, 1)
unfolding run_tx
silence_throws = refl

-- An answer that is a bare value is a denial.
bare_value_is_denied :
    run_tx (λ w. w) (ok (with_gate (λ request w. (ok bare_value, w + 1)))) payment "pay Ali" none 0
    ≡ (ok (denied "Send 5" "the approval gate denied the request" 1), 1)
unfolding run_tx
bare_value_is_denied = refl
