-- ===== src/BankFlow/Reconcile.antt =====
-- `reconcileBankFlows` of app/src/lib/bankFlow.ts: the pending flows after a restart.
pub mod Laws
use text.Mathlib.Text.{◌==◌ as str_eq}
use stellar_voice_control_pr.Common.{
  Bool, true, false, Option, none, some, List, [], ◌∷◌, ◌++◌, String, Result, ok, err,
  if◌then◌else◌,
}
use stellar_voice_control_pr.Common.Text.{Text, present}
use stellar_voice_control_pr.Common.Action.{pure, ◌>>=◌, ◌>>◌, try_catch}
use stellar_voice_control_pr.BankFlow.Deps.{
  BankFlowKind, deposit, withdraw, Fault, BankFlowDeps, settled, refunded, credited, FlowState,
  waiting, error, BankFlowResult, FlowStatus, Detail, never_reached_anchor, recovered_deposit,
  recovered_payout, recovered_end, BankAnchorTransaction, PendingBankFlow,
}
use stellar_voice_control_pr.BankFlow.{
  Flow, call, note_move, report, drop_pending, payout_of, or_else, is_failed_status,
}

abbrev pub push_result : Option BankFlowResult → List BankFlowResult → List BankFlowResult
push_result none results = results
push_result (some r) results = results ++ r ∷ []

module _ {W F : Type 0} (deps : BankFlowDeps W F) where
  -- What is pushed to `results`; a money move and the drop of the flow stand before it.
  abbrev recovered :
      FlowStatus
      → Option String
      → Option Bool
      → Option Bool
      → Detail
      → PendingBankFlow
      → BankFlowResult
  recovered status id was_refunded was_credited detail flow = record {
    status = status;
    kind = flow.kind;
    amount = flow.amount;
    reference = flow.reference;
    currency = "";
    anchor_tx_id = id;
    tx_hash = none;
    refunded = was_refunded;
    credited = was_credited;
    detail = detail;
  }

  abbrev refund_flow : PendingBankFlow → BankFlowResult → Flow W (Option BankFlowResult)
  refund_flow flow result = do
    call (deps.refund flow.reference)
    note_move (refunded flow.reference)
    drop_pending flow.reference
    pure (some result)

  abbrev settle_flow : PendingBankFlow → BankFlowResult → Flow W (Option BankFlowResult)
  settle_flow flow result = do
    call (deps.settle flow.reference)
    note_move (settled flow.reference)
    drop_pending flow.reference
    pure (some result)

  abbrev drop_flow : PendingBankFlow → BankFlowResult → Flow W (Option BankFlowResult)
  drop_flow flow result = do drop_pending flow.reference; pure (some result)

  -- A withdrawal that the anchor completed: without a payout the flow stays pending.
  unfoldable pub credit_flow :
      PendingBankFlow → String → String → Text → Flow W (Option BankFlowResult)
  unfolding drop_pending
  credit_flow flow id anchor_id [] = pure none
  credit_flow flow id anchor_id (c ∷ cs) = do
    call (deps.credit (c ∷ cs) flow.reference anchor_id)
    note_move (credited (c ∷ cs) flow.reference)
    drop_flow flow
        (recovered FlowStatus.completed (some id) none (some true) (recovered_payout (c ∷ cs)) flow)

  -- A deposit that has an order.
  unfoldable pub recover_deposit :
      PendingBankFlow → String → BankAnchorTransaction → Flow W (Option BankFlowResult)
  unfolding drop_pending is_failed_status
  recover_deposit flow id tx =
      if str_eq tx.status "completed"
      then settle_flow flow
          (recovered FlowStatus.completed (some id) none none recovered_deposit flow)
      else if is_failed_status tx.status
      then refund_flow flow
          (recovered FlowStatus.failed (some id) (some true) none (recovered_end tx.status) flow)
      else pure none

  unfoldable pub recover_withdrawal :
      PendingBankFlow → String → BankAnchorTransaction → Flow W (Option BankFlowResult)
  unfolding drop_pending is_failed_status payout_of credit_flow
  recover_withdrawal flow id tx =
      if str_eq tx.status "completed"
      then credit_flow flow id (or_else tx.stellar_transaction_id id) (payout_of deps tx [])
      else if is_failed_status tx.status
      then drop_flow flow
          (recovered FlowStatus.failed (some id) none none (recovered_end tx.status) flow)
      else pure none

  unfoldable pub recover_with_order :
      BankFlowKind → PendingBankFlow → String → Flow W (Option BankFlowResult)
  recover_with_order deposit flow id = call (deps.transaction id) >>= recover_deposit flow id
  recover_with_order withdraw flow id = call (deps.transaction id) >>= recover_withdrawal flow id

  unfoldable pub recover_without_order :
      BankFlowKind → PendingBankFlow → Flow W (Option BankFlowResult)
  unfolding drop_pending
  recover_without_order deposit flow =
      refund_flow flow (recovered FlowStatus.failed none (some true) none never_reached_anchor flow)
  recover_without_order withdraw flow =
      drop_flow flow (recovered FlowStatus.failed none none none never_reached_anchor flow)

  -- One round of the loop, without its `try`.
  unfoldable pub recover : PendingBankFlow → Flow W (Option BankFlowResult)
  recover flow s = elim (present flow.anchor_tx_id) [
    | none ↦ recover_without_order flow.kind flow s
    | some id ↦ recover_with_order flow.kind flow id s
  ]

  -- A thrown error leaves the flow for the next start.
  abbrev pub leave_pending : Fault → Flow W (Option BankFlowResult)
  leave_pending fault = report waiting error >> pure none

  unfoldable pub recover_safely : PendingBankFlow → Flow W (Option BankFlowResult)
  recover_safely flow = try_catch (recover flow) leave_pending

  unfoldable pub recover_each :
      List PendingBankFlow → List BankFlowResult → Flow W (List BankFlowResult)
  recover_each [] results s = (ok results, s)
  recover_each (flow ∷ flows) results s =
      (recover_safely flow >>= λ r. recover_each flows (push_result r results)) s

  -- `reconcileBankFlows`: the loop runs over the flows that were loaded at its start.
  unfoldable pub reconcile_bank_flows : Flow W (List BankFlowResult)
  unfolding recover_each
  reconcile_bank_flows s = recover_each s.pending [] s
