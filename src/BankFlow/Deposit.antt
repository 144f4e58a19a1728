-- ===== src/BankFlow/Deposit.antt =====
-- `runBankDeposit` of app/src/lib/bankFlow.ts: from the bank through the anchor to the wallet.
pub mod Books
use stellar_voice_control_pr.Common.{
  ℕ, ◌≡◌, refl, Bool, true, false, Option, none, some, List, [], ◌∷◌, ◌++◌, String, Result, ok, err,
  if◌then◌else◌, arith,
}
use stellar_voice_control_pr.Common.Text.{Text}
use stellar_voice_control_pr.Common.Action.{pure, ◌>>=◌, ◌>>◌, try_catch}
use stellar_voice_control_pr.BankFlow.Deps.{
  BankFlowKind, deposit, Fault, BankFlowDeps, Phase, reserved, debited, settled, refunded,
  FlowState, quote, bank_transfer, waiting, done_step, active, done, error, BankFlowResult,
  FlowStatus, Detail, cancelled_deposit, deposit_done, went_wrong, Move,
}
use stellar_voice_control_pr.BankFlow.{
  Flow, call, note_move, report, with_pending, drop_pending, sync_currency, sign_in, place_order,
  wait_completed, anchor_said_of, others,
}

module _ {W F : Type 0} (deps : BankFlowDeps W F) (amount : Text) where
  -- `{ ...base, status, currency, anchorTxId, detail, refunded }`
  abbrev deposit_result :
      String → String → FlowStatus → Option String → Bool → Detail → BankFlowResult
  deposit_result reference currency status anchor_tx_id was_refunded detail = record {
    status = status;
    kind = deposit;
    amount = amount;
    reference = reference;
    currency = currency;
    anchor_tx_id = anchor_tx_id;
    tx_hash = none;
    refunded = some was_refunded;
    credited = none;
    detail = detail;
  }

  -- The reservation, before the quote; the answer is the ledger's currency.
  unfoldable pub reserve : String → Flow W String
  unfolding with_pending
  reserve reference = do
    currency ← call (deps.debit amount reference)
    note_move (debited reference)
    (λ s.
        with_pending
          (record {
            reference = reference;
            kind = deposit;
            amount = amount;
            started_at = deps.now s.world;
            anchor_tx_id = none;
            phase = reserved;
          })
          s)
    pure currency

  unfoldable pub quote_for_deposit : Flow W (Unit {0})
  unfolding sync_currency
  quote_for_deposit = do
    q ← call (deps.quote_deposit amount)
    sync_currency deps q.sell_asset
    report quote done

  -- `if (deps.shouldCancel?.()) …`
  unfoldable pub cancel_deposit : String → String → Flow W BankFlowResult
  unfolding drop_pending
  cancel_deposit reference currency = do
    call (deps.refund reference)
    note_move (refunded reference)
    drop_pending reference
    pure (deposit_result reference currency FlowStatus.cancelled none true cancelled_deposit)

  -- `if (deps.sandboxBank !== false) …`
  unfoldable pub sandbox_transfer : String → Flow W (Unit {0})
  sandbox_transfer id s =
      if deps.sandbox_bank
      then (do
        report bank_transfer active
        call (deps.simulate_bank id amount)
        report bank_transfer done)
          s
      else (ok tt, s)

  -- From the login to the anchor's answer.
  unfoldable pub order_deposit : String → Flow W (Unit {0})
  order_deposit reference = do
    sign_in deps
    order ← call (deps.start_deposit amount)
    place_order deps amount reference order
    sandbox_transfer order.id
    report waiting active
    tx ← wait_completed deps order.id
    pure tt

  unfoldable pub settle_deposit : String → String → Flow W BankFlowResult
  unfolding drop_pending
  settle_deposit reference currency = do
    call (deps.settle reference)
    note_move (settled reference)
    drop_pending reference
    report done_step done
    (λ s. (
      ok (deposit_result reference currency FlowStatus.completed s.order_id false deposit_done),
      s,
    ))

  unfoldable pub order_or_cancel : String → String → Flow W BankFlowResult
  order_or_cancel reference currency s =
      if deps.should_cancel s.world
      then cancel_deposit reference currency s
      else (order_deposit reference >> settle_deposit reference currency) s

  -- The `try` block.
  unfoldable pub try_deposit : String → Flow W BankFlowResult
  unfolding reserve quote_for_deposit order_deposit
  try_deposit reference = do
    currency ← reserve reference
    quote_for_deposit
    order_or_cancel reference currency

  -- `try { await deps.bank.refund(reference); refunded = true } catch {}`
  unfoldable pub try_refund : String → Flow W Bool
  try_refund reference =
      try_catch (call (deps.refund reference) >> (note_move (refunded reference) >> pure true))
        (λ _. pure false)

  unfoldable pub failed_deposit : String → String → Fault → Bool → Flow W BankFlowResult
  unfolding drop_pending
  failed_deposit reference currency fault was_refunded = do
    drop_pending reference
    report (if was_refunded then bank_transfer else quote) error
    (λ s. (
      ok (
          deposit_result reference currency FlowStatus.failed s.order_id was_refunded
            (went_wrong fault (anchor_said_of fault))),
      s,
    ))

  -- The `catch` block: the reservation is given back if the bank takes it.
  unfoldable pub give_back : String → String → Fault → Flow W BankFlowResult
  give_back reference currency fault = do
    was_refunded ← try_refund reference
    failed_deposit reference currency fault was_refunded

  -- `runBankDeposit`
  unfoldable pub run_bank_deposit : Flow W BankFlowResult
  run_bank_deposit s =
      let (reference, w) = deps.new_id deposit s.world in
      (do
        currency ← call deps.account
        report quote active
        try_catch (try_deposit reference) (give_back reference currency))
        (record s { order_id = none; has_paid = false; world = w })
