-- ===== src/BankFlow/Withdraw.antt =====
-- `runBankWithdraw` of app/src/lib/bankFlow.ts: from the wallet through the anchor to the bank.
pub mod Books
use text.Mathlib.Text.{◌==◌ as str_eq}
use stellar_voice_control_pr.Common.{
  Bool, true, false, Option, none, some, List, [], ◌∷◌, ◌++◌, String, Result, ok, err,
  if◌then◌else◌,
}
use stellar_voice_control_pr.Common.Text.{Text}
use stellar_voice_control_pr.Common.Action.{pure, throw, ◌>>=◌, ◌>>◌, try_catch}
use stellar_voice_control_pr.BankFlow.Deps.{
  BankFlowKind, withdraw, Fault, no_payout, BankFlowDeps, Phase, reserved, asked_payment,
  paid_anchor, credited, FlowState, quote, bank_transfer, waiting, done_step, active, done, error,
  BankFlowResult, FlowStatus, Detail, cancelled_withdrawal, withdrawal_done, went_wrong,
  BankAnchorTransaction, PendingBankFlow, Order,
}
use stellar_voice_control_pr.BankFlow.{
  Flow, call, note_move, report, set_paid, with_pending, patch_pending, as_paid, drop_pending,
  sync_currency, sign_in, place_order, payout_of, wait_completed, anchor_said_of, or_else,
}

module _ {W F : Type 0} (deps : BankFlowDeps W F) (amount : Text) where
  -- `{ ...base, status, anchorTxId, txHash, detail, credited }`
  abbrev withdraw_result :
      String
      → String
      → FlowStatus
      → Option String
      → Option String
      → Option Bool
      → Detail
      → BankFlowResult
  withdraw_result reference currency status anchor_tx_id tx_hash was_credited detail = record {
    status = status;
    kind = withdraw;
    amount = amount;
    reference = reference;
    currency = currency;
    anchor_tx_id = anchor_tx_id;
    tx_hash = tx_hash;
    refunded = none;
    credited = was_credited;
    detail = detail;
  }

  abbrev pub new_withdrawal : String → W → PendingBankFlow
  new_withdrawal reference w = record {
    reference = reference;
    kind = withdraw;
    amount = amount;
    started_at = deps.now w;
    anchor_tx_id = none;
    phase = reserved;
  }

  -- The quote; the answer is the amount that it promises.
  unfoldable pub quote_for_withdraw : Flow W Text
  quote_for_withdraw = do
    q ← call (deps.quote_withdraw amount)
    sync_currency deps q.buy_asset
    report quote done
    sign_in deps
    pure q.buy_amount

  -- `if (deps.shouldCancel?.()) …`
  unfoldable pub cancel_withdrawal : String → String → Flow W BankFlowResult
  unfolding drop_pending
  cancel_withdrawal reference currency = do
    drop_pending reference
    (λ s. (
      ok (
          withdraw_result reference currency FlowStatus.cancelled s.order_id none none
            cancelled_withdrawal),
      s,
    ))

  -- What follows the answer of `payWithdrawal`.
  unfoldable pub paid_with : String → String → Flow W String
  unfolding patch_pending
  paid_with reference hash = do
    note_move (paid_anchor amount)
    set_paid
    patch_pending reference as_paid
    report bank_transfer done
    report waiting active
    pure hash

  -- The payment on the chain; the answer is its hash. That the session is asked for it is noted
  -- before it answers, since one that throws may have handed the payment over.
  unfoldable pub pay_anchor : String → Flow W String
  unfolding paid_with
  pay_anchor reference = do
    report bank_transfer active
    note_move (asked_payment amount)
    hash ← call (deps.pay_withdrawal amount)
    paid_with reference hash

  -- `if (!payout) throw …`, and the credit of the payout.
  unfoldable pub credit_payout : String → String → String → String → Text → Flow W BankFlowResult
  unfolding drop_pending
  credit_payout reference currency hash anchor_id [] = throw no_payout
  credit_payout reference currency hash anchor_id (c ∷ cs) = do
    call (deps.credit (c ∷ cs) reference anchor_id)
    note_move (credited (c ∷ cs) reference)
    drop_pending reference
    report done_step done
    (λ s. (
      ok (
          withdraw_result reference currency FlowStatus.completed s.order_id (some hash) (some true)
            (withdrawal_done (c ∷ cs))),
      s,
    ))

  abbrev pub credit_of :
      String → String → String → Text → String → BankAnchorTransaction → Flow W BankFlowResult
  credit_of reference currency id buy_amount hash tx =
      credit_payout reference currency hash (or_else tx.stellar_transaction_id id)
        (payout_of deps tx buy_amount)

  unfoldable pub await_payout : String → String → Text → String → String → Flow W BankFlowResult
  await_payout reference currency buy_amount id hash =
      wait_completed deps id >>= credit_of reference currency id buy_amount hash

  unfoldable pub pay_and_credit : String → String → Text → String → Flow W BankFlowResult
  pay_and_credit reference currency buy_amount id =
      pay_anchor reference >>= await_payout reference currency buy_amount id

  unfoldable pub pay_or_cancel : String → String → Text → String → Flow W BankFlowResult
  pay_or_cancel reference currency buy_amount id s =
      if deps.should_cancel s.world
      then cancel_withdrawal reference currency s
      else pay_and_credit reference currency buy_amount id s

  unfoldable pub order_and_pay : String → String → Text → Order F → Flow W BankFlowResult
  order_and_pay reference currency buy_amount order = do
    place_order deps amount reference order
    pay_or_cancel reference currency buy_amount order.id

  unfoldable pub start_and_pay : String → String → Text → Flow W BankFlowResult
  start_and_pay reference currency buy_amount =
      call (deps.start_withdraw amount) >>= order_and_pay reference currency buy_amount

  -- The `try` block.
  unfoldable pub try_withdraw : String → String → Flow W BankFlowResult
  unfolding with_pending quote_for_withdraw
  try_withdraw reference currency = do
    (λ s. with_pending (new_withdrawal reference s.world) s)
    buy_amount ← quote_for_withdraw
    start_and_pay reference currency buy_amount

  -- The `catch` block: a flow that has paid stays pending.
  unfoldable pub keep_if_paid : String → String → Fault → Flow W BankFlowResult
  unfolding drop_pending
  keep_if_paid reference currency fault = do
    (λ s. if s.has_paid then (ok tt, s) else drop_pending reference s)
    (λ s. report (if s.has_paid then waiting else bank_transfer) error s)
    (λ s. (
      ok (
          withdraw_result reference currency FlowStatus.failed s.order_id none none
            (went_wrong fault (anchor_said_of fault))),
      s,
    ))

  -- `runBankWithdraw`
  unfoldable pub run_bank_withdraw : Flow W BankFlowResult
  run_bank_withdraw s =
      let (reference, w) = deps.new_id withdraw s.world in
      (do
        currency ← call deps.account
        report quote active
        try_catch (try_withdraw reference currency) (keep_if_paid reference currency))
        (record s { order_id = none; has_paid = false; world = w })
