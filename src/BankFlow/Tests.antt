-- ===== src/BankFlow/Tests.antt =====
-- The bank flows (app/src/lib/bankFlow.ts) at a bank and an anchor that answer every call.
use stellar_voice_control_pr.Common.{
  ℕ, ◌+◌, ◌*◌, ◌-◌, ◌≡◌, refl, true, false, none, some, [], ◌∷◌, Result, ok, err, ltb,
}
use stellar_voice_control_pr.Common.Text.{Text, codes}
use stellar_voice_control_pr.BankFlow.Deps.{
  withdraw, Fault, BankFlowDeps, BankAnchorTransaction, PollOutcome, Phase, FlowState,
  PendingBankFlow, debited, settled, credited, asked_payment, thrown,
}
use stellar_voice_control_pr.BankFlow.{
  fiat_code_of, is_plain_decimal, payout_of, sign_in, sync_currency, place_order, wait_completed,
  with_pending, drop_pending, others, patch_where,
}
use stellar_voice_control_pr.BankFlow.Deposit.{
  run_bank_deposit, try_deposit, reserve, quote_for_deposit, order_or_cancel, order_deposit,
  sandbox_transfer, settle_deposit,
}
use stellar_voice_control_pr.BankFlow.Deposit.Books.{DepositEnds, run_bank_deposit_ends}
use stellar_voice_control_pr.BankFlow.Withdraw.{
  run_bank_withdraw, try_withdraw, start_and_pay, order_and_pay, pay_or_cancel, pay_and_credit,
  pay_anchor, keep_if_paid,
}
use stellar_voice_control_pr.BankFlow.Withdraw.Books.{WithdrawEnds, run_bank_withdraw_ends}
use stellar_voice_control_pr.BankFlow.Reconcile.{
  reconcile_bank_flows, recover_safely, recover, recover_with_order, recover_withdrawal,
}
use stellar_voice_control_pr.BankFlow.Reconcile.Laws.{Reconciles, reconcile_bank_flows_ends}

-- A text of digits as a number.
abbrev read_number : ℕ → Text → ℕ
read_number n [] = n
read_number n (c ∷ cs) = read_number (10 * n + (c - 48)) cs

abbrev order_done : BankAnchorTransaction
order_done = record {
  status = "completed";
  amount_out = some (codes "95");
  stellar_transaction_id = none;
  message = none;
}

abbrev fine : ℕ → Result Fault (Unit {0}) × ℕ
fine w = (ok tt, w + 1)

-- Every call counts the world up by one; the wait ends as the first argument says.
abbrev answering : PollOutcome → BankFlowDeps ℕ ℕ
answering outcome = record {
  number = read_number 0;
  is_finite = λ n. true;
  is_below = ltb;
  is_positive = λ n. ltb 0 n;
  now = λ w. w;
  new_id = λ kind w. ("flow-1", w + 1);
  should_cancel = λ w. false;
  sandbox_bank = true;
  account = λ w. (ok "TRY", w + 1);
  debit = λ amount r w. (ok "TRY", w + 1);
  credit = λ payout r id. fine;
  settle = λ r. fine;
  refund = λ r. fine;
  set_currency = none;
  quote_deposit = λ amount w. (
    ok (record {
      buy_amount = codes "95";
      sell_asset = codes "iso4217:TRY";
      buy_asset = codes "stellar:USDC";
    }),
    w + 1,
  );
  quote_withdraw = λ amount w. (
    ok (record {
      buy_amount = codes "94";
      sell_asset = codes "stellar:USDC";
      buy_asset = codes "iso4217:TRY";
    }),
    w + 1,
  );
  login = fine;
  prepare_account = fine;
  start_deposit =
      λ amount w. (ok (record { id = "a1"; min_amount = some 10; max_amount = none }), w + 1);
  start_withdraw =
      λ amount w. (ok (record { id = "a2"; min_amount = some 10; max_amount = none }), w + 1);
  pay_withdrawal = λ amount w. (ok "hash", w + 1);
  simulate_bank = λ id amount. fine;
  wait_for_transaction = λ id w. ((ok (record { outcome = outcome; tx = order_done }), 2), w + 1);
  transaction = λ id w. (ok order_done, w + 1);
}

abbrev left_over : PendingBankFlow
left_over = record {
  reference = "flow-0";
  kind = withdraw;
  amount = codes "100";
  started_at = 3;
  anchor_tx_id = some "a0";
  phase = Phase.paid;
}

abbrev opening : FlowState ℕ
opening = record {
  pending = left_over ∷ [];
  steps = [];
  moves = [];
  order_id = none;
  has_paid = false;
  world = 0;
}

currency_is_read : fiat_code_of (codes "iso4217:USD") ≡ some (codes "USD")
unfolding fiat_code_of
currency_is_read = refl

currency_is_refused : fiat_code_of (codes "iso4217:usd") ≡ none
unfolding fiat_code_of
currency_is_refused = refl

deposit_completes :
    (run_bank_deposit (answering PollOutcome.completed) (codes "100") opening).1.moves
    ≡ debited "flow-1" ∷ settled "flow-1" ∷ []
unfolding run_bank_deposit try_deposit reserve quote_for_deposit order_or_cancel order_deposit
    sign_in sync_currency place_order sandbox_transfer wait_completed settle_deposit with_pending
    drop_pending fiat_code_of
deposit_completes = refl

run_bank_deposit_ends_example :
    DepositEnds
      (answering PollOutcome.failed)
      (codes "100")
      opening
      (run_bank_deposit (answering PollOutcome.failed) (codes "100") opening)
run_bank_deposit_ends_example =
    run_bank_deposit_ends (answering PollOutcome.failed) (codes "100") opening

run_bank_withdraw_ends_example :
    WithdrawEnds
      (answering PollOutcome.stopped)
      (codes "100")
      opening
      (run_bank_withdraw (answering PollOutcome.stopped) (codes "100") opening)
run_bank_withdraw_ends_example =
    run_bank_withdraw_ends (answering PollOutcome.stopped) (codes "100") opening

reconcile_bank_flows_ends_example :
    Reconciles
      (answering PollOutcome.completed)
      (left_over ∷ [])
      []
      opening
      (reconcile_bank_flows (answering PollOutcome.completed) opening)
reconcile_bank_flows_ends_example =
    reconcile_bank_flows_ends (answering PollOutcome.completed) opening

-- A recovered withdrawal that the anchor completed is credited once.
recovered_is_credited :
    let t = (reconcile_bank_flows (answering PollOutcome.completed) opening).1 in
    (t.pending ≡ []) × (t.moves ≡ credited (codes "95") "flow-0" ∷ []) × (t.world ≡ 2)
unfolding reconcile_bank_flows payout_of is_plain_decimal recover_safely recover recover_with_order
    recover_withdrawal others
recovered_is_credited = (refl, refl, refl)

-- A payment that throws, be it behind its submission: the withdrawal is not pending any more.
unanswered_is_dropped :
    let deps = record (answering PollOutcome.completed) {
      pay_withdrawal = λ amount w. (err (thrown "timeout" none), w + 1);
    } in
    let t = (run_bank_withdraw deps (codes "100") opening).1 in
    (t.moves ≡ asked_payment (codes "100") ∷ []) × (t.pending ≡ opening.pending)
unfolding run_bank_withdraw try_withdraw sync_currency fiat_code_of sign_in start_and_pay
    order_and_pay place_order pay_or_cancel pay_and_credit pay_anchor keep_if_paid others
    patch_where
unanswered_is_dropped = (refl, refl)
