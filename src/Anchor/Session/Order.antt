-- ===== src/Anchor/Session/Order.antt =====
-- `startWithdraw` of stellar/src/anchor/session.ts, with the wait for a deferred payout account.
use text.Mathlib.Text.{◌==◌ as str_eq}
use stellar_voice_control_pr.Common.{
  ℕ, zero, suc, ◌+◌, leb, Option, none, some, [], ◌∷◌, ◌++◌, String, ok, err, if◌then◌else◌,
}
use stellar_voice_control_pr.Common.Text.{Text, present}
use stellar_voice_control_pr.Common.Action.{pure, throw, ◌>>=◌, ◌>>◌}
use stellar_voice_control_pr.Anchor.{
  own_account, ended_unpaid, payout_overdue, out_of_fuel, AuthToken, WithdrawInstructions,
  AnchorTransaction, AnchorPort, assert_amount, classify_status, ended,
}
use stellar_voice_control_pr.Anchor.Memo.{parse_withdraw_memo}
use stellar_voice_control_pr.Anchor.Session.State.{WithdrawRequest, Step, lift, call}
use stellar_voice_control_pr.Anchor.Session.Caches.{toml, token, ensure_kyc, kyc_for_transaction}

module _ {W T : Type 0} (port : AnchorPort W T) where
  -- The payout account that an order names, with its memo.
  unfoldable pub name_account :
      WithdrawInstructions → AnchorTransaction → String → Step W T WithdrawInstructions
  unfolding parse_withdraw_memo
  name_account base tx account_id = do
    key ← call port.public_key
    lift (if str_eq account_id key then err own_account else ok tt)
    memo ← lift (
        parse_withdraw_memo port.byte_length port.hex_of_base64 tx.withdraw_memo
          tx.withdraw_memo_type)
    pure (record base {
      account_id = some account_id;
      memo = elim memo [ none ↦ base.memo | some m ↦ some m ];
    })

  -- What an order without an account asks for.
  unfoldable pub before_wait : String → AnchorTransaction → Step W T (Unit {0})
  unfolding kyc_for_transaction classify_status
  before_wait id tx =
      if str_eq tx.status "pending_customer_info_update"
      then kyc_for_transaction port id
      else lift (elim (classify_status tx.status) [ ended ↦ err ended_unpaid | _ ↦ ok tt ])

  -- `if (now >= deadline) throw …`, and the sleep.
  unfoldable pub pause : ℕ → Step W T (Unit {0})
  pause deadline s =
      if leb deadline (port.now s.world)
      then (err payout_overdue, s)
      else (ok tt, record s { world = port.sleep 2000 s.world })

  -- One round of `for (;;)`, from the account that the order names; `rest` is the loop behind it.
  unfoldable pub resolve_round :
      Step W T WithdrawInstructions
      → ℕ
      → WithdrawInstructions
      → AnchorTransaction
      → Option String
      → Step W T WithdrawInstructions
  unfolding name_account before_wait pause
  resolve_round rest deadline base tx (some account_id) = name_account base tx account_id
  resolve_round rest deadline base tx none = do before_wait base.id tx; pause deadline; rest

  -- `for (;;)` of `resolveDeferredWithdraw`, on fuel.
  unfoldable pub resolve_rounds :
      ℕ → ℕ → WithdrawInstructions → T → AuthToken → Step W T WithdrawInstructions
  unfolding resolve_round
  resolve_rounds zero deadline base t jwt = throw out_of_fuel
  resolve_rounds (suc fuel) deadline base t jwt = do
    tx ← call (port.get_transaction t jwt base.id)
    resolve_round (resolve_rounds fuel deadline base t jwt) deadline base tx
        (present tx.withdraw_anchor_account)

  -- `resolveDeferredWithdraw`
  unfoldable pub resolve_deferred_withdraw : WithdrawInstructions → Step W T WithdrawInstructions
  unfolding toml token kyc_for_transaction resolve_rounds
  resolve_deferred_withdraw base = do
    t ← toml port
    jwt ← token port
    kyc_for_transaction port base.id
    (λ s. resolve_rounds 31 (port.now s.world + 60000) base t jwt s)

  -- The payout account is awaited where the anchor defers it.
  unfoldable pub with_account : WithdrawInstructions → Option String → Step W T WithdrawInstructions
  unfolding resolve_deferred_withdraw
  with_account first none = resolve_deferred_withdraw first
  with_account first (some account_id) = pure first

  -- `startWithdraw` up to the anchor's answer.
  unfoldable pub request_order : Text → Step W T WithdrawInstructions
  unfolding assert_amount ensure_kyc toml token
  request_order amount = do
    lift (assert_amount amount)
    ensure_kyc port
    t ← toml port
    jwt ← token port
    key ← call port.public_key
    call (port.start_withdraw t jwt key amount)

  abbrev pub settle_account : WithdrawInstructions → Step W T WithdrawInstructions
  settle_account first = with_account first (present first.account_id)

  -- `startWithdraw` up to the instructions.
  unfoldable pub order_account : Text → Step W T WithdrawInstructions
  unfolding request_order with_account
  order_account amount = request_order amount >>= settle_account

  -- The order is bound to the session.
  unfoldable pub bind_order : Text → WithdrawInstructions → Step W T WithdrawInstructions
  bind_order amount instructions s =
      let request : WithdrawRequest = record { instructions = instructions; amount = amount } in
      (
        ok instructions,
        record s { withdraw_request = some request; orders = s.orders ++ request ∷ [] },
      )

  -- `startWithdraw`
  unfoldable pub start_withdraw_order : Text → Step W T WithdrawInstructions
  unfolding order_account bind_order
  start_withdraw_order amount = order_account amount >>= bind_order amount
