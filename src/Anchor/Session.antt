-- ===== src/Anchor/Session.antt =====
-- `AnchorSession` of stellar/src/anchor/session.ts: its caches, the login, and the withdrawal from the
-- order to the payment. Beside the fields of the class the state holds the world, the orders that
-- were bound and the envelopes that were handed to the network, each with the answer. Two steps do
-- not overlap. The narration is left out, and so are the quotes, the deposit and the reports, which
-- change no field but the caches.
pub mod State
pub mod Caches
pub mod Order
pub mod Payment
pub mod Idle
pub mod Pays
pub mod Orders
pub mod Deferred
pub use stellar_voice_control_pr.Anchor.Session.State.{
  WithdrawRequest, Sent, Session, new_session, Step, faulty, lift, call,
}
unfoldable pub use stellar_voice_control_pr.Anchor.Session.Caches.{
  toml, anchor_asset, log_in, token, ask_customer, ensure_kyc, kyc_for_transaction,
}
pub use stellar_voice_control_pr.Anchor.Session.Order.{settle_account}
unfoldable pub use stellar_voice_control_pr.Anchor.Session.Order.{
  name_account, before_wait, pause, resolve_round, resolve_rounds, resolve_deferred_withdraw,
  with_account, request_order, order_account, bind_order, start_withdraw_order,
}
pub use stellar_voice_control_pr.Anchor.Session.Payment.{names_text, payment_for, describe}
unfoldable pub use stellar_voice_control_pr.Anchor.Session.Payment.{
  balance_of, build_withdraw_payment, own_request, check_balance, payout_account, funding_account,
  build_for, build_from_account, build_from_key, build_requested, requested, build_withdrawal,
  prepare_withdrawal, assert_same_transaction, submit, submit_and_close, submit_checked,
  sign_and_submit, pay_withdraw_order,
}
use text.Mathlib.Text.{◌==◌ as str_eq}
use stellar_voice_control_pr.Common.{
  ℕ, zero, suc, ◌+◌, ◌^◌, ◌==◌, leb, ltb, Bool, true, false, not, ◌&&◌, ◌||◌, Option, none, some,
  List, [], ◌∷◌, ◌++◌, String, length, Result, ok, err, if◌then◌else◌,
}
use stellar_voice_control_pr.Common.Text.{Text, present}
use stellar_voice_control_pr.Common.Action.{pure, throw, ◌>>=◌, ◌>>◌}
use stellar_voice_control_pr.Anchor.{
  AnchorThrown, SessionFault, thrown, no_withdrawal, other_amount, no_account, not_enough,
  no_payout_account, bad_destination, own_account, ended_unpaid, payout_overdue, other_transaction,
  unsigned_transaction, no_challenge, out_of_fuel, AnchorAsset, AuthToken, WithdrawInstructions,
  AnchorTransaction, HorizonBalance, HorizonAccount, Envelope, Description, AnchorPort, to_stroops,
  assert_amount, is_expired, classify_status, ended, WithdrawMemo,
}
use stellar_voice_control_pr.Anchor.Memo.{parse_withdraw_memo}

-- What the agent may ask of a session.
pub data Op : Type 0 where
  log begin register : Op
  finish : (signed : String) → Op
  start prepare pay : (amount : Text) → Op

module _ {W T : Type 0} (port : AnchorPort W T) where
  -- `beginLogin`
  unfoldable pub begin_login : Step W T String
  unfolding toml
  begin_login = do
    t ← toml port
    key ← call port.public_key
    challenge ← call (port.request_challenge t key)
    (λ s. (ok challenge, record s { pending_challenge = some challenge }))

  -- `finishLogin`
  unfoldable pub finish_login : String → Step W T AuthToken
  unfolding toml
  finish_login signed s = elim (present s.pending_challenge) [
    | none ↦ (err no_challenge, s)
    | some challenge ↦
        (do
          t ← toml port
          key ← call port.public_key
          token ← call (port.complete_challenge t key challenge signed)
          (λ u. (ok token, record u { token_cache = some token; pending_challenge = none })))
          s
  ]

  -- `login`
  unfoldable pub show_login : Step W T AuthToken
  unfolding token
  show_login = token port

  -- The steps that change a field of the session, as the agent asks for them.
  unfoldable pub run_op : Op → Session W T → Session W T
  unfolding show_login begin_login finish_login start_withdraw_order prepare_withdrawal
      pay_withdraw_order
  run_op log s = (show_login s).1
  run_op begin s = (begin_login s).1
  run_op (finish signed) s = (finish_login signed s).1
  run_op register s = (ensure_kyc port s).1
  run_op (start amount) s = (start_withdraw_order port amount s).1
  run_op (prepare amount) s = (prepare_withdrawal port amount s).1
  run_op (pay amount) s = (pay_withdraw_order port amount s).1

  unfoldable pub run_ops : List Op → Session W T → Session W T
  unfolding run_op
  run_ops [] s = s
  run_ops (op ∷ ops) s = run_ops ops (run_op op s)
