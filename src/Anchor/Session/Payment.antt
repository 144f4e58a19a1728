-- ===== src/Anchor/Session/Payment.antt =====
-- `payWithdrawal` of stellar/src/anchor/session.ts, from the envelope that it builds to the submission.
use text.Mathlib.Text.{◌==◌ as str_eq}
use stellar_voice_control_pr.Common.{
  ℕ, ◌==◌, ltb, Bool, true, false, not, ◌&&◌, Option, none, some, List, [], ◌∷◌, ◌++◌, String,
  Result, ok, err, if◌then◌else◌,
}
use stellar_voice_control_pr.Common.Text.{Text, present}
use stellar_voice_control_pr.Common.Action.{◌>>=◌, ◌>>◌}
use stellar_voice_control_pr.Anchor.{
  SessionFault, thrown, no_withdrawal, other_amount, no_account, not_enough, no_payout_account,
  bad_destination, other_transaction, unsigned_transaction, AnchorAsset, WithdrawInstructions,
  HorizonBalance, HorizonAccount, Payment, Envelope, Description, AnchorPort, to_stroops,
  assert_amount,
}
use stellar_voice_control_pr.Anchor.Session.State.{WithdrawRequest, Sent, Step, faulty, lift, call}
use stellar_voice_control_pr.Anchor.Session.Caches.{anchor_asset}

abbrev pub names_text : Option String → String → Bool
names_text none text = false
names_text (some s) text = str_eq s text

-- `b.balance` of the line for the asset, or "0".
unfoldable pub balance_of : List HorizonBalance → AnchorAsset → Text
balance_of [] asset = 48 ∷ []
balance_of (b ∷ lines) asset =
    if names_text b.asset_code asset.code && names_text b.asset_issuer asset.issuer
    then b.balance
    else balance_of lines asset

-- The stroops of the request and of the payment are the same.
abbrev same_stroops :
    WithdrawRequest
    → Result SessionFault ℕ
    → Result SessionFault ℕ
    → Result SessionFault WithdrawRequest
same_stroops request (err e) paid = err e
same_stroops request (ok n) (err e) = err e
same_stroops request (ok n) (ok m) = if n == m then ok request else err other_amount

abbrev covers : Result SessionFault ℕ → Result SessionFault ℕ → Result SessionFault (Unit {0})
covers (err e) n = err e
covers (ok h) (err e) = err e
covers (ok h) (ok n) = if ltb h n then err not_enough else ok tt

abbrev same_body :
    Result SessionFault Envelope → Result SessionFault Envelope → Result SessionFault (Unit {0})
same_body (err e) b = err e
same_body (ok a) (err e) = err e
same_body (ok a) (ok b) =
    if not (str_eq a.body_hash b.body_hash)
    then err other_transaction
    else if b.signatures == 0
    then err unsigned_transaction
    else ok tt

module _ {W T : Type 0} (port : AnchorPort W T) where
  -- `buildWithdrawPayment`
  unfoldable pub build_withdraw_payment : Payment → Result SessionFault String
  build_withdraw_payment p =
      if port.is_valid_key p.destination
      then faulty (port.build_envelope p)
      else err bad_destination

  -- The request of this session, if it is for the amount.
  unfoldable pub own_request : Text → Option WithdrawRequest → Result SessionFault WithdrawRequest
  unfolding to_stroops
  own_request amount none = err no_withdrawal
  own_request amount (some request) =
      same_stroops request (to_stroops request.amount) (to_stroops amount)

  -- The balance covers the amount.
  unfoldable pub check_balance : Text → Text → Result SessionFault (Unit {0})
  unfolding to_stroops
  check_balance have amount = covers (to_stroops have) (to_stroops amount)

  unfoldable pub payout_account : WithdrawInstructions → Result SessionFault String
  payout_account w = elim (present w.account_id) [ none ↦ err no_payout_account | some d ↦ ok d ]

  -- The account that pays.
  unfoldable pub funding_account : String → Step W T HorizonAccount
  funding_account account = do
    loaded ← call (port.load_account account)
    lift (elim loaded [ none ↦ err no_account | some a ↦ ok a ])

  abbrev pub payment_for :
      Text → WithdrawRequest → String → HorizonAccount → AnchorAsset → String → Payment
  payment_for amount request account acct a destination = record {
    source = account;
    sequence = acct.sequence;
    asset = a;
    amount = amount;
    destination = destination;
    memo = request.instructions.memo;
  }

  -- The card that describes an envelope.
  abbrev pub describe : String → Result SessionFault (String × Description)
  describe xdr = elim (port.describe_xdr xdr) [
    | err e ↦ err (thrown e)
    | ok described ↦ ok (xdr, described)
  ]

  -- The envelope for a request, once the account and the asset are known.
  unfoldable pub build_for :
      Text
      → WithdrawRequest
      → String
      → HorizonAccount
      → AnchorAsset
      → Result SessionFault (String × Description)
  unfolding check_balance balance_of payout_account build_withdraw_payment
  build_for amount request account acct a =
      elim (check_balance (balance_of acct.balances a) amount) [
        | err e ↦ err e
        | ok _ ↦ elim (payout_account request.instructions) [
          | err e ↦ err e
          | ok d ↦ elim (build_withdraw_payment (payment_for amount request account acct a d)) [
            | err e ↦ err e
            | ok xdr ↦ describe xdr
          ]
        ]
      ]

  -- The envelope, from the account that was read.
  unfoldable pub build_from_account :
      Text → WithdrawRequest → String → HorizonAccount → Step W T (String × Description)
  unfolding anchor_asset build_for
  build_from_account amount request account acct = do
    a ← anchor_asset port
    lift (build_for amount request account acct a)

  unfoldable pub build_from_key : Text → WithdrawRequest → String → Step W T (String × Description)
  unfolding funding_account build_from_account
  build_from_key amount request account =
      funding_account account >>= build_from_account amount request account

  unfoldable pub build_requested : Text → WithdrawRequest → Step W T (String × Description)
  unfolding build_from_key
  build_requested amount request = call port.public_key >>= build_from_key amount request

  unfoldable pub requested :
      Text → Result SessionFault WithdrawRequest → Step W T (String × Description)
  unfolding build_requested
  requested amount (err e) s = (err e, s)
  requested amount (ok request) s = build_requested amount request s

  -- `buildWithdrawal`: the envelope, and the card that describes it.
  unfoldable pub build_withdrawal : Text → Step W T (String × Description)
  unfolding assert_amount own_request requested
  build_withdrawal amount = do
    lift (assert_amount amount)
    (λ s. requested amount (own_request amount s.withdraw_request) s)

  -- `prepareWithdrawal`
  unfoldable pub prepare_withdrawal : Text → Step W T (String × Description)
  unfolding build_withdrawal
  prepare_withdrawal amount = build_withdrawal amount

  -- `assertSameTransaction` of describe.ts
  unfoldable pub assert_same_transaction : String → String → Result SessionFault (Unit {0})
  assert_same_transaction expected actual =
      same_body (faulty (port.read_envelope expected)) (faulty (port.read_envelope actual))

  -- `submitEnvelope`, with the note of what was handed over.
  unfoldable pub submit : String → Step W T String
  submit xdr s =
      let (r, w) = port.submit_envelope xdr s.world in
      let note : Bool → List Sent = λ b. s.sent ++ (record { xdr = xdr; answered = b }) ∷ [] in
      elim r [
        | ok hash ↦ (ok hash, record s { sent = note true; world = w })
        | err e ↦ (err (thrown e), record s { sent = note false; world = w })
      ]

  -- The submission, which closes the request.
  unfoldable pub submit_and_close : String → Step W T String
  unfolding submit
  submit_and_close signed = do
    hash ← submit signed
    (λ s. (ok hash, record s { withdraw_request = none }))

  unfoldable pub submit_checked : String → String → Step W T String
  unfolding assert_same_transaction submit_and_close
  submit_checked xdr signed = lift (assert_same_transaction xdr signed) >> submit_and_close signed

  unfoldable pub sign_and_submit : String × Description → Step W T String
  unfolding submit_checked
  sign_and_submit built = call (port.sign_transaction built.0) >>= submit_checked built.0

  -- `payWithdrawal`
  unfoldable pub pay_withdraw_order : Text → Step W T String
  unfolding build_withdrawal sign_and_submit
  pay_withdraw_order amount = build_withdrawal amount >>= sign_and_submit
