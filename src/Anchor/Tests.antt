-- ===== src/Anchor/Tests.antt =====
-- The anchor client (stellar/src/anchor) at a network whose every call takes a millisecond.
use stellar_voice_control_pr.Common.{
  ℕ, ◌+◌, ◌≤◌, String, ◌≡◌, refl, true, none, some, [], ◌∷◌, ok, err, ltb, if◌then◌else◌, arith,
}
use stellar_voice_control_pr.Common.Text.{codes}
use stellar_voice_control_pr.Anchor.{
  type_error, thrown, AnchorAsset, AuthToken, WithdrawInstructions, AnchorTransaction,
  HorizonAccount, AnchorPort, to_stroops,
}
use stellar_voice_control_pr.Anchor.Poll.{Answers, PollOptions, poll_transaction}
use stellar_voice_control_pr.Anchor.Poll.Rounds.{IsPollClock, PollEnds}
use stellar_voice_control_pr.Anchor.Poll.Ends.{poll_transaction_ends}
use stellar_voice_control_pr.Anchor.Session.{
  WithdrawRequest, Session, new_session, start, pay, pay_withdraw_order, start_withdraw_order,
  run_ops,
}
use stellar_voice_control_pr.Anchor.Session.Pays.{Pays, pay_withdrawal-Pays}
use stellar_voice_control_pr.Anchor.Session.Orders.{
  IsAccounted, run_ops-IsAccounted, PaidTwice, lost_payment_is_paid_again,
}
use stellar_voice_control_pr.Anchor.Session.Deferred.{IsClock, Starts, start_withdraw_ends}

abbrev usdc : AnchorAsset
usdc = record { code = "USDC"; issuer = "GISSUER"; fiat = some "TRY" }

abbrev jwt : AuthToken
jwt = record { jwt = "t"; account = "GME"; expires_at = none }

abbrev deferred : WithdrawInstructions
deferred = record { id = "o1"; account_id = none; memo = none }

abbrev named : WithdrawInstructions
named = record { id = "o1"; account_id = some "GANCHOR"; memo = none }

abbrev paused : AnchorTransaction
paused = record {
  id = "o1";
  status = "pending_customer_info_update";
  withdraw_anchor_account = none;
  withdraw_memo = none;
  withdraw_memo_type = none;
}

abbrev ready : AnchorTransaction
ready = record paused { withdraw_anchor_account = some "GANCHOR" }

abbrev funded : HorizonAccount
funded = record {
  sequence = "7";
  balances =
      (record {
        asset_type = "credit_alphanum4";
        asset_code = some "USDC";
        asset_issuer = some "GISSUER";
        balance = codes "20.5";
      })
      ∷ [];
}

-- The order names its account after three seconds; a submission is answered behind the given time.
abbrev network : ℕ → AnchorPort ℕ (Unit {0})
network answers_from = record {
  now = λ w. w;
  sleep = λ ms w. w + ms;
  discover = λ w. (ok tt, w + 1);
  find_asset = λ t. ok usdc;
  authenticate = λ t w. (ok jwt, w + 1);
  request_challenge = λ t key w. (ok "challenge", w + 1);
  complete_challenge = λ t key challenge signed w. (ok jwt, w + 1);
  ensure_customer = λ t token w. (ok tt, w + 1);
  ensure_transaction_customer = λ t token id w. (ok tt, w + 1);
  public_key = λ w. (ok "GME", w + 1);
  sign_transaction = λ xdr w. (ok xdr, w + 1);
  start_withdraw = λ t token key amount w. (ok deferred, w + 1);
  get_transaction = λ t token id w. (ok (if ltb w 3000 then paused else ready), w + 1);
  load_account = λ key w. (ok (some funded), w + 1);
  submit_envelope = λ xdr w. (if ltb w answers_from then err type_error else ok "hash", w + 1);
  is_valid_key = λ key. true;
  byte_length = λ s. 0;
  hex_of_base64 = λ s. s;
  build_envelope = λ p. ok "xdr";
  read_envelope = λ xdr. ok (record { body_hash = xdr; signatures = 1 });
  describe_xdr = λ xdr. ok (record { lines = []; fee_xlm = "0.00001"; source = "GME" });
}

abbrev request : WithdrawRequest
request = record { instructions = named; amount = codes "12" }

abbrev ordered : Session ℕ (Unit {0})
ordered = record (new_session 0) {
  asset_cache = some usdc;
  withdraw_request = some request;
  orders = request ∷ [];
}

network-IsClock : IsClock (network 0)
network-IsClock = record {
  sleep_lasts = λ ms w. omega arith;
  discover_later = λ w. omega arith;
  authenticate_later = λ t w. omega arith;
  ensure_later = λ t token id w. omega arith;
  get_later = λ t token id w. omega arith;
}

to_stroops_example : to_stroops (codes "20.5") ≡ ok 205000000
unfolding to_stroops
to_stroops_example = refl

pay_withdrawal-Pays_example :
    Pays (network 0) ordered (pay_withdraw_order (network 0) (codes "12") ordered)
pay_withdrawal-Pays_example = pay_withdrawal-Pays (network 0) (codes "12") ordered

run_ops-IsAccounted_example : IsAccounted (network 0) (
    run_ops
      (network 0)
      (start (codes "12") ∷ pay (codes "12.0") ∷ pay (codes "12") ∷ [])
      (new_session 0))
run_ops-IsAccounted_example =
    run_ops-IsAccounted (network 0)
      (start (codes "12") ∷ pay (codes "12.0") ∷ pay (codes "12") ∷ []) 0

start_withdraw_ends_example :
    Starts
      (network 0)
      network-IsClock
      (codes "12")
      (new_session 0)
      (start_withdraw_order (network 0) (codes "12") (new_session 0))
start_withdraw_ends_example =
    start_withdraw_ends (network 0) network-IsClock (codes "12") (new_session 0)

-- The first submission is made at 3 ms and is not answered before 5 ms.
lost_payment_is_paid_again_example :
    PaidTwice
      (network 5)
      ordered
      (pay_withdraw_order
        (network 5)
        (codes "12")
        (pay_withdraw_order (network 5) (codes "12") ordered).1).1
unfolding pay_withdraw_order
lost_payment_is_paid_again_example =
    lost_payment_is_paid_again (network 5) (codes "12") ordered
      (pay_withdraw_order (network 5) (codes "12") ordered).1
      (pay_withdraw_order (network 5) (codes "12")
        (pay_withdraw_order (network 5) (codes "12") ordered).1).1
      (thrown type_error) "hash" refl (λ h. cc) refl

-- An order that the anchor moves on with time.
abbrev status_at : ℕ → String
status_at w =
    if ltb w 3000
    then "pending_customer_info_update"
    else if ltb w 8000
    then "pending_anchor"
    else "completed"

abbrev polled : PollOptions ℕ
polled = record {
  now = λ w. w;
  sleep = λ ms w. w + ms;
  read = λ w. (ok (record paused { status = status_at w }), w + 1);
  ask_customer_fields = λ w. w;
  has_customer_server = true;
  interval = 2000;
  timeout = 10000;
  max_failures = 3;
  stop_at = [];
  on_update = λ tx w. (ok tt, w);
  on_pending_trust = none;
  on_customer_info = some (λ tx w. (ok tt, w + 5));
}

info_callback_later :
    (f : AnchorTransaction → Answers ℕ (Unit {0}))
    → some (λ tx w. (ok tt, w + 5)) ≡ some f
    → (tx : AnchorTransaction) (w : ℕ) → w ≤ (f tx w).1
info_callback_later f h tx w = ground arith

polled-IsPollClock : IsPollClock polled
polled-IsPollClock = record {
  sleep_lasts = λ ms w. omega arith;
  read_later = λ w. omega arith;
  update_later = λ tx w. omega arith;
  trust_later = λ f h tx w. cc;
  info_later = info_callback_later;
}

poll_transaction_ends_example : PollEnds polled 0 (poll_transaction polled 36 0)
poll_transaction_ends_example =
    poll_transaction_ends polled 5 36 0 polled-IsPollClock (omega arith) (omega arith) (omega arith)

-- Two questions, two waits, and the end.
polled_history :
    (poll_transaction polled 36 0).1.history
    ≡ "pending_customer_info_update" ∷ "pending_anchor" ∷ "completed" ∷ []
unfolding poll_transaction
polled_history = refl
