-- ===== src/Anchor/Session/Idle.antt =====
-- Steps of the anchor session (stellar/src/anchor/session.ts) that leave its request, its orders and
-- what it sent alone.
use stellar_voice_control_pr.Common.{
  ℕ, zero, suc, ◌≡◌, refl, none, some, Option, String, Result, arith, Result-cases, inl, inr,
}
use stellar_voice_control_pr.Common.Text.{Text, present}
use stellar_voice_control_pr.Common.Action.{pure, ◌>>=◌, ◌>>◌}
use stellar_voice_control_pr.Anchor.{
  AnchorThrown, SessionFault, AnchorPort, WithdrawInstructions, AnchorTransaction, AuthToken,
}
use stellar_voice_control_pr.Anchor.Session.{
  Session, Step, lift, call, toml, anchor_asset, log_in, token, ask_customer, ensure_kyc,
  kyc_for_transaction, name_account, before_wait, pause, resolve_round, resolve_rounds,
  resolve_deferred_withdraw, funding_account, with_account, request_order, settle_account,
  order_account, begin_login, finish_login,
}

module _ {W T : Type 0} where
  abbrev pub Same : Session W T → Session W T → Type 0
  Same s t = (t.withdraw_request ≡ s.withdraw_request) × (t.orders ≡ s.orders) × (t.sent ≡ s.sent)

  abbrev pub Idle : {A : Type 0} → Step W T A → Type 0
  Idle m = (s : Session W T) → Same s (m s).1

  pub >>=-Idle :
      {A B : Type 0} (m : Step W T A) (f : A → Step W T B)
      → Idle m
      → ((a : A) → Idle (f a))
      → Idle (m >>= f)
  >>=-Idle m f qm qf s = elim (Result-cases (m s).0) [
    | inl (a, e) ↦ ground (arith, qm s, qf a (m s).1)
    | inr (x, e) ↦ ground (arith, qm s)
  ]

  pub >>-Idle : {A B : Type 0} (m : Step W T A) (k : Step W T B) → Idle m → Idle k → Idle (m >> k)
  >>-Idle m k qm qk = >>=-Idle m (λ _. k) qm (λ _. qk)

  pub pure-Idle : {A : Type 0} (a : A) → Idle (λ (s : Session W T). pure a s)
  pure-Idle a s = (refl, refl, refl)

  pub lift-Idle : {A : Type 0} (r : Result SessionFault A) → Idle (λ (s : Session W T). lift r s)
  lift-Idle r s = (refl, refl, refl)

  pub call-Idle : {A : Type 0} (f : W → Result AnchorThrown A × W) → Idle (call f)
  call-Idle f s = (refl, refl, refl)

  module _ (port : AnchorPort W T) where
    pub toml-Idle : Idle (toml port)
    unfolding toml
    toml-Idle s = ground arith

    pub anchor_asset-Idle : Idle (anchor_asset port)
    unfolding anchor_asset
    anchor_asset-Idle s = ground (arith, toml-Idle s)

    pub log_in-Idle : Idle (log_in port)
    unfolding log_in
    log_in-Idle s = ground (arith, toml-Idle s)

    pub token-Idle : Idle (token port)
    unfolding token
    token-Idle s = ground (arith, log_in-Idle s)

    pub kyc_for_transaction-Idle : (id : String) → Idle (kyc_for_transaction port id)
    unfolding kyc_for_transaction
    kyc_for_transaction-Idle id = search (>>=-Idle, call-Idle, toml-Idle, token-Idle)

    pub kyc-Idle : Idle (ensure_kyc port)
    unfolding ensure_kyc ask_customer
    kyc-Idle s = ground (arith, toml-Idle s, token-Idle (toml port s).1)

    pub name_account-Idle :
        (base : WithdrawInstructions) (tx : AnchorTransaction) (account_id : String)
        → Idle (name_account port base tx account_id)
    unfolding name_account
    name_account-Idle base tx account_id =
        search (>>=-Idle, >>-Idle, call-Idle, lift-Idle, pure-Idle)

    pub before_wait-Idle : (id : String) (tx : AnchorTransaction) → Idle (before_wait port id tx)
    unfolding before_wait
    before_wait-Idle id tx s = ground (arith, kyc_for_transaction-Idle id s)

    pub pause-Idle : (deadline : ℕ) → Idle (pause port deadline)
    unfolding pause
    pause-Idle deadline s = ground arith

    pub resolve_round-Idle :
        (rest : Step W T WithdrawInstructions) (deadline : ℕ) (base : WithdrawInstructions)
        (tx : AnchorTransaction) (o : Option String)
        → Idle rest
        → Idle (resolve_round port rest deadline base tx o)
    unfolding resolve_round
    resolve_round-Idle rest deadline base tx (some a) q = name_account-Idle base tx a
    resolve_round-Idle rest deadline base tx none q =
        search (>>-Idle, before_wait-Idle, pause-Idle, q) depth 6

    pub resolve_rounds-Idle :
        (fuel deadline : ℕ) (base : WithdrawInstructions) (t : T) (jwt : AuthToken)
        → Idle (resolve_rounds port fuel deadline base t jwt)
    unfolding resolve_rounds
    resolve_rounds-Idle zero deadline base t jwt s = (refl, refl, refl)
    resolve_rounds-Idle (suc fuel) deadline base t jwt s =
        search
          (>>=-Idle, call-Idle, resolve_round-Idle, resolve_rounds-Idle fuel deadline base t jwt)
          depth 6

    pub resolve_deferred_withdraw-Idle :
        (base : WithdrawInstructions) → Idle (resolve_deferred_withdraw port base)
    unfolding resolve_deferred_withdraw
    resolve_deferred_withdraw-Idle base =
        search
          (>>=-Idle, >>-Idle, toml-Idle, token-Idle, kyc_for_transaction-Idle, resolve_rounds-Idle)
          depth 8

    pub funding_account-Idle : (account : String) → Idle (funding_account port account)
    unfolding funding_account
    funding_account-Idle account s = ground arith

    pub with_account-Idle :
        (first : WithdrawInstructions) (o : Option String) → Idle (with_account port first o)
    unfolding with_account
    with_account-Idle first none s = resolve_deferred_withdraw-Idle first s
    with_account-Idle first (some a) s = (refl, refl, refl)

    pub request_order-Idle : (amount : Text) → Idle (request_order port amount)
    unfolding request_order
    request_order-Idle amount =
        search (>>=-Idle, >>-Idle, lift-Idle, call-Idle, kyc-Idle, toml-Idle, token-Idle) depth 12

    pub place_order-Idle : (amount : Text) → Idle (order_account port amount)
    unfolding order_account
    place_order-Idle amount =
        >>=-Idle (request_order port amount) (settle_account port) (request_order-Idle amount)
          (λ first. with_account-Idle first (present first.account_id))

    pub begin_login-Idle : Idle (begin_login port)
    unfolding begin_login
    begin_login-Idle s = ground (arith, toml-Idle s)

    pub finish_login-Idle : (signed : String) → Idle (finish_login port signed)
    unfolding finish_login
    finish_login-Idle signed s = ground (arith, toml-Idle s)
