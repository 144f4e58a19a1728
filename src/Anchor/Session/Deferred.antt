-- ===== src/Anchor/Session/Deferred.antt =====
-- How a withdrawal order is started (`startWithdraw` and `resolveDeferredWithdraw` of
-- stellar/src/anchor/session.ts), with the wait for a payout account.
use stellar_voice_control_pr.Common.{
  ℕ, zero, suc, ◌+◌, ◌*◌, ◌≤◌, ◌<◌, ◌≡◌, ◌≢◌, refl, none, some, true, [], ◌∷◌, String, Option,
  Result, ok, err, arith, Result-cases, Option-cases, inl, inr,
}
use stellar_voice_control_pr.Common.Text.{Text, present}
use stellar_voice_control_pr.Common.Action.{◌>>=◌, ◌>>◌, >>=_rule}
use stellar_voice_control_pr.Anchor.{
  AnchorThrown, SessionFault, out_of_fuel, AnchorPort, WithdrawInstructions, AnchorTransaction,
  AuthToken, assert_amount, MemoType, memo_text, memo_id, memo_hash,
}
use stellar_voice_control_pr.Anchor.Memo.{
  parse_withdraw_memo, parse_present, memo_type_of, parse_typed, parse_id, parse_hash,
}
use stellar_voice_control_pr.Anchor.Session.{
  Session, Step, faulty, lift, call, toml, log_in, token, ask_customer, ensure_kyc,
  kyc_for_transaction, name_account, before_wait, pause, resolve_round, resolve_rounds,
  resolve_deferred_withdraw, with_account, request_order, settle_account, order_account, bind_order,
  start_withdraw_order,
}
use stellar_voice_control_pr.Anchor.Session.Idle.{Same, place_order-Idle}

-- The clock: no call sets it back, and a sleep lasts as long as it was asked to.
pub record IsClock {W T : Type 0} (port : AnchorPort W T) : Type 0 where
  pub sleep_lasts : (ms : ℕ) (w : W) → port.now w + ms ≤ port.now (port.sleep ms w)
  pub discover_later : (w : W) → port.now w ≤ port.now (port.discover w).1
  pub authenticate_later : (t : T) (w : W) → port.now w ≤ port.now (port.authenticate t w).1
  pub ensure_later :
      (t : T) (jwt : AuthToken) (id : String) (w : W)
      → port.now w ≤ port.now (port.ensure_transaction_customer t jwt id w).1
  pub get_later :
      (t : T) (jwt : AuthToken) (id : String) (w : W)
      → port.now w ≤ port.now (port.get_transaction t jwt id w).1

module _ {W T : Type 0} (port : AnchorPort W T) where
  abbrev Fueled : {A : Type 0} → Result SessionFault A → Type 0
  Fueled (ok a) = Unit
  Fueled (err e) = e ≢ out_of_fuel

  faulty-Fueled : {A : Type 0} (r : Result AnchorThrown A) → Fueled (faulty r)
  faulty-Fueled (ok a) = tt
  faulty-Fueled (err e) = λ h. cc

  abbrev Fuels : {A : Type 0} → Step W T A → Type 0
  Fuels m = (s : Session W T) → Fueled (m s).0

  >>=-Fuels :
      {A B : Type 0} (m : Step W T A) (f : A → Step W T B)
      → Fuels m
      → ((a : A) → Fuels (f a))
      → Fuels (m >>= f)
  >>=-Fuels m f qm qf s = elim (Result-cases (m s).0) [
    | inl (a, e) ↦ ground (arith, qm s, qf a (m s).1)
    | inr (x, e) ↦ ground (arith, qm s)
  ]

  >>-Fuels : {A B : Type 0} (m : Step W T A) (k : Step W T B) → Fuels m → Fuels k → Fuels (m >> k)
  >>-Fuels m k qm qk = >>=-Fuels m (λ _. k) qm (λ _. qk)

  call-Fuels : {A : Type 0} (f : W → Result AnchorThrown A × W) → Fuels (call f)
  call-Fuels f s = faulty-Fueled (f s.world).0

  -- The step does not run out of fuel, and the clock is not set back.
  abbrev Timely : {A : Type 0} → Step W T A → Type 0
  Timely m = (s : Session W T) → Fueled (m s).0 × (port.now s.world ≤ port.now (m s).1.world)

  >>=-Timely :
      {A B : Type 0} (m : Step W T A) (f : A → Step W T B)
      → Timely m
      → ((a : A) → Timely (f a))
      → Timely (m >>= f)
  >>=-Timely m f qm qf s = elim (Result-cases (m s).0) [
    | inl (a, e) ↦ ground (arith, qm s, qf a (m s).1)
    | inr (x, e) ↦ ground (arith, qm s)
  ]

  call-Timely :
      {A : Type 0} (f : W → Result AnchorThrown A × W)
      → ((w : W) → port.now w ≤ port.now (f w).1)
      → Timely (call f)
  call-Timely f later s = (faulty-Fueled (f s.world).0, later s.world)

  -- The answer names a payout account, or what is thrown is not the lack of fuel.
  abbrev Settled : Result SessionFault WithdrawInstructions → Type 0
  Settled (ok i) = (a : String) × (present i.account_id ≡ some a)
  Settled (err e) = e ≢ out_of_fuel

  parse_typed-Fueled :
      (t : MemoType) (value : Text)
      → Fueled (parse_typed port.byte_length port.hex_of_base64 t value)
  unfolding parse_typed parse_id parse_hash
  parse_typed-Fueled memo_text value = ground arith
  parse_typed-Fueled memo_id value = ground arith
  parse_typed-Fueled memo_hash value = ground arith

  parse_present-Fueled :
      (value : Text) (memo_type : Option String)
      → Fueled (parse_present port.byte_length port.hex_of_base64 value memo_type)
  unfolding parse_present
  parse_present-Fueled value memo_type =
      elim (Option-cases (memo_type_of port.byte_length port.hex_of_base64 memo_type)) [
        | inl e ↦ ground arith
        | inr (t, e) ↦ ground (arith, parse_typed-Fueled t value)
      ]

  parse_withdraw_memo-Fueled :
      (memo : Option Text) (memo_type : Option String)
      → Fueled (parse_withdraw_memo port.byte_length port.hex_of_base64 memo memo_type)
  unfolding parse_withdraw_memo
  parse_withdraw_memo-Fueled none memo_type = ground arith
  parse_withdraw_memo-Fueled (some []) memo_type = ground arith
  parse_withdraw_memo-Fueled (some (c ∷ s)) memo_type = parse_present-Fueled (c ∷ s) memo_type

  present_again : (o : Option String) (a : String) → present o ≡ some a → present (some a) ≡ some a
  present_again none a h = cc
  present_again (some s) a h = ground arith

  name_account-Settled :
      (base : WithdrawInstructions) (tx : AnchorTransaction) (a : String) (s : Session W T)
      → present (some a) ≡ some a
      → Settled (name_account port base tx a s).0
  unfolding name_account
  name_account-Settled base tx a s h =
      let parsed = parse_withdraw_memo-Fueled tx.withdraw_memo tx.withdraw_memo_type in
      ground (arith, call-Fuels port.public_key s)

  module _ (clock : IsClock port) where
    toml-Timely : Timely (toml port)
    unfolding toml
    toml-Timely s = ground (arith, call-Timely port.discover clock.discover_later s)

    keep_token-Timely :
        (token : AuthToken) → Timely (λ s. (ok token, record s { token_cache = some token }))
    keep_token-Timely token s = (tt, omega arith)

    log_in-Timely : Timely (log_in port)
    unfolding log_in
    log_in-Timely =
        search (>>=-Timely, toml-Timely, call-Timely, clock.authenticate_later, keep_token-Timely)
          depth 8

    token-Timely : Timely (token port)
    unfolding token
    token-Timely s = ground (arith, log_in-Timely s)

    kyc_for_transaction-Timely : (id : String) → Timely (kyc_for_transaction port id)
    unfolding kyc_for_transaction
    kyc_for_transaction-Timely id =
        >>=-Timely (toml port)
          (λ t. token port >>= λ jwt. call (port.ensure_transaction_customer t jwt id)) toml-Timely
          (λ t.
            >>=-Timely (token port) (λ jwt. call (port.ensure_transaction_customer t jwt id))
              token-Timely
              (λ jwt.
                call-Timely (port.ensure_transaction_customer t jwt id)
                  (clock.ensure_later t jwt id)))

    before_wait-Timely : (id : String) (tx : AnchorTransaction) → Timely (before_wait port id tx)
    unfolding before_wait
    before_wait-Timely id tx s = ground (arith, kyc_for_transaction-Timely id s)

    pause-Settled :
        (deadline n : ℕ) (rest : Step W T WithdrawInstructions) (s : Session W T)
        → deadline ≤ port.now s.world + 2000 * n
        → ((u : Session W T)
            → 0 < n
            → deadline + 2000 ≤ port.now u.world + 2000 * n
            → Settled (rest u).0)
        → Settled ((pause port deadline >> rest) s).0
    unfolding pause
    pause-Settled deadline n rest s h k =
        let slept = clock.sleep_lasts 2000 s.world in
        ground (arith, k (record s { world = port.sleep 2000 s.world }))

    resolve_round-Settled :
        (rest : Step W T WithdrawInstructions) (deadline n : ℕ) (base : WithdrawInstructions)
        (tx : AnchorTransaction) (s : Session W T)
        → deadline ≤ port.now s.world + 2000 * n
        → ((u : Session W T)
            → 0 < n
            → deadline + 2000 ≤ port.now u.world + 2000 * n
            → Settled (rest u).0)
        → (o : Option String) → present tx.withdraw_anchor_account ≡ o
        → Settled (resolve_round port rest deadline base tx o s).0
    unfolding resolve_round
    resolve_round-Settled rest deadline n base tx s h k (some a) e =
        name_account-Settled base tx a s (present_again tx.withdraw_anchor_account a e)
    resolve_round-Settled rest deadline n base tx s h k none e =
        >>=_rule (λ x. Fueled x.0 × (port.now s.world ≤ port.now x.1.world)) (λ x. Settled x.0)
          (before_wait port base.id tx) (λ _. pause port deadline >> rest) s
          (before_wait-Timely base.id tx s)
          (λ _ u g. pause-Settled deadline n rest u (omega arith) k) (λ x u g. g.0)

    resolve_rounds-Settled :
        (n deadline : ℕ) (base : WithdrawInstructions) (t : T) (jwt : AuthToken) (s : Session W T)
        → 0 < n
        → deadline + 2000 ≤ port.now s.world + 2000 * n
        → Settled (resolve_rounds port n deadline base t jwt s).0
    unfolding resolve_rounds
    resolve_rounds-Settled zero deadline base t jwt s h k = absurd (omega arith)
    resolve_rounds-Settled (suc n) deadline base t jwt s h k =
        >>=_rule (λ x. Fueled x.0 × (port.now s.world ≤ port.now x.1.world)) (λ x. Settled x.0)
          (call (port.get_transaction t jwt base.id))
          (λ tx.
            resolve_round port (resolve_rounds port n deadline base t jwt) deadline base tx
              (present tx.withdraw_anchor_account))
          s (call-Timely (port.get_transaction t jwt base.id) (clock.get_later t jwt base.id) s)
          (λ tx u g.
            resolve_round-Settled (resolve_rounds port n deadline base t jwt) deadline n base tx u
              (omega arith) (resolve_rounds-Settled n deadline base t jwt)
              (present tx.withdraw_anchor_account) refl)
          (λ e u g. g.0)

    then-Settled :
        {A : Type 0} (m : Step W T A) (f : A → Step W T WithdrawInstructions) (s : Session W T)
        → Fuels m
        → ((a : A) (u : Session W T) → Settled (f a u).0)
        → Settled ((m >>= f) s).0
    then-Settled m f s q k =
        >>=_rule (λ x. Fueled x.0) (λ x. Settled x.0) m f s (q s) (λ a u g. k a u) (λ e u g. g)

    resolve_deferred_withdraw-Settled :
        (base : WithdrawInstructions) (s : Session W T)
        → Settled (resolve_deferred_withdraw port base s).0
    unfolding resolve_deferred_withdraw
    resolve_deferred_withdraw-Settled base s =
        then-Settled (toml port)
          (λ t. do
            jwt ← token port
            kyc_for_transaction port base.id
            (λ u. resolve_rounds port 31 (port.now u.world + 60000) base t jwt u))
          s (λ u. (toml-Timely u).0)
          (λ t u.
            then-Settled (token port)
              (λ jwt. do
                kyc_for_transaction port base.id
                (λ v. resolve_rounds port 31 (port.now v.world + 60000) base t jwt v))
              u (λ v. (token-Timely v).0)
              (λ jwt v.
                then-Settled (kyc_for_transaction port base.id)
                  (λ _ x. resolve_rounds port 31 (port.now x.world + 60000) base t jwt x) v
                  (λ x. (kyc_for_transaction-Timely base.id x).0)
                  (λ _ x.
                    resolve_rounds-Settled 31 (port.now x.world + 60000) base t jwt x (omega arith)
                      (omega arith))))

    with_account-Settled :
        (first : WithdrawInstructions) (o : Option String) (s : Session W T)
        → present first.account_id ≡ o
        → Settled (with_account port first o s).0
    unfolding with_account
    with_account-Settled first none s e = resolve_deferred_withdraw-Settled first s
    with_account-Settled first (some a) s e = (a, e)

    assert_amount-Fuels : (amount : Text) → Fuels (λ s. lift (assert_amount amount) s)
    unfolding assert_amount
    assert_amount-Fuels amount s = ground arith

    toml-Fuels : Fuels (toml port)
    toml-Fuels s = (toml-Timely s).0

    token-Fuels : Fuels (token port)
    token-Fuels s = (token-Timely s).0

    note_customer-Fuels : Fuels (λ s. (ok tt, record s { customer_ok = true }))
    note_customer-Fuels s = tt

    ask_customer-Fuels : Fuels (ask_customer port)
    unfolding ask_customer
    ask_customer-Fuels =
        search (>>=-Fuels, >>-Fuels, call-Fuels, toml-Fuels, token-Fuels, note_customer-Fuels) depth
          10

    kyc-Fuels : Fuels (ensure_kyc port)
    unfolding ensure_kyc
    kyc-Fuels s = ground (arith, ask_customer-Fuels s)

    request_order-Fuels : (amount : Text) → Fuels (request_order port amount)
    unfolding request_order
    request_order-Fuels amount =
        search
          (>>=-Fuels, >>-Fuels, assert_amount-Fuels, call-Fuels, kyc-Fuels, toml-Fuels, token-Fuels)
          depth 12

    place_order-Settled :
        (amount : Text) (s : Session W T) → Settled (order_account port amount s).0
    unfolding order_account
    place_order-Settled amount s =
        then-Settled (request_order port amount) (settle_account port) s
          (request_order-Fuels amount)
          (λ first u. with_account-Settled first (present first.account_id) u refl)

    -- How a start ends: bound to what the anchor gave, or as it was.
    abbrev pub Starts :
        Text → Session W T → Result SessionFault WithdrawInstructions × Session W T → Type 0
    Starts amount s (ok i, t) =
        (a : String) × (present i.account_id ≡ some a)
        × (t.withdraw_request ≡ some (record { instructions = i; amount = amount }))
        × (t.sent ≡ s.sent)
    Starts amount s (err e, t) = (e ≢ out_of_fuel) × Same s t

    -- If the clock runs, the start of a withdrawal ends: the 31 rounds of the wait are never used up.
    -- A started withdrawal names the account to pay, and is bound to the session with its amount,
    -- and nothing was sent. A start that throws leaves the request, the orders and what was sent.
    pub start_withdraw_ends :
        (amount : Text) (s : Session W T) → Starts amount s (start_withdraw_order port amount s)
    unfolding start_withdraw_order bind_order
    start_withdraw_ends amount s =
        >>=_rule (λ x. Settled x.0 × Same s x.1) (Starts amount s) (order_account port amount)
          (bind_order port amount) s (place_order-Settled amount s, place_order-Idle port amount s)
          (λ i t h. (h.0.0, h.0.1, refl, h.1.2)) (λ e t h. h)
