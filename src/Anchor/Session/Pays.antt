-- ===== src/Anchor/Session/Pays.antt =====
-- What `payWithdrawal` (stellar/src/anchor/session.ts) hands to the network.
use stellar_voice_control_pr.Common.{
  ℕ, ◌≡◌, ◌≢◌, refl, true, false, none, some, [], ◌∷◌, ◌++◌, String, Option, Result, ok, err, arith,
  Result-cases, Option-cases, inl, inr, ◌⊎◌, eq_iff,
}
use stellar_voice_control_pr.Common.Text.{Text, present}
use stellar_voice_control_pr.Common.Action.{>>=_rule, ◌>>=◌}
use stellar_voice_control_pr.Anchor.{
  SessionFault, AnchorAsset, Payment, Envelope, Description, HorizonAccount, AnchorPort, to_stroops,
  assert_amount,
}
use stellar_voice_control_pr.Anchor.Session.{
  WithdrawRequest, Session, Step, lift, call, own_request, build_for, build_requested,
  build_from_key, build_from_account, requested, submit_and_close, submit_checked, build_withdrawal,
  assert_same_transaction, submit, sign_and_submit, pay_withdraw_order, anchor_asset, payment_for,
  funding_account, payout_account, build_withdraw_payment,
}
use stellar_voice_control_pr.Anchor.Session.Idle.{
  Same, Idle, call-Idle, anchor_asset-Idle, funding_account-Idle,
}

-- An envelope that pays what a request asks for: to the account and with the memo that the anchor
-- named, in an amount of as many stroops as the request's.
pub record PaysOrder {W T : Type 0} (port : AnchorPort W T) (request : WithdrawRequest)
    (xdr : String) : Type 0 where
  pub payment : Payment
  pub stroops : ℕ
  pub named : present request.instructions.account_id ≡ some payment.destination
  pub valid : port.is_valid_key payment.destination ≡ true
  pub with_memo : payment.memo ≡ request.instructions.memo
  pub asked : to_stroops request.amount ≡ ok stroops
  pub paid : to_stroops payment.amount ≡ ok stroops
  pub built : port.build_envelope payment ≡ ok xdr

module _ {W T : Type 0} (port : AnchorPort W T) where
  request_for_lem :
      (amount : Text) (o : Option WithdrawRequest) (request : WithdrawRequest)
      → own_request port amount o ≡ ok request
      → (n : ℕ) × (o ≡ some request)
        × (to_stroops request.amount ≡ ok n)
        × (to_stroops amount ≡ ok n)
  unfolding own_request
  request_for_lem amount none request h = cc
  request_for_lem amount (some r) request h = elim (Result-cases (to_stroops r.amount)) [
    | inr (x, e) ↦ absurd (ground (arith, e))
    | inl (n, e) ↦ (n, ground arith, ground arith, ground arith)
  ]

  build_for-PaysOrder :
      (amount : Text) (request : WithdrawRequest) (account : String) (acct : HorizonAccount)
      (a : AnchorAsset) (n : ℕ) (xdr : String) (d : Description)
      → to_stroops request.amount ≡ ok n
      → to_stroops amount ≡ ok n
      → build_for port amount request account acct a ≡ ok (xdr, d)
      → PaysOrder port request xdr
  unfolding build_for payout_account build_withdraw_payment
  build_for-PaysOrder amount request account acct a n xdr d p q h =
      elim (Option-cases (present request.instructions.account_id)) [
        | inl e ↦ absurd (ground arith)
        | inr (dest, e) ↦ record {
          payment = payment_for port amount request account acct a dest;
          stroops = n;
          named = e;
          valid = ground arith;
          with_memo = refl;
          asked = p;
          paid = q;
          built = ground arith;
        }
      ]

  -- What building an envelope for a request leaves.
  abbrev pub Builds :
      WithdrawRequest
      → Session W T
      → Result SessionFault (String × Description) × Session W T
      → Type 0
  Builds request s (ok built, t) = Same s t × PaysOrder port request built.0
  Builds request s (err e, t) = Same s t

  Builds-Same :
      (request : WithdrawRequest) (s : Session W T)
      (out : Result SessionFault (String × Description) × Session W T)
      → Builds request s out
      → Same s out.1
  Builds-Same request s (ok built, t) h = h.0
  Builds-Same request s (err e, t) h = h

  Builds-after :
      (request : WithdrawRequest) (s t : Session W T)
      (out : Result SessionFault (String × Description) × Session W T)
      → Same s t
      → Builds request t out
      → Builds request s out
  Builds-after request s t (ok built, u) h k = (ground arith, k.1)
  Builds-after request s t (err e, u) h k = ground arith

  Builds->>= :
      {A : Type 0} (request : WithdrawRequest) (m : Step W T A)
      (f : A → Step W T (String × Description)) (s : Session W T)
      → Idle m
      → ((a : A) (t : Session W T) → Builds request t (f a t))
      → Builds request s ((m >>= f) s)
  Builds->>= request m f s q k =
      >>=_rule (λ x. Same s x.1) (Builds request s) m f s (q s)
        (λ a t h. Builds-after request s t (f a t) h (k a t)) (λ e t h. h)

  built_Builds :
      (amount : Text) (request : WithdrawRequest) (account : String) (acct : HorizonAccount)
      (a : AnchorAsset) (n : ℕ) (s : Session W T)
      → to_stroops request.amount ≡ ok n
      → to_stroops amount ≡ ok n
      → Builds request s (lift (build_for port amount request account acct a) s)
  built_Builds amount request account acct a n s p q =
      elim (Result-cases (build_for port amount request account acct a)) [
        | inl (built, e) ↦ rw e (
          (refl, refl, refl),
          build_for-PaysOrder amount request account acct a n built.0 built.1 p q e,
        )
        | inr (x, e) ↦ rw e (refl, refl, refl)
      ]

  build_requested-Builds :
      (amount : Text) (request : WithdrawRequest) (n : ℕ) (s : Session W T)
      → to_stroops request.amount ≡ ok n
      → to_stroops amount ≡ ok n
      → Builds request s (build_requested port amount request s)
  unfolding build_requested build_from_key build_from_account
  build_requested-Builds amount request n s p q =
      Builds->>= request (call port.public_key) (build_from_key port amount request) s
        (call-Idle port.public_key)
        (λ account t.
          Builds->>= request (funding_account port account)
            (build_from_account port amount request account) t (funding_account-Idle port account)
            (λ acct u.
              Builds->>= request (anchor_asset port)
                (λ a. lift (build_for port amount request account acct a)) u
                (anchor_asset-Idle port)
                (λ a v. built_Builds amount request account acct a n v p q)))

  -- The signed envelope has the body of the one that was built, and is signed.
  abbrev pub Signs : String → String → Type 0
  Signs xdr signed =
      (a : Envelope) × (b : Envelope) × (port.read_envelope xdr ≡ ok a)
      × (port.read_envelope signed ≡ ok b)
      × (a.body_hash ≡ b.body_hash)
      × (b.signatures ≢ 0)

  abbrev pub Hands : String → Session W T → Result SessionFault String × Session W T → Type 0
  Hands signed s (ok hash, t) =
      (t.sent ≡ s.sent ++ (record { xdr = signed; answered = true }) ∷ [])
      × (t.withdraw_request ≡ none)
      × (t.orders ≡ s.orders)
  Hands signed s (err e, t) =
      (t.sent ≡ s.sent ++ (record { xdr = signed; answered = false }) ∷ [])
      × (t.withdraw_request ≡ s.withdraw_request)
      × (t.orders ≡ s.orders)

  submit_and_close-Hands :
      (signed : String) (s : Session W T) → Hands signed s (submit_and_close port signed s)
  unfolding submit_and_close submit
  submit_and_close-Hands signed s = ground arith

  abbrev pub Quiet : Session W T → Result SessionFault String × Session W T → Type 0
  Quiet s (ok hash, t) = ⊥
  Quiet s (err e, t) = Same s t

  assert_same_transaction-Signs :
      (xdr signed : String) → assert_same_transaction port xdr signed ≡ ok tt → Signs xdr signed
  unfolding assert_same_transaction
  assert_same_transaction-Signs xdr signed h = elim (Result-cases (port.read_envelope xdr)) [
    | inr (x, e) ↦ absurd (ground arith)
    | inl (a, e) ↦ elim (Result-cases (port.read_envelope signed)) [
      | inr (x, f) ↦ absurd (ground arith)
      | inl (b, f) ↦ (a, b, e, f, ground (arith, eq_iff a.body_hash b.body_hash), λ z. ground arith)
    ]
  ]

  abbrev Submits : String → Session W T → Result SessionFault String × Session W T → Type 0
  Submits xdr s out = Quiet s out ⊎ ((signed : String) × Signs xdr signed × Hands signed s out)

  submit_checked-Submits :
      (xdr signed : String) (s : Session W T) → Submits xdr s (submit_checked port xdr signed s)
  unfolding submit_checked
  submit_checked-Submits xdr signed s =
      elim (Result-cases (assert_same_transaction port xdr signed)) [
        | inr (x, e) ↦ rw e (inl (refl, refl, refl))
        | inl (_, e) ↦ rw e (
            inr
              (signed, assert_same_transaction-Signs xdr signed e, submit_and_close-Hands signed s))
      ]

  Submits-after :
      (xdr : String) (s t : Session W T) (out : Result SessionFault String × Session W T)
      → Same s t
      → Submits xdr t out
      → Submits xdr s out
  Submits-after xdr s t (ok hash, u) h (inr (signed, m, k)) =
      inr (signed, m, (ground arith, ground arith, ground arith))
  Submits-after xdr s t (ok hash, u) h (inl k) = elim k [ ]
  Submits-after xdr s t (err e, u) h (inl k) = inl (ground arith, ground arith, ground arith)
  Submits-after xdr s t (err e, u) h (inr (signed, m, k)) =
      inr (signed, m, (ground arith, ground arith, ground arith))

  sign_and_submit-Submits :
      (built : String × Description) (s : Session W T)
      → Submits built.0 s (sign_and_submit port built s)
  unfolding sign_and_submit
  sign_and_submit-Submits built s =
      >>=_rule (λ x. Same s x.1) (Submits built.0 s) (call (port.sign_transaction built.0))
        (submit_checked port built.0) s (refl, refl, refl)
        (λ signed t h. Submits-after built.0 s t _ h (submit_checked-Submits built.0 signed t))
        (λ e t h. inl h)

  -- What a payment leaves: nothing was handed over, or an envelope for the request was.
  abbrev pub Pays : Session W T → Result SessionFault String × Session W T → Type 0
  Pays s out =
      Quiet s out
      ⊎ ((request : WithdrawRequest) × (xdr : String) × (signed : String) × (s.withdraw_request
            ≡ some request)
          × PaysOrder port request xdr
          × Signs xdr signed
          × Hands signed s out)

  paid-Pays :
      (request : WithdrawRequest) (built : String × Description) (s t : Session W T)
      → s.withdraw_request ≡ some request
      → Builds request s (ok built, t)
      → Pays s (sign_and_submit port built t)
  paid-Pays request built s t e h =
      elim (Submits-after built.0 s t _ h.0 (sign_and_submit-Submits built t)) [
        | inl q ↦ inl q
        | inr (signed, m, k) ↦ inr (request, built.0, signed, e, h.1, m, k)
      ]

  pub build_withdrawal-Idle : (amount : Text) → Idle (build_withdrawal port amount)
  unfolding build_withdrawal requested
  build_withdrawal-Idle amount s = elim (Result-cases (assert_amount amount)) [
    | inr (x, e) ↦ rw e (refl, refl, refl)
    | inl (_, e) ↦ elim (Result-cases (own_request port amount s.withdraw_request)) [
      | inr (x, f) ↦ rw e (rw f (refl, refl, refl))
      | inl (request, f) ↦
          let (n, kept, p, q) = request_for_lem amount s.withdraw_request request f in
          rw e (rw f (Builds-Same request s _ (build_requested-Builds amount request n s p q)))
    ]
  ]

  requested-Pays :
      (amount : Text) (s : Session W T)
      → Pays s (
          (requested port amount (own_request port amount s.withdraw_request)
              >>= sign_and_submit port)
            s)
  unfolding requested
  requested-Pays amount s = elim (Result-cases (own_request port amount s.withdraw_request)) [
    | inr (x, e) ↦ rw e (inl (refl, refl, refl))
    | inl (request, e) ↦
        let (n, kept, p, q) = request_for_lem amount s.withdraw_request request e in
        rw e (
          >>=_rule (Builds request s) (Pays s) (build_requested port amount request)
            (sign_and_submit port) s (build_requested-Builds amount request n s p q)
            (λ built t h. paid-Pays request built s t kept h) (λ x t h. inl h))
  ]

  -- A payment that hands nothing to the network throws, and leaves the request, the orders and the
  -- envelopes that were sent as they are. Any other hands over one envelope: it is signed, and has
  -- the body of an envelope that pays the account that the anchor named for this session's request,
  -- with its memo, as many stroops as the request's. The request is closed exactly if an answer
  -- came, with which the payment returns.
  pub pay_withdrawal-Pays :
      (amount : Text) (s : Session W T) → Pays s (pay_withdraw_order port amount s)
  unfolding pay_withdraw_order build_withdrawal
  pay_withdrawal-Pays amount s = elim (Result-cases (assert_amount amount)) [
    | inr (x, e) ↦ rw e (inl (refl, refl, refl))
    | inl (_, e) ↦ rw e (requested-Pays amount s)
  ]
