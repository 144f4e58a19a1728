-- ===== src/Anchor/Session/Orders.antt =====
-- The orders of a session (stellar/src/anchor/session.ts) and the payments that it made, over any
-- sequence of steps.
use stellar_voice_control_pr.Common.{
  ℕ, ◌+◌, ◌≤◌, Bool, ◌≡◌, ◌≢◌, ◌∙◌, refl, true, false, none, some, List, [], ◌∷◌, ◌++◌, length,
  length-append, String, Option, Result, ok, err, arith, inl, inr, All, All-append, All-map, Has,
  Has-append, Has-last, if◌then◌else◌,
}
use stellar_voice_control_pr.Common.Text.{Text}
use stellar_voice_control_pr.Common.Action.{>>=_rule}
use stellar_voice_control_pr.Anchor.{SessionFault, AnchorPort, WithdrawInstructions}
use stellar_voice_control_pr.Anchor.Session.{
  WithdrawRequest, Sent, Session, Op, log, begin, register, finish, start, prepare, pay,
  new_session, order_account, bind_order, start_withdraw_order, prepare_withdrawal,
  pay_withdraw_order, show_login, run_op, run_ops,
}
use stellar_voice_control_pr.Anchor.Session.Idle.{
  Same, place_order-Idle, token-Idle, kyc-Idle, begin_login-Idle, finish_login-Idle,
}
use stellar_voice_control_pr.Anchor.Session.Pays.{
  PaysOrder, Signs, Pays, Hands, pay_withdrawal-Pays, build_withdrawal-Idle,
}

-- How many of the envelopes were answered.
abbrev pub answers : List Sent → ℕ
answers [] = 0
answers (x ∷ xs) = (if x.answered then 1 else 0) + answers xs

answers-append : (xs ys : List Sent) → answers (xs ++ ys) ≡ answers xs + answers ys
answers-append [] ys = omega arith
answers-append (x ∷ xs) ys = omega (arith, answers-append xs ys)

abbrev pub open_requests : Option WithdrawRequest → ℕ
open_requests none = 0
open_requests (some request) = 1

module _ {W T : Type 0} (port : AnchorPort W T) where
  -- The envelope pays an order of the list.
  abbrev pub Ordered : List WithdrawRequest → Sent → Type 0
  Ordered orders x =
      Has (λ request. (xdr : String) × PaysOrder port request xdr × Signs port xdr x.xdr) orders

  abbrev pub IsOpen : List WithdrawRequest → Option WithdrawRequest → Type 0
  IsOpen orders none = Unit
  IsOpen orders (some request) = Has (λ r. r ≡ request) orders

  -- Each envelope pays an order; the answered ones are at most as many as the orders that are closed.
  pub record IsAccounted (s : Session W T) : Type 0 where
    pub paid_for : All (Ordered s.orders) s.sent
    pub at_most : answers s.sent + open_requests s.withdraw_request ≤ length s.orders
    pub bound : IsOpen s.orders s.withdraw_request

  Has-Ordered :
      (request : WithdrawRequest) (xdr signed : String) (b : Bool) (orders : List WithdrawRequest)
      → PaysOrder port request xdr
      → Signs port xdr signed
      → Has (λ r. r ≡ request) orders
      → Ordered orders (record { xdr = signed; answered = b })
  Has-Ordered request xdr signed b [] p g h = elim h [ ]
  Has-Ordered request xdr signed b (r ∷ orders) p g (inl e) = inl (xdr, rw e p, g)
  Has-Ordered request xdr signed b (r ∷ orders) p g (inr h) =
      inr (Has-Ordered request xdr signed b orders p g h)

  -- An order more does not undo what the others pay for.
  Ordered-append :
      (orders more : List WithdrawRequest) (xs : List Sent)
      → All (Ordered orders) xs
      → All (Ordered (orders ++ more)) xs
  Ordered-append orders more xs h =
      All-map xs
        (λ x.
          Has-append (λ request. (xdr : String) × PaysOrder port request xdr × Signs port xdr x.xdr)
            orders more)
        h

  IsOpen-append :
      (orders more : List WithdrawRequest) (o : Option WithdrawRequest)
      → IsOpen orders o
      → IsOpen (orders ++ more) o
  IsOpen-append orders more none h = tt
  IsOpen-append orders more (some request) h = Has-append (λ r. r ≡ request) orders more h

  Same-IsAccounted : (s t : Session W T) → Same s t → IsAccounted s → IsAccounted t
  Same-IsAccounted s t h a = record {
    paid_for = rw (h.1, h.2) a.paid_for;
    at_most = rw (h.0, h.1, h.2) a.at_most;
    bound = rw (h.0, h.1) a.bound;
  }

  bind_order-IsAccounted :
      (amount : Text) (instructions : WithdrawInstructions) (s : Session W T)
      → IsAccounted s
      → IsAccounted (bind_order port amount instructions s).1
  unfolding bind_order
  bind_order-IsAccounted amount instructions s a = record {
    paid_for = Ordered-append s.orders _ s.sent a.paid_for;
    at_most = omega (arith, length-append {0} s.orders, a.at_most);
    bound = Has-last _ s.orders _ refl;
  }

  start_withdraw-IsAccounted :
      (amount : Text) (s : Session W T)
      → IsAccounted s
      → IsAccounted (start_withdraw_order port amount s).1
  unfolding start_withdraw_order
  start_withdraw-IsAccounted amount s a =
      >>=_rule (λ x. Same s x.1) (λ x. IsAccounted x.1) (order_account port amount)
        (bind_order port amount) s (place_order-Idle port amount s)
        (λ i t h. bind_order-IsAccounted amount i t (Same-IsAccounted s t h a))
        (λ e t h. Same-IsAccounted s t h a)

  Hands-IsAccounted :
      (request : WithdrawRequest) (xdr signed : String) (s : Session W T)
      (out : Result SessionFault String × Session W T)
      → s.withdraw_request ≡ some request
      → PaysOrder port request xdr
      → Signs port xdr signed
      → Hands port signed s out
      → IsAccounted s
      → IsAccounted out.1
  Hands-IsAccounted request xdr signed s (ok hash, t) e p g h a =
      let named : Has (λ r. r ≡ request) s.orders = rw e at (a.bound) in
      record {
        paid_for =
            rw (h.0, h.2)
              (All-append (Ordered s.orders) s.sent _ a.paid_for
                (Has-Ordered request xdr signed true s.orders p g named, tt));
        at_most =
            let most : answers s.sent + 1 ≤ length s.orders = rw e at (a.at_most) in
            rw (h.0, h.1, h.2) (omega (arith, answers-append s.sent, most));
        bound = rw h.1 tt;
      }
  Hands-IsAccounted request xdr signed s (err x, t) e p g h a =
      let named : Has (λ r. r ≡ request) s.orders = rw e at (a.bound) in
      record {
        paid_for =
            rw (h.0, h.2)
              (All-append (Ordered s.orders) s.sent _ a.paid_for
                (Has-Ordered request xdr signed false s.orders p g named, tt));
        at_most = rw (h.0, h.1, h.2) (omega (arith, answers-append s.sent, a.at_most));
        bound = rw (h.1, h.2) a.bound;
      }

  Pays-IsAccounted :
      (s : Session W T) (out : Result SessionFault String × Session W T)
      → Pays port s out
      → IsAccounted s
      → IsAccounted out.1
  Pays-IsAccounted s (ok hash, t) (inl h) a = elim h [ ]
  Pays-IsAccounted s (err e, t) (inl h) a = Same-IsAccounted s t h a
  Pays-IsAccounted s out (inr (request, xdr, signed, e, p, g, h)) a =
      Hands-IsAccounted request xdr signed s out e p g h a

  run_op-IsAccounted : (op : Op) (s : Session W T) → IsAccounted s → IsAccounted (run_op port op s)
  unfolding run_op show_login prepare_withdrawal
  run_op-IsAccounted log s a = Same-IsAccounted s _ (token-Idle port s) a
  run_op-IsAccounted begin s a = Same-IsAccounted s _ (begin_login-Idle port s) a
  run_op-IsAccounted register s a = Same-IsAccounted s _ (kyc-Idle port s) a
  run_op-IsAccounted (finish signed) s a = Same-IsAccounted s _ (finish_login-Idle port signed s) a
  run_op-IsAccounted (start amount) s a = start_withdraw-IsAccounted amount s a
  run_op-IsAccounted (prepare amount) s a =
      Same-IsAccounted s _ (build_withdrawal-Idle port amount s) a
  run_op-IsAccounted (pay amount) s a = Pays-IsAccounted s _ (pay_withdrawal-Pays port amount s) a

  run_ops-keeps_IsAccounted :
      (ops : List Op) (s : Session W T) → IsAccounted s → IsAccounted (run_ops port ops s)
  unfolding run_ops
  run_ops-keeps_IsAccounted [] s a = a
  run_ops-keeps_IsAccounted (op ∷ ops) s a =
      run_ops-keeps_IsAccounted ops (run_op port op s) (run_op-IsAccounted op s a)

  -- After any steps of a new session, whatever the network and the signer answer: each envelope that
  -- was handed over is signed and has the body of one that pays an order of this session, and the
  -- answered ones together with the open request are at most as many as the orders.
  pub run_ops-IsAccounted : (ops : List Op) (w : W) → IsAccounted (run_ops port ops (new_session w))
  run_ops-IsAccounted ops w =
      run_ops-keeps_IsAccounted ops (new_session w)
        (record { paid_for = tt; at_most = omega arith; bound = tt })

  abbrev PaysFor : WithdrawRequest → String → Type 0
  PaysFor request signed = (xdr : String) × PaysOrder port request xdr × Signs port xdr signed

  -- Two envelopes for one order: the first without an answer, the second with one.
  abbrev pub PaidTwice : Session W T → Session W T → Type 0
  PaidTwice s u =
      (request : WithdrawRequest) × (lost : String) × (again : String) × (s.withdraw_request
        ≡ some request)
      × (u.orders ≡ s.orders)
      × PaysFor request lost
      × PaysFor request again
      × (u.sent
          ≡ (s.sent ++ (record { xdr = lost; answered = false }) ∷ [])
            ++ (record { xdr = again; answered = true }) ∷ [])

  Pays-PaidTwice :
      (s t u : Session W T) (e : SessionFault) (hash : String)
      → t.sent ≢ s.sent
      → Pays port s (err e, t)
      → Pays port t (ok hash, u)
      → PaidTwice s u
  Pays-PaidTwice s t u e hash h (inl same) q = absurd (h same.2)
  Pays-PaidTwice s t u e hash h (inr p) (inl q) = elim q [ ]
  Pays-PaidTwice s t u e hash h (inr (r, x, lost, o, p, g, k))
        (inr (r', y, again, o', p', g', k')) =
      let same : r' ≡ r = cc in
      (r, lost, again, o, k'.2 ∙ k.2, (x, p, g), (y, rw (← same) p', g'), k'.0 ∙ rw k.0 refl)

  -- If a payment throws after an envelope was handed to the network, its order stays open: if the
  -- same amount is then paid with an answer, two envelopes for that one order have been handed over,
  -- and no order was added.
  pub lost_payment_is_paid_again :
      (amount : Text) (s t u : Session W T) (e : SessionFault) (hash : String)
      → pay_withdraw_order port amount s ≡ (err e, t)
      → t.sent ≢ s.sent
      → pay_withdraw_order port amount t ≡ (ok hash, u)
      → PaidTwice s u
  lost_payment_is_paid_again amount s t u e hash p h q =
      Pays-PaidTwice s t u e hash h (rw p at (pay_withdrawal-Pays port amount s))
        (rw q at (pay_withdrawal-Pays port amount t))
