-- ===== src/BankFlow/Withdraw/Books.antt =====
-- What `runBankWithdraw` (app/src/lib/bankFlow.ts) leaves behind on each way out.
use stellar_voice_control_pr.Common.{
  ◌≡◌, refl, sym, ◌∙◌, append_assoc, true, false, none, [], ◌∷◌, ◌++◌, String, Result, ok, err,
  arith, Bool-cases, inl, inr, ◌⊎◌,
}
use stellar_voice_control_pr.Common.Text.{Text}
use stellar_voice_control_pr.Common.Action.{◌>>◌, >>=_rule, try_catch, try_catch_rule}
use stellar_voice_control_pr.BankFlow.Deps.{
  Fault, BankFlowDeps, FlowState, BankFlowResult, FlowStatus, asked_payment, paid_anchor, credited,
  withdraw, quote, bank_transfer, active, PendingBankFlow, Order,
}
use stellar_voice_control_pr.BankFlow.{
  call, report, others, with_order, as_paid, patch_where, patch_pending, place_order, check_limits,
  wait_completed, payout_of, or_else,
}
use stellar_voice_control_pr.BankFlow.Quiet.{others-push}
use stellar_voice_control_pr.BankFlow.Idle.{idle, Idle, Same, patch_where-last, wait_completed-Idle}
use stellar_voice_control_pr.BankFlow.Withdraw.{
  new_withdrawal, quote_for_withdraw, cancel_withdrawal, pay_anchor, paid_with, credit_payout,
  credit_of, await_payout, pay_and_credit, pay_or_cancel, order_and_pay, start_and_pay,
  try_withdraw, keep_if_paid, run_bank_withdraw,
}

module _ {W F : Type 0} (deps : BankFlowDeps W F) (amount : Text) (r : String) where
  quote_for_withdraw-Idle : Idle (quote_for_withdraw deps amount)
  unfolding quote_for_withdraw
  quote_for_withdraw-Idle = search idle depth 10

  abbrev Pays : FlowState W → Result Fault String × FlowState W → Type 0
  Pays s (ok hash, t) =
      (t.moves ≡ s.moves ++ asked_payment amount ∷ paid_anchor amount ∷ [])
      × (t.pending ≡ patch_where r as_paid s.pending)
      × (t.has_paid ≡ true)
  Pays s (err f, t) =
      ((deps.pay_withdrawal amount s.world).0 ≡ err f)
      × (t.moves ≡ s.moves ++ asked_payment amount ∷ [])
      × (t.pending ≡ s.pending)
      × (t.has_paid ≡ s.has_paid)

  pay_anchor-Pays : (s : FlowState W) → Pays s (pay_anchor deps amount r s)
  unfolding pay_anchor paid_with patch_pending
  pay_anchor-Pays s =
      >>=_rule
        (λ x.
          ((deps.pay_withdrawal amount s.world).0 ≡ x.0)
          × (x.1.moves ≡ s.moves ++ asked_payment amount ∷ [])
          × (x.1.pending ≡ s.pending)
          × (x.1.has_paid ≡ s.has_paid))
        (Pays s) (call (deps.pay_withdrawal amount)) (paid_with deps amount r)
        (record s {
          steps = s.steps ++ (bank_transfer, active) ∷ [];
          moves = s.moves ++ asked_payment amount ∷ [];
        })
        (refl, refl, refl, refl)
        (λ hash t h. (
          rw h.1 (append_assoc s.moves (asked_payment amount ∷ []) (paid_anchor amount ∷ [])),
          rw h.2 refl,
          refl,
        ))
        (λ f t h. h)

  abbrev Credits : Text → FlowState W → Result Fault BankFlowResult × FlowState W → Type 0
  Credits payout s (ok res, t) =
      (t.moves ≡ s.moves ++ credited payout r ∷ [])
      × (t.pending ≡ others r s.pending)
      × (res.status ≡ FlowStatus.completed)
      × (res.reference ≡ r)
  Credits payout s (err f, t) = Same s t

  credit_payout-Credits :
      (c hash id : String) (payout : Text) (s : FlowState W)
      → Credits payout s (credit_payout deps amount r c hash id payout s)
  unfolding credit_payout
  credit_payout-Credits c hash id [] s = (refl, refl, refl)
  credit_payout-Credits c hash id (d ∷ ds) s = ground arith

  -- The flow as it stands after the order, and after the payment.
  abbrev pub ordered : String → W → PendingBankFlow
  ordered id w = with_order id (new_withdrawal deps amount r w)

  -- The session was asked to pay, and threw.
  abbrev pub Unanswered : Fault → FlowState W → FlowState W → Type 0
  Unanswered f s t =
      (v : W) × ((deps.pay_withdrawal amount v).0 ≡ err f)
      × (t.moves ≡ s.moves ++ asked_payment amount ∷ [])

  -- How a withdrawal ends: a failed one that has paid stays pending, marked as paid; one whose
  -- payment was not answered does not.
  abbrev pub WithdrawalEnds : FlowStatus → FlowState W → FlowState W → Type 0
  WithdrawalEnds FlowStatus.completed s t =
      (payout : Text) × (t.moves
        ≡ s.moves ++ asked_payment amount ∷ paid_anchor amount ∷ credited payout r ∷ [])
      × (t.pending ≡ others r s.pending)
  WithdrawalEnds FlowStatus.cancelled s t = (t.moves ≡ s.moves) × (t.pending ≡ others r s.pending)
  WithdrawalEnds FlowStatus.failed s t =
      ((t.moves ≡ s.moves) × (t.pending ≡ others r s.pending))
      ⊎ (((f : Fault) × Unanswered f s t × (t.pending ≡ others r s.pending))
          ⊎ ((id : String) × (w : W) × (t.moves
                ≡ s.moves ++ asked_payment amount ∷ paid_anchor amount ∷ [])
              × (t.pending ≡ others r s.pending ++ as_paid (ordered id w) ∷ [])))

  -- How the `try` block ends.
  abbrev Tries : FlowState W → Result Fault BankFlowResult × FlowState W → Type 0
  Tries s (ok res, t) = WithdrawalEnds res.status s t × (res.reference ≡ r)
  Tries s (err f, t) =
      ((t.moves ≡ s.moves) × (others r t.pending ≡ others r s.pending) × (t.has_paid ≡ false))
      ⊎ ((Unanswered f s t × (others r t.pending ≡ others r s.pending) × (t.has_paid ≡ false))
          ⊎ ((id : String) × (w : W) × (t.moves
                ≡ s.moves ++ asked_payment amount ∷ paid_anchor amount ∷ [])
              × (t.pending ≡ others r s.pending ++ as_paid (ordered id w) ∷ [])
              × (t.has_paid ≡ true)))

  -- A payment that has been made.
  abbrev HasPaid : FlowState W → String → W → FlowState W → Type 0
  HasPaid s id w t =
      (t.moves ≡ s.moves ++ asked_payment amount ∷ paid_anchor amount ∷ [])
      × (t.pending ≡ others r s.pending ++ as_paid (ordered id w) ∷ [])
      × (t.has_paid ≡ true)

  Credits-Tries :
      (payout : Text) (s t : FlowState W) (id : String) (w : W)
      (out : Result Fault BankFlowResult × FlowState W)
      → HasPaid s id w t
      → Credits payout t out
      → Tries s out
  Credits-Tries payout s t id w (ok res, t') p h =
      let together : t'.moves
          ≡ s.moves ++ asked_payment amount ∷ paid_anchor amount ∷ credited payout r ∷ [] =
        h.0
        ∙ rw p.0 (
            append_assoc s.moves (asked_payment amount ∷ paid_anchor amount ∷ [])
              (credited payout r ∷ [])) in
      let dropped : t'.pending ≡ others r s.pending =
        h.1 ∙ rw p.1 (others-push r (as_paid (ordered id w)) s.pending refl) in
      (rw h.2 (payout, together, dropped), h.3)
  Credits-Tries payout s t id w (err f, t') p h = inr (inr (id, w, h.0 ∙ p.0, h.1 ∙ p.1, h.2 ∙ p.2))

  -- An order that has been placed.
  abbrev HasOrder : FlowState W → PendingBankFlow → FlowState W → Type 0
  HasOrder s flow t =
      (t.moves ≡ s.moves) × (t.pending ≡ others r s.pending ++ flow ∷ []) × (t.has_paid ≡ false)

  unpaid-Tries :
      (s t : FlowState W) (flow : PendingBankFlow) (f : Fault)
      → flow.reference ≡ r
      → HasOrder s flow t
      → Tries s (err f, t)
  unpaid-Tries s t flow f e h = inl (h.0, rw h.1 (others-push r flow s.pending e), h.2)

  unanswered-Tries :
      (s t u : FlowState W) (flow : PendingBankFlow) (f : Fault)
      → flow.reference ≡ r
      → HasOrder s flow t
      → Pays t (err f, u)
      → Tries s (err f, u)
  unanswered-Tries s t u flow f e h (asked, m, p, q) =
      inr (
        inl ((t.world, asked, rw h.0 at m), rw (p ∙ h.1) (others-push r flow s.pending e), q ∙ h.2))

  await_payout-Tries :
      (c : String) (buy : Text) (s t : FlowState W) (id id' hash : String) (w : W)
      → HasPaid s id w t
      → Tries s (await_payout deps amount r c buy id' hash t)
  unfolding await_payout
  await_payout-Tries c buy s t id id' hash w p =
      >>=_rule (λ x. Same t x.1) (Tries s) (wait_completed deps id')
        (credit_of deps amount r c id' buy hash) t (wait_completed-Idle deps id' t)
        (λ tx u k.
          Credits-Tries (payout_of deps tx buy) s u id w
            (credit_of deps amount r c id' buy hash tx u) (k.0 ∙ p.0, k.1 ∙ p.1, k.2 ∙ p.2)
            (credit_payout-Credits c hash (or_else tx.stellar_transaction_id id')
              (payout_of deps tx buy) u))
        (λ f u k. inr (inr (id, w, k.0 ∙ p.0, k.1 ∙ p.1, k.2 ∙ p.2)))

  pay_and_credit-Tries :
      (c : String) (buy : Text) (s t : FlowState W) (id id' : String) (w : W)
      → HasOrder s (ordered id w) t
      → Tries s (pay_and_credit deps amount r c buy id' t)
  unfolding pay_and_credit
  pay_and_credit-Tries c buy s t id id' w h =
      >>=_rule (Pays t) (Tries s) (pay_anchor deps amount r) (await_payout deps amount r c buy id')
        t (pay_anchor-Pays t)
        (λ hash u p. await_payout-Tries c buy s u id id' hash w (
          p.0 ∙ rw h.0 refl,
          p.1 ∙ rw h.1 (patch_where-last r as_paid s.pending (ordered id w) refl),
          p.2,
        ))
        (λ f u k. unanswered-Tries s t u (ordered id w) f refl h k)

  pay_or_cancel-Tries :
      (c : String) (buy : Text) (s t : FlowState W) (id id' : String) (w : W)
      → HasOrder s (ordered id w) t
      → Tries s (pay_or_cancel deps amount r c buy id' t)
  unfolding pay_or_cancel cancel_withdrawal
  pay_or_cancel-Tries c buy s t id id' w h =
      let paid_way = pay_and_credit-Tries c buy s t id id' w h in
      let dropped : others r t.pending ≡ others r s.pending =
        rw h.1 (others-push r (ordered id w) s.pending refl) in
      elim (Bool-cases (deps.should_cancel t.world)) [
        | inl e ↦ rw e ((h.0, dropped), refl)
        | inr e ↦ rw e paid_way
      ]

  -- The order: it is noted in the pending flow, or refused.
  Places : Order F → FlowState W → Result Fault (Unit {0}) × FlowState W → Type 0
  Places o s (ok u, t) =
      (t.moves ≡ s.moves)
      × (t.pending ≡ patch_where r (with_order o.id) s.pending)
      × (t.has_paid ≡ s.has_paid)
  Places o s (err f, t) = Same s t

  place_order-Places : (o : Order F) (s : FlowState W) → Places o s (place_order deps amount r o s)
  unfolding place_order Places check_limits patch_pending
  place_order-Places o s = ground arith

  order_and_pay-Tries :
      (c : String) (buy : Text) (o : Order F) (s t : FlowState W) (w : W)
      → HasOrder s (new_withdrawal deps amount r w) t
      → Tries s (order_and_pay deps amount r c buy o t)
  unfolding order_and_pay Places
  order_and_pay-Tries c buy o s t w h =
      >>=_rule (Places o t) (Tries s) (place_order deps amount r o)
        (λ _. pay_or_cancel deps amount r c buy o.id) t (place_order-Places o t)
        (λ _ u p. pay_or_cancel-Tries c buy s u o.id o.id w (
          p.0 ∙ h.0,
          p.1
              ∙ rw h.1 (
                  patch_where-last r (with_order o.id) s.pending (new_withdrawal deps amount r w)
                    refl),
          p.2 ∙ h.2,
        ))
        (λ f u k.
          unpaid-Tries s u (new_withdrawal deps amount r w) f refl
            (k.0 ∙ h.0, k.1 ∙ h.1, k.2 ∙ h.2))

  start_and_pay-Tries :
      (c : String) (buy : Text) (s t : FlowState W) (w : W)
      → HasOrder s (new_withdrawal deps amount r w) t
      → Tries s (start_and_pay deps amount r c buy t)
  unfolding start_and_pay
  start_and_pay-Tries c buy s t w h =
      >>=_rule (λ x. Same t x.1) (Tries s) (call (deps.start_withdraw amount))
        (order_and_pay deps amount r c buy) t (refl, refl, refl)
        (λ o u k. order_and_pay-Tries c buy o s u w (k.0 ∙ h.0, k.1 ∙ h.1, k.2 ∙ h.2))
        (λ f u k.
          unpaid-Tries s u (new_withdrawal deps amount r w) f refl
            (k.0 ∙ h.0, k.1 ∙ h.1, k.2 ∙ h.2))

  try_withdraw-Tries :
      (c : String) (s : FlowState W) → s.has_paid ≡ false → Tries s (try_withdraw deps amount r c s)
  unfolding try_withdraw
  try_withdraw-Tries c s e =
      let w = s.world in
      let t = record s { pending = others r s.pending ++ new_withdrawal deps amount r w ∷ [] } in
      >>=_rule (λ x. Same t x.1) (Tries s) (quote_for_withdraw deps amount)
        (start_and_pay deps amount r c) t (quote_for_withdraw-Idle t)
        (λ buy u k. start_and_pay-Tries c buy s u w (k.0, k.1, k.2 ∙ e))
        (λ f u k. unpaid-Tries s u (new_withdrawal deps amount r w) f refl (k.0, k.1, k.2 ∙ e))

  IsEnd : FlowState W → Result Fault BankFlowResult × FlowState W → Type 0
  IsEnd s (ok res, t) = WithdrawalEnds res.status s t × (res.reference ≡ r)
  IsEnd s (err f, t) = ⊥

  keep_if_paid-IsEnd :
      (c : String) (f : Fault) (s t : FlowState W)
      → Tries s (err f, t)
      → IsEnd s (keep_if_paid deps amount r c f t)
  unfolding keep_if_paid IsEnd
  keep_if_paid-IsEnd c f s t (inl (m, p, e)) = rw e (inl (m, p), refl)
  keep_if_paid-IsEnd c f s t (inr (inl (a, p, e))) = rw e (inr (inl (f, a, p)), refl)
  keep_if_paid-IsEnd c f s t (inr (inr (id, w, m, p, e))) = rw e (inr (inr (id, w, m, p)), refl)

  ended :
      (c : String) (s : FlowState W)
      → s.has_paid ≡ false
      → IsEnd s (try_catch (try_withdraw deps amount r c) (keep_if_paid deps amount r c) s)
  unfolding IsEnd
  ended c s e =
      try_catch_rule (Tries s) (IsEnd s) (try_withdraw deps amount r c)
        (keep_if_paid deps amount r c) s (try_withdraw-Tries c s e) (λ res t h. h)
        (λ f t h. keep_if_paid-IsEnd c f s t h)

  shift-WithdrawalEnds :
      (status : FlowStatus) (s u t : FlowState W)
      → u.moves ≡ s.moves
      → u.pending ≡ s.pending
      → WithdrawalEnds status u t
      → WithdrawalEnds status s t
  shift-WithdrawalEnds FlowStatus.completed s u t em ep (payout, m, p) =
      (payout, rw em at m, rw ep at p)
  shift-WithdrawalEnds FlowStatus.cancelled s u t em ep (m, p) = (rw em at m, rw ep at p)
  shift-WithdrawalEnds FlowStatus.failed s u t em ep (inl (m, p)) = inl (rw em at m, rw ep at p)
  shift-WithdrawalEnds FlowStatus.failed s u t em ep (inr (inl (f, (v, a, m), p))) =
      inr (inl (f, (v, a, rw em at m), rw ep at p))
  shift-WithdrawalEnds FlowStatus.failed s u t em ep (inr (inr (id, w, m, p))) =
      inr (inr (id, w, rw em at m, rw ep at p))

module _ {W F : Type 0} (deps : BankFlowDeps W F) (amount : Text) where
  -- How `runBankWithdraw` ends: it throws only if the account cannot be read, with nothing done.
  abbrev pub WithdrawEnds : FlowState W → Result Fault BankFlowResult × FlowState W → Type 0
  WithdrawEnds s (ok res, t) =
      let r = (deps.new_id withdraw s.world).0 in
      WithdrawalEnds deps amount r res.status s t × (res.reference ≡ r)
  WithdrawEnds s (err f, t) =
      ((deps.account (deps.new_id withdraw s.world).1).0 ≡ err f)
      × (t.moves ≡ s.moves)
      × (t.pending ≡ s.pending)

  returned :
      (s u : FlowState W) (out : Result Fault BankFlowResult × FlowState W)
      → u.moves ≡ s.moves
      → u.pending ≡ s.pending
      → IsEnd deps amount (deps.new_id withdraw s.world).0 u out
      → WithdrawEnds s out
  unfolding IsEnd
  returned s u (ok res, t) em ep h =
      let r = (deps.new_id withdraw s.world).0 in
      (shift-WithdrawalEnds deps amount r res.status s u t em ep h.0, h.1)
  returned s u (err f, t) em ep h = absurd h

  -- A withdrawal throws only if the account cannot be read, and has then asked for nothing. Else it
  -- returns: a completed one has asked for one payment to the anchor, got its answer and credited one
  -- payout, and is not pending; a cancelled one has asked for none and is not pending. A failed one
  -- has asked for none and is not pending; or it has asked for one and `payWithdrawal` threw, so
  -- that the payment may have been handed over, and it is not pending either; or it has made one
  -- payment, credited nothing, and stays pending as the last flow, with its order and marked as
  -- paid. The other flows stay in their order.
  pub run_bank_withdraw_ends : (s : FlowState W) → WithdrawEnds s (run_bank_withdraw deps amount s)
  unfolding run_bank_withdraw
  run_bank_withdraw_ends s =
      let (r, w) = deps.new_id withdraw s.world in
      >>=_rule
        (λ x.
          (x.0 ≡ (deps.account w).0)
          × (x.1.moves ≡ s.moves)
          × (x.1.pending ≡ s.pending)
          × (x.1.has_paid ≡ false))
        (WithdrawEnds s) (call deps.account)
        (λ c.
          report quote active
          >> try_catch (try_withdraw deps amount r c) (keep_if_paid deps amount r c))
        (record s { order_id = none; has_paid = false; world = w }) (refl, refl, refl, refl)
        (λ c t h.
          let u = record t { steps = t.steps ++ (quote, active) ∷ [] } in
          returned s u _ h.1 h.2 (ended deps amount r c u h.3))
        (λ f t h. (sym h.0, h.1, h.2))
