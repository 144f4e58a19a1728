-- ===== src/BankFlow/Deposit/Books.antt =====
-- What `runBankDeposit` (app/src/lib/bankFlow.ts) leaves behind on each way out.
use stellar_voice_control_pr.Common.{
  ◌≡◌, refl, ◌∙◌, Bool, true, false, Option, none, some, List, [], ◌∷◌, ◌++◌, String, Result, ok,
  err, if◌then◌else◌, arith, append_assoc, append-nil, ap, sym, Bool-cases, inl, inr,
}
use stellar_voice_control_pr.Common.Text.{Text}
use stellar_voice_control_pr.Common.Action.{>>=_rule, try_catch, try_catch_rule}
use stellar_voice_control_pr.BankFlow.Deps.{
  Fault, BankFlowDeps, FlowState, BankFlowResult, FlowStatus, Move, debited, settled, refunded,
  active, deposit, quote, reserved, PendingBankFlow,
}
use stellar_voice_control_pr.BankFlow.{call, others}
use stellar_voice_control_pr.BankFlow.Quiet.{quiet, Quiet, Keeps, others-push}
use stellar_voice_control_pr.BankFlow.Deposit.{
  reserve, quote_for_deposit, sandbox_transfer, order_deposit, cancel_deposit, order_or_cancel,
  settle_deposit, try_deposit, try_refund, failed_deposit, give_back, run_bank_deposit,
}

-- The moves of a deposit that ended with this status; a failed one may not have been reserved.
abbrev pub deposit_moves : FlowStatus → Option Bool → Bool → String → List Move
deposit_moves FlowStatus.completed back took r = debited r ∷ settled r ∷ []
deposit_moves FlowStatus.cancelled back took r = debited r ∷ refunded r ∷ []
deposit_moves FlowStatus.failed (some true) true r = debited r ∷ refunded r ∷ []
deposit_moves FlowStatus.failed (some true) false r = refunded r ∷ []
deposit_moves FlowStatus.failed back true r = debited r ∷ []
deposit_moves FlowStatus.failed back false r = []

abbrev reservation : Bool → String → List Move
reservation took r = if took then debited r ∷ [] else []

module _ {W F : Type 0} (deps : BankFlowDeps W F) (amount : Text) (r : String) where
  quote_for_deposit-Quiet : Quiet r (quote_for_deposit deps amount)
  unfolding quote_for_deposit
  quote_for_deposit-Quiet = search quiet

  sandbox_transfer-Quiet : (id : String) → Quiet r (sandbox_transfer deps amount id)
  unfolding sandbox_transfer
  sandbox_transfer-Quiet id s = ground arith

  order_deposit-Quiet : Quiet r (order_deposit deps amount r)
  unfolding order_deposit
  order_deposit-Quiet = search (quiet, sandbox_transfer-Quiet) depth 10

  abbrev Reserves : FlowState W → Result Fault String × FlowState W → Type 0
  Reserves s (ok c, s') =
      (s'.moves ≡ s.moves ++ debited r ∷ []) × (others r s'.pending ≡ others r s.pending)
  Reserves s (err f, s') = Keeps r s s'

  reserve-Reserves : (s : FlowState W) → Reserves s (reserve deps amount r s)
  unfolding reserve
  reserve-Reserves s =
      let flow : PendingBankFlow = record {
        reference = r;
        kind = deposit;
        amount = amount;
        started_at = deps.now (deps.debit amount r s.world).1;
        anchor_tx_id = none;
        phase = reserved;
      } in
      ground (arith, others-push r flow s.pending refl)

  -- A last step: one move, and the flow is no longer pending.
  abbrev Closes :
      FlowStatus → Bool → Move → FlowState W → Result Fault BankFlowResult × FlowState W → Type 0
  Closes status back move s (ok res, s') =
      (s'.moves ≡ s.moves ++ move ∷ [])
      × (s'.pending ≡ others r s.pending)
      × (res.status ≡ status)
      × (res.refunded ≡ some back)
      × (res.reference ≡ r)
  Closes status back move s (err f, s') = Keeps r s s'

  cancel_deposit-Closes :
      (c : String) (s : FlowState W)
      → Closes FlowStatus.cancelled true (refunded r) s (cancel_deposit deps amount r c s)
  unfolding cancel_deposit
  cancel_deposit-Closes c s = ground arith

  settle_deposit-Closes :
      (c : String) (s : FlowState W)
      → Closes FlowStatus.completed false (settled r) s (settle_deposit deps amount r c s)
  unfolding settle_deposit
  settle_deposit-Closes c s = ground arith

  abbrev Tries : FlowState W → Result Fault BankFlowResult × FlowState W → Type 0
  Tries s (ok res, s') =
      (s'.moves ≡ s.moves ++ deposit_moves res.status res.refunded true r)
      × (s'.pending ≡ others r s.pending)
      × (res.reference ≡ r)
  Tries s (err f, s') =
      (took : Bool) × (s'.moves ≡ s.moves ++ reservation took r)
      × (others r s'.pending ≡ others r s.pending)

  Closes-Tries :
      (status : FlowStatus) (back : Bool) (move : Move) (s t : FlowState W)
      (out : Result Fault BankFlowResult × FlowState W)
      → deposit_moves status (some back) true r ≡ debited r ∷ move ∷ []
      → t.moves ≡ s.moves ++ debited r ∷ []
      → others r t.pending ≡ others r s.pending
      → Closes status back move t out
      → Tries s out
  Closes-Tries status back move s t (ok res, s') shape em ep h =
      let shaped : debited r ∷ move ∷ [] ≡ deposit_moves res.status res.refunded true r =
        rw (h.2, h.3) (sym shape) in
      let together : t.moves ++ move ∷ [] ≡ s.moves ++ debited r ∷ move ∷ [] =
        rw em (append_assoc s.moves (debited r ∷ []) (move ∷ [])) in
      (h.0 ∙ together ∙ ap (λ ms. s.moves ++ ms) shaped, h.1 ∙ ep, h.4)
  Closes-Tries status back move s t (err f, s') shape em ep h = (true, h.0 ∙ em, h.1 ∙ ep)

  -- From a reserved state on.
  order_or_cancel-Tries :
      (c : String) (s t : FlowState W)
      → t.moves ≡ s.moves ++ debited r ∷ []
      → others r t.pending ≡ others r s.pending
      → Tries s (order_or_cancel deps amount r c t)
  unfolding order_or_cancel
  order_or_cancel-Tries c s t em ep =
      let cancelled =
        Closes-Tries FlowStatus.cancelled true (refunded r) s t (cancel_deposit deps amount r c t)
          refl em ep (cancel_deposit-Closes c t) in
      elim (Bool-cases (deps.should_cancel t.world)) [
        | inl e ↦ rw e cancelled
        | inr e ↦ rw e (
            >>=_rule (λ x. Keeps r t x.1) (Tries s) (order_deposit deps amount r)
              (λ _. settle_deposit deps amount r c) t (order_deposit-Quiet t)
              (λ _ t' k.
                Closes-Tries FlowStatus.completed false (settled r) s t'
                  (settle_deposit deps amount r c t') refl (k.0 ∙ em) (k.1 ∙ ep)
                  (settle_deposit-Closes c t'))
              (λ _ t' k. (true, k.0 ∙ em, k.1 ∙ ep)))
      ]

  try_deposit-Tries : (s : FlowState W) → Tries s (try_deposit deps amount r s)
  unfolding try_deposit
  try_deposit-Tries s =
      >>=_rule (Reserves s) (Tries s) (reserve deps amount r) _ s (reserve-Reserves s)
        (λ c t h.
          >>=_rule (λ x. Keeps r t x.1) (Tries s) (quote_for_deposit deps amount)
            (λ _. order_or_cancel deps amount r c) t (quote_for_deposit-Quiet t)
            (λ _ t' k. order_or_cancel-Tries c s t' (k.0 ∙ h.0) (k.1 ∙ h.1))
            (λ _ t' k. (true, k.0 ∙ h.0, k.1 ∙ h.1)))
        (λ f t k. (false, k.0 ∙ sym (append-nil s.moves), k.1))

  -- A deposit that ended.
  abbrev pub IsDepositEnd : FlowState W → Result Fault BankFlowResult × FlowState W → Type 0
  IsDepositEnd s (ok res, s') =
      (took : Bool) × (s'.moves ≡ s.moves ++ deposit_moves res.status res.refunded took r)
      × (s'.pending ≡ others r s.pending)
      × (res.reference ≡ r)
  IsDepositEnd s (err f, s') = ⊥

  abbrev Refunds : FlowState W → Result Fault Bool × FlowState W → Type 0
  Refunds s (ok back, s') =
      (s'.moves ≡ s.moves ++ (if back then refunded r ∷ [] else [])) × (s'.pending ≡ s.pending)
  Refunds s (err f, s') = ⊥

  try_refund-Refunds : (s : FlowState W) → Refunds s (try_refund deps amount r s)
  unfolding try_refund
  try_refund-Refunds s = ground (arith, append-nil s.moves)

  both_moves :
      (took back : Bool) (ms : List Move)
      → (ms ++ reservation took r) ++ (if back then refunded r ∷ [] else [])
        ≡ ms ++ deposit_moves FlowStatus.failed (some back) took r
  both_moves true true ms = append_assoc ms (debited r ∷ []) (refunded r ∷ [])
  both_moves true false ms = append-nil (ms ++ debited r ∷ [])
  both_moves false true ms = rw append-nil refl
  both_moves false false ms = append-nil (ms ++ [])

  give_back-IsDepositEnd :
      (c : String) (f : Fault) (took : Bool) (s t : FlowState W)
      → t.moves ≡ s.moves ++ reservation took r
      → others r t.pending ≡ others r s.pending
      → IsDepositEnd s (give_back deps amount r c f t)
  unfolding give_back failed_deposit
  give_back-IsDepositEnd c f took s t em ep =
      >>=_rule (Refunds t) (IsDepositEnd s) (try_refund deps amount r)
        (λ back. failed_deposit deps amount r c f back) t (try_refund-Refunds t)
        (λ back t' h. (took, h.0 ∙ (rw em (both_moves took back s.moves)), (rw h.1 ep), refl))
        (λ e t' h. absurd h)

  ended :
      (s : FlowState W) (c : String)
      → IsDepositEnd s (try_catch (try_deposit deps amount r) (give_back deps amount r c) s)
  ended s c =
      try_catch_rule (Tries s) (IsDepositEnd s) (try_deposit deps amount r)
        (give_back deps amount r c) s (try_deposit-Tries s) (λ res t h. (true, h.0, h.1, h.2))
        (λ f t h. give_back-IsDepositEnd c f h.0 s t h.1 h.2)

  shift-IsDepositEnd :
      (s t : FlowState W) (out : Result Fault BankFlowResult × FlowState W)
      → t.moves ≡ s.moves
      → t.pending ≡ s.pending
      → IsDepositEnd t out
      → IsDepositEnd s out
  shift-IsDepositEnd s t (ok res, s') em ep (took, m, p, e) = (took, rw em at m, rw ep at p, e)
  shift-IsDepositEnd s t (err f, s') em ep h = h

module _ {W F : Type 0} (deps : BankFlowDeps W F) (amount : Text) where
  -- How `runBankDeposit` ends: it throws only if the account cannot be read, with nothing done.
  abbrev pub DepositEnds : FlowState W → Result Fault BankFlowResult × FlowState W → Type 0
  DepositEnds s (ok res, s') =
      IsDepositEnd deps amount (deps.new_id deposit s.world).0 s (ok res, s')
  DepositEnds s (err f, s') =
      ((deps.account (deps.new_id deposit s.world).1).0 ≡ err f)
      × (s'.moves ≡ s.moves)
      × (s'.pending ≡ s.pending)

  returned :
      (s : FlowState W) (out : Result Fault BankFlowResult × FlowState W)
      → IsDepositEnd deps amount (deps.new_id deposit s.world).0 s out
      → DepositEnds s out
  returned s (ok res, s') h = h
  returned s (err f, s') h = absurd h

  -- A deposit throws only if the account cannot be read, and has then moved nothing. Else it
  -- returns a result of its reference: the other flows stay pending in their order and none of its
  -- own does; a completed one was debited and settled, a cancelled one debited and refunded, and a
  -- failed one was never settled, and refunded once exactly if the result says so.
  pub run_bank_deposit_ends : (s : FlowState W) → DepositEnds s (run_bank_deposit deps amount s)
  unfolding run_bank_deposit
  run_bank_deposit_ends s =
      let (r, w) = deps.new_id deposit s.world in
      >>=_rule (λ x. (x.0 ≡ (deps.account w).0) × (x.1.moves ≡ s.moves) × (x.1.pending ≡ s.pending))
        (DepositEnds s) (call deps.account) _
        (record s { order_id = none; has_paid = false; world = w }) (refl, refl, refl)
        (λ c t h.
          let t' = record t { steps = t.steps ++ (quote, active) ∷ [] } in
          returned s _ (shift-IsDepositEnd deps amount r s t' _ h.1 h.2 (ended deps amount r t' c)))
        (λ f t h. (sym h.0, h.1, h.2))
