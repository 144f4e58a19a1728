-- ===== src/BankFlow/Reconcile/Laws.antt =====
-- What `reconcileBankFlows` (app/src/lib/bankFlow.ts) does with each pending flow.
use stellar_voice_control_pr.Common.{
  ◌≡◌, refl, sym, ◌∙◌, ap, append_assoc, append-nil, Option, none, some, List, [], ◌∷◌, ◌++◌,
  String, Result, ok, err, arith,
}
use stellar_voice_control_pr.Common.Text.{Text, present}
use stellar_voice_control_pr.Common.Action.{>>=_rule, try_catch_rule}
use stellar_voice_control_pr.BankFlow.Deps.{
  BankFlowKind, deposit, withdraw, Fault, BankFlowDeps, FlowState, BankFlowResult, FlowStatus,
  Detail, recovered_payout, Move, settled, refunded, credited, BankAnchorTransaction,
  PendingBankFlow,
}
use stellar_voice_control_pr.BankFlow.{call, others, or_else, payout_of}
use stellar_voice_control_pr.BankFlow.Reconcile.{
  credit_flow, recover_deposit, recover_withdrawal, recover_with_order, recover_without_order,
  recover, leave_pending, recover_safely, push_result, recover_each, reconcile_bank_flows,
}

-- The one move behind a result: a deposit is settled or refunded, a withdrawal's payout is credited.
abbrev pub moves_of : BankFlowKind → FlowStatus → Detail → String → List Move
moves_of deposit FlowStatus.completed detail r = settled r ∷ []
moves_of deposit status detail r = refunded r ∷ []
moves_of withdraw FlowStatus.completed (recovered_payout payout) r = credited payout r ∷ []
moves_of withdraw status detail r = []

abbrev pub result_moves : BankFlowResult → List Move
result_moves res = moves_of res.kind res.status res.detail res.reference

module _ {W F : Type 0} (deps : BankFlowDeps W F) where
  abbrev pub Recovers :
      PendingBankFlow → FlowState W → Result Fault (Option BankFlowResult) × FlowState W → Type 0
  Recovers flow s (ok none, t) = (t.moves ≡ s.moves) × (t.pending ≡ s.pending)
  Recovers flow s (ok (some res), t) =
      (t.moves ≡ s.moves ++ result_moves res)
      × (t.pending ≡ others flow.reference s.pending)
      × (res.reference ≡ flow.reference)
      × (res.kind ≡ flow.kind)
  Recovers flow s (err f, t) = (t.moves ≡ s.moves) × (t.pending ≡ s.pending)

  credit_flow-Recovers :
      (flow : PendingBankFlow) (id anchor_id : String) (payout : Text) (s : FlowState W)
      → flow.kind ≡ withdraw
      → Recovers flow s (credit_flow deps flow id anchor_id payout s)
  unfolding credit_flow
  credit_flow-Recovers flow id anchor_id [] s e = (refl, refl)
  credit_flow-Recovers flow id anchor_id (c ∷ cs) s e = ground arith

  recover_deposit-Recovers :
      (flow : PendingBankFlow) (id : String) (tx : BankAnchorTransaction) (s : FlowState W)
      → flow.kind ≡ deposit
      → Recovers flow s (recover_deposit deps flow id tx s)
  unfolding recover_deposit
  recover_deposit-Recovers flow id tx s e = ground arith

  recover_withdrawal-Recovers :
      (flow : PendingBankFlow) (id : String) (tx : BankAnchorTransaction) (s : FlowState W)
      → flow.kind ≡ withdraw
      → Recovers flow s (recover_withdrawal deps flow id tx s)
  unfolding recover_withdrawal
  recover_withdrawal-Recovers flow id tx s e = ground (
    arith,
    append-nil s.moves,
    credit_flow-Recovers flow id (or_else tx.stellar_transaction_id id) (payout_of deps tx []) s,
  )

  recover_without_order-Recovers :
      (kind : BankFlowKind) (flow : PendingBankFlow) (s : FlowState W)
      → flow.kind ≡ kind
      → Recovers flow s (recover_without_order deps kind flow s)
  unfolding recover_without_order
  recover_without_order-Recovers deposit flow s e = ground arith
  recover_without_order-Recovers withdraw flow s e = ground (arith, append-nil s.moves)

  -- After the anchor's answer, at the state that the call leaves.
  shift-Recovers :
      (flow : PendingBankFlow) (s t : FlowState W)
      (out : Result Fault (Option BankFlowResult) × FlowState W)
      → t.moves ≡ s.moves
      → t.pending ≡ s.pending
      → Recovers flow t out
      → Recovers flow s out
  shift-Recovers flow s t (ok none, u) em ep h = (h.0 ∙ em, h.1 ∙ ep)
  shift-Recovers flow s t (ok (some res), u) em ep (m, p, q, k) = (rw em at m, rw ep at p, q, k)
  shift-Recovers flow s t (err f, u) em ep h = (h.0 ∙ em, h.1 ∙ ep)

  recover_with_order-Recovers :
      (kind : BankFlowKind) (flow : PendingBankFlow) (id : String) (s : FlowState W)
      → flow.kind ≡ kind
      → Recovers flow s (recover_with_order deps kind flow id s)
  unfolding recover_with_order
  recover_with_order-Recovers deposit flow id s e =
      >>=_rule (λ x. (x.1.moves ≡ s.moves) × (x.1.pending ≡ s.pending)) (Recovers flow s)
        (call (deps.transaction id)) (recover_deposit deps flow id) s (refl, refl)
        (λ tx t h.
          shift-Recovers flow s t (recover_deposit deps flow id tx t) h.0 h.1
            (recover_deposit-Recovers flow id tx t e))
        (λ f t h. h)
  recover_with_order-Recovers withdraw flow id s e =
      >>=_rule (λ x. (x.1.moves ≡ s.moves) × (x.1.pending ≡ s.pending)) (Recovers flow s)
        (call (deps.transaction id)) (recover_withdrawal deps flow id) s (refl, refl)
        (λ tx t h.
          shift-Recovers flow s t (recover_withdrawal deps flow id tx t) h.0 h.1
            (recover_withdrawal-Recovers flow id tx t e))
        (λ f t h. h)

  recover-Recovers :
      (flow : PendingBankFlow) (s : FlowState W) → Recovers flow s (recover deps flow s)
  unfolding recover
  recover-Recovers flow s =
      elim (present flow.anchor_tx_id)
        as (λ o. Recovers flow s (elim o [
          | none ↦ recover_without_order deps flow.kind flow s
          | some id ↦ recover_with_order deps flow.kind flow id s
        ])) [
          | none ↦ recover_without_order-Recovers flow.kind flow s refl
          | some id ↦ recover_with_order-Recovers flow.kind flow id s refl
        ]

  -- With the `catch`, a round never throws.
  abbrev Settles :
      PendingBankFlow → FlowState W → Result Fault (Option BankFlowResult) × FlowState W → Type 0
  Settles flow s (ok r, t) = Recovers flow s (ok r, t)
  Settles flow s (err f, t) = ⊥

  recover_safely-Settles :
      (flow : PendingBankFlow) (s : FlowState W) → Settles flow s (recover_safely deps flow s)
  unfolding recover_safely
  recover_safely-Settles flow s =
      try_catch_rule (Recovers flow s) (Settles flow s) (recover deps flow) (leave_pending deps) s
        (recover-Recovers flow s) (λ r t h. h) (λ f t h. h)

-- The results answer the flows in order, each flow at most once.
pub data Picks : List PendingBankFlow → List BankFlowResult → Type 0 where
  nothing : Picks [] []
  kept :
      {f : PendingBankFlow} {fs : List PendingBankFlow} {rs : List BankFlowResult}
      → Picks fs rs
      → Picks (f ∷ fs) rs
  resolved :
      {f : PendingBankFlow} {fs : List PendingBankFlow} {res : BankFlowResult}
      {rs : List BankFlowResult}
      → res.reference ≡ f.reference
      → res.kind ≡ f.kind
      → Picks fs rs
      → Picks (f ∷ fs) (res ∷ rs)

-- The flows whose reference no result has.
abbrev pub unresolved : List BankFlowResult → List PendingBankFlow → List PendingBankFlow
unresolved [] flows = flows
unresolved (res ∷ rs) flows = unresolved rs (others res.reference flows)

abbrev pub all_moves : List BankFlowResult → List Move
all_moves [] = []
all_moves (res ∷ rs) = result_moves res ++ all_moves rs

module _ {W F : Type 0} (deps : BankFlowDeps W F) where
  abbrev pub Reconciles :
      List PendingBankFlow
      → List BankFlowResult
      → FlowState W
      → Result Fault (List BankFlowResult) × FlowState W
      → Type 0
  Reconciles flows before s out =
      (rs : List BankFlowResult) × (out.0 ≡ ok (before ++ rs))
      × Picks flows rs
      × (out.1.moves ≡ s.moves ++ all_moves rs)
      × (out.1.pending ≡ unresolved rs s.pending)

  step-Reconciles :
      (flow : PendingBankFlow) (flows : List PendingBankFlow) (before : List BankFlowResult)
      (r : Option BankFlowResult) (s t : FlowState W)
      (out : Result Fault (List BankFlowResult) × FlowState W)
      → Settles deps flow s (ok r, t)
      → Reconciles flows (push_result r before) t out
      → Reconciles (flow ∷ flows) before s out
  step-Reconciles flow flows before none s t out h (rs, e, picks, m, p) =
      (rs, e, Picks.kept picks, rw h.0 at m, rw h.1 at p)
  step-Reconciles flow flows before (some res) s t out h (rs, e, picks, m, p) = (
    res ∷ rs,
    e ∙ ap ok (append_assoc before (res ∷ []) rs),
    Picks.resolved h.2 h.3 picks,
    m ∙ rw h.0 (append_assoc s.moves (result_moves res) (all_moves rs)),
    p ∙ rw (h.1, h.2) refl,
  )

  recover_each-Reconciles :
      (flows : List PendingBankFlow) (before : List BankFlowResult) (s : FlowState W)
      → Reconciles flows before s (recover_each deps flows before s)
  unfolding recover_each
  recover_each-Reconciles [] before s =
      ([], rw append-nil refl, Picks.nothing, sym (append-nil s.moves), refl)
  recover_each-Reconciles (flow ∷ flows) before s =
      >>=_rule (Settles deps flow s) (Reconciles (flow ∷ flows) before s) (recover_safely deps flow)
        (λ r. recover_each deps flows (push_result r before)) s (recover_safely-Settles deps flow s)
        (λ r t h.
          step-Reconciles flow flows before r s t (recover_each deps flows (push_result r before) t)
            h (recover_each-Reconciles flows (push_result r before) t))
        (λ f t h. absurd h)

  -- The recovery after a restart never throws. Its results answer the pending flows in order, each
  -- flow at most once; the money calls are those of the results, in order: one settlement or refund
  -- for a deposit, one credit for a completed withdrawal and none for a failed one; and the flows
  -- that stay are those whose reference no result has, in their order.
  pub reconcile_bank_flows_ends :
      (s : FlowState W) → Reconciles s.pending [] s (reconcile_bank_flows deps s)
  unfolding reconcile_bank_flows
  reconcile_bank_flows_ends s = recover_each-Reconciles s.pending [] s
