-- ===== src/BankFlow/Quiet.antt =====
-- Steps that move no money and leave the pending flows of other references alone
-- (app/src/lib/bankFlow.ts).
use stellar_voice_control_pr.Common.{
  ◌≡◌, refl, ◌∙◌, eq_iff, true, List, [], ◌∷◌, ◌++◌, append-nil, String, Result, arith,
  Result-cases, inl, inr,
}
use stellar_voice_control_pr.Common.Text.{Text}
use stellar_voice_control_pr.Common.Action.{pure, ◌>>=◌, ◌>>◌}
use stellar_voice_control_pr.BankFlow.Deps.{
  Fault, BankFlowDeps, PendingBankFlow, FlowState, BankStepId, BankStepStatus, Order,
}
use stellar_voice_control_pr.BankFlow.{
  Flow, call, report, patch_pending, patch_where, sync_currency, sign_in, check_limits, place_order,
  with_order, wait_completed, others, is_of,
}

pub others-append :
    (r : String) (xs ys : List PendingBankFlow) → others r (xs ++ ys) ≡ others r xs ++ others r ys
unfolding others
others-append r [] ys = refl
others-append r (f ∷ xs) ys = ground (arith, others-append r xs ys)

pub others-others : (r : String) (xs : List PendingBankFlow) → others r (others r xs) ≡ others r xs
unfolding others
others-others r [] = refl
others-others r (f ∷ xs) = ground (arith, others-others r xs)

-- `withPending` leaves the others alone.
pub others-push :
    (r : String) (f : PendingBankFlow) (xs : List PendingBankFlow)
    → f.reference ≡ r
    → others r (others r xs ++ f ∷ []) ≡ others r xs
unfolding others
others-push r f xs e =
    let same : is_of r f ≡ true = (eq_iff f.reference r).1 e in
    let last : others r (f ∷ []) ≡ [] = rw same refl in
    others-append r (others r xs) (f ∷ [])
    ∙ (rw (last, others-others r xs) (append-nil (others r xs)))

-- A patch of the flows of `r` that keeps their reference.
pub others-patch_where :
    (r : String) (patch : PendingBankFlow → PendingBankFlow)
    → ((f : PendingBankFlow) → (patch f).reference ≡ f.reference)
    → (xs : List PendingBankFlow) → others r (patch_where r patch xs) ≡ others r xs
unfolding others patch_where
others-patch_where r patch same [] = refl
others-patch_where r patch same (f ∷ xs) =
    ground (arith, others-patch_where r patch same xs, same f)

module _ {W : Type 0} (r : String) where
  -- No move, and the other flows are as they were.
  abbrev pub Keeps : FlowState W → FlowState W → Type 0
  Keeps s s' = (s'.moves ≡ s.moves) × (others r s'.pending ≡ others r s.pending)

  abbrev pub Quiet : {A : Type 0} → Flow W A → Type 0
  Quiet m = (s : FlowState W) → Keeps s (m s).1

  pub >>=-Quiet :
      {A B : Type 0} (m : Flow W A) (f : A → Flow W B)
      → Quiet m
      → ((a : A) → Quiet (f a))
      → Quiet (m >>= f)
  >>=-Quiet m f qm qf s = elim (Result-cases (m s).0) [
    | inl (a, e) ↦ ground (arith, qm s, qf a (m s).1)
    | inr (x, e) ↦ ground (arith, qm s)
  ]

  pub >>-Quiet : {A B : Type 0} (m : Flow W A) (k : Flow W B) → Quiet m → Quiet k → Quiet (m >> k)
  >>-Quiet m k qm qk = >>=-Quiet m (λ _. k) qm (λ _. qk)

  pub pure-Quiet : {A : Type 0} (a : A) → Quiet (λ (s : FlowState W). pure a s)
  pure-Quiet a s = (refl, refl)

  pub call-Quiet : {A : Type 0} (f : W → Result Fault A × W) → Quiet (call f)
  call-Quiet f s = (refl, refl)

  pub report-Quiet :
      (step : BankStepId) (status : BankStepStatus)
      → Quiet (λ (s : FlowState W). report step status s)
  report-Quiet step status s = (refl, refl)

  module _ {F : Type 0} (deps : BankFlowDeps W F) where
    pub sync_currency-Quiet : (asset_id : Text) → Quiet (sync_currency deps asset_id)
    unfolding sync_currency
    sync_currency-Quiet asset_id s = ground arith

    pub sign_in-Quiet : Quiet (sign_in deps)
    unfolding sign_in
    sign_in-Quiet s = ground arith

    pub place_order-Quiet : (amount : Text) (o : Order F) → Quiet (place_order deps amount r o)
    unfolding place_order check_limits patch_pending
    place_order-Quiet amount o s =
        ground (arith, others-patch_where r (with_order o.id) (λ f. refl) s.pending)

    pub wait_completed-Quiet : (id : String) → Quiet (wait_completed deps id)
    unfolding wait_completed
    wait_completed-Quiet id s = ground arith

pub ruleset quiet = (
  >>=-Quiet, >>-Quiet, pure-Quiet, call-Quiet, report-Quiet, sync_currency-Quiet, sign_in-Quiet,
  place_order-Quiet, wait_completed-Quiet,
)
