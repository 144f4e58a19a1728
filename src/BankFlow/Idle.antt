-- ===== src/BankFlow/Idle.antt =====
-- Steps that change neither the moves nor the pending flows (app/src/lib/bankFlow.ts), and how a
-- patch and a removal change the pending flows when one flow of the reference stands last.
use stellar_voice_control_pr.Common.{
  ◌≡◌, refl, ◌∙◌, eq_iff, true, List, [], ◌∷◌, ◌++◌, String, Result, arith, Result-cases, inl, inr,
}
use stellar_voice_control_pr.Common.Text.{Text}
use stellar_voice_control_pr.Common.Action.{pure, ◌>>=◌, ◌>>◌}
use stellar_voice_control_pr.BankFlow.Deps.{
  Fault, BankFlowDeps, PendingBankFlow, FlowState, BankStepId, BankStepStatus,
}
use stellar_voice_control_pr.BankFlow.{
  Flow, call, report, patch_where, sync_currency, sign_in, wait_completed, others, is_of,
}

pub patch_where-append :
    (r : String) (patch : PendingBankFlow → PendingBankFlow) (xs ys : List PendingBankFlow)
    → patch_where r patch (xs ++ ys) ≡ patch_where r patch xs ++ patch_where r patch ys
unfolding patch_where
patch_where-append r patch [] ys = refl
patch_where-append r patch (f ∷ xs) ys = ground (arith, patch_where-append r patch xs ys)

pub patch_where-others :
    (r : String) (patch : PendingBankFlow → PendingBankFlow) (xs : List PendingBankFlow)
    → patch_where r patch (others r xs) ≡ others r xs
unfolding patch_where others
patch_where-others r patch [] = refl
patch_where-others r patch (f ∷ xs) = ground (arith, patch_where-others r patch xs)

pub patch_where-last :
    (r : String) (patch : PendingBankFlow → PendingBankFlow) (xs : List PendingBankFlow)
    (f : PendingBankFlow)
    → f.reference ≡ r
    → patch_where r patch (others r xs ++ f ∷ []) ≡ others r xs ++ patch f ∷ []
unfolding patch_where
patch_where-last r patch xs f e =
    let same : is_of r f ≡ true = (eq_iff f.reference r).1 e in
    patch_where-append r patch (others r xs) (f ∷ [])
    ∙ rw (patch_where-others r patch xs, same) refl

module _ {W : Type 0} where
  abbrev pub Same : FlowState W → FlowState W → Type 0
  Same s t = (t.moves ≡ s.moves) × (t.pending ≡ s.pending) × (t.has_paid ≡ s.has_paid)

  abbrev pub Idle : {A : Type 0} → Flow W A → Type 0
  Idle m = (s : FlowState W) → Same s (m s).1

  pub >>=-Idle :
      {A B : Type 0} (m : Flow W A) (f : A → Flow W B)
      → Idle m
      → ((a : A) → Idle (f a))
      → Idle (m >>= f)
  >>=-Idle m f qm qf s = elim (Result-cases (m s).0) [
    | inl (a, e) ↦ ground (arith, qm s, qf a (m s).1)
    | inr (x, e) ↦ ground (arith, qm s)
  ]

  pub >>-Idle : {A B : Type 0} (m : Flow W A) (k : Flow W B) → Idle m → Idle k → Idle (m >> k)
  >>-Idle m k qm qk = >>=-Idle m (λ _. k) qm (λ _. qk)

  pub pure-Idle : {A : Type 0} (a : A) → Idle (λ (s : FlowState W). pure a s)
  pure-Idle a s = (refl, refl, refl)

  pub call-Idle : {A : Type 0} (f : W → Result Fault A × W) → Idle (call f)
  call-Idle f s = (refl, refl, refl)

  pub report-Idle :
      (step : BankStepId) (status : BankStepStatus)
      → Idle (λ (s : FlowState W). report step status s)
  report-Idle step status s = (refl, refl, refl)

  module _ {F : Type 0} (deps : BankFlowDeps W F) where
    pub sync_currency-Idle : (asset_id : Text) → Idle (sync_currency deps asset_id)
    unfolding sync_currency
    sync_currency-Idle asset_id s = ground arith

    pub sign_in-Idle : Idle (sign_in deps)
    unfolding sign_in
    sign_in-Idle s = ground arith

    pub wait_completed-Idle : (id : String) → Idle (wait_completed deps id)
    unfolding wait_completed
    wait_completed-Idle id s = ground arith

pub ruleset idle = (
  >>=-Idle, >>-Idle, pure-Idle, call-Idle, report-Idle, sync_currency-Idle, sign_in-Idle,
  wait_completed-Idle,
)
