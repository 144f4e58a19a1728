-- ===== src/Enabling/Prefix.antt =====
-- What the account may do while the steps of stellar/src/approval/enableAutoPay.ts are submitted one
-- by one. The effect of a transaction on the account is a parameter, with the documented effect of
-- each call of the guard and of the token as its laws.
use stellar_voice_control_pr.Common.{
  ◌≡◌, refl, ap, ◌∙◌, true, false, Option, none, some, List, [], ◌∷◌, String, Result, ok, err,
  Bool-cases, inl, inr, arith,
}
use stellar_voice_control_pr.Common.Int.{ℤ, pos, ◌<ℤ◌}
use stellar_voice_control_pr.Common.Text.{present}
use stellar_voice_control_pr.Common.Action.{>>=_rule}
use stellar_voice_control_pr.Guard.{Rule}
use stellar_voice_control_pr.Approval.{
  ApprovalMode, always_ask, auto_under_limit, is_absent, profile_from_chain,
}
use stellar_voice_control_pr.Approval.Draft.{
  AutoPayDraft, Check, rule_from_draft, first_of, validate_auto_pay_draft,
}
use stellar_voice_control_pr.Enabling.{
  set_executor, set_rule, approve, Failure, BuiltCall, AllowanceCall, BuiltApprovalStep, BuiltFlow,
  EnableAutoPayDeps, is_already_armed, step_of, checked, enable_rule, enable_executor, enable_flow,
  build_enable_steps, enable_with_asset, build_enable_auto_pay,
}

-- What the chain holds of the owner.
pub record Account : Type 0 where
  pub rule : Option Rule
  pub executor : Option String
  pub allowance : ℤ

abbrev pub mode_after : Account → ApprovalMode
mode_after account = (profile_from_chain account.rule account.executor).mode

-- Without an executor every payment is asked for.
absent_asks :
    (rule : Option Rule) (executor : Option String)
    → is_absent executor ≡ true
    → (profile_from_chain rule executor).mode ≡ always_ask
unfolding profile_from_chain
absent_asks none executor h = refl
absent_asks (some rule) executor h = rw h refl

-- The documented effect of the calls: a submitted transaction changes what its call is for.
pub record HasEffects {W X : Type 0} (deps : EnableAutoPayDeps W X)
    (applies : X → Account → Account) : Type 0 where
  pub of_allowance :
      (asset : String) (amount days : ℤ) (w w' : W) (a : AllowanceCall X) (account : Account)
      → deps.build_allowance asset amount days w ≡ (ok a, w')
      → applies a.call.unsigned_xdr account ≡ record account { allowance = amount }
  pub of_rule :
      (rule : Rule) (w w' : W) (c : BuiltCall X) (account : Account)
      → deps.build_rule rule w ≡ (ok c, w')
      → applies c.unsigned_xdr account ≡ record account { rule = some rule }
  pub of_executor :
      (executor : String) (w w' : W) (c : BuiltCall X) (account : Account)
      → deps.build_executor executor w ≡ (ok c, w')
      → applies c.unsigned_xdr account ≡ record account { executor = some executor }

module _ {W X : Type 0} (deps : EnableAutoPayDeps W X) (applies : X → Account → Account) where
  -- The three calls behind an enable flow, in the order of its steps.
  pub record IsBuilt (draft : AutoPayDraft) (flow : BuiltFlow X) : Type 0 where
    pub asset : String
    pub allowance : AllowanceCall X
    pub rule_call : BuiltCall X
    pub executor_call : BuiltCall X
    pub w0 : W
    pub w1 : W
    pub w2 : W
    pub w3 : W
    pub allowed :
        deps.build_allowance asset draft.allowance_raw draft.allowance_days w0 ≡ (ok allowance, w1)
    pub ruled : deps.build_rule (rule_from_draft draft) w1 ≡ (ok rule_call, w2)
    pub registered : deps.build_executor draft.executor w2 ≡ (ok executor_call, w3)
    pub in_order :
        flow.steps
        ≡ step_of approve allowance.call
          ∷ step_of set_rule rule_call
          ∷ step_of set_executor executor_call
          ∷ []

  abbrev Builds : AutoPayDraft → Result Failure (BuiltFlow X) × W → Type 0
  Builds draft (ok flow, w) = IsBuilt draft flow
  Builds draft (err e, w) = Unit

  build_enable_steps-Builds :
      (draft : AutoPayDraft) (asset : String) (w : W)
      → Builds draft (build_enable_steps deps draft asset w)
  unfolding build_enable_steps enable_rule enable_executor enable_flow
  build_enable_steps-Builds draft asset w =
      >>=_rule (λ x. deps.build_allowance asset draft.allowance_raw draft.allowance_days w ≡ x)
        (Builds draft) (deps.build_allowance asset draft.allowance_raw draft.allowance_days)
        (enable_rule deps draft) w refl
        (λ a w1 ea.
          >>=_rule (λ x. deps.build_rule (rule_from_draft draft) w1 ≡ x) (Builds draft)
            (deps.build_rule (rule_from_draft draft)) (enable_executor deps draft a) w1 refl
            (λ r w2 er.
              >>=_rule (λ x. deps.build_executor draft.executor w2 ≡ x) (Builds draft)
                (deps.build_executor draft.executor) (enable_flow deps draft a r) w2 refl
                (λ e w3 ee. record {
                  asset = asset;
                  allowance = a;
                  rule_call = r;
                  executor_call = e;
                  w0 = w;
                  w1 = w1;
                  w2 = w2;
                  w3 = w3;
                  allowed = ea;
                  ruled = er;
                  registered = ee;
                  in_order = refl;
                })
                (λ e w3 ee. tt))
            (λ e w2 er. tt))
        (λ e w1 ea. tt)

  enable_with_asset-Builds :
      (draft : AutoPayDraft) (o : Option String) (w : W)
      → Builds draft (enable_with_asset deps draft o w)
  enable_with_asset-Builds draft none w = tt
  enable_with_asset-Builds draft (some asset) w =
      elim (Bool-cases (is_already_armed deps.current)) [
        | inl e ↦ rw e tt
        | inr e ↦ rw e (build_enable_steps-Builds draft asset w)
      ]

  checked-Builds :
      (draft : AutoPayDraft) (c : Check) (m : W → Result Failure (BuiltFlow X) × W) (w : W)
      → Builds draft (m w)
      → Builds draft (checked c m w)
  checked-Builds draft (ok u) m w h = h
  checked-Builds draft (err e) m w h = tt

  build_enable_auto_pay-Builds :
      (draft : AutoPayDraft) (w : W) → Builds draft (build_enable_auto_pay deps draft w)
  unfolding build_enable_auto_pay
  build_enable_auto_pay-Builds draft w =
      checked-Builds draft (validate_auto_pay_draft deps.is_valid_contract deps.is_valid_key draft)
        (enable_with_asset deps draft (present (first_of draft.allowed_assets))) w
        (enable_with_asset-Builds draft (present (first_of draft.allowed_assets)) w)

  -- The steps are submitted in order.
  abbrev pub after_steps : List (BuiltApprovalStep X) → Account → Account
  after_steps [] account = account
  after_steps (step ∷ steps) account = after_steps steps (applies step.unsigned_xdr account)

  -- The flow has three steps; from this account every payment is asked for after the first and after
  -- the first two, and all three leave the drafted allowance, rule and executor.
  pub record FailsClosed (draft : AutoPayDraft) (account : Account) (flow : BuiltFlow X)
      : Type 0 where
    pub first : BuiltApprovalStep X
    pub second : BuiltApprovalStep X
    pub third : BuiltApprovalStep X
    pub three : flow.steps ≡ first ∷ second ∷ third ∷ []
    pub after_one : mode_after (after_steps (first ∷ []) account) ≡ always_ask
    pub after_two : mode_after (after_steps (first ∷ second ∷ []) account) ≡ always_ask
    pub after_all : after_steps flow.steps account ≡ record {
      rule = some (rule_from_draft draft);
      executor = some draft.executor;
      allowance = draft.allowance_raw;
    }

  module _ (effects : HasEffects deps applies) where
    IsBuilt-FailsClosed :
        (draft : AutoPayDraft) (account : Account) (flow : BuiltFlow X)
        → is_absent account.executor ≡ true
        → IsBuilt draft flow
        → FailsClosed draft account flow
    IsBuilt-FailsClosed draft account flow h b =
        let one : Account = record account { allowance = draft.allowance_raw } in
        let two : Account = record one { rule = some (rule_from_draft draft) } in
        let e1 =
          effects.of_allowance b.asset draft.allowance_raw draft.allowance_days b.w0 b.w1
            b.allowance account b.allowed in
        let e2 = effects.of_rule (rule_from_draft draft) b.w1 b.w2 b.rule_call one b.ruled in
        let e3 = effects.of_executor draft.executor b.w2 b.w3 b.executor_call two b.registered in
        record {
          first = step_of approve b.allowance.call;
          second = step_of set_rule b.rule_call;
          third = step_of set_executor b.executor_call;
          three = b.in_order;
          after_one = rw e1 (absent_asks account.rule account.executor h);
          after_two = rw (e1, e2) (absent_asks (some (rule_from_draft draft)) account.executor h);
          after_all = rw (b.in_order, e1, e2, e3) refl;
        }

    -- If no executor is registered, a built enable flow fails closed after every prefix of its
    -- steps, and only its last step registers the executor.
    pub build_enable_auto_pay-FailsClosed :
        (draft : AutoPayDraft) (account : Account) (flow : BuiltFlow X) (w w' : W)
        → build_enable_auto_pay deps draft w ≡ (ok flow, w')
        → is_absent account.executor ≡ true
        → FailsClosed draft account flow
    build_enable_auto_pay-FailsClosed draft account flow w w' e h =
        IsBuilt-FailsClosed draft account flow h (rw e at (build_enable_auto_pay-Builds draft w))

    armed_mode :
        (rule : Rule) (executor : Option String)
        → is_absent executor ≡ false
        → pos 0 <ℤ rule.auto_approve_limit
        → (profile_from_chain (some rule) executor).mode ≡ auto_under_limit
    unfolding profile_from_chain
    armed_mode rule executor h p = ground arith

    IsBuilt-after_two :
        (draft : AutoPayDraft) (account : Account) (flow : BuiltFlow X) (b : IsBuilt draft flow)
        → after_steps (step_of approve b.allowance.call ∷ step_of set_rule b.rule_call ∷ []) account
          ≡ record account { rule = some (rule_from_draft draft); allowance = draft.allowance_raw }
    IsBuilt-after_two draft account flow b =
        let one : Account = record account { allowance = draft.allowance_raw } in
        let e1 =
          effects.of_allowance b.asset draft.allowance_raw draft.allowance_days b.w0 b.w1
            b.allowance account b.allowed in
        let e2 = effects.of_rule (rule_from_draft draft) b.w1 b.w2 b.rule_call one b.ruled in
        rw (e1, e2) refl

    -- The first two steps leave the drafted rule with the executor that was there, and this lets
    -- payments through without being asked for.
    abbrev pub ArmsEarly : Account → BuiltFlow X → Type 0
    ArmsEarly account flow =
        (first : BuiltApprovalStep X) × (second : BuiltApprovalStep X) × (third : BuiltApprovalStep
          X)
        × (flow.steps ≡ first ∷ second ∷ third ∷ [])
        × (mode_after (after_steps (first ∷ second ∷ []) account) ≡ auto_under_limit)
        × ((after_steps (first ∷ second ∷ []) account).executor ≡ account.executor)

    IsBuilt-ArmsEarly :
        (draft : AutoPayDraft) (account : Account) (flow : BuiltFlow X)
        → is_absent account.executor ≡ false
        → pos 0 <ℤ draft.threshold_raw
        → IsBuilt draft flow
        → ArmsEarly account flow
    unfolding rule_from_draft
    IsBuilt-ArmsEarly draft account flow h p b =
        let two = IsBuilt-after_two draft account flow b in
        (
          step_of approve b.allowance.call,
          step_of set_rule b.rule_call,
          step_of set_executor b.executor_call,
          b.in_order,
          ap mode_after two ∙ armed_mode (rule_from_draft draft) account.executor h p,
          ap (λ (a : Account). a.executor) two,
        )

    -- With an executor registered, the first two steps of a built flow with a positive threshold
    -- already let payments through by that executor, before the step that registers the drafted one
    -- is submitted; this holds also where the builder is told the account.
    pub enable_arms_old_executor :
        (draft : AutoPayDraft) (account : Account) (flow : BuiltFlow X) (w w' : W)
        → deps.current ≡ some (account.rule, account.executor)
        → build_enable_auto_pay deps draft w ≡ (ok flow, w')
        → is_absent account.executor ≡ false
        → pos 0 <ℤ draft.threshold_raw
        → ArmsEarly account flow
    enable_arms_old_executor draft account flow w w' known e h p =
        IsBuilt-ArmsEarly draft account flow h p (rw e at (build_enable_auto_pay-Builds draft w))
