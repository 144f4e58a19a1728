-- ===== src/Enabling.antt =====
-- The builders of the auto-pay flows: stellar/src/approval/enableAutoPay.ts. The guard client, the
-- allowance builders, the decoder of a transaction and the clock are parameters on a type of worlds and a type of
-- transactions.
-- Ledgers that an allowance still has are a natural number; the title of a card is left out.
pub mod Card
pub mod Prefix
mod Tests
pub use stellar_voice_control_pr.Enabling.Card.{
  ApprovalStepKind, Failure, BuiltCall, AllowanceCall, BuiltApprovalStep, ApprovalActionSummary,
  ApprovalExposure, Note, ApprovalCardSummary, BuiltFlow, EnableAutoPayDeps, set_executor, set_rule,
  approve, revoke_executor, refused, loosening, call_failed, arming_step, schedule_allowance,
  always_ask, revoke_executor_caveat, kill_switch_caveat, allowance_change, allowance_lower,
}
use stellar_voice_control_pr.Common.{
  ℕ, ◌+◌, ◌*◌, Bool, true, false, not, ◌&&◌, Option, none, some, List, [], ◌∷◌, ◌++◌, String, map,
  Result, ok, err, if◌then◌else◌,
}
use stellar_voice_control_pr.Common.{◌>>=◌ as ◌then_check◌}
use stellar_voice_control_pr.Common.Int.{ℤ, pos, leb_ℤ, ltb_ℤ}
use stellar_voice_control_pr.Common.Text.{present}
use stellar_voice_control_pr.Common.Action.{pure, throw, ◌>>=◌, ◌>>◌}
use stellar_voice_control_pr.Guard.{Rule}
use stellar_voice_control_pr.Approval.{
  ChangeKind, same, ConfirmationLevel, card_and_touch_id, light, none_needed, is_absent,
  classify_change, confirmation_level, ApprovalError, assert_tightening,
}
use stellar_voice_control_pr.Approval.Draft.{
  AutoPayDraft, ApprovalErrorCode, no_assets, missing_asset, already_armed, Check, first_of,
  rule_from_draft, assert_valid_assets, assert_asset_matches_rule, validate_rule_and_allowance,
  validate_auto_pay_draft,
}

abbrev limit_of : Option Rule → ℤ
limit_of none = pos 0
limit_of (some rule) = rule.auto_approve_limit

-- `isAlreadyArmed`
unfoldable pub is_already_armed : Option (Option Rule × Option String) → Bool
is_already_armed none = false
is_already_armed (some (rule, executor)) = not (is_absent executor) && ltb_ℤ (pos 0) (limit_of rule)

-- `allowanceChangeNotes`
unfoldable pub allowance_change_notes : Option ℤ → ℤ → List Note
allowance_change_notes none next = []
allowance_change_notes (some current) next =
    allowance_change current next ∷ (if ltb_ℤ next current then allowance_lower ∷ [] else [])

abbrev pub step_of : {X : Type 0} → ApprovalStepKind → BuiltCall X → BuiltApprovalStep X
step_of kind call = record {
  kind = kind;
  unsigned_xdr = call.unsigned_xdr;
  payload_hash = call.payload_hash;
}

abbrev is_executor_step : ApprovalStepKind → Bool
is_executor_step set_executor = true
is_executor_step kind = false

module _ {W : Type 0} where
  abbrev pub checked : {A : Type 0} → Check → (W → Result Failure A × W) → W → Result Failure A × W
  checked (ok u) next w = next w
  checked (err code) next w = (err (refused code), w)

module _ {W X : Type 0} where
  module _ (deps : EnableAutoPayDeps W X) where
    abbrev action_of : BuiltApprovalStep X → ApprovalActionSummary
    action_of step = record {
      kind = step.kind;
      lines = deps.decoded_lines step.unsigned_xdr;
      arming = is_executor_step step.kind;
    }

    -- The exposure, with the limits decoded from the transaction that sets the rule.
    unfoldable pub exposure_of : BuiltCall X → AllowanceCall X → ℤ → W → ApprovalExposure
    exposure_of rule_call allowance_call allowance_raw w =
        let decoded = deps.rule_of_xdr rule_call.unsigned_xdr in
        let expires_at = deps.now w + allowance_call.ledgers_remaining * 5 * 1000 in
        record {
          threshold_raw = decoded.auto_approve_limit;
          daily_limit_raw = decoded.daily_limit;
          allowance_raw = allowance_raw;
          allowance_expires_local = deps.local_time expires_at;
          allowance_expires_utc = deps.utc_time expires_at;
        }

    abbrev flow_of :
        List (BuiltApprovalStep X)
        → Option ApprovalExposure
        → List Note
        → ConfirmationLevel
        → BuiltFlow X
    flow_of steps exposure notes confirmation = record {
      steps = steps;
      summary = record {
        actions = map action_of steps;
        exposure = exposure;
        notes = notes;
        confirmation = confirmation;
      };
      order = map (λ (step : BuiltApprovalStep X). step.kind) steps;
    }

    -- The flow of the three calls.
    unfoldable pub enable_flow :
        AutoPayDraft
        → AllowanceCall X
        → BuiltCall X
        → BuiltCall X
        → W
        → Result Failure (BuiltFlow X) × W
    unfolding exposure_of
    enable_flow draft allowance rule_call executor_call w = (
      ok (
          flow_of
            (step_of approve allowance.call
              ∷ step_of set_rule rule_call
              ∷ step_of set_executor executor_call
              ∷ [])
            (some (exposure_of rule_call allowance draft.allowance_raw w))
            (arming_step
              ∷ schedule_allowance
              ∷ allowance_change_notes deps.current_allowance_raw draft.allowance_raw)
            card_and_touch_id),
      w,
    )

    unfoldable pub enable_executor :
        AutoPayDraft → AllowanceCall X → BuiltCall X → W → Result Failure (BuiltFlow X) × W
    unfolding enable_flow
    enable_executor draft allowance rule_call =
        deps.build_executor draft.executor >>= enable_flow draft allowance rule_call

    unfoldable pub enable_rule :
        AutoPayDraft → AllowanceCall X → W → Result Failure (BuiltFlow X) × W
    unfolding enable_executor
    enable_rule draft allowance =
        deps.build_rule (rule_from_draft draft) >>= enable_executor draft allowance

    -- The calls of `buildEnableAutoPay`, in arming order.
    unfoldable pub build_enable_steps : AutoPayDraft → String → W → Result Failure (BuiltFlow X) × W
    unfolding enable_rule
    build_enable_steps draft asset =
        deps.build_allowance asset draft.allowance_raw draft.allowance_days >>= enable_rule draft

    abbrev pub enable_with_asset :
        AutoPayDraft → Option String → W → Result Failure (BuiltFlow X) × W
    enable_with_asset draft none w = (err (refused no_assets), w)
    enable_with_asset draft (some asset) w =
        if is_already_armed deps.current
        then (err (refused already_armed), w)
        else build_enable_steps draft asset w

    -- `buildEnableAutoPay`
    unfoldable pub build_enable_auto_pay : AutoPayDraft → W → Result Failure (BuiltFlow X) × W
    unfolding build_enable_steps is_already_armed validate_auto_pay_draft
    build_enable_auto_pay draft =
        checked (validate_auto_pay_draft deps.is_valid_contract deps.is_valid_key draft)
          (enable_with_asset draft (present (first_of draft.allowed_assets)))

    -- `validateBaselineSetup`
    unfoldable pub validate_baseline_setup : Rule → String → (allowance days : ℤ) → Check
    unfolding validate_rule_and_allowance assert_valid_assets assert_asset_matches_rule
    validate_baseline_setup rule asset allowance days =
        validate_rule_and_allowance deps.is_valid_contract deps.is_valid_key rule allowance days
        then_check (λ _.
            assert_valid_assets deps.is_valid_contract deps.is_valid_key (asset ∷ [])
              (assert_asset_matches_rule (some asset) rule))

    -- `buildBaselineSetup`
    unfoldable pub build_baseline_setup :
        Rule → String → (allowance days : ℤ) → W → Result Failure (BuiltFlow X) × W
    unfolding validate_baseline_setup exposure_of
    build_baseline_setup rule asset allowance_raw days =
        checked (validate_baseline_setup rule asset allowance_raw days) (do
          allowance ← deps.build_allowance asset allowance_raw days
          rule_call ← deps.build_rule rule
          (λ w. (
            ok (
                flow_of (step_of approve allowance.call ∷ step_of set_rule rule_call ∷ [])
                  (some (exposure_of rule_call allowance allowance_raw w))
                  (always_ask
                    ∷ schedule_allowance
                    ∷ allowance_change_notes deps.current_allowance_raw allowance_raw)
                  card_and_touch_id),
            w,
          )))

    -- The second half of `buildDisableAutoPay`, behind the call that revokes the executor.
    unfoldable pub disable_with :
        BuiltCall X → Bool → Option String → W → Result Failure (BuiltFlow X) × W
    disable_with revoke false asset w = (
      ok (flow_of (step_of revoke_executor revoke ∷ []) none (revoke_executor_caveat ∷ []) light),
      w,
    )
    disable_with revoke true none w = (err (refused missing_asset), w)
    disable_with revoke true (some asset) w =
        (deps.build_no_allowance asset >>= λ zero_call. pure (
            flow_of (step_of revoke_executor revoke ∷ step_of approve zero_call ∷ []) none
              (revoke_executor_caveat ∷ kill_switch_caveat ∷ []) light))
          w

    -- `buildDisableAutoPay`
    unfoldable pub build_disable_auto_pay :
        Bool → Option String → W → Result Failure (BuiltFlow X) × W
    unfolding disable_with
    build_disable_auto_pay revoke_allowance asset =
        deps.build_revoke >>= λ revoke. disable_with revoke revoke_allowance (present asset)

    -- `if (!options.allowLoosening) assertTightening(classification)`
    abbrev tightening_only : Bool → ChangeKind → Result ApprovalError (Unit {0})
    tightening_only true change = ok tt
    tightening_only false change = assert_tightening change

    abbrev tighten_checked :
        Result ApprovalError (Unit {0})
        → Rule
        → ChangeKind
        → W
        → Result Failure (List (BuiltApprovalStep X) × ChangeKind × ConfirmationLevel) × W
    tighten_checked (err e) next change w = (err (loosening e), w)
    tighten_checked (ok u) next change w =
        (deps.build_rule next >>= λ call.
        pure (step_of set_rule call ∷ [], change, confirmation_level change))
          w

    -- `buildTightenRule`
    unfoldable pub build_tighten_rule :
        Option Rule
        → Rule
        → Bool
        → W
        → Result Failure (List (BuiltApprovalStep X) × ChangeKind × ConfirmationLevel) × W
    unfolding classify_change confirmation_level assert_tightening
    build_tighten_rule current next allow_loosening w =
        let change = classify_change current next in
        elim change [
          | same ↦ (ok ([], same, none_needed), w)
          | other ↦ tighten_checked (tightening_only allow_loosening other) next other w
        ]
