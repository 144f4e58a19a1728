-- ===== src/Approval/Draft.antt =====
-- The draft of the auto-pay limits and its validation: stellar/src/approval/types.ts. The StrKey tests
-- of the stellar SDK are parameters. A count of days is an integer, whole by its type.
pub mod Valid
use stellar_voice_control_pr.Common.{
  ℕ, suc, ◌+◌, ◌-◌, ◌*◌, ◌^◌, Bool, true, false, not, ◌||◌, Option, none, some, List, [], ◌∷◌,
  String, length, ltb, Result, ok, err, ◌>>=◌, if◌then◌else◌,
}
use text.Mathlib.Text.{◌==◌ as str_eq}
use stellar_voice_control_pr.Common.Int.{ℤ, pos, negsuc, leb_ℤ, ltb_ℤ}
use stellar_voice_control_pr.Common.Text.{Text}
use stellar_voice_control_pr.Guard.{Rule, GuardClientError}
use stellar_voice_control_pr.Guard.Amount.{to_raw_units, i128_max}

pub record AutoPayDraft : Type 0 where
  pub executor : String
  pub threshold_raw : ℤ
  pub daily_limit_raw : ℤ
  pub per_tx_limit_raw : ℤ
  pub allowed_assets : List String
  pub known_recipients_only : Bool
  pub allowance_raw : ℤ
  pub allowance_days : ℤ

pub data ApprovalErrorCode : Type 0 where
  invalid_amount_string invalid_executor threshold_negative non_positive_limit : ApprovalErrorCode
  amount_out_of_range limit_order too_many_assets no_assets invalid_asset : ApprovalErrorCode
  allowance_too_small invalid_allowance_days missing_asset already_armed : ApprovalErrorCode
  use_enable_flow : ApprovalErrorCode

pub record AutoPayDraftInput : Type 0 where
  pub executor : String
  pub threshold : Text
  pub per_tx_limit : Text
  pub daily_limit : Text
  pub allowed_assets : List String
  pub known_recipients_only : Bool
  pub allowance : Option Text
  pub allowance_days : Option ℤ

abbrev pub max_allowed_assets : ℕ
max_allowed_assets = 1

-- `dailyLimitRaw * DEFAULT_ALLOWANCE_MULTIPLIER`
abbrev pub seven_times : ℤ → ℤ
seven_times (pos n) = pos (n * 7)
seven_times (negsuc n) = negsuc (n * 7 + 6)

unfoldable pub recode : Result GuardClientError ℤ → Result ApprovalErrorCode ℤ
recode (ok raw) = ok raw
recode (err e) = err invalid_amount_string

unfoldable pub parse_amount : Text → Result ApprovalErrorCode ℤ
unfolding recode
parse_amount value = recode (to_raw_units value)

unfoldable pub allowance_of : Option Text → ℤ → Result ApprovalErrorCode ℤ
unfolding parse_amount
allowance_of none daily = ok (seven_times daily)
allowance_of (some value) daily = parse_amount value

-- `input.allowanceDays ?? DEFAULT_ALLOWANCE_DAYS`
abbrev pub days_of : Option ℤ → ℤ
days_of none = pos 30
days_of (some days) = days

unfoldable pub make_auto_pay_draft : AutoPayDraftInput → Result ApprovalErrorCode AutoPayDraft
unfolding parse_amount allowance_of
make_auto_pay_draft input = parse_amount input.daily_limit >>= (λ daily.
    allowance_of input.allowance daily >>= (λ allowance.
      parse_amount input.threshold >>= (λ threshold. parse_amount input.per_tx_limit >>= (λ per_tx.
        ok (record {
          executor = input.executor;
          threshold_raw = threshold;
          per_tx_limit_raw = per_tx;
          daily_limit_raw = daily;
          allowed_assets = input.allowed_assets;
          known_recipients_only = input.known_recipients_only;
          allowance_raw = allowance;
          allowance_days = days_of input.allowance_days;
        })))))

unfoldable pub rule_from_draft : AutoPayDraft → Rule
rule_from_draft draft = record {
  auto_approve_limit = draft.threshold_raw;
  per_tx_limit = draft.per_tx_limit_raw;
  daily_limit = draft.daily_limit_raw;
  allowed_assets = draft.allowed_assets;
  known_recipients_only = draft.known_recipients_only;
}

-- A check throws its code or passes.
abbrev pub Check : Type 0
Check = Result ApprovalErrorCode (Unit {0})

abbrev pub refuse_if : Bool → ApprovalErrorCode → Check → Check
refuse_if test code rest = if test then err code else rest

abbrev exceeds_i128 : ℤ → Bool
exceeds_i128 value = ltb_ℤ (pos i128_max) value

-- `assertAssetMatchesRule`
unfoldable pub assert_asset_matches_rule : Option String → Rule → Check
assert_asset_matches_rule none rule = ok tt
assert_asset_matches_rule (some asset) rule = elim rule.allowed_assets [
  | [] ↦ ok tt
  | first ∷ _ ↦ refuse_if (not (str_eq first asset)) invalid_asset (ok tt)
]

abbrev pub first_of : List String → Option String
first_of [] = none
first_of (a ∷ xs) = some a

module _ (is_valid_contract is_valid_key : String → Bool) where
  unfoldable pub assert_valid_assets : List String → Check → Check
  assert_valid_assets [] rest = rest
  assert_valid_assets (asset ∷ assets) rest =
      refuse_if (not (is_valid_contract asset)) invalid_asset (assert_valid_assets assets rest)

  unfoldable pub validate_rule_and_allowance : Rule → (allowance days : ℤ) → Check
  unfolding assert_valid_assets
  validate_rule_and_allowance rule allowance days =
      refuse_if (ltb_ℤ rule.auto_approve_limit (pos 0)) threshold_negative (
        refuse_if (leb_ℤ rule.per_tx_limit (pos 0) || leb_ℤ rule.daily_limit (pos 0))
          non_positive_limit
          (refuse_if (leb_ℤ allowance (pos 0)) non_positive_limit (
            refuse_if (exceeds_i128 rule.auto_approve_limit) amount_out_of_range (
              refuse_if (exceeds_i128 rule.per_tx_limit) amount_out_of_range (
                refuse_if (exceeds_i128 rule.daily_limit) amount_out_of_range (
                  refuse_if (exceeds_i128 allowance) amount_out_of_range (
                    refuse_if
                      (ltb_ℤ rule.per_tx_limit rule.auto_approve_limit
                        || ltb_ℤ rule.daily_limit rule.per_tx_limit)
                      limit_order
                      (refuse_if (ltb max_allowed_assets (length rule.allowed_assets))
                        too_many_assets
                        (refuse_if (ltb (length rule.allowed_assets) 1) no_assets (
                          assert_valid_assets rule.allowed_assets (
                            refuse_if (ltb_ℤ allowance rule.daily_limit) allowance_too_small (
                              refuse_if (ltb_ℤ days (pos 1) || ltb_ℤ (pos 90) days)
                                invalid_allowance_days (ok tt)))))))))))))

  unfoldable pub validate_auto_pay_draft : AutoPayDraft → Check
  unfolding validate_rule_and_allowance assert_asset_matches_rule rule_from_draft
  validate_auto_pay_draft draft =
      if not (is_valid_key draft.executor)
      then err invalid_executor
      else (validate_rule_and_allowance (rule_from_draft draft) draft.allowance_raw
            draft.allowance_days
          >>= (λ _.
              assert_asset_matches_rule (first_of draft.allowed_assets) (rule_from_draft draft)))
