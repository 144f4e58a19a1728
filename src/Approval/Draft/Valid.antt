-- ===== src/Approval/Draft/Valid.antt =====
-- What a draft that passes the validation guarantees (stellar/src/approval/types.ts).
use text.Mathlib.Text.{◌==◌ as str_eq}
use stellar_voice_control_pr.Common.{
  ℕ, ◌*◌, ◌^◌, ◌≡◌, ◌↔◌, refl, Bool, true, false, not, Option, none, some, List, [], ◌∷◌, String,
  length, Result, ok, err, ◌>>=◌, arith, eq_iff, if◌then◌else◌,
}
use stellar_voice_control_pr.Common.Int.{ℤ, pos, negsuc, ◌≤ℤ◌, ◌<ℤ◌}
use stellar_voice_control_pr.Common.Text.{Text}
use stellar_voice_control_pr.Guard.{Rule, GuardClientError}
use stellar_voice_control_pr.Guard.Amount.{to_raw_units, to_raw_units_bounds, i128_max}
use stellar_voice_control_pr.Approval.Draft.{
  first_of, Check, invalid_executor, AutoPayDraft, AutoPayDraftInput, ApprovalErrorCode,
  make_auto_pay_draft, parse_amount, recode, allowance_of, rule_from_draft,
  assert_asset_matches_rule, assert_valid_assets, validate_rule_and_allowance,
  validate_auto_pay_draft,
}

abbrev pub valid_first : (String → Bool) → List String → Bool
valid_first is_valid_contract [] = false
valid_first is_valid_contract (a ∷ xs) = is_valid_contract a

-- What the contract's `validate_rule` asks of a rule, and the funding that the app adds.
pub record IsFundedRule (is_valid_contract : String → Bool) (rule : Rule) (allowance days : ℤ)
    : Type 0 where
  pub auto_from_zero : pos 0 ≤ℤ rule.auto_approve_limit
  pub auto_in_payment : rule.auto_approve_limit ≤ℤ rule.per_tx_limit
  pub payment_positive : pos 0 <ℤ rule.per_tx_limit
  pub payment_in_day : rule.per_tx_limit ≤ℤ rule.daily_limit
  pub one_asset : length rule.allowed_assets ≡ 1
  pub known_asset : valid_first is_valid_contract rule.allowed_assets ≡ true
  pub day_funded : rule.daily_limit ≤ℤ allowance
  pub in_range : allowance ≤ℤ pos i128_max
  pub some_day : pos 1 ≤ℤ days
  pub three_months : days ≤ℤ pos 90

same_asset :
    (assets : List String) (rule : Rule)
    → rule.allowed_assets ≡ assets
    → assert_asset_matches_rule (first_of assets) rule ≡ ok tt
unfolding assert_asset_matches_rule
same_asset [] rule e = refl
same_asset (a ∷ xs) rule e = let same : str_eq a a ≡ true = (eq_iff a a).1 refl in rw (e, same) refl

abbrev gated : Bool → Check → Check
gated key r = if not key then err invalid_executor else (r >>= (λ _. ok tt))

gate :
    (key : Bool) (r : Check) (P : Type 0)
    → (r ≡ ok tt) ↔ P
    → (gated key r ≡ ok tt) ↔ ((key ≡ true) × P)
gate true (ok tt) P h = ((λ _. (refl, h.0 refl)), λ _. refl)
gate true (err e) P h = ((λ f. cc), λ p. let f = h.1 p.1 in cc)
gate false r P h = ((λ f. cc), λ p. cc)

module _ (is_valid_contract is_valid_key : String → Bool) where
  validate_rule-IsFundedRule :
      (rule : Rule) (assets : List String) (allowance days : ℤ)
      → (validate_rule_and_allowance is_valid_contract is_valid_key
            (record rule { allowed_assets = assets })
            allowance
            days
          ≡ ok tt)
        ↔ IsFundedRule is_valid_contract (record rule { allowed_assets = assets }) allowance days
  unfolding validate_rule_and_allowance assert_valid_assets
  validate_rule-IsFundedRule rule [] allowance days = ground arith
  validate_rule-IsFundedRule rule (a ∷ []) allowance days = ground arith
  validate_rule-IsFundedRule rule (a ∷ b ∷ xs) allowance days = ground arith

  -- A draft passes the validation exactly if its executor is a valid key and its rule and allowance
  -- are what the contract and the funding ask: limits in order and positive, the automatic limit
  -- not negative, one valid asset, an allowance that covers a day and fits an i128, and 1 to 90 days.
  pub validate_auto_pay_draft_iff :
      (draft : AutoPayDraft)
      → (validate_auto_pay_draft is_valid_contract is_valid_key draft ≡ ok tt) ↔ (
          (is_valid_key draft.executor ≡ true)
          × IsFundedRule is_valid_contract
              (rule_from_draft draft)
              draft.allowance_raw
              draft.allowance_days)
  unfolding validate_auto_pay_draft rule_from_draft
  validate_auto_pay_draft_iff draft =
      let funded =
        validate_rule-IsFundedRule (rule_from_draft draft) draft.allowed_assets draft.allowance_raw
          draft.allowance_days in
      rw (same_asset draft.allowed_assets (rule_from_draft draft) refl) (
        gate (is_valid_key draft.executor)
          (validate_rule_and_allowance is_valid_contract is_valid_key (rule_from_draft draft)
            draft.allowance_raw draft.allowance_days)
          _ funded)

abbrev InRange : ℕ → Result ApprovalErrorCode ℤ → Type 0
InRange most (ok raw) = (pos 0 ≤ℤ raw) × (raw <ℤ pos most)
InRange most (err e) = Unit

recode-InRange :
    (r : Result GuardClientError ℤ)
    → ((raw : ℤ) → r ≡ ok raw → (pos 0 ≤ℤ raw) × (raw <ℤ pos (10 ^ 19)))
    → InRange (10 ^ 19) (recode r)
unfolding recode
recode-InRange (ok raw) h = h raw refl
recode-InRange (err e) h = tt

parse_amount-InRange : (value : Text) → InRange (10 ^ 19) (parse_amount value)
unfolding parse_amount
parse_amount-InRange value = recode-InRange (to_raw_units value) (to_raw_units_bounds value)

range_of :
    (most : ℕ) (r : Result ApprovalErrorCode ℤ) (raw : ℤ)
    → r ≡ ok raw
    → InRange most r
    → (pos 0 ≤ℤ raw) × (raw <ℤ pos most)
range_of most r raw e range = rw e at range

bind_ok :
    {A B : Type 0} (r : Result ApprovalErrorCode A) (f : A → Result ApprovalErrorCode B) (b : B)
    → (r >>= f) ≡ ok b
    → (a : A) × (r ≡ ok a) × (f a ≡ ok b)
bind_ok (ok a) f b h = (a, refl, h)
bind_ok (err e) f b h = cc

allowance_of-InRange :
    (value : Option Text) (daily : ℤ)
    → pos 0 ≤ℤ daily
    → daily <ℤ pos (10 ^ 19)
    → InRange (7 * 10 ^ 19) (allowance_of value daily)
unfolding allowance_of
allowance_of-InRange none (pos n) low high = ground arith
allowance_of-InRange none (negsuc n) low high = ground arith
allowance_of-InRange (some value) daily low high =
    let h = parse_amount-InRange value in ground arith

-- The amounts of a draft that is made from texts are not negative and far below the largest i128: the
-- limits are below 10 ^ 19 raw units, the allowance below 7 * 10 ^ 19.
make_auto_pay_draft_bounds :
    (input : AutoPayDraftInput) (draft : AutoPayDraft)
    → make_auto_pay_draft input ≡ ok draft
    → ((pos 0 ≤ℤ draft.threshold_raw) × (draft.threshold_raw <ℤ pos (10 ^ 19)))
      × ((pos 0 ≤ℤ draft.per_tx_limit_raw) × (draft.per_tx_limit_raw <ℤ pos (10 ^ 19)))
      × ((pos 0 ≤ℤ draft.daily_limit_raw) × (draft.daily_limit_raw <ℤ pos (10 ^ 19)))
      × ((pos 0 ≤ℤ draft.allowance_raw) × (draft.allowance_raw <ℤ pos (7 * 10 ^ 19)))
unfolding make_auto_pay_draft
make_auto_pay_draft_bounds input draft h =
    let (daily, ed, h1) = bind_ok (parse_amount input.daily_limit) _ draft h in
    let (allowance, ea, h2) = bind_ok (allowance_of input.allowance daily) _ draft h1 in
    let (threshold, et, h3) = bind_ok (parse_amount input.threshold) _ draft h2 in
    let (per_tx, ep, h4) = bind_ok (parse_amount input.per_tx_limit) _ draft h3 in
    let day = range_of (10 ^ 19) _ daily ed (parse_amount-InRange input.daily_limit) in
    let limit = range_of (10 ^ 19) _ threshold et (parse_amount-InRange input.threshold) in
    let payment = range_of (10 ^ 19) _ per_tx ep (parse_amount-InRange input.per_tx_limit) in
    let funds =
      range_of (7 * 10 ^ 19) _ allowance ea
        (allowance_of-InRange input.allowance daily day.0 day.1) in
    ground arith
