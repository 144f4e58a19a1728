-- ===== src/Guard.antt =====
-- The guard client's pure policy: stellar/src/guard/types.ts (the rule), guard/errors.ts (the typed
-- failure) and guard/route.ts (which on-chain entry point a payment takes). Messages for people
-- are left out: an error keeps its name, kind and code, a decision the reason that it states.
pub mod Amount
pub mod Failures
pub mod Route
mod Tests
use text.Mathlib.Text.{◌==◌ as str_eq}
use stellar_voice_control_pr.Common.{
  ℕ, Bool, true, false, not, ◌&&◌, ◌||◌, Option, none, some, List, [], ◌∷◌, String, Result, ok, err,
  if◌then◌else◌,
}
use stellar_voice_control_pr.Common.Int.{ℤ, pos, leb_ℤ, ltb_ℤ}

-- `array.includes(text)`
unfoldable pub includes : List String → String → Bool
includes [] s = false
includes (t ∷ ts) s = str_eq t s || includes ts s

-- `interface Rule`; the amounts are bigints.
pub record Rule : Type 0 where
  pub auto_approve_limit : ℤ
  pub per_tx_limit : ℤ
  pub daily_limit : ℤ
  pub allowed_assets : List String
  pub known_recipients_only : Bool

-- The names that `refuse` is called with.
pub data RefusalName : Type 0 where
  invalid_amount asset_not_allowed over_per_tx_limit : RefusalName

-- `GuardClientError` of kind `rule_violated`, the only kind that the route policy throws.
pub record GuardClientError : Type 0 where
  pub name : RefusalName
  pub code : ℕ

pub data GuardRoute : Type 0 where
  pay_executor pay_owner : GuardRoute

-- The sentence that goes with a decision, with the amounts that it quotes.
pub data Reason : Type 0 where
  no_executor : Reason
  over_auto_approve : (amount limit : ℤ) → Reason
  unknown_recipient : Reason
  inside_mandate : Reason

pub record GuardRouteDecision : Type 0 where
  pub route : GuardRoute
  pub reason : Reason

pub record GuardRouteInput : Type 0 where
  pub rule : Rule
  pub executor : Option String
  pub amount_raw : ℤ
  pub asset_contract_id : String
  pub recipient_known : Bool

abbrev pub refuse : {A : Type 0} → RefusalName → ℕ → Result GuardClientError A
refuse name code = err (record { name = name; code = code })

-- The part of `chooseGuardedRoute` behind the hard refusals.
unfoldable pub soft_route : GuardRouteInput → Option String → GuardRouteDecision
soft_route i none = record { route = pay_owner; reason = no_executor }
soft_route i (some _) =
    if ltb_ℤ i.rule.auto_approve_limit i.amount_raw
    then record {
      route = pay_owner;
      reason = over_auto_approve i.amount_raw i.rule.auto_approve_limit;
    }
    else if i.rule.known_recipients_only && not i.recipient_known
    then record { route = pay_owner; reason = unknown_recipient }
    else record { route = pay_executor; reason = inside_mandate }

unfoldable pub choose_guarded_route : GuardRouteInput → Result GuardClientError GuardRouteDecision
unfolding soft_route
choose_guarded_route i =
    if leb_ℤ i.amount_raw (pos 0)
    then refuse invalid_amount 101
    else if not (includes i.rule.allowed_assets i.asset_contract_id)
    then refuse asset_not_allowed 106
    else if ltb_ℤ i.rule.per_tx_limit i.amount_raw
    then refuse over_per_tx_limit 103
    else ok (soft_route i i.executor)
