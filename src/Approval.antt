-- ===== src/Approval.antt =====
-- The approval profile: stellar/src/approval/classify.ts (how a rule change is classified, the
-- confirmation that it needs, the profile that the chain's state implies) and
-- approval/routing.ts (the app's narrowing of the chain's route).
pub mod Classify
pub mod Draft
pub mod Narrowing
mod Tests
use stellar_voice_control_pr.Common.{
  Bool, true, false, not, ◌&&◌, ◌||◌, Option, none, some, List, [], ◌∷◌, ◌++◌, String, Result, ok,
  err, any, if◌then◌else◌,
}
use stellar_voice_control_pr.Common.Int.{ℤ, pos, leb_ℤ, ltb_ℤ}
use stellar_voice_control_pr.Guard.{Rule, GuardRoute, pay_executor, pay_owner, includes}
use text.Mathlib.Text.{◌==◌ as str_eq}

pub data ChangeKind : Type 0 where
  loosening tightening mixed same new_rule : ChangeKind

pub data ConfirmationLevel : Type 0 where
  card_and_touch_id light none_needed : ConfirmationLevel

pub data ApprovalMode : Type 0 where
  always_ask auto_under_limit custom : ApprovalMode

pub record ApprovalProfile : Type 0 where
  pub mode : ApprovalMode

-- `new Set(texts)`: each text once, at its first place.
unfoldable pub add_text : List String → String → List String
add_text set s = if includes set s then set else set ++ s ∷ []

unfoldable pub set_from : List String → List String → List String
unfolding add_text
set_from set [] = set
set_from set (s ∷ ss) = set_from (add_text set s) ss

-- The two flags of `classifyChange`.
pub record Moves : Type 0 where
  pub loosened : Bool
  pub tightened : Bool

-- One round of the loop over `LIMIT_KEYS`.
unfoldable pub move_limit : Rule → Rule → (Rule → ℤ) → Moves → Moves
move_limit current next key m =
    if ltb_ℤ (key current) (key next)
    then record m { loosened = true }
    else if ltb_ℤ (key next) (key current)
    then record m { tightened = true }
    else m

unfoldable pub move_limits : Rule → Rule → List (Rule → ℤ) → Moves → Moves
unfolding move_limit
move_limits current next [] m = m
move_limits current next (key ∷ keys) m =
    move_limits current next keys (move_limit current next key m)

abbrev pub limit_keys : List (Rule → ℤ)
limit_keys = (λ r. r.auto_approve_limit) ∷ (λ r. r.per_tx_limit) ∷ (λ r. r.daily_limit) ∷ []

-- The two loops over the asset sets: is some element of the first absent from the second?
unfoldable pub grows : List String → List String → Bool
grows next current = any (λ a. not (includes current a)) next

unfoldable pub move_assets : Rule → Rule → Moves → Moves
unfolding set_from grows
move_assets current next m =
    let current_assets = set_from [] current.allowed_assets in
    let next_assets = set_from [] next.allowed_assets in
    record {
      loosened = m.loosened || grows next_assets current_assets;
      tightened = m.tightened || grows current_assets next_assets;
    }

unfoldable pub move_recipients : Rule → Rule → Moves → Moves
move_recipients current next m = record {
  loosened = m.loosened || (current.known_recipients_only && not next.known_recipients_only);
  tightened = m.tightened || (not current.known_recipients_only && next.known_recipients_only);
}

unfoldable pub moves : Rule → Rule → Moves
unfolding move_limits move_assets move_recipients
moves current next = move_recipients current next (
    move_assets current next
      (move_limits current next limit_keys (record { loosened = false; tightened = false })))

abbrev pub kind_of_moves : Moves → ChangeKind
kind_of_moves m =
    if m.loosened && m.tightened
    then mixed
    else if m.loosened
    then loosening
    else if m.tightened
    then tightening
    else same

unfoldable pub classify_change : Option Rule → Rule → ChangeKind
classify_change none next = new_rule
classify_change (some current) next = kind_of_moves (moves current next)

unfoldable pub confirmation_level : ChangeKind → ConfirmationLevel
confirmation_level loosening = card_and_touch_id
confirmation_level mixed = card_and_touch_id
confirmation_level new_rule = card_and_touch_id
confirmation_level tightening = light
confirmation_level same = none_needed

-- `!executor`: null, undefined and the empty text are all falsy.
abbrev pub is_absent : Option String → Bool
is_absent none = true
is_absent (some s) = str_eq s ""

unfoldable pub profile_from_chain : Option Rule → Option String → ApprovalProfile
profile_from_chain none executor = record { mode = always_ask }
profile_from_chain (some rule) executor =
    if is_absent executor
    then record { mode = always_ask }
    else if leb_ℤ rule.auto_approve_limit (pos 0)
    then record { mode = always_ask }
    else record { mode = auto_under_limit }

-- `ApprovalError` of code `use_enable_flow`, with the change that it names.
pub data ApprovalError : Type 0 where
  use_enable_flow : ChangeKind → ApprovalError

unfoldable pub assert_tightening : ChangeKind → Result ApprovalError (Unit {0})
unfolding confirmation_level
assert_tightening change = elim (confirmation_level change) [
  | card_and_touch_id ↦ err (use_enable_flow change)
  | light ↦ ok tt
  | none_needed ↦ ok tt
]

-- `profile?.mode ?? "always_ask"`
abbrev pub mode_of : Option ApprovalProfile → ApprovalMode
mode_of none = always_ask
mode_of (some p) = p.mode

unfoldable pub resolve_approval_route : Option ApprovalProfile → GuardRoute → GuardRoute
resolve_approval_route profile chain_route = elim (mode_of profile) [
  | always_ask ↦ pay_owner
  | auto_under_limit ↦ chain_route
  | custom ↦ chain_route
]

unfoldable pub requires_approval_card : GuardRoute → Bool
requires_approval_card pay_owner = true
requires_approval_card pay_executor = false
