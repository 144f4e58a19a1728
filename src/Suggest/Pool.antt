-- ===== src/Suggest/Pool.antt =====
-- The records that suggestions are made from: `guard` and `explainNoSuggestions` of
-- stellar/src/suggest/suggest.ts, with the types of suggest/types.ts that they read. A set is the
-- list of what it holds.
pub mod Repeats
use text.Mathlib.Text.{◌==◌ as str_eq}
use stellar_voice_control_pr.Common.{
  ℕ, ◌-◌, ◌*◌, ◌/◌, Bool, true, false, ◌&&◌, Option, none, some, List, [], ◌∷◌, String, length, leb,
  ltb, if◌then◌else◌,
}
use stellar_voice_control_pr.Guard.{includes}

pub data HistoryMode : Type 0 where
  public confidential private : HistoryMode

pub data HistoryRoute : Type 0 where
  direct pay_owner pay_executor schedule_run : HistoryRoute

pub data HistoryStatus : Type 0 where
  confirmed failed partial : HistoryStatus

pub record HistoryRecord : Type 0 where
  pub id : String
  pub ts : ℕ
  pub recipient_address : String
  pub recipient_alias : Option String
  pub asset : String
  pub amount_raw : ℕ
  pub mode : HistoryMode
  pub route : HistoryRoute
  pub status : HistoryStatus

-- Of the context, what `guard` reads.
pub record SuggestContext : Type 0 where
  pub now : ℕ
  pub display_asset : String

pub record Resolved : Type 0 where
  pub window_days : ℕ
  pub min_payments : ℕ
  pub min_span_days : ℕ

pub record GuardResult : Type 0 where
  pub records : List HistoryRecord
  pub count : ℕ
  pub span_days : ℕ
  pub enough : Bool

-- The loop that keeps the first record of each id.
unfoldable pub dedupe : List String → List HistoryRecord → List HistoryRecord
unfolding includes
dedupe seen [] = []
dedupe seen (r ∷ rs) =
    let rest = dedupe (r.id ∷ seen) rs in if includes seen r.id then dedupe seen rs else r ∷ rest

abbrev pub is_confirmed : HistoryStatus → Bool
is_confirmed confirmed = true
is_confirmed _ = false

abbrev pub is_public : HistoryMode → Bool
is_public public = true
is_public _ = false

abbrev pub day_seconds : ℕ
day_seconds = 86_400

-- A window that starts before the epoch starts at zero, which no time stamp is below.
unfoldable pub is_eligible : SuggestContext → Resolved → HistoryRecord → Bool
is_eligible context resolved r =
    is_confirmed r.status
    && is_public r.mode
    && str_eq r.asset context.display_asset
    && leb (context.now - resolved.window_days * day_seconds) r.ts
    && leb r.ts context.now

unfoldable pub keep_eligible : SuggestContext → Resolved → List HistoryRecord → List HistoryRecord
unfolding is_eligible
keep_eligible context resolved [] = []
keep_eligible context resolved (r ∷ rs) =
    let rest = keep_eligible context resolved rs in
    if is_eligible context resolved r then r ∷ rest else rest

-- The loop over the time stamps: the lowest and the highest so far.
unfoldable pub extremes : (low high : ℕ) → List HistoryRecord → ℕ × ℕ
extremes low high [] = (low, high)
extremes low high (r ∷ rs) =
    extremes (if ltb r.ts low then r.ts else low) (if ltb high r.ts then r.ts else high) rs

unfoldable pub span_of : List HistoryRecord → ℕ
unfolding extremes
span_of [] = 0
span_of (r ∷ rs) =
    let (low, high) = extremes r.ts r.ts (r ∷ rs) in
    if ltb (length (r ∷ rs)) 2 then 0 else (high - low) / day_seconds

unfoldable pub guard : List HistoryRecord → SuggestContext → Resolved → GuardResult
unfolding dedupe keep_eligible span_of
guard history context resolved =
    let records = keep_eligible context resolved (dedupe [] history) in
    record {
      records = records;
      count = length records;
      span_days = span_of records;
      enough =
          leb resolved.min_payments (length records)
          && leb resolved.min_span_days (span_of records);
    }

-- `NoSuggestionsExplanation`, with its one reason left out.
pub record NoSuggestionsExplanation : Type 0 where
  pub count : ℕ
  pub min_payments : ℕ
  pub span_days : ℕ
  pub min_span_days : ℕ
  pub window_days : ℕ

unfoldable pub explain_no_suggestions :
    List HistoryRecord → SuggestContext → Resolved → Option NoSuggestionsExplanation
unfolding guard
explain_no_suggestions history context resolved =
    let result = guard history context resolved in
    if result.enough
    then none
    else some (record {
      count = result.count;
      min_payments = resolved.min_payments;
      span_days = result.span_days;
      min_span_days = resolved.min_span_days;
      window_days = resolved.window_days;
    })
