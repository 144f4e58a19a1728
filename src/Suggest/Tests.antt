-- ===== src/Suggest/Tests.antt =====
-- Runs of the suggestion arithmetic on concrete payments.
use stellar_voice_control_pr.Common.{
  ℕ, ◌+◌, ◌*◌, ◌≤◌, ◌<◌, ◌≡◌, refl, true, none, some, List, [], ◌∷◌, ◌++◌, length, ok, arith, max,
}
use stellar_voice_control_pr.Common.Int.{pos}
use stellar_voice_control_pr.Suggest.Rounding.{ceil_div, mul_div_ceil}
use stellar_voice_control_pr.Suggest.Slots.{
  advance_first_run_at, next_slot, advance_first_run_at-next_slot,
}
use stellar_voice_control_pr.Guard.{includes}
use stellar_voice_control_pr.Suggest.Pool.{
  HistoryRecord, SuggestContext, Resolved, public, direct, confirmed, failed, guard, dedupe,
  keep_eligible, is_eligible, span_of, extremes, explain_no_suggestions,
}
use stellar_voice_control_pr.Suggest.Pool.Repeats.{guard_reads_once}
use stellar_voice_control_pr.Suggest.Stats.{
  sort_bigints, insert, percentile_nearest_rank, rank_of, get_at, median, max_of, max_from,
  drop_amount_outliers, keep_up_to,
}
use stellar_voice_control_pr.Suggest.Stats.Order.{
  IsSorted, count_le, count_lt, percentile_nearest_rank_lem,
}

abbrev amounts : List ℕ
amounts = 10 ∷ 12 ∷ 12 ∷ 20 ∷ 900 ∷ []

sort_run : sort_bigints (12 ∷ 900 ∷ 10 ∷ 20 ∷ 12 ∷ []) ≡ amounts
unfolding sort_bigints insert
sort_run = refl

percentile_run : percentile_nearest_rank amounts 60 ≡ ok (some 12)
unfolding percentile_nearest_rank rank_of get_at
percentile_run = refl

outlier_run : drop_amount_outliers amounts 3 ≡ ok (10 ∷ 12 ∷ 12 ∷ 20 ∷ [])
unfolding drop_amount_outliers median get_at keep_up_to
outlier_run = refl

max_run : max_of amounts ≡ ok 900
unfolding max_of max_from
max_run = refl

headroom_run : mul_div_ceil (pos 7) (pos 3) (pos 2) ≡ ok (pos 11)
unfolding mul_div_ceil ceil_div
headroom_run = refl

amounts-IsSorted : IsSorted amounts
amounts-IsSorted = (
  (omega arith, (omega arith, (omega arith, (omega arith, tt)))),
  (
    (omega arith, (omega arith, (omega arith, tt))),
    ((omega arith, (omega arith, tt)), ((omega arith, tt), (tt, tt))),
  ),
)

advance_first_run_at-next_slot_example :
    (advance_first_run_at 1_000 60 1_250 ≡ next_slot 1_000 60 1_250)
    × (1_250 < next_slot 1_000 60 1_250)
    × (next_slot 1_000 60 1_250 ≤ max (1_000 + 60) (1_250 + 60))
advance_first_run_at-next_slot_example = advance_first_run_at-next_slot 1_000 60 1_250 (omega arith)

percentile_nearest_rank_lem_example :
    (x : ℕ) × (percentile_nearest_rank amounts 60 ≡ ok (some x))
    × (60 * length amounts ≤ 100 * count_le x amounts)
    × (100 * count_lt x amounts < 60 * length amounts)
percentile_nearest_rank_lem_example =
    percentile_nearest_rank_lem amounts 60 amounts-IsSorted (omega arith) (omega arith)
      (omega arith)

abbrev paid : HistoryRecord
paid = record {
  id = "tx1";
  ts = 2_000_000;
  recipient_address = "GALI";
  recipient_alias = none;
  asset = "USDC";
  amount_raw = 50_000_000;
  mode = public;
  route = direct;
  status = confirmed;
}

abbrev usual : Resolved
usual = record { window_days = 30; min_payments = 2; min_span_days = 7 }

abbrev today : SuggestContext
today = record { now = 2_700_000; display_asset = "USDC" }

abbrev history : List HistoryRecord
history =
    paid
    ∷ record paid { id = "tx2"; ts = 2_650_000 }
    ∷ record paid { id = "tx3"; status = failed }
    ∷ []

history_run : (guard history today usual).enough ≡ true
unfolding guard dedupe keep_eligible is_eligible span_of extremes includes
history_run = refl

explain_run : explain_no_suggestions history today usual ≡ none
unfolding explain_no_suggestions guard dedupe keep_eligible is_eligible span_of extremes includes
explain_run = refl

guard_reads_once_example : guard (history ++ history) today usual ≡ guard history today usual
guard_reads_once_example = guard_reads_once history today usual
