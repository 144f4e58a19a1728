-- ===== src/Suggest/Stats.antt =====
-- Statistics over amounts: stellar/src/suggest/stats.ts. A read behind the end of a list is `none`.
-- `sort` with the numeric comparison is written as an insertion sort.
pub mod Order
use stellar_voice_control_pr.Common.{
  ℕ, zero, suc, ◌+◌, ◌-◌, ◌*◌, ◌/◌, ◌%◌, min, max, Bool, true, false, ◌||◌, ◌==◌, leb, ltb, Option,
  none, some, List, [], ◌∷◌, length, Result, ok, err, ◌>>=◌, if◌then◌else◌,
}

pub data StatsError : Type 0 where
  empty_input bad_percentile bad_multiplier : StatsError

unfoldable pub insert : ℕ → List ℕ → List ℕ
insert a [] = a ∷ []
insert a (b ∷ bs) = let rest = insert a bs in if leb a b then a ∷ b ∷ bs else b ∷ rest

unfoldable pub sort_bigints : List ℕ → List ℕ
unfolding insert
sort_bigints [] = []
sort_bigints (a ∷ xs) = insert a (sort_bigints xs)

-- `values[index]`
unfoldable pub get_at : List ℕ → ℕ → Option ℕ
get_at [] i = none
get_at (a ∷ xs) zero = some a
get_at (a ∷ xs) (suc i) = get_at xs i

unfoldable pub rank_of : (percentile n : ℕ) → ℕ
rank_of percentile n = (percentile * n + 99) / 100

unfoldable pub percentile_nearest_rank : List ℕ → ℕ → Result StatsError (Option ℕ)
unfolding rank_of get_at
percentile_nearest_rank sorted percentile =
    if length sorted == 0
    then err empty_input
    else if percentile == 0 || ltb 100 percentile
    then err bad_percentile
    else ok (get_at sorted (min (max (rank_of percentile (length sorted)) 1) (length sorted) - 1))

-- `(a + b) / 2n` of two elements that are read
abbrev mean : Option ℕ → Option ℕ → Option ℕ
mean (some a) (some b) = some ((a + b) / 2)
mean _ _ = none

unfoldable pub median : List ℕ → Result StatsError (Option ℕ)
unfolding get_at
median sorted =
    if length sorted == 0
    then err empty_input
    else if length sorted % 2 == 1
    then ok (get_at sorted (length sorted / 2))
    else ok (mean (get_at sorted (length sorted / 2 - 1)) (get_at sorted (length sorted / 2)))

unfoldable pub max_from : ℕ → List ℕ → ℕ
max_from out [] = out
max_from out (a ∷ xs) = max_from (if ltb out a then a else out) xs

unfoldable pub max_of : List ℕ → Result StatsError ℕ
unfolding max_from
max_of [] = err empty_input
max_of (a ∷ xs) = ok (max_from a (a ∷ xs))

unfoldable pub keep_up_to : ℕ → List ℕ → List ℕ
keep_up_to cutoff [] = []
keep_up_to cutoff (a ∷ xs) =
    let rest = keep_up_to cutoff xs in if leb a cutoff then a ∷ rest else rest

-- `value <= cutoff` with an undefined cutoff keeps nothing.
abbrev keep_below : List ℕ → ℕ → Option ℕ → List ℕ
keep_below sorted multiplier none = []
keep_below sorted multiplier (some m) = keep_up_to (multiplier * m) sorted

unfoldable pub drop_amount_outliers : List ℕ → ℕ → Result StatsError (List ℕ)
unfolding median keep_up_to
drop_amount_outliers sorted multiplier =
    if length sorted == 0
    then err empty_input
    else if ltb multiplier 1
    then err bad_multiplier
    else (median sorted >>= (λ m. ok (keep_below sorted multiplier m)))
