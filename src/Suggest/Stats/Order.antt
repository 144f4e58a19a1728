-- ===== src/Suggest/Stats/Order.antt =====
-- What the statistics say about a sorted list (stellar/src/suggest/stats.ts).
use mathlib.Core.Path.{subst}
use stellar_voice_control_pr.Common.{
  ℕ, zero, suc, ◌+◌, ◌-◌, ◌*◌, ◌/◌, ◌%◌, ◌≤◌, ◌<◌, ◌≡◌, refl, ap, ◌∙◌, min, max, true, false, ◌==◌,
  leb, ltb, some, List, [], ◌∷◌, length, All, ok, Bool-cases, inl, inr, arith, if◌then◌else◌,
}
use stellar_voice_control_pr.Suggest.Stats.{
  insert, sort_bigints, get_at, rank_of, percentile_nearest_rank, median, keep_up_to,
  drop_amount_outliers,
}

abbrev pub IsSorted : List ℕ → Type 0
IsSorted [] = Unit
IsSorted (a ∷ xs) = All (λ b. a ≤ b) xs × IsSorted xs

-- How many values satisfy a test on order.
abbrev pub count_le : ℕ → List ℕ → ℕ
count_le x [] = 0
count_le x (a ∷ xs) = (if leb a x then 1 else 0) + count_le x xs

abbrev pub count_lt : ℕ → List ℕ → ℕ
count_lt x [] = 0
count_lt x (a ∷ xs) = (if ltb a x then 1 else 0) + count_lt x xs

abbrev pub count : ℕ → List ℕ → ℕ
count x [] = 0
count x (a ∷ xs) = (if a == x then 1 else 0) + count x xs

All-weaken : (a b : ℕ) (xs : List ℕ) → a ≤ b → All (λ c. b ≤ c) xs → All (λ c. a ≤ c) xs
All-weaken a b [] h all = tt
All-weaken a b (c ∷ xs) h all = (omega (arith, all.0), All-weaken a b xs h all.1)

insert-All : (x a : ℕ) (xs : List ℕ) → x ≤ a → All (λ c. x ≤ c) xs → All (λ c. x ≤ c) (insert a xs)
unfolding insert
insert-All x a [] h all = (h, tt)
insert-All x a (b ∷ bs) h all = ground (arith, insert-All x a bs h all.1)

insert-IsSorted : (a : ℕ) (xs : List ℕ) → IsSorted xs → IsSorted (insert a xs)
unfolding insert
insert-IsSorted a [] s = (tt, tt)
insert-IsSorted a (b ∷ bs) s = elim (Bool-cases (leb a b)) [
  | inl low ↦ rw low ((ground arith, All-weaken a b bs (ground arith) s.0), s)
  | inr high ↦ rw high (insert-All b a bs (ground arith) s.0, insert-IsSorted a bs s.1)
]

insert-count : (x a : ℕ) (xs : List ℕ) → count x (insert a xs) ≡ count x (a ∷ xs)
unfolding insert
insert-count x a [] = refl
insert-count x a (b ∷ bs) = ground (arith, insert-count x a bs)

-- Sorting gives a sorted list with every value as often as before.
pub sort_bigints_lem :
    (xs : List ℕ) (x : ℕ) → IsSorted (sort_bigints xs) × (count x (sort_bigints xs) ≡ count x xs)
unfolding sort_bigints
sort_bigints_lem [] x = (tt, refl)
sort_bigints_lem (a ∷ xs) x =
    let (s, c) = sort_bigints_lem xs x in
    (
      insert-IsSorted a (sort_bigints xs) s,
      insert-count x a (sort_bigints xs) ∙ ap (λ n. (if a == x then 1 else 0) + n) c,
    )

get_at-some : (xs : List ℕ) (i : ℕ) → i < length xs → (x : ℕ) × (get_at xs i ≡ some x)
unfolding get_at
get_at-some [] i h = absurd (omega arith)
get_at-some (a ∷ xs) zero h = (a, refl)
get_at-some (a ∷ xs) (suc i) h = get_at-some xs i (omega arith)

get_at-All : (P : ℕ → Type 0) (xs : List ℕ) (i x : ℕ) → All P xs → get_at xs i ≡ some x → P x
unfolding get_at
get_at-All P [] i x all h = cc
get_at-All P (a ∷ xs) zero x all h = let e : a ≡ x = cc in subst P e all.0
get_at-All P (a ∷ xs) (suc i) x all h = get_at-All P xs i x all.1 h

count_lt-All : (x : ℕ) (xs : List ℕ) → All (λ c. x ≤ c) xs → count_lt x xs ≡ 0
count_lt-All x [] all = refl
count_lt-All x (a ∷ xs) all = ground (arith, count_lt-All x xs all.1)

get_at-count_le :
    (xs : List ℕ) (i x : ℕ) → IsSorted xs → get_at xs i ≡ some x → suc i ≤ count_le x xs
unfolding get_at
get_at-count_le [] i x s h = cc
get_at-count_le (a ∷ xs) zero x s h = ground arith
get_at-count_le (a ∷ xs) (suc i) x s h =
    let low = get_at-All (λ c. a ≤ c) xs i x s.0 h in ground (arith, get_at-count_le xs i x s.1 h)

get_at-count_lt_head : (a : ℕ) (xs : List ℕ) → All (λ c. a ≤ c) xs → count_lt a (a ∷ xs) ≤ 0
get_at-count_lt_head a xs all = ground (arith, count_lt-All a xs all)

get_at-count_lt : (xs : List ℕ) (i x : ℕ) → IsSorted xs → get_at xs i ≡ some x → count_lt x xs ≤ i
unfolding get_at
get_at-count_lt [] i x s h = cc
get_at-count_lt (a ∷ xs) zero x s h =
    let e : a ≡ x = cc in
    let same = ap (λ y. count_lt y (a ∷ xs)) e in omega (arith, same, get_at-count_lt_head a xs s.0)
get_at-count_lt (a ∷ xs) (suc i) x s h = ground (arith, get_at-count_lt xs i x s.1 h)

product_bounds : (p n : ℕ) → 1 ≤ p → p ≤ 100 → 1 ≤ n → (1 ≤ p * n) × (p * n ≤ 100 * n)
product_bounds p n hp hm hn = grind arith

-- For a sorted list that is not empty and a percentile from 1 to 100 there is a result x: at least
-- that share of the values is at most x, and less than that share is below x.
pub percentile_nearest_rank_lem :
    (xs : List ℕ) (p : ℕ)
    → IsSorted xs
    → 1 ≤ length xs
    → 1 ≤ p
    → p ≤ 100
    → (x : ℕ) × (percentile_nearest_rank xs p ≡ ok (some x))
      × (p * length xs ≤ 100 * count_le x xs)
      × (100 * count_lt x xs < p * length xs)
unfolding percentile_nearest_rank rank_of
percentile_nearest_rank_lem xs p s hn hp hm =
    let n = length xs in
    let positive = product_bounds p n hp hm hn in
    let index = min (max ((p * n + 99) / 100) 1) n - 1 in
    let exact : suc index ≡ (p * n + 99) / 100 = omega (arith, positive) in
    let (x, found) = get_at-some xs index (omega arith) in
    let le = get_at-count_le xs index x s found in
    let lt = get_at-count_lt xs index x s found in
    (x, ground (arith, found), omega (arith, le, exact), omega (arith, lt, exact, positive))

get_at-head :
    (x : ℕ) (xs : List ℕ) (i y : ℕ) → IsSorted (x ∷ xs) → get_at (x ∷ xs) i ≡ some y → x ≤ y
get_at-head x xs i y s h = get_at-All (λ c. x ≤ c) (x ∷ xs) i y (omega arith, s.0) h

median_odd :
    (xs : List ℕ) (b : ℕ)
    → 1 ≤ length xs
    → (length xs % 2 == 1) ≡ true
    → get_at xs (length xs / 2) ≡ some b
    → median xs ≡ ok (some b)
unfolding median
median_odd xs b h odd e = rw e (ground arith)

median_even :
    (xs : List ℕ) (a b : ℕ)
    → 1 ≤ length xs
    → (length xs % 2 == 1) ≡ false
    → get_at xs (length xs / 2 - 1) ≡ some a
    → get_at xs (length xs / 2) ≡ some b
    → median xs ≡ ok (some ((a + b) / 2))
unfolding median
median_even xs a b h even ea eb = rw (ea, eb) (ground arith)

median_lem :
    (x : ℕ) (xs : List ℕ) → IsSorted (x ∷ xs) → (m : ℕ) × (median (x ∷ xs) ≡ ok (some m)) × (x ≤ m)
median_lem x xs s =
    let n = length (x ∷ xs) in
    let (a, ea) = get_at-some (x ∷ xs) (n / 2 - 1) (omega arith) in
    let (b, eb) = get_at-some (x ∷ xs) (n / 2) (omega arith) in
    let la = get_at-head x xs (n / 2 - 1) a s ea in
    let lb = get_at-head x xs (n / 2) b s eb in
    elim (Bool-cases (n % 2 == 1)) [
      | inl odd ↦ (b, median_odd (x ∷ xs) b (omega arith) odd eb, lb)
      | inr even ↦
          ((a + b) / 2, median_even (x ∷ xs) a b (omega arith) even ea eb, omega (arith, la, lb))
    ]

mul_grows : (m k : ℕ) → 1 ≤ k → m ≤ k * m
mul_grows m k h = grind arith

keep_up_to-head :
    (x : ℕ) (xs : List ℕ) (cutoff : ℕ)
    → x ≤ cutoff
    → keep_up_to cutoff (x ∷ xs) ≡ x ∷ keep_up_to cutoff xs
unfolding keep_up_to
keep_up_to-head x xs cutoff h = ground arith

outliers_of_median :
    (x : ℕ) (xs : List ℕ) (multiplier m : ℕ)
    → 1 ≤ multiplier
    → median (x ∷ xs) ≡ ok (some m)
    → x ≤ multiplier * m
    → drop_amount_outliers (x ∷ xs) multiplier ≡ ok (x ∷ keep_up_to (multiplier * m) xs)
unfolding drop_amount_outliers
outliers_of_median x xs multiplier m h found low =
    rw (found, keep_up_to-head x xs (multiplier * m) low) (ground arith)

-- Dropping the outliers of a sorted list that is not empty, with a multiplier of at least one,
-- keeps its smallest value: the result is never empty.
drop_amount_outliers_keeps :
    (x : ℕ) (xs : List ℕ) (multiplier : ℕ)
    → IsSorted (x ∷ xs)
    → 1 ≤ multiplier
    → (rest : List ℕ) × (drop_amount_outliers (x ∷ xs) multiplier ≡ ok (x ∷ rest))
drop_amount_outliers_keeps x xs multiplier s h =
    let (m, found, low) = median_lem x xs s in
    let grows = mul_grows m multiplier h in
    (
      keep_up_to (multiplier * m) xs,
      outliers_of_median x xs multiplier m h found (omega (arith, grows, low)),
    )
