-- ===== src/Anchor/Poll/Ends.antt =====
-- How the poll of an order (`pollTransaction` of stellar/src/anchor/sep6.ts) ends.
use stellar_voice_control_pr.Common.{
  ℕ, zero, suc, ◌+◌, ◌*◌, ◌≤◌, ◌<◌, ◌≡◌, inl, inr, none, some, ok, arith,
}
use stellar_voice_control_pr.Common.Action.{>>=_rule}
use stellar_voice_control_pr.Anchor.Poll.{
  PollOptions, PollState, Verdict, poll_round, poll_on, poll_rounds, poll_transaction,
  max_customer_info_attempts,
}
use stellar_voice_control_pr.Anchor.Poll.Rounds.{IsPollClock, PollEnds, IsRound, poll_round-IsRound}

module _ {W : Type 0} (opts : PollOptions W) (started : ℕ) where
  -- What `n` rounds are enough for: `k` sleeps till the timeout, and `c` more questions.
  abbrev Enough : ℕ → ℕ → ℕ → PollState W → Type 0
  Enough n k c s =
      (started + opts.timeout ≤ opts.now s.world + opts.interval * k)
      × (max_customer_info_attempts ≤ s.attempts + c)
      × (s.failures < opts.max_failures)
      × ((k + c) * opts.max_failures + opts.max_failures ≤ n + s.failures)

  after_failed_read-Enough :
      (n k c : ℕ) (s t : PollState W)
      → opts.now s.world + opts.interval ≤ opts.now t.world
      → t.failures ≡ s.failures + 1
      → t.failures < opts.max_failures
      → t.attempts ≡ s.attempts
      → Enough (suc n) k c s
      → Enough n k c t
  after_failed_read-Enough n k c s t h f g a (b, d, e, i) =
      (omega arith, omega arith, g, omega arith)

  after_question-Enough :
      (n k c : ℕ) (s t : PollState W)
      → opts.now s.world + opts.interval ≤ opts.now t.world
      → t.failures ≡ 0
      → t.attempts ≡ s.attempts + 1
      → s.attempts < max_customer_info_attempts
      → Enough (suc n) k c s
      → (c' : ℕ) × Enough n k c' t
  after_question-Enough n k zero s t h f a q (b, d, e, i) = absurd (omega arith)
  after_question-Enough n k (suc c) s t h f a q (b, d, e, i) =
      (c, (omega arith, omega arith, omega arith, omega arith))

  after_wait-Enough :
      (n k c : ℕ) (s t : PollState W)
      → opts.now s.world + opts.interval ≤ opts.now t.world
      → t.failures ≡ 0
      → t.attempts ≡ s.attempts
      → opts.now s.world < started + opts.timeout
      → Enough (suc n) k c s
      → (k' : ℕ) × Enough n k' c t
  after_wait-Enough n zero c s t h f a q (b, d, e, i) = absurd (omega arith)
  after_wait-Enough n (suc k) c s t h f a q (b, d, e, i) =
      (k, (omega arith, omega arith, omega arith, omega arith))

  module _ (clock : IsPollClock opts) where
    poll_rounds-PollEnds :
        (n k c : ℕ) (s : PollState W)
        → Enough n k c s
        → PollEnds opts started (poll_rounds opts n started s)
    unfolding poll_rounds poll_on
    poll_rounds-PollEnds zero k c s (b, d, e, i) = absurd (omega arith)
    poll_rounds-PollEnds (suc n) k c s h =
        >>=_rule (IsRound opts started s) (PollEnds opts started) (poll_round opts started)
          (poll_on opts (poll_rounds opts n started)) s (poll_round-IsRound opts started clock s)
          (next (λ k' c' t g. poll_rounds-PollEnds n k' c' t g)) (λ e t g. g)
      where
        next :
            ((k' c' : ℕ) (t : PollState W)
              → Enough n k' c' t
              → PollEnds opts started (poll_rounds opts n started t))
            → (v : Verdict) (t : PollState W) → IsRound opts started s (ok v, t)
            → PollEnds opts started (poll_on opts (poll_rounds opts n started) v t)
        next again (some (tx, outcome)) t g = g
        next again none t (later, inl (f, g, a)) =
            again k c t (after_failed_read-Enough n k c s t later f g a h)
        next again none t (later, inr (inl (f, a, q))) =
            let (c', g) = after_question-Enough n k c s t later f a q h in again k c' t g
        next again none t (later, inr (inr (f, a, q))) =
            let (k', g) = after_wait-Enough n k c s t later f a q h in again k' c t g

-- The poll ends: on a running clock it makes at most seven and `k` times as many reads as it
-- tolerates failures, if `k` sleeps of its interval are as long as its timeout. It returns the last
-- order that it read, `completed` and `failed` by its class, and `stopped` only for a status that was
-- asked for or one that it cannot go on from; it throws that the wait is over only behind the
-- timeout, that contact is lost only behind that many failures, and that information is required
-- only of an order that asks for it.
pub poll_transaction_ends :
    {W : Type 0} (opts : PollOptions W) (k rounds : ℕ) (w : W)
    → IsPollClock opts
    → opts.timeout ≤ opts.interval * k
    → 0 < opts.max_failures
    → (k + 7) * opts.max_failures ≤ rounds
    → PollEnds opts (opts.now w) (poll_transaction opts rounds w)
unfolding poll_transaction
poll_transaction_ends opts k rounds w clock long some_failures enough =
    poll_rounds-PollEnds opts (opts.now w) clock rounds k 6 _
      (omega arith, omega arith, omega arith, omega arith)
