-- ===== src/Anchor/Poll/Rounds.antt =====
-- A round of the poll of an order (`pollTransaction` of stellar/src/anchor/sep6.ts).
use text.Mathlib.Text.{◌==◌ as str_eq}
use stellar_voice_control_pr.Common.{
  ℕ, ◌+◌, ◌≤◌, ◌<◌, ◌≡◌, ◌⊎◌, inl, inr, refl, true, none, some, Option, any, not, ◌++◌, [], ◌∷◌,
  ◌&&◌, ltb, Result, ok, err, arith, if_rule, and_right, ltb→lt, Result-cases,
}
use stellar_voice_control_pr.Common.Action.{◌>>◌, >>=_rule}
use stellar_voice_control_pr.Anchor.{
  AnchorThrown, AnchorTransaction, StatusClass, in_progress, needs_trustline, needs_user,
  needs_info, waiting_user_transfer, success, ended, classify_status,
}
use stellar_voice_control_pr.Anchor.Poll.{
  PollEnding, completed, failed, stopped, PollFault, passed_on, interrupted, info_required,
  timed_out, no_rounds, Answers, PollOptions, PollState, Verdict, next_round, call_back, give_up,
  after_failed_read, wait_or_time_out, require_info, supply_info, trust_once, by_class, judge,
  note_status, after_read, with_answer, poll_round, is_final, is_customer_info,
  max_customer_info_attempts,
}

-- The clock of a poll: nothing that it calls sets it back, and a sleep lasts as long as it was asked
-- to.
pub record IsPollClock {W : Type 0} (opts : PollOptions W) : Type 0 where
  pub sleep_lasts : (ms : ℕ) (w : W) → opts.now w + ms ≤ opts.now (opts.sleep ms w)
  pub read_later : (w : W) → opts.now w ≤ opts.now (opts.read w).1
  pub update_later :
      (tx : AnchorTransaction) (w : W) → opts.now w ≤ opts.now (opts.on_update tx w).1
  pub trust_later :
      (f : AnchorTransaction → Answers W (Unit {0}))
      → opts.on_pending_trust ≡ some f
      → (tx : AnchorTransaction) (w : W) → opts.now w ≤ opts.now (f tx w).1
  pub info_later :
      (f : AnchorTransaction → Answers W (Unit {0}))
      → opts.on_customer_info ≡ some f
      → (tx : AnchorTransaction) (w : W) → opts.now w ≤ opts.now (f tx w).1

module _ {W : Type 0} (opts : PollOptions W) (started : ℕ) where
  -- What an outcome says of the order.
  abbrev pub Fits : PollEnding → AnchorTransaction → Type 0
  Fits completed tx = classify_status tx.status ≡ success
  Fits failed tx = classify_status tx.status ≡ ended
  Fits stopped tx =
      (any (str_eq tx.status) opts.stop_at ≡ true)
      ⊎ ((classify_status tx.status ≡ needs_user) ⊎ (classify_status tx.status ≡ needs_trustline))

  -- Why the poll throws.
  abbrev pub Fails : PollFault → PollState W → Type 0
  Fails (passed_on e) t = Unit
  Fails (interrupted tx) t = (t.last ≡ some tx) × (opts.max_failures ≤ t.failures)
  Fails (info_required tx) t = (t.last ≡ some tx) × (classify_status tx.status ≡ needs_info)
  Fails (timed_out tx) t = (t.last ≡ some tx) × (started + opts.timeout ≤ opts.now t.world)
  Fails no_rounds t = ⊥

  abbrev pub PollEnds : Result PollFault (AnchorTransaction × PollEnding) × PollState W → Type 0
  PollEnds (ok (tx, outcome), t) = (t.last ≡ some tx) × Fits outcome tx
  PollEnds (err e, t) = Fails e t

  -- What a round that is followed by another one has used.
  abbrev pub Progress : PollState W → PollState W → Type 0
  Progress s t =
      (opts.now s.world + opts.interval ≤ opts.now t.world)
      × (((t.failures ≡ s.failures + 1)
            × (t.failures < opts.max_failures)
            × (t.attempts ≡ s.attempts))
          ⊎ (((t.failures ≡ 0)
                × (t.attempts ≡ s.attempts + 1)
                × (s.attempts < max_customer_info_attempts))
              ⊎ ((t.failures ≡ 0)
                  × (t.attempts ≡ s.attempts)
                  × (opts.now s.world < started + opts.timeout))))

  abbrev pub IsRound : PollState W → Result PollFault Verdict × PollState W → Type 0
  IsRound s (ok none, t) = Progress s t
  IsRound s (ok (some (tx, outcome)), t) = (t.last ≡ some tx) × Fits outcome tx
  IsRound s (err e, t) = Fails e t

  -- Behind the read of an order.
  abbrev Behind : ℕ → PollState W → AnchorTransaction → PollState W → Type 0
  Behind n s tx u =
      (opts.now s.world ≤ opts.now u.world)
      × (u.failures ≡ 0)
      × (u.last ≡ some tx)
      × (u.attempts ≡ s.attempts + n)

  -- A callback either passes on what it throws, or leaves the variables of the loop.
  abbrev Called :
      ℕ → PollState W → AnchorTransaction → {A : Type 0} → Result PollFault A × PollState W → Type 0
  Called n s tx (ok a, u) = Behind n s tx u
  Called n s tx (err e, u) = Fails e u

  call_back-Called :
      {A : Type 0} (n : ℕ) (f : Answers W A) (s : PollState W) (tx : AnchorTransaction)
      (u : PollState W)
      → ((w : W) → opts.now w ≤ opts.now (f w).1)
      → Behind n s tx u
      → Called n s tx (call_back opts f u)
  call_back-Called n f s tx u later h =
      let l = later u.world in
      elim (Result-cases (f u.world).0) [ inl (a, e) ↦ ground arith | inr (e', e) ↦ ground arith ]

  module _ (clock : IsPollClock opts) where
    after_failed_read-IsRound :
        (e : AnchorThrown) (s u : PollState W)
        → opts.now s.world ≤ opts.now u.world
        → u.failures ≡ s.failures
        → u.attempts ≡ s.attempts
        → IsRound s (after_failed_read opts e u)
    unfolding after_failed_read give_up
    after_failed_read-IsRound e s u h f a =
        let slept = clock.sleep_lasts opts.interval u.world in ground arith

    wait_or_time_out-IsRound :
        (tx : AnchorTransaction) (s u : PollState W)
        → Behind 0 s tx u
        → IsRound s (wait_or_time_out opts started tx u)
    unfolding wait_or_time_out
    wait_or_time_out-IsRound tx s u h =
        let slept = clock.sleep_lasts opts.interval u.world in ground arith

    require_info-IsRound :
        (tx : AnchorTransaction) (s u : PollState W)
        → u.last ≡ some tx
        → classify_status tx.status ≡ needs_info
        → IsRound s (require_info opts tx u)
    unfolding require_info
    require_info-IsRound tx s u h c = ground arith

    supply_info-IsRound :
        (tx : AnchorTransaction) (o : Option (AnchorTransaction → Answers W (Unit {0})))
        (s u : PollState W)
        → opts.on_customer_info ≡ o
        → Behind 0 s tx u
        → classify_status tx.status ≡ needs_info
        → IsRound s (supply_info opts tx o u)
    unfolding supply_info
    supply_info-IsRound tx none s u p h c = require_info-IsRound tx s u h.2 c
    supply_info-IsRound tx (some f) s u p h c =
        if_rule (IsRound s) (is_customer_info tx && ltb u.attempts max_customer_info_attempts)
          ((call_back opts (f tx) >> next_round opts) (record u { attempts = u.attempts + 1 }))
          (require_info opts tx u)
          (λ e.
            supplied
              (ltb→lt u.attempts max_customer_info_attempts (and_right (is_customer_info tx) _ e)))
          (λ e. require_info-IsRound tx s u h.2 c)
      where
        supplied :
            u.attempts < max_customer_info_attempts
            → IsRound s (
                (call_back opts (f tx) >> next_round opts) (record u { attempts = u.attempts + 1 }))
        supplied few =
            >>=_rule (Called 1 s tx) (IsRound s) (call_back opts (f tx)) (λ _. next_round opts)
              (record u { attempts = u.attempts + 1 })
              (call_back-Called 1 (f tx) s tx (record u { attempts = u.attempts + 1 })
                (clock.info_later f p tx) (h.0, h.1, h.2, omega arith))
              (λ a t k. let slept = clock.sleep_lasts opts.interval t.world in ground arith)
              (λ e t k. k)

    trust_once-IsRound :
        (tx : AnchorTransaction) (o : Option (AnchorTransaction → Answers W (Unit {0})))
        (s u : PollState W)
        → opts.on_pending_trust ≡ o
        → Behind 0 s tx u
        → classify_status tx.status ≡ needs_trustline
        → IsRound s (trust_once opts started tx o u)
    unfolding trust_once
    trust_once-IsRound tx none s u p h c = (h.2, inr (inr c))
    trust_once-IsRound tx (some f) s u p h c =
        if_rule (IsRound s) u.trust_handled (wait_or_time_out opts started tx u)
          ((call_back opts (f tx) >> wait_or_time_out opts started tx)
            (record u { trust_handled = true }))
          (λ e. wait_or_time_out-IsRound tx s u h)
          (λ e.
            >>=_rule (Called 0 s tx) (IsRound s) (call_back opts (f tx))
              (λ _. wait_or_time_out opts started tx) (record u { trust_handled = true })
              (call_back-Called 0 (f tx) s tx (record u { trust_handled = true })
                (clock.trust_later f p tx) h)
              (λ a t k. wait_or_time_out-IsRound tx s t k) (λ e t k. k))

    by_class-IsRound :
        (tx : AnchorTransaction) (c : StatusClass) (s u : PollState W)
        → classify_status tx.status ≡ c
        → Behind 0 s tx u
        → IsRound s (by_class opts started tx c u)
    unfolding by_class
    by_class-IsRound tx success s u c h = (h.2, c)
    by_class-IsRound tx ended s u c h = (h.2, c)
    by_class-IsRound tx needs_info s u c h =
        supply_info-IsRound tx opts.on_customer_info s u refl h c
    by_class-IsRound tx needs_trustline s u c h =
        trust_once-IsRound tx opts.on_pending_trust s u refl h c
    by_class-IsRound tx needs_user s u c h = (h.2, inr (inl c))
    by_class-IsRound tx in_progress s u c h = wait_or_time_out-IsRound tx s u h
    by_class-IsRound tx waiting_user_transfer s u c h = wait_or_time_out-IsRound tx s u h

    judge-IsRound :
        (tx : AnchorTransaction) (s u : PollState W)
        → Behind 0 s tx u
        → IsRound s (judge opts started tx u)
    unfolding judge
    judge-IsRound tx s u h =
        if_rule (IsRound s)
          (not (is_final (classify_status tx.status)) && any (str_eq tx.status) opts.stop_at)
          (ok (some (tx, stopped)), u) (by_class opts started tx (classify_status tx.status) u)
          (λ e. (h.2, inl (and_right (not (is_final (classify_status tx.status))) _ e)))
          (λ e. by_class-IsRound tx (classify_status tx.status) s u refl h)

    note_status-Called :
        (tx : AnchorTransaction) (s u : PollState W)
        → Behind 0 s tx u
        → Called 0 s tx (note_status opts tx u)
    unfolding note_status
    note_status-Called tx s u h =
        let called =
          call_back-Called 0 (opts.on_update tx) s tx
            (record u { history = u.history ++ tx.status ∷ [] }) (clock.update_later tx) h in
        ground arith

    with_answer-IsRound :
        (r : Result AnchorThrown AnchorTransaction) (s u : PollState W)
        → opts.now s.world ≤ opts.now u.world
        → u.failures ≡ s.failures
        → u.attempts ≡ s.attempts
        → IsRound s (with_answer opts started r u)
    unfolding with_answer after_read
    with_answer-IsRound (err e) s u h f a = after_failed_read-IsRound e s u h f a
    with_answer-IsRound (ok tx) s u h f a =
        >>=_rule (Called 0 s tx) (IsRound s) (note_status opts tx) (λ _. judge opts started tx)
          (record u { failures = 0; last = some tx })
          (note_status-Called tx s (record u { failures = 0; last = some tx })
            (h, refl, refl, omega arith))
          (λ a t k. judge-IsRound tx s t k) (λ e t k. k)

    pub poll_round-IsRound : (s : PollState W) → IsRound s (poll_round opts started s)
    unfolding poll_round
    poll_round-IsRound s =
        with_answer-IsRound (opts.read s.world).0 s (record s { world = (opts.read s.world).1 })
          (clock.read_later s.world) refl refl
