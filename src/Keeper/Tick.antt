-- ===== src/Keeper/Tick.antt =====
-- A whole tick of the keeper (stellar/src/keeper/keeper.ts, `tick`): its invariant, what it
-- submits, its summary and its cursor.
use stellar_voice_control_pr.Common.{
  ℕ, ◌+◌, ◌≤◌, ◌<◌, ◌≡◌, refl, ◌∙◌, ◌⊎◌, Bool, true, false, none, List, [], ◌∷◌, arith, length,
}
use stellar_voice_control_pr.Common.Dict.{has}
use stellar_voice_control_pr.Keeper.{
  Chain, KeeperOptions, Keeper, Gathered, ScanResult, list_failed, scanned, suppressed,
  resolve_pending, scan, after_scan, finish_tick, tick, page_limit, TickSummary, nothing_gathered,
  max_pages_per_tick,
}
use stellar_voice_control_pr.Keeper.Scan.{
  ScanKeeps, SameMaps, Promise, scan_first-Promise, nothing_gathered-IsGathered,
}
use stellar_voice_control_pr.Keeper.Kept.{
  IsWell, SameSweep, Keeps, resolve_each-Keeps, after_scan-IsWell,
}
use stellar_voice_control_pr.Keeper.Bare.{
  run_all_bare, run_candidates-bare, run_all_bare-Keeps, run_all_bare-counts, AllFree,
}

module _ {W : Type 0} (chain : Chain W) (opts : KeeperOptions) where
  -- What the scan of a tick hands over, at the keeper that `resolvePending` leaves.
  unfoldable pub tick_scan : Keeper → W → ScanResult × Keeper × W
  tick_scan k w =
      scan chain opts max_pages_per_tick true (page_limit opts (chain.now w) k)
        (suppressed (chain.now w) k) k.sweep_cursor nothing_gathered (k, w)

  tick_lem :
      (k : Keeper) (w : W)
      → let (k1, w1) = resolve_pending chain (k, w) in
        tick chain opts (k, w) ≡ finish_tick chain opts (chain.now w1) (tick_scan k1 w1)
  unfolding tick tick_scan
  tick_lem k w = refl

  tick_scan-Promise :
      (k : Keeper) (w : W)
      → Promise chain opts (suppressed (chain.now w) k) true k.sweep_cursor k (tick_scan k w)
  unfolding tick_scan
  tick_scan-Promise k w =
      scan_first-Promise chain opts (suppressed (chain.now w) k) (page_limit opts (chain.now w) k) 9
        k.sweep_cursor nothing_gathered k w
        (nothing_gathered-IsGathered opts.max_per_tick (suppressed (chain.now w) k))

  -- The candidates of a scan are not pending.
  AllFree-of_gathered :
      (k k' : Keeper) (now : ℕ) (ids : List ℕ)
      → k'.pending_txs ≡ k.pending_txs
      → ((id : ℕ) → has id ids ≡ true → suppressed now k id ≡ false)
      → AllFree chain opts ids k'
  unfolding suppressed
  AllFree-of_gathered k k' now [] same h = tt
  AllFree-of_gathered k k' now (id ∷ ids) same h = (
    rw same (ground (arith, h id)),
    AllFree-of_gathered k k' now ids same (λ j m. h j (ground arith)),
  )

  -- A tick in which every candidate is submitted, with no test whether it is in flight or pending.
  finish_bare : ℕ → ScanResult × Keeper × W → TickSummary × Keeper × W
  unfolding run_all_bare
  finish_bare now (list_failed error, k, w) = finish_tick chain opts now (list_failed error, k, w)
  finish_bare now (scanned g, k, w) =
      run_all_bare chain opts g.candidates
        (record {
          is_ok = true;
          due = length g.due_ids;
          attempted = 0;
          executed_count = 0;
          failed_count = 0;
          error = none;
        })
        (after_scan now g k, w)

  same-IsWell : (k k' : Keeper) → IsWell k → SameMaps k k' → IsWell k'
  same-IsWell k k' v same = record {
    idle = same.inflight ∙ v.idle;
    pending_once = rw same.pending_txs v.pending_once;
    backoff_once = rw same.backoff v.backoff_once;
  }

  -- The keeper that the candidates start from is well again.
  scanned-IsWell :
      (now : ℕ) (g : Gathered) (k k' : Keeper)
      → IsWell k
      → SameMaps k k'
      → IsWell (after_scan now g k')
  scanned-IsWell now g k k' v same = after_scan-IsWell now g k' (same-IsWell k k' v same)

  abbrev gathered_summary : Gathered → TickSummary
  gathered_summary g = record {
    is_ok = true;
    due = length g.due_ids;
    attempted = 0;
    executed_count = 0;
    failed_count = 0;
    error = none;
  }

  finish_tick-bare :
      (now : ℕ) (k : Keeper) (res : ScanResult × Keeper × W)
      → IsWell k
      → Promise chain opts (suppressed now k) true k.sweep_cursor k res
      → finish_tick chain opts now res ≡ finish_bare now res
  unfolding finish_tick finish_bare after_scan
  finish_tick-bare now k (list_failed error, k', w') v p = refl
  finish_tick-bare now k (scanned g, k', w') v p =
      run_candidates-bare chain opts g.candidates (gathered_summary g) (after_scan now g k') w'
        p.0.once
        (AllFree-of_gathered k (after_scan now g k') now g.candidates p.1.pending_txs
          (λ id m. (p.0.eligible id m).0))
        (scanned-IsWell now g k k' v p.1)

  -- `tick` with the guard of `runOne` left out.
  pub tick_bare : Keeper × W → TickSummary × Keeper × W
  unfolding finish_bare tick_scan
  tick_bare s = let (k, w) = resolve_pending chain s in finish_bare (chain.now w) (tick_scan k w)

  resolve_pending-Keeps : (k : Keeper) (w : W) → IsWell k → Keeps k (resolve_pending chain (k, w)).0
  unfolding resolve_pending
  resolve_pending-Keeps k w v = resolve_each-Keeps chain k.pending_txs k w v

  -- In a tick of a well-formed keeper the guard of `runOne` (already in flight, or pending) is never
  -- taken: the tick without that guard gives the same summary, keeper and world.
  pub tick_guard_unreachable :
      (k : Keeper) (w : W) → IsWell k → tick chain opts (k, w) ≡ tick_bare (k, w)
  unfolding tick_bare
  tick_guard_unreachable k w v =
      let s = resolve_pending chain (k, w) in
      tick_lem k w
      ∙ finish_tick-bare (chain.now s.1) s.0 (tick_scan s.0 s.1) (resolve_pending-Keeps k w v).0
          (tick_scan-Promise s.0 s.1)

  -- What a tick does to the cursor and the failure count, by its summary.
  abbrev pub TickMoves : Keeper → Bool → Keeper → Type 0
  TickMoves k true k' =
      ((k'.sweep_cursor ≡ 0) ⊎ (k.sweep_cursor < k'.sweep_cursor)) × (k'.tick_failures ≡ 0)
  TickMoves k false k' =
      (k'.sweep_cursor ≡ k.sweep_cursor) × (k'.tick_failures ≡ k.tick_failures + 1)

  abbrev pub TickPromise : Keeper → TickSummary × Keeper × W → Type 0
  TickPromise k (s, k', w') =
      IsWell k'
      × TickMoves k s.is_ok k'
      × (s.executed_count + s.failed_count ≤ s.attempted)
      × (s.attempted ≤ opts.max_per_tick)

  finish_bare-Promise :
      (now : ℕ) (k : Keeper) (res : ScanResult × Keeper × W)
      → IsWell k
      → Promise chain opts (suppressed now k) true k.sweep_cursor k res
      → TickPromise k (finish_bare now res)
  unfolding finish_bare finish_tick
  finish_bare-Promise now k (list_failed error, k', w') v p =
      (same-IsWell k k' v p.1, p.2, omega arith, omega arith)
  finish_bare-Promise now k (scanned g, k', w') v p =
      let start = after_scan now g k' in
      let (well, same) =
        run_all_bare-Keeps chain opts g.candidates (gathered_summary g) start w'
          (scanned-IsWell now g k k' v p.1) in
      let c =
        run_all_bare-counts chain opts g.candidates (gathered_summary g) start w' (omega arith) in
      (well, rw c.3 (moved p.2.0 same), c.0, omega (arith, c, p.0.few))
    where
      moved :
          {k'' : Keeper}
          → (k'.sweep_cursor ≡ 0) ⊎ (k.sweep_cursor < k'.sweep_cursor)
          → SameSweep (after_scan now g k') k''
          → TickMoves k true k''
      moved p same = ground arith

  TickMoves-back :
      (b : Bool) (k k1 k' : Keeper) → SameSweep k k1 → TickMoves k1 b k' → TickMoves k b k'
  TickMoves-back true k k1 k' same m = ground arith
  TickMoves-back false k k1 k' same m = ground arith

  tick_bare-promise : (k : Keeper) (w : W) → IsWell k → TickPromise k (tick_bare (k, w))
  unfolding tick_bare
  tick_bare-promise k w v =
      let s = resolve_pending chain (k, w) in
      let (well, same) = resolve_pending-Keeps k w v in
      let res = finish_bare (chain.now s.1) (tick_scan s.0 s.1) in
      let h =
        finish_bare-Promise (chain.now s.1) s.0 (tick_scan s.0 s.1) well
          (tick_scan-Promise s.0 s.1) in
      (h.0, TickMoves-back res.0.is_ok k s.0 res.1 same h.1, h.2, h.3)

  -- From a well-formed keeper, whatever the chain answers: the keeper is well-formed after the tick;
  -- in a tick that reports success the sweep cursor has advanced or wrapped to zero and the failure
  -- count is zero, in one that reports failure the cursor is where it was and the count is one
  -- higher; executed and failed together are at most the attempts, which are at most the limit.
  pub tick_promise : (k : Keeper) (w : W) → IsWell k → TickPromise k (tick chain opts (k, w))
  tick_promise k w v = rw (tick_guard_unreachable k w v) (tick_bare-promise k w v)

  -- What a tick gathers, from any keeper: no id is due twice or a candidate twice, there are at most
  -- as many candidates as the limit, every candidate is due and neither in flight, pending nor
  -- backed off, and a due id that is left out is one of those three or the limit is reached.
  pub tick_gathers :
      (k : Keeper) (w : W)
      → ScanKeeps opts.max_per_tick (suppressed (chain.now w) k) (tick_scan k w).0
  tick_gathers k w = (tick_scan-Promise k w).0
