-- ===== src/Keeper.antt =====
-- The keeper loop: stellar/src/keeper/keeper.ts, over the port `KeeperChain` of keeper/chain.ts.
-- The network is a parameter: a type of worlds, and for each call of the port a function from the
-- world before to the answer (or the thrown value) and the world after. The clock is read from the
-- world, so that it stands still between two calls of the port. Schedule ids, cursors, counts and
-- milliseconds are natural numbers. Of the log, each event with its id is kept; the other fields of
-- a log line are left out. `tick` makes no call that can throw outside a `try`.
pub mod Local
pub mod State
pub mod Handle
pub mod Maps
pub mod Scan
pub mod Tick
pub mod Restore
pub mod Kept
pub mod Bare
pub mod Waits
mod Tests
pub use stellar_voice_control_pr.Keeper.State.{
  ExecResult, DuePage, Chain, KeeperOptions, BackoffEntry, Purpose, PendingTx, Event, Keeper,
  success, failed, rejected, pending, restore_pending, dry_run, execute, restore, executed, dry_ran,
  is_pending, is_restore_pending, did_fail, was_rejected, restore_confirmed, restore_failed,
  restore_rejected, pending_check_failed, list_due_failed, list_due_page_failed, ticked,
}
pub use stellar_voice_control_pr.Keeper.Local.{
  note_event, max_list_limit, max_pages_per_tick, max_tick_backoff_ms, kind_index, has_key,
  is_backed_off, Gathered, end_of_space, ScanResult, TickSummary, list_failed, scanned,
}
unfoldable pub use stellar_voice_control_pr.Keeper.Local.{
  prior_failures, register_failure, suppressed, keys, active_ids, count_new, page_limit, gather_one,
  gather, next_sweep, prune, count_result, caught,
}
use stellar_voice_control_pr.Common.{
  ℕ, zero, suc, ◌+◌, ◌*◌, ◌^◌, min, Bool, true, false, not, ◌&&◌, ◌||◌, ◌==◌, leb, ltb, Option,
  none, some, List, [], ◌∷◌, ◌++◌, String, length, map, Result, ok, err, if◌then◌else◌,
}
use stellar_voice_control_pr.Common.Dict.{has, delete, get, put, drop_key}
use stellar_voice_control_pr.Errors.{
  ErrorKind, ClassifiedError, Thrown, classify_thrown, backoff_ms, already_executed, not_due,
  inactive, rule_violated, allowance_missing, unknown_contract, auth_required, keeper_funds,
  bad_seq, tx_expired, rpc, unknown,
}

-- An operation takes and leaves the keeper and the world.
module _ {W : Type 0} (chain : Chain W) where
  fail_and_log : ℕ → ClassifiedError → Event → Keeper × W → Keeper × W
  fail_and_log id error event (k, w) =
      (note_event event (register_failure id error (chain.now w) k), w)

  unfoldable pub handle : ℕ → ExecResult → Keeper × W → Keeper × W
  unfolding fail_and_log register_failure
  handle id (success hash ledger) (k, w) =
      let w' = chain.get_schedule id w in
      (note_event (executed id) (record k { backoff = drop_key id k.backoff }), w')
  handle id (ExecResult.dry_run why) (k, w) = (note_event (dry_ran id) k, chain.get_schedule id w)
  handle id (pending hash expires_at) (k, w) = (
    note_event (is_pending id) (record k {
      pending_txs =
          put id (record { hash = hash; expires_at = expires_at; purpose = Purpose.execute })
            k.pending_txs;
    }),
    w,
  )
  handle id (restore_pending hash expires_at) (k, w) = (
    note_event (is_restore_pending id) (record k {
      pending_txs =
          put id (record { hash = hash; expires_at = expires_at; purpose = restore }) k.pending_txs;
    }),
    w,
  )
  handle id (failed hash error) s = fail_and_log id error (did_fail id) s
  handle id (rejected error hash) s = fail_and_log id error (was_rejected id) s

  unfoldable pub handle_restore_resolution : ℕ → ExecResult → Keeper × W → Keeper × W
  unfolding fail_and_log register_failure
  handle_restore_resolution id (success hash ledger) (k, w) =
      (note_event (restore_confirmed id) k, w)
  handle_restore_resolution id (failed hash error) s = fail_and_log id error (restore_failed id) s
  handle_restore_resolution id (rejected error hash) s =
      fail_and_log id error (restore_rejected id) s
  handle_restore_resolution id _ s = s

  -- `resolvePending` at a status that is final.
  unfoldable pub settle : ℕ → Purpose → ExecResult → Keeper × W → Keeper × W
  unfolding handle handle_restore_resolution
  settle id restore r (k, w) =
      handle_restore_resolution id r (record k { pending_txs = drop_key id k.pending_txs }, w)
  settle id Purpose.execute r (k, w) =
      handle id r (record k { pending_txs = drop_key id k.pending_txs }, w)

  -- One round of `resolvePending`, from the answer of `checkPending`.
  unfoldable pub resolve_answer : ℕ → PendingTx → Keeper → Result Thrown ExecResult × W → Keeper × W
  unfolding settle
  resolve_answer id p k (err e, w) = (note_event (pending_check_failed id) k, w)
  resolve_answer id p k (ok (pending hash expires_at), w) = (k, w)
  resolve_answer id p k (ok r, w) = settle id p.purpose r (k, w)

  unfoldable pub resolve_each : List (ℕ × PendingTx) → Keeper × W → Keeper × W
  unfolding resolve_answer
  resolve_each [] s = s
  resolve_each ((id, p) ∷ ps) (k, w) =
      resolve_each ps (resolve_answer id p k (chain.check_pending p.hash p.expires_at w))

  unfoldable pub resolve_pending : Keeper × W → Keeper × W
  unfolding resolve_each
  resolve_pending (k, w) = resolve_each k.pending_txs (k, w)

abbrev pub nothing_gathered : Gathered
nothing_gathered = record { due_ids = []; candidates = []; seen = [] }

-- The keeper as the scan leaves it for the run of the candidates.
unfoldable pub after_scan : ℕ → Gathered → Keeper → Keeper
unfolding prune
after_scan now g k =
    note_event ticked (record k { tick_failures = 0; backoff = prune g.due_ids now k.backoff })

-- The wait between two ticks in `run`.
unfoldable pub poll_delay : KeeperOptions → Bool → ℕ → ℕ
poll_delay opts is_ok failures =
    let poll_ms = opts.poll_seconds * 1000 in
    if is_ok then poll_ms else min max_tick_backoff_ms (poll_ms * 2 ^ min failures 6)

-- The operations that read the options.
module _ {W : Type 0} (chain : Chain W) (opts : KeeperOptions) where
  unfoldable pub run_one : ℕ → Keeper × W → ExecResult × Keeper × W
  unfolding caught handle
  run_one id (k, w) =
      if has id k.inflight || has_key id k.pending_txs
      then (ExecResult.dry_run (some "already in flight"), k, w)
      else let k' = record k { inflight = k.inflight ++ id ∷ [] } in
        let (answer, w') = chain.execute id opts.dry_run w in
        let result = caught answer in
        let (k'', w'') =
          handle chain id result (record k' { inflight = delete id k'.inflight }, w') in
        (result, k'', w'')

  -- The scan, from the answer for one page; `rest` is the loop for the pages behind it.
  after_page :
      (ℕ → Gathered → Keeper × W → ScanResult × Keeper × W)
      → (first : Bool) → (cursor : ℕ) → (skip : ℕ → Bool) → Gathered
      → Keeper
      → Result Thrown DuePage × W
      → ScanResult × Keeper × W
  after_page rest true cursor skip g k (err e, w) = (
    list_failed (classify_thrown e),
    note_event list_due_failed
        (record k { sweep_cursor = cursor; tick_failures = k.tick_failures + 1 }),
    w,
  )
  after_page rest false cursor skip g k (err e, w) =
      (scanned g, note_event list_due_page_failed (record k { sweep_cursor = cursor }), w)
  after_page rest first cursor skip g k (ok page, w) =
      let g' = gather opts.max_per_tick skip page.ids g in
      let k' = record k { sweep_cursor = next_sweep cursor page.next_cursor } in
      if leb opts.max_per_tick (length g'.candidates) || end_of_space cursor page.next_cursor
      then (scanned g', k', w)
      else rest k'.sweep_cursor g' (k', w)

  -- `while (pages < MAX_PAGES_PER_TICK)`, on the number of pages left.
  unfoldable pub scan :
      ℕ
      → Bool
      → (limit : ℕ) → (skip : ℕ → Bool) → ℕ
      → Gathered
      → Keeper × W
      → ScanResult × Keeper × W
  unfolding after_page gather next_sweep
  scan zero first limit skip cursor g (k, w) = (scanned g, k, w)
  scan (suc left) first limit skip cursor g (k, w) =
      after_page (scan left false limit skip) first cursor skip g k (chain.list_due cursor limit w)

  -- The loop over the candidates.
  unfoldable pub run_candidates : List ℕ → TickSummary → Keeper × W → TickSummary × Keeper × W
  unfolding run_one count_result
  run_candidates [] s (k, w) = (s, k, w)
  run_candidates (id ∷ ids) s (k, w) =
      let (result, k', w') = run_one id (k, w) in
      let rest =
        run_candidates ids (count_result result (record s { attempted = s.attempted + 1 }))
          (k', w') in
      if chain.aborted w then (s, k, w) else rest

  unfoldable pub finish_tick : ℕ → ScanResult × Keeper × W → TickSummary × Keeper × W
  unfolding after_scan run_candidates
  finish_tick now (list_failed error, k, w) = (
    record {
      is_ok = false;
      due = 0;
      attempted = 0;
      executed_count = 0;
      failed_count = 0;
      error = some error;
    },
    k,
    w,
  )
  finish_tick now (scanned g, k, w) =
      run_candidates g.candidates
        (record {
          is_ok = true;
          due = length g.due_ids;
          attempted = 0;
          executed_count = 0;
          failed_count = 0;
          error = none;
        })
        (after_scan now g k, w)

  unfoldable pub tick : Keeper × W → TickSummary × Keeper × W
  unfolding resolve_pending suppressed page_limit scan finish_tick
  tick s =
      let (k, w) = resolve_pending chain s in
      let now = chain.now w in
      finish_tick now (
        scan max_pages_per_tick true (page_limit opts now k) (suppressed now k) k.sweep_cursor
          nothing_gathered (k, w))
