-- ===== src/Keeper/Tests.antt =====
-- Runs of the keeper against a small chain: two schedules are due, the first runs, the second fails.
use stellar_voice_control_pr.Common.{
  ℕ, suc, ◌≡◌, ◌≢◌, refl, false, none, some, [], ◌∷◌, ok, if◌then◌else◌, ◌==◌, arith,
}
use stellar_voice_control_pr.Common.Text.{codes}
use stellar_voice_control_pr.Errors.{named, ClassifiedError, allowance_missing, rpc}
use stellar_voice_control_pr.Keeper.{
  success, failed, Chain, KeeperOptions, PendingTx, Purpose, restore, Keeper, resolve_pending,
  suppressed, tick,
}
use stellar_voice_control_pr.Keeper.Kept.{IsWell}
use stellar_voice_control_pr.Keeper.Restore.{runs_logged, purpose_of, resolve_pending_no_run}
use stellar_voice_control_pr.Keeper.Scan.{ScanKeeps}
use stellar_voice_control_pr.Keeper.Tick.{
  tick_scan, tick_bare, tick_guard_unreachable, TickPromise, tick_promise, tick_gathers,
}

abbrev no_allowance : ClassifiedError
no_allowance = record {
  kind = allowance_missing;
  name = named "InsufficientAllowance";
  code = some 116;
  message = codes "Error(Contract, #116)";
}

-- The world is the clock.
abbrev small_chain : Chain ℕ
small_chain = record {
  list_due = λ cursor limit w. (ok (record { ids = 1 ∷ 2 ∷ []; next_cursor = none }), suc w);
  get_schedule = λ id w. w;
  execute = λ id dry w. (ok (if id == 1 then success "aa" 7 else failed "bb" no_allowance), suc w);
  check_pending = λ hash expires w. (ok (success hash 8), suc w);
  now = λ w. w;
  aborted = λ w. false;
}

abbrev small_options : KeeperOptions
small_options = record { poll_seconds = 15; max_per_tick = 5; dry_run = false }

abbrev restoring : PendingTx
restoring = record { hash = "cc"; expires_at = 9; purpose = restore }

abbrev small_keeper : Keeper
small_keeper = record {
  inflight = [];
  pending_txs = (1, restoring) ∷ [];
  backoff = (3, record { failures = 2; until = 0; kind = rpc }) ∷ [];
  sweep_cursor = 0;
  tick_failures = 0;
  log = [];
}

small_keeper-IsWell : IsWell small_keeper
small_keeper-IsWell = record { idle = refl; pending_once = (refl, tt); backoff_once = (refl, tt) }

abbrev failing_id : ℕ
failing_id = 2

other_id : 3 ≢ failing_id
other_id = λ e. omega arith

only_restores : purpose_of 1 small_keeper.pending_txs ≢ some Purpose.execute
only_restores = λ e. cc

resolve_pending_no_run_example :
    runs_logged 1 (resolve_pending small_chain (small_keeper, 4)).0.log ≡ runs_logged 1 []
resolve_pending_no_run_example =
    resolve_pending_no_run small_chain 1 small_keeper 4 (refl, tt) only_restores

tick_guard_unreachable_example :
    tick small_chain small_options (small_keeper, 4)
    ≡ tick_bare small_chain small_options (small_keeper, 4)
tick_guard_unreachable_example =
    tick_guard_unreachable small_chain small_options small_keeper 4 small_keeper-IsWell

tick_promise_example :
    TickPromise small_chain small_options small_keeper
      (tick small_chain small_options (small_keeper, 4))
tick_promise_example = tick_promise small_chain small_options small_keeper 4 small_keeper-IsWell

tick_gathers_example :
    ScanKeeps 5 (suppressed 4 small_keeper) (tick_scan small_chain small_options small_keeper 4).0
tick_gathers_example = tick_gathers small_chain small_options small_keeper 4
