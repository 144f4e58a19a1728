-- ===== src/Keeper/State.antt =====
-- The data of the keeper (stellar/src/keeper/keeper.ts, keeper/chain.ts): the port, the options, the maps and the log.
use stellar_voice_control_pr.Common.{ℕ, Bool, Option, List, String, Result}
use stellar_voice_control_pr.Errors.{ErrorKind, ClassifiedError, Thrown}

-- `ExecResult` of keeper/chain.ts
pub data ExecResult : Type 0 where
  success : (hash : String) → (ledger : ℕ) → ExecResult
  failed : (hash : String) → ClassifiedError → ExecResult
  rejected : ClassifiedError → (hash : Option String) → ExecResult
  pending : (hash : String) → (expires_at : ℕ) → ExecResult
  restore_pending : (hash : String) → (expires_at : ℕ) → ExecResult
  dry_run : (note : Option String) → ExecResult

pub record DuePage : Type 0 where
  pub ids : List ℕ
  pub next_cursor : Option ℕ

-- `KeeperChain` of keeper/chain.ts, with the clock and the abort signal. A schedule's record is only
-- read for the log, so that the call is kept for its effect on the world.
pub record Chain (W : Type 0) : Type 0 where
  pub list_due : ℕ → ℕ → W → Result Thrown DuePage × W
  pub get_schedule : ℕ → W → W
  pub execute : ℕ → Bool → W → Result Thrown ExecResult × W
  pub check_pending : String → ℕ → W → Result Thrown ExecResult × W
  pub now : W → ℕ
  pub aborted : W → Bool

pub record KeeperOptions : Type 0 where
  pub poll_seconds : ℕ
  pub max_per_tick : ℕ
  pub dry_run : Bool

pub record BackoffEntry : Type 0 where
  pub failures : ℕ
  pub until : ℕ
  pub kind : ErrorKind

pub data Purpose : Type 0 where
  execute restore : Purpose

pub record PendingTx : Type 0 where
  pub hash : String
  pub expires_at : ℕ
  pub purpose : Purpose

-- The events of the log, with their ids.
pub data Event : Type 0 where
  executed dry_ran is_pending is_restore_pending did_fail was_rejected : ℕ → Event
  restore_confirmed restore_failed restore_rejected pending_check_failed : ℕ → Event
  list_due_failed list_due_page_failed ticked : Event

pub record Keeper : Type 0 where
  pub inflight : List ℕ
  pub pending_txs : List (ℕ × PendingTx)
  pub backoff : List (ℕ × BackoffEntry)
  pub sweep_cursor : ℕ
  pub tick_failures : ℕ
  pub log : List Event
