-- ===== src/Keeper/Local.antt =====
-- The parts of stellar/src/keeper/keeper.ts that make no call of the port: suppression, gathering, pruning and counting.
use stellar_voice_control_pr.Keeper.State.{
  ExecResult, KeeperOptions, BackoffEntry, Event, Keeper, success, rejected, pending,
}
use stellar_voice_control_pr.Common.{
  ℕ, suc, ◌+◌, min, Bool, true, false, not, ◌&&◌, ◌||◌, ◌==◌, leb, ltb, Option, none, some, List,
  [], ◌∷◌, ◌++◌, length, Result, ok, err, if◌then◌else◌,
}
use stellar_voice_control_pr.Common.Dict.{has, get, put}
use stellar_voice_control_pr.Errors.{
  ErrorKind, ClassifiedError, Thrown, classify_thrown, backoff_ms, already_executed, not_due,
  inactive, rule_violated, allowance_missing, unknown_contract, auth_required, keeper_funds,
  bad_seq, tx_expired, rpc, unknown,
}

abbrev pub note_event : Event → Keeper → Keeper
note_event e k = record k { log = k.log ++ e ∷ [] }

abbrev pub max_list_limit : ℕ
max_list_limit = 200

abbrev pub max_pages_per_tick : ℕ
max_pages_per_tick = 10

abbrev pub max_tick_backoff_ms : ℕ
max_tick_backoff_ms = 120_000

-- Kinds are compared as texts in the source; here by their place in the union.
abbrev pub kind_index : ErrorKind → ℕ
kind_index already_executed = 0
kind_index not_due = 1
kind_index inactive = 2
kind_index rule_violated = 3
kind_index allowance_missing = 4
kind_index unknown_contract = 5
kind_index auth_required = 6
kind_index keeper_funds = 7
kind_index bad_seq = 8
kind_index tx_expired = 9
kind_index rpc = 10
kind_index unknown = 11

-- `prev?.kind === error.kind ? prev.failures : 0`
unfoldable pub prior_failures : Option BackoffEntry → ErrorKind → ℕ
prior_failures none kind = 0
prior_failures (some b) kind = if kind_index b.kind == kind_index kind then b.failures else 0

unfoldable pub register_failure : ℕ → ClassifiedError → ℕ → Keeper → Keeper
unfolding prior_failures
register_failure id error now k =
    let failures = prior_failures (get id k.backoff) error.kind + 1 in
    record k {
      backoff =
          put id
            (record {
              failures = failures;
              until = now + backoff_ms error.kind failures;
              kind = error.kind;
            })
            k.backoff;
    }

abbrev pub has_key {ℓ} : {V : Type ℓ} → ℕ → List (ℕ × V) → Bool
has_key id m = elim (get id m) [ none ↦ false | some _ ↦ true ]

-- `(this.backoff.get(id)?.until ?? 0) > now`
abbrev pub is_backed_off : ℕ → Keeper → ℕ → Bool
is_backed_off now k id = elim (get id k.backoff) [ none ↦ ltb now 0 | some b ↦ ltb now b.until ]

unfoldable pub suppressed : ℕ → Keeper → ℕ → Bool
suppressed now k id = has id k.inflight || has_key id k.pending_txs || is_backed_off now k id

unfoldable pub keys {ℓ} : {V : Type ℓ} → List (ℕ × V) → List ℕ
keys [] = []
keys ((k, v) ∷ m) = k ∷ keys m

-- `activeBackoffIds`
unfoldable pub active_ids : ℕ → List (ℕ × BackoffEntry) → List ℕ
active_ids now [] = []
active_ids now ((id, b) ∷ m) = if ltb now b.until then id ∷ active_ids now m else active_ids now m

-- The size of `new Set(ids)`, with the ids that are in it already.
unfoldable pub count_new : List ℕ → List ℕ → ℕ
count_new seen [] = 0
count_new seen (id ∷ ids) =
    if has id seen then count_new seen ids else suc (count_new (id ∷ seen) ids)

unfoldable pub page_limit : KeeperOptions → ℕ → Keeper → ℕ
unfolding count_new keys active_ids
page_limit opts now k =
    let skip_count =
      count_new [] (k.inflight ++ (keys k.pending_txs ++ active_ids now k.backoff)) in
    min max_list_limit (opts.max_per_tick + skip_count)

-- The lists that a tick gathers from the pages.
pub record Gathered : Type 0 where
  pub due_ids : List ℕ
  pub candidates : List ℕ
  pub seen : List ℕ

-- One round of the loop over `page.ids`.
unfoldable pub gather_one : ℕ → (ℕ → Bool) → ℕ → Gathered → Gathered
gather_one most skip id g = if has id g.seen then g else record {
  due_ids = g.due_ids ++ id ∷ [];
  candidates =
      if ltb (length g.candidates) most && not (skip id)
      then g.candidates ++ id ∷ []
      else g.candidates;
  seen = g.seen ++ id ∷ [];
}

unfoldable pub gather : ℕ → (ℕ → Bool) → List ℕ → Gathered → Gathered
unfolding gather_one
gather most skip [] g = g
gather most skip (id ∷ ids) g = gather most skip ids (gather_one most skip id g)

-- `next === null || next <= cursor`
abbrev pub end_of_space : ℕ → Option ℕ → Bool
end_of_space cursor none = true
end_of_space cursor (some next) = leb next cursor

-- `endOfSpace ? 0 : next`
unfoldable pub next_sweep : ℕ → Option ℕ → ℕ
next_sweep cursor none = 0
next_sweep cursor (some next) = if leb next cursor then 0 else next

-- How the scan of the pages ends: the tick fails, or the gathered ids are worked on.
pub data ScanResult : Type 0 where
  list_failed : ClassifiedError → ScanResult
  scanned : Gathered → ScanResult

-- `pruneBackoff`
unfoldable pub prune : List ℕ → ℕ → List (ℕ × BackoffEntry) → List (ℕ × BackoffEntry)
prune due now [] = []
prune due now ((id, b) ∷ m) =
    if leb b.until now && not (has id due) then prune due now m else (id, b) ∷ prune due now m

pub record TickSummary : Type 0 where
  pub is_ok : Bool
  pub due : ℕ
  pub attempted : ℕ
  pub executed_count : ℕ
  pub failed_count : ℕ
  pub error : Option ClassifiedError

-- The loop's two counters after one result.
unfoldable pub count_result : ExecResult → TickSummary → TickSummary
count_result (success hash ledger) s = record s { executed_count = s.executed_count + 1 }
count_result (ExecResult.dry_run why) s = s
count_result (pending hash expires_at) s = s
count_result r s = record s { failed_count = s.failed_count + 1 }

-- The `try … catch` around `execute`.
unfoldable pub caught : Result Thrown ExecResult → ExecResult
caught (ok r) = r
caught (err e) = rejected (classify_thrown e) none
