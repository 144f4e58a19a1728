-- ===== src/Keeper/Handle.antt =====
-- What one result of the chain does to the keeper (stellar/src/keeper/keeper.ts, `handle`,
-- `registerFailure`, `runOne`).
use stellar_voice_control_pr.Common.{
  ℕ, ◌+◌, ◌<◌, ◌≡◌, refl, ◌∙◌, ap, ◌≢◌, ◌↔◌, true, Option, none, some, arith, ◌==◌, if◌then◌else◌,
}
use stellar_voice_control_pr.Common.Dict.{get, get-put_self, get-put_ne, get-drop_key_ne}
use stellar_voice_control_pr.Errors.{ErrorKind, ClassifiedError, backoff_ms}
use stellar_voice_control_pr.Errors.Backoff.{backoff_ms_bounds}
use stellar_voice_control_pr.Keeper.{
  ExecResult, success, failed, rejected, pending, restore_pending, Chain, BackoffEntry, Keeper,
  kind_index, is_backed_off, register_failure, prior_failures, handle,
}

-- The error of a result that counts as a failure.
abbrev pub failure_of : ExecResult → Option ClassifiedError
failure_of (failed hash e) = some e
failure_of (rejected e hash) = some e
failure_of _ = none

-- The number of failures of this kind in a row, this one included.
abbrev pub failures_in_row : Option BackoffEntry → ErrorKind → ℕ
failures_in_row none kind = 1
failures_in_row (some b) kind = if kind_index b.kind == kind_index kind then b.failures + 1 else 1

abbrev pub BacksOff : ℕ → ClassifiedError → ℕ → Keeper → ℕ → Keeper → Type 0
BacksOff id e now k t k' =
    let n = failures_in_row (get id k.backoff) e.kind in
    (get id k'.backoff
      ≡ some (record { failures = n; until = now + backoff_ms e.kind n; kind = e.kind }))
    × ((is_backed_off t k' id ≡ true) ↔ (t < now + backoff_ms e.kind n))
    × (now < now + backoff_ms e.kind n)

prior_failures_lem :
    (o : Option BackoffEntry) (kind : ErrorKind)
    → prior_failures o kind + 1 ≡ failures_in_row o kind
unfolding prior_failures
prior_failures_lem none kind = omega arith
prior_failures_lem (some b) kind = ground arith

entry_of : ClassifiedError → ℕ → ℕ → BackoffEntry
entry_of e now n = record { failures = n; until = now + backoff_ms e.kind n; kind = e.kind }

register_failure_lem :
    (id : ℕ) (e : ClassifiedError) (now : ℕ) (k : Keeper)
    → get id (register_failure id e now k).backoff
      ≡ some (entry_of e now (failures_in_row (get id k.backoff) e.kind))
unfolding register_failure entry_of
register_failure_lem id e now k =
    get-put_self id _ k.backoff
    ∙ ap (λ n. some (entry_of e now n)) (prior_failures_lem (get id k.backoff) e.kind)

register_failure-BacksOff :
    (id : ℕ) (e : ClassifiedError) (now t : ℕ) (k k' : Keeper)
    → k'.backoff ≡ (register_failure id e now k).backoff
    → BacksOff id e now k t k'
unfolding entry_of
register_failure-BacksOff id e now t k k' same =
    let n = failures_in_row (get id k.backoff) e.kind in
    let found : get id k'.backoff ≡ some (entry_of e now n) =
      ap (get id) same ∙ register_failure_lem id e now k in
    (found, rw (found, is_backed_off) (ground arith), omega (arith, backoff_ms_bounds e.kind n))

module _ {W : Type 0} (chain : Chain W) where
  -- A failed or rejected result backs the id off for the delay of its kind: the count goes on
  -- where the previous failure had the same kind and starts at one otherwise, the window ends
  -- exactly that delay after now, and it lies in the future.
  handle-BacksOff :
      (id : ℕ) (r : ExecResult) (e : ClassifiedError) (k : Keeper) (w : W) (t : ℕ)
      → failure_of r ≡ some e
      → BacksOff id e (chain.now w) k t (handle chain id r (k, w)).0
  unfolding handle
  handle-BacksOff id (failed hash e') e k w t h =
      let same : e' ≡ e = cc in
      register_failure-BacksOff id e (chain.now w) t k (handle chain id (failed hash e') (k, w)).0
        (rw same)
  handle-BacksOff id (rejected e' hash) e k w t h =
      let same : e' ≡ e = cc in
      register_failure-BacksOff id e (chain.now w) t k (handle chain id (rejected e' hash) (k, w)).0
        (rw same)
  handle-BacksOff id _ e k w t h = cc

  -- A result touches the maps at its own id only.
  pub handle_others :
      (id j : ℕ) (r : ExecResult) (k : Keeper) (w : W)
      → j ≢ id
      → let k' = (handle chain id r (k, w)).0 in
        (get j k'.backoff ≡ get j k.backoff)
        × (get j k'.pending_txs ≡ get j k.pending_txs)
        × (k'.inflight ≡ k.inflight)
  unfolding handle
  handle_others id j (success hash ledger) k w ne =
      ground (arith, get-drop_key_ne j id k.backoff ne)
  handle_others id j (failed hash e) k w ne = grind (arith, get-put_ne)
  handle_others id j (rejected e hash) k w ne = grind (arith, get-put_ne)
  handle_others id j (pending hash x) k w ne = grind (arith, get-put_ne)
  handle_others id j (restore_pending hash x) k w ne = grind (arith, get-put_ne)
  handle_others id j (ExecResult.dry_run why) k w ne = (refl, refl, refl)
