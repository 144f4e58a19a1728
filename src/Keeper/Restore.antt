-- ===== src/Keeper/Restore.antt =====
-- A restored entry is not an execution (stellar/src/keeper/keeper.ts, `resolvePending`,
-- `handleRestoreResolution`).
use stellar_voice_control_pr.Common.{
  ℕ, ◌+◌, ◌≡◌, refl, ◌∙◌, ◌≢◌, Bool, true, false, ◌&&◌, ◌||◌, Option, none, some, List, [], ◌∷◌,
  ◌++◌, String, Result, ok, err, arith, ◌==◌, if◌then◌else◌,
}
use stellar_voice_control_pr.Common.Dict.{get, has, drop_key}
use stellar_voice_control_pr.Errors.{Thrown}
use stellar_voice_control_pr.Keeper.{
  ExecResult, success, failed, rejected, pending, restore_pending, Chain, Keeper, Event, executed,
  PendingTx, Purpose, restore, is_backed_off, suppressed, handle, handle_restore_resolution, settle,
  resolve_answer, resolve_each, resolve_pending,
}
use stellar_voice_control_pr.Keeper.Maps.{NodupKeys, get-drop_key_self}

abbrev is_run_of : ℕ → Event → Bool
is_run_of id (executed j) = id == j
is_run_of id _ = false

-- How often the log says that a schedule ran.
pub runs_logged : ℕ → List Event → ℕ
runs_logged id [] = 0
runs_logged id (e ∷ es) = (if is_run_of id e then 1 else 0) + runs_logged id es

runs_logged-append :
    (id : ℕ) (es : List Event) (e : Event)
    → runs_logged id (es ++ e ∷ []) ≡ runs_logged id es + (if is_run_of id e then 1 else 0)
unfolding runs_logged
runs_logged-append id [] e = omega arith
runs_logged-append id (x ∷ es) e = omega (arith, runs_logged-append id es e)

abbrev pub is_success : ExecResult → Bool
is_success (success hash ledger) = true
is_success _ = false

module _ {W : Type 0} (chain : Chain W) where
  -- A result is logged as a run of its schedule exactly if it is a success, and then once; the
  -- settlement of a restore never is.
  runs_logged-handle :
      (id j : ℕ) (r : ExecResult) (k : Keeper) (w : W)
      → (runs_logged j (handle chain id r (k, w)).0.log
          ≡ runs_logged j k.log + (if is_success r && j == id then 1 else 0))
        × (runs_logged j (handle_restore_resolution chain id r (k, w)).0.log ≡ runs_logged j k.log)
  unfolding handle handle_restore_resolution
  runs_logged-handle id j (success hash ledger) k w = grind (arith, runs_logged-append)
  runs_logged-handle id j (failed hash e) k w = grind (arith, runs_logged-append)
  runs_logged-handle id j (rejected e hash) k w = grind (arith, runs_logged-append)
  runs_logged-handle id j (pending hash x) k w = grind (arith, runs_logged-append)
  runs_logged-handle id j (restore_pending hash x) k w = grind (arith, runs_logged-append)
  runs_logged-handle id j (ExecResult.dry_run why) k w = grind (arith, runs_logged-append)

-- Every pending transaction of the id is a restore.
abbrev OnlyRestores : ℕ → List (ℕ × PendingTx) → Type 0
OnlyRestores j [] = Unit
OnlyRestores j ((id, p) ∷ ps) = (j ≡ id → p.purpose ≡ restore) × OnlyRestores j ps

abbrev pub purpose_of : ℕ → List (ℕ × PendingTx) → Option Purpose
purpose_of id m = elim (get id m) [ none ↦ none | some p ↦ some p.purpose ]

OnlyRestores-of_purpose :
    (j : ℕ) (m : List (ℕ × PendingTx))
    → NodupKeys m
    → purpose_of j m ≢ some Purpose.execute
    → OnlyRestores j m
OnlyRestores-of_purpose j [] h n = tt
OnlyRestores-of_purpose j ((id, p) ∷ m) h n = ground (arith, OnlyRestores-of_purpose j m h.1)

module _ {W : Type 0} (chain : Chain W) where
  runs_logged-settle :
      (j id : ℕ) (purpose : Purpose) (r : ExecResult) (k : Keeper) (w : W)
      → (j ≡ id → purpose ≡ restore)
      → runs_logged j (settle chain id purpose r (k, w)).0.log ≡ runs_logged j k.log
  unfolding settle
  runs_logged-settle j id restore r k w h =
      (runs_logged-handle chain id j r (record k { pending_txs = drop_key id k.pending_txs }) w).1
  runs_logged-settle j id Purpose.execute r k w h = ground (
    arith,
    (runs_logged-handle chain id j r (record k { pending_txs = drop_key id k.pending_txs }) w).0,
  )

  runs_logged-resolve_answer :
      (j id : ℕ) (p : PendingTx) (k : Keeper) (a : Result Thrown ExecResult × W)
      → (j ≡ id → p.purpose ≡ restore)
      → runs_logged j (resolve_answer chain id p k a).0.log ≡ runs_logged j k.log
  unfolding resolve_answer
  runs_logged-resolve_answer j id p k (err e, w) h = grind (arith, runs_logged-append)
  runs_logged-resolve_answer j id p k (ok (pending hash x), w) h = refl
  runs_logged-resolve_answer j id p k (ok r, w) h = runs_logged-settle j id p.purpose r k w h

  runs_logged-resolve_each :
      (j : ℕ) (ps : List (ℕ × PendingTx)) (k : Keeper) (w : W)
      → OnlyRestores j ps
      → runs_logged j (resolve_each chain ps (k, w)).0.log ≡ runs_logged j k.log
  unfolding resolve_each
  runs_logged-resolve_each j [] k w h = refl
  runs_logged-resolve_each j ((id, p) ∷ ps) k w h =
      let s = resolve_answer chain id p k (chain.check_pending p.hash p.expires_at w) in
      runs_logged-resolve_each j ps s.0 s.1 h.1
      ∙ runs_logged-resolve_answer j id p k (chain.check_pending p.hash p.expires_at w) h.0

  -- Settling the pending transactions never logs a run of an id whose pending transaction is a
  -- restore, or that has none, whatever the chain answers.
  pub resolve_pending_no_run :
      (j : ℕ) (k : Keeper) (w : W)
      → NodupKeys k.pending_txs
      → purpose_of j k.pending_txs ≢ some Purpose.execute
      → runs_logged j (resolve_pending chain (k, w)).0.log ≡ runs_logged j k.log
  unfolding resolve_pending
  resolve_pending_no_run j k w h n =
      runs_logged-resolve_each j k.pending_txs k w (OnlyRestores-of_purpose j k.pending_txs h n)

  -- A confirmed restore makes its id eligible again: it is no longer pending, and only a run in
  -- flight or an old backoff may still hold it back.
  restore_confirmed_eligible :
      (id : ℕ) (p : PendingTx) (k : Keeper) (hash : String) (ledger now : ℕ) (w : W)
      → NodupKeys k.pending_txs
      → p.purpose ≡ restore
      → let k' = (resolve_answer chain id p k (ok (success hash ledger), w)).0 in
        suppressed now k' id ≡ (has id k.inflight || is_backed_off now k id)
  unfolding resolve_answer suppressed
  restore_confirmed_eligible id p k hash ledger now w h e =
      ground (arith, get-drop_key_self id k.pending_txs h)
