-- ===== src/Keeper/Kept.antt =====
-- The keeper's invariant, and that the handling of every answer keeps it and leaves the cursor and
-- the failure count alone (stellar/src/keeper/keeper.ts).
use stellar_voice_control_pr.Common.{ℕ, ◌≡◌, refl, ◌∙◌, List, [], ◌∷◌, Result, ok, err, arith}
use stellar_voice_control_pr.Common.Dict.{drop_key}
use stellar_voice_control_pr.Errors.{Thrown}
use stellar_voice_control_pr.Keeper.{
  ExecResult, success, failed, rejected, pending, restore_pending, Chain, Keeper, Gathered,
  PendingTx, Purpose, restore, handle, handle_restore_resolution, settle, resolve_answer,
  resolve_each, after_scan,
}
use stellar_voice_control_pr.Keeper.Maps.{
  NodupKeys, put-NodupKeys, drop_key-NodupKeys, prune-NodupKeys,
}

-- Between two calls nothing is in flight, and no map lists an id twice.
pub record IsWell (k : Keeper) : Type 0 where
  pub idle : k.inflight ≡ []
  pub pending_once : NodupKeys k.pending_txs
  pub backoff_once : NodupKeys k.backoff

-- The counters that only the scan moves.
pub record SameSweep (k k' : Keeper) : Type 0 where
  pub cursor : k'.sweep_cursor ≡ k.sweep_cursor
  pub failures : k'.tick_failures ≡ k.tick_failures

abbrev pub Keeps : Keeper → Keeper → Type 0
Keeps k k' = IsWell k' × SameSweep k k'

pub Keeps-trans : (k k1 k2 : Keeper) → Keeps k k1 → Keeps k1 k2 → Keeps k k2
Keeps-trans k k1 k2 (v, s) (v', s') =
    (v', record { cursor = s'.cursor ∙ s.cursor; failures = s'.failures ∙ s.failures })

module _ {W : Type 0} (chain : Chain W) where
  pub handle-Keeps :
      (id : ℕ) (r : ExecResult) (k : Keeper) (w : W)
      → IsWell k
      → Keeps k (handle chain id r (k, w)).0
  unfolding handle
  handle-Keeps id (success hash ledger) k w v = grind (arith, drop_key-NodupKeys)
  handle-Keeps id (failed hash e) k w v = grind (arith, put-NodupKeys)
  handle-Keeps id (rejected e hash) k w v = grind (arith, put-NodupKeys)
  handle-Keeps id (pending hash x) k w v = grind (arith, put-NodupKeys)
  handle-Keeps id (restore_pending hash x) k w v = grind (arith, put-NodupKeys)
  handle-Keeps id (ExecResult.dry_run why) k w v = grind (arith, put-NodupKeys)

  handle_restore-Keeps :
      (id : ℕ) (r : ExecResult) (k : Keeper) (w : W)
      → IsWell k
      → Keeps k (handle_restore_resolution chain id r (k, w)).0
  unfolding handle_restore_resolution
  handle_restore-Keeps id (success hash ledger) k w v = grind (arith, put-NodupKeys)
  handle_restore-Keeps id (failed hash e) k w v = grind (arith, put-NodupKeys)
  handle_restore-Keeps id (rejected e hash) k w v = grind (arith, put-NodupKeys)
  handle_restore-Keeps id _ k w v = grind (arith, put-NodupKeys)

  settle-Keeps :
      (id : ℕ) (purpose : Purpose) (r : ExecResult) (k : Keeper) (w : W)
      → IsWell k
      → Keeps k (settle chain id purpose r (k, w)).0
  unfolding settle
  settle-Keeps id restore r k w v =
      let k1 : Keeper = record k { pending_txs = drop_key id k.pending_txs } in
      let v1 : IsWell k1 = record {
        idle = v.idle;
        pending_once = drop_key-NodupKeys id k.pending_txs v.pending_once;
        backoff_once = v.backoff_once;
      } in
      let (v', same) = handle_restore-Keeps id r k1 w v1 in
      (v', record { cursor = same.cursor; failures = same.failures })
  settle-Keeps id Purpose.execute r k w v =
      let k1 : Keeper = record k { pending_txs = drop_key id k.pending_txs } in
      let v1 : IsWell k1 = record {
        idle = v.idle;
        pending_once = drop_key-NodupKeys id k.pending_txs v.pending_once;
        backoff_once = v.backoff_once;
      } in
      let (v', same) = handle-Keeps id r k1 w v1 in
      (v', record { cursor = same.cursor; failures = same.failures })

  resolve_answer-Keeps :
      (id : ℕ) (p : PendingTx) (k : Keeper) (a : Result Thrown ExecResult × W)
      → IsWell k
      → Keeps k (resolve_answer chain id p k a).0
  unfolding resolve_answer
  resolve_answer-Keeps id p k (err e, w) v = ground arith
  resolve_answer-Keeps id p k (ok (pending hash x), w) v = ground arith
  resolve_answer-Keeps id p k (ok r, w) v = settle-Keeps id p.purpose r k w v

  pub resolve_each-Keeps :
      (ps : List (ℕ × PendingTx)) (k : Keeper) (w : W)
      → IsWell k
      → Keeps k (resolve_each chain ps (k, w)).0
  unfolding resolve_each
  resolve_each-Keeps [] k w v = (v, record { cursor = refl; failures = refl })
  resolve_each-Keeps ((id, p) ∷ ps) k w v =
      let a = chain.check_pending p.hash p.expires_at w in
      let s = resolve_answer chain id p k a in
      let h = resolve_answer-Keeps id p k a v in
      Keeps-trans k s.0 (resolve_each chain ps s).0 h (resolve_each-Keeps ps s.0 s.1 h.0)

pub after_scan-IsWell :
    (now : ℕ) (g : Gathered) (k : Keeper) → IsWell k → IsWell (after_scan now g k)
unfolding after_scan
after_scan-IsWell now g k v = record {
  idle = v.idle;
  pending_once = v.pending_once;
  backoff_once = prune-NodupKeys g.due_ids now k.backoff v.backoff_once;
}
