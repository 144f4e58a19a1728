-- ===== src/Keeper/Bare.antt =====
-- The run of a tick's candidates (stellar/src/keeper/keeper.ts, `runOne` and the loop of `tick`):
-- the guard in `runOne` is never taken, and the counters of the summary.
use stellar_voice_control_pr.Common.{
  ℕ, ◌+◌, ◌≤◌, ◌≡◌, refl, ◌∙◌, ap, ◌≢◌, inl, inr, false, List, [], ◌∷◌, ◌++◌, arith, length,
  if◌then◌else◌, Bool-cases,
}
use stellar_voice_control_pr.Common.Dict.{has, get, delete}
use stellar_voice_control_pr.Keeper.{
  ExecResult, success, pending, Chain, KeeperOptions, Keeper, has_key, handle, caught, run_one,
  run_candidates, TickSummary, count_result,
}
use stellar_voice_control_pr.Keeper.Handle.{handle_others}
use stellar_voice_control_pr.Keeper.Scan.{Nodup}
use stellar_voice_control_pr.Keeper.Kept.{IsWell, Keeps, Keeps-trans, handle-Keeps}

delete-append : (id : ℕ) (xs : List ℕ) → xs ≡ [] → delete id (xs ++ id ∷ []) ≡ xs
delete-append id xs e = rw e (ground arith)

module _ {W : Type 0} (chain : Chain W) (opts : KeeperOptions) where
  -- `runOne` without the guard that its comment calls unreachable.
  unfoldable pub run_bare : ℕ → Keeper × W → ExecResult × Keeper × W
  unfolding caught handle
  run_bare id (k, w) =
      let k' = record k { inflight = k.inflight ++ id ∷ [] } in
      let (answer, w') = chain.execute id opts.dry_run w in
      let result = caught answer in
      let (k'', w'') =
        handle chain id result (record k' { inflight = delete id k'.inflight }, w') in
      (result, k'', w'')

  abbrev IsFree : ℕ → Keeper → Type 0
  IsFree id k = (has id k.inflight ≡ false) × (has_key id k.pending_txs ≡ false)

  run_one-run_bare :
      (id : ℕ) (k : Keeper) (w : W)
      → IsFree id k
      → run_one chain opts id (k, w) ≡ run_bare id (k, w)
  unfolding run_one run_bare
  run_one-run_bare id k w h = rw (h.0, h.1)

  run_bare-Keeps : (id : ℕ) (k : Keeper) (w : W) → IsWell k → Keeps k (run_bare id (k, w)).1
  unfolding run_bare
  run_bare-Keeps id k w v =
      let a = chain.execute id opts.dry_run w in
      let k1 : Keeper = record k { inflight = delete id (k.inflight ++ id ∷ []) } in
      let v1 : IsWell k1 = record {
        idle = delete-append id k.inflight v.idle ∙ v.idle;
        pending_once = v.pending_once;
        backoff_once = v.backoff_once;
      } in
      let (v', same) = handle-Keeps chain id (caught a.0) k1 a.1 v1 in
      (v', record { cursor = same.cursor; failures = same.failures })

  run_bare-others :
      (id j : ℕ) (k : Keeper) (w : W)
      → j ≢ id
      → get j (run_bare id (k, w)).1.pending_txs ≡ get j k.pending_txs
  unfolding run_bare
  run_bare-others id j k w ne =
      let a = chain.execute id opts.dry_run w in
      (handle_others chain id j (caught a.0)
        (record k { inflight = delete id (k.inflight ++ id ∷ []) }) a.1 ne).1

  unfoldable pub run_all_bare : List ℕ → TickSummary → Keeper × W → TickSummary × Keeper × W
  unfolding run_bare
  run_all_bare [] s (k, w) = (s, k, w)
  run_all_bare (id ∷ ids) s (k, w) =
      let (result, k', w') = run_bare id (k, w) in
      let rest =
        run_all_bare ids (count_result result (record s { attempted = s.attempted + 1 }))
          (k', w') in
      if chain.aborted w then (s, k, w) else rest

  abbrev pub AllFree : List ℕ → Keeper → Type 0
  AllFree [] k = Unit
  AllFree (id ∷ ids) k = (has_key id k.pending_txs ≡ false) × AllFree ids k

  AllFree-later :
      (id : ℕ) (ids : List ℕ) (k : Keeper) (w : W)
      → has id ids ≡ false
      → AllFree ids k
      → AllFree ids (run_bare id (k, w)).1
  AllFree-later id [] k w n h = tt
  AllFree-later id (j ∷ ids) k w n h =
      ground (arith, run_bare-others id j k w, AllFree-later id ids k w)

  pub run_candidates-bare :
      (ids : List ℕ) (s : TickSummary) (k : Keeper) (w : W)
      → Nodup ids
      → AllFree ids k
      → IsWell k
      → run_candidates chain opts ids s (k, w) ≡ run_all_bare ids s (k, w)
  unfolding run_candidates run_all_bare
  run_candidates-bare [] s k w n h v = refl
  run_candidates-bare (id ∷ ids) s k w n h v =
      let r = run_bare id (k, w) in
      let first : run_one chain opts id (k, w) ≡ r =
        run_one-run_bare id k w (ap (has id) v.idle, h.0) in
      rw first (
        ap (λ rest. if chain.aborted w then (s, k, w) else rest)
          (run_candidates-bare ids (count_result r.0 (record s { attempted = s.attempted + 1 })) r.1
            r.2 n.1 (AllFree-later id ids k w n.0 h.1) (run_bare-Keeps id k w v).0))

  pub run_all_bare-Keeps :
      (ids : List ℕ) (s : TickSummary) (k : Keeper) (w : W)
      → IsWell k
      → Keeps k (run_all_bare ids s (k, w)).1
  unfolding run_all_bare
  run_all_bare-Keeps [] s k w v = (v, record { cursor = refl; failures = refl })
  run_all_bare-Keeps (id ∷ ids) s k w v =
      let r = run_bare id (k, w) in
      let s1 : TickSummary = count_result r.0 (record s { attempted = s.attempted + 1 }) in
      let h = run_bare-Keeps id k w v in
      elim (Bool-cases (chain.aborted w)) [
        | inl stop ↦ rw stop (v, record { cursor = refl; failures = refl })
        | inr go ↦ rw go (
            Keeps-trans k r.1 (run_all_bare ids s1 (r.1, r.2)).1 h
              (run_all_bare-Keeps ids s1 r.1 r.2 h.0))
      ]

  -- The counters of the summary.
  count_result_lem :
      (r : ExecResult) (s : TickSummary)
      → s.executed_count + s.failed_count ≤ s.attempted
      → let s' = count_result r (record s { attempted = s.attempted + 1 }) in
        (s'.executed_count + s'.failed_count ≤ s'.attempted)
        × (s'.attempted ≡ s.attempted + 1)
        × (s'.due ≡ s.due)
        × (s'.is_ok ≡ s.is_ok)
  unfolding count_result
  count_result_lem (success hash ledger) s h = ground arith
  count_result_lem (ExecResult.dry_run why) s h = ground arith
  count_result_lem (pending hash x) s h = ground arith
  count_result_lem _ s h = ground arith

  pub run_all_bare-counts :
      (ids : List ℕ) (s : TickSummary) (k : Keeper) (w : W)
      → s.executed_count + s.failed_count ≤ s.attempted
      → let s' = (run_all_bare ids s (k, w)).0 in
        (s'.executed_count + s'.failed_count ≤ s'.attempted)
        × (s'.attempted ≤ s.attempted + length ids)
        × (s'.due ≡ s.due)
        × (s'.is_ok ≡ s.is_ok)
  unfolding run_all_bare
  run_all_bare-counts [] s k w h = (h, omega arith, refl, refl)
  run_all_bare-counts (id ∷ ids) s k w h =
      let r = run_bare id (k, w) in
      let s1 : TickSummary = count_result r.0 (record s { attempted = s.attempted + 1 }) in
      let c = count_result_lem r.0 s h in
      let rest = run_all_bare-counts ids s1 r.1 r.2 c.0 in
      elim (Bool-cases (chain.aborted w)) [
        | inl stop ↦ rw stop (h, omega arith, refl, refl)
        | inr go ↦
            rw go (omega (arith, c, rest), omega (arith, c, rest), rest.2 ∙ c.2, rest.3 ∙ c.3)
      ]
