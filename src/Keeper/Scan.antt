-- ===== src/Keeper/Scan.antt =====
-- What one tick gathers from the pages of due ids (stellar/src/keeper/keeper.ts, `tick`).
use stellar_voice_control_pr.Common.{
  ℕ, zero, suc, ◌+◌, ◌≤◌, ◌<◌, ◌≡◌, refl, sym, ◌∙◌, ap, ◌⊎◌, inl, inr, Bool, true, false, not, ◌&&◌,
  ◌||◌, Option, none, some, List, [], ◌∷◌, ◌++◌, Result, ok, err, arith, ◌==◌, leb, ltb, length,
  length-append, Bool-cases,
}
use stellar_voice_control_pr.Common.Dict.{has}
use stellar_voice_control_pr.Errors.{Thrown}
use stellar_voice_control_pr.Keeper.{
  Chain, KeeperOptions, Keeper, DuePage, Gathered, ScanResult, list_failed, scanned, gather_one,
  gather, end_of_space, next_sweep, after_page, scan, nothing_gathered,
}

abbrev pub Nodup : List ℕ → Type 0
Nodup [] = Unit
Nodup (x ∷ xs) = (has x xs ≡ false) × Nodup xs

has-append : (x y : ℕ) (xs : List ℕ) → has x (xs ++ y ∷ []) ≡ (has x xs || x == y)
has-append x y [] = ground arith
has-append x y (z ∷ xs) = ground (arith, has-append x y xs)

Nodup-append : (y : ℕ) (xs : List ℕ) → Nodup xs → has y xs ≡ false → Nodup (xs ++ y ∷ [])
Nodup-append y [] h n = (refl, tt)
Nodup-append y (x ∷ xs) h n = ground (arith, Nodup-append y xs h.1, has-append x y xs)

-- What the lists of a scan promise, for the ids to skip and the most candidates wanted.
pub record IsGathered (most : ℕ) (skip : ℕ → Bool) (g : Gathered) : Type 0 where
  pub seen_due : g.seen ≡ g.due_ids
  pub due_once : Nodup g.due_ids
  pub once : Nodup g.candidates
  pub few : length g.candidates ≤ most
  pub eligible :
      (id : ℕ) → has id g.candidates ≡ true → (skip id ≡ false) × (has id g.due_ids ≡ true)
  pub complete :
      (id : ℕ)
      → has id g.due_ids ≡ true
      → (skip id ≡ true) ⊎ (has id g.candidates ≡ true) ⊎ (length g.candidates ≡ most)

module _ (most : ℕ) (skip : ℕ → Bool) where
  module _ (id : ℕ) (g : Gathered) (v : IsGathered most skip g) (new : has id g.seen ≡ false) where
    new_due : has id g.due_ids ≡ false
    new_due = ap (has id) (sym v.seen_due) ∙ new

    new_candidate : has id g.candidates ≡ false
    new_candidate = elim (Bool-cases (has id g.candidates)) [
      | inl there ↦ cc ((v.eligible id there).1, new_due)
      | inr absent ↦ absent
    ]

    taken-IsGathered :
        (ltb (length g.candidates) most && not (skip id)) ≡ true
        → IsGathered most skip (record {
          due_ids = g.due_ids ++ id ∷ [];
          candidates = g.candidates ++ id ∷ [];
          seen = g.seen ++ id ∷ [];
        })
    taken-IsGathered take = record {
      seen_due = ap (λ xs. xs ++ id ∷ []) v.seen_due;
      due_once = Nodup-append id g.due_ids v.due_once new_due;
      once = Nodup-append id g.candidates v.once new_candidate;
      few = ground (arith, length-append {0} g.candidates (id ∷ []));
      eligible = λ j h.
          ground (arith, v.eligible j, has-append j id g.candidates, has-append j id g.due_ids);
      complete = λ j h. ground (
        arith,
        v.complete j,
        has-append j id g.candidates,
        has-append j id g.due_ids,
        length-append {0} g.candidates (id ∷ []),
      );
    }

    left-IsGathered :
        (ltb (length g.candidates) most && not (skip id)) ≡ false
        → IsGathered most skip (record {
          due_ids = g.due_ids ++ id ∷ [];
          candidates = g.candidates;
          seen = g.seen ++ id ∷ [];
        })
    left-IsGathered leave = record {
      seen_due = ap (λ xs. xs ++ id ∷ []) v.seen_due;
      due_once = Nodup-append id g.due_ids v.due_once new_due;
      once = v.once;
      few = v.few;
      eligible = λ j h. ground (arith, v.eligible j, has-append j id g.due_ids);
      complete = λ j h. ground (arith, v.complete j, v.few, has-append j id g.due_ids);
    }

  gather_one-IsGathered :
      (id : ℕ) (g : Gathered)
      → IsGathered most skip g
      → IsGathered most skip (gather_one most skip id g)
  unfolding gather_one
  gather_one-IsGathered id g v = elim (Bool-cases (has id g.seen)) [
    | inl old ↦ rw old v
    | inr new ↦ elim (Bool-cases (ltb (length g.candidates) most && not (skip id))) [
      | inl take ↦ rw (new, take) (taken-IsGathered id g v new take)
      | inr leave ↦ rw (new, leave) (left-IsGathered id g v new leave)
    ]
  ]

  gather-IsGathered :
      (ids : List ℕ) (g : Gathered)
      → IsGathered most skip g
      → IsGathered most skip (gather most skip ids g)
  unfolding gather
  gather-IsGathered [] g v = v
  gather-IsGathered (id ∷ ids) g v =
      gather-IsGathered ids (gather_one most skip id g) (gather_one-IsGathered id g v)

abbrev pub ScanKeeps : ℕ → (ℕ → Bool) → ScanResult → Type 0
ScanKeeps most skip (list_failed e) = Unit
ScanKeeps most skip (scanned g) = IsGathered most skip g

-- What a scan leaves alone.
pub record SameMaps (k k' : Keeper) : Type 0 where
  pub inflight : k'.inflight ≡ k.inflight
  pub pending_txs : k'.pending_txs ≡ k.pending_txs
  pub backoff : k'.backoff ≡ k.backoff

-- Where the cursor stands after a scan from `cursor`; only the first page can fail the tick.
abbrev pub SweepMoves : Bool → ℕ → Keeper → ScanResult → Keeper → Type 0
SweepMoves true cursor k (list_failed e) k' =
    (k'.sweep_cursor ≡ cursor) × (k'.tick_failures ≡ k.tick_failures + 1)
SweepMoves true cursor k (scanned g) k' =
    ((k'.sweep_cursor ≡ 0) ⊎ (cursor < k'.sweep_cursor)) × (k'.tick_failures ≡ k.tick_failures)
SweepMoves false cursor k (list_failed e) k' = ⊥
SweepMoves false cursor k (scanned g) k' =
    ((k'.sweep_cursor ≡ 0) ⊎ (cursor ≤ k'.sweep_cursor)) × (k'.tick_failures ≡ k.tick_failures)

next_sweep_moves :
    (cursor : ℕ) (next : Option ℕ)
    → (next_sweep cursor next ≡ 0) ⊎ (cursor < next_sweep cursor next)
unfolding next_sweep
next_sweep_moves cursor none = ground arith
next_sweep_moves cursor (some n) = ground arith

next_sweep_later :
    (cursor : ℕ) (next : Option ℕ)
    → end_of_space cursor next ≡ false
    → cursor < next_sweep cursor next
unfolding next_sweep
next_sweep_later cursor none h = cc
next_sweep_later cursor (some n) h = ground arith

pub nothing_gathered-IsGathered :
    (most : ℕ) (skip : ℕ → Bool) → IsGathered most skip nothing_gathered
nothing_gathered-IsGathered most skip = record {
  seen_due = refl;
  due_once = tt;
  once = tt;
  few = omega arith;
  eligible = λ id h. cc;
  complete = λ id h. cc;
}

module _ {W : Type 0} (chain : Chain W) (opts : KeeperOptions) (skip : ℕ → Bool) where
  abbrev pub Promise : Bool → ℕ → Keeper → ScanResult × Keeper × W → Type 0
  Promise first cursor k (r, k', w') =
      ScanKeeps opts.max_per_tick skip r × SameMaps k k' × SweepMoves first cursor k r k'

  abbrev Rest : Type 0
  Rest = ℕ → Gathered → Keeper × W → ScanResult × Keeper × W

  -- A scan that goes on from a later page.
  Promise-later :
      (first : Bool) (cursor c : ℕ) (k : Keeper) (res : ScanResult × Keeper × W)
      → cursor < c
      → Promise false c (record k { sweep_cursor = c }) res
      → Promise first cursor k res
  Promise-later first cursor c k (list_failed e, k', w') lt p = absurd p.2
  Promise-later true cursor c k (scanned g, k', w') lt p = (
    p.0,
    record { inflight = p.1.inflight; pending_txs = p.1.pending_txs; backoff = p.1.backoff },
    omega arith,
  )
  Promise-later false cursor c k (scanned g, k', w') lt p = (
    p.0,
    record { inflight = p.1.inflight; pending_txs = p.1.pending_txs; backoff = p.1.backoff },
    omega arith,
  )

  -- A scan that stops behind a page.
  Promise-stop :
      (first : Bool) (cursor : ℕ) (next : Option ℕ) (g : Gathered) (k : Keeper) (w : W)
      → IsGathered opts.max_per_tick skip g
      → Promise first cursor k (scanned g, record k { sweep_cursor = next_sweep cursor next }, w)
  Promise-stop true cursor next g k w v = (
    v,
    record { inflight = refl; pending_txs = refl; backoff = refl },
    (next_sweep_moves cursor next, refl),
  )
  Promise-stop false cursor next g k w v = (
    v,
    record { inflight = refl; pending_txs = refl; backoff = refl },
    omega (arith, next_sweep_moves cursor next),
  )

  after_page-Promise :
      (rest : Rest)
      → ((c : ℕ) (g : Gathered) (k : Keeper) (w : W)
          → IsGathered opts.max_per_tick skip g
          → k.sweep_cursor ≡ c
          → Promise false c k (rest c g (k, w)))
      → (first : Bool) (cursor : ℕ) (g : Gathered) (k : Keeper) (a : Result Thrown DuePage × W)
      → IsGathered opts.max_per_tick skip g
      → Promise first cursor k (after_page chain opts rest first cursor skip g k a)
  unfolding after_page
  after_page-Promise rest ih true cursor g k (err e, w) v =
      (tt, record { inflight = refl; pending_txs = refl; backoff = refl }, (refl, refl))
  after_page-Promise rest ih false cursor g k (err e, w) v =
      (v, record { inflight = refl; pending_txs = refl; backoff = refl }, (ground arith, refl))
  after_page-Promise rest ih first cursor g k (ok page, w) v =
      let g' = gather opts.max_per_tick skip page.ids g in
      let v' = gather-IsGathered opts.max_per_tick skip page.ids g v in
      let c = next_sweep cursor page.next_cursor in
      elim (Bool-cases
        (leb opts.max_per_tick (length g'.candidates) || end_of_space cursor page.next_cursor)) [
          | inl stop ↦ rw stop (Promise-stop first cursor page.next_cursor g' k w v')
          | inr go ↦ rw go (
              Promise-later first cursor c k (rest c g' (record k { sweep_cursor = c }, w))
                (next_sweep_later cursor page.next_cursor (ground arith))
                (ih c g' (record k { sweep_cursor = c }) w v' refl))
        ]

  scan-Promise :
      (limit left cursor : ℕ) (g : Gathered) (k : Keeper) (w : W)
      → IsGathered opts.max_per_tick skip g
      → k.sweep_cursor ≡ cursor
      → Promise false cursor k (scan chain opts left false limit skip cursor g (k, w))
  unfolding scan
  scan-Promise limit zero cursor g k w v e =
      (v, record { inflight = refl; pending_txs = refl; backoff = refl }, omega arith)
  scan-Promise limit (suc left) cursor g k w v e =
      after_page-Promise (scan chain opts left false limit skip) (scan-Promise limit left) false
        cursor g k (chain.list_due cursor limit w) v

  -- The scan of a tick, which has at least one page to read.
  pub scan_first-Promise :
      (limit left cursor : ℕ) (g : Gathered) (k : Keeper) (w : W)
      → IsGathered opts.max_per_tick skip g
      → Promise true cursor k (scan chain opts (suc left) true limit skip cursor g (k, w))
  unfolding scan
  scan_first-Promise limit left cursor g k w v =
      after_page-Promise (scan chain opts left false limit skip) (scan-Promise limit left) true
        cursor g k (chain.list_due cursor limit w) v
