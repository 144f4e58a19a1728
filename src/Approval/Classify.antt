-- ===== src/Approval/Classify.antt =====
-- What a classification says of the two rules (approval/classify.ts): the meaning of the two flags,
-- and that a change which passes `assertTightening` cannot let the agent pay more.
use stellar_voice_control_pr.Common.{
  ◌≡◌, refl, sym, ◌∙◌, ◌↔◌, inl, inr, Bool, true, false, not, ◌&&◌, ◌||◌, some, List, [], ◌∷◌, ◌++◌,
  String, ok, arith, eq_iff, Bool-cases,
}
use stellar_voice_control_pr.Common.Int.{◌≤ℤ◌, ≤ℤ_trans}
use stellar_voice_control_pr.Guard.{
  Rule, pay_executor, GuardRouteInput, includes, choose_guarded_route,
}
use stellar_voice_control_pr.Guard.Route.{IsRouted, choose_guarded_route-pay_executor_iff}
use stellar_voice_control_pr.Approval.{
  loosening, tightening, mixed, same, add_text, set_from, Moves, move_limits, limit_keys, grows,
  moves, kind_of_moves, classify_change, assert_tightening,
}

includes-append :
    (ts : List String) (s a : String)
    → includes (ts ++ s ∷ []) a ≡ (includes ts a || includes (s ∷ []) a)
unfolding includes
includes-append [] s a = refl
includes-append (t ∷ ts) s a = ground (arith, includes-append ts s a)

includes-add_text :
    (set : List String) (s a : String)
    → includes (add_text set s) a ≡ (includes set a || includes (s ∷ []) a)
unfolding add_text includes
includes-add_text set s a = ground (arith, includes-append set s a, eq_iff s a, eq_iff s s)

-- Collecting a list into a set keeps its members.
includes-set_from :
    (set ss : List String) (a : String)
    → includes (set_from set ss) a ≡ (includes set a || includes ss a)
unfolding set_from includes
includes-set_from set [] a = ground arith
includes-set_from set (s ∷ ss) a =
    ground (arith, includes-set_from (add_text set s) ss a, includes-add_text set s a)

grows-false :
    (next current : List String) (a : String)
    → grows next current ≡ false
    → includes next a ≡ true
    → includes current a ≡ true
unfolding grows includes
grows-false [] current a h m = cc
grows-false (s ∷ ss) current a h m = ground (arith, eq_iff s a, grows-false ss current a)

grows-true :
    (next current : List String)
    → grows next current ≡ true
    → (a : String) × (includes next a ≡ true) × (includes current a ≡ false)
unfolding grows includes
grows-true [] current h = cc
grows-true (s ∷ ss) current h = elim (Bool-cases (includes current s)) [
  | inl old ↦ let (a, mem, new) = grows-true ss current (ground arith) in (a, ground arith, new)
  | inr new ↦ (s, ground (arith, eq_iff s s), new)
]

-- `next` allows nothing that `current` does not: an independent reading of the comment over
-- `classifyChange`.
pub record IsNoLooser (current next : Rule) : Type 0 where
  pub auto : next.auto_approve_limit ≤ℤ current.auto_approve_limit
  pub per_tx : next.per_tx_limit ≤ℤ current.per_tx_limit
  pub daily : next.daily_limit ≤ℤ current.daily_limit
  pub assets :
      (a : String)
      → includes next.allowed_assets a ≡ true
      → includes current.allowed_assets a ≡ true
  pub recipients : current.known_recipients_only ≡ true → next.known_recipients_only ≡ true

limit_flags : Rule → Rule → Moves
limit_flags current next =
    move_limits current next limit_keys (record { loosened = false; tightened = false })

abbrev LimitsFall : Rule → Rule → Type 0
LimitsFall current next =
    (next.auto_approve_limit ≤ℤ current.auto_approve_limit)
    × (next.per_tx_limit ≤ℤ current.per_tx_limit)
    × (next.daily_limit ≤ℤ current.daily_limit)

abbrev new_asset : Rule → Rule → Bool
new_asset current next =
    grows (set_from [] next.allowed_assets) (set_from [] current.allowed_assets)

module _ (current next : Rule) where
  limit_flags_iff :
      (((limit_flags current next).loosened ≡ false) ↔ LimitsFall current next)
      × (((limit_flags current next).tightened ≡ false) ↔ LimitsFall next current)
  unfolding limit_flags move_limits
  limit_flags_iff = ground arith

  new_asset-false :
      new_asset current next ≡ false
      → (a : String) → includes next.allowed_assets a ≡ true
      → includes current.allowed_assets a ≡ true
  unfolding includes
  new_asset-false h a m = ground (
    arith,
    grows-false (set_from [] next.allowed_assets) (set_from [] current.allowed_assets) a,
    includes-set_from [] next.allowed_assets a,
    includes-set_from [] current.allowed_assets a,
  )

  new_asset-true :
      new_asset current next ≡ true
      → ((a : String)
          → includes next.allowed_assets a ≡ true
          → includes current.allowed_assets a ≡ true)
      → ⊥
  unfolding includes
  new_asset-true h sub =
      let (a, mem, new) =
        grows-true (set_from [] next.allowed_assets) (set_from [] current.allowed_assets) h in
      ground (
        arith,
        sub a,
        includes-set_from [] next.allowed_assets a,
        includes-set_from [] current.allowed_assets a,
      )

-- The flags, with the parts shut.
moves_parts :
    (current next : Rule)
    → ((moves current next).loosened ≡ (
        ((limit_flags current next).loosened || new_asset current next)
        || (current.known_recipients_only && not next.known_recipients_only)))
      × ((moves current next).tightened ≡ (
          ((limit_flags current next).tightened || new_asset next current)
          || (not current.known_recipients_only && next.known_recipients_only)))
unfolding moves limit_flags
moves_parts current next = (refl, refl)

-- A test that is a disjunction is false exactly when its parts are.
or3_false : (a b c : Bool) → ((a || b) || c) ≡ false → (a ≡ false) × (b ≡ false) × (c ≡ false)
or3_false a b c h = ground arith

loosened-false :
    (current next : Rule) → (moves current next).loosened ≡ false → IsNoLooser current next
loosened-false current next h =
    let parts =
      or3_false (limit_flags current next).loosened (new_asset current next)
        (current.known_recipients_only && not next.known_recipients_only)
        (sym (moves_parts current next).0 ∙ h) in
    let falls = (limit_flags_iff current next).0.0 parts.0 in
    record {
      auto = falls.0;
      per_tx = falls.1;
      daily = falls.2;
      assets = new_asset-false current next parts.1;
      recipients = λ k. ground arith;
    }

loosened-IsNoLooser :
    (current next : Rule) → IsNoLooser current next → (moves current next).loosened ≡ false
loosened-IsNoLooser current next n = elim (Bool-cases (new_asset current next)) [
  | inl new ↦ absurd (new_asset-true current next new n.assets)
  | inr old ↦ ground (arith, (moves_parts current next).0, (limit_flags_iff current next).0.1)
]

tightened-false :
    (current next : Rule) → (moves current next).tightened ≡ false → IsNoLooser next current
tightened-false current next h =
    let parts =
      or3_false (limit_flags current next).tightened (new_asset next current)
        (not current.known_recipients_only && next.known_recipients_only)
        (sym (moves_parts current next).1 ∙ h) in
    let falls = (limit_flags_iff current next).1.0 parts.0 in
    record {
      auto = falls.0;
      per_tx = falls.1;
      daily = falls.2;
      assets = new_asset-false next current parts.1;
      recipients = λ k. ground arith;
    }

tightened-IsNoLooser :
    (current next : Rule) → IsNoLooser next current → (moves current next).tightened ≡ false
tightened-IsNoLooser current next n = elim (Bool-cases (new_asset next current)) [
  | inl new ↦ absurd (new_asset-true next current new n.assets)
  | inr old ↦ ground (arith, (moves_parts current next).1, (limit_flags_iff current next).1.1)
]

not_false : {P : Type 0} (b : Bool) → (b ≡ false → P) → ¬ P → b ≡ true
not_false true to n = refl
not_false false to n = absurd (n (to refl))

not_true : {P : Type 0} (b : Bool) → (P → b ≡ false) → b ≡ true → ¬ P
not_true b from t p = cc (from p)

kind_iff :
    (m : Moves)
    → ((kind_of_moves m ≡ same) ↔ ((m.loosened ≡ false) × (m.tightened ≡ false)))
      × ((kind_of_moves m ≡ tightening) ↔ ((m.loosened ≡ false) × (m.tightened ≡ true)))
      × ((kind_of_moves m ≡ loosening) ↔ ((m.loosened ≡ true) × (m.tightened ≡ false)))
      × ((kind_of_moves m ≡ mixed) ↔ ((m.loosened ≡ true) × (m.tightened ≡ true)))
kind_iff m = ground arith

-- A change is `same`, `tightening`, `loosening` or `mixed` exactly by whether the new rule is no
-- looser than the old and whether the old is no looser than the new, where no looser means: no
-- limit is higher, no asset is added, and the known-recipients restriction is not dropped.
pub classify_change_iff :
    (current next : Rule)
    → ((classify_change (some current) next ≡ same)
        ↔ (IsNoLooser current next × IsNoLooser next current))
      × ((classify_change (some current) next ≡ tightening)
          ↔ (IsNoLooser current next × (¬ IsNoLooser next current)))
      × ((classify_change (some current) next ≡ loosening)
          ↔ ((¬ IsNoLooser current next) × IsNoLooser next current))
      × ((classify_change (some current) next ≡ mixed)
          ↔ ((¬ IsNoLooser current next) × (¬ IsNoLooser next current)))
unfolding classify_change
classify_change_iff current next =
    let m = moves current next in
    let k = kind_iff m in
    let lf = loosened-false current next in
    let fl = loosened-IsNoLooser current next in
    let tf = tightened-false current next in
    let ft = tightened-IsNoLooser current next in
    let ln = not_true m.loosened fl in
    let nl = not_false m.loosened lf in
    let tn = not_true m.tightened ft in
    let nt = not_false m.tightened tf in
    (
      (λ e. (lf (k.0.0 e).0, tf (k.0.0 e).1), λ p. k.0.1 (fl p.0, ft p.1)),
      (λ e. (lf (k.1.0 e).0, tn (k.1.0 e).1), λ p. k.1.1 (fl p.0, nt p.1)),
      (λ e. (ln (k.2.0 e).0, tf (k.2.0 e).1), λ p. k.2.1 (nl p.0, ft p.1)),
      (λ e. (ln (k.3.0 e).0, tn (k.3.0 e).1), λ p. k.3.1 (nl p.0, nt p.1)),
    )

-- A change that `assertTightening` lets pass is no loosening: the new rule is no looser.
assert_tightening-IsNoLooser :
    (current next : Rule)
    → assert_tightening (classify_change (some current) next) ≡ ok tt
    → IsNoLooser current next
unfolding assert_tightening classify_change
assert_tightening-IsNoLooser current next h = loosened-false current next (ground arith)

-- A rule change that passes `assertTightening` never widens the agent's mandate: a payment that
-- the new rule lets the agent settle alone, the old rule let it settle alone too.
pub assert_tightening_never_widens :
    (current next : Rule) (i : GuardRouteInput)
    → assert_tightening (classify_change (some current) next) ≡ ok tt
    → IsRouted pay_executor (choose_guarded_route (record i { rule = next }))
    → IsRouted pay_executor (choose_guarded_route (record i { rule = current }))
assert_tightening_never_widens current next i passed routed =
    let n = assert_tightening-IsNoLooser current next passed in
    let m = (choose_guarded_route-pay_executor_iff (record i { rule = next })).0 routed in
    (choose_guarded_route-pay_executor_iff (record i { rule = current })).1 (record {
      positive = m.positive;
      allowed = n.assets i.asset_contract_id m.allowed;
      under_cap = ≤ℤ_trans i.amount_raw next.per_tx_limit current.per_tx_limit m.under_cap n.per_tx;
      registered = m.registered;
      under_auto =
          ≤ℤ_trans i.amount_raw next.auto_approve_limit current.auto_approve_limit m.under_auto
            n.auto;
      known = λ k. m.known (n.recipients k);
    })
