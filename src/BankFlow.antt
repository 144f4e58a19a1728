-- ===== src/BankFlow.antt =====
-- The on- and off-ramp flows: app/src/lib/bankFlow.ts. The demo bank and the anchor session are
-- parameters: a type of worlds, and for each call a function from the world before to the answer (or
-- the thrown value) and the world after. The storage is `memoryBankFlowStorage`. Amounts are texts;
-- `Number` and the comparisons of floats are parameters. Each call that moves money is noted in
-- `moves` when it has returned, a payment to the anchor also when it is asked for, and each report
-- of a step in `steps`, without its detail.
pub mod Deps
pub mod Quiet
pub mod Idle
pub mod Deposit
pub mod Withdraw
pub mod Reconcile
mod Tests
use text.Mathlib.Text.{◌==◌ as str_eq}
use stellar_voice_control_pr.Common.{
  ℕ, zero, suc, ◌==◌, leb, Bool, true, false, not, ◌&&◌, ◌||◌, Option, none, some, List, [], ◌∷◌,
  ◌++◌, String, length, any, map, Result, ok, err, if◌then◌else◌,
}
use stellar_voice_control_pr.Common.Text.{Text, codes, strip_prefix, span_digits}
use stellar_voice_control_pr.Common.Action.{pure, throw, ◌>>=◌, ◌>>◌, try_catch}
use stellar_voice_control_pr.BankFlow.Deps.{
  BankFlowKind, BankAnchorTransaction, Fault, thrown, invalid_amount, below_minimum, above_maximum,
  ended_as, Order, BankFlowDeps, PendingBankFlow, Phase, anchor_order, BankQuote, PollOutcome, paid,
  Move, FlowState, BankStepId, BankStepStatus, active, done, waiting, kyc, login, trustline,
  BankPollResult,
}

-- `[A-Z]*`: nothing but capitals.
abbrev all_capitals : Text → Bool
all_capitals [] = true
all_capitals (c ∷ s) = leb 65 c && leb c 90 && all_capitals s

-- `fiatCodeOf`: `/^iso4217:([A-Z]{2,12})$/`
unfoldable pub fiat_code_of : Text → Option Text
unfolding strip_prefix
fiat_code_of asset_id = elim (strip_prefix (codes "iso4217:") asset_id) [
  | none ↦ none
  | some code ↦
      if all_capitals code && leb 2 (length code) && leb (length code) 12 then some code else none
]

-- `/^\d+(?:\.\d+)?$/`
unfoldable pub is_plain_decimal : Text → Bool
unfolding span_digits
is_plain_decimal s =
    let (whole, rest) = span_digits s in
    not (length whole == 0) && elim rest [
      | [] ↦ true
      | c ∷ t ↦
          let (fraction, end) = span_digits t in
          c == 46 && not (length fraction == 0) && length end == 0
    ]

abbrev failed_statuses : List String
failed_statuses = "refunded" ∷ "expired" ∷ "no_market" ∷ "too_small" ∷ "too_large" ∷ "error" ∷ []

unfoldable pub is_failed_status : String → Bool
is_failed_status status = any (str_eq status) failed_statuses

-- `data.stellarTransactionId ?? id`
abbrev pub or_else : Option String → String → String
or_else none id = id
or_else (some tx) id = tx

-- `anchorSaidOf`
unfoldable pub anchor_said_of : Fault → Option String
anchor_said_of (thrown message none) = none
anchor_said_of (thrown message (some last)) = last.message
anchor_said_of (ended_as tx) = tx.message
anchor_said_of fault = none

abbrev pub is_of : String → PendingBankFlow → Bool
is_of reference flow = str_eq flow.reference reference

-- The flows of other references, in their order.
unfoldable pub others : String → List PendingBankFlow → List PendingBankFlow
others reference [] = []
others reference (f ∷ flows) =
    if is_of reference f then others reference flows else f ∷ others reference flows

-- `{ ...item, ...patch }` with an order id and a phase, and with a phase alone.
abbrev pub with_order : String → PendingBankFlow → PendingBankFlow
with_order id f = record f { anchor_tx_id = some id; phase = anchor_order }

abbrev pub as_paid : PendingBankFlow → PendingBankFlow
as_paid f = record f { phase = paid }

unfoldable pub patch_where :
    String → (PendingBankFlow → PendingBankFlow) → List PendingBankFlow → List PendingBankFlow
patch_where reference patch [] = []
patch_where reference patch (f ∷ flows) =
    (if is_of reference f then patch f else f) ∷ patch_where reference patch flows

abbrev pub Flow : Type 0 → Type 0 → Type 0
Flow W A = FlowState W → Result Fault A × FlowState W

-- `onUpdate`: a report for each update.
abbrev updates : ℕ → List (BankStepId × BankStepStatus)
updates zero = []
updates (suc n) = (waiting, active) ∷ updates n

module _ {W : Type 0} where
  -- A call of a dependency: it changes the world alone.
  abbrev pub call : {A : Type 0} → (W → Result Fault A × W) → Flow W A
  call f s = let (r, w) = f s.world in (r, record s { world = w })

  -- What is noted of a call that moves money.
  abbrev pub note_move : Move → Flow W (Unit {0})
  note_move m s = (ok tt, record s { moves = s.moves ++ m ∷ [] })

  abbrev pub report : BankStepId → BankStepStatus → Flow W (Unit {0})
  report step status s = (ok tt, record s { steps = s.steps ++ (step, status) ∷ [] })

  abbrev pub set_order_id : String → Flow W (Unit {0})
  set_order_id id s = (ok tt, record s { order_id = some id })

  abbrev pub set_paid : Flow W (Unit {0})
  set_paid s = (ok tt, record s { has_paid = true })

  -- `withPending`, `patchPending` and `dropPending`
  unfoldable pub with_pending : PendingBankFlow → Flow W (Unit {0})
  with_pending flow s = (ok tt, record s { pending = others flow.reference s.pending ++ flow ∷ [] })

  unfoldable pub patch_pending : String → (PendingBankFlow → PendingBankFlow) → Flow W (Unit {0})
  patch_pending reference patch s =
      (ok tt, record s { pending = patch_where reference patch s.pending })

  unfoldable pub drop_pending : String → Flow W (Unit {0})
  drop_pending reference s = (ok tt, record s { pending = others reference s.pending })

  module _ {F : Type 0} (deps : BankFlowDeps W F) where
    -- `syncCurrency`: what the call throws is dropped.
    unfoldable pub sync_currency : Text → Flow W (Unit {0})
    sync_currency asset_id s = elim (fiat_code_of asset_id) [
      | none ↦ (ok tt, s)
      | some code ↦ elim deps.set_currency [
        | none ↦ (ok tt, s)
        | some set ↦ (ok tt, record s { world = (set code s.world).1 })
      ]
    ]

    -- The login and the account, which both flows ask for in the same order.
    unfoldable pub sign_in : Flow W (Unit {0})
    sign_in = do
      report login active
      call deps.login
      report login done
      report trustline active
      call deps.prepare_account
      report trustline done
      report kyc active

    abbrev is_under : F → Option F → Bool
    is_under value none = false
    is_under value (some least) = deps.is_below value least

    abbrev is_over : F → Option F → Bool
    is_over value none = false
    is_over value (some most) = deps.is_below most value

    unfoldable pub check_limits : Text → Order F → Flow W (Unit {0})
    check_limits amount order s =
        let value = deps.number amount in
        (
          if not (deps.is_finite value)
              then err (invalid_amount amount)
              else if is_under value order.min_amount
              then err below_minimum
              else if is_over value order.max_amount
              then err above_maximum
              else ok tt,
          s,
        )

    -- `payoutOf`
    unfoldable pub payout_of : BankAnchorTransaction → Text → Text
    payout_of tx fallback = elim tx.amount_out [
      | none ↦ fallback
      | some out ↦
          if is_plain_decimal out && deps.is_positive (deps.number out) then out else fallback
    ]

    -- The order's limits, its id, and the patch of the pending flow.
    unfoldable pub place_order : Text → String → Order F → Flow W (Unit {0})
    unfolding check_limits patch_pending
    place_order amount reference order = do
      check_limits amount order
      set_order_id order.id
      patch_pending reference (with_order order.id)
      report kyc done

    -- `waitForTransaction` with its reports, and the test of the outcome.
    unfoldable pub wait_completed : String → Flow W BankAnchorTransaction
    wait_completed id s =
        let ((r, n), w) = deps.wait_for_transaction id s.world in
        let s' = record s { steps = s.steps ++ updates n; world = w } in
        elim r [
          | err fault ↦ (err fault, s')
          | ok poll ↦ elim poll.outcome [
            | PollOutcome.completed ↦ (ok poll.tx, s')
            | _ ↦ (err (ended_as poll.tx), s')
          ]
        ]
