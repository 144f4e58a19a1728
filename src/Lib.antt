-- ===== src/Lib.antt =====
-- Autonomy (the Stellar voice control project): the decisions of its TypeScript side that move
-- money or stop it from moving, modelled and verified.
--
-- A spoken order becomes a payment in five places. The agent (agent/src/loop.ts) lets the model call
-- tools, of which those that move value only propose. The app keeps a turn (app/src/lib/turnSession.ts)
-- that shows what is going on; a guarded payment is routed before it is built
-- (stellar/src/guard/route.ts) and the route is narrowed by the owner's profile
-- (stellar/src/approval); a payment that needs the owner is decided in the notch
-- (app/src/notch/approval/overlayModel.ts); and scheduled payments are run by the keeper
-- (stellar/src/keeper), which classifies every failure and backs off. Amounts pass between texts
-- and raw units in one place each (stellar/src/guard/amount.ts, stellar/src/p2p/amount.ts).
--
-- - Common: names that every module shares: Boolean tests, lists, integers, association lists, texts
--   and computations that may throw.
-- - Guard (stellar/src/guard): `chooseGuardedRoute` is `choose_guarded_route`, a thrown
--   `GuardClientError` is `err`. Guard/Amount has `toRawUnits` and `fromRawUnits`, Guard/Failures the
--   coercions of guard/errors.ts.
-- - Approval (stellar/src/approval/classify.ts, routing.ts): `classifyChange` folds its two flags
--   over the limits, the assets and the restriction, as the code does. Approval/Draft
--   (approval/types.ts) has the draft of the limits and its validation.
-- - Overlay (app/src/notch/approval/overlayModel.ts): `reduceOverlay` is `reduce_overlay` on the
--   five fields of the state.
-- - TurnSession (app/src/lib/turnSession.ts): `reduceTurnSession` is `reduce_turn_session` on an
--   optional session.
-- - TurnFlow (app/src/lib/turnFlow.ts): `offer`, `isCurrent` and `settle` on the class's two fields,
--   and the wallet gate.
-- - Shell (app/src/notch/shellState.ts): the precedence of the shell's sources and the hover latch.
-- - Errors (stellar/src/keeper/errors.ts): the tables, the classification of error texts, walked as
--   lists of UTF-16 code units, and `backoffMs`.
-- - Keeper (stellar/src/keeper/keeper.ts): the keeper's maps and counters are a record, its chain
--   port is a record of functions on a world, which are parameters, and each method takes and
--   leaves the keeper and the world. A rejected promise is `err`.
-- - Suggest (stellar/src/suggest/amount.ts, stats.ts, suggest.ts): rounding, percentiles, outliers,
--   the pool of records that `guard` selects, and the first run of a proposed schedule.
-- - Decimal: what the two amount conversions share. P2p (stellar/src/p2p/amount.ts): the price.
-- - BankFlow (app/src/lib/bankFlow.ts): `runBankDeposit`, `runBankWithdraw` and
--   `reconcileBankFlows` as computations on the pending flows, the notes of the money calls and a
--   world; Common/Action has their bind and their `try`. The bank and the anchor are parameters.
-- - Execution (agent/src/execution.ts): `executeIntent` is `execute_intent` on a world that the tool
--   and the approver change; Execution/Sha256 is `sha256Hex`, on the bytes of the text.
-- - Pipeline (app/src/lib/txPipeline.ts): `runTx` and `runTxSequence` on a world and the reports of
--   progress; it shares the requests and decisions of Execution.
-- - Enabling (stellar/src/approval/enableAutoPay.ts): the builders of the enable, baseline, disable
--   and tighten flows; Enabling/Prefix applies their steps to an account.
-- - Anchor (stellar/src/anchor): `AnchorSession` of session.ts as computations on its fields, the orders
--   that were bound and the envelopes that were handed over; amounts, memos and order statuses;
--   Anchor/Poll is `pollTransaction` of sep6.ts.
-- - Agent (agent/src/loop.ts, dialog.ts, language.ts): `runTurn` is `run_turn` on the events, the
--   conversation memory and a world that the model and the tools change; what the loop over the calls
--   collects is a record. Agent/Dialog is `DialogMemory`, Agent/Language the language of a turn.
--
-- Bounds and fuel: amounts are integers (natural numbers in Suggest), times and ids natural
-- numbers. The page scan of a tick is recursion on the pages left of MAX_PAGES_PER_TICK, as in
-- the code; printing a number recurses on a fuel above the number, which is enough since each
-- digit divides by ten, and the digits of a word take the fuel 8, enough below 2 ^ 32. The loop
-- of `advanceFirstRunAt` recurses on its own bound of 10,000 steps, and the blocks of a digest on
-- their number; below 2 ^ 31 - 72 bytes the length of the padded buffer is the 32-bit one of the
-- source. The wait for a payout account takes 31 rounds, enough since each but the last sleeps
-- two of its sixty seconds; the poll of an order takes its number of rounds, and Anchor/Poll/Ends
-- says how many are enough. Every other function is structural.
--
-- Not modelled: the network adapters, the stellar SDK, the Rust core and the contracts, the React
-- views, and drawn labels. The chain of the keeper, the bank and the anchor of the bank flows, the
-- tools, the approver and the signer of the execution and the pipeline, the model and the tools of an
-- agent turn, and the network of the anchor session are parameters, whatever they answer. No law is
-- asked of them, but that a transaction has the effect that it is built for (Enabling/Prefix), and
-- that the clock runs (Anchor/Session/Deferred, Anchor/Poll).
pub mod Common
pub mod Guard
pub mod Approval
pub mod Overlay
pub mod TurnSession
pub mod TurnFlow
pub mod Shell
pub mod Errors
pub mod Keeper
pub mod Suggest
pub mod Decimal
pub mod P2p
pub mod BankFlow
pub mod Execution
pub mod Pipeline
pub mod Enabling
pub mod Anchor
pub mod Agent
