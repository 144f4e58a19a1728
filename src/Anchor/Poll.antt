-- ===== src/Anchor/Poll.antt =====
-- The poll of an order: `pollTransaction` of stellar/src/anchor/sep6.ts. What `getTransaction` and the
-- callbacks answer is a parameter on a type of worlds. The loop takes the number of its rounds; what
-- it records for the explanation and the texts of its errors are left out.
pub mod Rounds
pub mod Ends
use text.Mathlib.Text.{◌==◌ as str_eq}
use stellar_voice_control_pr.Common.{
  ℕ, zero, suc, ◌+◌, Bool, true, false, not, ◌&&◌, ◌||◌, leb, ltb, ◌==◌, Option, none, some, List,
  [], ◌∷◌, ◌++◌, any, String, Result, ok, err, if◌then◌else◌,
}
use stellar_voice_control_pr.Common.Action.{pure, throw, ◌>>=◌, ◌>>◌}
use stellar_voice_control_pr.Anchor.{
  AnchorThrown, http, type_error, other, AnchorTransaction, StatusClass, in_progress,
  needs_trustline, needs_user, needs_info, waiting_user_transfer, success, ended, classify_status,
}

-- `PollOutcome`
pub data PollEnding : Type 0 where
  completed failed stopped : PollEnding

-- What the poll throws.
pub data PollFault : Type 0 where
  passed_on : AnchorThrown → PollFault
  interrupted : (last : AnchorTransaction) → PollFault
  info_required : AnchorTransaction → PollFault
  timed_out : AnchorTransaction → PollFault
  no_rounds : PollFault

-- A callback, or a call of the anchor.
abbrev pub Answers : Type 0 → Type 0 → Type 0
Answers W A = W → Result AnchorThrown A × W

-- `PollOptions` with its defaults filled in, and what the poll calls. `ask_customer_fields` is the
-- `getCustomer` whose answer only goes into the text of an error.
pub record PollOptions (W : Type 0) : Type 0 where
  pub now : W → ℕ
  pub sleep : ℕ → W → W
  pub read : Answers W AnchorTransaction
  pub ask_customer_fields : W → W
  pub has_customer_server : Bool
  pub interval : ℕ
  pub timeout : ℕ
  pub max_failures : ℕ
  pub stop_at : List String
  pub on_update : AnchorTransaction → Answers W (Unit {0})
  pub on_pending_trust : Option (AnchorTransaction → Answers W (Unit {0}))
  pub on_customer_info : Option (AnchorTransaction → Answers W (Unit {0}))

-- The variables of the loop.
pub record PollState (W : Type 0) : Type 0 where
  pub history : List String
  pub trust_handled : Bool
  pub attempts : ℕ
  pub failures : ℕ
  pub last : Option AnchorTransaction
  pub world : W

abbrev pub max_customer_info_attempts : ℕ
max_customer_info_attempts = 6

-- A final answer, or none: the loop goes on.
abbrev pub Verdict : Type 0
Verdict = Option (AnchorTransaction × PollEnding)

abbrev pub PollStep : Type 0 → Type 0 → Type 0
PollStep W A = PollState W → Result PollFault A × PollState W

-- `isTransient`
unfoldable pub is_transient : AnchorThrown → Bool
is_transient (http status) = leb 500 status || status == 429
is_transient type_error = true
is_transient (other none) = false
is_transient (other (some name)) = str_eq name "TimeoutError" || str_eq name "AbortError"

abbrev ends_with : List String → String → Bool
ends_with [] status = false
ends_with (s ∷ []) status = str_eq s status
ends_with (s ∷ t ∷ ts) status = ends_with (t ∷ ts) status

abbrev pub is_customer_info : AnchorTransaction → Bool
is_customer_info tx = str_eq tx.status "pending_customer_info_update"

abbrev pub is_final : StatusClass → Bool
is_final success = true
is_final ended = true
is_final _ = false

module _ {W : Type 0} (opts : PollOptions W) where
  -- The time that `ctx.sleep(interval)` takes, and the next round.
  abbrev pub next_round : PollStep W Verdict
  next_round s = (ok none, record s { world = opts.sleep opts.interval s.world })

  abbrev pub settle_with : AnchorTransaction → PollEnding → PollStep W Verdict
  settle_with tx outcome s = (ok (some (tx, outcome)), s)

  abbrev pass_on : {A : Type 0} → Result AnchorThrown A → Result PollFault A
  pass_on (ok a) = ok a
  pass_on (err e) = err (passed_on e)

  abbrev pub call_back : {A : Type 0} → Answers W A → PollStep W A
  call_back f s = let (r, w) = f s.world in (pass_on r, record s { world = w })

  -- The `catch` around `getTransaction`, behind `failures++`.
  unfoldable pub give_up : AnchorThrown → Option AnchorTransaction → PollStep W Verdict
  give_up e none = throw (passed_on e)
  give_up e (some tx) = throw (interrupted tx)

  unfoldable pub after_failed_read : AnchorThrown → PollStep W Verdict
  unfolding is_transient give_up
  after_failed_read e s =
      let failed_again = record s { failures = s.failures + 1 } in
      if not (is_transient e)
      then (err (passed_on e), s)
      else if leb opts.max_failures (s.failures + 1)
      then give_up e s.last failed_again
      else next_round failed_again

  -- The end of a round that waits.
  unfoldable pub wait_or_time_out : ℕ → AnchorTransaction → PollStep W Verdict
  wait_or_time_out started tx s =
      if leb (started + opts.timeout) (opts.now s.world)
      then (err (timed_out tx), s)
      else next_round s

  -- The poll cannot supply what the anchor asks for.
  unfoldable pub require_info : AnchorTransaction → PollStep W Verdict
  require_info tx s =
      if is_customer_info tx && opts.has_customer_server
      then (err (info_required tx), record s { world = opts.ask_customer_fields s.world })
      else (err (info_required tx), s)

  unfoldable pub supply_info :
      AnchorTransaction → Option (AnchorTransaction → Answers W (Unit {0})) → PollStep W Verdict
  unfolding require_info
  supply_info tx none s = require_info tx s
  supply_info tx (some f) s =
      if is_customer_info tx && ltb s.attempts max_customer_info_attempts
      then (call_back (f tx) >> next_round) (record s { attempts = s.attempts + 1 })
      else require_info tx s

  unfoldable pub trust_once :
      ℕ → AnchorTransaction → Option (AnchorTransaction → Answers W (Unit {0})) → PollStep W Verdict
  unfolding wait_or_time_out
  trust_once started tx none s = settle_with tx stopped s
  trust_once started tx (some f) s =
      if s.trust_handled
      then wait_or_time_out started tx s
      else (call_back (f tx) >> wait_or_time_out started tx) (record s { trust_handled = true })

  -- What a status class asks for.
  unfoldable pub by_class : ℕ → AnchorTransaction → StatusClass → PollStep W Verdict
  unfolding supply_info trust_once wait_or_time_out
  by_class started tx success = settle_with tx completed
  by_class started tx ended = settle_with tx failed
  by_class started tx needs_info = supply_info tx opts.on_customer_info
  by_class started tx needs_trustline = trust_once started tx opts.on_pending_trust
  by_class started tx needs_user = settle_with tx stopped
  by_class started tx in_progress = wait_or_time_out started tx
  by_class started tx waiting_user_transfer = wait_or_time_out started tx

  -- `stopAt` is asked where the order is not final.
  unfoldable pub judge : ℕ → AnchorTransaction → PollStep W Verdict
  unfolding by_class classify_status
  judge started tx s =
      if not (is_final (classify_status tx.status)) && any (str_eq tx.status) opts.stop_at
      then settle_with tx stopped s
      else by_class started tx (classify_status tx.status) s

  -- The history, and `onUpdate` on a change.
  unfoldable pub note_status : AnchorTransaction → PollStep W (Unit {0})
  note_status tx s =
      if ends_with s.history tx.status
      then (ok tt, s)
      else call_back (opts.on_update tx) (record s { history = s.history ++ tx.status ∷ [] })

  unfoldable pub after_read : ℕ → AnchorTransaction → PollStep W Verdict
  unfolding judge note_status
  after_read started tx s =
      (note_status tx >> judge started tx) (record s { failures = 0; last = some tx })

  -- A round of the loop.
  unfoldable pub with_answer : ℕ → Result AnchorThrown AnchorTransaction → PollStep W Verdict
  unfolding after_failed_read after_read
  with_answer started (ok tx) = after_read started tx
  with_answer started (err e) = after_failed_read e

  unfoldable pub poll_round : ℕ → PollStep W Verdict
  unfolding with_answer
  poll_round started s =
      let (r, w) = opts.read s.world in with_answer started r (record s { world = w })

  unfoldable pub poll_on :
      PollStep W (AnchorTransaction × PollEnding)
      → Verdict
      → PollStep W (AnchorTransaction × PollEnding)
  poll_on rest none = rest
  poll_on rest (some answer) = pure answer

  unfoldable pub poll_rounds : ℕ → ℕ → PollStep W (AnchorTransaction × PollEnding)
  unfolding poll_round poll_on
  poll_rounds zero started = throw no_rounds
  poll_rounds (suc n) started = poll_round started >>= poll_on (poll_rounds n started)

  -- `pollTransaction`, with a number of rounds; the history is in the state.
  unfoldable pub poll_transaction :
      ℕ → W → Result PollFault (AnchorTransaction × PollEnding) × PollState W
  unfolding poll_rounds
  poll_transaction rounds w = poll_rounds rounds (opts.now w) (record {
    history = [];
    trust_handled = false;
    attempts = 0;
    failures = 0;
    last = none;
    world = w;
  })
