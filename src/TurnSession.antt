-- ===== src/TurnSession.antt =====
-- The notch's turn session: app/src/lib/turnSession.ts (the reducer, the shell inputs derived from
-- it, the watchdogs and the cross-turn guard). `null` is `none`. The drawn labels of a stage are
-- left out.
pub mod Lifecycle
pub mod Payment
pub mod Identity
mod Tests
use stellar_voice_control_pr.Common.{
  ℕ, ◌+◌, Bool, true, false, not, ◌&&◌, ◌||◌, Option, none, some, String, ◌==◌, if◌then◌else◌,
}

pub data TurnStage : Type 0 where
  listening thinking speaking awaiting_approval signing submitting done error : TurnStage

-- `Extract<TurnStage, …>`: the stages that an executor reports.
pub data PaymentStage : Type 0 where
  awaiting_approval signing submitting : PaymentStage

pub data TurnNotice : Type 0 where
  payment_pending : TurnNotice

pub data CaptureState : Type 0 where
  idle recording ready transcribing error : CaptureState

pub record TurnSession : Type 0 where
  pub id : ℕ
  pub stage : TurnStage
  pub failure_label : Option String
  pub notice : Option TurnNotice
  pub language : Option String

pub data TurnSignal : Type 0 where
  capture : CaptureState → (label : Option String) → TurnSignal
  transcribed speech_started speech_finished settled : TurnSignal
  language : Option String → TurnSignal
  stage : PaymentStage → TurnSignal
  failed : (label : String) → TurnSignal

-- The union `PaymentStage` is a part of `TurnStage`.
abbrev pub turn_stage : PaymentStage → TurnStage
turn_stage PaymentStage.awaiting_approval = TurnStage.awaiting_approval
turn_stage PaymentStage.signing = TurnStage.signing
turn_stage PaymentStage.submitting = TurnStage.submitting

unfoldable pub next_id : Option TurnSession → ℕ
next_id none = 1
next_id (some s) = s.id + 1

start : ℕ → TurnSession
start n = record {
  id = n;
  stage = TurnStage.listening;
  failure_label = none;
  notice = none;
  language = none;
}

unfoldable pub is_payment_stage : TurnStage → Bool
is_payment_stage TurnStage.awaiting_approval = true
is_payment_stage TurnStage.signing = true
is_payment_stage TurnStage.submitting = true
is_payment_stage _ = false

unfoldable pub is_terminal_stage : TurnStage → Bool
is_terminal_stage TurnStage.done = true
is_terminal_stage TurnStage.error = true
is_terminal_stage _ = false

unfoldable pub is_active_stage : TurnStage → Bool
unfolding is_terminal_stage
is_active_stage st = not (is_terminal_stage st)

abbrev is_listening : TurnStage → Bool
is_listening TurnStage.listening = true
is_listening _ = false

abbrev is_speaking : TurnStage → Bool
is_speaking TurnStage.speaking = true
is_speaking _ = false

-- `thinking || submitting`, where speech may start
abbrev may_speak : TurnStage → Bool
may_speak TurnStage.thinking = true
may_speak TurnStage.submitting = true
may_speak _ = false

error_session : ℕ → Option String → String → TurnSession
error_session n lang label = record {
  id = n;
  stage = TurnStage.error;
  failure_label = some label;
  notice = none;
  language = lang;
}

fail : Option TurnSession → String → TurnSession
unfolding next_id is_terminal_stage error_session
fail none label = error_session (next_id none) none label
fail (some s) label =
    if is_terminal_stage s.stage then s else error_session (next_id (some s)) s.language label

-- The forward edges of `advancePayment`.
reaches : PaymentStage → TurnStage → Bool
reaches PaymentStage.awaiting_approval TurnStage.thinking = true
reaches PaymentStage.awaiting_approval TurnStage.speaking = true
reaches PaymentStage.signing TurnStage.awaiting_approval = true
reaches PaymentStage.submitting TurnStage.signing = true
reaches _ _ = false

advance_payment : TurnSession → PaymentStage → TurnSession
unfolding reaches
advance_payment s p =
    if reaches p s.stage then record s { stage = turn_stage p; notice = none } else s

-- `label ?? "Mic error"`
abbrev label_or : Option String → String
label_or none = "Mic error"
label_or (some l) = l

abbrev to_thinking : TurnSession → TurnSession
to_thinking s = if is_listening s.stage then record s { stage = TurnStage.thinking } else s

-- The switch over the capture state, when no payment is in flight.
after_capture : Option TurnSession → CaptureState → Option String → Option TurnSession
unfolding start next_id fail
after_capture session CaptureState.recording label = some (start (next_id session))
after_capture session CaptureState.error label = some (fail session (label_or label))
after_capture none CaptureState.ready label = none
after_capture (some s) CaptureState.ready label = some (to_thinking s)
after_capture none CaptureState.transcribing label = none
after_capture (some s) CaptureState.transcribing label = some (to_thinking s)
after_capture session CaptureState.idle label = session

-- The same while a payment is in flight: a new take is refused with a notice, the rest dropped.
capture_in_payment : TurnSession → CaptureState → TurnSession
capture_in_payment s CaptureState.recording = record s { notice = some payment_pending }
capture_in_payment s _ = s

unfoldable pub reduce_turn_session : Option TurnSession → TurnSignal → Option TurnSession
unfolding after_capture capture_in_payment is_payment_stage fail advance_payment is_terminal_stage
reduce_turn_session none (capture state label) = after_capture none state label
reduce_turn_session (some s) (capture state label) =
    if is_payment_stage s.stage
    then some (capture_in_payment s state)
    else after_capture (some s) state label
reduce_turn_session none (failed label) = some (fail none label)
reduce_turn_session (some s) (failed label) = some (fail (some s) label)
reduce_turn_session none _ = none
reduce_turn_session (some s) transcribed = some (to_thinking s)
reduce_turn_session (some s) (language l) = some (record s { language = l })
reduce_turn_session (some s) (stage p) = some (advance_payment s p)
reduce_turn_session (some s) speech_started =
    some (if may_speak s.stage then record s { stage = TurnStage.speaking; notice = none } else s)
reduce_turn_session (some s) speech_finished =
    some (if is_speaking s.stage then record s { stage = TurnStage.done } else s)
reduce_turn_session (some s) settled = if is_terminal_stage s.stage then none else some s

unfoldable pub is_turn_expanded : Option TurnSession → Bool
is_turn_expanded none = false
is_turn_expanded (some _) = true

-- `ShellVoiceFlags`, each missing flag at its default.
pub record ShellVoiceFlags : Type 0 where
  pub connection_error : Bool
  pub connected : Bool
  pub permission_hint : Bool

pub data VoiceShell : Type 0 where
  compact collapsed : VoiceShell

pub record ShellVoiceInputs : Type 0 where
  pub state : VoiceShell
  pub attention : Bool

has_active_stage : Option TurnSession → Bool
unfolding is_active_stage
has_active_stage none = false
has_active_stage (some s) = is_active_stage s.stage

unfoldable pub shell_voice_inputs : Option TurnSession → ShellVoiceFlags → ShellVoiceInputs
unfolding has_active_stage is_turn_expanded
shell_voice_inputs session flags =
    let disconnected = not flags.connected in
    record {
      state =
          if ((is_turn_expanded session || flags.connection_error) || disconnected)
            || flags.permission_hint
          then compact
          else collapsed;
      attention =
          ((flags.connection_error || disconnected) || flags.permission_hint)
          || has_active_stage session;
    }

-- `StageWatchdog`
pub record StageWatchdog : Type 0 where
  pub timeout_ms : ℕ
  pub label : String

abbrev pub total_watchdog_ms : ℕ
total_watchdog_ms = 360_000

unfoldable pub stage_watchdog : TurnStage → Option StageWatchdog
stage_watchdog TurnStage.thinking = some (record { timeout_ms = 30_000; label = "Timed out" })
stage_watchdog TurnStage.speaking = some (record { timeout_ms = 45_000; label = "Voice error" })
stage_watchdog TurnStage.awaiting_approval =
    some (record { timeout_ms = 140_000; label = "Approval timed out" })
stage_watchdog TurnStage.signing =
    some (record { timeout_ms = 170_000; label = "Wallet timed out" })
stage_watchdog TurnStage.submitting =
    some (record { timeout_ms = 60_000; label = "Submit timed out" })
stage_watchdog TurnStage.listening = none
stage_watchdog TurnStage.done = none
stage_watchdog TurnStage.error = none

-- `session?.id === turnId` where `turnId` is given
unfoldable pub is_current_turn : Option TurnSession → Option ℕ → Bool
is_current_turn session none = false
is_current_turn none (some turn_id) = false
is_current_turn (some s) (some turn_id) = s.id == turn_id

unfoldable pub should_surface_outcome : Option TurnSession → Option ℕ → Bool → Bool
unfolding is_current_turn
should_surface_outcome session turn_id submitted = submitted || is_current_turn session turn_id
