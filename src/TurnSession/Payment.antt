-- ===== src/TurnSession/Payment.antt =====
-- The payment path of a turn, and when speech may start (app/src/lib/turnSession.ts).
use stellar_voice_control_pr.Common.{
  ◌<◌, ◌≡◌, ◌≢◌, ◌↔◌, ◌⊎◌, true, Option, none, some, arith, String,
}
use stellar_voice_control_pr.TurnSession.{
  TurnStage, PaymentStage, payment_pending, CaptureState, TurnSession, TurnSignal, capture,
  transcribed, speech_started, speech_finished, settled, language, stage, failed, is_payment_stage,
  is_terminal_stage, reduce_turn_session, total_watchdog_ms, stage_watchdog, StageWatchdog,
}

abbrev pub next_stage : Option TurnSession → Option TurnStage
next_stage none = none
next_stage (some t) = some t.stage

abbrev pub Enters : TurnSession → TurnSignal → TurnStage → Type 0
Enters s sig to = (next_stage (reduce_turn_session (some s) sig) ≡ some to) × (s.stage ≢ to)

-- The payment stages and speech are entered only by their own signal and from their own stages:
-- awaiting approval from thinking or speaking, signing from awaiting approval, submitting from
-- signing, each by the executor's report, and speaking from thinking or submitting when playback
-- starts.
pub payment_path_in_order :
    (s : TurnSession) (sig : TurnSignal)
    → (Enters s sig TurnStage.awaiting_approval ↔ (
        (sig ≡ stage PaymentStage.awaiting_approval)
        × ((s.stage ≡ TurnStage.thinking) ⊎ (s.stage ≡ TurnStage.speaking))))
      × (Enters s sig TurnStage.signing
          ↔ ((sig ≡ stage PaymentStage.signing) × (s.stage ≡ TurnStage.awaiting_approval)))
      × (Enters s sig TurnStage.submitting
          ↔ ((sig ≡ stage PaymentStage.submitting) × (s.stage ≡ TurnStage.signing)))
      × (Enters s sig TurnStage.speaking ↔ (
          (sig ≡ speech_started)
          × ((s.stage ≡ TurnStage.thinking) ⊎ (s.stage ≡ TurnStage.submitting))))
unfolding reduce_turn_session
payment_path_in_order s (capture CaptureState.idle l) = ground arith
payment_path_in_order s (capture CaptureState.recording l) = ground arith
payment_path_in_order s (capture CaptureState.ready l) = ground arith
payment_path_in_order s (capture CaptureState.transcribing l) = ground arith
payment_path_in_order s (capture CaptureState.error l) = ground arith
payment_path_in_order s transcribed = ground arith
payment_path_in_order s speech_started = ground arith
payment_path_in_order s speech_finished = ground arith
payment_path_in_order s settled = ground arith
payment_path_in_order s (language l) = ground arith
payment_path_in_order s (stage PaymentStage.awaiting_approval) = ground arith
payment_path_in_order s (stage PaymentStage.signing) = ground arith
payment_path_in_order s (stage PaymentStage.submitting) = ground arith
payment_path_in_order s (failed l) = ground arith

-- While a payment is in flight, every capture signal keeps the turn's id, stage, failure label and
-- language; only a new take leaves a mark, the soft notice.
payment_owns_notch :
    (s : TurnSession) (c : CaptureState) (l : Option String)
    → is_payment_stage s.stage ≡ true
    → reduce_turn_session (some s) (capture c l)
      ≡ some (record s {
        notice = elim c [ CaptureState.recording ↦ some payment_pending | _ ↦ s.notice ];
      })
unfolding reduce_turn_session
payment_owns_notch s CaptureState.idle l h = ground arith
payment_owns_notch s CaptureState.recording l h = ground arith
payment_owns_notch s CaptureState.ready l h = ground arith
payment_owns_notch s CaptureState.transcribing l h = ground arith
payment_owns_notch s CaptureState.error l h = ground arith

-- A timer that runs for some time, but not for the whole turn.
abbrev pub IsBounded : Option StageWatchdog → Type 0
IsBounded none = Unit
IsBounded (some w) = (0 < w.timeout_ms) × (w.timeout_ms < total_watchdog_ms)

-- Every stage of a turn that no gesture of the user ends is watched: only listening and the two
-- terminal stages have no timer, and each timer is shorter than the ceiling for the whole turn.
stage_watchdog_covers :
    (st : TurnStage)
    → ((stage_watchdog st ≡ none) ↔ ((st ≡ TurnStage.listening) ⊎ (is_terminal_stage st ≡ true)))
      × IsBounded (stage_watchdog st)
unfolding stage_watchdog is_terminal_stage
stage_watchdog_covers st = ground arith
