-- ===== src/TurnSession/Tests.antt =====
-- Runs of the turn session on concrete turns.
use stellar_voice_control_pr.Common.{
  ◌≡◌, refl, ◌↔◌, ◌⊎◌, true, false, Option, none, some, List, [], ◌∷◌,
}
use stellar_voice_control_pr.TurnSession.{
  TurnStage, PaymentStage, CaptureState, TurnSession, TurnSignal, capture, transcribed,
  speech_started, speech_finished, settled, stage, is_payment_stage, is_terminal_stage,
  reduce_turn_session, ShellVoiceFlags, is_current_turn,
}
use stellar_voice_control_pr.TurnSession.Payment.{Enters, payment_path_in_order}
use stellar_voice_control_pr.TurnSession.Identity.{
  Supersedes, GrowsFrom, StartsAtOne, stale_by_signal,
}

abbrev in_stage : TurnStage → TurnSession
in_stage st = record {
  id = 4;
  stage = st;
  failure_label = none;
  notice = none;
  language = some "tr";
}

abbrev drive : Option TurnSession → List TurnSignal → Option TurnSession
drive s [] = s
drive s (sig ∷ sigs) = drive (reduce_turn_session s sig) sigs

-- A spoken payment from idle to idle.
paid_turn :
    drive none (
      capture CaptureState.recording none
      ∷ transcribed
      ∷ stage PaymentStage.awaiting_approval
      ∷ stage PaymentStage.signing
      ∷ stage PaymentStage.submitting
      ∷ speech_started
      ∷ speech_finished
      ∷ settled
      ∷ [])
    ≡ none
unfolding reduce_turn_session
paid_turn = refl

signing_is_payment : is_payment_stage TurnStage.signing ≡ true
unfolding is_payment_stage
signing_is_payment = refl

done_is_terminal : is_terminal_stage TurnStage.done ≡ true
unfolding is_terminal_stage
done_is_terminal = refl

payment_path_in_order_example :
    (Enters (in_stage TurnStage.thinking) speech_started TurnStage.awaiting_approval ↔ (
      (speech_started ≡ stage PaymentStage.awaiting_approval)
      × ((TurnStage.thinking ≡ TurnStage.thinking) ⊎ (TurnStage.thinking ≡ TurnStage.speaking))))
    × (Enters (in_stage TurnStage.thinking) speech_started TurnStage.signing ↔ (
        (speech_started ≡ stage PaymentStage.signing)
        × (TurnStage.thinking ≡ TurnStage.awaiting_approval)))
    × (Enters (in_stage TurnStage.thinking) speech_started TurnStage.submitting ↔ (
        (speech_started ≡ stage PaymentStage.submitting)
        × (TurnStage.thinking ≡ TurnStage.signing)))
    × (Enters (in_stage TurnStage.thinking) speech_started TurnStage.speaking ↔ (
        (speech_started ≡ speech_started)
        × ((TurnStage.thinking ≡ TurnStage.thinking)
            ⊎ (TurnStage.thinking ≡ TurnStage.submitting))))
payment_path_in_order_example = payment_path_in_order (in_stage TurnStage.thinking) speech_started

stale_by_signal_example :
    ((is_current_turn
          (reduce_turn_session (some (in_stage TurnStage.done)) settled)
          (some (in_stage TurnStage.done).id)
        ≡ false)
      ↔ Supersedes (in_stage TurnStage.done) settled)
    × GrowsFrom
        (in_stage TurnStage.done).id
        (reduce_turn_session (some (in_stage TurnStage.done)) settled)
    × StartsAtOne (reduce_turn_session none settled)
stale_by_signal_example = stale_by_signal (in_stage TurnStage.done) settled

-- The id of the old take is 1, and so is the id of the take behind the end of another turn.
old_take_passes_for_current :
    is_current_turn
      (reduce_turn_session
        (reduce_turn_session (some (in_stage TurnStage.done)) settled)
        (capture CaptureState.recording none))
      (some 1)
    ≡ true
unfolding reduce_turn_session is_current_turn is_terminal_stage
old_take_passes_for_current = refl

abbrev no_session : Option TurnSession
no_session = none

abbrev quiet : ShellVoiceFlags
quiet = record { connection_error = false; connected = true; permission_hint = false }
