-- ===== src/TurnSession/Identity.antt =====
-- Turn ids and the cross-turn guard, and the shell inputs (app/src/lib/turnSession.ts).
use stellar_voice_control_pr.Common.{
  ℕ, ◌+◌, ◌≡◌, refl, ◌↔◌, ◌⊎◌, true, false, not, ◌||◌, Option, none, some, arith, String,
}
use stellar_voice_control_pr.TurnSession.{
  TurnStage, CaptureState, TurnSession, TurnSignal, capture, transcribed, speech_started,
  speech_finished, settled, language, stage, failed, is_payment_stage, is_terminal_stage,
  is_active_stage, reduce_turn_session, ShellVoiceFlags, collapsed, shell_voice_inputs,
  is_current_turn, should_surface_outcome,
}

abbrev IdAfter : TurnSession → TurnSignal → Option TurnSession → Type 0
IdAfter s sig none = Unit
IdAfter s sig (some t) =
    ((t.id ≡ s.id) × (t.failure_label ≡ s.failure_label))
    ⊎ ((t.id ≡ s.id + 1) × (is_payment_stage s.stage ≡ false) × (t.stage ≡ TurnStage.listening))
    ⊎ ((t.id ≡ s.id + 1) × (is_terminal_stage s.stage ≡ false) × (t.stage ≡ TurnStage.error))

-- Within a live session the id stays, or grows by one: for a new take outside a payment, or for
-- the failure of a turn that has not ended.
turn_id_step :
    (s : TurnSession) (sig : TurnSignal) → IdAfter s sig (reduce_turn_session (some s) sig)
unfolding reduce_turn_session
turn_id_step s (capture CaptureState.idle l) = ground arith
turn_id_step s (capture CaptureState.recording l) = ground arith
turn_id_step s (capture CaptureState.ready l) = ground arith
turn_id_step s (capture CaptureState.transcribing l) = ground arith
turn_id_step s (capture CaptureState.error l) = ground arith
turn_id_step s transcribed = ground arith
turn_id_step s speech_started = ground arith
turn_id_step s speech_finished = ground arith
turn_id_step s settled = ground arith
turn_id_step s (language l) = ground arith
turn_id_step s (stage p) = ground arith
turn_id_step s (failed l) = ground arith

-- A new take outside a payment, and the failure of a turn that has not ended, make the results of
-- the turn so far stale: one that was not submitted is dropped after exactly those. One that was
-- submitted is always surfaced.
superseded_is_stale :
    (s : TurnSession) (l : Option String) (label : String)
    → let after_take = reduce_turn_session (some s) (capture CaptureState.recording l) in
      let after_failure = reduce_turn_session (some s) (failed label) in
      ((should_surface_outcome after_take (some s.id) false ≡ false)
        ↔ (is_payment_stage s.stage ≡ false))
      × ((should_surface_outcome after_failure (some s.id) false ≡ false)
          ↔ (is_terminal_stage s.stage ≡ false))
      × (should_surface_outcome after_take (some s.id) true ≡ true)
unfolding should_surface_outcome reduce_turn_session
superseded_is_stale s l label = ground arith

-- What makes the results of a turn stale: a new take outside a payment, a failure of a turn that has
-- not ended (one of the microphone also outside a payment), and the end of the turn.
abbrev pub Supersedes : TurnSession → TurnSignal → Type 0
Supersedes s (capture CaptureState.recording l) = is_payment_stage s.stage ≡ false
Supersedes s (capture CaptureState.error l) =
    (is_payment_stage s.stage ≡ false) × (is_terminal_stage s.stage ≡ false)
Supersedes s (failed l) = is_terminal_stage s.stage ≡ false
Supersedes s settled = is_terminal_stage s.stage ≡ true
Supersedes s _ = ⊥

abbrev pub GrowsFrom : ℕ → Option TurnSession → Type 0
GrowsFrom n none = Unit
GrowsFrom n (some t) = (t.id ≡ n) ⊎ (t.id ≡ n + 1)

abbrev pub StartsAtOne : Option TurnSession → Type 0
StartsAtOne none = Unit
StartsAtOne (some t) = t.id ≡ 1

stale_iff :
    (s : TurnSession) (sig : TurnSignal)
    → (is_current_turn (reduce_turn_session (some s) sig) (some s.id) ≡ false) ↔ Supersedes s sig
unfolding reduce_turn_session is_current_turn
stale_iff s (capture CaptureState.idle l) = ground arith
stale_iff s (capture CaptureState.recording l) = ground arith
stale_iff s (capture CaptureState.ready l) = ground arith
stale_iff s (capture CaptureState.transcribing l) = ground arith
stale_iff s (capture CaptureState.error l) = ground arith
stale_iff s transcribed = ground arith
stale_iff s speech_started = ground arith
stale_iff s speech_finished = ground arith
stale_iff s settled = ground arith
stale_iff s (language l) = ground arith
stale_iff s (stage p) = ground arith
stale_iff s (failed l) = ground arith

reduce-GrowsFrom :
    (s : TurnSession) (sig : TurnSignal) → GrowsFrom s.id (reduce_turn_session (some s) sig)
unfolding reduce_turn_session
reduce-GrowsFrom s (capture CaptureState.idle l) = ground arith
reduce-GrowsFrom s (capture CaptureState.recording l) = ground arith
reduce-GrowsFrom s (capture CaptureState.ready l) = ground arith
reduce-GrowsFrom s (capture CaptureState.transcribing l) = ground arith
reduce-GrowsFrom s (capture CaptureState.error l) = ground arith
reduce-GrowsFrom s transcribed = ground arith
reduce-GrowsFrom s speech_started = ground arith
reduce-GrowsFrom s speech_finished = ground arith
reduce-GrowsFrom s settled = ground arith
reduce-GrowsFrom s (language l) = ground arith
reduce-GrowsFrom s (stage p) = ground arith
reduce-GrowsFrom s (failed l) = ground arith

reduce-StartsAtOne : (sig : TurnSignal) → StartsAtOne (reduce_turn_session none sig)
unfolding reduce_turn_session
reduce-StartsAtOne (capture CaptureState.idle l) = tt
reduce-StartsAtOne (capture CaptureState.recording l) = refl
reduce-StartsAtOne (capture CaptureState.ready l) = tt
reduce-StartsAtOne (capture CaptureState.transcribing l) = tt
reduce-StartsAtOne (capture CaptureState.error l) = refl
reduce-StartsAtOne transcribed = tt
reduce-StartsAtOne speech_started = tt
reduce-StartsAtOne speech_finished = tt
reduce-StartsAtOne settled = tt
reduce-StartsAtOne (language l) = tt
reduce-StartsAtOne (stage p) = tt
reduce-StartsAtOne (failed l) = refl

-- A signal makes the results of a turn stale exactly if it is a new take outside a payment, a
-- failure of a turn that has not ended (one of the microphone also outside a payment), or the end of
-- a turn that has settled. While there is a session its id stays or grows by one; from no session
-- every turn starts with the id 1 again, so that the ids of earlier turns come back.
pub stale_by_signal :
    (s : TurnSession) (sig : TurnSignal)
    → ((is_current_turn (reduce_turn_session (some s) sig) (some s.id) ≡ false) ↔ Supersedes s sig)
      × GrowsFrom s.id (reduce_turn_session (some s) sig)
      × StartsAtOne (reduce_turn_session none sig)
stale_by_signal s sig = (stale_iff s sig, reduce-GrowsFrom s sig, reduce-StartsAtOne sig)

abbrev IsActive : Option TurnSession → Type 0
IsActive none = ⊥
IsActive (some s) = is_active_stage s.stage ≡ true

-- Voice outranks hover exactly for a flag or an active turn; the shell is collapsed exactly when
-- there is no turn and no flag.
shell_voice_inputs_iff :
    (session : Option TurnSession) (flags : ShellVoiceFlags)
    → let flagged = (flags.connection_error || not flags.connected) || flags.permission_hint in
      (((shell_voice_inputs session flags).state ≡ collapsed)
        ↔ ((session ≡ none) × (flagged ≡ false)))
      × (((shell_voice_inputs session flags).attention ≡ true)
          ↔ ((flagged ≡ true) ⊎ IsActive session))
unfolding shell_voice_inputs
shell_voice_inputs_iff none flags = ground arith
shell_voice_inputs_iff (some s) flags = ground arith
