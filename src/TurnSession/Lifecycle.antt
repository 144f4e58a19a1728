-- ===== src/TurnSession/Lifecycle.antt =====
-- How a turn moves and ends (app/src/lib/turnSession.ts, `reduceTurnSession`).
use stellar_voice_control_pr.Common.{◌≡◌, ◌↔◌, ◌⊎◌, Bool, true, false, Option, none, some, arith}
use stellar_voice_control_pr.TurnSession.{
  TurnStage, CaptureState, TurnSession, TurnSignal, capture, transcribed, speech_started,
  speech_finished, settled, language, stage, failed, is_terminal_stage, reduce_turn_session,
}

-- A live turn ends exactly when it is settled in a terminal stage: no other signal collapses it.
turn_ends_iff :
    (s : TurnSession) (sig : TurnSignal)
    → (reduce_turn_session (some s) sig ≡ none)
      ↔ ((sig ≡ settled) × (is_terminal_stage s.stage ≡ true))
unfolding reduce_turn_session
turn_ends_iff s (capture CaptureState.idle l) = ground arith
turn_ends_iff s (capture CaptureState.recording l) = ground arith
turn_ends_iff s (capture CaptureState.ready l) = ground arith
turn_ends_iff s (capture CaptureState.transcribing l) = ground arith
turn_ends_iff s (capture CaptureState.error l) = ground arith
turn_ends_iff s transcribed = ground arith
turn_ends_iff s speech_started = ground arith
turn_ends_iff s speech_finished = ground arith
turn_ends_iff s settled = ground arith
turn_ends_iff s (language l) = ground arith
turn_ends_iff s (stage p) = ground arith
turn_ends_iff s (failed l) = ground arith

-- The transition graph that the module's documentation describes, beside staying in a stage: the
-- edges of the spoken turn and of the payment path, a new take, and a failure.
abbrev pub is_edge : TurnStage → TurnStage → Bool
is_edge TurnStage.listening TurnStage.thinking = true
is_edge TurnStage.thinking TurnStage.speaking = true
is_edge TurnStage.submitting TurnStage.speaking = true
is_edge TurnStage.thinking TurnStage.awaiting_approval = true
is_edge TurnStage.speaking TurnStage.awaiting_approval = true
is_edge TurnStage.awaiting_approval TurnStage.signing = true
is_edge TurnStage.signing TurnStage.submitting = true
is_edge TurnStage.speaking TurnStage.done = true
is_edge TurnStage.done TurnStage.error = false
is_edge from TurnStage.error = true
is_edge TurnStage.awaiting_approval TurnStage.listening = false
is_edge TurnStage.signing TurnStage.listening = false
is_edge TurnStage.submitting TurnStage.listening = false
is_edge from TurnStage.listening = true
is_edge from to = false

abbrev pub FollowsEdge : TurnSession → Option TurnSession → Type 0
FollowsEdge s none = Unit
FollowsEdge s (some t) = (t.stage ≡ s.stage) ⊎ (is_edge s.stage t.stage ≡ true)

-- Every signal keeps the stage of a live turn, follows an edge of the documented graph, or ends
-- the turn: a payment stage is never left for a new take, and `done` never turns into `error`.
turn_follows_edges :
    (s : TurnSession) (sig : TurnSignal) → FollowsEdge s (reduce_turn_session (some s) sig)
unfolding reduce_turn_session
turn_follows_edges s (capture CaptureState.idle l) = ground arith
turn_follows_edges s (capture CaptureState.recording l) = ground arith
turn_follows_edges s (capture CaptureState.ready l) = ground arith
turn_follows_edges s (capture CaptureState.transcribing l) = ground arith
turn_follows_edges s (capture CaptureState.error l) = ground arith
turn_follows_edges s transcribed = ground arith
turn_follows_edges s speech_started = ground arith
turn_follows_edges s speech_finished = ground arith
turn_follows_edges s settled = ground arith
turn_follows_edges s (language l) = ground arith
turn_follows_edges s (stage p) = ground arith
turn_follows_edges s (failed l) = ground arith
