-- ===== src/Overlay/Tests.antt =====
-- Runs of the approval overlay on concrete requests.
use stellar_voice_control_pr.Common.{◌≡◌, ◌≢◌, refl, ◌↔◌, true, none, some, List, [], ◌∷◌}
use stellar_voice_control_pr.Overlay.{
  ApprovalState, ApprovalSnapshot, ApprovalErrorKind, OverlayStage, OverlayState, OverlayAction,
  approve_clicked, authorize_ok, authorize_failed, initial_overlay_state, reduce_overlay,
  can_approve, is_live_stage, is_result_stage,
}
use stellar_voice_control_pr.Overlay.Invariant.{IsCoherent, run_overlay, overlay-IsCoherent}
use stellar_voice_control_pr.Overlay.Approving.{authorizing_only_by_approve}

abbrev request : ApprovalSnapshot
request = record {
  id = "r1";
  payload_hash = "beef";
  state = ApprovalState.pending;
  expires_at_ms = 1_000;
}

abbrev shown : OverlayState
shown = record {
  stage = OverlayStage.pending;
  snapshot = some request;
  now_ms = 400;
  hint = none;
  error = none;
}

abbrev sent : OverlayState
sent = record shown { stage = OverlayStage.sent }

-- A cancelled prompt keeps the request open, a second approval succeeds.
abbrev retry : List OverlayAction
retry =
    OverlayAction.snapshot (some request) 400
    ∷ approve_clicked
    ∷ authorize_failed ApprovalErrorKind.cancelled none
    ∷ approve_clicked
    ∷ authorize_ok
    ∷ []

retry_run : (run_overlay initial_overlay_state retry).stage ≡ OverlayStage.sent
unfolding run_overlay reduce_overlay
retry_run = refl

not_authorizing : shown.stage ≢ OverlayStage.authorizing
not_authorizing = λ e. cc

shown_is_live : is_live_stage shown.stage ≡ true
unfolding is_live_stage
shown_is_live = refl

sent_is_result : is_result_stage sent.stage ≡ true
unfolding is_result_stage
sent_is_result = refl

overlay-IsCoherent_example : IsCoherent (run_overlay initial_overlay_state retry)
overlay-IsCoherent_example = overlay-IsCoherent retry

authorizing_only_by_approve_example :
    ((reduce_overlay shown approve_clicked).stage ≡ OverlayStage.authorizing)
    ↔ ((approve_clicked ≡ approve_clicked) × (can_approve shown ≡ true))
authorizing_only_by_approve_example =
    authorizing_only_by_approve shown approve_clicked not_authorizing
