-- ===== src/Overlay/Invariant.antt =====
-- What holds in every state that the overlay can be driven to (notch/approval/overlayModel.ts).
use stellar_voice_control_pr.Common.{◌≡◌, ◌↔◌, true, false, none, some, List, [], ◌∷◌, arith}
use stellar_voice_control_pr.Overlay.{
  OverlayStage, OverlayState, OverlayAction, snapshot_failed, approve_clicked, deny_clicked,
  authorize_ok, dismiss, authorize_failed, tick, result, initial_overlay_state, is_live_stage,
  is_past, reduce_overlay, can_approve, is_visible, is_some,
}

-- The snapshot is missing only in the hidden overlay and always there, and a request that can
-- still be decided is not past its deadline.
pub record IsCoherent (s : OverlayState) : Type 0 where
  pub empty : s.snapshot ≡ none → s.stage ≡ OverlayStage.hidden
  pub hidden : s.stage ≡ OverlayStage.hidden → s.snapshot ≡ none
  pub live : is_live_stage s.stage ≡ true → is_past s.now_ms s.snapshot ≡ false

-- One action keeps the invariant.
reduce_overlay-IsCoherent :
    (s : OverlayState) (a : OverlayAction) → IsCoherent s → IsCoherent (reduce_overlay s a)
unfolding reduce_overlay
reduce_overlay-IsCoherent s (OverlayAction.snapshot none now) h = ground arith
reduce_overlay-IsCoherent s (OverlayAction.snapshot (some snap) now) h = ground arith
reduce_overlay-IsCoherent s (snapshot_failed e) h = ground arith
reduce_overlay-IsCoherent s approve_clicked h = ground arith
reduce_overlay-IsCoherent s deny_clicked h = ground arith
reduce_overlay-IsCoherent s authorize_ok h = ground arith
reduce_overlay-IsCoherent s (authorize_failed kind m) h = ground arith
reduce_overlay-IsCoherent s (tick now) h = ground arith
reduce_overlay-IsCoherent s (result hash approved) h = ground arith
reduce_overlay-IsCoherent s dismiss h = ground arith

-- The overlay driven by a sequence of actions (React's `useReducer`).
unfoldable pub run_overlay : OverlayState → List OverlayAction → OverlayState
run_overlay s [] = s
run_overlay s (a ∷ as') = run_overlay (reduce_overlay s a) as'

run_overlay-IsCoherent :
    (s : OverlayState) (acts : List OverlayAction) → IsCoherent s → IsCoherent (run_overlay s acts)
unfolding run_overlay
run_overlay-IsCoherent s [] h = h
run_overlay-IsCoherent s (a ∷ acts) h =
    run_overlay-IsCoherent (reduce_overlay s a) acts (reduce_overlay-IsCoherent s a h)

initial-IsCoherent : IsCoherent initial_overlay_state
unfolding is_live_stage
initial-IsCoherent = ground arith

-- However the overlay is driven from its start, the snapshot is missing exactly while it is hidden,
-- and a pending or authorizing request is not past its deadline by the overlay's clock.
pub overlay-IsCoherent :
    (acts : List OverlayAction) → IsCoherent (run_overlay initial_overlay_state acts)
overlay-IsCoherent acts = run_overlay-IsCoherent initial_overlay_state acts initial-IsCoherent

view_of_coherent :
    (s : OverlayState)
    → IsCoherent s
    → ((can_approve s ≡ true) ↔ (s.stage ≡ OverlayStage.pending))
      × ((is_visible s ≡ true) ↔ (is_some s.snapshot ≡ true))
unfolding can_approve is_visible is_live_stage
view_of_coherent s h = ground arith

-- In every state that the overlay can be driven to, Approve is enabled exactly in the pending
-- stage, and the overlay is visible exactly while it holds a snapshot.
overlay_view :
    (acts : List OverlayAction)
    → let s = run_overlay initial_overlay_state acts in
      ((can_approve s ≡ true) ↔ (s.stage ≡ OverlayStage.pending))
      × ((is_visible s ≡ true) ↔ (is_some s.snapshot ≡ true))
overlay_view acts =
    view_of_coherent (run_overlay initial_overlay_state acts) (overlay-IsCoherent acts)
