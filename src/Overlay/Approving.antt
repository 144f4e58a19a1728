-- ===== src/Overlay/Approving.antt =====
-- How the overlay comes to authorize, and how a decided request stays decided
-- (notch/approval/overlayModel.ts).
use stellar_voice_control_pr.Common.{
  ℕ, ◌-◌, ◌≤◌, ◌<◌, ◌≡◌, ◌≢◌, ◌↔◌, Bool, true, false, none, some, arith,
}
use stellar_voice_control_pr.Overlay.{
  OverlayStage, OverlayState, OverlayAction, ApprovalSnapshot, snapshot_failed, approve_clicked,
  deny_clicked, authorize_ok, dismiss, authorize_failed, tick, result, is_live_stage,
  reduce_overlay, can_approve, remaining_ms, is_result_stage,
}

-- The stage `authorizing` is entered only by an Approve click in a state where Approve is enabled:
-- the request is pending, there is a snapshot, and its deadline has not passed.
pub authorizing_only_by_approve :
    (s : OverlayState) (a : OverlayAction)
    → s.stage ≢ OverlayStage.authorizing
    → ((reduce_overlay s a).stage ≡ OverlayStage.authorizing)
      ↔ ((a ≡ approve_clicked) × (can_approve s ≡ true))
unfolding reduce_overlay can_approve
authorizing_only_by_approve s (OverlayAction.snapshot none now) h = ground arith
authorizing_only_by_approve s (OverlayAction.snapshot (some snap) now) h = ground arith
authorizing_only_by_approve s (snapshot_failed e) h = ground arith
authorizing_only_by_approve s approve_clicked h = ground arith
authorizing_only_by_approve s deny_clicked h = ground arith
authorizing_only_by_approve s authorize_ok h = ground arith
authorizing_only_by_approve s (authorize_failed kind m) h = ground arith
authorizing_only_by_approve s (tick now) h = ground arith
authorizing_only_by_approve s (result hash approved) h = ground arith
authorizing_only_by_approve s dismiss h = ground arith

-- The actions by which a gate or the user may still move a shown result.
abbrev is_stale : OverlayAction → Bool
is_stale (OverlayAction.snapshot none now) = true
is_stale approve_clicked = true
is_stale deny_clicked = true
is_stale (authorize_failed kind m) = true
is_stale (tick now) = true
is_stale _ = false

-- Once a result is shown, a null snapshot, a click on Approve or Deny, a failed authorization and
-- a tick leave the whole state as it is.
result_is_kept :
    (s : OverlayState) (a : OverlayAction)
    → is_result_stage s.stage ≡ true
    → is_stale a ≡ true
    → reduce_overlay s a ≡ s
unfolding reduce_overlay is_result_stage
result_is_kept s (OverlayAction.snapshot none now) h k = ground arith
result_is_kept s approve_clicked h k = ground arith
result_is_kept s deny_clicked h k = ground arith
result_is_kept s (authorize_failed kind m) h k = ground arith
result_is_kept s (tick now) h k = ground arith
result_is_kept s a h k = cc

-- A tick at the deadline or later ends a request that is still live: it expires, Approve is off
-- and no time remains; a tick before the deadline keeps the stage and shows the time left.
tick_deadline :
    (s : OverlayState) (snap : ApprovalSnapshot) (now : ℕ)
    → s.snapshot ≡ some snap
    → is_live_stage s.stage ≡ true
    → ((snap.expires_at_ms ≤ now) ↔ ((reduce_overlay s (tick now)).stage ≡ OverlayStage.expired))
      × ((now < snap.expires_at_ms) ↔ (
          ((reduce_overlay s (tick now)).stage ≡ s.stage)
          × (remaining_ms (reduce_overlay s (tick now)) ≡ some (snap.expires_at_ms - now))))
unfolding reduce_overlay remaining_ms
tick_deadline s snap now e live = ground arith
