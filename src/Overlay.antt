-- ===== src/Overlay.antt =====
-- The in-notch approval overlay: app/src/notch/approval/overlayModel.ts, with the types that it
-- takes from app/src/lib/approval.ts. Times are whole milliseconds since the epoch. Of a snapshot
-- the reducer reads the digest, the state and the deadline; its other fields are carried along
-- unread and are represented by the id.
pub mod Invariant
pub mod Approving
mod Tests
use text.Mathlib.Text.{◌==◌ as str_eq}
use stellar_voice_control_pr.Common.{
  ℕ, ◌-◌, Bool, true, false, not, ◌&&◌, ◌||◌, Option, none, some, String, leb, ltb, if◌then◌else◌,
}

-- `unrecognised` is a state outside the union, which a newer Rust core may send.
pub data ApprovalState : Type 0 where
  pending authorized denied expired consumed unrecognised : ApprovalState

pub record ApprovalSnapshot : Type 0 where
  pub id : String
  pub payload_hash : String
  pub state : ApprovalState
  pub expires_at_ms : ℕ

pub data ApprovalErrorKind : Type 0 where
  cancelled failed unavailable timeout expired not_pending : ApprovalErrorKind

pub record ApprovalError : Type 0 where
  pub kind : ApprovalErrorKind
  pub message : String

pub data OverlayStage : Type 0 where
  hidden pending authorizing sent denied expired failed : OverlayStage

pub record OverlayState : Type 0 where
  pub stage : OverlayStage
  pub snapshot : Option ApprovalSnapshot
  pub now_ms : ℕ
  pub hint : Option String
  pub error : Option ApprovalError

pub data OverlayAction : Type 0 where
  snapshot : Option ApprovalSnapshot → (now_ms : ℕ) → OverlayAction
  snapshot_failed : ApprovalError → OverlayAction
  approve_clicked deny_clicked authorize_ok dismiss : OverlayAction
  authorize_failed : ApprovalErrorKind → Option String → OverlayAction
  tick : (now_ms : ℕ) → OverlayAction
  result : (payload_hash : String) → (approved : Bool) → OverlayAction

abbrev pub cancelled_hint : String
cancelled_hint = "Touch ID cancelled — you can try again"

abbrev pub expired_message : String
expired_message = "This request expired — ask again by voice"

abbrev pub initial_overlay_state : OverlayState
initial_overlay_state = record {
  stage = OverlayStage.hidden;
  snapshot = none;
  now_ms = 0;
  hint = none;
  error = none;
}

terminal_stage_of : ApprovalState → OverlayStage
terminal_stage_of ApprovalState.authorized = OverlayStage.sent
terminal_stage_of ApprovalState.consumed = OverlayStage.sent
terminal_stage_of ApprovalState.denied = OverlayStage.denied
terminal_stage_of ApprovalState.expired = OverlayStage.expired
terminal_stage_of ApprovalState.pending = OverlayStage.failed
terminal_stage_of ApprovalState.unrecognised = OverlayStage.failed

-- The stage that `fromSnapshot` opens a snapshot in.
opening_stage : ApprovalSnapshot → ℕ → ApprovalState → OverlayStage
unfolding terminal_stage_of
opening_stage s now ApprovalState.pending =
    if leb s.expires_at_ms now then OverlayStage.expired else OverlayStage.pending
opening_stage s now state = terminal_stage_of state

from_snapshot : Option ApprovalSnapshot → ℕ → OverlayState
unfolding opening_stage
from_snapshot none now = initial_overlay_state
from_snapshot (some s) now = record {
  stage = opening_stage s now s.state;
  snapshot = some s;
  now_ms = now;
  hint = none;
  error = none;
}

default_message : ApprovalErrorKind → String
default_message ApprovalErrorKind.unavailable = "Touch ID is unavailable on this device"
default_message ApprovalErrorKind.timeout = "Touch ID timed out — try again"
default_message ApprovalErrorKind.expired = expired_message
default_message ApprovalErrorKind.not_pending = "This request is no longer waiting for approval"
default_message _ = "Approval failed"

-- `message !== undefined && message.length > 0`
message_for : ApprovalErrorKind → Option String → String
unfolding default_message
message_for kind none = default_message kind
message_for kind (some m) = if str_eq m "" then default_message kind else m

unfoldable pub is_result_stage : OverlayStage → Bool
is_result_stage OverlayStage.sent = true
is_result_stage OverlayStage.denied = true
is_result_stage OverlayStage.expired = true
is_result_stage OverlayStage.failed = true
is_result_stage OverlayStage.hidden = false
is_result_stage OverlayStage.pending = false
is_result_stage OverlayStage.authorizing = false

unfoldable pub is_live_stage : OverlayStage → Bool
is_live_stage OverlayStage.pending = true
is_live_stage OverlayStage.authorizing = true
is_live_stage _ = false

abbrev is_hidden : OverlayStage → Bool
is_hidden OverlayStage.hidden = true
is_hidden _ = false

abbrev is_pending : OverlayStage → Bool
is_pending OverlayStage.pending = true
is_pending _ = false

abbrev is_authorizing : OverlayStage → Bool
is_authorizing OverlayStage.authorizing = true
is_authorizing _ = false

-- `state.nowMs >= state.snapshot.expiresAtMs`, at a snapshot that is there
abbrev pub is_past : ℕ → Option ApprovalSnapshot → Bool
is_past now none = false
is_past now (some s) = leb s.expires_at_ms now

abbrev pub is_some {ℓ} : {A : Type ℓ} → Option A → Bool
is_some none = false
is_some (some a) = true

-- The body of `authorizeFailed` behind its first guard.
after_failure : OverlayState → ApprovalErrorKind → Option String → OverlayState
unfolding message_for
after_failure s ApprovalErrorKind.cancelled m =
    if is_past s.now_ms s.snapshot
    then record s { stage = OverlayStage.expired }
    else record s { stage = OverlayStage.pending; hint = some cancelled_hint }
after_failure s ApprovalErrorKind.expired m = record s { stage = OverlayStage.expired }
after_failure s kind m = record s {
  stage = OverlayStage.failed;
  error = some (record { kind = kind; message = message_for kind m });
}

abbrev matches_hash : Option ApprovalSnapshot → String → Bool
matches_hash none hash = false
matches_hash (some s) hash = str_eq s.payload_hash hash

unfoldable pub reduce_overlay : OverlayState → OverlayAction → OverlayState
unfolding from_snapshot after_failure is_result_stage is_live_stage
reduce_overlay s (OverlayAction.snapshot none now) =
    if is_result_stage s.stage then s else initial_overlay_state
reduce_overlay s (OverlayAction.snapshot (some snap) now) = from_snapshot (some snap) now
reduce_overlay s (snapshot_failed e) =
    if is_hidden s.stage
    then initial_overlay_state
    else record s { stage = OverlayStage.failed; error = some e }
reduce_overlay s approve_clicked =
    if not (is_pending s.stage) || not (is_some s.snapshot)
    then s
    else if is_past s.now_ms s.snapshot
    then record s { stage = OverlayStage.expired; hint = none }
    else record s { stage = OverlayStage.authorizing; hint = none }
reduce_overlay s deny_clicked =
    if is_live_stage s.stage then record s { stage = OverlayStage.denied; hint = none } else s
reduce_overlay s authorize_ok =
    if is_some s.snapshot then record s { stage = OverlayStage.sent; hint = none } else s
reduce_overlay s (authorize_failed kind m) =
    if not (is_authorizing s.stage) || not (is_some s.snapshot) then s else after_failure s kind m
reduce_overlay s (tick now) =
    if is_live_stage s.stage
    then if is_past now s.snapshot
      then record s { stage = OverlayStage.expired; now_ms = now }
      else record s { now_ms = now }
    else s
reduce_overlay s (result hash approved) =
    if matches_hash s.snapshot hash
    then record s { stage = if approved then OverlayStage.sent else OverlayStage.denied }
    else s
reduce_overlay s dismiss = initial_overlay_state

unfoldable pub is_visible : OverlayState → Bool
is_visible s = not (is_hidden s.stage)

unfoldable pub can_approve : OverlayState → Bool
can_approve s = is_pending s.stage && is_some s.snapshot && not (is_past s.now_ms s.snapshot)

remaining_of : ℕ → Option ApprovalSnapshot → Option ℕ
remaining_of now none = none
remaining_of now (some s) = some (s.expires_at_ms - now)

-- `Math.max(0, expiresAtMs - nowMs)` is the truncated difference.
unfoldable pub remaining_ms : OverlayState → Option ℕ
unfolding remaining_of is_live_stage
remaining_ms s = if is_live_stage s.stage then remaining_of s.now_ms s.snapshot else none

pub data Tone : Type 0 where
  ok_tone danger : Tone

unfoldable pub result_tone : OverlayState → Option Tone
result_tone s = elim s.stage [
  | OverlayStage.sent ↦ some ok_tone
  | OverlayStage.denied ↦ some danger
  | OverlayStage.expired ↦ some danger
  | OverlayStage.failed ↦ some danger
  | _ ↦ none
]
