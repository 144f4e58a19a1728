-- ===== src/Shell.antt =====
-- Which state the notch shell takes: app/src/notch/shellState.ts. State names are texts, since their
-- table is owned by the Rust core; a source with nothing to say proposes "collapsed".
pub mod Precedence
mod Tests
use text.Mathlib.Text.{◌==◌ as str_eq}
use stellar_voice_control_pr.Common.{
  Bool, true, false, not, ◌&&◌, ◌||◌, Option, none, some, String, if◌then◌else◌,
}

pub record ShellProposals : Type 0 where
  pub voice : String
  pub hover : String
  pub hotkey : String
  pub pin : Option String

-- `pin = "collapsed"`
unfoldable pub pin_of : ShellProposals → String
pin_of p = elim p.pin [ none ↦ "collapsed" | some pin ↦ pin ]

-- `options.voiceAttention ?? true`
unfoldable pub attention_of : Option Bool → Bool
attention_of none = true
attention_of (some b) = b

abbrev pub is_open : String → Bool
is_open name = not (str_eq name "collapsed")

unfoldable pub resolve_shell_state : ShellProposals → Option Bool → String
unfolding pin_of attention_of
resolve_shell_state p voice_attention =
    if is_open p.hotkey
    then p.hotkey
    else if attention_of voice_attention && is_open p.voice
    then p.voice
    else if is_open (pin_of p)
    then pin_of p
    else if is_open p.hover
    then p.hover
    else if is_open p.voice
    then p.voice
    else "collapsed"

unfoldable pub is_commit_transition : String → Bool → Bool
is_commit_transition property_name content_driven =
    if str_eq property_name "width" then true else content_driven && str_eq property_name "height"

pub record HoverEdge : Type 0 where
  pub latched : Bool
  pub accept : Bool

unfoldable pub apply_hover_edge : (inside latched : Bool) → HoverEdge
apply_hover_edge inside latched =
    if inside
    then record { latched = latched; accept = not latched }
    else record { latched = false; accept = true }

pub data VoiceStage : Type 0 where
  listening thinking speaking : VoiceStage

unfoldable pub inline_voice_stage : String → Option VoiceStage
inline_voice_stage visual =
    if str_eq visual "recording"
    then some listening
    else if str_eq visual "transcribing"
    then some thinking
    else if str_eq visual "speaking"
    then some speaking
    else none
