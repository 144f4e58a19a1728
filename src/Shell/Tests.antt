-- ===== src/Shell/Tests.antt =====
-- Runs of the shell's resolution on concrete proposals.
use stellar_voice_control_pr.Common.{◌≡◌, refl, true, false, none, some}
use stellar_voice_control_pr.Shell.{
  ShellProposals, resolve_shell_state, is_commit_transition, inline_voice_stage, thinking,
  attention_of, pin_of,
}
use stellar_voice_control_pr.Shell.Precedence.{first_open, by_rank, resolve_shell_state-by_rank}

abbrev dwelling : ShellProposals
dwelling = record { voice = "compact"; hover = "panel"; hotkey = "collapsed"; pin = none }

hover_beats_dwell : resolve_shell_state dwelling (some false) ≡ "panel"
unfolding resolve_shell_state attention_of pin_of
hover_beats_dwell = refl

height_commits : is_commit_transition "height" true ≡ true
unfolding is_commit_transition
height_commits = refl

transcribing_is_thinking : inline_voice_stage "transcribing" ≡ some thinking
unfolding inline_voice_stage
transcribing_is_thinking = refl

resolve_shell_state-by_rank_example :
    resolve_shell_state dwelling (some false) ≡ first_open (by_rank dwelling (some false))
resolve_shell_state-by_rank_example = resolve_shell_state-by_rank dwelling (some false)
