-- ===== src/Agent/Turn/Execution.antt =====
-- Which tools a turn of the agent (agent/src/loop.ts) runs.
use stellar_voice_control_pr.Common.{
  ◌≡◌, refl, sym, ap, ◌∙◌, none, some, Option, List, [], ◌∷◌, ◌++◌, Result, ok, err,
}
use mathlib.Core.Path.{subst}
use stellar_voice_control_pr.Common.Text.{Text}
use stellar_voice_control_pr.Common.Action.{pure, >>=_rule, ◌>>◌}
use stellar_voice_control_pr.Agent.{AgentThrown}
use stellar_voice_control_pr.Agent.Language.{LanguageDecision}
use stellar_voice_control_pr.Agent.Answer.{
  AgentTool, LlmTurn, TurnState, TurnOptions, Gathered, AgentTurnResult, gathered_nothing,
  agent_status, thinking, result_of, language_text, answer_of,
}
use stellar_voice_control_pr.Agent.Turn.{
  run_calls, settle_dialog, announce, finish_turn, decided_text, decided_language, answer_turn,
  try_turn, close_turn, run_turn, open_dialog, prompt_for, call_world,
}
use stellar_voice_control_pr.Agent.Turn.Runs.{free_calls, run_all, names_of, Ran, run_calls-Ran}

announce-world :
    {W : Type 0} (results : List Text) (answer : Text) (language : Option Text) (s : TurnState W)
    → (announce results answer language s).1.world ≡ s.world
unfolding announce
announce-world [] answer language s = refl
announce-world (r ∷ rs) answer language s = refl

module _ {W X N : Type 0} (opts : TurnOptions W X) where
  settle_dialog-world :
      (g : Gathered N) (answer : Text) (s : TurnState W)
      → (settle_dialog opts g answer s).1.world ≡ s.world
  unfolding settle_dialog
  settle_dialog-world g answer s = refl

module _ {W X Y N : Type 0} where
  module _ (opts : TurnOptions W X) where
    -- What a returned turn reports as run, and the world it leaves.
    abbrev Executes :
        List (AgentTool W X Y N × X)
        → W
        → Result AgentThrown (AgentTurnResult N) × TurnState W
        → Type 0
    Executes calls w (ok r, t) = (r.executed_tools ≡ names_of calls) × (t.world ≡ run_all calls w)
    Executes calls w (err e, t) = Unit

    finish_turn-Executes :
        (calls : List (AgentTool W X Y N × X)) (w : W) (text : Option Text)
        (language : LanguageDecision) (g : Gathered N) (t : TurnState W)
        → g.executed_tools ≡ names_of calls
        → t.world ≡ run_all calls w
        → Executes calls w (finish_turn opts text language g t)
    unfolding finish_turn
    finish_turn-Executes calls w text language g t p q =
        >>=_rule (λ x. x.1.world ≡ t.world) (Executes calls w)
          (settle_dialog opts g (answer_of text g))
          (λ _.
            announce g.tool_results (answer_of text g) (language_text language)
            >> pure (result_of text language g))
          t (settle_dialog-world opts g (answer_of text g) t)
          (λ a u e.
            >>=_rule (λ x. x.1.world ≡ u.world) (Executes calls w)
              (announce g.tool_results (answer_of text g) (language_text language))
              (λ _. pure (result_of text language g)) u
              (announce-world g.tool_results (answer_of text g) (language_text language) u)
              (λ b v e'. (p, e' ∙ e ∙ q)) (λ f v h. tt))
          (λ f u h. tt)

    module _ (tools : List (AgentTool W X Y N)) where
      answer_turn-Executes :
          (first : LlmTurn X) (s : TurnState W)
          → Executes (free_calls tools first.tool_calls) s.world (answer_turn opts tools first s)
      unfolding answer_turn
      answer_turn-Executes first s =
          >>=_rule (Ran calls gathered_nothing s) (Executes calls s.world)
            (run_calls opts (decided_text opts first) tools first.tool_calls gathered_nothing)
            (finish_turn opts first.text (decided_language opts first)) s
            (run_calls-Ran opts (decided_text opts first) tools first.tool_calls gathered_nothing s)
            (λ g t (p, q).
              finish_turn-Executes calls s.world first.text (decided_language opts first) g t p q)
            (λ e t h. tt)
        where
          calls : List (AgentTool W X Y N × X)
          calls = free_calls tools first.tool_calls

      -- A returned turn ran the free calls of what the model answered to the prompt, and no other.
      abbrev RunsFree : TurnState W → Result AgentThrown (AgentTurnResult N) × TurnState W → Type 0
      RunsFree s (ok r, t) =
          (first : LlmTurn X) × (w : W) × (opts.turn (prompt_for opts tools s.dialog) s.world
            ≡ (ok first, w))
          × (r.executed_tools ≡ names_of (free_calls tools first.tool_calls))
          × (t.world ≡ run_all (free_calls tools first.tool_calls) w)
      RunsFree s (err e, t) = Unit

      try_turn-RunsFree :
          (s t : TurnState W)
          → t.world ≡ s.world
          → RunsFree s (try_turn opts tools (prompt_for opts tools s.dialog) t)
      unfolding try_turn
      try_turn-RunsFree s t p =
          >>=_rule (λ x. opts.turn (prompt_for opts tools s.dialog) s.world ≡ (x.0, x.1.world))
            (RunsFree s) (call_world (opts.turn (prompt_for opts tools s.dialog)))
            (answer_turn opts tools) (record t { events = t.events ++ agent_status thinking ∷ [] })
            (ap (opts.turn (prompt_for opts tools s.dialog)) (sym p))
            (λ first u e.
              asked first u e (answer_turn opts tools first u) (answer_turn-Executes first u))
            (λ e u h. tt)
        where
          asked :
              (first : LlmTurn X) (u : TurnState W)
              → opts.turn (prompt_for opts tools s.dialog) s.world ≡ (ok first, u.world)
              → (x : Result AgentThrown (AgentTurnResult N) × TurnState W)
              → Executes (free_calls tools first.tool_calls) u.world x
              → RunsFree s x
          asked first u e (ok r, v) (p, q) = (first, u.world, e, p, q)
          asked first u e (err f, v) h = tt

      close_turn-RunsFree :
          (s : TurnState W) (x : Result AgentThrown (AgentTurnResult N) × TurnState W)
          → RunsFree s x
          → RunsFree s (close_turn opts tools x)
      unfolding close_turn
      close_turn-RunsFree s (ok r, t) h = h
      close_turn-RunsFree s (err e, t) h = tt

      run_turn_lem : (s : TurnState W) → RunsFree s (run_turn opts tools s)
      unfolding run_turn
      run_turn_lem s = close_turn-RunsFree s _ (
          try_turn-RunsFree s
            (record s {
              dialog = elim s.dialog [ none ↦ none | some d ↦ some (open_dialog opts tools d) ];
            })
            refl)

      -- A turn that returns a result ran exactly the calls of tools that need no approval, in the
      -- order of the model's answer to the prompt: it reports their names in this order, and the
      -- world it leaves is the one behind the model's answer with these runs made one after the
      -- other. No tool that needs approval was run.
      pub executed_are_free :
          (s t : TurnState W) (r : AgentTurnResult N)
          → run_turn opts tools s ≡ (ok r, t)
          → (first : LlmTurn X) × (w : W) × (opts.turn (prompt_for opts tools s.dialog) s.world
              ≡ (ok first, w))
            × (r.executed_tools ≡ names_of (free_calls tools first.tool_calls))
            × (t.world ≡ run_all (free_calls tools first.tool_calls) w)
      executed_are_free s t r e = subst (λ x. RunsFree s x) e (run_turn_lem s)
