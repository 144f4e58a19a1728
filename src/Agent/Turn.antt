-- ===== src/Agent/Turn.antt =====
-- One turn of the agent: `runTurn` of agent/src/loop.ts. The model and the tools are parameters on a
-- type of worlds; a tool is given with its context, which a turn does not change. Beside the world
-- the state holds the events that were emitted and the conversation memory, if there is one. The
-- clock, the decorated system prompt and `toLowerCase` enter as values, `JSON.stringify` with the
-- tool that it prints.
pub mod Settles
pub mod Proposals
pub mod Gate
pub mod Runs
pub mod Execution
use stellar_voice_control_pr.Common.{
  ℕ, Bool, true, false, not, ◌||◌, ltb, Option, none, some, List, [], ◌∷◌, ◌++◌, String, Result, ok,
  err, length, if◌then◌else◌,
}
use stellar_voice_control_pr.Common.Text.{Text, codes}
use stellar_voice_control_pr.Common.Action.{pure, throw, ◌>>=◌, ◌>>◌}
use stellar_voice_control_pr.TurnFlow.{text_eq, is_blank}
use stellar_voice_control_pr.Agent.{
  AgentErrorKind, config, unknown_tool, input, Draft, AgentThrown, agent_error, other_error,
  message_text, Intent, describe_intent,
}
use stellar_voice_control_pr.Agent.Language.{
  LanguageSource, LanguageDecision, resolve_turn_language,
}
use stellar_voice_control_pr.Agent.Dialog.{
  DialogMemory, empty_memory, user, assistant, push, set_pending, read_pending, context_block, join,
  clarification_sentence, is_cancel_utterance,
}
use stellar_voice_control_pr.Agent.Answer.{
  LlmToolCall, LlmTurn, AgentTool, get_tool, Stage, TurnEvent, TurnState, Gathered, AgentTurnResult,
  TurnOptions, Turn, gathered_nothing, or_clarify, with_some, spoken_of, first_element,
  language_text, repeat_request, resolved_of, told, answer_of_tools, answer_of, navigation_of,
  is_closed, spoken_language, result_of, agent_status, transcript_event, error_event, thinking,
  awaiting_approval, tool_call, done,
}

module _ {W X : Type 0} (opts : TurnOptions W X) where
  unfoldable pub decided_language : LlmTurn X → LanguageDecision
  unfolding resolve_turn_language
  decided_language first = resolve_turn_language opts.lower opts.transcript_language first.language

  abbrev pub decided_text : LlmTurn X → Option Text
  decided_text first = language_text (decided_language first)

module _ {W : Type 0} where
  abbrev pub emit : TurnEvent → Turn W (Unit {0})
  emit e s = (ok tt, record s { events = s.events ++ e ∷ [] })

  -- A call of the model or of a tool.
  abbrev pub call_world : {A : Type 0} → (W → Result AgentThrown A × W) → Turn W A
  call_world f s = let (r, w) = f s.world in (r, record s { world = w })

  abbrev pub check : {A : Type 0} → Result AgentThrown A → Turn W A
  check r s = (r, s)

  -- `dialog?.…`
  abbrev pub with_dialog : (DialogMemory → DialogMemory) → Turn W (Unit {0})
  with_dialog f s =
      (ok tt, record s { dialog = elim s.dialog [ none ↦ none | some d ↦ some (f d) ] })

  module _ {X N : Type 0} (opts : TurnOptions W X) (language : Option Text) where
    -- The `catch` around `toIntent`.
    unfoldable pub refuse_input : AgentThrown → Gathered N → Turn W (Gathered N)
    unfolding set_pending clarification_sentence
    refuse_input (agent_error input detail (some draft)) g = do
      with_dialog (set_pending draft opts.now)
      pure (record g {
        clarification =
            or_clarify g.clarification (clarification_sentence opts.lower draft.question language);
      })
    refuse_input (agent_error input detail none) g =
        pure (record g { clarification = or_clarify g.clarification (repeat_request detail) })
    refuse_input e g = throw e

    unfoldable pub after_intent :
        Text → Result AgentThrown Intent → Gathered N → Turn W (Gathered N)
    unfolding refuse_input
    after_intent name (ok intent) g = do
      emit (agent_status awaiting_approval)
      pure (record g { intents = g.intents ++ (name, intent) ∷ [] })
    after_intent name (err e) g = refuse_input e g

    -- The intent of an approval-gated tool.
    unfoldable pub propose_intent :
        Text → Option (X → Result AgentThrown Intent) → X → Gathered N → Turn W (Gathered N)
    unfolding after_intent
    propose_intent name none x g = throw (
        agent_error config
          (codes "approval-gated tool " ++ (name ++ codes " does not implement toIntent()")) none)
    propose_intent name (some to_intent) x g = after_intent name (to_intent x) g

    module _ {Y : Type 0} where
      -- An approval-gated tool: it opens a screen, or gives an intent.
      unfoldable pub propose : AgentTool W X Y N → X → Gathered N → Option N → Turn W (Gathered N)
      unfolding propose_intent
      propose tool x g (some n) = pure (record g { navigations = g.navigations ++ n ∷ [] })
      propose tool x g none = propose_intent tool.name tool.to_intent x g

      -- What a tool that was run adds.
      abbrev pub ran : AgentTool W X Y N → Y → Gathered N → Option Text → Option N → Gathered N
      ran tool output g spoken n = record g {
        executed_tools = g.executed_tools ++ tool.name ∷ [];
        tool_results = g.tool_results ++ (tool.name ++ (codes " -> " ++ tool.show output)) ∷ [];
        spoken_results = with_some g.spoken_results (spoken_of spoken);
        navigations = with_some g.navigations n;
      }

      unfoldable pub run_tool_call : AgentTool W X Y N → X → Gathered N → Turn W (Gathered N)
      run_tool_call tool x g = do
        emit (agent_status tool_call)
        output ← call_world (tool.run x)
        spoken ← check (tool.to_speech output)
        n ← check (tool.to_navigation output)
        pure (ran tool output g spoken n)

      -- `if (tool.requiresApproval)`
      unfoldable pub use_gated : Bool → AgentTool W X Y N → X → Gathered N → Turn W (Gathered N)
      unfolding propose run_tool_call
      use_gated true tool x g = check (tool.to_navigation_for x) >>= propose tool x g
      use_gated false tool x g = run_tool_call tool x g

      -- A call, with the tool of its name.
      unfoldable pub use_found :
          LlmToolCall X → Option (AgentTool W X Y N) → Gathered N → Turn W (Gathered N)
      unfolding use_gated
      use_found call none g =
          throw
            (agent_error unknown_tool (codes "model requested unknown tool: " ++ call.name) none)
      use_found call (some tool) g = use_gated tool.requires_approval tool call.argument g

      -- One round of the loop over the calls.
      unfoldable pub run_call :
          List (AgentTool W X Y N) → LlmToolCall X → Gathered N → Turn W (Gathered N)
      unfolding get_tool use_found
      run_call tools call g = use_found call (get_tool call.name tools) g

      unfoldable pub run_calls :
          List (AgentTool W X Y N) → List (LlmToolCall X) → Gathered N → Turn W (Gathered N)
      unfolding run_call
      run_calls tools [] g = pure g
      run_calls tools (call ∷ calls) g = run_call tools call g >>= run_calls tools calls

  -- `if (toolResults.length > 0) bus.emit(…)`
  unfoldable pub announce : List Text → Text → Option Text → Turn W (Unit {0})
  announce [] answer language = pure tt
  announce (r ∷ rs) answer language = emit (transcript_event answer language)

  module _ {X N : Type 0} (opts : TurnOptions W X) where
    -- The dialogue is settled for the next utterance.
    unfoldable pub settle_dialog : Gathered N → Text → Turn W (Unit {0})
    unfolding is_cancel_utterance is_closed push
    settle_dialog g answer = with_dialog (λ d.
        if is_cancel_utterance opts.decompose opts.transcript || is_closed g
        then empty_memory
        else push assistant answer d)

    -- `runTurn` behind the loop over the calls.
    unfoldable pub finish_turn :
        Option Text → LanguageDecision → Gathered N → Turn W (AgentTurnResult N)
    unfolding settle_dialog announce answer_of resolved_of navigation_of
    finish_turn text language g = do
      settle_dialog g (answer_of text g)
      announce g.tool_results (answer_of text g) (language_text language)
      pure (result_of text language g)

    module _ {Y : Type 0} (tools : List (AgentTool W X Y N)) where
      -- `runTurn` behind the answer of the model.
      unfoldable pub answer_turn : LlmTurn X → Turn W (AgentTurnResult N)
      unfolding decided_language run_calls finish_turn
      answer_turn first =
          run_calls opts (decided_text opts first) tools first.tool_calls gathered_nothing
          >>= finish_turn first.text (decided_language opts first)

      -- The `try` block.
      unfoldable pub try_turn : Text → Turn W (AgentTurnResult N)
      unfolding answer_turn
      try_turn prompt = do
        emit (agent_status thinking)
        first ← call_world (opts.turn prompt)
        answer_turn first

      -- The `catch` and the `finally` block.
      unfoldable pub close_turn :
          Result AgentThrown (AgentTurnResult N) × TurnState W
          → Result AgentThrown (AgentTurnResult N) × TurnState W
      unfolding message_text
      close_turn (ok r, s) = (ok r, record s { events = s.events ++ agent_status done ∷ [] })
      close_turn (err e, s) = (
        err e,
        record s {
          events = (s.events ++ error_event (message_text e) ∷ []) ++ agent_status done ∷ [];
        },
      )

      abbrev pub block_for : Option DialogMemory → Text
      block_for none = []
      block_for (some d) = (context_block opts.now d).0

      -- The prompt, from the memory before the turn.
      unfoldable pub prompt_for : Option DialogMemory → Text
      unfolding context_block
      prompt_for d = elim (block_for d) [
        | [] ↦ opts.system
        | c ∷ s ↦ opts.system ++ (codes "\n\n" ++ (c ∷ s))
      ]

      -- The read of the memory, and `recordUser`.
      unfoldable pub open_dialog : DialogMemory → DialogMemory
      unfolding read_pending push
      open_dialog d = push user opts.transcript (read_pending opts.now d)

      -- `runTurn`
      unfoldable pub run_turn : Turn W (AgentTurnResult N)
      unfolding prompt_for open_dialog try_turn close_turn
      run_turn s = close_turn ((with_dialog open_dialog >> try_turn (prompt_for s.dialog)) s)
