-- ===== src/Agent/Turn/Settles.antt =====
-- What a turn of the agent (agent/src/loop.ts) emits.
use stellar_voice_control_pr.Common.{
  ◌≡◌, refl, sym, ap, ◌∙◌, append_assoc, append-nil, none, some, true, false, Bool, Option, List,
  [], ◌∷◌, ◌++◌, Result, ok, err, All, All-append,
}
use stellar_voice_control_pr.Common.Text.{Text}
use stellar_voice_control_pr.Common.Action.{pure, >>=_rule, ◌>>=◌, ◌>>◌}
use stellar_voice_control_pr.Agent.{
  AgentThrown, agent_error, other_error, message_text, Intent, input, config, auth, network, http,
  malformed, unknown_tool,
}
use stellar_voice_control_pr.Agent.Dialog.{DialogMemory}
use stellar_voice_control_pr.Agent.Language.{LanguageDecision}
use stellar_voice_control_pr.Agent.Answer.{
  Turn, TurnState, TurnOptions, AgentTool, LlmToolCall, LlmTurn, TurnEvent, agent_status,
  error_event, transcript_event, done, thinking, tool_call, awaiting_approval, Gathered,
  AgentTurnResult, get_tool,
}
use stellar_voice_control_pr.Agent.Turn.{
  emit, call_world, check, with_dialog, refuse_input, after_intent, propose, run_tool_call,
  propose_intent, use_gated, use_found, run_call, run_calls, announce, finish_turn, answer_turn,
  try_turn, close_turn, run_turn, open_dialog, prompt_for,
}

-- An event that neither settles the turn nor reports an error.
abbrev pub IsQuiet : TurnEvent → Type 0
IsQuiet (agent_status done) = ⊥
IsQuiet (agent_status thinking) = Unit
IsQuiet (agent_status awaiting_approval) = Unit
IsQuiet (agent_status tool_call) = Unit
IsQuiet (transcript_event text language) = Unit
IsQuiet (error_event message) = ⊥

module _ {W : Type 0} where
  abbrev Adds : {A : Type 0} → TurnState W → Result AgentThrown A × TurnState W → Type 0
  Adds s x = (more : List TurnEvent) × (x.1.events ≡ s.events ++ more) × All IsQuiet more

  -- The step adds quiet events at the end.
  abbrev Emits : {A : Type 0} → Turn W A → Type 0
  Emits m = (s : TurnState W) → Adds s (m s)

  unchanged :
      (s : TurnState W) → (more : List TurnEvent) × (s.events ≡ s.events ++ more) × All IsQuiet more
  unchanged s = ([], sym (append-nil s.events), tt)

  >>=-Emits :
      {A B : Type 0} (m : Turn W A) (f : A → Turn W B)
      → Emits m
      → ((a : A) → Emits (f a))
      → Emits (m >>= f)
  >>=-Emits {A} {B} m f qm qf s =
      >>=_rule (Adds s) (Adds s) m f s (qm s)
        (λ a t h.
          let (ys, p, q) = qf a t in
          (
            h.0 ++ ys,
            p ∙ ap (λ zs. zs ++ ys) h.1 ∙ append_assoc s.events h.0 ys,
            All-append IsQuiet h.0 ys h.2 q,
          ))
        (λ e t h. h)

  >>-Emits : {A B : Type 0} (m : Turn W A) (k : Turn W B) → Emits m → Emits k → Emits (m >> k)
  >>-Emits m k qm qk = >>=-Emits m (λ _. k) qm (λ _. qk)

  pure-Emits : {A : Type 0} (a : A) → Emits (λ (s : TurnState W). pure a s)
  pure-Emits a s = unchanged s

  check-Emits : {A : Type 0} (r : Result AgentThrown A) → Emits (λ s. check r s)
  check-Emits r s = unchanged s

  call_world-Emits : {A : Type 0} (f : W → Result AgentThrown A × W) → Emits (call_world f)
  call_world-Emits f s = unchanged s

  with_dialog-Emits : (f : DialogMemory → DialogMemory) → Emits (with_dialog f)
  with_dialog-Emits f s = unchanged s

  emit-Emits : (e : TurnEvent) → IsQuiet e → Emits (emit e)
  emit-Emits e q s = (e ∷ [], refl, (q, tt))

  ruleset emitting =
      (>>=-Emits, >>-Emits, pure-Emits, check-Emits, call_world-Emits, with_dialog-Emits)

  module _ {X N : Type 0} (opts : TurnOptions W X) (language : Option Text) where
    refuse_input-Emits : (e : AgentThrown) (g : Gathered N) → Emits (refuse_input opts language e g)
    unfolding refuse_input
    refuse_input-Emits (agent_error input detail (some draft)) g s = search emitting depth 6
    refuse_input-Emits (agent_error input detail none) g s = unchanged s
    refuse_input-Emits (agent_error config detail d) g s = unchanged s
    refuse_input-Emits (agent_error auth detail d) g s = unchanged s
    refuse_input-Emits (agent_error network detail d) g s = unchanged s
    refuse_input-Emits (agent_error http detail d) g s = unchanged s
    refuse_input-Emits (agent_error malformed detail d) g s = unchanged s
    refuse_input-Emits (agent_error unknown_tool detail d) g s = unchanged s
    refuse_input-Emits (other_error message) g s = unchanged s

    after_intent-Emits :
        (name : Text) (r : Result AgentThrown Intent) (g : Gathered N)
        → Emits (after_intent opts language name r g)
    unfolding after_intent
    after_intent-Emits name (ok intent) g s =
        search (emitting, emit-Emits (agent_status awaiting_approval) tt) depth 6
    after_intent-Emits name (err e) g s = refuse_input-Emits e g s

    propose_intent-Emits :
        (name : Text) (o : Option (X → Result AgentThrown Intent)) (x : X) (g : Gathered N)
        → Emits (propose_intent opts language name o x g)
    unfolding propose_intent
    propose_intent-Emits name none x g s = unchanged s
    propose_intent-Emits name (some f) x g s = after_intent-Emits name (f x) g s

    module _ {Y : Type 0} where
      propose-Emits :
          (tool : AgentTool W X Y N) (x : X) (g : Gathered N) (o : Option N)
          → Emits (propose opts language tool x g o)
      unfolding propose
      propose-Emits tool x g (some n) s = unchanged s
      propose-Emits tool x g none s = propose_intent-Emits tool.name tool.to_intent x g s

      run_tool_call-Emits :
          (tool : AgentTool W X Y N) (x : X) (g : Gathered N)
          → Emits (run_tool_call opts language tool x g)
      unfolding run_tool_call
      run_tool_call-Emits tool x g =
          search (emitting, emit-Emits (agent_status tool_call) tt) depth 10

      use_gated-Emits :
          (b : Bool) (tool : AgentTool W X Y N) (x : X) (g : Gathered N)
          → Emits (use_gated opts language b tool x g)
      unfolding use_gated
      use_gated-Emits true tool x g s =
          >>=-Emits (check (tool.to_navigation_for x)) (propose opts language tool x g)
            (check-Emits (tool.to_navigation_for x)) (propose-Emits tool x g) s
      use_gated-Emits false tool x g s = run_tool_call-Emits tool x g s

      use_found-Emits :
          (call : LlmToolCall X) (o : Option (AgentTool W X Y N)) (g : Gathered N)
          → Emits (use_found opts language call o g)
      unfolding use_found
      use_found-Emits call none g s = unchanged s
      use_found-Emits call (some tool) g s =
          use_gated-Emits tool.requires_approval tool call.argument g s

      run_call-Emits :
          (tools : List (AgentTool W X Y N)) (call : LlmToolCall X) (g : Gathered N)
          → Emits (run_call opts language tools call g)
      unfolding run_call
      run_call-Emits tools call g = use_found-Emits call (get_tool call.name tools) g

      run_calls-Emits :
          (tools : List (AgentTool W X Y N)) (calls : List (LlmToolCall X)) (g : Gathered N)
          → Emits (run_calls opts language tools calls g)
      unfolding run_calls
      run_calls-Emits tools [] g s = pure-Emits g s
      run_calls-Emits tools (call ∷ calls) g s =
          >>=-Emits (run_call opts language tools call g) (run_calls opts language tools calls)
            (run_call-Emits tools call g) (run_calls-Emits tools calls) s

  announce-Emits :
      (results : List Text) (answer : Text) (language : Option Text)
      → Emits (announce results answer language)
  unfolding announce
  announce-Emits [] answer language s = unchanged s
  announce-Emits (r ∷ rs) answer language s = emit-Emits (transcript_event answer language) tt s

  module _ {X N : Type 0} (opts : TurnOptions W X) where
    finish_turn-Emits :
        (text : Option Text) (language : LanguageDecision) (g : Gathered N)
        → Emits (finish_turn opts text language g)
    unfolding finish_turn
    finish_turn-Emits text language g = search (emitting, announce-Emits) depth 8

    module _ {Y : Type 0} (tools : List (AgentTool W X Y N)) where
      answer_turn-Emits : (first : LlmTurn X) → Emits (answer_turn opts tools first)
      unfolding answer_turn
      answer_turn-Emits first = search (>>=-Emits, run_calls-Emits, finish_turn-Emits) depth 6

      try_turn-Emits : (prompt : Text) → Emits (try_turn opts tools prompt)
      unfolding try_turn
      try_turn-Emits prompt =
          search (emitting, answer_turn-Emits, emit-Emits (agent_status thinking) tt) depth 8

      -- How a turn settles.
      abbrev pub Settles :
          TurnState W → Result AgentThrown (AgentTurnResult N) × TurnState W → Type 0
      Settles s (ok r, t) =
          (quiet : List TurnEvent) × (t.events ≡ (s.events ++ quiet) ++ agent_status done ∷ [])
          × All IsQuiet quiet
      Settles s (err e, t) =
          (quiet : List TurnEvent) × (t.events
            ≡ ((s.events ++ quiet) ++ error_event (message_text e) ∷ []) ++ agent_status done ∷ [])
          × All IsQuiet quiet

      close_turn-Settles :
          (s : TurnState W) (x : Result AgentThrown (AgentTurnResult N) × TurnState W)
          → Adds s x
          → Settles s (close_turn opts tools x)
      unfolding close_turn
      close_turn-Settles s (ok r, t) (quiet, p, q) = (quiet, rw p refl, q)
      close_turn-Settles s (err e, t) (quiet, p, q) = (quiet, rw p refl, q)

      -- Every turn settles its stage, whatever the model and the tools do: the last event that it
      -- emits, and the only one of its kind, says that the turn is done. Just before it an error is
      -- reported exactly if the turn throws, with the message of what is thrown, and no other error
      -- is.
      pub run_turn-Settles : (s : TurnState W) → Settles s (run_turn opts tools s)
      unfolding run_turn
      run_turn-Settles s = close_turn-Settles s _ (
          >>-Emits (with_dialog (open_dialog opts tools))
            (try_turn opts tools (prompt_for opts tools s.dialog))
            (with_dialog-Emits (open_dialog opts tools))
            (try_turn-Emits (prompt_for opts tools s.dialog)) s)
