-- ===== src/Agent/Turn/Proposals.antt =====
-- What the loop over the calls of a turn (agent/src/loop.ts) gathers as proposals.
use stellar_voice_control_pr.Common.{
  ◌≡◌, refl, true, false, Bool, none, some, Option, List, [], ◌∷◌, Result, ok, err, arith, All,
  All-append,
}
use stellar_voice_control_pr.Common.Text.{Text}
use stellar_voice_control_pr.Common.Action.{>>=_rule}
use stellar_voice_control_pr.Agent.{
  AgentThrown, agent_error, other_error, Intent, input, config, auth, network, http, malformed,
  unknown_tool,
}
use stellar_voice_control_pr.Agent.Answer.{
  TurnState, TurnOptions, AgentTool, LlmToolCall, Gathered, get_tool,
}
use stellar_voice_control_pr.Agent.Turn.{
  refuse_input, after_intent, propose_intent, propose, run_tool_call, use_gated, use_found,
  run_call, run_calls, check,
}

module _ {W X Y N : Type 0} where
  -- The call gives an intent of its tool.
  abbrev pub Proposes : List (AgentTool W X Y N) → Text × Intent → LlmToolCall X → Type 0
  Proposes tools ti call =
      (tool : AgentTool W X Y N) × (to_intent : X → Result AgentThrown Intent) × (get_tool call.name
          tools
        ≡ some tool)
      × (tool.requires_approval ≡ true)
      × (tool.to_intent ≡ some to_intent)
      × (to_intent call.argument ≡ ok ti.1)
      × (ti.0 ≡ tool.name)

module _ {W X N : Type 0} (opts : TurnOptions W X) (language : Option Text)
    (P : Text × Intent → Type 0) where
  -- What was gathered are proposals.
  abbrev pub Keeps : Result AgentThrown (Gathered N) × TurnState W → Type 0
  Keeps (ok g, t) = All P g.intents
  Keeps (err e, t) = Unit

  refuse_input-Keeps :
      (e : AgentThrown) (g : Gathered N) (s : TurnState W)
      → All P g.intents
      → Keeps (refuse_input opts language e g s)
  unfolding refuse_input
  refuse_input-Keeps (agent_error input detail (some draft)) g s h = h
  refuse_input-Keeps (agent_error input detail none) g s h = h
  refuse_input-Keeps (agent_error config detail d) g s h = tt
  refuse_input-Keeps (agent_error auth detail d) g s h = tt
  refuse_input-Keeps (agent_error network detail d) g s h = tt
  refuse_input-Keeps (agent_error http detail d) g s h = tt
  refuse_input-Keeps (agent_error malformed detail d) g s h = tt
  refuse_input-Keeps (agent_error unknown_tool detail d) g s h = tt
  refuse_input-Keeps (other_error message) g s h = tt

  after_intent-Keeps :
      (name : Text) (r : Result AgentThrown Intent) (g : Gathered N) (s : TurnState W)
      → ((i : Intent) → r ≡ ok i → P (name, i))
      → All P g.intents
      → Keeps (after_intent opts language name r g s)
  unfolding after_intent
  after_intent-Keeps name (ok i) g s k h = All-append P g.intents ((name, i) ∷ []) h (k i refl, tt)
  after_intent-Keeps name (err e) g s k h = refuse_input-Keeps e g s h

  propose_intent-Keeps :
      (name : Text) (o : Option (X → Result AgentThrown Intent)) (x : X) (g : Gathered N)
      (s : TurnState W)
      → ((f : X → Result AgentThrown Intent) (i : Intent) → o ≡ some f → f x ≡ ok i → P (name, i))
      → All P g.intents
      → Keeps (propose_intent opts language name o x g s)
  unfolding propose_intent
  propose_intent-Keeps name none x g s k h = tt
  propose_intent-Keeps name (some f) x g s k h =
      after_intent-Keeps name (f x) g s (λ i e. k f i refl e) h

  module _ {Y : Type 0} where
    run_tool_call-Keeps :
        (tool : AgentTool W X Y N) (x : X) (g : Gathered N) (s : TurnState W)
        → All P g.intents
        → Keeps (run_tool_call opts language tool x g s)
    unfolding run_tool_call
    run_tool_call-Keeps tool x g s h = ground arith

    use_gated-Keeps :
        (tools : List (AgentTool W X Y N)) (call : LlmToolCall X) (tool : AgentTool W X Y N)
        (b : Bool) (g : Gathered N) (s : TurnState W)
        → get_tool call.name tools ≡ some tool
        → tool.requires_approval ≡ b
        → ((ti : Text × Intent) → Proposes tools ti call → P ti)
        → All P g.intents
        → Keeps (use_gated opts language b tool call.argument g s)
    unfolding use_gated
    use_gated-Keeps tools call tool false g s found gated k h =
        run_tool_call-Keeps tool call.argument g s h
    use_gated-Keeps tools call tool true g s found gated k h =
        >>=_rule (λ x. Unit {0}) Keeps (check (tool.to_navigation_for call.argument))
          (propose opts language tool call.argument g) s tt (λ o t _. proposed o t) (λ e t _. tt)
      where
        proposed :
            (o : Option N) (t : TurnState W)
            → Keeps (propose opts language tool call.argument g o t)
        proposed (some n) t = h
        proposed none t =
            propose_intent-Keeps tool.name tool.to_intent call.argument g t
              (λ f i p e. k (tool.name, i) (tool, f, found, gated, p, e, refl)) h

    use_found-Keeps :
        (tools : List (AgentTool W X Y N)) (call : LlmToolCall X) (o : Option (AgentTool W X Y N))
        (g : Gathered N) (s : TurnState W)
        → get_tool call.name tools ≡ o
        → ((ti : Text × Intent) → Proposes tools ti call → P ti)
        → All P g.intents
        → Keeps (use_found opts language call o g s)
    unfolding use_found
    use_found-Keeps tools call none g s found k h = tt
    use_found-Keeps tools call (some tool) g s found k h =
        use_gated-Keeps tools call tool tool.requires_approval g s found refl k h

    pub run_calls-Keeps :
        (tools : List (AgentTool W X Y N)) (calls : List (LlmToolCall X)) (g : Gathered N)
        (s : TurnState W)
        → All (λ call. (ti : Text × Intent) → Proposes tools ti call → P ti) calls
        → All P g.intents
        → Keeps (run_calls opts language tools calls g s)
    unfolding run_calls run_call
    run_calls-Keeps tools [] g s k h = h
    run_calls-Keeps tools (call ∷ calls) g s k h =
        >>=_rule Keeps Keeps (run_call opts language tools call g)
          (run_calls opts language tools calls) s
          (use_found-Keeps tools call (get_tool call.name tools) g s refl k.0 h)
          (λ g' t h'. run_calls-Keeps tools calls g' t k.1 h') (λ e t h'. h')
