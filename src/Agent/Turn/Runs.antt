-- ===== src/Agent/Turn/Runs.antt =====
-- Which calls the loop of a turn (agent/src/loop.ts) runs.
use stellar_voice_control_pr.Common.{
  ◌≡◌, refl, sym, ap, ◌∙◌, append_assoc, append-nil, true, false, Bool, none, some, Option, List,
  [], ◌∷◌, ◌++◌, map, Result, ok, err, arith,
}
use mathlib.Core.Path.{subst}
use stellar_voice_control_pr.Common.Text.{Text}
use stellar_voice_control_pr.Common.Action.{>>=_rule}
use stellar_voice_control_pr.Agent.{
  AgentThrown, agent_error, other_error, Intent, input, config, auth, network, http, malformed,
  unknown_tool,
}
use stellar_voice_control_pr.Agent.Answer.{
  AgentTool, LlmToolCall, TurnState, TurnOptions, Gathered, get_tool,
}
use stellar_voice_control_pr.Agent.Turn.{
  refuse_input, after_intent, propose_intent, propose, run_tool_call, use_gated, use_found,
  run_call, run_calls, check,
}

module _ {W N : Type 0} where
  idle :
      (g : Gathered N) (s : TurnState W)
      → (g.executed_tools ≡ g.executed_tools ++ []) × (s.world ≡ s.world)
  idle g s = (sym (append-nil g.executed_tools), refl)

module _ {W X Y N : Type 0} where
  -- The calls of tools that need no approval, each with its tool.
  abbrev free_of : Bool → AgentTool W X Y N → X → List (AgentTool W X Y N × X)
  free_of true tool x = []
  free_of false tool x = (tool, x) ∷ []

  abbrev free_found : Option (AgentTool W X Y N) → X → List (AgentTool W X Y N × X)
  free_found none x = []
  free_found (some tool) x = free_of tool.requires_approval tool x

  abbrev pub free_calls :
      List (AgentTool W X Y N) → List (LlmToolCall X) → List (AgentTool W X Y N × X)
  free_calls tools [] = []
  free_calls tools (call ∷ calls) =
      free_found (get_tool call.name tools) call.argument ++ free_calls tools calls

  -- The world that the calls leave.
  abbrev pub run_all : List (AgentTool W X Y N × X) → W → W
  run_all [] w = w
  run_all ((tool, x) ∷ calls) w = run_all calls (tool.run x w).1

  abbrev pub names_of : List (AgentTool W X Y N × X) → List Text
  names_of calls = map (λ c. c.0.name) calls

  names_of-append :
      (xs ys : List (AgentTool W X Y N × X)) → names_of (xs ++ ys) ≡ names_of xs ++ names_of ys
  names_of-append [] ys = refl
  names_of-append (x ∷ xs) ys = ap (λ zs. x.0.name ∷ zs) (names_of-append xs ys)

  run_all-append :
      (xs ys : List (AgentTool W X Y N × X)) (w : W)
      → run_all (xs ++ ys) w ≡ run_all ys (run_all xs w)
  run_all-append [] ys w = refl
  run_all-append ((tool, x) ∷ xs) ys w = run_all-append xs ys (tool.run x w).1

  -- A step that runs these calls, if it succeeds.
  abbrev pub Ran :
      List (AgentTool W X Y N × X)
      → Gathered N
      → TurnState W
      → Result AgentThrown (Gathered N) × TurnState W
      → Type 0
  Ran fs g s (ok h, t) =
      (h.executed_tools ≡ g.executed_tools ++ names_of fs) × (t.world ≡ run_all fs s.world)
  Ran fs g s (err e, t) = Unit

  Ran-∷ :
      (fs gs : List (AgentTool W X Y N × X)) (g h : Gathered N) (s t : TurnState W)
      (x : Result AgentThrown (Gathered N) × TurnState W)
      → Ran fs g s (ok h, t)
      → Ran gs h t x
      → Ran (fs ++ gs) g s x
  Ran-∷ fs gs g h s t (err e, u) a b = tt
  Ran-∷ fs gs g h s t (ok k, u) (p, q) (p', q') = (
    p'
        ∙ ap (λ zs. zs ++ names_of gs) p
        ∙ append_assoc g.executed_tools (names_of fs) (names_of gs)
        ∙ ap (λ zs. g.executed_tools ++ zs) (sym (names_of-append fs gs)),
    q' ∙ ap (run_all gs) q ∙ sym (run_all-append fs gs s.world),
  )

module _ {W X N : Type 0} (opts : TurnOptions W X) (language : Option Text) where
  refuse_input-Ran :
      (Y : Type 0) (e : AgentThrown) (g : Gathered N) (s : TurnState W)
      → Ran {X = X} {Y = Y} [] g s (refuse_input opts language e g s)
  unfolding refuse_input
  refuse_input-Ran Y (agent_error input detail (some draft)) g s = idle g s
  refuse_input-Ran Y (agent_error input detail none) g s = idle g s
  refuse_input-Ran Y (agent_error config detail d) g s = tt
  refuse_input-Ran Y (agent_error auth detail d) g s = tt
  refuse_input-Ran Y (agent_error network detail d) g s = tt
  refuse_input-Ran Y (agent_error http detail d) g s = tt
  refuse_input-Ran Y (agent_error malformed detail d) g s = tt
  refuse_input-Ran Y (agent_error unknown_tool detail d) g s = tt
  refuse_input-Ran Y (other_error message) g s = tt

module _ {W X Y N : Type 0} where
  module _ (opts : TurnOptions W X) (language : Option Text) where
    propose-Ran :
        (tool : AgentTool W X Y N) (x : X) (g : Gathered N) (o : Option N) (s : TurnState W)
        → Ran {X = X} {Y = Y} [] g s (propose opts language tool x g o s)
    unfolding propose after_intent propose_intent
    propose-Ran tool x g (some n) s = idle g s
    propose-Ran tool x g none s = asked tool.to_intent
      where
        after :
            (r : Result AgentThrown Intent)
            → Ran {X = X} {Y = Y} [] g s (after_intent opts language tool.name r g s)
        after (ok i) = idle g s
        after (err e) = refuse_input-Ran opts language Y e g s

        asked :
            (o : Option (X → Result AgentThrown Intent))
            → Ran {X = X} {Y = Y} [] g s (propose_intent opts language tool.name o x g s)
        asked none = tt
        asked (some f) = after (f x)

    run_tool_call-Ran :
        (tool : AgentTool W X Y N) (x : X) (g : Gathered N) (s : TurnState W)
        → Ran ((tool, x) ∷ []) g s (run_tool_call opts language tool x g s)
    unfolding run_tool_call
    run_tool_call-Ran tool x g s = ground arith

    use_gated-Ran :
        (b : Bool) (tool : AgentTool W X Y N) (x : X) (g : Gathered N) (s : TurnState W)
        → Ran (free_of b tool x) g s (use_gated opts language b tool x g s)
    unfolding use_gated
    use_gated-Ran false tool x g s = run_tool_call-Ran tool x g s
    use_gated-Ran true tool x g s =
        >>=_rule (λ y. y.1 ≡ s) (Ran {X = X} {Y = Y} [] g s) (check (tool.to_navigation_for x))
          (propose opts language tool x g) s refl
          (λ o t e.
            subst (λ u. Ran {X = X} {Y = Y} [] g u (propose opts language tool x g o t)) e
              (propose-Ran tool x g o t))
          (λ e t h. tt)

    use_found-Ran :
        (call : LlmToolCall X) (o : Option (AgentTool W X Y N)) (g : Gathered N) (s : TurnState W)
        → Ran (free_found o call.argument) g s (use_found opts language call o g s)
    unfolding use_found
    use_found-Ran call none g s = tt
    use_found-Ran call (some tool) g s = use_gated-Ran tool.requires_approval tool call.argument g s

    pub run_calls-Ran :
        (tools : List (AgentTool W X Y N)) (calls : List (LlmToolCall X)) (g : Gathered N)
        (s : TurnState W)
        → Ran (free_calls tools calls) g s (run_calls opts language tools calls g s)
    unfolding run_calls run_call
    run_calls-Ran tools [] g s = idle g s
    run_calls-Ran tools (call ∷ calls) g s =
        let found = get_tool call.name tools in
        >>=_rule (Ran (free_found found call.argument) g s)
          (Ran (free_calls tools (call ∷ calls)) g s) (run_call opts language tools call g)
          (run_calls opts language tools calls) s (use_found-Ran call found g s)
          (λ h t r.
            Ran-∷ (free_found found call.argument) (free_calls tools calls) g h s t
              (run_calls opts language tools calls h t) r (run_calls-Ran tools calls h t))
          (λ e t r. tt)
