-- ===== src/Agent/Turn/Gate.antt =====
-- What a turn of the agent (agent/src/loop.ts) proposes, and what it leaves alone.
use stellar_voice_control_pr.Common.{
  ◌≡◌, refl, sym, ap, true, none, some, Option, List, [], ◌∷◌, ◌++◌, Result, ok, err, arith, All,
  All-map, Has, inl, inr,
}
use mathlib.Core.Path.{subst}
use stellar_voice_control_pr.Common.Text.{Text}
use stellar_voice_control_pr.Common.Action.{pure, >>=_rule, ◌>>◌}
use stellar_voice_control_pr.Agent.{AgentThrown, Intent, describe_intent}
use stellar_voice_control_pr.Agent.Dialog.{DialogMemory, empty_memory}
use stellar_voice_control_pr.Agent.Language.{LanguageDecision}
use stellar_voice_control_pr.Agent.Answer.{
  TurnState, TurnOptions, AgentTool, LlmTurn, Gathered, AgentTurnResult, resolved_of, navigation_of,
  result_of, language_text, agent_status, thinking, gathered_nothing, answer_of, is_closed,
}
use stellar_voice_control_pr.Agent.Turn.{
  run_calls, settle_dialog, announce, finish_turn, answer_turn, try_turn, close_turn, run_turn,
  prompt_for, open_dialog, decided_text, decided_language, call_world,
}
use stellar_voice_control_pr.Agent.Turn.Proposals.{Proposes, Keeps, run_calls-Keeps}

-- The memory that a turn forgets.
abbrev pub IsForgotten : Option DialogMemory → Type 0
IsForgotten none = Unit
IsForgotten (some d) = d ≡ empty_memory

resolved_of_lem :
    {N : Type 0} (g : Gathered N) (ti : Text × Intent)
    → resolved_of g ≡ some ti
    → (g.intents ≡ ti ∷ []) × (g.clarification ≡ none)
unfolding resolved_of
resolved_of_lem g ti h = ground arith

module _ {N : Type 0} (g : Gathered N) (ti : Text × Intent) where
  intents_lem : (P : Text × Intent → Type 0) → g.intents ≡ ti ∷ [] → All P g.intents → P ti
  intents_lem P p h = (subst (λ is. All P is) p h).0

  navigation_of_lem : g.intents ≡ ti ∷ [] → navigation_of g ≡ none
  unfolding navigation_of
  navigation_of_lem p = ground arith

  is_closed_lem : resolved_of g ≡ some ti → is_closed g ≡ true
  unfolding is_closed
  is_closed_lem e = ground arith

-- Each element may be the one that has it.
All-Has_each :
    {A B : Type 0} (P : B → A → Type 0) (xs : List A) → All (λ x. (b : B) → P b x → Has (P b) xs) xs
All-Has_each P [] = tt
All-Has_each P (x ∷ xs) = (λ b h. inl h, All-map xs (λ y f b h. inr (f b h)) (All-Has_each P xs))

module _ {W X N : Type 0} (opts : TurnOptions W X) where
  abbrev Resolved :
      (Text × Intent → Type 0) → Result AgentThrown (AgentTurnResult N) × TurnState W → Type 0
  Resolved P (ok r, t) =
      (ti : Text × Intent)
      → r.intent ≡ some ti
      → P ti × (r.navigation ≡ none) × (r.answer ≡ describe_intent ti.1) × IsForgotten t.dialog
  Resolved P (err e, t) = Unit

  abbrev Forgets : Gathered N → {A : Type 0} → Result AgentThrown A × TurnState W → Type 0
  Forgets g x = is_closed g ≡ true → IsForgotten x.1.dialog

  settle_dialog-Forgets :
      (g : Gathered N) (answer : Text) (s : TurnState W) → Forgets g (settle_dialog opts g answer s)
  unfolding settle_dialog
  settle_dialog-Forgets g answer s h = ground arith

  announce-Forgets :
      (g : Gathered N) (results : List Text) (answer : Text) (language : Option Text)
      (s : TurnState W)
      → (is_closed g ≡ true → IsForgotten s.dialog)
      → Forgets g (announce results answer language s)
  unfolding announce
  announce-Forgets g [] answer language s h = h
  announce-Forgets g (r ∷ rs) answer language s h = h

  answer_of_lem :
      (text : Option Text) (g : Gathered N) (ti : Text × Intent)
      → g.intents ≡ ti ∷ []
      → g.clarification ≡ none
      → answer_of text g ≡ describe_intent ti.1
  unfolding answer_of
  answer_of_lem text g ti p q = ground arith

  finish_turn-Resolved :
      (P : Text × Intent → Type 0) (text : Option Text) (language : LanguageDecision)
      (g : Gathered N) (s : TurnState W)
      → All P g.intents
      → Resolved P (finish_turn opts text language g s)
  unfolding finish_turn navigation_of is_closed
  finish_turn-Resolved P text language g s h =
      >>=_rule (Forgets g) (Resolved P) (settle_dialog opts g (answer_of text g))
        (λ _.
          announce g.tool_results (answer_of text g) (language_text language)
          >> pure (result_of text language g))
        s (settle_dialog-Forgets g (answer_of text g) s)
        (λ a t q.
          >>=_rule (Forgets g) (Resolved P)
            (announce g.tool_results (answer_of text g) (language_text language))
            (λ _. pure (result_of text language g)) t
            (announce-Forgets g g.tool_results (answer_of text g) (language_text language) t q)
            (λ b u k ti e.
              let (p, c) = resolved_of_lem g ti e in
              (
                intents_lem g ti P p h,
                navigation_of_lem g ti p,
                answer_of_lem text g ti p c,
                k (is_closed_lem g ti e),
              ))
            (λ e u k. tt))
        (λ e t q. tt)

  module _ {Y : Type 0} (tools : List (AgentTool W X Y N)) where
    answer_turn-Resolved :
        (first : LlmTurn X) (s : TurnState W)
        → Resolved (λ ti. Has (Proposes tools ti) first.tool_calls) (answer_turn opts tools first s)
    unfolding answer_turn
    answer_turn-Resolved first s =
        >>=_rule (Keeps opts (decided_text opts first) P) (Resolved P)
          (run_calls opts (decided_text opts first) tools first.tool_calls gathered_nothing)
          (finish_turn opts first.text (decided_language opts first)) s
          (run_calls-Keeps opts (decided_text opts first) P tools first.tool_calls gathered_nothing
            s (All-Has_each (Proposes tools) first.tool_calls) tt)
          (λ g t h. finish_turn-Resolved P first.text (decided_language opts first) g t h)
          (λ e t h. tt)
      where
        P : Text × Intent → Type 0
        P ti = Has (Proposes tools ti) first.tool_calls

    -- What the model answered to the prompt asks for the intent.
    abbrev pub IsAsked : TurnState W → Text × Intent → Type 0
    IsAsked s ti =
        (first : LlmTurn X) × (w : W) × (opts.turn (prompt_for opts tools s.dialog) s.world
          ≡ (ok first, w))
        × Has (Proposes tools ti) first.tool_calls

    try_turn-Resolved :
        (s t : TurnState W)
        → t.world ≡ s.world
        → Resolved (IsAsked s) (try_turn opts tools (prompt_for opts tools s.dialog) t)
    unfolding try_turn
    try_turn-Resolved s t p =
        >>=_rule (λ x. opts.turn (prompt_for opts tools s.dialog) s.world ≡ (x.0, x.1.world))
          (Resolved (IsAsked s)) (call_world (opts.turn (prompt_for opts tools s.dialog)))
          (answer_turn opts tools) (record t { events = t.events ++ agent_status thinking ∷ [] })
          (ap (opts.turn (prompt_for opts tools s.dialog)) (sym p))
          (λ first u e.
            asked first u e (answer_turn opts tools first u) (answer_turn-Resolved first u))
          (λ e u h. tt)
      where
        asked :
            (first : LlmTurn X) (u : TurnState W)
            → opts.turn (prompt_for opts tools s.dialog) s.world ≡ (ok first, u.world)
            → (x : Result AgentThrown (AgentTurnResult N) × TurnState W)
            → Resolved (λ ti. Has (Proposes tools ti) first.tool_calls) x
            → Resolved (IsAsked s) x
        asked first u e (ok r, v) h =
            λ ti q. let (i, n, a, f) = h ti q in ((first, u.world, e, i), n, a, f)
        asked first u e (err f, v) h = tt

    close_turn-Resolved :
        (P : Text × Intent → Type 0) (x : Result AgentThrown (AgentTurnResult N) × TurnState W)
        → Resolved P x
        → Resolved P (close_turn opts tools x)
    unfolding close_turn
    close_turn-Resolved P (ok r, t) h = h
    close_turn-Resolved P (err e, t) h = tt

    run_turn-Resolved : (s : TurnState W) → Resolved (IsAsked s) (run_turn opts tools s)
    unfolding run_turn
    run_turn-Resolved s = close_turn-Resolved (IsAsked s) _ (
        try_turn-Resolved s
          (record s {
            dialog = elim s.dialog [ none ↦ none | some d ↦ some (open_dialog opts tools d) ];
          })
          refl)

    -- An intent that a turn returns is one that the model asked for, in its answer to the prompt of
    -- the memory before the turn, by a call of a tool that needs approval and whose `toIntent` gives
    -- it, and it carries the tool's name. With it the turn returns no navigation, what it says is the
    -- description of this intent, not a text of the model, and the conversation memory, if there is
    -- one, is empty.
    pub run_turn_intent :
        (s t : TurnState W) (r : AgentTurnResult N) (ti : Text × Intent)
        → run_turn opts tools s ≡ (ok r, t)
        → r.intent ≡ some ti
        → IsAsked s ti
          × (r.navigation ≡ none)
          × (r.answer ≡ describe_intent ti.1)
          × IsForgotten t.dialog
    run_turn_intent s t r ti e = subst (λ x. Resolved (IsAsked s) x) e (run_turn-Resolved s) ti
