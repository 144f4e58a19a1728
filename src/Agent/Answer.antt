-- ===== src/Agent/Answer.antt =====
-- What a turn of agent/src/loop.ts handles: the calls and the tools, the events and the state, and
-- what is returned for what was gathered.
use stellar_voice_control_pr.Common.{
  ℕ, Bool, true, ltb, Option, none, some, List, [], ◌∷◌, ◌++◌, Result, length, if◌then◌else◌,
}
use stellar_voice_control_pr.Common.Text.{Text, codes}
use stellar_voice_control_pr.TurnFlow.{text_eq}
use stellar_voice_control_pr.Agent.{AgentThrown, Intent, describe_intent}
use stellar_voice_control_pr.Agent.Language.{LanguageSource, LanguageDecision}
use stellar_voice_control_pr.Agent.Dialog.{DialogMemory, join}

-- `LlmToolCall` and `LlmTurn`
pub record LlmToolCall (X : Type 0) : Type 0 where
  pub name : Text
  pub argument : X

pub record LlmTurn (X : Type 0) : Type 0 where
  pub text : Option Text
  pub tool_calls : List (LlmToolCall X)
  pub language : Option Text

-- `AgentTool`: `N` is the type of navigation requests, `Y` that of the outputs.
pub record AgentTool (W X Y N : Type 0) : Type 0 where
  pub name : Text
  pub requires_approval : Bool
  pub to_navigation_for : X → Result AgentThrown (Option N)
  pub to_intent : Option (X → Result AgentThrown Intent)
  pub run : X → W → Result AgentThrown Y × W
  pub show : Y → Text
  pub to_speech : Y → Result AgentThrown (Option Text)
  pub to_navigation : Y → Result AgentThrown (Option N)

-- `get` of tools/registry.ts, where a name stands once.
unfoldable pub get_tool :
    {W X Y N : Type 0} → Text → List (AgentTool W X Y N) → Option (AgentTool W X Y N)
unfolding text_eq
get_tool name [] = none
get_tool name (t ∷ tools) = if text_eq t.name name then some t else get_tool name tools

pub data Stage : Type 0 where
  thinking awaiting_approval tool_call done : Stage

pub data TurnEvent : Type 0 where
  agent_status : Stage → TurnEvent
  transcript_event : (text : Text) → (language : Option Text) → TurnEvent
  error_event : (message : Text) → TurnEvent

pub record TurnState (W : Type 0) : Type 0 where
  pub events : List TurnEvent
  pub dialog : Option DialogMemory
  pub world : W

-- What the loop over the calls collects.
pub record Gathered (N : Type 0) : Type 0 where
  pub executed_tools : List Text
  pub tool_results : List Text
  pub spoken_results : List Text
  pub intents : List (Text × Intent)
  pub navigations : List N
  pub clarification : Option Text

-- `AgentTurnResult`
pub record AgentTurnResult (N : Type 0) : Type 0 where
  pub answer : Text
  pub executed_tools : List Text
  pub intent : Option (Text × Intent)
  pub navigation : Option N
  pub language : Option (Text × LanguageSource)

-- What `options` holds beside the registry and the bus.
pub record TurnOptions (W X : Type 0) : Type 0 where
  pub transcript : Text
  pub system : Text
  pub now : ℕ
  pub transcript_language : Option Text
  pub lower : Text → Text
  pub decompose : Text → Text
  pub turn : (prompt : Text) → W → Result AgentThrown (LlmTurn X) × W

abbrev pub Turn : Type 0 → Type 0 → Type 0
Turn W A = TurnState W → Result AgentThrown A × TurnState W

abbrev pub gathered_nothing : {N : Type 0} → Gathered N
gathered_nothing = record {
  executed_tools = [];
  tool_results = [];
  spoken_results = [];
  intents = [];
  navigations = [];
  clarification = none;
}

-- `clarification ??= text`
abbrev pub or_clarify : Option Text → Text → Option Text
or_clarify none text = some text
or_clarify (some c) text = some c

-- The end of a list, if there is one more.
abbrev pub with_some : {A : Type 0} → List A → Option A → List A
with_some xs none = xs
with_some xs (some x) = xs ++ x ∷ []

-- `if (spoken)`: not the empty text.
abbrev pub spoken_of : Option Text → Option Text
spoken_of none = none
spoken_of (some []) = none
spoken_of (some (c ∷ s)) = some (c ∷ s)

abbrev pub first_element : {A : Type 0} → List A → Option A
first_element [] = none
first_element (x ∷ xs) = some x

abbrev pub language_text : LanguageDecision → Option Text
language_text d = elim d.language [ none ↦ none | some (tag, source) ↦ some tag ]

abbrev pub repeat_request : Text → Text
repeat_request detail =
    codes "I couldn't turn that into a payment. Please repeat the amount, asset and recipient. ("
    ++ (detail ++ codes ")")

-- The only intent of a turn that asks for nothing.
unfoldable pub resolved_of : {N : Type 0} → Gathered N → Option (Text × Intent)
resolved_of g = elim g.clarification [
  | some c ↦ none
  | none ↦ elim g.intents [ [] ↦ none | i ∷ rest ↦ elim rest [ [] ↦ some i | j ∷ more ↦ none ] ]
]

abbrev pub told : Option Text → List Text
told none = []
told (some []) = []
told (some (c ∷ s)) = (c ∷ s) ∷ []

-- The answer where no intent and no clarification was gathered.
unfoldable pub answer_of_tools : {N : Type 0} → Option Text → Gathered N → Text
unfolding join
answer_of_tools text g = elim g.spoken_results [
  | s ∷ ss ↦ join (codes " ") (s ∷ ss)
  | [] ↦ elim g.tool_results [
    | r ∷ rs ↦ join (codes "\n") (told text ++ (r ∷ rs))
    | [] ↦ elim text [ none ↦ codes "(no answer)" | some t ↦ t ]
  ]
]

unfoldable pub answer_of : {N : Type 0} → Option Text → Gathered N → Text
unfolding answer_of_tools describe_intent
answer_of text g = elim g.clarification [
  | some c ↦ c
  | none ↦ elim g.intents [
    | [] ↦ answer_of_tools text g
    | i ∷ rest ↦ elim rest [
      | [] ↦ describe_intent i.1
      | j ∷ more ↦ codes "I can only prepare one action at a time. Which payment should I set up?"
    ]
  ]
]

-- `intents.length === 0 ? navigations[0] : undefined`
unfoldable pub navigation_of : {N : Type 0} → Gathered N → Option N
navigation_of g = elim g.intents [ [] ↦ first_element g.navigations | i ∷ rest ↦ none ]

-- `resolved || navigation || intents.length > 1`
unfoldable pub is_closed : {N : Type 0} → Gathered N → Bool
unfolding resolved_of navigation_of
is_closed g = elim (resolved_of g) [
  | some i ↦ true
  | none ↦ elim (navigation_of g) [ some n ↦ true | none ↦ ltb 1 (length g.intents) ]
]

-- `language.language && …`: not the empty text.
abbrev pub spoken_language : Option (Text × LanguageSource) → Option (Text × LanguageSource)
spoken_language none = none
spoken_language (some ([], source)) = none
spoken_language (some (c ∷ s, source)) = some (c ∷ s, source)

-- What the turn returns.
abbrev pub result_of :
    {N : Type 0} → Option Text → LanguageDecision → Gathered N → AgentTurnResult N
result_of text language g = record {
  answer = answer_of text g;
  executed_tools = g.executed_tools;
  intent = resolved_of g;
  navigation = navigation_of g;
  language = spoken_language language.language;
}
