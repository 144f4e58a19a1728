-- ===== src/Agent/Tests.antt =====
-- The agent at concrete inputs: a model that asks for two calls, a tool that answers by itself and
-- a tool whose intents need approval.
use stellar_voice_control_pr.Common.{
  ℕ, ◌+◌, ◌≡◌, refl, true, false, none, some, List, [], ◌∷◌, ok, err,
}
use stellar_voice_control_pr.Common.Text.{Text, codes}
use stellar_voice_control_pr.TurnFlow.{send}
use stellar_voice_control_pr.Agent.{agent_error, config, network, Intent, describe_intent}
use stellar_voice_control_pr.Agent.Language.{stt}
use stellar_voice_control_pr.Agent.Dialog.{user, empty_memory, is_cancel_utterance}
use stellar_voice_control_pr.Agent.Answer.{
  thinking, tool_call, awaiting_approval, transcript_event, error_event, AgentTool, LlmTurn,
  TurnOptions, TurnState, agent_status, done, AgentTurnResult,
}
use stellar_voice_control_pr.Agent.Turn.{run_turn, prompt_for}
use stellar_voice_control_pr.Agent.Turn.Settles.{run_turn-Settles, Settles}
use stellar_voice_control_pr.Agent.Turn.Gate.{IsForgotten, run_turn_intent, IsAsked}
use stellar_voice_control_pr.Agent.Turn.Runs.{names_of, free_calls, run_all}
use stellar_voice_control_pr.Agent.Turn.Execution.{executed_are_free}

-- The world counts the runs of the free tool, and what the model costs by tens.
abbrev World : Type 0
World = ℕ

abbrev paid : Intent
paid = record {
  kind = send;
  asset = codes "USDC";
  amount = codes "5";
  recipient = none;
  alias = some (codes "ana");
  schedule_id = none;
  first_run = none;
}

abbrev balance_tool : AgentTool World Text Text Text
balance_tool = record {
  name = codes "get_balance";
  requires_approval = false;
  to_navigation_for = λ x. ok none;
  to_intent = none;
  run = λ x w. (ok (codes "7"), w + 1);
  show = λ y. y;
  to_speech = λ y. ok (some y);
  to_navigation = λ y. ok none;
}

abbrev payment_tool : AgentTool World Text Text Text
payment_tool = record {
  name = codes "send_payment";
  requires_approval = true;
  to_navigation_for = λ x. ok none;
  to_intent = some (λ x. ok paid);
  run = λ x w. (err (agent_error config (codes "never run") none), w + 100);
  show = λ y. y;
  to_speech = λ y. ok (some y);
  to_navigation = λ y. ok none;
}

abbrev tools : List (AgentTool World Text Text Text)
tools = balance_tool ∷ payment_tool ∷ []

abbrev opts : TurnOptions World Text
opts = record {
  transcript = codes "how much do I have, and send five to Ana";
  system = codes "You are an assistant.";
  now = 1000;
  transcript_language = some (codes "en");
  lower = λ t. t;
  decompose = λ t. t;
  turn = λ prompt w. (
    ok (record {
      text = none;
      tool_calls =
          (record { name = codes "get_balance"; argument = [] })
          ∷ (record { name = codes "send_payment"; argument = codes "ana" })
          ∷ [];
      language = none;
    }),
    w + 10,
  );
}

abbrev failing : TurnOptions World Text
failing = record opts { turn = λ prompt w. (err (agent_error network (codes "offline") none), w) }

abbrev start : TurnState World
start = record { events = []; dialog = some empty_memory; world = 0 }

abbrev prepared : AgentTurnResult Text
prepared = record {
  answer = codes "Send 5 USDC to ana.";
  executed_tools = codes "get_balance" ∷ [];
  intent = some (codes "send_payment", paid);
  navigation = none;
  language = some (codes "en", stt);
}

abbrev settled : TurnState World
settled = record {
  events =
      agent_status thinking
      ∷ agent_status tool_call
      ∷ agent_status awaiting_approval
      ∷ transcript_event (codes "Send 5 USDC to ana.") (some (codes "en"))
      ∷ agent_status done
      ∷ [];
  dialog = some empty_memory;
  world = 11;
}

-- One turn runs the free tool and prepares the payment.
prepared_lem : run_turn opts tools start ≡ (ok prepared, settled)
unfolding run_turn
prepared_lem = refl

run_turn-Settles_example : Settles opts tools start (run_turn opts tools start)
run_turn-Settles_example = run_turn-Settles opts tools start

run_turn_intent_example :
    IsAsked opts tools start (codes "send_payment", paid)
    × (prepared.navigation ≡ none)
    × (prepared.answer ≡ describe_intent paid)
    × IsForgotten settled.dialog
run_turn_intent_example =
    run_turn_intent opts tools start settled prepared (codes "send_payment", paid) prepared_lem refl

executed_are_free_example :
    (first : LlmTurn Text) × (w : World) × (opts.turn
        (prompt_for opts tools start.dialog)
        start.world
      ≡ (ok first, w))
    × (prepared.executed_tools ≡ names_of (free_calls tools first.tool_calls))
    × (settled.world ≡ run_all (free_calls tools first.tool_calls) w)
executed_are_free_example = executed_are_free opts tools start settled prepared prepared_lem

-- A model that is offline: the error is reported, and the utterance is kept.
offline : run_turn failing tools start ≡ (
  err (agent_error network (codes "offline") none),
  record {
    events = agent_status thinking ∷ error_event (codes "offline") ∷ agent_status done ∷ [];
    dialog = some (record {
      exchanges = (record { role = user; said = failing.transcript }) ∷ [];
      pending = none;
    });
    world = 0;
  },
)
unfolding run_turn
offline = refl

-- A cancelling phrase between other words, but not within one.
cancels : is_cancel_utterance (λ t. t) (codes "please  cancel it") ≡ true
unfolding is_cancel_utterance
cancels = refl

cancels_no_part : is_cancel_utterance (λ t. t) (codes "uncancelled") ≡ false
unfolding is_cancel_utterance
cancels_no_part = refl
