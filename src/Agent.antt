-- ===== src/Agent.antt =====
-- The agent core: agent/src. Here is what its parts share: the errors of errors.ts, the intents, and
-- how an intent is described. Texts are lists of UTF-16 code units.
pub mod Language
pub mod Dialog
pub mod Answer
pub mod Turn
mod Tests
use stellar_voice_control_pr.Common.{
  ℕ, Bool, true, false, Option, none, some, List, [], ◌∷◌, ◌++◌, String,
}
use stellar_voice_control_pr.Common.Text.{Text, codes}
use stellar_voice_control_pr.Decimal.{to_text}
use stellar_voice_control_pr.TurnFlow.{IntentKind, cancel_schedule, schedule_payment}

pub data AgentErrorKind : Type 0 where
  config auth network http malformed unknown_tool input : AgentErrorKind

pub data ClarificationQuestion : Type 0 where
  send_recipient sell_route sell_price rule_asset : ClarificationQuestion

-- `PendingClarificationDraft`
pub record Draft : Type 0 where
  pub kind : Text
  pub filled_slots : List (Text × Text)
  pub missing : List Text
  pub question : ClarificationQuestion

-- What is thrown: an `AgentError`, or anything else with its message.
pub data AgentThrown : Type 0 where
  agent_error : AgentErrorKind → (detail : Text) → Option Draft → AgentThrown
  other_error : (message : Text) → AgentThrown

-- `error instanceof Error ? error.message : String(error)`
unfoldable pub message_text : AgentThrown → Text
message_text (agent_error kind detail pending) = detail
message_text (other_error message) = message

-- `Intent`, as far as the agent reads it.
pub record Intent : Type 0 where
  pub kind : IntentKind
  pub asset : Text
  pub amount : Text
  pub recipient : Option Text
  pub alias : Option Text
  pub schedule_id : Option ℕ
  pub first_run : Option (Text × Text)

abbrev or_text : Option Text → Text → Text
or_text none other = other
or_text (some s) other = s

abbrev whom : Intent → Text
whom i = or_text i.recipient (or_text i.alias (codes "(unknown recipient)"))

abbrev starting : Option (Text × Text) → Text
starting none = []
starting (some (date, time)) = codes " starting " ++ (date ++ (codes " " ++ time))

abbrev pays : Text → Intent → Text → Text
pays verb i tail =
    verb ++ (i.amount ++ (codes " " ++ (i.asset ++ (codes " to " ++ (whom i ++ tail)))))

-- `describeIntent`
unfoldable pub describe_intent : Intent → Text
unfolding to_text
describe_intent i = elim i.kind [
  | cancel_schedule ↦ elim i.schedule_id [
    | none ↦ codes "Cancel the scheduled payment to " ++ (whom i ++ codes ".")
    | some id ↦ codes "Cancel scheduled payment #" ++ (to_text id ++ codes ".")
  ]
  | schedule_payment ↦ pays (codes "Schedule ") i (starting i.first_run ++ codes ".")
  | _ ↦ pays (codes "Send ") i (codes ".")
]
