-- ===== src/TurnFlow.antt =====
-- Admission of spoken turns and the wallet gate: app/src/lib/turnFlow.ts. The class's two private
-- fields are a record; a transcript is a list of UTF-16 code units, which `trim` cuts on both sides.
pub mod Admission
mod Tests
use stellar_voice_control_pr.Common.{
  ℕ, suc, ◌+◌, Bool, true, false, not, ◌&&◌, ◌||◌, ◌==◌, Option, none, some, List, [], ◌∷◌, String,
  if◌then◌else◌,
}
use stellar_voice_control_pr.Common.Text.{Text, is_space, skip_spaces}

pub record TurnTicket : Type 0 where
  pub generation : ℕ
  pub transcript : Text

pub data IgnoreReason : Type 0 where
  blank duplicate : IgnoreReason

pub data TurnAdmission : Type 0 where
  start : TurnTicket → TurnAdmission
  ignore : IgnoreReason → TurnAdmission

pub record TurnFlow : Type 0 where
  pub generation : ℕ
  pub in_flight : Option Text

abbrev pub new_flow : TurnFlow
new_flow = record { generation = 0; in_flight = none }

abbrev pub is_blank : Text → Bool
is_blank [] = true
is_blank (c ∷ s) = false

-- The spaces at the end cut off.
unfoldable pub trim_end : Text → Text
trim_end [] = []
trim_end (c ∷ s) = let rest = trim_end s in if is_space c && is_blank rest then [] else c ∷ rest

unfoldable pub trim : Text → Text
unfolding trim_end skip_spaces
trim s = trim_end (skip_spaces s)

unfoldable pub text_eq : Text → Text → Bool
text_eq [] [] = true
text_eq (c ∷ s) (d ∷ t) = c == d && text_eq s t
text_eq _ _ = false

-- `transcript === this.#inFlight`
unfoldable pub is_in_flight : Text → Option Text → Bool
unfolding text_eq
is_in_flight t none = false
is_in_flight t (some u) = text_eq t u

unfoldable pub offer : Text → TurnFlow → TurnAdmission × TurnFlow
unfolding trim is_in_flight
offer raw f =
    if is_blank (trim raw)
    then (ignore blank, f)
    else if is_in_flight (trim raw) f.in_flight
    then (ignore duplicate, f)
    else (
      start (record { generation = f.generation + 1; transcript = trim raw }),
      record { generation = f.generation + 1; in_flight = some (trim raw) },
    )

unfoldable pub is_current : TurnTicket → TurnFlow → Bool
is_current ticket f = ticket.generation == f.generation

unfoldable pub settle_turn : TurnTicket → TurnFlow → TurnFlow
settle_turn ticket f =
    if ticket.generation == f.generation then record f { in_flight = none } else f

-- `Intent["kind"]`
pub data IntentKind : Type 0 where
  deposit withdraw swap send guard_policy raw_tx schedule_payment cancel_schedule : IntentKind
  p2p_offer p2p_accept p2p_confirm p2p_cancel p2p_reclaim : IntentKind

unfoldable pub is_value_moving_intent : IntentKind → Bool
is_value_moving_intent guard_policy = false
is_value_moving_intent _ = true

pub data Page : Type 0 where
  wallet : Page

pub record WalletGateDecision : Type 0 where
  pub block : Bool
  pub sentence : String
  pub page : Option Page

abbrev pub connect_wallet_sentence : String
connect_wallet_sentence = "Connect your wallet first."

abbrev pub unlock_wallet_sentence : String
unlock_wallet_sentence = "Please unlock your wallet first."

abbrev pub let_through : WalletGateDecision
let_through = record { block = false; sentence = ""; page = none }

abbrev pub blocked : String → WalletGateDecision
blocked sentence = record { block = true; sentence = sentence; page = some wallet }

unfoldable pub decide_wallet_gate : IntentKind → Bool → WalletGateDecision
unfolding is_value_moving_intent
decide_wallet_gate intent has_active_wallet =
    if has_active_wallet || not (is_value_moving_intent intent)
    then let_through
    else blocked connect_wallet_sentence

-- `WalletSessionState`; `absent` is the source's "none".
pub data WalletSessionState : Type 0 where
  absent locked unlocked : WalletSessionState

abbrev is_unlocked : WalletSessionState → Bool
is_unlocked unlocked = true
is_unlocked _ = false

abbrev is_locked : WalletSessionState → Bool
is_locked locked = true
is_locked _ = false

unfoldable pub decide_wallet_gate_for_session : IntentKind → WalletSessionState → WalletGateDecision
unfolding is_value_moving_intent
decide_wallet_gate_for_session intent session =
    if is_unlocked session || not (is_value_moving_intent intent)
    then let_through
    else blocked (if is_locked session then unlock_wallet_sentence else connect_wallet_sentence)
