-- ===== src/BankFlow/Deps.antt =====
-- The types of app/src/lib/bankFlow.ts, and the calls that it takes as `BankFlowDeps`.
use stellar_voice_control_pr.Common.{ℕ, Bool, Option, List, String, Result}
use stellar_voice_control_pr.Common.Text.{Text}

pub data BankFlowKind : Type 0 where
  deposit withdraw : BankFlowKind

pub record BankAnchorTransaction : Type 0 where
  pub status : String
  pub amount_out : Option Text
  pub stellar_transaction_id : Option String
  pub message : Option String

pub data PollOutcome : Type 0 where
  completed failed stopped : PollOutcome

-- `BankPollResult`
pub record BankPollResult : Type 0 where
  pub outcome : PollOutcome
  pub tx : BankAnchorTransaction

pub record BankQuote : Type 0 where
  pub buy_amount : Text
  pub sell_asset : Text
  pub buy_asset : Text

-- What is thrown: by a call (with the `last` order, if the error carries one), or by the flow.
pub data Fault : Type 0 where
  thrown : (message : String) → (last : Option BankAnchorTransaction) → Fault
  invalid_amount : Text → Fault
  below_minimum above_maximum no_payout : Fault
  ended_as : BankAnchorTransaction → Fault

-- The answer of `startDeposit` and of `startWithdraw`.
pub record Order (F : Type 0) : Type 0 where
  pub id : String
  pub min_amount : Option F
  pub max_amount : Option F

-- `BankFlowDeps`, with the float operations that the limits need. A wait also tells how many updates
-- it reported, and a call whose answer is not read gives none.
pub record BankFlowDeps (W F : Type 0) : Type 0 where
  pub number : Text → F
  pub is_finite : F → Bool
  pub is_below : F → F → Bool
  pub is_positive : F → Bool
  pub now : W → ℕ
  pub new_id : BankFlowKind → W → String × W
  pub should_cancel : W → Bool
  pub sandbox_bank : Bool
  pub account : W → Result Fault String × W
  pub debit : Text → String → W → Result Fault String × W
  pub credit : Text → String → String → W → Result Fault (Unit {0}) × W
  pub settle : String → W → Result Fault (Unit {0}) × W
  pub refund : String → W → Result Fault (Unit {0}) × W
  pub set_currency : Option (Text → W → Result Fault (Unit {0}) × W)
  pub quote_deposit : Text → W → Result Fault BankQuote × W
  pub quote_withdraw : Text → W → Result Fault BankQuote × W
  pub login : W → Result Fault (Unit {0}) × W
  pub prepare_account : W → Result Fault (Unit {0}) × W
  pub start_deposit : Text → W → Result Fault (Order F) × W
  pub start_withdraw : Text → W → Result Fault (Order F) × W
  pub pay_withdrawal : Text → W → Result Fault String × W
  pub simulate_bank : String → Text → W → Result Fault (Unit {0}) × W
  pub wait_for_transaction : String → W → (Result Fault BankPollResult × ℕ) × W
  pub transaction : String → W → Result Fault BankAnchorTransaction × W

pub data Phase : Type 0 where
  reserved anchor_order paid : Phase

pub record PendingBankFlow : Type 0 where
  pub reference : String
  pub kind : BankFlowKind
  pub amount : Text
  pub started_at : ℕ
  pub anchor_tx_id : Option String
  pub phase : Phase

pub data BankStepId : Type 0 where
  quote login kyc trustline bank_transfer waiting done_step : BankStepId

pub data BankStepStatus : Type 0 where
  active done error : BankStepStatus

-- The calls that move money, noted when they return.
pub data Move : Type 0 where
  debited settled refunded : (reference : String) → Move
  asked_payment paid_anchor : (amount : Text) → Move
  credited : (payout : Text) → (reference : String) → Move

-- What the flows share and change: the storage, the world, and the notes; and the two variables of
-- the running flow that its `catch` reads.
pub record FlowState (W : Type 0) : Type 0 where
  pub pending : List PendingBankFlow
  pub steps : List (BankStepId × BankStepStatus)
  pub moves : List Move
  pub order_id : Option String
  pub has_paid : Bool
  pub world : W

pub data FlowStatus : Type 0 where
  completed failed cancelled : FlowStatus

-- The sentence of a result, with what it quotes.
pub data Detail : Type 0 where
  cancelled_deposit cancelled_withdrawal deposit_done : Detail
  withdrawal_done : (payout : Text) → Detail
  went_wrong : Fault → (anchor_said : Option String) → Detail
  never_reached_anchor recovered_deposit : Detail
  recovered_payout : (payout : Text) → Detail
  recovered_end : (status : String) → Detail

pub record BankFlowResult : Type 0 where
  pub status : FlowStatus
  pub kind : BankFlowKind
  pub amount : Text
  pub reference : String
  pub currency : String
  pub anchor_tx_id : Option String
  pub tx_hash : Option String
  pub refunded : Option Bool
  pub credited : Option Bool
  pub detail : Detail
