-- ===== src/Anchor/Session/State.antt =====
-- The state of `AnchorSession` (stellar/src/anchor/session.ts), and the steps on it.
use stellar_voice_control_pr.Common.{Bool, false, Option, none, List, [], String, Result, ok, err}
use stellar_voice_control_pr.Common.Text.{Text}
use stellar_voice_control_pr.Anchor.{
  AnchorThrown, SessionFault, thrown, AnchorAsset, AuthToken, WithdrawInstructions,
}

-- `withdrawRequest`
pub record WithdrawRequest : Type 0 where
  pub instructions : WithdrawInstructions
  pub amount : Text

-- An envelope that was handed to the network, and whether an answer came.
pub record Sent : Type 0 where
  pub xdr : String
  pub answered : Bool

pub record Session (W T : Type 0) : Type 0 where
  pub toml_cache : Option T
  pub asset_cache : Option AnchorAsset
  pub token_cache : Option AuthToken
  pub customer_ok : Bool
  pub pending_challenge : Option String
  pub withdraw_request : Option WithdrawRequest
  pub orders : List WithdrawRequest
  pub sent : List Sent
  pub world : W

abbrev pub new_session : {W T : Type 0} → W → Session W T
new_session w = record {
  toml_cache = none;
  asset_cache = none;
  token_cache = none;
  customer_ok = false;
  pending_challenge = none;
  withdraw_request = none;
  orders = [];
  sent = [];
  world = w;
}

abbrev pub Step : Type 0 → Type 0 → Type 0 → Type 0
Step W T A = Session W T → Result SessionFault A × Session W T

abbrev pub faulty : {A : Type 0} → Result AnchorThrown A → Result SessionFault A
faulty (ok a) = ok a
faulty (err e) = err (thrown e)

module _ {W T : Type 0} where
  -- What throws without a call.
  abbrev pub lift : {A : Type 0} → Result SessionFault A → Step W T A
  lift r s = (r, s)

  -- A call of the network or of the signer: it changes the world alone.
  abbrev pub call : {A : Type 0} → (W → Result AnchorThrown A × W) → Step W T A
  call f s = let (r, w) = f s.world in (faulty r, record s { world = w })
