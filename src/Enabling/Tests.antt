-- ===== src/Enabling/Tests.antt =====
-- An enable flow from an account without an executor, and from one whose executor has a zero limit
-- (stellar/src/approval/enableAutoPay.ts).
use stellar_voice_control_pr.Common.{
  ℕ, ◌+◌, ◌≡◌, refl, true, false, Option, none, some, [], ◌∷◌, String, Result, ok, err, arith, ap,
  sym, Bool,
}
use stellar_voice_control_pr.Common.Int.{ℤ, pos}
use stellar_voice_control_pr.Guard.{Rule}
use stellar_voice_control_pr.Approval.{card_and_touch_id}
use stellar_voice_control_pr.Approval.Draft.{AutoPayDraft, rule_from_draft}
use stellar_voice_control_pr.Enabling.{
  Failure, BuiltCall, AllowanceCall, BuiltApprovalStep, BuiltFlow, EnableAutoPayDeps, approve,
  set_rule, set_executor, ApprovalStepKind, ApprovalActionSummary, arming_step, schedule_allowance,
  build_enable_auto_pay, allowance_change_notes,
}
use stellar_voice_control_pr.Enabling.Prefix.{
  Account, HasEffects, FailsClosed, ArmsEarly, build_enable_auto_pay-FailsClosed,
  enable_arms_old_executor,
}

abbrev draft : AutoPayDraft
draft = record {
  executor = "GNEW";
  threshold_raw = pos 5;
  daily_limit_raw = pos 20;
  per_tx_limit_raw = pos 10;
  allowed_assets = "CUSDC" ∷ [];
  known_recipients_only = true;
  allowance_raw = pos 140;
  allowance_days = pos 30;
}

abbrev old_rule : Rule
old_rule = record {
  auto_approve_limit = pos 0;
  per_tx_limit = pos 10;
  daily_limit = pos 20;
  allowed_assets = "CUSDC" ∷ [];
  known_recipients_only = true;
}

-- A transaction that is its own effect.
data Tx : Type 0 where
  allows : ℤ → Tx
  rules : Rule → Tx
  registers : String → Tx
  nothing : Tx

abbrev applies : Tx → Account → Account
applies (allows amount) account = record account { allowance = amount }
applies (rules rule) account = record account { rule = some rule }
applies (registers executor) account = record account { executor = some executor }
applies nothing account = account

abbrev rule_in : Tx → Rule
rule_in (rules rule) = rule
rule_in tx = old_rule

abbrev call : Tx → BuiltCall Tx
call tx = record { unsigned_xdr = tx; payload_hash = "hash" }

abbrev deps_for : Option (Option Rule × Option String) → EnableAutoPayDeps ℕ Tx
deps_for current = record {
  is_valid_contract = λ s. true;
  is_valid_key = λ s. true;
  build_allowance = λ asset amount days w.
      (ok (record { call = call (allows amount); ledgers_remaining = 100 }), w + 1);
  build_rule = λ rule w. (ok (call (rules rule)), w + 1);
  build_executor = λ executor w. (ok (call (registers executor)), w + 1);
  build_revoke = λ w. (ok (call nothing), w + 1);
  build_no_allowance = λ asset w. (ok (call (allows (pos 0))), w + 1);
  decoded_lines = λ tx. [];
  rule_of_xdr = rule_in;
  now = λ w. w;
  local_time = λ t. "local";
  utc_time = λ t. "utc";
  current_allowance_raw = none;
  current = current;
}

abbrev allowance_tx : Result Failure (AllowanceCall Tx) × ℕ → Tx
allowance_tx (ok a, w) = a.call.unsigned_xdr
allowance_tx (err e, w) = nothing

abbrev call_tx : Result Failure (BuiltCall Tx) × ℕ → Tx
call_tx (ok c, w) = c.unsigned_xdr
call_tx (err e, w) = nothing

effects : (current : Option (Option Rule × Option String)) → HasEffects (deps_for current) applies
effects current = record {
  of_allowance =
      λ asset amount days w w' a account e. ap (λ x. applies (allowance_tx x) account) (sym e);
  of_rule = λ rule w w' c account e. ap (λ x. applies (call_tx x) account) (sym e);
  of_executor = λ executor w w' c account e. ap (λ x. applies (call_tx x) account) (sym e);
}

abbrev step : ApprovalStepKind → Tx → BuiltApprovalStep Tx
step kind tx = record { kind = kind; unsigned_xdr = tx; payload_hash = "hash" }

abbrev action : ApprovalStepKind → Bool → ApprovalActionSummary
action kind arming = record { kind = kind; lines = []; arming = arming }

abbrev made : BuiltFlow Tx
made = record {
  steps =
      step approve (allows (pos 140))
      ∷ step set_rule (rules (rule_from_draft draft))
      ∷ step set_executor (registers "GNEW")
      ∷ [];
  summary = record {
    actions = action approve false ∷ action set_rule false ∷ action set_executor true ∷ [];
    exposure = some (record {
      threshold_raw = pos 5;
      daily_limit_raw = pos 20;
      allowance_raw = pos 140;
      allowance_expires_local = "local";
      allowance_expires_utc = "utc";
    });
    notes = arming_step ∷ schedule_allowance ∷ [];
    confirmation = card_and_touch_id;
  };
  order = approve ∷ set_rule ∷ set_executor ∷ [];
}

abbrev bare : Account
bare = record { rule = none; executor = none; allowance = pos 0 }

abbrev old : Account
old = record { rule = some old_rule; executor = some "GOLD"; allowance = pos 0 }

abbrev told : Option (Option Rule × Option String)
told = some (some old_rule, some "GOLD")

builds_bare : build_enable_auto_pay (deps_for none) draft 0 ≡ (ok made, 3)
unfolding build_enable_auto_pay allowance_change_notes rule_from_draft
builds_bare = refl

builds_told : build_enable_auto_pay (deps_for told) draft 0 ≡ (ok made, 3)
unfolding build_enable_auto_pay allowance_change_notes rule_from_draft
builds_told = refl

build_enable_auto_pay-FailsClosed_example : FailsClosed (deps_for none) applies draft bare made
build_enable_auto_pay-FailsClosed_example =
    build_enable_auto_pay-FailsClosed (deps_for none) applies (effects none) draft bare made 0 3
      builds_bare refl

-- An executor with a zero limit is not taken for armed, and the flow is built.
enable_arms_old_executor_example : ArmsEarly (deps_for told) applies (effects told) old made
enable_arms_old_executor_example =
    enable_arms_old_executor (deps_for told) applies (effects told) draft old made 0 3 refl
      builds_told refl (omega arith)
