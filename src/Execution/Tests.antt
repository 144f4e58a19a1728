-- ===== src/Execution/Tests.antt =====
-- Executions of a payment with an approving, a denying and a throwing gate (agent/src/execution.ts),
-- and digests of known texts.
use stellar_voice_control_pr.Common.{
  ℕ, ◌+◌, ◌≡◌, refl, true, Option, none, some, [], ◌∷◌, ok, length, All, arith,
}
use stellar_voice_control_pr.Common.Text.{codes}
use stellar_voice_control_pr.TurnFlow.{IntentKind}
use stellar_voice_control_pr.Execution.{
  Field, str, not_str, RawResult, raw_result, xdr_text, raw_summary, decision, ChainTool,
  ChainToolResult, Approver, executed, ExecuteIntentOptions, execute_intent, usable_tool_result,
  refusal_label,
}
use stellar_voice_control_pr.Execution.Gate.{IsApproved, released, execute_intent_executed}
use stellar_voice_control_pr.Execution.Closed.{IsCoherent, execute_intent-IsCoherent}
use stellar_voice_control_pr.Execution.Sha256.{sha256_hex, registers_of, pad_message}
use stellar_voice_control_pr.Execution.Sha256.Padding.{IsPadded, pad_message-IsPadded}
use stellar_voice_control_pr.Execution.Sha256.Digest.{IsHex, read_registers, sha256_hex_shape}

sha_of_abc :
    sha256_hex (codes "abc")
    ≡ codes "ba7816bf8f01cfea414140de5dae2223b00361a396177a9cb410ff61f20015ad"
unfolding sha256_hex
sha_of_abc = refl

sha_of_nothing :
    sha256_hex [] ≡ codes "e3b0c44298fc1c149afbf4c8996fb92427ae41e4649b934ca495991b7852b855"
unfolding sha256_hex
sha_of_nothing = refl

-- 56 bytes take a second block.
sha_of_two_blocks :
    sha256_hex (codes "abcdbcdecdefdefgefghfghighijhijkijkljklmklmnlmnomnopnopq")
    ≡ codes "248d6a61d20638b8e5c026930c3e6039a33ce45964ff2167f6ecedd419db06c1"
unfolding sha256_hex
sha_of_two_blocks = refl

sha256_hex_shape_example :
    (length (sha256_hex (codes "abc")) ≡ 64)
    × All IsHex (sha256_hex (codes "abc"))
    × (read_registers (sha256_hex (codes "abc")) ≡ registers_of (codes "abc"))
sha256_hex_shape_example = sha256_hex_shape (codes "abc")

pad_message-IsPadded_example : IsPadded (codes "abc") (pad_message (codes "abc"))
pad_message-IsPadded_example = pad_message-IsPadded (codes "abc") (omega arith)

abbrev built : ChainToolResult
built = record {
  unsigned_xdr = codes "AAAA";
  summary = record { title = "Send 5"; lines = "to Ali" ∷ []; estimated_fee = "100" };
}

abbrev raw_built : RawResult
raw_built =
    raw_result (xdr_text (codes "AAAA"))
      (raw_summary (str "Send 5") (some (str "to Ali" ∷ [])) (str "100"))

abbrev building : ChainTool IntentKind ℕ
building intent w = (ok raw_built, w + 1)

abbrev tools : IntentKind → Option (ChainTool IntentKind ℕ)
tools IntentKind.send = some building
tools _ = none

abbrev yes_gate : Approver IntentKind ℕ
yes_gate request w = (ok (decision true not_str (str "id-1")), w + 1)

abbrev with_gate : Approver IntentKind ℕ → ExecuteIntentOptions IntentKind ℕ
with_gate gate = record {
  approver = gate;
  chain_tools = tools;
  digest_override = none;
  kind_of = λ kind. kind;
  encode = λ s. s;
}

send-IsApproved : IsApproved (with_gate yes_gate) IntentKind.send 0 built (str "id-1") 2
unfolding usable_tool_result
send-IsApproved = record {
  tool = building;
  raw = raw_built;
  reason = not_str;
  w1 = 1;
  known = refl;
  built = refl;
  usable = refl;
  approved = refl;
}

send_is_executed : (execute_intent (with_gate yes_gate) IntentKind.send 0).0.status ≡ executed
unfolding execute_intent usable_tool_result
send_is_executed = refl

execute_intent_executed_example :
    (res : ChainToolResult) × (id : Field) × (w2 : ℕ) × IsApproved
      (with_gate yes_gate)
      IntentKind.send
      0
      res
      id
      w2
    × (execute_intent (with_gate yes_gate) IntentKind.send 0
        ≡ (released (with_gate yes_gate) IntentKind.send res id, w2))
execute_intent_executed_example =
    execute_intent_executed (with_gate yes_gate) IntentKind.send 0 send_is_executed

execute_intent-IsCoherent_example :
    IsCoherent
      (with_gate yes_gate)
      IntentKind.swap
      (execute_intent (with_gate yes_gate) IntentKind.swap 0).0
execute_intent-IsCoherent_example = execute_intent-IsCoherent (with_gate yes_gate) IntentKind.swap 0

known_refusal : refusal_label (some "guard_rule_missing") ≡ "No spending rule"
unfolding refusal_label
known_refusal = refl

unknown_refusal : refusal_label (some "other") ≡ "Chain error"
unfolding refusal_label
unknown_refusal = refl
