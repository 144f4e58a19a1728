-- ===== src/Execution/Gate.antt =====
-- What an executed intent has passed (agent/src/execution.ts, `executeIntent`).
use stellar_voice_control_pr.Common.{
  ◌≡◌, ◌≢◌, refl, true, false, Option, none, some, Result, ok, err, arith,
}
use stellar_voice_control_pr.Common.Text.{Text}
use stellar_voice_control_pr.Execution.{
  ThrownValue, Field, RawResult, RawDecision, no_decision, bare_value, decision, ChainTool,
  ChainToolResult, executed, ExecutionOutcome, ExecuteIntentOptions, usable_tool_result, decide,
  tool_failure, digest_of, request_for, after_approver, ask, after_tool, run_tool, execute_intent,
  text_of,
}

decide_executed :
    {I : Type 0} (intent : I) (res : ChainToolResult) (hash : Text) (raw : RawDecision)
    → (decide intent res hash raw).status ≡ executed
    → (reason : Field) × (id : Field) × (raw ≡ decision true reason id)
unfolding decide
decide_executed intent res hash no_decision h = cc
decide_executed intent res hash bare_value h = cc
decide_executed intent res hash (decision true reason id) h = (reason, id, refl)
decide_executed intent res hash (decision false reason id) h = cc

tool_failure_status :
    {I : Type 0} (intent : I) (e : ThrownValue) → (tool_failure intent e).status ≢ executed
unfolding tool_failure
tool_failure_status intent e h = ground arith

module _ {I W : Type 0} (options : ExecuteIntentOptions I W) where
  -- The outcome of an approved result.
  abbrev pub released : I → ChainToolResult → Field → ExecutionOutcome I
  released intent res id = record {
    status = executed;
    intent = intent;
    label = none;
    detail = none;
    result = some res;
    payload_hash = some (digest_of options res.unsigned_xdr);
    approval_id = text_of id;
  }

  -- The approver approved this result, with this outcome.
  abbrev pub Approves :
      I → ChainToolResult → Result ThrownValue RawDecision × W → ExecutionOutcome I × W → Type 0
  Approves intent res answer out =
      (reason : Field) × (id : Field) × (w : W) × (answer ≡ (ok (decision true reason id), w))
      × (out ≡ (released intent res id, w))

  -- The tool's answer is a usable result, and the approver, asked for exactly this result in the
  -- world that the tool leaves, approved it.
  abbrev pub Passes : I → Result ThrownValue RawResult × W → ExecutionOutcome I × W → Type 0
  Passes intent answer out =
      (raw : RawResult) × (w : W) × (res : ChainToolResult) × (answer ≡ (ok raw, w))
      × (usable_tool_result raw ≡ some res)
      × Approves intent res (options.approver (request_for options intent res) w) out

  after_approver_executed :
      (intent : I) (res : ChainToolResult) (x : Result ThrownValue RawDecision × W)
      → (after_approver options intent res x).0.status ≡ executed
      → Approves intent res x (after_approver options intent res x)
  unfolding after_approver
  after_approver_executed intent res (ok no_decision, w) h = cc
  after_approver_executed intent res (ok bare_value, w) h = cc
  after_approver_executed intent res (ok (decision true reason id), w) h =
      (reason, id, w, refl, refl)
  after_approver_executed intent res (ok (decision false reason id), w) h = cc
  after_approver_executed intent res (err e, w) h = cc

  ask_executed :
      (intent : I) (o : Option ChainToolResult) (w : W)
      → (ask options intent o w).0.status ≡ executed
      → (res : ChainToolResult) × (o ≡ some res)
        × Approves intent res
            (options.approver (request_for options intent res) w)
            (ask options intent o w)
  unfolding ask
  ask_executed intent none w h = cc
  ask_executed intent (some res) w h = (res, refl, after_approver_executed intent res _ h)

  after_tool_executed :
      (intent : I) (x : Result ThrownValue RawResult × W)
      → (after_tool options intent x).0.status ≡ executed
      → Passes intent x (after_tool options intent x)
  unfolding after_tool
  after_tool_executed intent (ok raw, w) h =
      let (res, e, approved) = ask_executed intent (usable_tool_result raw) w h in
      (raw, w, res, refl, e, approved)
  after_tool_executed intent (err e, w) h = absurd (tool_failure_status intent e h)

  run_tool_executed :
      (intent : I) (o : Option (ChainTool I W)) (w : W)
      → (run_tool options intent o w).0.status ≡ executed
      → (tool : ChainTool I W) × (o ≡ some tool)
        × Passes intent (tool intent w) (run_tool options intent o w)
  unfolding run_tool
  run_tool_executed intent none w h = cc
  run_tool_executed intent (some tool) w h =
      (tool, refl, after_tool_executed intent (tool intent w) h)

  -- There is a tool for the intent's kind, it builds a usable result in the world `w1`, and the
  -- approver, asked in `w1` for exactly this result, approves it and leaves the world `w2`.
  pub record IsApproved (intent : I) (w : W) (res : ChainToolResult) (id : Field) (w2 : W)
      : Type 0 where
    pub tool : ChainTool I W
    pub raw : RawResult
    pub reason : Field
    pub w1 : W
    pub known : options.chain_tools (options.kind_of intent) ≡ some tool
    pub built : tool intent w ≡ (ok raw, w1)
    pub usable : usable_tool_result raw ≡ some res
    pub approved :
        options.approver (request_for options intent res) w1 ≡ (ok (decision true reason id), w2)

  -- An intent ends as executed only if a result was approved, and exactly this one is released.
  pub execute_intent_executed :
      (intent : I) (w : W)
      → (execute_intent options intent w).0.status ≡ executed
      → (res : ChainToolResult) × (id : Field) × (w2 : W) × IsApproved intent w res id w2
        × (execute_intent options intent w ≡ (released intent res id, w2))
  unfolding execute_intent
  execute_intent_executed intent w h =
      let (tool, known, passed) =
        run_tool_executed intent (options.chain_tools (options.kind_of intent)) w h in
      let (raw, w1, res, built, usable, asked) = passed in
      let (reason, id, w2, approved, out) = asked in
      (
        res,
        id,
        w2,
        record {
          tool = tool;
          raw = raw;
          reason = reason;
          w1 = w1;
          known = known;
          built = built;
          usable = usable;
          approved = approved;
        },
        out,
      )
