-- ===== src/Execution/Closed.antt =====
-- That the gate fails closed (agent/src/execution.ts, `executeIntent` and `resolveApprover`).
use stellar_voice_control_pr.Common.{
  ◌≡◌, ◌≢◌, refl, ap, sym, ◌∙◌, true, false, Option, none, some, String, Result, ok, err, [], ◌∷◌,
  Bool-cases, inl, inr,
}
use stellar_voice_control_pr.Execution.{
  ThrownValue, RawResult, no_object, raw_result, xdr_text, no_xdr, summary_of, Approver,
  RawDecision, no_decision, bare_value, decision, ChainTool, ChainToolResult, ExecutionStatus,
  executed, rejected, unsupported, unavailable, failed, ExecutionOutcome, ExecuteIntentOptions,
  usable_tool_result, tool_failure, digest_of, request_for, after_approver, ask, after_tool,
  run_tool, execute_intent, resolve_approver, Summary, is_not_implemented_error, is_code,
}
use stellar_voice_control_pr.Execution.Gate.{execute_intent_executed}

usable_tool_result-xdr :
    (raw : RawResult) (res : ChainToolResult)
    → usable_tool_result raw ≡ some res
    → res.unsigned_xdr ≢ []
unfolding usable_tool_result
usable_tool_result-xdr no_object res h e = cc
usable_tool_result-xdr (raw_result no_xdr raw) res h e = cc
usable_tool_result-xdr (raw_result (xdr_text []) raw) res h e = cc
usable_tool_result-xdr (raw_result (xdr_text (c ∷ cs)) raw) res h e = go (summary_of raw) h
  where
    go :
        (o : Option Summary)
        → (elim o [
          | none ↦ none
          | some summary ↦ some (record { unsigned_xdr = c ∷ cs; summary = summary })
        ])
          ≡ some res
        → ⊥
    go none k = cc
    go (some summary) k = cc

-- What an outcome that was not executed carries: a label, and nothing to sign.
abbrev pub IsEmpty : {I : Type 0} → ExecutionOutcome I → Type 0
IsEmpty o =
    (o.result ≡ none)
    × (o.payload_hash ≡ none)
    × (o.approval_id ≡ none)
    × (label : String) × (o.label ≡ some label)

module _ {I W : Type 0} (options : ExecuteIntentOptions I W) where
  -- What an executed outcome carries: a result that has an XDR, with its digest, and no label.
  abbrev pub IsFull : ExecutionOutcome I → Type 0
  IsFull o =
      (res : ChainToolResult) × (o.result ≡ some res)
      × (res.unsigned_xdr ≢ [])
      × (o.payload_hash ≡ some (digest_of options res.unsigned_xdr))
      × (o.label ≡ none)

  abbrev pub Carries : ExecutionStatus → ExecutionOutcome I → Type 0
  Carries executed o = IsFull o
  Carries rejected o = IsEmpty o
  Carries unsupported o = IsEmpty o
  Carries unavailable o = IsEmpty o
  Carries failed o = IsEmpty o

  abbrev pub IsCoherent : I → ExecutionOutcome I → Type 0
  IsCoherent intent o = (o.intent ≡ intent) × Carries o.status o

  tool_failure-IsCoherent :
      (intent : I) (e : ThrownValue) → IsCoherent intent (tool_failure intent e)
  unfolding tool_failure
  tool_failure-IsCoherent intent e = elim (Bool-cases (is_not_implemented_error e)) [
    | inl n ↦ rw n (refl, (refl, refl, refl, _, refl))
    | inr n ↦ elim (Bool-cases (is_code e.code "not_configured")) [
      | inl c ↦ rw (n, c) (refl, (refl, refl, refl, _, refl))
      | inr c ↦ rw (n, c) (refl, (refl, refl, refl, _, refl))
    ]
  ]

  after_approver-IsCoherent :
      (intent : I) (res : ChainToolResult) (x : Result ThrownValue RawDecision × W)
      → res.unsigned_xdr ≢ []
      → IsCoherent intent (after_approver options intent res x).0
  unfolding after_approver
  after_approver-IsCoherent intent res (ok no_decision, w) h = (refl, (refl, refl, refl, _, refl))
  after_approver-IsCoherent intent res (ok bare_value, w) h = (refl, (refl, refl, refl, _, refl))
  after_approver-IsCoherent intent res (ok (decision true reason id), w) h =
      (refl, (res, refl, h, refl, refl))
  after_approver-IsCoherent intent res (ok (decision false reason id), w) h =
      (refl, (refl, refl, refl, _, refl))
  after_approver-IsCoherent intent res (err e, w) h = (refl, (refl, refl, refl, _, refl))

  ask-IsCoherent :
      (intent : I) (o : Option ChainToolResult) (w : W)
      → ((res : ChainToolResult) → o ≡ some res → res.unsigned_xdr ≢ [])
      → IsCoherent intent (ask options intent o w).0
  unfolding ask
  ask-IsCoherent intent none w h = (refl, (refl, refl, refl, _, refl))
  ask-IsCoherent intent (some res) w h =
      after_approver-IsCoherent intent res (options.approver (request_for options intent res) w)
        (h res refl)

  after_tool-IsCoherent :
      (intent : I) (x : Result ThrownValue RawResult × W)
      → IsCoherent intent (after_tool options intent x).0
  unfolding after_tool
  after_tool-IsCoherent intent (ok raw, w) =
      ask-IsCoherent intent (usable_tool_result raw) w (usable_tool_result-xdr raw)
  after_tool-IsCoherent intent (err e, w) = tool_failure-IsCoherent intent e

  run_tool-IsCoherent :
      (intent : I) (o : Option (ChainTool I W)) (w : W)
      → IsCoherent intent (run_tool options intent o w).0
  unfolding run_tool
  run_tool-IsCoherent intent none w = (refl, (refl, refl, refl, _, refl))
  run_tool-IsCoherent intent (some tool) w = after_tool-IsCoherent intent (tool intent w)

  -- Every outcome is for the intent that was asked for. An executed one carries a result with an
  -- XDR, the digest of that XDR and no label; every other one carries a label and nothing to sign.
  pub execute_intent-IsCoherent :
      (intent : I) (w : W) → IsCoherent intent (execute_intent options intent w).0
  unfolding execute_intent
  execute_intent-IsCoherent intent w =
      run_tool-IsCoherent intent (options.chain_tools (options.kind_of intent)) w

  -- With the approver that is installed unless auto-approval was opted into, no intent is
  -- executed, whatever the tools return.
  default_never_executes :
      (intent : I) (w : W)
      → options.approver ≡ resolve_approver false
      → (execute_intent options intent w).0.status ≢ executed
  unfolding resolve_approver
  default_never_executes intent w d h =
      let (res, id, w2, p, out) = execute_intent_executed options intent w h in
      let request = request_for options intent res in
      let denied = sym (ap (λ (gate : Approver I W). gate request p.w1) d) ∙ p.approved in cc
