-- ===== src/Executor/Authority.antt =====
-- No tool runs without authority: a green risk, or a yellow one with an approval that was consumed
-- (`execute` of agent/supervisor/SupervisedToolExecutor.ts).
use toni_ai_agent.Common.{
  Bool, true, some, String, ◌≡◌, ◌≢◌, ◌⊎◌, inl, inr, sym, ap, ◌∙◌, arith, Option-cases,
}
use toni_ai_agent.Types.{Result-cases, ok, Risk, green, yellow, red, AgentAction}
use toni_ai_agent.Approval.Record.{ApprovalRecord}
use toni_ai_agent.Policy.ToolchainSupervisor.{inspect, classify}
use toni_ai_agent.Policy.PermissionEngine.Floor.{evaluate-red}
use toni_ai_agent.Tools.ToolRegistry
use toni_ai_agent.Tools.ToolRegistry.{ToolDefinition}
use toni_ai_agent.Executor.{execute, release}
use toni_ai_agent.Executor.Called.{
  claim_of, Called, Took, request_approval-ne-started, decide-Called,
}
use toni_ai_agent.Executor.State.{SupervisedToolRequest, Tick, given}
use toni_ai_agent.Executor.Request.{
  Config, ExecutorState, Begun, started, action_of, permission_of, has_valid_approval,
}
use toni_ai_agent.Executor.Begin.{
  refuse_approval, deny, consume_approval, allow, by_decision, decide, execute_unlocked,
}

module _ {World : Type 0} (config : Config World) where
  -- The call may run: its risk is green, or yellow with an approval that the request names; and an
  -- approval that is named was consumed, which took it from the store.
  pub record HasAuthority (tick : Tick) (request : SupervisedToolRequest) (risk : Risk)
      (before after : config.port.State) : Type 0 where
    pub risk_allowed :
        (risk ≡ green) ⊎ ((risk ≡ yellow) × ((id : String) × (given request.approval_id ≡ some id)))
    pub taken : Took config tick request before after

  module _ (tick : Tick) (request : SupervisedToolRequest) where
    pub consumed_for :
        (st : ExecutorState config) (id : String)
        → given request.approval_id ≡ some id
        → (consume_approval config tick request st).0 ≡ ok tt
        → (r : ApprovalRecord) × ((config.port.consume st.approvals tick.at_consume
              (claim_of config request id)).0
            ≡ ok r)
    unfolding consume_approval
    consumed_for st id named h =
        elim (Result-cases
          (config.port.consume st.approvals tick.at_consume (claim_of config request id)).0) [
            | inl (e, failed) ↦ ground (arith, named, failed)
            | inr (r, taken) ↦ (r, taken)
          ]

    allow-started :
        (reason : String) (st : ExecutorState config)
        → (allow config tick request reason st).0 ≡ started
        → (consume_approval config tick request st).0 ≡ ok tt
    unfolding allow
    allow-started reason st h = ground arith

    -- what the decision says of a call that starts
    pub decided :
        (action : AgentAction) (valid : Bool) (st : ExecutorState config)
        → (decide config tick request action valid st).0 ≡ started
        → ((action.risk ≡ green) ⊎ ((action.risk ≡ yellow) × (valid ≡ true)))
          × ((consume_approval config tick request st).0 ≡ ok tt)
    unfolding decide by_decision refuse_approval deny
    decided action valid st h =
        let reason = (permission_of config valid request action).reason in
        ground (
          arith,
          request_approval-ne-started config tick request action reason st,
          allow-started reason st,
        )

    pub valid_named :
        (st : ExecutorState config)
        → has_valid_approval config tick request st ≡ true
        → (id : String) × (given request.approval_id ≡ some id)
    unfolding has_valid_approval
    valid_named st h = elim (Option-cases (given request.approval_id)) [
      | inl e ↦ ground (arith, e)
      | inr (id, e) ↦ (id, e)
    ]

    -- The call of a tool that `execute_unlocked` starts is of the tool that the request names.
    pub unlocked :
        (st : ExecutorState config)
        → (execute_unlocked config tick request st).0 ≡ started
        → (tool : ToolDefinition World) × (ToolRegistry.get config.registry request.tool_name
            ≡ ok tool)
          × ((decide config tick request
                (action_of config tick request tool)
                (has_valid_approval config tick request st)
                st).0
              ≡ started)
    unfolding execute_unlocked
    unlocked st h = elim (Result-cases (ToolRegistry.get config.registry request.tool_name)) [
      | inl (e, missing) ↦ ground (arith, missing)
      | inr (tool, found) ↦ (tool, found, ground (arith, found))
    ]

    allowed :
        (st : ExecutorState config) (action : AgentAction)
        → (decide config tick request action (has_valid_approval config tick request st) st).0
          ≡ started
        → (action.risk ≡ green)
          ⊎ ((action.risk ≡ yellow) × ((id : String) × (given request.approval_id ≡ some id)))
    allowed st action h =
        let (risk, consumed) = decided action _ st h in
        elim risk [ inl is ↦ inl is | inr (is, valid) ↦ inr (is, valid_named st valid) ]

    unlocked-decide :
        (st : ExecutorState config) (tool : ToolDefinition World)
        → (execute_unlocked config tick request st).0 ≡ started
        → ToolRegistry.get config.registry request.tool_name ≡ ok tool
        → execute_unlocked config tick request st
          ≡ decide config tick request
              (action_of config tick request tool)
              (has_valid_approval config tick request st)
              st
    unfolding execute_unlocked
    unlocked-decide st tool h found = ground (arith, found)

    execute-unlocked :
        (st : ExecutorState config)
        → (execute config tick request st).0 ≡ started
        → ((execute_unlocked config tick request (record st { active = true })).0 ≡ started)
          × ((execute config tick request st).1
              ≡ (execute_unlocked config tick request (record st { active = true })).1)
    unfolding execute release
    execute-unlocked st h = (ground arith, ground arith)

    -- Whenever `execute` calls a tool, the tool that it calls, and whose outcome the running call
    -- waits for, is the registered one of the request's name, with the request's input as the
    -- tool's own check passes it on. The risk that the permission engine gives the call is green, or
    -- it is yellow and the request names an approval. An approval that the request names has been
    -- consumed in this very call by a claim with the request's session, action and argument hash,
    -- and the store is as that consumption left it; without one the store is as it was.
    pub execute-HasAuthority :
        (st : ExecutorState config)
        → (execute config tick request st).0 ≡ started
        → (tool : ToolDefinition World) × (ToolRegistry.get config.registry request.tool_name
            ≡ ok tool)
          × Called config tool request st.world (execute config tick request st).1
          × HasAuthority tick request
              (action_of config tick request tool).risk
              st.approvals
              (execute config tick request st).1.approvals
    execute-HasAuthority st h =
        let held = record st { active = true } in
        let (begun, ended) = execute-unlocked st h in
        let (tool, found, decision) = unlocked held begun in
        let action = action_of config tick request tool in
        let valid = has_valid_approval config tick request held in
        let (called, taken) =
          decide-Called config tick request tool action valid held found decision in
        let same =
          ended
          ∙ ap (λ (p : Begun × ExecutorState config). p.1)
              (unlocked-decide held tool begun found) in
        (
          tool,
          found,
          rw same called,
          record { risk_allowed = allowed held action decision; taken = rw same taken },
        )

    no_authority :
        (risk : Risk) (before after : config.port.State)
        → risk ≡ red
        → ¬ HasAuthority tick request risk before after
    no_authority risk before after e h = elim h.risk_allowed [ inl is ↦ cc | inr (is, _) ↦ cc ]

    action_of-red :
        (tool : ToolDefinition World)
        → tool.risk ≡ red
        → (action_of config tick request tool).risk ≡ red
    unfolding action_of inspect classify
    action_of-red tool h =
        (evaluate-red config.lower config.policy _ config.context (some request.input) (rw h)).0

    -- A tool that is registered as red is never called, whatever the policy says and whatever
    -- approval the request names.
    pub red_never_runs :
        (st : ExecutorState config) (tool : ToolDefinition World)
        → ToolRegistry.get config.registry request.tool_name ≡ ok tool
        → tool.risk ≡ red
        → (execute config tick request st).0 ≢ started
    red_never_runs st tool found is_red h =
        let (tool', found', called, authority') = execute-HasAuthority st h in
        let same : tool ≡ tool' = cc (found, found') in
        no_authority _ _ _
          (action_of-red tool' (ap (λ (t : ToolDefinition World). t.risk) (sym same) ∙ is_red))
          authority'
