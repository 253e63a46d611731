-- ===== src/Executor/Touch.antt =====
-- What a step of the executor does to the approval store: nothing, one `put` or one `consume`.
use toni_ai_agent.Common.{
  ℕ, true, some, String, ◌≡◌, inl, inr, refl, arith, Option-cases, Bool-cases, Bool, not, ◌||◌, ◌⊎◌,
  ◌&&◌, is_some, subst, sym,
}
use toni_ai_agent.Common.Text.{member}
use toni_ai_agent.Common.JsMap
use toni_ai_agent.Types.{Result-cases, AgentAction}
use toni_ai_agent.Approval.Record.{ApprovalInput, ApprovalClaim}
use toni_ai_agent.Approval.Port.{ApprovalStorePort}
use toni_ai_agent.Approval.Manager
use toni_ai_agent.Tools.ToolRegistry
use toni_ai_agent.Executor.{execute, release, approve_and_resume, is_granted}
use toni_ai_agent.Executor.Called.{claim_of}
use toni_ai_agent.Executor.State.{SupervisedToolRequest, Tick, given}
use toni_ai_agent.Executor.Request.{
  Config, ExecutorState, Begun, refused, replied, started, append, permission_of,
  has_valid_approval, action_of, user, argument_hash,
}
use toni_ai_agent.Executor.Begin.{
  request_approval, refuse_approval, deny, consume_approval, start_tool, allow, by_decision, decide,
  execute_unlocked,
}

module _ (port : ApprovalStorePort) where
  pub data Touch (uuid : String) (s t : port.State) : Type 0 where
    untouched : t ≡ s → Touch uuid s t
    stored :
        (now : ℕ) (input : ApprovalInput)
        → input.approval_id ≡ uuid
        → t ≡ (port.put s now input).1
        → Touch uuid s t
    claimed : (now : ℕ) (claim : ApprovalClaim) → t ≡ (port.consume s now claim).1 → Touch uuid s t

module _ {World : Type 0} (config : Config World) where
  start_tool-approvals :
      (request : SupervisedToolRequest) (reason : String) (st : ExecutorState config)
      → (start_tool config request reason st).1.approvals ≡ st.approvals
  unfolding start_tool append
  start_tool-approvals request reason st = ground arith

  module _ (tick : Tick) (request : SupervisedToolRequest) (st : ExecutorState config) where
    consume_approval-Touch :
        Touch config.port tick.uuid st.approvals
          (consume_approval config tick request st).1.approvals
    unfolding consume_approval append
    consume_approval-Touch = elim (Option-cases (given request.approval_id)) [
      | inl e ↦ untouched (ground (arith, e))
      | inr (id, e) ↦
          claimed tick.at_consume (claim_of config request id)
            (elim (Result-cases
              (config.port.consume st.approvals tick.at_consume (claim_of config request id)).0) [
                | inl (x, f) ↦ ground (arith, e, f)
                | inr (x, f) ↦ ground (arith, e, f)
              ])
    ]

    pub allow-approvals :
        (reason : String)
        → (allow config tick request reason st).1.approvals
          ≡ (consume_approval config tick request st).1.approvals
    unfolding allow
    allow-approvals reason =
        ground
          (arith, start_tool-approvals request reason (consume_approval config tick request st).1)

    -- the approval that the executor puts for a request
    abbrev pub input_of : ApprovalInput
    input_of = record {
      approval_id = tick.uuid;
      user_id = user config;
      session_id = request.session_id;
      action_id = request.action_id;
      tool_name = request.tool_name;
      argument_hash = argument_hash config request;
    }

    request_approval-Touch :
        (action : AgentAction) (reason : String)
        → Touch config.port tick.uuid st.approvals
            (request_approval config tick request action reason st).1.approvals
    unfolding request_approval append
    request_approval-Touch action reason =
        stored tick.at_put input_of refl
          (elim (Result-cases (config.port.put st.approvals tick.at_put input_of).0) [
            | inl (x, f) ↦ ground (arith, f)
            | inr (x, f) ↦ ground (arith, f)
          ])

    allow-Touch :
        (reason : String)
        → Touch config.port tick.uuid st.approvals (allow config tick request reason st).1.approvals
    allow-Touch reason =
        subst (Touch config.port tick.uuid st.approvals) (sym (allow-approvals reason))
          consume_approval-Touch

    decide-approvals :
        (action : AgentAction) (valid : Bool)
        → ((decide config tick request action valid st).1.approvals ≡ st.approvals)
          ⊎ (((decide config tick request action valid st).1.approvals
                ≡ (request_approval config tick request action
                    (permission_of config valid request action).reason
                    st).1.approvals)
              ⊎ ((decide config tick request action valid st).1.approvals
                  ≡ (allow config tick request
                      (permission_of config valid request action).reason
                      st).1.approvals))
    unfolding decide by_decision refuse_approval deny append
    decide-approvals action valid = ground arith

    -- A step of the executor leaves the approval store alone, puts the approval that it names
    -- itself, or makes one claim.
    decide-Touch :
        (action : AgentAction) (valid : Bool)
        → Touch config.port tick.uuid st.approvals
            (decide config tick request action valid st).1.approvals
    decide-Touch action valid =
        let reason = (permission_of config valid request action).reason in
        let T = Touch config.port tick.uuid st.approvals in
        elim (decide-approvals action valid) [
          | inl e ↦ untouched e
          | inr rest ↦ elim rest [
            | inl e ↦ subst T (sym e) (request_approval-Touch action reason)
            | inr e ↦ subst T (sym e) (allow-Touch reason)
          ]
        ]

    execute_unlocked-approvals :
        ((execute_unlocked config tick request st).1.approvals ≡ st.approvals)
        ⊎ ((action : AgentAction) × (valid : Bool) × ((execute_unlocked config tick request
                st).1.approvals
              ≡ (decide config tick request action valid st).1.approvals))
    unfolding execute_unlocked append
    execute_unlocked-approvals =
        elim (Result-cases (ToolRegistry.get config.registry request.tool_name)) [
          | inl (e, missing) ↦ inl (ground (arith, missing))
          | inr (tool, found) ↦
              elim (Bool-cases (
                member request.signal st.aborted
                || (is_some (given request.approval_id)
                    && not (has_valid_approval config tick request st)))) [
                      | inl early ↦ inl (ground (arith, found, early))
                      | inr late ↦ inr (
                        action_of config tick request tool,
                        has_valid_approval config tick request st,
                        ground (arith, found, late),
                      )
                    ]
        ]

    execute_unlocked-Touch :
        Touch config.port tick.uuid st.approvals
          (execute_unlocked config tick request st).1.approvals
    execute_unlocked-Touch = elim execute_unlocked-approvals [
      | inl e ↦ untouched e
      | inr (action, valid, e) ↦
          subst (Touch config.port tick.uuid st.approvals) (sym e) (decide-Touch action valid)
    ]

  module _ (tick : Tick) where
    pub release-approvals :
        (p : Begun × ExecutorState config) → (release config p).1.approvals ≡ p.1.approvals
    unfolding release
    release-approvals (started, st) = refl
    release-approvals (refused e, st) = refl
    release-approvals (replied r, st) = refl

    execute-approvals :
        (request : SupervisedToolRequest) (st : ExecutorState config)
        → ((execute config tick request st).1.approvals ≡ st.approvals)
          ⊎ ((execute config tick request st).1.approvals
              ≡ (execute_unlocked config tick request (record st { active = true })).1.approvals)
    unfolding execute
    execute-approvals request st = ground (
      arith,
      release-approvals (execute_unlocked config tick request (record st { active = true })),
    )

    pub execute-Touch :
        (request : SupervisedToolRequest) (st : ExecutorState config)
        → Touch config.port tick.uuid st.approvals (execute config tick request st).1.approvals
    execute-Touch request st = elim (execute-approvals request st) [
      | inl e ↦ untouched e
      | inr e ↦
          subst (Touch config.port tick.uuid st.approvals) (sym e)
            (execute_unlocked-Touch tick request (record st { active = true }))
    ]

    approve-approvals :
        (action_id : String) (st : ExecutorState config)
        → ((approve_and_resume config tick action_id st).1.approvals ≡ st.approvals)
          ⊎ ((request : SupervisedToolRequest) × (before : ExecutorState config) × (before.approvals
                ≡ st.approvals)
              × ((approve_and_resume config tick action_id st).1.approvals
                  ≡ (execute config tick request before).1.approvals))
    unfolding approve_and_resume
    approve-approvals action_id st = elim (Option-cases (JsMap.get st.pending action_id)) [
      | inl e ↦ inl (ground (arith, e))
      | inr (pending, e) ↦ elim (Result-cases (Manager.approve st.manager action_id).0) [
        | inl (x, f) ↦ inl (ground (arith, e, f))
        | inr (asked, f) ↦ elim (Bool-cases (is_granted asked.approved)) [
          | inr g ↦ inl (ground (arith, e, f, g))
          | inl g ↦ inr (
            record (pending.request) { approval_id = some pending.approval_id },
            record st {
              manager = (Manager.approve st.manager action_id).1;
              pending = JsMap.delete st.pending action_id;
            },
            refl,
            ground (arith, e, f, g),
          )
        ]
      ]
    ]

    pub approve-Touch :
        (action_id : String) (st : ExecutorState config)
        → Touch config.port tick.uuid st.approvals
            (approve_and_resume config tick action_id st).1.approvals
    approve-Touch action_id st = elim (approve-approvals action_id st) [
      | inl e ↦ untouched e
      | inr (request, before, same, e) ↦ subst (Touch config.port tick.uuid st.approvals) (sym e) (
          subst
            (λ s. Touch config.port tick.uuid s (execute config tick request before).1.approvals)
            same (execute-Touch request before))
    ]
