-- ===== src/Executor/Called.antt =====
-- What a call that starts has done: the tool that it called, with what, and what it took from the
-- approval store (`executeUnlocked` of agent/supervisor/SupervisedToolExecutor.ts, from
-- `this.approvals.consume` to the call of the tool).
use toni_ai_agent.Common.{
  Bool, false, none, some, String, ◌≡◌, ◌≢◌, inl, inr, sym, ap, ◌∙◌, subst, arith, Option-cases,
}
use toni_ai_agent.Types.{Result-cases, ok, AgentAction}
use toni_ai_agent.Types.Json.{Json}
use toni_ai_agent.Approval.Record.{ApprovalRecord, ApprovalClaim}
use toni_ai_agent.Tools.ToolRegistry
use toni_ai_agent.Tools.ToolRegistry.{ToolDefinition}
use toni_ai_agent.Tools.SafeToolExecutor.{validated, call_tool, begin_execute}
use toni_ai_agent.Executor.State.{SupervisedToolRequest, Tick, given}
use toni_ai_agent.Executor.Request.{
  Config, ExecutorState, Begun, started, append, user, argument_hash, permission_of,
}
use toni_ai_agent.Executor.Begin.{
  request_approval, refuse_approval, deny, consume_approval, start_tool, allow, by_decision, decide,
}

module _ {World : Type 0} (config : Config World) where
  -- the claim that the executor makes on the approval that a request names
  abbrev pub claim_of : SupervisedToolRequest → String → ApprovalClaim
  claim_of request id = record {
    approval_id = id;
    session_id = request.session_id;
    action_id = request.action_id;
    argument_hash = argument_hash config request;
    user_id = user config;
    tool_name = request.tool_name;
  }

  -- The tool was called once, in the world `before`, with the request's input as the tool's own check
  -- passes it on; what it returns or throws is what the running call waits for.
  pub record Called (tool : ToolDefinition World) (request : SupervisedToolRequest) (before : World)
      (after : ExecutorState config) : Type 0 where
    pub input : Json
    pub checked : validated tool request.input ≡ ok input
    pub waits :
        after.running
        ≡ some (record {
          request = request;
          controller_aborted = false;
          run = record {
            tool_name = request.tool_name;
            argument_hash = config.hash_tool_call request.tool_name input;
            outcome = (tool.execute input before).0;
          };
        })
    pub left : after.world ≡ (tool.execute input before).1

  module _ (request : SupervisedToolRequest) (tool : ToolDefinition World)
      (found : ToolRegistry.get config.registry request.tool_name ≡ ok tool) where
    start_tool-Called :
        (reason : String) (st : ExecutorState config)
        → (start_tool config request reason st).0 ≡ started
        → Called tool request st.world (start_tool config request reason st).1
    unfolding start_tool begin_execute call_tool append
    start_tool-Called reason st h = elim (Result-cases (validated tool request.input)) [
      | inl (e, bad) ↦ absurd (ground (arith, found, bad))
      | inr (input, fine) ↦ record {
        input = input;
        checked = fine;
        waits = ground (arith, found, fine);
        left = ground (arith, found, fine);
      }
    ]

  start_tool-approvals :
      (request : SupervisedToolRequest) (reason : String) (st : ExecutorState config)
      → (start_tool config request reason st).1.approvals ≡ st.approvals
  unfolding start_tool append
  start_tool-approvals request reason st = ground arith

  -- What became of the approvals: an approval that the request names was consumed by the claim of
  -- the request, and the store is as that left it; without one the store is as it was.
  pub data Took (tick : Tick) (request : SupervisedToolRequest) (before after : config.port.State)
      : Type 0 where
    nothing : given request.approval_id ≡ none → after ≡ before → Took tick request before after
    approval :
        (id : String) (r : ApprovalRecord)
        → given request.approval_id ≡ some id
        → (config.port.consume before tick.at_consume (claim_of request id)).0 ≡ ok r
        → after ≡ (config.port.consume before tick.at_consume (claim_of request id)).1
        → Took tick request before after

  module _ (tick : Tick) (request : SupervisedToolRequest) where
    consume_approval-world :
        (st : ExecutorState config) → (consume_approval config tick request st).1.world ≡ st.world
    unfolding consume_approval append
    consume_approval-world st = ground arith

    consume_approval-Took :
        (st : ExecutorState config)
        → (consume_approval config tick request st).0 ≡ ok tt
        → Took tick request st.approvals (consume_approval config tick request st).1.approvals
    unfolding consume_approval append
    consume_approval-Took st h = elim (Option-cases (given request.approval_id)) [
      | inl unnamed ↦ nothing unnamed (ground (arith, unnamed))
      | inr (id, named) ↦
          elim (Result-cases
            (config.port.consume st.approvals tick.at_consume (claim_of request id)).0) [
              | inl (e, failed) ↦ absurd (ground (arith, named, failed))
              | inr (r, taken) ↦ approval id r named taken (ground (arith, named, taken))
            ]
    ]

    allow-cases :
        (reason : String) (st : ExecutorState config)
        → (allow config tick request reason st).0 ≡ started
        → ((consume_approval config tick request st).0 ≡ ok tt)
          × (allow config tick request reason st
              ≡ start_tool config request reason (consume_approval config tick request st).1)
    unfolding allow
    allow-cases reason st h = elim (Result-cases (consume_approval config tick request st).0) [
      | inl (e, failed) ↦ absurd (ground (arith, failed))
      | inr (done, consumed) ↦ (ground (arith, consumed), ground (arith, consumed))
    ]

    pub request_approval-ne-started :
        (action : AgentAction) (reason : String) (st : ExecutorState config)
        → (request_approval config tick request action reason st).0 ≢ started
    unfolding request_approval
    request_approval-ne-started action reason st = ground arith

    decide-allow :
        (action : AgentAction) (valid : Bool) (st : ExecutorState config)
        → (decide config tick request action valid st).0 ≡ started
        → decide config tick request action valid st
          ≡ allow config tick request (permission_of config valid request action).reason st
    unfolding decide by_decision refuse_approval deny
    decide-allow action valid st h =
        let reason = (permission_of config valid request action).reason in
        ground (arith, request_approval-ne-started action reason st)

    -- Where the decision lets a call start, its tool has been called, and its approval taken.
    pub decide-Called :
        (tool : ToolDefinition World) (action : AgentAction) (valid : Bool)
        (st : ExecutorState config)
        → ToolRegistry.get config.registry request.tool_name ≡ ok tool
        → (decide config tick request action valid st).0 ≡ started
        → Called tool request st.world (decide config tick request action valid st).1
          × Took tick request st.approvals (decide config tick request action valid st).1.approvals
    decide-Called tool action valid st found h =
        let reason = (permission_of config valid request action).reason in
        let allowed = decide-allow action valid st h in
        let (consumed, starts) =
          allow-cases reason st
            (ap (λ (p : Begun × ExecutorState config). p.0) (sym allowed) ∙ h) in
        let st' = (consume_approval config tick request st).1 in
        let ran = allowed ∙ starts in
        rw ran (
          subst (λ w. Called tool request w (start_tool config request reason st').1)
              (consume_approval-world st)
              (start_tool-Called request tool found reason st'
                (ap (λ (p : Begun × ExecutorState config). p.0) (sym ran) ∙ h)),
          rw (start_tool-approvals request reason st') (consume_approval-Took st consumed),
        )
