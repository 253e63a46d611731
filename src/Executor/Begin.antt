-- ===== src/Executor/Begin.antt =====
-- `executeUnlocked` of agent/supervisor/SupervisedToolExecutor.ts, up to the call of the tool.
use Prim.Native.String.{◌++◌ as ◌+++◌}
use toni_ai_agent.Common.{◌+◌, Bool, false, not, ◌&&◌, none, some, String, is_some, if◌then◌else◌}
use toni_ai_agent.Common.Text.{member}
use toni_ai_agent.Common.JsMap
use toni_ai_agent.Common.JsMap.{JsMap}
use toni_ai_agent.Types.{
  Thrown, agent_error, plain_error, Result, ok, err, message_of, is_yellow, AgentAction,
  ApprovalRequest, message_of,
}
use toni_ai_agent.Types.{AgentErrorCode}
use toni_ai_agent.Types.Json.{str, obj, end, member as field}
use toni_ai_agent.Policy.ToolPermission
use toni_ai_agent.Policy.ToolPermission.{
  ToolPermissionDecision, ToolPermissionResult, decide_tool_permission,
}
use toni_ai_agent.Approval.Manager
use toni_ai_agent.Tools.ToolRegistry
use toni_ai_agent.Tools.ToolRegistry.{ToolRegistry, ToolDefinition}
use toni_ai_agent.Tools.SafeToolExecutor.{was_cancelled, begin_execute}
use toni_ai_agent.Executor.State.{
  SupervisedToolRequest, SupervisedToolResult, Tick, given, approval_requested, approval_consumed,
  approval_expired, tool_allowed, tool_denied, tool_execution_failed,
}
use toni_ai_agent.Executor.Request.{
  Begun, refused, replied, started, risk_text, Config, ExecutorState, append, user, argument_hash,
  has_valid_approval, action_of, permission_of,
}

module _ {World : Type 0} (config : Config World) where
  open config use {lower, show, hash_tool_call, policy, context, registry, port}

  -- the result that asks for an approval
  unfoldable pub approval_reply :
      SupervisedToolRequest → AgentAction → String → SupervisedToolResult
  approval_reply request action approval_id = record {
    tool_name = request.tool_name;
    argument_hash = argument_hash config request;
    output = obj (
        field "status" (str "approval_required") (
          field "actionId" (str request.action_id) (
            field "approvalId" (str approval_id) (
              field "description" (str action.description)
                (field "risk" (str (risk_text action.risk)) end)))));
    executed = false;
    approved = false;
    action_id = request.action_id;
    approval_id = some approval_id;
  }

  -- the branch of a yellow call without an approval
  unfoldable pub request_approval :
      Tick
      → SupervisedToolRequest
      → AgentAction
      → String
      → ExecutorState config
      → Begun × ExecutorState config
  unfolding append
  request_approval tick request action reason st =
      let (stored, approvals') = port.put st.approvals tick.at_put (record {
        approval_id = tick.uuid;
        user_id = user config;
        session_id = request.session_id;
        action_id = request.action_id;
        tool_name = request.tool_name;
        argument_hash = argument_hash config request;
      }) in
      let asked : ApprovalRequest = record { action = action; reason = reason; approved = none } in
      elim stored [
        | err e ↦ (refused e, record st { approvals = approvals' })
        | ok _ ↦ (
          replied (approval_reply request action tick.uuid),
          append config request approval_requested
              (some "Human approval required for yellow-risk tool execution.") none
              (record st {
                approvals = approvals';
                pending =
                    JsMap.set st.pending request.action_id
                      (record { request = request; approval_id = tick.uuid });
                metrics = record (st.metrics) {
                  approvals_created = st.metrics.approvals_created + 1;
                };
                manager = (Manager.request st.manager asked).1;
              }),
        )
      ]

  -- the branch of a yellow call that names an approval, and of no other
  unfoldable pub refuse_approval :
      SupervisedToolRequest → String → ExecutorState config → Begun × ExecutorState config
  unfolding append
  refuse_approval request reason st = (
    refused (agent_error AgentErrorCode.approval_required reason false),
    append config request tool_denied none (some reason) (record st {
      metrics = record (st.metrics) { tool_calls_denied = st.metrics.tool_calls_denied + 1 };
    }),
  )

  unfoldable pub deny :
      SupervisedToolRequest → String → ExecutorState config → Begun × ExecutorState config
  unfolding append
  deny request reason st = (
    refused (agent_error AgentErrorCode.permission_denied reason false),
    append config request tool_denied none (some reason) st,
  )

  abbrev pub expired_error : Thrown
  expired_error =
      agent_error AgentErrorCode.approval_expired "Approval is invalid or expired." false

  -- `this.approvals.consume(…)`, where the call names an approval
  unfoldable pub consume_approval :
      Tick → SupervisedToolRequest → ExecutorState config → Result (Unit {0}) × ExecutorState config
  unfolding append
  consume_approval tick request st = elim (given request.approval_id) [
    | none ↦ (ok tt, st)
    | some id ↦
        let (taken, approvals') = port.consume st.approvals tick.at_consume (record {
          approval_id = id;
          session_id = request.session_id;
          action_id = request.action_id;
          argument_hash = argument_hash config request;
          user_id = user config;
          tool_name = request.tool_name;
        }) in
        elim taken [
          | ok _ ↦ (
            ok tt,
            append config request approval_consumed
                (some "Approval consumed immediately before tool execution.") none
                (record st {
                  approvals = approvals';
                  metrics = record (st.metrics) {
                    approvals_consumed = st.metrics.approvals_consumed + 1;
                  };
                }),
          )
          | err e ↦ (
            err expired_error,
            append config request approval_expired none (some "Approval could not be consumed.")
                (record st { approvals = approvals' }),
          )
        ]
  ]

  -- from `this.cancellation.create` to the call of the tool, or to what is thrown before it
  unfoldable pub start_tool :
      SupervisedToolRequest → String → ExecutorState config → Begun × ExecutorState config
  start_tool request reason st =
      let allowed =
        append config request tool_allowed (some reason) none
          (record st { controllers = JsMap.set st.controllers request.action_id tt }) in
      let (run, budget', world') =
        begin_execute show hash_tool_call registry (member request.signal st.aborted)
          request.tool_name request.input st.budget st.world in
      if JsMap.has st.controllers request.action_id
      then (refused (plain_error ("Operation already exists: " +++ request.action_id)), st)
      else elim run [
        | err e ↦ (
          refused e,
          append config request tool_execution_failed none (some (message_of e)) (record allowed {
            budget = budget';
            world = world';
            controllers = JsMap.delete allowed.controllers request.action_id;
          }),
        )
        | ok r ↦ (
          started,
          record allowed {
            budget = budget';
            world = world';
            metrics = record (st.metrics) { tool_calls_total = st.metrics.tool_calls_total + 1 };
            running = some (record { request = request; controller_aborted = false; run = r });
          },
        )
      ]

  -- the branch of a call that is allowed
  unfoldable pub allow :
      Tick → SupervisedToolRequest → String → ExecutorState config → Begun × ExecutorState config
  allow tick request reason st =
      let (consumed, st') = consume_approval tick request st in
      elim consumed [ err e ↦ (refused e, st') | ok _ ↦ start_tool request reason st' ]

  -- the branches on the decision
  unfoldable pub by_decision :
      Tick
      → SupervisedToolRequest
      → AgentAction
      → ToolPermissionDecision
      → String
      → ExecutorState config
      → Begun × ExecutorState config
  by_decision tick request action ToolPermission.approval_required reason st =
      if is_yellow action.risk && not (is_some (given request.approval_id))
      then request_approval tick request action reason st
      else refuse_approval request reason st
  by_decision tick request action ToolPermission.deny reason st = deny request reason st
  by_decision tick request action ToolPermission.allow reason st = allow tick request reason st

  unfoldable pub decide :
      Tick
      → SupervisedToolRequest
      → AgentAction
      → Bool
      → ExecutorState config
      → Begun × ExecutorState config
  unfolding permission_of decide_tool_permission by_decision
  decide tick request action valid st =
      let permission = permission_of config valid request action in
      by_decision tick request action permission.decision permission.reason st

  -- `executeUnlocked`
  unfoldable pub execute_unlocked :
      Tick → SupervisedToolRequest → ExecutorState config → Begun × ExecutorState config
  execute_unlocked tick request st =
      if member request.signal st.aborted
      then (refused was_cancelled, st)
      else elim (ToolRegistry.get registry request.tool_name) [
        | err e ↦ (refused e, st)
        | ok tool ↦
            let valid = has_valid_approval config tick request st in
            if is_some (given request.approval_id) && not valid
            then (
              refused expired_error,
              append config request approval_expired none
                  (some
                    "Approval is invalid, expired, reused, or does not match the requested action.")
                  st,
            )
            else decide tick request (action_of config tick request tool) valid st
      ]
