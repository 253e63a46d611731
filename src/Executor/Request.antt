-- ===== src/Executor/Request.antt =====
-- What the executor of agent/supervisor/SupervisedToolExecutor.ts is built with, and what it asks about
-- a request before it decides on it.
use toni_ai_agent.Common.{ℕ, Bool, false, ◌&&◌, Option, none, some, [], ◌∷◌, ◌++◌, String, str_eq}
use toni_ai_agent.Types.{Thrown, Risk, green, yellow, red, AgentAction, AgentContext}
use toni_ai_agent.Types.Json.{Json}
use toni_ai_agent.Policy.ToolPermission.{ToolPermissionResult, decide_tool_permission}
use toni_ai_agent.Policy.ToolchainSupervisor.{inspect}
use toni_ai_agent.Policy.PermissionEngine.{PermissionPolicy, evaluate}
use toni_ai_agent.Approval.Record.{ApprovalRecord}
use toni_ai_agent.Approval.Port.{ApprovalStorePort}
use toni_ai_agent.Tools.ToolRegistry.{ToolRegistry, ToolDefinition}
use toni_ai_agent.Executor.State.{
  SupervisedToolRequest, SupervisedToolResult, AuditEventType, State, Tick, given,
}

-- What a step of `execute` comes to: an error, a result, or a call that waits for its tool.
pub data Begun : Type 0 where
  refused : Thrown → Begun
  replied : SupervisedToolResult → Begun
  started : Begun

unfoldable pub risk_text : Risk → String
risk_text green = "green"
risk_text yellow = "yellow"
risk_text red = "red"

-- What the executor is built with, and the functions of the host.
pub record Config (World : Type 0) : Type 1 where
  pub lower : String → String
  pub show : ℕ → String
  pub hash_tool_call : String → Json → String
  pub policy : PermissionPolicy
  pub context : AgentContext
  pub registry : ToolRegistry World
  pub port : ApprovalStorePort

module _ {World : Type 0} (config : Config World) where
  open config use {lower, show, hash_tool_call, policy, context, registry, port}

  abbrev pub ExecutorState : Type 0
  ExecutorState = State World port.State

  -- `this.audit.append({ type, sessionId, actionId, summary | reason })`
  unfoldable pub append :
      SupervisedToolRequest
      → AuditEventType
      → Option String
      → Option String
      → ExecutorState
      → ExecutorState
  append request type summary reason st = record st {
    audit =
        st.audit
        ++ record {
          type = type;
          session_id = request.session_id;
          action_id = request.action_id;
          summary = summary;
          reason = reason;
        }
          ∷ [];
  }

  -- `this.context.userId ?? "local-user"`
  unfoldable pub user : String
  user = elim context.user_id [ none ↦ "local-user" | some id ↦ id ]

  abbrev pub argument_hash : SupervisedToolRequest → String
  argument_hash request = hash_tool_call request.tool_name request.input

  -- `hasValidApproval` of a candidate
  abbrev pub is_valid : SupervisedToolRequest → Option ApprovalRecord → Bool
  is_valid request none = false
  is_valid request (some candidate) =
      str_eq candidate.session_id request.session_id
      && (str_eq candidate.action_id request.action_id
          && str_eq candidate.argument_hash (argument_hash request))

  unfoldable pub has_valid_approval : Tick → SupervisedToolRequest → ExecutorState → Bool
  has_valid_approval tick request st = elim (given request.approval_id) [
    | none ↦ false
    | some id ↦ is_valid request (port.get st.approvals tick.at_get id)
  ]

  -- the action that the supervisor and the permission engine make of the call
  unfoldable pub action_of : Tick → SupervisedToolRequest → ToolDefinition World → AgentAction
  action_of tick request tool =
      let supervised = inspect lower (record {
        tool = request.tool_name;
        operation = "execute";
        input = request.input;
        risk = tool.risk;
      }) in
      evaluate lower policy
        (record {
          id = request.action_id;
          tool = supervised.tool;
          operation = supervised.operation;
          description = supervised.description;
          risk = supervised.risk;
          requires_approval = supervised.requires_approval;
          created_at = tick.iso;
        })
        context (some request.input)

  unfoldable pub permission_of : Bool → SupervisedToolRequest → AgentAction → ToolPermissionResult
  permission_of valid request action = decide_tool_permission (record {
    session_id = request.session_id;
    tool_name = request.tool_name;
    risk = action.risk;
    argument_hash = argument_hash request;
    has_valid_approval = valid;
  })
