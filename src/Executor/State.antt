-- ===== src/Executor/State.antt =====
-- The state of agent/supervisor/SupervisedToolExecutor.ts, with agent/core/SessionLock.ts (`active`),
-- agent/core/CancellationRegistry.ts (`controllers`) and the counters of
-- app/observability/Metrics.ts that it moves.
use toni_ai_agent.Common.{ℕ, Bool, Option, none, some, List, String, str_eq, if◌then◌else◌}
use toni_ai_agent.Common.JsMap.{JsMap}
use toni_ai_agent.Types.Json.{Json}
use toni_ai_agent.Approval.Manager.{ApprovalManager}
use toni_ai_agent.Limits.SessionBudget.{SessionBudget}
use toni_ai_agent.Tools.SafeToolExecutor.{ToolRun}

-- An `AbortSignal` goes by a name; `aborted` of the state lists those that have been aborted.
pub record SupervisedToolRequest : Type 0 where
  pub session_id : String
  pub action_id : String
  pub approval_id : Option String
  pub tool_name : String
  pub input : Json
  pub signal : String

pub record SupervisedToolResult : Type 0 where
  pub tool_name : String
  pub argument_hash : String
  pub output : Json
  pub executed : Bool
  pub approved : Bool
  pub action_id : String
  pub approval_id : Option String

pub record PendingExecution : Type 0 where
  pub request : SupervisedToolRequest
  pub approval_id : String

pub data AuditEventType : Type 0 where
  approval_requested approval_consumed approval_expired : AuditEventType
  tool_allowed tool_denied tool_executed tool_execution_failed : AuditEventType

pub record AuditEvent : Type 0 where
  pub type : AuditEventType
  pub session_id : String
  pub action_id : String
  pub summary : Option String
  pub reason : Option String

pub record Metrics : Type 0 where
  pub tool_calls_total : ℕ
  pub tool_calls_denied : ℕ
  pub approvals_created : ℕ
  pub approvals_consumed : ℕ
  pub tool_duration_total_ms : ℕ

-- The call that waits for its tool, with its own abort controller.
pub record Running : Type 0 where
  pub request : SupervisedToolRequest
  pub controller_aborted : Bool
  pub run : ToolRun

pub record State (World Approvals : Type 0) : Type 0 where
  pub active : Bool
  pub controllers : JsMap (Unit {0})
  pub pending : JsMap PendingExecution
  pub approvals : Approvals
  pub manager : ApprovalManager
  pub budget : SessionBudget
  pub audit : List AuditEvent
  pub metrics : Metrics
  pub running : Option Running
  pub aborted : List String
  pub world : World

-- The readings of the clock and the new identifier that one call makes.
pub record Tick : Type 0 where
  pub at_get : ℕ
  pub at_put : ℕ
  pub at_consume : ℕ
  pub iso : String
  pub uuid : String

-- A falsy text is missing or empty.
abbrev pub given : Option String → Option String
given none = none
given (some s) = if str_eq s "" then none else some s
