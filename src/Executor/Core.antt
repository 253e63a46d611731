-- ===== src/Executor/Core.antt =====
-- agent/core/SupervisedToolExecutor.ts, which wraps the executor for the provider, and
-- agent/core/ApprovalContinuation.ts. `parse` stands for the host's `JSON.parse`; a call that waits
-- for its tool has no result yet.
use Prim.Native.String.{◌++◌ as ◌+++◌}
use toni_ai_agent.Common.{ℕ, false, not, Option, none, some, List, String, if◌then◌else◌}
use toni_ai_agent.Common.JsMap
use toni_ai_agent.Common.JsMap.{JsMap}
use toni_ai_agent.Types.{AgentContext, plain_error, Result, ok, err, message_of}
use toni_ai_agent.Types.Json.{Json, str, obj, member, end}
use toni_ai_agent.Types.ToolCall.{ToolExecutionContext, ToolExecutionResult}
use toni_ai_agent.Approval.Manager
use toni_ai_agent.Approval.Manager.{ApprovalManager}
use toni_ai_agent.Executor.{execute, approve_and_resume, settle, is_granted}
use toni_ai_agent.Executor.State.{SupervisedToolResult, Running, Tick}
use toni_ai_agent.Executor.Request.{Config, ExecutorState, Begun, refused, replied, started}

-- `{ ok: result.executed, … }`
unfoldable pub result_of : SupervisedToolResult → ToolExecutionResult
result_of result = record {
  ok = result.executed;
  approved = result.approved;
  output = some result.output;
  operation_id = some result.action_id;
}

-- `{ ok: false, approved: false, output: { error } }`
unfoldable pub failure : String → Option String → ToolExecutionResult
failure message operation_id = record {
  ok = false;
  approved = false;
  output = some (obj (member "error" (str message) end));
  operation_id = operation_id;
}

-- the result of a step, where the call has ended
unfoldable pub answer : Option String → Begun → Option ToolExecutionResult
answer operation_id (refused e) = some (failure (message_of e) operation_id)
answer operation_id (replied result) = some (result_of result)
answer operation_id started = none

module _ {World : Type 0} (config : Config World) (parse : String → Option Json)
    (session_id : String) where
  -- `execute`, with the identifier of the action and the name of the signal that it makes
  unfoldable pub execute_call :
      Tick
      → String
      → String
      → ToolExecutionContext
      → ExecutorState config
      → Option ToolExecutionResult × ExecutorState config
  execute_call tick action_id signal call st = elim (parse call.arguments_json) [
    | none ↦ (some (failure "Tool arguments were not valid JSON" none), st)
    | some input ↦
        let (begun, st') =
          execute config tick
            (record {
              session_id = session_id;
              action_id = action_id;
              approval_id = none;
              tool_name = call.name;
              input = input;
              signal = signal;
            })
            st in
        (answer (some call.call_id) begun, st')
  ]

  unfoldable pub approve_call :
      Tick → String → ExecutorState config → Option ToolExecutionResult × ExecutorState config
  approve_call tick action_id st =
      let (begun, st') = approve_and_resume config tick action_id st in (answer none begun, st')

  -- the end of a call that waited for its tool
  unfoldable pub settle_call :
      ℕ
      → Option String
      → Running
      → ExecutorState config
      → ToolExecutionResult × ExecutorState config
  settle_call duration operation_id r st =
      let (settled, st') = settle config duration r st in
      (
        elim settled [ ok result ↦ result_of result | err e ↦ failure (message_of e) operation_id ],
        st',
      )

pub record PendingCall : Type 0 where
  pub action_id : String
  pub context : AgentContext
  pub call : ToolExecutionContext

-- `ApprovalContinuation`, with the manager of its orchestrator
pub record Continuation : Type 0 where
  pub pending : JsMap PendingCall
  pub manager : ApprovalManager

unfoldable pub hold : String → AgentContext → ToolExecutionContext → Continuation → Continuation
hold action_id context call c = record c {
  pending =
      JsMap.set c.pending action_id
        (record { action_id = action_id; context = context; call = call });
}

-- `approveAndResume`, up to the call that it resumes
unfoldable pub resume : String → Continuation → Result ToolExecutionContext × Continuation
resume action_id c = elim (JsMap.get c.pending action_id) [
  | none ↦ (err (plain_error ("No pending tool call for approval action " +++ action_id)), c)
  | some pending ↦
      let (approval, manager') = Manager.approve c.manager action_id in
      elim approval [
        | err e ↦ (err e, record c { manager = manager' })
        | ok granted ↦
            if not (is_granted granted.approved)
            then (err (plain_error "Approval was not granted"), record c { manager = manager' })
            else (
              ok pending.call,
              record c { manager = manager'; pending = JsMap.delete c.pending action_id },
            )
      ]
]

unfoldable pub withdraw : String → Continuation → Result (Unit {0}) × Continuation
withdraw action_id c =
    let (rejected, manager') = Manager.reject c.manager action_id in
    elim rejected [
      | err e ↦ (err e, record c { manager = manager' })
      | ok _ ↦ (ok tt, record c { manager = manager'; pending = JsMap.delete c.pending action_id })
    ]

unfoldable pub list_action_ids : Continuation → List String
list_action_ids c = JsMap.keys c.pending
