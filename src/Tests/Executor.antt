-- ===== src/Tests/Executor.antt =====
-- The executor's theorems at concrete calls.
use toni_ai_agent.Common.{ℕ, true, none, some, [], ◌∷◌, false, ◌≡◌, ◌≢◌, refl}
use toni_ai_agent.Common.JsMap
use toni_ai_agent.Common.Text
use toni_ai_agent.Types.{red, plain_error, err, ok, yellow, ApprovalRequest}
use toni_ai_agent.Types.Json.{str}
use toni_ai_agent.Policy.PermissionEngine
use toni_ai_agent.Policy.ToolPermission.{decide_tool_permission}
use toni_ai_agent.Policy.ToolchainSupervisor.{classify, inspect}
use toni_ai_agent.Approval.Manager
use toni_ai_agent.Approval.Compat
use toni_ai_agent.Approval.Compat.Contract.{compat-ApprovalContract}
use toni_ai_agent.Limits.SessionBudget
use toni_ai_agent.Tools.ToolRegistry
use toni_ai_agent.Tools.ToolRegistry.{ToolDefinition, returned}
use toni_ai_agent.Tools.SafeToolExecutor.{validated, call_tool, begin_execute, was_cancelled}
use toni_ai_agent.Executor.{
  execute, release, approve_and_resume, cancel, run, step, executed, settled,
}
use toni_ai_agent.Executor.State.{Running, PendingExecution}
use toni_ai_agent.Executor.Request.{
  refused, started, ExecutorState, append, has_valid_approval, action_of, permission_of, user,
}
use toni_ai_agent.Executor.Begin.{
  request_approval, deny, consume_approval, start_tool, allow, by_decision, decide,
  execute_unlocked,
}
use toni_ai_agent.Executor.Called.{Called}
use toni_ai_agent.Executor.Authority.{HasAuthority, execute-HasAuthority, red_never_runs}
use toni_ai_agent.Executor.Replay.{replay_refused}
use toni_ai_agent.Executor.Invariant.{IsConsistent, run-IsConsistent}
use toni_ai_agent.Executor.Counting.{run-tool_calls_denied}
use toni_ai_agent.Executor.Ends.{outcome, cancel-settle, approve-busy}
use toni_ai_agent.Tests.Host.{config, initial, request, tick, tool}

-- a state in which a yellow call waits for its approval
abbrev asked : ExecutorState config
asked = run config (executed (tick 0 "u") (request "edit" none) ∷ []) initial

-- a state in which a green call runs
abbrev looking : ExecutorState config
looking = (execute config (tick 0 "u") (request "look" none) initial).1

look_started : (execute config (tick 0 "u") (request "look" none) initial).0 ≡ started
unfolding execute release execute_unlocked append has_valid_approval action_of permission_of
    request_approval deny consume_approval start_tool allow by_decision decide validated call_tool
    begin_execute SessionBudget.consume_tool_call ToolRegistry.get JsMap.get JsMap.has JsMap.set
    JsMap.delete inspect classify decide_tool_permission PermissionEngine.evaluate
    PermissionEngine.permission_for PermissionEngine.permission_of Text.member Text.includes
    Text.starts_with PermissionEngine.evaluated_risk PermissionEngine.risk_for_permission Compat.put
    Compat.get Compat.consume Compat.active run step user
look_started = refl

edit_started : (execute config (tick 1 "v") (request "edit" (some "u")) asked).0 ≡ started
unfolding execute release execute_unlocked append has_valid_approval action_of permission_of
    request_approval deny consume_approval start_tool allow by_decision decide validated call_tool
    begin_execute SessionBudget.consume_tool_call ToolRegistry.get JsMap.get JsMap.has JsMap.set
    JsMap.delete inspect classify decide_tool_permission PermissionEngine.evaluate
    PermissionEngine.permission_for PermissionEngine.permission_of Text.member Text.includes
    Text.starts_with PermissionEngine.evaluated_risk PermissionEngine.risk_for_permission Compat.put
    Compat.get Compat.consume Compat.active run step user
edit_started = refl

edit_found : ToolRegistry.get config.registry "edit" ≡ ok (tool "edit" yellow)
unfolding execute release execute_unlocked append has_valid_approval action_of permission_of
    request_approval deny consume_approval start_tool allow by_decision decide validated call_tool
    begin_execute SessionBudget.consume_tool_call ToolRegistry.get JsMap.get JsMap.has JsMap.set
    JsMap.delete inspect classify decide_tool_permission PermissionEngine.evaluate
    PermissionEngine.permission_for PermissionEngine.permission_of Text.member Text.includes
    Text.starts_with PermissionEngine.evaluated_risk PermissionEngine.risk_for_permission Compat.put
    Compat.get Compat.consume Compat.active run step user
edit_found = refl

wipe_found : ToolRegistry.get config.registry "wipe" ≡ ok (tool "wipe" red)
unfolding execute release execute_unlocked append has_valid_approval action_of permission_of
    request_approval deny consume_approval start_tool allow by_decision decide validated call_tool
    begin_execute SessionBudget.consume_tool_call ToolRegistry.get JsMap.get JsMap.has JsMap.set
    JsMap.delete inspect classify decide_tool_permission PermissionEngine.evaluate
    PermissionEngine.permission_for PermissionEngine.permission_of Text.member Text.includes
    Text.starts_with PermissionEngine.evaluated_risk PermissionEngine.risk_for_permission Compat.put
    Compat.get Compat.consume Compat.active run step user
wipe_found = refl

initial-IsConsistent : IsConsistent config initial
unfolding JsMap.has JsMap.get
initial-IsConsistent = record { locked = refl; owned = λ id h. absurd cc }

execute-HasAuthority_example :
    (found : ToolDefinition ℕ) × (ToolRegistry.get config.registry "edit" ≡ ok found)
    × Called config found
        (request "edit" (some "u"))
        asked.world
        (execute config (tick 1 "v") (request "edit" (some "u")) asked).1
    × HasAuthority config
        (tick 1 "v")
        (request "edit" (some "u"))
        (action_of config (tick 1 "v") (request "edit" (some "u")) found).risk
        asked.approvals
        (execute config (tick 1 "v") (request "edit" (some "u")) asked).1.approvals
execute-HasAuthority_example =
    execute-HasAuthority config (tick 1 "v") (request "edit" (some "u")) asked edit_started

replay_refused_example :
    (execute config (tick 2 "w") (request "edit" (some "u")) (
      run config
        (settled 5 ∷ [])
        (execute config (tick 1 "v") (request "edit" (some "u")) asked).1)).0
    ≢ started
replay_refused_example =
    replay_refused config compat-ApprovalContract "u" (tick 1 "v") (tick 2 "w")
      (request "edit" (some "u")) (request "edit" (some "u")) asked (settled 5 ∷ []) refl refl
      edit_started (tt, tt)

red_never_runs_example :
    (execute config (tick 0 "u") (request "wipe" (some "u")) initial).0 ≢ started
red_never_runs_example =
    red_never_runs config (tick 0 "u") (request "wipe" (some "u")) initial (tool "wipe" red)
      wipe_found refl

run-IsConsistent_example :
    IsConsistent config
      (run config (executed (tick 0 "u") (request "look" none) ∷ settled 5 ∷ []) initial)
run-IsConsistent_example =
    run-IsConsistent config (executed (tick 0 "u") (request "look" none) ∷ settled 5 ∷ []) initial
      initial-IsConsistent

run-tool_calls_denied_example :
    (run config
      (executed (tick 0 "u") (request "wipe" none) ∷ [])
      initial).metrics.tool_calls_denied
    ≡ initial.metrics.tool_calls_denied
run-tool_calls_denied_example =
    run-tool_calls_denied config (executed (tick 0 "u") (request "wipe" none) ∷ []) initial

abbrev the_running : Running
the_running = record {
  request = request "look" none;
  controller_aborted = false;
  run = record { tool_name = "look"; argument_hash = "look"; outcome = returned (str "x") };
}

looking-running : looking.running ≡ some the_running
unfolding execute release execute_unlocked append has_valid_approval action_of permission_of
    request_approval deny consume_approval start_tool allow by_decision decide validated call_tool
    begin_execute SessionBudget.consume_tool_call ToolRegistry.get JsMap.get JsMap.has JsMap.set
    JsMap.delete inspect classify decide_tool_permission PermissionEngine.evaluate
    PermissionEngine.permission_for PermissionEngine.permission_of Text.member Text.includes
    Text.starts_with PermissionEngine.evaluated_risk PermissionEngine.risk_for_permission Compat.put
    Compat.get Compat.consume Compat.active run step user
looking-running = refl

looking-present : JsMap.has looking.controllers "a" ≡ true
unfolding execute release execute_unlocked append has_valid_approval action_of permission_of
    request_approval deny consume_approval start_tool allow by_decision decide validated call_tool
    begin_execute SessionBudget.consume_tool_call ToolRegistry.get JsMap.get JsMap.has JsMap.set
    JsMap.delete inspect classify decide_tool_permission PermissionEngine.evaluate
    PermissionEngine.permission_for PermissionEngine.permission_of Text.member Text.includes
    Text.starts_with PermissionEngine.evaluated_risk PermissionEngine.risk_for_permission Compat.put
    Compat.get Compat.consume Compat.active run step user
looking-present = refl

cancel-settle_example : outcome config 5 (cancel config "a" looking).1 ≡ some (err was_cancelled)
cancel-settle_example =
    cancel-settle config 5 the_running (str "x") looking looking-running looking-present refl

abbrev waiting : PendingExecution
waiting = record { request = request "edit" none; approval_id = "u" }

abbrev busy : ExecutorState config
busy = record asked { active = true }

busy-pending : JsMap.get busy.pending "a" ≡ some waiting
unfolding execute release execute_unlocked append has_valid_approval action_of permission_of
    request_approval deny consume_approval start_tool allow by_decision decide validated call_tool
    begin_execute SessionBudget.consume_tool_call ToolRegistry.get JsMap.get JsMap.has JsMap.set
    JsMap.delete inspect classify decide_tool_permission PermissionEngine.evaluate
    PermissionEngine.permission_for PermissionEngine.permission_of Text.member Text.includes
    Text.starts_with PermissionEngine.evaluated_risk PermissionEngine.risk_for_permission Compat.put
    Compat.get Compat.consume Compat.active run step user
busy-pending = refl

abbrev the_request : ApprovalRequest
the_request = record {
  action = action_of config (tick 0 "u") (request "edit" none) (tool "edit" yellow);
  reason = "Yellow tool requires approval.";
  approved = some true;
}

busy-granted : (Manager.approve busy.manager "a").0 ≡ ok the_request
unfolding execute release execute_unlocked append has_valid_approval action_of permission_of
    request_approval deny consume_approval start_tool allow by_decision decide validated call_tool
    begin_execute SessionBudget.consume_tool_call ToolRegistry.get JsMap.get JsMap.has JsMap.set
    JsMap.delete inspect classify decide_tool_permission PermissionEngine.evaluate
    PermissionEngine.permission_for PermissionEngine.permission_of Text.member Text.includes
    Text.starts_with PermissionEngine.evaluated_risk PermissionEngine.risk_for_permission Compat.put
    Compat.get Compat.consume Compat.active run step user Manager.approve Manager.require
    Manager.request
busy-granted = refl

approve-busy_example :
    ((approve_and_resume config (tick 1 "v") "a" busy).0
      ≡ refused (plain_error "Session already has an active operation."))
    × (JsMap.get (approve_and_resume config (tick 1 "v") "a" busy).1.pending "a" ≡ none)
approve-busy_example =
    approve-busy config (tick 1 "v") "a" waiting the_request busy refl busy-pending busy-granted
      refl
