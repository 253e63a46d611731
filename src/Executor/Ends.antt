-- ===== src/Executor/Ends.antt =====
-- How a call ends: what cancellation makes of it, and what a busy session makes of an approval.
use toni_ai_agent.Common.{ℕ, true, some, none, Option, String, eq_refl, ◌≡◌, refl, arith}
use toni_ai_agent.Common.JsMap
use toni_ai_agent.Common.JsMap.{JsMap, get-delete}
use toni_ai_agent.Types.{plain_error, Result, ok, err, ApprovalRequest}
use toni_ai_agent.Approval.Manager
use toni_ai_agent.Types.Json.{Json}
use toni_ai_agent.Tools.ToolRegistry.{returned}
use toni_ai_agent.Tools.SafeToolExecutor.{was_cancelled, finish_execute}
use toni_ai_agent.Executor.{execute, settle, approve_and_resume, is_granted, cancel, abort_running}
use toni_ai_agent.Executor.State.{PendingExecution, SupervisedToolResult, Tick, Running}
use toni_ai_agent.Executor.Request.{Config, ExecutorState, refused, append}

deleted : {A : Type 0} (m : JsMap A) (k : String) → JsMap.get (JsMap.delete m k) k ≡ none
deleted m k = ground (arith, get-delete m k k, eq_refl k)

module _ {World : Type 0} (config : Config World) where
  -- the result of the call that runs, when its tool's promise settles
  pub outcome : ℕ → ExecutorState config → Option (Result SupervisedToolResult)
  outcome duration st = elim st.running [
    | none ↦ none
    | some r ↦ some (settle config duration r st).0
  ]

  -- A call that is cancelled while its tool runs never succeeds: if its tool returns, the call
  -- fails with the error of a cancelled call, and the output is dropped.
  pub cancel-settle :
      (duration : ℕ) (r : Running) (output : Json) (st : ExecutorState config)
      → st.running ≡ some r
      → JsMap.has st.controllers r.request.action_id ≡ true
      → r.run.outcome ≡ returned output
      → outcome duration (cancel config r.request.action_id st).1 ≡ some (err was_cancelled)
  unfolding outcome cancel abort_running settle append finish_execute
  cancel-settle duration r output st running present returns =
      ground (arith, running, present, returns, eq_refl r.request.action_id)

  -- An approval that the user gives while another call holds the session is lost: the call is
  -- refused as busy, and it is no longer pending.
  pub approve-busy :
      (tick : Tick) (action_id : String) (pending : PendingExecution) (asked : ApprovalRequest)
      (st : ExecutorState config)
      → st.active ≡ true
      → JsMap.get st.pending action_id ≡ some pending
      → (Manager.approve st.manager action_id).0 ≡ ok asked
      → is_granted asked.approved ≡ true
      → ((approve_and_resume config tick action_id st).0
          ≡ refused (plain_error "Session already has an active operation."))
        × (JsMap.get (approve_and_resume config tick action_id st).1.pending action_id ≡ none)
  unfolding approve_and_resume execute
  approve-busy tick action_id pending asked st busy found granted is_true = (
    rw (found, granted, is_true, busy, approve_and_resume) refl,
    rw (found, granted, is_true, busy, approve_and_resume) (deleted st.pending action_id),
  )
