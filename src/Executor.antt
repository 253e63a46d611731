-- ===== src/Executor.antt =====
-- agent/supervisor/SupervisedToolExecutor.ts. A call of `execute` is two steps, with whatever others
-- do between them: up to the call of the tool, and from the settling of the tool's promise. What an
-- approval store returns is taken in the step that asks for it.
pub mod State
pub mod Request
pub mod Begin
pub mod Called
pub mod Authority
pub mod Branches
pub mod Touch
pub mod Replay
pub mod Invariant
pub mod Counting
pub mod Ends
pub mod Budget
pub mod Core
use Prim.Native.String.{◌++◌ as ◌+++◌}
use toni_ai_agent.Common.{
  ℕ, ◌+◌, Bool, true, false, not, ◌||◌, Option, none, some, List, [], ◌∷◌, String, str_eq,
  if◌then◌else◌,
}
use toni_ai_agent.Common.Text.{member}
use toni_ai_agent.Common.JsMap
use toni_ai_agent.Types.{Thrown, plain_error, Result, ok, err, message_of}
use toni_ai_agent.Approval.Manager
use toni_ai_agent.Tools.SafeToolExecutor.{was_cancelled, finish_execute}
use toni_ai_agent.Executor.State.{
  SupervisedToolRequest, SupervisedToolResult, PendingExecution, Running, Tick, tool_executed,
  tool_execution_failed,
}
use toni_ai_agent.Executor.Request.{Config, ExecutorState, Begun, refused, replied, started, append}
use toni_ai_agent.Executor.Begin.{execute_unlocked}

-- Whether any of the signals of the running call has been aborted.
abbrev pub is_aborted : Running → List String → Bool
is_aborted r aborted = member r.request.signal aborted || r.controller_aborted

-- `approved === true`
abbrev pub is_granted : Option Bool → Bool
is_granted none = false
is_granted (some b) = b

module _ {World : Type 0} (config : Config World) where
  -- the `finally` of `runExclusive`, where the operation has ended
  unfoldable pub release : Begun × ExecutorState config → Begun × ExecutorState config
  release (started, st) = (started, st)
  release (refused e, st) = (refused e, record st { active = false })
  release (replied r, st) = (replied r, record st { active = false })

  -- `execute`, up to the call of the tool
  unfoldable pub execute :
      Tick → SupervisedToolRequest → ExecutorState config → Begun × ExecutorState config
  unfolding release
  execute tick request st =
      let ran = release (execute_unlocked config tick request (record st { active = true })) in
      if st.active
      then (refused (plain_error "Session already has an active operation."), st)
      else ran

  -- `execute`, from the settling of the tool's promise, after `duration` milliseconds
  unfoldable pub settle :
      ℕ → Running → ExecutorState config → Result SupervisedToolResult × ExecutorState config
  unfolding append finish_execute
  settle duration r st =
      let ended = record st {
        running = none;
        active = false;
        controllers = JsMap.delete st.controllers r.request.action_id;
        metrics = record (st.metrics) {
          tool_duration_total_ms = st.metrics.tool_duration_total_ms + duration;
        };
      } in
      elim (finish_execute (is_aborted r st.aborted) r.run) [
        | err e ↦
            (err e, append config r.request tool_execution_failed none (some (message_of e)) ended)
        | ok result ↦ (
          ok (record {
            tool_name = result.tool_name;
            argument_hash = result.argument_hash;
            output = result.output;
            executed = true;
            approved = true;
            action_id = r.request.action_id;
            approval_id = none;
          }),
          append config r.request tool_executed (some "Tool execution completed successfully.") none
              ended,
        )
      ]

  -- `approveAndResume`, up to the call of the tool
  unfoldable pub approve_and_resume :
      Tick → String → ExecutorState config → Begun × ExecutorState config
  unfolding execute
  approve_and_resume tick action_id st = elim (JsMap.get st.pending action_id) [
    | none ↦ (refused (plain_error ("No pending tool call for approval action " +++ action_id)), st)
    | some pending ↦
        let (approval, manager') = Manager.approve st.manager action_id in
        elim approval [
          | err e ↦ (refused e, record st { manager = manager' })
          | ok granted ↦
              if not (is_granted granted.approved)
              then (
                refused (plain_error "Approval was not granted."),
                record st { manager = manager' },
              )
              else execute tick
                  (record (pending.request) { approval_id = some pending.approval_id })
                  (record st { manager = manager'; pending = JsMap.delete st.pending action_id })
        ]
  ]

  unfoldable pub reject : String → ExecutorState config → Result (Unit {0}) × ExecutorState config
  reject action_id st =
      let (rejected, manager') = Manager.reject st.manager action_id in
      elim rejected [
        | err e ↦ (err e, record st { manager = manager' })
        | ok _ ↦
            (ok tt, record st { manager = manager'; pending = JsMap.delete st.pending action_id })
      ]

  -- `controller.abort(…)` on the controller of the running call, if it is its
  unfoldable pub abort_running : String → Option Running → Option Running
  abort_running operation_id none = none
  abort_running operation_id (some r) =
      if str_eq r.request.action_id operation_id
      then some (record r { controller_aborted = true })
      else some r

  unfoldable pub cancel : String → ExecutorState config → Bool × ExecutorState config
  unfolding abort_running
  cancel operation_id st =
      if JsMap.has st.controllers operation_id
      then (
        true,
        record st {
          running = abort_running operation_id st.running;
          controllers = JsMap.delete st.controllers operation_id;
        },
      )
      else (false, st)

  -- The caller aborts a signal that it gave.
  unfoldable pub abort : String → ExecutorState config → ExecutorState config
  abort signal st = record st { aborted = signal ∷ st.aborted }

  unfoldable pub is_busy : ExecutorState config → Bool
  is_busy st = st.active

  unfoldable pub list_pending_action_ids : ExecutorState config → List String
  list_pending_action_ids st = JsMap.keys st.pending

-- What the callers of the executor do, one at a time; `settled` is the end of the tool's promise.
pub data Event : Type 0 where
  executed : Tick → SupervisedToolRequest → Event
  settled : ℕ → Event
  approved : Tick → String → Event
  rejected cancelled aborted : String → Event

module _ {World : Type 0} (config : Config World) where
  unfoldable pub settle_running : ℕ → ExecutorState config → ExecutorState config
  unfolding settle
  settle_running duration st = elim st.running [
    | none ↦ st
    | some r ↦ (settle config duration r st).1
  ]

  unfoldable pub step : Event → ExecutorState config → ExecutorState config
  unfolding settle_running
  step (executed tick request) st = (execute config tick request st).1
  step (settled duration) st = settle_running duration st
  step (approved tick action_id) st = (approve_and_resume config tick action_id st).1
  step (rejected action_id) st = (reject config action_id st).1
  step (cancelled operation_id) st = (cancel config operation_id st).1
  step (aborted signal) st = abort config signal st

  unfoldable pub run : List Event → ExecutorState config → ExecutorState config
  unfolding step
  run [] st = st
  run (e ∷ es) st = run es (step e st)
