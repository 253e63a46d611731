-- ===== src/Executor/Counting.antt =====
-- The counter of denied calls.
use toni_ai_agent.Common.{
  ℕ, String, true, not, List, [], ◌∷◌, ◌≡◌, ◌∙◌, inl, inr, refl, arith, Option-cases, if_keeps,
}
use toni_ai_agent.Common.JsMap
use toni_ai_agent.Types.{Result-cases, AgentAction}
use toni_ai_agent.Approval.Manager
use toni_ai_agent.Executor.{
  execute, release, settle, approve_and_resume, is_granted, reject, cancel, abort, settle_running,
  Event, executed, settled, approved, rejected, cancelled, aborted, step, run,
}
use toni_ai_agent.Executor.State.{SupervisedToolRequest, Tick}
use toni_ai_agent.Executor.Request.{Config, ExecutorState, Begun, refused, replied, started, append}
use toni_ai_agent.Executor.Begin.{
  request_approval, deny, consume_approval, start_tool, allow, execute_unlocked,
}
use toni_ai_agent.Executor.Branches.{execute_unlocked-elim}

module _ {World : Type 0} (config : Config World) where
  denied : ExecutorState config → ℕ
  denied st = st.metrics.tool_calls_denied

  start_tool-denied :
      (request : SupervisedToolRequest) (reason : String) (st : ExecutorState config)
      → denied (start_tool config request reason st).1 ≡ denied st
  unfolding start_tool append denied
  start_tool-denied request reason st = ground arith

  consume_approval-denied :
      (tick : Tick) (request : SupervisedToolRequest) (st : ExecutorState config)
      → denied (consume_approval config tick request st).1 ≡ denied st
  unfolding consume_approval append denied
  consume_approval-denied tick request st = ground arith

  allow-denied :
      (tick : Tick) (request : SupervisedToolRequest) (reason : String) (st : ExecutorState config)
      → denied (allow config tick request reason st).1 ≡ denied st
  unfolding allow
  allow-denied tick request reason st = ground (
    arith,
    consume_approval-denied tick request st,
    start_tool-denied request reason (consume_approval config tick request st).1,
  )

  request_approval-denied :
      (tick : Tick) (request : SupervisedToolRequest) (action : AgentAction) (reason : String)
      (st : ExecutorState config)
      → denied (request_approval config tick request action reason st).1 ≡ denied st
  unfolding request_approval append denied
  request_approval-denied tick request action reason st = ground arith

  execute_unlocked-denied :
      (tick : Tick) (request : SupervisedToolRequest) (st : ExecutorState config)
      → denied (execute_unlocked config tick request st).1 ≡ denied st
  unfolding deny append denied
  execute_unlocked-denied tick request st =
      execute_unlocked-elim config tick request st (λ p. denied p.1 ≡ denied st) (λ e. refl) refl
        (λ action reason yellow_risk unnamed. request_approval-denied tick request action reason st)
        (λ reason. refl) (λ reason. allow-denied tick request reason st)

  release-denied : (p : Begun × ExecutorState config) → denied (release config p).1 ≡ denied p.1
  unfolding release denied
  release-denied (started, st) = refl
  release-denied (refused e, st) = refl
  release-denied (replied r, st) = refl

  execute-denied :
      (tick : Tick) (request : SupervisedToolRequest) (st : ExecutorState config)
      → denied (execute config tick request st).1 ≡ denied st
  unfolding execute denied
  execute-denied tick request st =
      let entered = record st { active = true } in
      if_keeps (λ (p : Begun × ExecutorState config). denied p.1 ≡ denied st) st.active refl
        (release-denied (execute_unlocked config tick request entered)
          ∙ execute_unlocked-denied tick request entered)

  approve-denied :
      (tick : Tick) (action_id : String) (st : ExecutorState config)
      → denied (approve_and_resume config tick action_id st).1 ≡ denied st
  unfolding approve_and_resume denied
  approve-denied tick action_id st = elim (Option-cases (JsMap.get st.pending action_id)) [
    | inl e ↦ rw (e, approve_and_resume) refl
    | inr (pending, e) ↦ elim (Result-cases (Manager.approve st.manager action_id).0) [
      | inl (x, f) ↦ rw (e, f, approve_and_resume) refl
      | inr (asked, f) ↦
          rw (e, f, approve_and_resume)
            (if_keeps (λ (p : Begun × ExecutorState config). denied p.1 ≡ denied st)
              (not (is_granted asked.approved)) refl (execute-denied tick _ _))
    ]
  ]

  step-denied : (e : Event) (st : ExecutorState config) → denied (step config e st) ≡ denied st
  unfolding step settle_running settle append abort reject cancel denied
  step-denied (executed tick request) st = execute-denied tick request st
  step-denied (settled duration) st = ground arith
  step-denied (approved tick action_id) st = approve-denied tick action_id st
  step-denied (rejected action_id) st = ground arith
  step-denied (cancelled operation_id) st = ground arith
  step-denied (aborted signal) st = refl

  -- No sequence of events moves `toolCallsDenied`, although it can hold calls that are denied.
  pub run-tool_calls_denied :
      (es : List Event) (st : ExecutorState config)
      → (run config es st).metrics.tool_calls_denied ≡ st.metrics.tool_calls_denied
  unfolding run denied
  run-tool_calls_denied [] st = refl
  run-tool_calls_denied (e ∷ es) st = run-tool_calls_denied es (step config e st) ∙ step-denied e st
