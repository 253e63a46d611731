-- ===== src/Computer/Workflow.antt =====
-- agent/computer/ComputerActionWorkflow.ts, over the executor of its controller.
pub mod Once
use Prim.Native.String.{◌++◌ as ◌+++◌}
use toni_ai_agent.Common.{ℕ, not, Option, none, some, String, str_eq, if◌then◌else◌}
use toni_ai_agent.Common.JsMap
use toni_ai_agent.Common.JsMap.{JsMap}
use toni_ai_agent.Types.{Result, ok, err, plain_error}
use toni_ai_agent.Types.ToolCall.{ToolExecutionResult}
use toni_ai_agent.Computer.Validator.{
  ComputerActionValidation, accepted, failed, ComputerPostConditionExpectation,
  ComputerPostConditionValidation, ScreenObservation,
}
use toni_ai_agent.Computer.VerificationPolicy.{observations}
use toni_ai_agent.Computer.Lifecycle.{
  ComputerActionRequest, ComputerActionProposal, ComputerActionLifecycle, record_proposal,
  record_approval_requested, record_approval, record_rejection, record_execution,
  record_post_condition,
}
use toni_ai_agent.Computer.Controller.{ComputerExecutor, propose_and_queue}

pub record Queued : Type 0 where
  pub proposal : ComputerActionProposal
  pub queued_result : ToolExecutionResult
  pub session_id : String

module _ (executor : ComputerExecutor) where
  open executor use {Host}

  pub record Workflow : Type 0 where
    pub queued_actions : JsMap Queued
    pub lifecycle : ComputerActionLifecycle
    pub host : Host

  not_queued : Result Queued
  not_queued = err (plain_error "Computer action was not queued for supervised approval.")

  -- `propose`, once the controller has answered
  unfoldable pub queue :
      Option ComputerActionProposal
      → ToolExecutionResult
      → String
      → Workflow
      → Result Queued × Workflow
  unfolding not_queued
  queue none result session_id w = (not_queued, w)
  queue (some proposal) result session_id w = elim proposal.action_id [
    | none ↦ (not_queued, w)
    | some id ↦
        let entry : Queued = record {
          proposal = proposal;
          queued_result = result;
          session_id = session_id;
        } in
        let (proposed, l) = record_proposal proposal session_id w.lifecycle in
        let (requested, l') = record_approval_requested session_id id l in
        elim proposed [
          | err e ↦ (err e, record w { lifecycle = l })
          | ok _ ↦ elim requested [
            | err e ↦ (err e, record w { lifecycle = l' })
            | ok _ ↦ (
              ok entry,
              record w { queued_actions = JsMap.set w.queued_actions id entry; lifecycle = l' },
            )
          ]
        ]
  ]

  unfoldable pub propose :
      ScreenObservation → ComputerActionRequest → String → Workflow → Result Queued × Workflow
  unfolding queue
  propose observation action session_id w =
      let (answer, host') = propose_and_queue executor observation action w.host in
      queue answer.0 answer.1 session_id (record w { host = host' })

  unfoldable pub require_queued : String → String → Workflow → Result Queued
  require_queued action_id session_id w = elim (JsMap.get w.queued_actions action_id) [
    | none ↦ err (plain_error ("Unknown computer action: " +++ action_id))
    | some queued ↦
        if str_eq queued.session_id session_id
        then ok queued
        else err (plain_error ("Computer action belongs to another session: " +++ action_id))
  ]

  unfoldable pub reject : String → String → Workflow → Result (Unit {0}) × Workflow
  reject action_id session_id w =
      let (rejected, host') = executor.reject action_id w.host in
      elim (require_queued action_id session_id w) [
        | err e ↦ (err e, w)
        | ok queued ↦ elim rejected [
          | err e ↦ (err e, record w { host = host' })
          | ok _ ↦
              let (recorded, l) = record_rejection session_id action_id w.lifecycle in
              elim recorded [
                | err e ↦ (err e, record w { host = host'; lifecycle = l })
                | ok _ ↦ (
                  ok tt,
                  record w {
                    host = host';
                    lifecycle = l;
                    queued_actions = JsMap.delete w.queued_actions action_id;
                  },
                )
              ]
        ]
      ]

  pub record Execution : Type 0 where
    pub queued : Queued
    pub result : ToolExecutionResult
    pub validation : ComputerActionValidation
    pub post_condition : Option ComputerPostConditionValidation
    pub verification_attempts : ℕ

  module _ (lower : String → String) (parse : String → Option ℕ) (policy : Option ℕ) where
    -- one observation of the loop of `approveAndVerify`
    unfoldable pub observe :
        String
        → String
        → ComputerPostConditionExpectation
        → Workflow
        → Result ComputerPostConditionValidation × Workflow
    observe session_id action_id expectation w =
        let (captured, host') = executor.capture w.host in
        elim captured [
          | err e ↦ (err e, record w { host = host' })
          | ok fresh ↦
              let (validation, lifecycle') =
                record_post_condition lower parse session_id action_id fresh expectation
                  w.lifecycle in
              (validation, record w { host = host'; lifecycle = lifecycle' })
        ]

    -- the loop, with the fuel that every policy needs at most; `none` stands for none left
    unfoldable pub verify :
        String
        → String
        → Option ComputerPostConditionExpectation
        → Execution
        → Workflow
        → Option (Result Execution × Workflow)
    verify session_id action_id none execution w = some (ok execution, w)
    verify session_id action_id (some expectation) execution w =
        elim (observations policy (observe session_id action_id expectation) 3 0 w) [
          | none ↦ none
          | some ended ↦ elim ended.0 [
            | err e ↦ some (err e, ended.1)
            | ok found ↦ some (
              ok (record execution {
                post_condition = some found.0;
                verification_attempts = found.1;
              }),
              ended.1,
            )
          ]
        ]

    -- `approveAndVerify` of a queued action, up to the observations
    unfoldable pub approve_queued :
        String → String → Queued → Workflow → Result Execution × Workflow
    approve_queued action_id session_id queued w =
        let (result, host') = executor.approve_and_resume action_id w.host in
        let (approved, l) =
          if result.approved
          then record_approval session_id action_id w.lifecycle
          else (ok tt, w.lifecycle) in
        let (validated, l') = record_execution session_id action_id result l in
        elim approved [
          | err e ↦ (err e, record w { host = host'; lifecycle = l })
          | ok _ ↦ elim validated [
            | err e ↦ (err e, record w { host = host'; lifecycle = l' })
            | ok validation ↦ (
              ok (record {
                queued = queued;
                result = result;
                validation = validation;
                post_condition = none;
                verification_attempts = 0;
              }),
              record w {
                host = host';
                lifecycle = l';
                queued_actions = JsMap.delete w.queued_actions action_id;
              },
            )
          ]
        ]

    unfoldable pub approve_and_verify :
        String
        → String
        → Option ComputerPostConditionExpectation
        → Workflow
        → Option (Result Execution × Workflow)
    approve_and_verify action_id session_id expectation w =
        elim (require_queued action_id session_id w) [
          | err e ↦ some (err e, w)
          | ok queued ↦
              let (approved, w') = approve_queued action_id session_id queued w in
              elim approved [
                | err e ↦ some (err e, w')
                | ok execution ↦ elim execution.validation.status [
                  | failed ↦ some (ok execution, w')
                  | accepted ↦ verify session_id action_id expectation execution w'
                ]
              ]
        ]
