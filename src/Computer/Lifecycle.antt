-- ===== src/Computer/Lifecycle.antt =====
-- agent/computer/ComputerActionLifecycle.ts: the audit events of a computer action, and the time of
-- the observation that it was proposed on. An append to the audit file (agent/audit/AuditLog.ts) may
-- throw.
use Prim.Native.String.{◌++◌ as ◌+++◌}
use toni_ai_agent.Types.{Thrown, Result, ok, err}
use toni_ai_agent.Common.{ℕ, suc, Bool, true, false, Option, none, some, List, String}
use toni_ai_agent.Common.JsMap
use toni_ai_agent.Common.JsMap.{JsMap}
use toni_ai_agent.Audit.Log.{
  AuditEvent, AuditEventType, append, computer_action_proposed, computer_action_approval_requested,
  computer_action_approved, computer_action_rejected, computer_action_executed,
  computer_action_execution_failed, computer_action_verification_confirmed,
  computer_action_verification_failed, computer_action_verification_inconclusive,
}
use toni_ai_agent.Types.ToolCall.{ToolExecutionResult}
use toni_ai_agent.Types.Json.{Json, null}
use toni_ai_agent.Computer.Validator.{
  ComputerActionValidation, accepted, failed, PostConditionStatus, confirmed, not_confirmed,
  inconclusive, ComputerPostConditionExpectation, ComputerPostConditionValidation,
  ScreenObservation, validate, validate_post_condition,
}

-- `ComputerActionRequest` and `ComputerActionProposal` of agent/computer/ComputerActionController.ts
-- a number stands as the text that JSON gives it
pub data ComputerActionRequest : Type 0 where
  click : String → String → ComputerActionRequest
  type_text : String → ComputerActionRequest
  keypress : String → ComputerActionRequest

pub record ComputerActionProposal : Type 0 where
  pub action : ComputerActionRequest
  pub observation_captured_at : String
  pub active_window_title : Option String
  pub active_application : Option String
  pub action_id : Option String

-- What becomes of an append to the audit file: the line is written, with a new identifier and the
-- time; the file system refuses it; or the line is written, and the mode of the file cannot be set.
-- The last two throw.
pub data Append : Type 0 where
  written : String → String → Append
  refused : Thrown → Append
  unsecured : String → String → Thrown → Append

-- `writes` tells what becomes of the coming appends, the next one first.
pub record ComputerActionLifecycle : Type 0 where
  pub observation_baselines : JsMap String
  pub events : List AuditEvent
  pub writes : ℕ → Append

-- `proposal.action.type`
abbrev pub action_type : ComputerActionRequest → String
action_type (click x y) = "click"
action_type (type_text text) = "type"
action_type (keypress key) = "keypress"

-- `this.audit.append(…)`
unfoldable pub record_event :
    AuditEventType
    → String
    → Option String
    → String
    → Option String
    → ComputerActionLifecycle
    → Result (Unit {0}) × ComputerActionLifecycle
record_event kind session_id action_id summary reason l =
    let later = record l { writes = λ n. l.writes (suc n) } in
    let added = λ (id time : String). record later {
      events =
          (append id time
            (record {
              kind = kind;
              session_id = session_id;
              attempt = none;
              action_id = action_id;
              summary = some summary;
              reason = reason;
            })
            l.events).1;
    } in
    elim (l.writes 0) [
      | written id time ↦ (ok tt, added id time)
      | refused e ↦ (err e, later)
      | unsecured id time e ↦ (err e, added id time)
    ]

-- The validation, where the append of its event has returned.
abbrev pub returning :
    {A : Type 0}
    → A
    → Result (Unit {0}) × ComputerActionLifecycle
    → Result A × ComputerActionLifecycle
returning a (ok _, l) = (ok a, l)
returning a (err e, l) = (err e, l)

unfoldable pub record_proposal :
    ComputerActionProposal
    → String
    → ComputerActionLifecycle
    → Result (Unit {0}) × ComputerActionLifecycle
unfolding record_event
record_proposal proposal session_id l =
    let baselines : JsMap String = elim proposal.action_id [
      | none ↦ l.observation_baselines
      | some id ↦ JsMap.set l.observation_baselines id proposal.observation_captured_at
    ] in
    record_event computer_action_proposed session_id proposal.action_id
      ("Computer action proposed: " +++ action_type proposal.action) none
      (record l { observation_baselines = baselines })

unfoldable pub record_approval_requested :
    String → String → ComputerActionLifecycle → Result (Unit {0}) × ComputerActionLifecycle
unfolding record_event
record_approval_requested session_id action_id =
    record_event computer_action_approval_requested session_id (some action_id)
      "Human approval requested for computer action" none

unfoldable pub record_approval :
    String → String → ComputerActionLifecycle → Result (Unit {0}) × ComputerActionLifecycle
unfolding record_event
record_approval session_id action_id =
    record_event computer_action_approved session_id (some action_id)
      "Human approval granted for computer action" none

unfoldable pub record_rejection :
    String → String → ComputerActionLifecycle → Result (Unit {0}) × ComputerActionLifecycle
unfolding record_event
record_rejection session_id action_id =
    record_event computer_action_rejected session_id (some action_id)
      "Human rejected computer action" none

-- `result.output !== undefined && result.output !== null`
abbrev pub has_output : Option Json → Bool
has_output none = false
has_output (some null) = false
has_output (some _) = true

unfoldable pub validation_of : ToolExecutionResult → ComputerActionValidation
validation_of result = validate result.ok result.approved (has_output result.output)

unfoldable pub record_execution :
    String
    → String
    → ToolExecutionResult
    → ComputerActionLifecycle
    → Result ComputerActionValidation × ComputerActionLifecycle
unfolding record_event
record_execution session_id action_id execution l =
    let validation = validation_of execution in
    let type : AuditEventType = elim validation.status [
      | accepted ↦ computer_action_executed
      | failed ↦ computer_action_execution_failed
    ] in
    returning validation (
      record_event type session_id (some action_id) "Computer action execution validated"
        (some validation.reason) l)

abbrev pub status_text : PostConditionStatus → String
status_text confirmed = "confirmed"
status_text not_confirmed = "not_confirmed"
status_text inconclusive = "inconclusive"

abbrev pub event_of : PostConditionStatus → AuditEventType
event_of confirmed = computer_action_verification_confirmed
event_of not_confirmed = computer_action_verification_failed
event_of inconclusive = computer_action_verification_inconclusive

-- The expectation with the action's own baseline, where it names none.
unfoldable pub effective :
    Option String → ComputerPostConditionExpectation → ComputerPostConditionExpectation
effective none expectation = expectation
effective (some baseline) expectation = elim expectation.observation_captured_after [
  | some after ↦ expectation
  | none ↦ record expectation { observation_captured_after = some baseline }
]

module _ (lower : String → String) (parse : String → Option ℕ) where
  unfoldable pub record_post_condition :
      String
      → String
      → ScreenObservation
      → ComputerPostConditionExpectation
      → ComputerActionLifecycle
      → Result ComputerPostConditionValidation × ComputerActionLifecycle
  unfolding record_event
  record_post_condition session_id action_id observation expectation l =
      let validation =
        validate_post_condition lower parse observation
          (effective (JsMap.get l.observation_baselines action_id) expectation) in
      returning validation (
        record_event (event_of validation.status) session_id (some action_id)
          ("Computer post-condition: " +++ status_text validation.status) (some validation.reason)
          l)
