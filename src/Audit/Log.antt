-- ===== src/Audit/Log.antt =====
-- agent/audit/AuditLog.ts. The file is the list of its lines; the identifier and the time of a new
-- line are arguments. What becomes of an append that the file
-- system refuses stands in Computer/Lifecycle.
use toni_ai_agent.Common.{ℕ, Option, none, some, List, [], ◌∷◌, ◌++◌, String}
use toni_ai_agent.Privacy.SafeText.{safe_text}

pub data AuditEventType : Type 0 where
  repair_started repair_approval_requested repair_approved repair_rejected : AuditEventType
  repair_succeeded repair_failed : AuditEventType
  computer_action_proposed computer_action_approval_requested computer_action_approved :
      AuditEventType
  computer_action_rejected computer_action_executed computer_action_execution_failed :
      AuditEventType
  computer_action_verification_confirmed computer_action_verification_failed : AuditEventType
  computer_action_verification_inconclusive : AuditEventType
  approval_requested approval_consumed approval_expired : AuditEventType
  tool_allowed tool_denied tool_executed tool_execution_failed : AuditEventType

-- an event without its identifier and its time
pub record AuditDraft : Type 0 where
  pub kind : AuditEventType
  pub session_id : String
  pub attempt : Option ℕ
  pub action_id : Option String
  pub summary : Option String
  pub reason : Option String

pub record AuditEvent : Type 0 where
  pub event_id : String
  pub timestamp : String
  pub kind : AuditEventType
  pub session_id : String
  pub attempt : Option ℕ
  pub action_id : Option String
  pub summary : Option String
  pub reason : Option String

unfoldable pub safe_option : Option String → Option String
safe_option none = none
safe_option (some text) = some (safe_text text)

unfoldable pub sanitized : String → String → AuditDraft → AuditEvent
unfolding safe_option
sanitized id time e = record {
  event_id = id;
  timestamp = time;
  kind = e.kind;
  session_id = safe_text e.session_id;
  attempt = e.attempt;
  action_id = safe_option e.action_id;
  summary = safe_option e.summary;
  reason = safe_option e.reason;
}

unfoldable pub append :
    String → String → AuditDraft → List AuditEvent → AuditEvent × List AuditEvent
unfolding sanitized
append id time e log = (sanitized id time e, log ++ (sanitized id time e ∷ []))
