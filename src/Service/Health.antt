-- ===== src/Service/Health.antt =====
-- app/health/HealthService.ts, app/health/HealthRoutes.ts and app/observability/ErrorResponse.ts.
use toni_ai_agent.Common.{
  ℕ, Bool, not, ◌&&◌, ◌||◌, Option, none, some, String, str_eq, if◌then◌else◌,
}
use toni_ai_agent.Types.{
  Thrown, agent_error, plain_error, AgentErrorCode, tool_failed, tool_input_invalid, cancelled,
  budget_exceeded, approval_expired, approval_required, permission_denied, model_failed,
}
use toni_ai_agent.Service.Startup.{StartupPhase, StartupState, is_ready}

pub record HealthService : Type 0 where
  pub configuration_ready : Bool
  pub approval_store_ready : Bool
  pub model_configured : Bool

pub record HealthStatus : Type 0 where
  pub status : String
  pub timestamp : String
  pub configuration : String
  pub approval_store : String
  pub model : String

unfoldable pub get_status : String → HealthService → HealthStatus
get_status now s = record {
  status =
      if s.configuration_ready && (s.approval_store_ready && s.model_configured)
      then "ok"
      else "degraded";
  timestamp = now;
  configuration = if s.configuration_ready then "ok" else "failed";
  approval_store = if s.approval_store_ready then "ok" else "failed";
  model = if s.model_configured then "configured" else "missing";
}

-- what a health route answers
pub record HealthAnswer : Type 0 where
  pub status_code : ℕ
  pub status : String
  pub phase : StartupPhase
  pub ready : Bool

unfoldable pub handle_health_route : String → String → StartupState → Option HealthAnswer
unfolding is_ready
handle_health_route method url s =
    if not (str_eq method "GET") || not (str_eq url "/health" || str_eq url "/ready")
    then none
    else some (record {
      status_code = if str_eq url "/ready" && not (is_ready s) then 503 else 200;
      status = if str_eq url "/health" then "ok" else if is_ready s then "ok" else "degraded";
      phase = s.phase;
      ready = is_ready s;
    })

pub record ErrorResponse : Type 0 where
  pub status_code : ℕ
  pub error : String
  pub code : String
  pub request_id : String

unfoldable pub status_code_of : AgentErrorCode → ℕ
status_code_of approval_required = 409
status_code_of permission_denied = 403
status_code_of tool_input_invalid = 400
status_code_of approval_expired = 410
status_code_of budget_exceeded = 429
status_code_of cancelled = 499
status_code_of _ = 500

unfoldable pub code_text : AgentErrorCode → String
code_text tool_failed = "TOOL_FAILED"
code_text tool_input_invalid = "TOOL_INPUT_INVALID"
code_text cancelled = "CANCELLED"
code_text budget_exceeded = "BUDGET_EXCEEDED"
code_text approval_expired = "APPROVAL_EXPIRED"
code_text approval_required = "APPROVAL_REQUIRED"
code_text permission_denied = "PERMISSION_DENIED"
code_text model_failed = "MODEL_FAILED"

unfoldable pub create_error_response : Thrown → String → ErrorResponse
unfolding status_code_of code_text
create_error_response (agent_error code message retryable) request_id = record {
  status_code = status_code_of code;
  error = message;
  code = code_text code;
  request_id = request_id;
}
create_error_response (plain_error message) request_id = record {
  status_code = 500;
  error = "Internal server error.";
  code = "INTERNAL";
  request_id = request_id;
}
