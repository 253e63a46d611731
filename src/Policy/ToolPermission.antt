-- ===== src/Policy/ToolPermission.antt =====
-- agent/supervisor/ToolPermission.ts
use toni_ai_agent.Common.{Bool, ◌&&◌, String, if◌then◌else◌}
use toni_ai_agent.Types.{Risk, is_green, is_yellow, is_red}

pub data ToolPermissionDecision : Type 0 where
  allow approval_required deny : ToolPermissionDecision

pub record ToolPermissionRequest : Type 0 where
  pub session_id : String
  pub tool_name : String
  pub risk : Risk
  pub argument_hash : String
  pub has_valid_approval : Bool

pub record ToolPermissionResult : Type 0 where
  pub decision : ToolPermissionDecision
  pub reason : String

unfoldable pub decide_tool_permission : ToolPermissionRequest → ToolPermissionResult
decide_tool_permission request =
    if is_green request.risk
    then record { decision = allow; reason = "Green tools may run automatically." }
    else if is_yellow request.risk && request.has_valid_approval
    then record { decision = allow; reason = "Valid approval was supplied." }
    else if is_yellow request.risk
    then record { decision = approval_required; reason = "Yellow tool requires approval." }
    else if is_red request.risk
    then record { decision = deny; reason = "Red tool is blocked by policy." }
    else record { decision = deny; reason = "Tool is not allowed by policy." }
