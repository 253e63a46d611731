-- ===== src/Computer/Policy.antt =====
-- agent/computer/ComputerActionPolicy.ts.
use toni_ai_agent.Common.{Bool, false, ◌||◌, String, str_eq, if◌then◌else◌}

pub data ComputerActionRisk : Type 0 where
  safe approval_required never_auto : ComputerActionRisk

pub record ComputerActionPolicyDecision : Type 0 where
  pub risk : ComputerActionRisk
  pub allowed : Bool
  pub reason : String

unfoldable pub decide_action : String → ComputerActionPolicyDecision
decide_action action =
    if str_eq action "click" || (str_eq action "type" || str_eq action "keypress")
    then record {
      risk = approval_required;
      allowed = false;
      reason = "Computer input requires explicit human approval before execution.";
    }
    else record { risk = never_auto; allowed = false; reason = "Unsupported computer action." }
