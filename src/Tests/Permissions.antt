-- ===== src/Tests/Permissions.antt =====
-- The permission engine's theorems at concrete actions.
use toni_ai_agent.Common.{true, false, none, ◌≡◌, ◌≢◌, ◌↔◌, refl}
use toni_ai_agent.Common.Text.{member}
use toni_ai_agent.Types.{green, red, yellow, AgentAction}
use toni_ai_agent.Policy.PermissionEngine.{evaluate, permission_for, allowed, red_operations}
use toni_ai_agent.Policy.PermissionEngine.Floor.{evaluate-red, evaluate-green_iff}
use toni_ai_agent.Policy.PermissionEngine.Execute.{evaluate-execute, policy_tools}
use toni_ai_agent.Types.{Risk}
use toni_ai_agent.Tests.Host.{policy, context}

abbrev action : Risk → AgentAction
action risk = record {
  id = "a";
  tool = "edit";
  operation = "execute";
  description = "edit";
  risk = risk;
  requires_approval = false;
  created_at = "now";
}

evaluate-red_example :
    ((evaluate (λ s. s) policy (action red) context none).risk ≡ red)
    × ((evaluate (λ s. s) policy (action red) context none).requires_approval ≡ true)
evaluate-red_example = evaluate-red (λ s. s) policy (action red) context none refl

evaluate-green_iff_example :
    ((evaluate (λ s. s) policy (action green) context none).risk ≡ green) ↔ (
      (member "execute" red_operations ≡ false)
      × (green ≢ red)
      × (member (permission_for (λ s. s) policy (action green) context none) allowed ≡ true))
evaluate-green_iff_example = evaluate-green_iff (λ s. s) policy (action green) context none

edit_is_no_policy_tool : member "edit" policy_tools ≡ false
unfolding member
edit_is_no_policy_tool = refl

evaluate-execute_example : (evaluate (λ s. s) policy (action yellow) context none).risk ≡ yellow
evaluate-execute_example =
    evaluate-execute (λ s. s) policy (action yellow) context none refl edit_is_no_policy_tool refl
