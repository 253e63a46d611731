-- ===== src/Policy/PermissionEngine/Execute.antt =====
-- The operation that the tool executor gives is always `execute`: what the policy then decides.
use toni_ai_agent.Common.{false, Option, List, [], ◌∷◌, String, ◌≡◌, refl, arith, if◌then◌else◌}
use toni_ai_agent.Common.Text.{member, includes, starts_with}
use toni_ai_agent.Types.{Risk, green, yellow, red, is_school, is_green, AgentAction, AgentContext}
use toni_ai_agent.Types.Json.{Json}
use toni_ai_agent.Policy.PermissionEngine.{
  PermissionPolicy, permission_of, permission_for, risk_for_permission, evaluate,
}

-- The tool names for which a setting of the policy exists.
abbrev pub policy_tools : List String
policy_tools =
    "filesystem" ∷ "terminal" ∷ "git" ∷ "github" ∷ "browser" ∷ "computer" ∷ "system" ∷ "school" ∷ []

module _ (lower : String → String) (policy : PermissionPolicy) where
  permission_of-execute :
      (tool : String) (action : AgentAction) (context : AgentContext) (input : Option Json)
      → member tool policy_tools ≡ false
      → is_school context.mode ≡ false
      → permission_of lower policy tool "execute" action context input
        ≡ (if is_green action.risk then "allow" else "approval")
  unfolding permission_of member includes starts_with
  permission_of-execute tool action context input names mode = ground arith

  risk-execute : (r : Risk) → risk_for_permission (if is_green r then "allow" else "approval") r ≡ r
  unfolding risk_for_permission member
  risk-execute green = refl
  risk-execute yellow = refl
  risk-execute red = refl

  -- Outside the school mode, an action with the operation `execute` on a tool whose lowered name
  -- is none of the policy's own tool names keeps its risk, whatever the policy's settings are.
  pub evaluate-execute :
      (action : AgentAction) (context : AgentContext) (input : Option Json)
      → lower action.operation ≡ "execute"
      → member (lower action.tool) policy_tools ≡ false
      → is_school context.mode ≡ false
      → (evaluate lower policy action context input).risk ≡ action.risk
  unfolding evaluate permission_for member
  evaluate-execute action context input op names mode =
      rw (op, permission_of-execute (lower action.tool) action context input names mode)
        (risk-execute action.risk)
