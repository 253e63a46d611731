-- ===== src/Policy/PermissionEngine/Floor.antt =====
-- What no permission policy can do, and when its settings count.
use toni_ai_agent.Common.{
  true, false, Option, String, str_eq, eq_iff, ◌≡◌, ◌≢◌, ◌↔◌, arith, Bool-cases, inl, inr,
}
use toni_ai_agent.Common.Text.{member}
use toni_ai_agent.Types.{green, red, AgentAction, AgentContext}
use toni_ai_agent.Types.Json.{Json}
use toni_ai_agent.Policy.PermissionEngine.{
  PermissionPolicy, permission_for, evaluate, allowed, never_auto, red_operations,
}

allowed-not-never_auto :
    (permission : String) → member permission allowed ≡ true → member permission never_auto ≡ false
unfolding member
allowed-not-never_auto p h = elim (Bool-cases (str_eq p "allow")) [
  | inl e ↦ rw ((eq_iff p "allow").0 e)
  | inr e ↦ rw ((eq_iff p "workspace").0 (ground arith))
]

module _ (lower : String → String) (policy : PermissionPolicy) where
  -- Whatever the policy says, an action that comes in red stays red and asks for approval.
  pub evaluate-red :
      (action : AgentAction) (context : AgentContext) (input : Option Json)
      → action.risk ≡ red
      → ((evaluate lower policy action context input).risk ≡ red)
        × ((evaluate lower policy action context input).requires_approval ≡ true)
  unfolding evaluate
  evaluate-red action context input h = ground arith

  -- An action is evaluated green exactly when its lowered operation is none of the red
  -- operations, it did not come in red, and the setting that applies to it is one of
  -- `allow` and `workspace`.
  pub evaluate-green_iff :
      (action : AgentAction) (context : AgentContext) (input : Option Json)
      → ((evaluate lower policy action context input).risk ≡ green) ↔ (
          (member (lower action.operation) red_operations ≡ false)
          × (action.risk ≢ red)
          × (member (permission_for lower policy action context input) allowed ≡ true))
  unfolding evaluate
  evaluate-green_iff action context input =
      ground (arith, allowed-not-never_auto (permission_for lower policy action context input))
