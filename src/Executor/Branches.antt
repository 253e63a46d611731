-- ===== src/Executor/Branches.antt =====
-- The branches of `executeUnlocked`, as one case analysis. The branch that refuses a yellow call with
-- an approval is not among them: an approval that is not valid is refused before.
use toni_ai_agent.Common.{
  Bool, false, not, ◌&&◌, none, some, String, ◌≡◌, inl, inr, refl, sym, subst, arith, Bool-cases,
  is_some,
}
use toni_ai_agent.Common.Text.{member}
use toni_ai_agent.Types.{Thrown, Result-cases, yellow, AgentAction}
use toni_ai_agent.Policy.ToolPermission
use toni_ai_agent.Policy.ToolPermission.{ToolPermissionDecision, decide_tool_permission}
use toni_ai_agent.Tools.ToolRegistry
use toni_ai_agent.Tools.SafeToolExecutor.{was_cancelled}
use toni_ai_agent.Executor.State.{SupervisedToolRequest, Tick, given, approval_expired}
use toni_ai_agent.Executor.Request.{
  Config, ExecutorState, Begun, refused, append, permission_of, action_of, has_valid_approval,
}
use toni_ai_agent.Executor.Begin.{
  request_approval, deny, allow, by_decision, decide, execute_unlocked, expired_error,
}

module _ {World : Type 0} (config : Config World) (tick : Tick) (request : SupervisedToolRequest)
    (st : ExecutorState config) (P : Begun × ExecutorState config → Type 0)
    (early : (e : Thrown) → P (refused e, st))
    (expired : P (
      refused (expired_error config),
      append config request approval_expired none
          (some "Approval is invalid, expired, reused, or does not match the requested action.")
          st,
    ))
    (asked : (action : AgentAction) (reason : String)
      → action.risk ≡ yellow
      → given request.approval_id ≡ none
      → P (request_approval config tick request action reason st))
    (denied : (reason : String) → P (deny config request reason st))
    (allowed : (reason : String) → P (allow config tick request reason st)) where
  by_decision-elim :
      (action : AgentAction) (decision : ToolPermissionDecision) (reason : String)
      → (decision ≡ ToolPermission.approval_required
          → (action.risk ≡ yellow) × (given request.approval_id ≡ none))
      → P (by_decision config tick request action decision reason st)
  unfolding by_decision
  by_decision-elim action ToolPermission.allow reason asks = allowed reason
  by_decision-elim action ToolPermission.deny reason asks = denied reason
  by_decision-elim action ToolPermission.approval_required reason asks =
      let (yellow_risk, unnamed) = asks refl in
      subst P (sym (rw (yellow_risk, unnamed))) (asked action reason yellow_risk unnamed)

  decide-elim :
      (action : AgentAction) (valid : Bool)
      → (is_some (given request.approval_id) && not valid) ≡ false
      → P (decide config tick request action valid st)
  unfolding decide permission_of decide_tool_permission
  decide-elim action valid named =
      let permission = permission_of config valid request action in
      by_decision-elim action permission.decision permission.reason (λ asks. ground arith)

  pub execute_unlocked-elim : P (execute_unlocked config tick request st)
  unfolding execute_unlocked
  execute_unlocked-elim = elim (Result-cases (ToolRegistry.get config.registry request.tool_name)) [
    | inl (e, missing) ↦ elim (Bool-cases (member request.signal st.aborted)) [
      | inl aborted ↦ subst P (sym (rw aborted)) (early was_cancelled)
      | inr going ↦ subst P (sym (rw (going, missing))) (early e)
    ]
    | inr (tool, found) ↦
        let valid = has_valid_approval config tick request st in
        elim (Bool-cases (member request.signal st.aborted)) [
          | inl aborted ↦ subst P (sym (rw aborted)) (early was_cancelled)
          | inr going ↦ elim (Bool-cases (is_some (given request.approval_id) && not valid)) [
            | inl bad ↦ subst P (sym (rw (going, found, bad))) expired
            | inr good ↦
                subst P (sym (rw (going, found, good)))
                  (decide-elim (action_of config tick request tool) valid good)
          ]
        ]
  ]
