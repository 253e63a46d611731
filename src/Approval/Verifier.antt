-- ===== src/Approval/Verifier.antt =====
-- agent/supervisor/ApprovalVerifier.ts over the file store. It reads the clock twice, in `get` and in
-- its own test; `hash_tool_call` stands for the hash of agent/security/ToolCallHash.ts.
use toni_ai_agent.Common.{
  ℕ, Bool, true, false, not, ◌&&◌, Option, none, some, String, str_eq, ltb, ◌≡◌, inl, inr, arith,
  Option-cases,
}
use toni_ai_agent.Common.JsMap
use toni_ai_agent.Types.{Result, ok, err}
use toni_ai_agent.Types.Json.{Json}
use toni_ai_agent.Approval.Record.{ApprovalRecord}
use toni_ai_agent.Approval.Store.{ApprovalStore, get, active, consume, consume_found, persist}

pub record ApprovalVerificationInput : Type 0 where
  pub approval_id : String
  pub session_id : String
  pub action_id : String
  pub tool_name : String
  pub tool_input : Json

module _ (hash_tool_call : String → Json → String) where
  -- what is asked of the record that was found
  abbrev pub is_verified : ℕ → ApprovalVerificationInput → ApprovalRecord → Bool
  is_verified now input r =
      str_eq r.session_id input.session_id
      && (str_eq r.action_id input.action_id
          && (str_eq r.argument_hash (hash_tool_call input.tool_name input.tool_input)
              && (ltb now r.expires_at && not r.used)))

  abbrev pub verified : ℕ → ApprovalVerificationInput → Option ApprovalRecord → Bool
  verified now input none = false
  verified now input (some r) = is_verified now input r

  unfoldable pub verify : ℕ → ℕ → ApprovalVerificationInput → ApprovalStore → Result Bool
  verify now later input s = elim (get now input.approval_id s) [
    | err e ↦ err e
    | ok found ↦ ok (verified later input found)
  ]

  -- An approval that the verifier accepts is one that `consume` takes, if the file can be written
  -- and no time has passed since the verifier's last reading of the clock; it returns it as used.
  pub verify-consume :
      (now later : ℕ) (input : ApprovalVerificationInput) (s : ApprovalStore)
      → verify now later input s ≡ ok true
      → (r : ApprovalRecord) × ((consume later true input.approval_id input.session_id
            input.action_id
            (hash_tool_call input.tool_name input.tool_input)
            s).0
          ≡ ok (record r { used = true }))
        × (JsMap.get s.records input.approval_id ≡ some r)
  unfolding verify get active consume consume_found persist
  verify-consume now later input s h = elim (Option-cases (JsMap.get s.records input.approval_id)) [
    | inl e ↦ ground (arith, e)
    | inr (r, e) ↦ (r, ground (arith, e), e)
  ]
