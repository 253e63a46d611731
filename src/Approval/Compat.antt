-- ===== src/Approval/Compat.antt =====
-- `ApprovalStoreCompat` of agent/core/SupervisedToolExecutor.ts: approvals in memory.
pub mod Contract
use toni_ai_agent.Common.{
  ℕ, ◌+◌, Bool, true, false, not, ◌&&◌, ◌||◌, Option, none, some, String, str_eq, ltb,
  if◌then◌else◌,
}
use toni_ai_agent.Common.JsMap
use toni_ai_agent.Common.JsMap.{JsMap}
use toni_ai_agent.Types.{Result, ok, err, plain_error}
use toni_ai_agent.Approval.Record.{
  ApprovalRecord, OwnedApproval, as_record, ApprovalInput, ApprovalClaim,
}

abbrev pub Records : Type 0
Records = JsMap OwnedApproval

unfoldable pub put : Records → ℕ → ApprovalInput → OwnedApproval × Records
put records now input =
    let made : OwnedApproval = record {
      approval_id = input.approval_id;
      user_id = input.user_id;
      session_id = input.session_id;
      action_id = input.action_id;
      tool_name = input.tool_name;
      argument_hash = input.argument_hash;
      created_at = now;
      expires_at = now + 120000;
      used = false;
    } in
    (made, JsMap.set records made.approval_id made)

-- `record && !record.used && record.expiresAt > Date.now() ? { ...record } : undefined`
unfoldable pub active : ℕ → Option OwnedApproval → Option OwnedApproval
active now none = none
active now (some r) = if not r.used && ltb now r.expires_at then some r else none

unfoldable pub get : Records → ℕ → String → Option OwnedApproval
unfolding active
get records now id = active now (JsMap.get records id)

unfoldable pub consume : Records → ℕ → ApprovalClaim → Result OwnedApproval × Records
unfolding get
consume records now claim = elim (get records now claim.approval_id) [
  | none ↦ (err (plain_error "Approval is invalid."), records)
  | some r ↦
      if not (str_eq r.user_id claim.user_id)
        || (not (str_eq r.session_id claim.session_id)
            || (not (str_eq r.action_id claim.action_id)
                || (not (str_eq r.tool_name claim.tool_name)
                    || not (str_eq r.argument_hash claim.argument_hash))))
      then (err (plain_error "Approval is invalid."), records)
      else (
        ok (record r { used = true }),
        JsMap.set records claim.approval_id (record r { used = true }),
      )
]
