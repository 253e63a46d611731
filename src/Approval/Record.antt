-- ===== src/Approval/Record.antt =====
-- The approval records of agent/approvals/ApprovalStore.ts and of
-- storage/repositories/ApprovalRepository.ts.
use toni_ai_agent.Common.{ℕ, Bool, Option, some, String}

-- `ApprovalRecord` of ApprovalStore.ts
pub record ApprovalRecord : Type 0 where
  pub approval_id : String
  pub session_id : String
  pub action_id : String
  pub argument_hash : String
  pub created_at : ℕ
  pub expires_at : ℕ
  pub used : Bool
  pub user_id : Option String
  pub tool_name : Option String

-- `ApprovalRecord` of ApprovalRepository.ts, where the user and the tool are never missing
pub record OwnedApproval : Type 0 where
  pub approval_id : String
  pub user_id : String
  pub session_id : String
  pub action_id : String
  pub tool_name : String
  pub argument_hash : String
  pub created_at : ℕ
  pub expires_at : ℕ
  pub used : Bool

-- An `OwnedApproval` where an `ApprovalRecord` is expected.
abbrev pub as_record : OwnedApproval → ApprovalRecord
as_record r = record {
  approval_id = r.approval_id;
  session_id = r.session_id;
  action_id = r.action_id;
  argument_hash = r.argument_hash;
  created_at = r.created_at;
  expires_at = r.expires_at;
  used = r.used;
  user_id = some r.user_id;
  tool_name = some r.tool_name;
}

-- What `put` is given.
pub record ApprovalInput : Type 0 where
  pub approval_id : String
  pub user_id : String
  pub session_id : String
  pub action_id : String
  pub tool_name : String
  pub argument_hash : String

-- What `consume` is given.
pub record ApprovalClaim : Type 0 where
  pub approval_id : String
  pub session_id : String
  pub action_id : String
  pub argument_hash : String
  pub user_id : String
  pub tool_name : String
