-- ===== src/Approval/Port.antt =====
-- `ApprovalStorePort` of agent/supervisor/SupervisedToolExecutor.ts: what the executor asks of an
-- approval store. Each call is given the reading of the clock that it makes.
use toni_ai_agent.Common.{ℕ, Option, none, some, String, ◌≡◌, ◌≢◌}
use toni_ai_agent.Types.{Result, ok}
use toni_ai_agent.Approval.Record.{ApprovalRecord, ApprovalInput, ApprovalClaim}

pub record ApprovalStorePort : Type 1 where
  pub State : Type 0
  pub put : State → ℕ → ApprovalInput → Result ApprovalRecord × State
  pub get : State → ℕ → String → Option ApprovalRecord
  pub consume : State → ℕ → ApprovalClaim → Result ApprovalRecord × State

-- `r` is the approval that the claim names.
pub record Matches (r : ApprovalRecord) (claim : ApprovalClaim) : Type 0 where
  pub same_session : r.session_id ≡ claim.session_id
  pub same_action : r.action_id ≡ claim.action_id
  pub same_hash : r.argument_hash ≡ claim.argument_hash

-- The contract of an approval store. `Spent s id` says that `id` has been consumed in `s`.
pub record ApprovalContract (port : ApprovalStorePort) : Type 1 where
  pub Spent : port.State → String → Type 0
  -- A spent approval is never active again.
  pub get-Spent : (s : port.State) (now : ℕ) (id : String) → Spent s id → port.get s now id ≡ none
  -- Only an active approval is consumed, and what is consumed matches the claim.
  pub consume-Matches :
      (s : port.State) (now : ℕ) (claim : ApprovalClaim) (r : ApprovalRecord)
      → (port.consume s now claim).0 ≡ ok r
      → Matches r claim × ((q : ApprovalRecord) × (port.get s now claim.approval_id ≡ some q))
  -- To consume an approval spends it.
  pub consume-Spent_self :
      (s : port.State) (now : ℕ) (claim : ApprovalClaim) (r : ApprovalRecord)
      → (port.consume s now claim).0 ≡ ok r
      → Spent (port.consume s now claim).1 claim.approval_id
  -- What is spent stays spent, under any claim and under any new approval of another name.
  pub consume-Spent :
      (s : port.State) (now : ℕ) (claim : ApprovalClaim) (id : String)
      → Spent s id
      → Spent (port.consume s now claim).1 id
  pub put-Spent :
      (s : port.State) (now : ℕ) (input : ApprovalInput) (id : String)
      → Spent s id
      → input.approval_id ≢ id
      → Spent (port.put s now input).1 id
