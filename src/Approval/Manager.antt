-- ===== src/Approval/Manager.antt =====
-- agent/approvals/ApprovalManager.ts: the requests that wait for a person, by action.
use Prim.Native.String.{◌++◌ as ◌+++◌}
use toni_ai_agent.Common.{Bool, true, false, none, some, List, String}
use toni_ai_agent.Common.JsMap
use toni_ai_agent.Common.JsMap.{JsMap}
use toni_ai_agent.Types.{ApprovalRequest, Result, ok, err, plain_error}

-- the map `pending`
abbrev pub ApprovalManager : Type 0
ApprovalManager = JsMap ApprovalRequest

unfoldable pub request : ApprovalManager → ApprovalRequest → ApprovalRequest × ApprovalManager
request pending input = (input, JsMap.set pending input.action.id input)

unfoldable pub require : ApprovalManager → String → Result ApprovalRequest
require pending action_id = elim (JsMap.get pending action_id) [
  | none ↦ err (plain_error ("Approval request not found: " +++ action_id))
  | some item ↦ ok item
]

-- `approve` and `reject` differ in the mark that they leave.
decide : Bool → ApprovalManager → String → Result ApprovalRequest × ApprovalManager
unfolding require
decide answer pending action_id = elim (require pending action_id) [
  | err e ↦ (err e, pending)
  | ok item ↦ (ok (record item { approved = some answer }), JsMap.delete pending action_id)
]

unfoldable pub approve : ApprovalManager → String → Result ApprovalRequest × ApprovalManager
unfolding decide
approve = decide true

unfoldable pub reject : ApprovalManager → String → Result ApprovalRequest × ApprovalManager
unfolding decide
reject = decide false

unfoldable pub list : ApprovalManager → List ApprovalRequest
list pending = JsMap.values pending
