-- ===== src/Approval/Compat/Contract.antt =====
-- The in-memory approvals keep the contract of the port.
use mathlib.Core.Option
use toni_ai_agent.Common.{
  ℕ, true, Option, none, some, String, eq_iff, eq_refl, ◌≡◌, ◌≢◌, refl, arith, Option-cases, inl,
  inr,
}
use toni_ai_agent.Common.JsMap
use toni_ai_agent.Common.JsMap.{get-set}
use toni_ai_agent.Types.{Result, ok, err}
use toni_ai_agent.Approval.Record.{
  ApprovalRecord, OwnedApproval, as_record, ApprovalInput, ApprovalClaim,
}
use toni_ai_agent.Approval.Port.{ApprovalStorePort, ApprovalContract, Matches}
use toni_ai_agent.Approval.Compat.{Records, put, get, consume}

abbrev pub result_record : Result OwnedApproval → Result ApprovalRecord
result_record (ok r) = ok (as_record r)
result_record (err e) = err e

abbrev pub port : ApprovalStorePort
port = record {
  State = Records;
  put = λ s now input. (ok (as_record (put s now input).0), (put s now input).1);
  get = λ s now id. Option.map as_record (get s now id);
  consume = λ s now claim. (result_record (consume s now claim).0, (consume s now claim).1);
}

abbrev pub IsSpentRecord : Option OwnedApproval → Type 0
IsSpentRecord none = ⊥
IsSpentRecord (some r) = r.used ≡ true

abbrev pub IsSpent : Records → String → Type 0
IsSpent s id = (r : OwnedApproval) × (JsMap.get s id ≡ some r) × (r.used ≡ true)

get-IsSpent : (s : Records) (now : ℕ) (id : String) → IsSpent s id → port.get s now id ≡ none
unfolding get
get-IsSpent s now id h = ground arith

consume-Matches :
    (s : Records) (now : ℕ) (claim : ApprovalClaim) (r : ApprovalRecord)
    → (port.consume s now claim).0 ≡ ok r
    → Matches r claim × ((q : ApprovalRecord) × (port.get s now claim.approval_id ≡ some q))
unfolding consume
consume-Matches s now claim r h = elim (Option-cases (get s now claim.approval_id)) [
  | inl e ↦ ground arith
  | inr (q, e) ↦ (
    ground (
      arith,
      eq_iff q.session_id claim.session_id,
      eq_iff q.action_id claim.action_id,
      eq_iff q.argument_hash claim.argument_hash,
    ),
    (as_record q, rw e),
  )
]

consume-IsSpent_self :
    (s : Records) (now : ℕ) (claim : ApprovalClaim) (r : ApprovalRecord)
    → (port.consume s now claim).0 ≡ ok r
    → IsSpent (port.consume s now claim).1 claim.approval_id
unfolding consume
consume-IsSpent_self s now claim r h = elim (Option-cases (get s now claim.approval_id)) [
  | inl e ↦ ground arith
  | inr (q, e) ↦ (
    record q { used = true },
    ground (
      arith,
      get-set s claim.approval_id (record q { used = true }) claim.approval_id,
      eq_refl claim.approval_id,
    ),
    refl,
  )
]

consume-IsSpent :
    (s : Records) (now : ℕ) (claim : ApprovalClaim) (id : String)
    → IsSpent s id
    → IsSpent (port.consume s now claim).1 id
unfolding consume
consume-IsSpent s now claim id h = elim (Option-cases (get s now claim.approval_id)) [
  | inl e ↦ rw (e, consume) h
  | inr (q, e) ↦ (
    h.0,
    ground (
      arith,
      get-set s claim.approval_id (record q { used = true }) id,
      eq_iff claim.approval_id id,
    ),
    h.2,
  )
]

put-IsSpent :
    (s : Records) (now : ℕ) (input : ApprovalInput) (id : String)
    → IsSpent s id
    → input.approval_id ≢ id
    → IsSpent (port.put s now input).1 id
unfolding put
put-IsSpent s now input id h fresh =
    let (r, found, used) = h in
    (
      r,
      ground
          (arith, get-set s input.approval_id (put s now input).0 id, eq_iff input.approval_id id),
      used,
    )

-- The approvals in memory keep the contract: an approval is consumed at most once, only while it is
-- active, and only by a claim with its session, its action and its argument hash.
pub compat-ApprovalContract : ApprovalContract port
compat-ApprovalContract = record {
  Spent = IsSpent;
  get-Spent = get-IsSpent;
  consume-Matches = consume-Matches;
  consume-Spent_self = consume-IsSpent_self;
  consume-Spent = consume-IsSpent;
  put-Spent = put-IsSpent;
}
