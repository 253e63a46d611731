-- ===== src/Approval/Repository/Contract.antt =====
-- The approvals in the database keep the contract of the port.
use mathlib.Core.Option
use toni_ai_agent.Common.{
  ℕ, true, none, some, [], ◌∷◌, All, All-append, String, str_eq, eq_iff, ◌≡◌, ◌≢◌, refl, arith, any,
  Option-cases, Bool-cases, inl, inr,
}
use toni_ai_agent.Types.{ok}
use toni_ai_agent.Approval.Record.{
  ApprovalRecord, OwnedApproval, as_record, ApprovalInput, ApprovalClaim,
}
use toni_ai_agent.Approval.Port.{ApprovalStorePort, ApprovalContract, Matches}
use toni_ai_agent.Approval.Compat.Contract.{result_record}
use toni_ai_agent.Approval.Repository.{
  Rows, create, select, is_active, is_claimed, get_active, mark_used, put, consume,
  consume_if_matches_and_return,
}

abbrev pub port : ℕ → ApprovalStorePort
port ttl_ms = record {
  State = Rows;
  put = λ s now input. (result_record (put ttl_ms s now input).0, (put ttl_ms s now input).1);
  get = λ s now id. Option.map as_record (get_active s now id);
  consume = λ s now claim. (result_record (consume s now claim).0, (consume s now claim).1);
}

-- Every row under the name is used.
abbrev pub IsSpent : Rows → String → Type 0
IsSpent rows id = All (λ (r : OwnedApproval). r.approval_id ≡ id → r.used ≡ true) rows

select_of_IsSpent :
    (rows : Rows) (now : ℕ) (id : String) → IsSpent rows id → select (is_active now id) rows ≡ none
unfolding select
select_of_IsSpent [] now id h = refl
select_of_IsSpent (r ∷ rows) now id (p, h) =
    ground (arith, eq_iff r.approval_id id, select_of_IsSpent rows now id h)

get-IsSpent :
    (s : Rows) (now : ℕ) (id : String)
    → IsSpent s id
    → Option.map as_record (get_active s now id) ≡ none
unfolding get_active
get-IsSpent s now id h = rw (select_of_IsSpent s now id h)

-- What a claim selects is active, and matches.
select-is_claimed :
    (rows : Rows) (now : ℕ) (claim : ApprovalClaim) (r : OwnedApproval)
    → select (is_claimed now claim) rows ≡ some r
    → (q : OwnedApproval) × (select (is_active now claim.approval_id) rows ≡ some q)
unfolding select
select-is_claimed [] now claim r h = cc
select-is_claimed (p ∷ rows) now claim r h = elim (Bool-cases (is_active now claim.approval_id p)) [
  | inl e ↦ (p, rw e)
  | inr e ↦ let (q, found) = select-is_claimed rows now claim r (ground arith) in (q, rw e found)
]

select-Matches :
    (rows : Rows) (now : ℕ) (claim : ApprovalClaim) (r : OwnedApproval)
    → select (is_claimed now claim) rows ≡ some r
    → Matches (as_record r) claim
unfolding select
select-Matches [] now claim r h = cc
select-Matches (p ∷ rows) now claim r h = elim (Bool-cases (is_claimed now claim p)) [
  | inl e ↦ ground (
    arith,
    eq_iff p.session_id claim.session_id,
    eq_iff p.action_id claim.action_id,
    eq_iff p.argument_hash claim.argument_hash,
  )
  | inr e ↦ select-Matches rows now claim r (ground arith)
]

mark_used-IsSpent_self : (rows : Rows) (id : String) → IsSpent (mark_used id rows) id
unfolding mark_used
mark_used-IsSpent_self [] id = tt
mark_used-IsSpent_self (r ∷ rows) id =
    (ground (arith, eq_iff r.approval_id id), mark_used-IsSpent_self rows id)

mark_used-IsSpent :
    (rows : Rows) (other id : String) → IsSpent rows id → IsSpent (mark_used other rows) id
unfolding mark_used
mark_used-IsSpent [] other id h = tt
mark_used-IsSpent (r ∷ rows) other id (p, h) =
    (ground (arith, p), mark_used-IsSpent rows other id h)

consume-Matches :
    (s : Rows) (now : ℕ) (claim : ApprovalClaim) (r : ApprovalRecord)
    → result_record (consume s now claim).0 ≡ ok r
    → Matches r claim
      × ((q : ApprovalRecord) × (Option.map as_record (get_active s now claim.approval_id)
            ≡ some q))
unfolding consume get_active
consume-Matches s now claim r h = elim (Option-cases (select (is_claimed now claim) s)) [
  | inl e ↦ ground arith
  | inr (p, e) ↦
      let (q, found) = select-is_claimed s now claim p e in
      (ground (arith, select-Matches s now claim p e), (as_record q, rw found))
]

consume-IsSpent_self :
    (s : Rows) (now : ℕ) (claim : ApprovalClaim) (r : ApprovalRecord)
    → result_record (consume s now claim).0 ≡ ok r
    → IsSpent (consume s now claim).1 claim.approval_id
unfolding consume
consume-IsSpent_self s now claim r h = elim (Option-cases (select (is_claimed now claim) s)) [
  | inl e ↦ ground arith
  | inr (p, e) ↦
      rw (e, consume, consume_if_matches_and_return) (mark_used-IsSpent_self s claim.approval_id)
]

consume-IsSpent :
    (s : Rows) (now : ℕ) (claim : ApprovalClaim) (id : String)
    → IsSpent s id
    → IsSpent (consume s now claim).1 id
unfolding consume
consume-IsSpent s now claim id h = elim (Option-cases (select (is_claimed now claim) s)) [
  | inl e ↦ rw (e, consume, consume_if_matches_and_return) h
  | inr (p, e) ↦
      rw (e, consume, consume_if_matches_and_return) (mark_used-IsSpent s claim.approval_id id h)
]

module _ (ttl_ms : ℕ) where
  put-IsSpent :
      (s : Rows) (now : ℕ) (input : ApprovalInput) (id : String)
      → IsSpent s id
      → input.approval_id ≢ id
      → IsSpent (put ttl_ms s now input).1 id
  unfolding put
  put-IsSpent s now input id h fresh =
      elim (Bool-cases (any (λ q. str_eq q.approval_id input.approval_id) s)) [
        | inl e ↦ rw (e, put, create) h
        | inr e ↦ rw (e, put, create) (All-append _ s _ h (λ same. absurd (fresh same), tt))
      ]

  -- The approvals in the database keep the contract: an approval is consumed at most once, only
  -- while it is active, and only by a claim with its session, its action and its argument hash.
  pub repository-ApprovalContract : ApprovalContract (port ttl_ms)
  unfolding get_active
  repository-ApprovalContract = record {
    Spent = IsSpent;
    get-Spent = get-IsSpent;
    consume-Matches = consume-Matches;
    consume-Spent_self = consume-IsSpent_self;
    consume-Spent = consume-IsSpent;
    put-Spent = put-IsSpent;
  }
