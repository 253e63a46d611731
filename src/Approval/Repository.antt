-- ===== src/Approval/Repository.antt =====
-- storage/repositories/ApprovalRepository.ts over the table `approvals` of
-- storage/migrations, and its adapter agent/approvals/SqliteApprovalAdapter.ts. A statement of SQL
-- stands as the function on the table's rows that its text says; `approval_id` is the primary key.
pub mod Contract
use toni_ai_agent.Common.{
  ℕ, suc, ◌+◌, Bool, true, false, not, ◌&&◌, Option, none, some, List, [], ◌∷◌, ◌++◌, String,
  str_eq, any, ltb, leb, ◌||◌, ◌==◌, is_some, if◌then◌else◌,
}
use toni_ai_agent.Types.{Result, ok, err, plain_error}
use toni_ai_agent.Approval.Record.{OwnedApproval, ApprovalInput, ApprovalClaim}

abbrev pub Rows : Type 0
Rows = List OwnedApproval

-- INSERT of a row, refused by the primary key
unfoldable pub create : Rows → OwnedApproval → Result OwnedApproval × Rows
create rows r =
    if any (λ q. str_eq q.approval_id r.approval_id) rows
    then (err (plain_error "UNIQUE constraint failed: approvals.approval_id"), rows)
    else (ok (record r { used = false }), rows ++ record r { used = false } ∷ [])

-- SELECT of the first row that meets a condition
unfoldable pub select : (OwnedApproval → Bool) → Rows → Option OwnedApproval
select p [] = none
select p (r ∷ rows) = let rest = select p rows in if p r then some r else rest

unfoldable pub get_by_id : Rows → String → Option OwnedApproval
unfolding select
get_by_id rows id = select (λ r. str_eq r.approval_id id) rows

abbrev pub is_active : ℕ → String → OwnedApproval → Bool
is_active now id r = str_eq r.approval_id id && (not r.used && ltb now r.expires_at)

unfoldable pub get_active : Rows → ℕ → String → Option OwnedApproval
unfolding select
get_active rows now id = select (is_active now id) rows

abbrev pub is_claimed : ℕ → ApprovalClaim → OwnedApproval → Bool
is_claimed now claim r =
    is_active now claim.approval_id r
    && (str_eq r.user_id claim.user_id
        && (str_eq r.session_id claim.session_id
            && (str_eq r.action_id claim.action_id
                && (str_eq r.tool_name claim.tool_name
                    && str_eq r.argument_hash claim.argument_hash))))

-- UPDATE approvals SET used=1 WHERE approval_id=? AND used=0
unfoldable pub mark_used : String → Rows → Rows
mark_used id [] = []
mark_used id (r ∷ rows) =
    (if str_eq r.approval_id id && not r.used then record r { used = true } else r)
    ∷ mark_used id rows

-- the `changes` of that statement
unfoldable pub changes : String → Rows → ℕ
changes id [] = 0
changes id (r ∷ rows) =
    let rest = changes id rows in if str_eq r.approval_id id && not r.used then suc rest else rest

unfoldable pub consume_if_matches_and_return :
    Rows → ℕ → ApprovalClaim → Option OwnedApproval × Rows
unfolding select
consume_if_matches_and_return rows now claim = elim (select (is_claimed now claim) rows) [
  | none ↦ (none, rows)
  | some r ↦ (
    if changes claim.approval_id rows == 1 then some (record r { used = true }) else none,
    mark_used claim.approval_id rows,
  )
]

unfoldable pub consume_if_matches : Rows → ℕ → ApprovalClaim → Bool × Rows
unfolding consume_if_matches_and_return
consume_if_matches rows now claim =
    let (r, rows') = consume_if_matches_and_return rows now claim in (is_some r, rows')

-- DELETE FROM approvals WHERE expires_at <= ? OR used=1, with its count
unfoldable pub delete_expired : Rows → ℕ → ℕ × Rows
delete_expired [] now = (0, [])
delete_expired (r ∷ rows) now =
    let (n, rest) = delete_expired rows now in
    if leb r.expires_at now || r.used then (suc n, rest) else (n, r ∷ rest)

-- SqliteApprovalAdapter

unfoldable pub put : ℕ → Rows → ℕ → ApprovalInput → Result OwnedApproval × Rows
unfolding create
put ttl_ms rows now input = create rows (record {
  approval_id = input.approval_id;
  user_id = input.user_id;
  session_id = input.session_id;
  action_id = input.action_id;
  tool_name = input.tool_name;
  argument_hash = input.argument_hash;
  created_at = now;
  expires_at = now + ttl_ms;
  used = false;
})

unfoldable pub consume : Rows → ℕ → ApprovalClaim → Result OwnedApproval × Rows
unfolding consume_if_matches_and_return
consume rows now claim =
    let (r, rows') = consume_if_matches_and_return rows now claim in
    (
      elim r [
        | none ↦ err (plain_error "Approval is invalid, expired, already used, or mismatched.")
        | some q ↦ ok q
      ],
      rows',
    )
