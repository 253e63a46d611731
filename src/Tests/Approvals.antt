-- ===== src/Tests/Approvals.antt =====
-- The approval stores' theorems at concrete calls.
use toni_ai_agent.Common.{true, false, none, some, [], ◌∷◌, ◌≡◌, ◌↔◌, refl}
use toni_ai_agent.Common.JsMap
use toni_ai_agent.Types.{err, ok, plain_error}
use toni_ai_agent.Approval.Port.{ApprovalContract}
use toni_ai_agent.Approval.Record.{ApprovalRecord, ApprovalInput}
use toni_ai_agent.Approval.Store.{
  active, ApprovalStore, missing, create, consume, consume_found, persist, get, run, started,
  stored, claimed,
}
use toni_ai_agent.Approval.Store.Invariant.{IsValid, run-IsValid}
use toni_ai_agent.Approval.Store.SingleUse.{IsConsumable, consume-ok_iff, consume_once}
use toni_ai_agent.Types.Json.{null}
use toni_ai_agent.Approval.Verifier.{ApprovalVerificationInput, verify, verify-consume}
use toni_ai_agent.Approval.Repository.Contract.{port, repository-ApprovalContract}

abbrev empty : ApprovalStore
empty = record { ttl_ms = 1000; loaded = false; records = []; file = missing }

abbrev input : ApprovalInput
input = record {
  approval_id = "u";
  user_id = "local-user";
  session_id = "s";
  action_id = "a";
  tool_name = "edit";
  argument_hash = "h";
}

abbrev made : ApprovalRecord
made = record {
  approval_id = "u";
  session_id = "s";
  action_id = "a";
  argument_hash = "h";
  created_at = 1;
  expires_at = 1001;
  used = false;
  user_id = some "local-user";
  tool_name = some "edit";
}

-- a store that holds one approval
abbrev full : ApprovalStore
full = record { ttl_ms = 1000; loaded = true; records = ("u", made) ∷ []; file = missing }

created : create missing 1000 ≡ ok empty
unfolding create
created = refl

run-IsValid_example :
    IsValid (
      run (started (λ n. 0) true ∷ stored 1 true input ∷ claimed 2 true "u" "s" "a" "h" ∷ []) empty)
run-IsValid_example =
    run-IsValid missing 1000 empty
      (started (λ n. 0) true ∷ stored 1 true input ∷ claimed 2 true "u" "s" "a" "h" ∷ []) created

consumed : (consume 2 true "u" "s" "a" "h" full).0 ≡ ok (record made { used = true })
unfolding consume consume_found persist JsMap.get
consumed = refl

consume-ok_iff_example :
    ((consume 2 true "u" "s" "a" "h" full).0 ≡ ok (record made { used = true })) ↔ (
      (full.loaded ≡ true)
      × (true ≡ true)
      × ((r : ApprovalRecord) × IsConsumable 2 "u" "s" "a" "h" full r
          × (record made { used = true } ≡ record r { used = true })))
consume-ok_iff_example = consume-ok_iff 2 true "u" "s" "a" "h" full (record made { used = true })

consume_once_example :
    let t = run (started (λ n. 3) true ∷ []) (consume 2 true "u" "s" "a" "h" full).1 in
    (consume 4 true "u" "s" "a" "h" t ≡ (err (plain_error "Approval has already been used."), t))
    × (get 4 "u" t ≡ ok none)
consume_once_example =
    consume_once 2 4 true true "u" "s" "a" "h" "s" "a" "h" full (record made { used = true })
      (started (λ n. 3) true ∷ []) consumed (tt, tt)

repository-ApprovalContract_example : ApprovalContract (port 120000)
repository-ApprovalContract_example = repository-ApprovalContract 120000

abbrev question : ApprovalVerificationInput
question = record {
  approval_id = "u";
  session_id = "s";
  action_id = "a";
  tool_name = "edit";
  tool_input = null;
}

accepted : verify (λ name json. "h") 2 3 question full ≡ ok true
unfolding verify get active JsMap.get
accepted = refl

verify-consume_example :
    (r : ApprovalRecord) × ((consume 3 true "u" "s" "a" "h" full).0 ≡ ok (record r { used = true }))
    × (JsMap.get full.records "u" ≡ some r)
verify-consume_example = verify-consume (λ name json. "h") 2 3 question full accepted
