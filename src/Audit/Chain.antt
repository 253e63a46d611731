-- ===== src/Audit/Chain.antt =====
-- storage/repositories/AuditRepository.ts. The table `audit_events` is the list of its rows in the
-- order of their identifiers, which the database gives; `hash` stands for `hashAuditEvent`, a digest
-- of its input, and `show` for the host's text of a number.
pub mod Tamper
use Prim.Native.String.{◌++◌ as ◌+++◌}
use toni_ai_agent.Common.{
  ℕ, ◌+◌, ◌-◌, Bool, not, Option, none, some, List, [], ◌∷◌, ◌++◌, length, String, str_eq,
  if◌then◌else◌, ◌≡◌, refl, Bool-cases, inl, inr, if_cases, eq_refl, arith, subst, sym,
}

pub record AuditEvent : Type 0 where
  pub kind : String
  pub user_id : Option String
  pub session_id : Option String
  pub action_id : Option String
  pub tool_name : Option String
  pub message : String
  pub created_at : Option ℕ

pub record AuditRow : Type 0 where
  pub id : ℕ
  pub event_type : String
  pub user_id : Option String
  pub session_id : Option String
  pub action_id : Option String
  pub tool_name : Option String
  pub message : String
  pub created_at : ℕ
  pub previous_hash : Option String
  pub hash : String

-- what `hashAuditEvent` digests
pub record HashInput : Type 0 where
  pub kind : String
  pub user_id : Option String
  pub session_id : Option String
  pub action_id : Option String
  pub tool_name : Option String
  pub message : String
  pub created_at : ℕ
  pub previous_hash : String

pub data VerifyResult : Type 0 where
  intact : ℕ → VerifyResult
  broken : ℕ → String → VerifyResult

-- `value ?? ""`
unfoldable pub or_empty : Option String → String
or_empty none = ""
or_empty (some text) = text

-- The hash of the last row, or what came before the rows.
unfoldable pub last_hash : String → List AuditRow → String
last_hash previous [] = previous
last_hash previous (row ∷ rows) = last_hash row.hash rows

-- The input that a verification digests for a row.
unfoldable pub input_of : String → AuditRow → HashInput
input_of previous row = record {
  kind = row.event_type;
  user_id = row.user_id;
  session_id = row.session_id;
  action_id = row.action_id;
  tool_name = row.tool_name;
  message = row.message;
  created_at = row.created_at;
  previous_hash = previous;
}

-- `event.createdAt ?? Date.now()`
unfoldable pub time_of : ℕ → AuditEvent → ℕ
time_of now event = elim event.created_at [ none ↦ now | some t ↦ t ]

unfoldable pub event_input : ℕ → String → AuditEvent → HashInput
unfolding time_of
event_input now previous event = record {
  kind = event.kind;
  user_id = event.user_id;
  session_id = event.session_id;
  action_id = event.action_id;
  tool_name = event.tool_name;
  message = event.message;
  created_at = time_of now event;
  previous_hash = previous;
}

module _ (hash : HashInput → String) where
  unfoldable pub new_row : ℕ → ℕ → String → AuditEvent → AuditRow
  unfolding event_input time_of
  new_row now id previous event = record {
    id = id;
    event_type = event.kind;
    user_id = event.user_id;
    session_id = event.session_id;
    action_id = event.action_id;
    tool_name = event.tool_name;
    message = event.message;
    created_at = time_of now event;
    previous_hash = some previous;
    hash = hash (event_input now previous event);
  }

  -- `append`; the clock and the identifier of the new row are arguments
  unfoldable pub append : ℕ → ℕ → AuditEvent → List AuditRow → List AuditRow
  unfolding new_row last_hash
  append now id event rows = rows ++ (new_row now id (last_hash "" rows) event ∷ [])

  module _ (show : ℕ → String) where
    -- the loop of `verify` over the rows that are left
    unfoldable pub verify_rows : String → ℕ → List AuditRow → VerifyResult
    unfolding or_empty input_of
    verify_rows previous verified [] = intact verified
    verify_rows previous verified (row ∷ rows) =
        let rest = verify_rows row.hash (verified + 1) rows in
        if not (str_eq (or_empty row.previous_hash) previous)
        then broken verified
            ("Audit hash chain predecessor mismatch at event " +++ show row.id +++ ".")
        else if not (str_eq (hash (input_of previous row)) row.hash)
        then broken (row.id - 1) ("Audit hash mismatch at event " +++ show row.id +++ ".")
        else rest

    unfoldable pub verify : List AuditRow → VerifyResult
    unfolding verify_rows
    verify rows = verify_rows "" 0 rows

-- What a verification says once one more row is found in order.
unfoldable pub one_more : VerifyResult → VerifyResult
one_more (intact n) = intact (n + 1)
one_more (broken n error) = broken n error

module _ (hash : HashInput → String) (show : ℕ → String) (now id : ℕ) (event : AuditEvent) where
  -- The new row is in order.
  verify_rows-new_row :
      (previous : String) (n : ℕ)
      → verify_rows hash show previous n (new_row hash now id previous event ∷ []) ≡ intact (n + 1)
  unfolding verify_rows or_empty input_of new_row event_input time_of
  verify_rows-new_row previous n =
      rw (eq_refl previous, eq_refl (hash (event_input now previous event))) refl

  verify_rows-append :
      (rows : List AuditRow) (previous : String) (n : ℕ)
      → verify_rows hash show previous n
          (rows ++ (new_row hash now id (last_hash previous rows) event ∷ []))
        ≡ one_more (verify_rows hash show previous n rows)
  unfolding verify_rows one_more last_hash
  verify_rows-append [] previous n = verify_rows-new_row previous n
  verify_rows-append (row ∷ rows) previous n =
      ground (arith, verify_rows-append rows row.hash (n + 1))

  -- A verification after an append says what one before it said, with one more event in order where
  -- the log was in order, and the same error where it was not.
  pub verify-append :
      (rows : List AuditRow)
      → verify hash show (append hash now id event rows) ≡ one_more (verify hash show rows)
  unfolding verify append
  verify-append rows = verify_rows-append rows "" 0
