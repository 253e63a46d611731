-- ===== src/Approval/Store.antt =====
-- agent/approvals/ApprovalStore.ts: approvals in a JSON file. Each call is given the reading of the
-- clock that it makes, `init` all readings in their order, and whether the write of the file succeeds.
pub mod Invariant
pub mod SingleUse
use toni_ai_agent.Common.{
  ℕ, suc, ◌+◌, Bool, true, false, not, ◌&&◌, ◌||◌, Option, none, some, List, [], ◌∷◌, map, String,
  str_eq, length, ltb, leb, if◌then◌else◌,
}
use toni_ai_agent.Common.JsMap
use toni_ai_agent.Common.JsMap.{JsMap}
use toni_ai_agent.Types.{Thrown, Result, ok, err, plain_error}
use toni_ai_agent.Approval.Record.{ApprovalRecord, ApprovalInput}

-- What stands under the file's path: nothing, a file that cannot be read or holds no JSON array, or
-- an array. `none` in it is a value that `parseApprovalRecord` refuses.
pub data StoreFile : Type 0 where
  missing : StoreFile
  unusable : Thrown → StoreFile
  holds : List (Option ApprovalRecord) → StoreFile

pub record ApprovalStore : Type 0 where
  pub ttl_ms : ℕ
  pub loaded : Bool
  pub records : JsMap ApprovalRecord
  pub file : StoreFile

unfoldable pub create : StoreFile → ℕ → Result ApprovalStore
create file ttl_ms =
    if ltb ttl_ms 1000
    then err (plain_error "Approval TTL must be at least 1000 ms.")
    else ok (record { ttl_ms = ttl_ms; loaded = false; records = []; file = file })

unfoldable pub persist : Bool → ApprovalStore → Result (Unit {0}) × ApprovalStore
persist true s = (ok tt, record s { file = holds (map some (JsMap.values s.records)) })
persist false s = (err (plain_error "The approval store could not be written."), s)

-- one round of the loop of `init`
unfoldable pub admit : ℕ → JsMap ApprovalRecord → ApprovalRecord → JsMap ApprovalRecord
admit now records r =
    if ltb now r.expires_at && not r.used then JsMap.set records r.approval_id r else records

-- the loop of `init`, which reads the clock once for each record
unfoldable pub load :
    (ℕ → ℕ)
    → JsMap ApprovalRecord
    → List (Option ApprovalRecord)
    → Result (Unit {0}) × JsMap ApprovalRecord
unfolding admit
load now records [] = (ok tt, records)
load now records (none ∷ rest) = (err (plain_error "Invalid approval record."), records)
load now records (some r ∷ rest) = load (λ n. now (suc n)) (admit (now 0) records r) rest

unfoldable pub read_file : (ℕ → ℕ) → ApprovalStore → StoreFile → Result (Unit {0}) × ApprovalStore
unfolding load
read_file now s missing = (ok tt, s)
read_file now s (unusable e) = (err e, s)
read_file now s (holds values) =
    let (result, records) = load now s.records values in (result, record s { records = records })

-- what `init` does once the file has been read, or has not
unfoldable pub finish_init :
    Bool → Result (Unit {0}) → ApprovalStore → Result (Unit {0}) × ApprovalStore
unfolding persist
finish_init written (err e) s = (err e, s)
finish_init written (ok _) s = persist written (record s { loaded = true })

unfoldable pub init : (ℕ → ℕ) → Bool → ApprovalStore → Result (Unit {0}) × ApprovalStore
unfolding read_file finish_init
init now written s =
    let (result, s') = read_file now s s.file in
    if s.loaded then (ok tt, s) else finish_init written result s'

abbrev not_loaded : Thrown
not_loaded = plain_error "ApprovalStore.init() must be called before use."

-- `{ ...input, createdAt, expiresAt: createdAt + this.ttlMs, used: false }`
unfoldable pub new_record : ℕ → ℕ → ApprovalInput → ApprovalRecord
new_record now ttl_ms input = record {
  approval_id = input.approval_id;
  session_id = input.session_id;
  action_id = input.action_id;
  argument_hash = input.argument_hash;
  created_at = now;
  expires_at = now + ttl_ms;
  used = false;
  user_id = some input.user_id;
  tool_name = some input.tool_name;
}

unfoldable pub put :
    ℕ → Bool → ApprovalInput → ApprovalStore → Result ApprovalRecord × ApprovalStore
unfolding persist
put now written input s =
    let made = new_record now s.ttl_ms input in
    let (result, s') =
      persist written (record s { records = JsMap.set s.records input.approval_id made }) in
    if not s.loaded
    then (err not_loaded, s)
    else (elim result [ ok _ ↦ ok made | err e ↦ err e ], s')

-- the three texts that `consume` compares
abbrev pub same_claim : ApprovalRecord → String → String → String → Bool
same_claim r session_id action_id argument_hash =
    str_eq r.session_id session_id
    && (str_eq r.action_id action_id && str_eq r.argument_hash argument_hash)

-- `consume` of the record that was found
unfoldable pub consume_found :
    ℕ
    → Bool
    → ApprovalRecord
    → String
    → String
    → String
    → String
    → ApprovalStore
    → Result ApprovalRecord × ApprovalStore
unfolding persist
consume_found now written r approval_id session_id action_id argument_hash s =
    let expired = persist written (record s { records = JsMap.delete s.records approval_id }) in
    let taken : ApprovalRecord = record r { used = true } in
    let (result, s') =
      persist written (record s { records = JsMap.set s.records approval_id taken }) in
    if r.used
    then (err (plain_error "Approval has already been used."), s)
    else if leb r.expires_at now
    then (
      elim expired.0 [ ok _ ↦ err (plain_error "Approval has expired.") | err e ↦ err e ],
      expired.1,
    )
    else if not (same_claim r session_id action_id argument_hash)
    then (err (plain_error "Approval does not match the requested action."), s)
    else (elim result [ ok _ ↦ ok taken | err e ↦ err e ], s')

unfoldable pub consume :
    ℕ
    → Bool
    → String
    → String
    → String
    → String
    → ApprovalStore
    → Result ApprovalRecord × ApprovalStore
consume now written approval_id session_id action_id argument_hash s =
    if not s.loaded then (err not_loaded, s) else elim (JsMap.get s.records approval_id) [
      | none ↦ (err (plain_error "Approval was not found."), s)
      | some r ↦ consume_found now written r approval_id session_id action_id argument_hash s
    ]

unfoldable pub consume_verified :
    ℕ → Bool → String → String → String → String → ApprovalStore → Result (Unit {0}) × ApprovalStore
consume_verified now written approval_id session_id action_id argument_hash s =
    let (result, s') = consume now written approval_id session_id action_id argument_hash s in
    (elim result [ ok _ ↦ ok tt | err e ↦ err e ], s')

-- the record, if it is there, unused and not expired
unfoldable pub active : ℕ → Option ApprovalRecord → Option ApprovalRecord
active now none = none
active now (some r) = if r.used || leb r.expires_at now then none else some r

unfoldable pub get : ℕ → String → ApprovalStore → Result (Option ApprovalRecord)
unfolding active
get now approval_id s =
    if not s.loaded then err not_loaded else ok (active now (JsMap.get s.records approval_id))

unfoldable pub size : ApprovalStore → Result ℕ
size s = if not s.loaded then err not_loaded else ok (length s.records)

-- A call that may change the store.
pub data Call : Type 0 where
  started : (now : ℕ → ℕ) (written : Bool) → Call
  stored : (now : ℕ) (written : Bool) (input : ApprovalInput) → Call
  claimed :
      (now : ℕ) (written : Bool) (approval_id session_id action_id argument_hash : String) → Call

-- The store after a call, whether it returns or throws.
unfoldable pub call : Call → ApprovalStore → ApprovalStore
call (started now written) s = (init now written s).1
call (stored now written input) s = (put now written input s).1
call (claimed now written id session action hash) s =
    (consume now written id session action hash s).1

unfoldable pub run : List Call → ApprovalStore → ApprovalStore
unfolding call
run [] s = s
run (c ∷ rest) s = run rest (call c s)
