-- ===== src/Approval/Store/Invariant.antt =====
-- What holds of an approval store between two calls: no approval stands twice, and each stands
-- under its own name.
use toni_ai_agent.Common.{
  ℕ, suc, Bool, true, false, Option, none, some, List, [], ◌∷◌, String, ◌≡◌, refl, arith, ltb, leb,
  not, ◌&&◌, if_keeps,
}
use toni_ai_agent.Common.JsMap
use toni_ai_agent.Common.JsMap.{
  JsMap, IsMap, Entries, IsMap-set, IsMap-delete, Entries-set, Entries-delete, get-Entries,
}
use toni_ai_agent.Types.{Result, ok, err, plain_error}
use toni_ai_agent.Approval.Record.{ApprovalRecord, ApprovalInput}
use toni_ai_agent.Approval.Store.{
  ApprovalStore, StoreFile, missing, unusable, holds, admit, load, finish_init, read_file, init,
  persist, new_record, put, consume, consume_found, same_claim, Call, started, stored, claimed,
  call, run, create,
}

abbrev pub Keyed : String → ApprovalRecord → Type 0
Keyed id r = r.approval_id ≡ id

pub record IsTable (m : JsMap ApprovalRecord) : Type 0 where
  pub unique : IsMap m
  pub keyed : Entries Keyed m

pub set-IsTable :
    (m : JsMap ApprovalRecord) (id : String) (r : ApprovalRecord)
    → r.approval_id ≡ id
    → IsTable m
    → IsTable (JsMap.set m id r)
set-IsTable m id r e h = record {
  unique = IsMap-set m id r h.unique;
  keyed = Entries-set Keyed m id r h.keyed e;
}

pub delete-IsTable :
    (m : JsMap ApprovalRecord) (id : String) → IsTable m → IsTable (JsMap.delete m id)
delete-IsTable m id h = record {
  unique = IsMap-delete m id h.unique;
  keyed = Entries-delete Keyed m id h.keyed;
}

pub admit-IsTable :
    (now : ℕ) (m : JsMap ApprovalRecord) (r : ApprovalRecord) → IsTable m → IsTable (admit now m r)
unfolding admit
admit-IsTable now m r h =
    if_keeps IsTable (ltb now r.expires_at && not r.used) (set-IsTable m r.approval_id r refl h) h

pub load-IsTable :
    (now : ℕ → ℕ) (m : JsMap ApprovalRecord) (values : List (Option ApprovalRecord))
    → IsTable m
    → IsTable (load now m values).1
unfolding load
load-IsTable now m [] h = h
load-IsTable now m (none ∷ rest) h = h
load-IsTable now m (some r ∷ rest) h =
    load-IsTable (λ n. now (suc n)) (admit (now 0) m r) rest (admit-IsTable (now 0) m r h)

-- the invariant of a store
abbrev pub IsValid : ApprovalStore → Type 0
IsValid s = IsTable s.records

pub persist-records :
    (written : Bool) (s : ApprovalStore) → (persist written s).1.records ≡ s.records
unfolding persist
persist-records true s = refl
persist-records false s = refl

read_file-IsValid :
    (now : ℕ → ℕ) (s : ApprovalStore) (file : StoreFile)
    → IsValid s
    → IsValid (read_file now s file).1
unfolding read_file
read_file-IsValid now s missing h = h
read_file-IsValid now s (unusable e) h = h
read_file-IsValid now s (holds values) h = load-IsTable now s.records values h

abbrev After : {A : Type 0} → Result A × ApprovalStore → Type 0
After p = IsValid p.1

finish_init-IsValid :
    (written : Bool) (result : Result (Unit {0})) (s : ApprovalStore)
    → IsValid s
    → After (finish_init written result s)
unfolding finish_init
finish_init-IsValid written (err e) s h = h
finish_init-IsValid written (ok _) s h = rw persist-records h

init-IsValid :
    (now : ℕ → ℕ) (written : Bool) (s : ApprovalStore) → IsValid s → IsValid (init now written s).1
unfolding init
init-IsValid now written s h =
    if_keeps After s.loaded h
      (finish_init-IsValid written (read_file now s s.file).0 _ (read_file-IsValid now s s.file h))

module _ (now : ℕ) (written : Bool) (s : ApprovalStore) (h : IsValid s) where
  put-IsValid : (input : ApprovalInput) → IsValid (put now written input s).1
  unfolding put new_record
  put-IsValid input =
      if_keeps After (not s.loaded) h
        (rw persist-records (set-IsTable s.records input.approval_id _ refl h))

  consume-IsValid :
      (id session action hash : String) → IsValid (consume now written id session action hash s).1
  unfolding consume consume_found
  consume-IsValid id session action hash =
      if_keeps After (not s.loaded) h (found (JsMap.get s.records id) refl)
    where
      found :
          (o : Option ApprovalRecord)
          → JsMap.get s.records id ≡ o
          → After {A = ApprovalRecord} (elim o [
            | none ↦ (err (plain_error "Approval was not found."), s)
            | some r ↦ consume_found now written r id session action hash s
          ])
      found none e = h
      found (some r) e = if_keeps After r.used h (
          if_keeps After (leb r.expires_at now) (rw persist-records (delete-IsTable s.records id h))
            (if_keeps After (not (same_claim r session action hash)) h (
              rw persist-records
                (set-IsTable s.records id _ (get-Entries Keyed s.records id r h.keyed e) h))))

call-IsValid : (c : Call) (s : ApprovalStore) → IsValid s → IsValid (call c s)
unfolding call
call-IsValid (started now written) s h = init-IsValid now written s h
call-IsValid (stored now written input) s h = put-IsValid now written s h input
call-IsValid (claimed now written id session action hash) s h =
    consume-IsValid now written s h id session action hash

calls-IsValid : (calls : List Call) (s : ApprovalStore) → IsValid s → IsValid (run calls s)
unfolding run
calls-IsValid [] s h = h
calls-IsValid (c ∷ rest) s h = calls-IsValid rest (call c s) (call-IsValid c s h)

fresh-IsValid :
    (file : StoreFile) (ttl_ms : ℕ) (s : ApprovalStore) → create file ttl_ms ≡ ok s → s.records ≡ []
unfolding create
fresh-IsValid file ttl_ms s h = ground arith

-- From a fresh store over any file, any calls in any order leave a valid store.
pub run-IsValid :
    (file : StoreFile) (ttl_ms : ℕ) (s : ApprovalStore) (calls : List Call)
    → create file ttl_ms ≡ ok s
    → IsValid (run calls s)
run-IsValid file ttl_ms s calls h =
    calls-IsValid calls s (rw (fresh-IsValid file ttl_ms s h) (record { unique = tt; keyed = tt }))
