-- ===== src/Coding/RepairCoordinator.antt =====
-- agent/coding/CodingRepairCoordinator.ts over the repair loop and the repair session. Where it keeps
-- the session in a file, `failure` is what the file system makes of a save. `stamp` gives the
-- identifier and the time of the n-th line of the audit file.
pub mod Restart
use toni_ai_agent.Common.{
  ℕ, zero, suc, Bool, true, false, ◌&&◌, Option, none, some, List, [], ◌∷◌, length, String, str_eq,
  if◌then◌else◌,
}
use toni_ai_agent.Types.{Result, ok, err, Thrown, plain_error}
use toni_ai_agent.Audit.Log.{
  AuditEvent, AuditDraft, repair_started, repair_approval_requested, repair_approved,
  repair_rejected, repair_succeeded, repair_failed, append,
}
use toni_ai_agent.Coding.SelfDebugger.{RepairPlan}
use toni_ai_agent.Coding.VerificationEngine.{VerificationResult}
use toni_ai_agent.Coding.RepairLoop.{RepairLoopResult, max_attempts, run}
use toni_ai_agent.Coding.RepairSession.{
  RepairSession, RepairSessionSnapshot, SessionRepairResult, RepairApprovalRequest, succeeded,
  failed, waiting_approval, is_waiting, create, restore, snapshot, start, approve, reject,
}
use toni_ai_agent.Coding.RepairStore.{StoredFile, load, save, non_empty}

-- What a coordinator is given besides its actions.
pub record Config : Type 0 where
  pub resumable : Bool
  pub persistence : Option String
  pub audited : Bool

-- Its session, and the two files that it writes.
pub record Coordinator : Type 0 where
  pub session : RepairSession
  pub file : StoredFile
  pub audit : List AuditEvent

-- `this.sessionStore && this.sessionId`
unfoldable pub kept_as : Config → Option String
unfolding non_empty
kept_as config = non_empty config.persistence

-- what the constructor restores
unfoldable pub saved : Config → StoredFile → Option RepairSessionSnapshot
unfolding kept_as load
saved config file = elim (kept_as config) [ none ↦ none | some id ↦ load id file ]

-- the session of the constructor, with its actions attached
unfoldable pub opened : Option RepairSessionSnapshot → RepairSession
unfolding create restore
opened none = record create { bound = true }
opened (some from) = record (restore from) { bound = true }

-- the constructor of a resumable coordinator, over the files as they are
unfoldable pub open_session : Config → StoredFile → List AuditEvent → Coordinator
unfolding saved opened
open_session config file audit = record {
  session = opened (saved config file);
  file = file;
  audit = audit;
}

unfoldable pub audit_session_id : Config → String
audit_session_id config = elim config.persistence [ none ↦ "ephemeral" | some id ↦ id ]

-- an event of the coordinator's without an action and texts
unfoldable pub draft : Config → ℕ → AuditDraft
unfolding audit_session_id
draft config attempt = record {
  kind = repair_started;
  session_id = audit_session_id config;
  attempt = some attempt;
  action_id = none;
  summary = none;
  reason = none;
}

unfoldable pub persist :
    Config
    → Option Thrown
    → String
    → RepairSessionSnapshot
    → Coordinator
    → Result (Unit {0}) × Coordinator
unfolding kept_as save
persist config failure now s c = elim (kept_as config) [
  | none ↦ (ok tt, c)
  | some id ↦
      let (written, file') = save failure now id s c.file in (written, record c { file = file' })
]

-- `before.approval?.actionId === actionId`
unfoldable pub asked_for : RepairSessionSnapshot → String → Bool
asked_for s action_id = elim s.approval [ none ↦ false | some a ↦ str_eq a.action_id action_id ]

-- the event that a snapshot calls for
unfoldable pub event_of : Config → RepairSessionSnapshot → Option AuditDraft
unfolding draft
event_of config s = elim s.state [
  | waiting_approval ↦ elim s.approval [
    | none ↦ none
    | some a ↦ some (record (draft config s.attempt) {
      kind = repair_approval_requested;
      action_id = some a.action_id;
      summary = some a.description;
    })
  ]
  | succeeded ↦ some (record (draft config s.attempt) { kind = repair_succeeded })
  | failed ↦ some (record (draft config s.attempt) { kind = repair_failed; reason = s.reason })
  | _ ↦ none
]

unfoldable pub not_resumable : Thrown
not_resumable = plain_error "This coordinator is not configured for resumable repair"

module _ (stamp : ℕ → String × String) where
  -- `this.audit?.append(…)`
  unfoldable pub log : Config → Option AuditDraft → Coordinator → Coordinator
  unfolding append
  log config none c = c
  log config (some event) c =
      if config.audited
      then record c {
        audit = (append (stamp (length c.audit)).0 (stamp (length c.audit)).1 event c.audit).1;
      }
      else c

  -- `this.persist(result)`, then the audit of the decision and of the result
  unfoldable pub conclude :
      Config
      → Option Thrown
      → String
      → Option AuditDraft
      → RepairSessionSnapshot
      → Coordinator
      → Result RepairSessionSnapshot × Coordinator
  unfolding persist log event_of
  conclude config failure now decision s c =
      let (written, c') = persist config failure now s c in
      elim written [
        | err e ↦ (err e, c')
        | ok _ ↦ (ok s, log config (event_of config s) (log config decision c'))
      ]

  -- `reject`
  unfoldable pub reject_repair :
      Config
      → Option Thrown
      → String
      → String
      → Coordinator
      → Result RepairSessionSnapshot × Coordinator
  unfolding conclude asked_for draft reject snapshot not_resumable
  reject_repair config failure now action_id c =
      let before = snapshot c.session in
      let session' = reject action_id c.session in
      let decision : Option AuditDraft =
        if asked_for before action_id
        then some (record (draft config before.attempt) {
          kind = repair_rejected;
          action_id = some action_id;
        })
        else none in
      if config.resumable
      then conclude config failure now decision (snapshot session')
          (record c { session = session' })
      else (err not_resumable, c)

  module _ {S : Type 0} (limit : ℕ) (verify : ℕ → S → Result VerificationResult × S)
      (repair : RepairPlan → ℕ → Bool → S → Result SessionRepairResult × S) where
    -- `start`
    unfoldable pub start_repair :
        Config
        → Option Thrown
        → String
        → Coordinator
        → S
        → Result RepairSessionSnapshot × Coordinator × S
    unfolding conclude log draft start snapshot not_resumable
    start_repair config failure now c s =
        let c1 = log config (some (draft config (snapshot c.session).attempt)) c in
        let (result, session', s') = start limit verify repair c.session s in
        let (answer, c2) =
          conclude config failure now none result (record c1 { session = session' }) in
        if config.resumable then (answer, c2, s') else (err not_resumable, c, s)

    -- `approve`
    unfoldable pub approve_repair :
        Config
        → Option Thrown
        → String
        → String
        → Coordinator
        → S
        → Result RepairSessionSnapshot × Coordinator × S
    unfolding conclude asked_for draft approve snapshot not_resumable
    approve_repair config failure now action_id c s =
        let before = snapshot c.session in
        let (session', s') = approve limit verify repair action_id c.session s in
        let decision : Option AuditDraft =
          if asked_for before action_id
          then some (record (draft config before.attempt) {
            kind = repair_approved;
            action_id = some action_id;
          })
          else none in
        let (answer, c') =
          conclude config failure now decision (snapshot session')
            (record c { session = session' }) in
        if config.resumable then (answer, c', s') else (err not_resumable, c, s)

module _ {S : Type 0} (verify : ℕ → S → VerificationResult × S)
    (repair : RepairPlan → ℕ → S → Bool × S) where
  -- `run`
  unfoldable pub run_loop : Config → Option ℕ → S → Result RepairLoopResult × S
  unfolding run
  run_loop config asked s =
      let (result, s') = run (max_attempts asked) verify repair s in
      if config.resumable
      then (
        err (
            plain_error
              "This coordinator was configured for resumable repair; use start(), approve(), or reject()."),
        s,
      )
      else (ok result, s')
