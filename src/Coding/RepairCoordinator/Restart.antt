-- ===== src/Coding/RepairCoordinator/Restart.antt =====
-- A repair that a coordinator of agent/coding/CodingRepairCoordinator.ts keeps in a file goes on after
-- the program has ended and has been started again.
use toni_ai_agent.Common.{
  ℕ, ◌≤◌, List, Bool, true, Option, none, some, String, eq_iff, eq_refl, max, ◌≡◌, ◌≢◌, refl, arith,
  sym, ◌∙◌, subst, if_cases,
}
use toni_ai_agent.Types.{Result, ok, err}
use toni_ai_agent.Audit.Log.{AuditDraft, AuditEvent}
use toni_ai_agent.Coding.SelfDebugger.{RepairPlan}
use toni_ai_agent.Coding.VerificationEngine.{VerificationResult}
use toni_ai_agent.Coding.RepairSession.{
  create, RepairSessionSnapshot, SessionRepairResult, restore, snapshot, start,
}
use toni_ai_agent.Coding.RepairSession.Attempts.{start-attempt}
use toni_ai_agent.Coding.RepairStore.Stored.{stored, load-save}
use toni_ai_agent.Coding.RepairStore.{StoredFile, save, non_empty}
use toni_ai_agent.Coding.RepairCoordinator.{
  Config, Coordinator, kept_as, saved, opened, open_session, persist, log, conclude, event_of,
  start_repair,
}

module _ (stamp : ℕ → String × String) (config : Config) (id : String) (now : String) where
  log-file :
      (event : Option AuditDraft) (c : Coordinator) → (log stamp config event c).file ≡ c.file
  unfolding log
  log-file none c = refl
  log-file (some event) c = ground arith

  kept_as-some : id ≢ "" → config.persistence ≡ some id → kept_as config ≡ some id
  unfolding kept_as non_empty
  kept_as-some named e = ground (arith, eq_iff id "", e)

  persist-kept :
      (s : RepairSessionSnapshot) (c : Coordinator)
      → kept_as config ≡ some id
      → persist config none now s c ≡ (ok tt, record c { file = (save none now id s c.file).1 })
  unfolding persist save
  persist-kept s c kept = rw (kept, persist) refl

  conclude-file :
      (decision : Option AuditDraft) (s : RepairSessionSnapshot) (c : Coordinator)
      → kept_as config ≡ some id
      → (conclude stamp config none now decision s c).1.file ≡ (save none now id s c.file).1
  unfolding conclude
  conclude-file decision s c kept =
      let c' : Coordinator = record c { file = (save none now id s c.file).1 } in
      subst
        (λ p.
          (elim p.0 as (λ _. Result RepairSessionSnapshot × Coordinator) [
            | err e ↦ (err e, p.1)
            | ok _ ↦ (ok s, log stamp config (event_of config s) (log stamp config decision p.1))
          ]).1.file
          ≡ (save none now id s c.file).1)
        (sym (persist-kept s c kept))
        (log-file (event_of config s) (log stamp config decision c') ∙ log-file decision c')

  -- A concluded call has saved its snapshot.
  conclude-saved :
      (decision : Option AuditDraft) (s : RepairSessionSnapshot) (c : Coordinator)
      → kept_as config ≡ some id
      → 1 ≤ s.attempt
      → saved config (conclude stamp config none now decision s c).1.file ≡ some (stored s)
  unfolding saved
  conclude-saved decision s c kept low =
      rw
        (
          kept,
          saved,
          conclude-file decision s c kept,
          load-save none now id s c.file id low,
          eq_refl id,
        )
        refl

-- A session that is opened over a saved snapshot shows it.
opened-snapshot :
    (o : Option RepairSessionSnapshot) (s : RepairSessionSnapshot)
    → o ≡ some s
    → 1 ≤ s.attempt
    → snapshot (opened o) ≡ s
unfolding opened snapshot restore
opened-snapshot o s e low =
    let same : max 1 s.attempt ≡ s.attempt = ground arith in
    rw e (λ i. record s { attempt = same i })

-- A session that is opened is at an attempt of at least one, and has not been started since.
opened-fresh :
    (o : Option RepairSessionSnapshot) → (1 ≤ (opened o).attempt) × ((opened o).start_result ≡ none)
unfolding opened create restore
opened-fresh none = (omega arith, refl)
opened-fresh (some s) = (ground arith, refl)

open_session-fresh :
    (config : Config) (file : StoredFile) (audit : List AuditEvent)
    → (1 ≤ (open_session config file audit).session.attempt)
      × ((open_session config file audit).session.start_result ≡ none)
unfolding open_session
open_session-fresh config file audit = opened-fresh (saved config file)

-- A call has answered with a snapshot, and a coordinator that is opened over the files that it left
-- shows that snapshot as it is stored.
abbrev pub Survives :
    Config → RepairSessionSnapshot → Result RepairSessionSnapshot → Coordinator → Type 0
Survives config r answer c =
    (answer ≡ ok r) × (snapshot (open_session config c.file c.audit).session ≡ stored r)

module _ (stamp : ℕ → String × String) (config : Config) (id now : String) where
  conclude-answer :
      (decision : Option AuditDraft) (s : RepairSessionSnapshot) (c : Coordinator)
      → kept_as config ≡ some id
      → (conclude stamp config none now decision s c).0 ≡ ok s
  unfolding conclude
  conclude-answer decision s c kept =
      subst
        (λ p.
          (elim p.0 as (λ _. Result RepairSessionSnapshot × Coordinator) [
            | err e ↦ (err e, p.1)
            | ok _ ↦ (ok s, log stamp config (event_of config s) (log stamp config decision p.1))
          ]).0
          ≡ ok s)
        (sym (persist-kept stamp config id now s c kept)) refl

  conclude-Survives :
      (decision : Option AuditDraft) (s : RepairSessionSnapshot) (c : Coordinator)
      → id ≢ ""
      → config.persistence ≡ some id
      → 1 ≤ s.attempt
      → Survives config s
          (conclude stamp config none now decision s c).0
          (conclude stamp config none now decision s c).1
  unfolding open_session stored
  conclude-Survives decision s c named e low =
      let kept = kept_as-some stamp config id now named e in
      (
        conclude-answer decision s c kept,
        opened-snapshot _ (stored s) (conclude-saved stamp config id now decision s c kept low) low,
      )

  module _ {S : Type 0} (limit : ℕ) (verify : ℕ → S → Result VerificationResult × S)
      (repair : RepairPlan → ℕ → Bool → S → Result SessionRepairResult × S) where
    start_repair-saved :
        (c : Coordinator) (s : S)
        → config.resumable ≡ true
        → config.persistence ≡ some id
        → id ≢ ""
        → 1 ≤ (start limit verify repair c.session s).0.attempt
        → Survives config
            (start limit verify repair c.session s).0
            (start_repair stamp limit verify repair config none now c s).0
            (start_repair stamp limit verify repair config none now c s).1
    unfolding start_repair
    start_repair-saved c s resumable e named low =
        if_cases {A = Result RepairSessionSnapshot × Coordinator × S} config.resumable
          (λ p. Survives config (start limit verify repair c.session s).0 p.0 p.1)
          (λ _. conclude-Survives none _ _ named e low) (λ off. absurd (cc (resumable, off)))

    -- A resumable coordinator with a named file that can be written is opened over the file, whatever
    -- it holds, and started. What it answers is what a coordinator that is opened again over the files
    -- that it left shows, as it is stored: with its texts made safe and without output.
    pub start_repair-Survives :
        (file : StoredFile) (audit : List AuditEvent) (s : S)
        → config.resumable ≡ true
        → config.persistence ≡ some id
        → id ≢ ""
        → Survives config
            (start limit verify repair (open_session config file audit).session s).0
            (start_repair stamp limit verify repair config none now
              (open_session config file audit)
              s).0
            (start_repair stamp limit verify repair config none now
              (open_session config file audit)
              s).1
    start_repair-Survives file audit s resumable e named =
        let c = open_session config file audit in
        let (low, fresh) = open_session-fresh config file audit in
        start_repair-saved c s resumable e named
          (omega (arith, low, start-attempt limit verify repair c.session s fresh))
