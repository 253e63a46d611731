-- ===== src/Coding/RepairStore.antt =====
-- agent/coding/RepairSessionStore.ts. The file is what `JSON.parse` makes of it, with the fields that
-- the code looks at: `JSON.parse` is taken to give back what `JSON.stringify` was given. An attempt
-- that is no natural number is `none`.
pub mod Stored
use toni_ai_agent.Common.{
  ℕ, zero, suc, ◌≤◌, Bool, false, not, ◌||◌, Option, none, some, List, [], ◌∷◌, map, ltb, ◌==◌,
  String, str_eq, eq_refl, eq_iff, if◌then◌else◌, ◌≡◌, ◌≢◌, refl, arith, is_some, Bool-cases, inl,
  inr, subst, sym,
}
use toni_ai_agent.Types.{Result, ok, err, Thrown}
use toni_ai_agent.Privacy.SafeText.{safe_text}
use toni_ai_agent.Coding.SelfDebugger.{RepairPlan}
use toni_ai_agent.Coding.VerificationEngine.{VerificationResult, VerificationStepResult}
use toni_ai_agent.Coding.RepairSession.{
  RepairSessionState, verifying, needs_repair, waiting_approval, repairing, succeeded, failed,
  rejected, RepairApprovalRequest, RepairSessionSnapshot,
}

-- `Partial<PersistedRepairSession>`
pub record PersistedRepairSession : Type 0 where
  pub schema_version : Option ℕ
  pub session_id : Option String
  pub updated_at : Option String
  pub state : Option String
  pub attempt : Option ℕ
  pub verification : Option VerificationResult
  pub repair_plan : Option RepairPlan
  pub approval : Option RepairApprovalRequest
  pub reason : Option String

-- A file that cannot be read, or holds no JSON, is `unreadable`.
pub data StoredFile : Type 0 where
  missing : StoredFile
  unreadable : StoredFile
  holds : PersistedRepairSession → StoredFile

unfoldable pub state_text : RepairSessionState → String
state_text verifying = "verifying"
state_text needs_repair = "needs_repair"
state_text waiting_approval = "waiting_approval"
state_text repairing = "repairing"
state_text succeeded = "succeeded"
state_text failed = "failed"
state_text rejected = "rejected"

-- `isState`, with the state that it finds
unfoldable pub read_state : String → Option RepairSessionState
read_state value =
    if str_eq value "verifying"
    then some verifying
    else if str_eq value "needs_repair"
    then some needs_repair
    else if str_eq value "waiting_approval"
    then some waiting_approval
    else if str_eq value "repairing"
    then some repairing
    else if str_eq value "succeeded"
    then some succeeded
    else if str_eq value "failed"
    then some failed
    else if str_eq value "rejected"
    then some rejected
    else none

-- `if (text) …` of a text that may be missing
unfoldable pub non_empty : Option String → Option String
non_empty none = none
non_empty (some text) = if str_eq text "" then none else some text

unfoldable pub safe_option : Option String → Option String
safe_option none = none
safe_option (some text) = some (safe_text text)

-- `items.slice(0, n)`
unfoldable pub take {ℓ} : {A : Type ℓ} → ℕ → List A → List A
take zero xs = []
take (suc n) [] = []
take (suc n) (x ∷ xs) = x ∷ take n xs

unfoldable pub sanitize_step : VerificationStepResult → VerificationStepResult
unfolding non_empty safe_option
sanitize_step step = record {
  name = step.name;
  command = safe_text step.command;
  ok = step.ok;
  skipped = step.skipped;
  exit_code = step.exit_code;
  stdout = none;
  stderr = none;
  reason = safe_option (non_empty step.reason);
  blocked = none;
}

unfoldable pub sanitize_verification : VerificationResult → VerificationResult
unfolding sanitize_step
sanitize_verification result = record {
  ok = result.ok;
  steps = map sanitize_step result.steps;
  failed_step = elim result.failed_step [ none ↦ none | some step ↦ some (sanitize_step step) ];
  repair_plan = none;
}

unfoldable pub sanitize_plan : RepairPlan → RepairPlan
unfolding take
sanitize_plan plan = record {
  outcome = plan.outcome;
  summary = safe_text plan.summary;
  suspected_cause = safe_text plan.suspected_cause;
  next_checks = map safe_text (take 10 plan.next_checks);
  safe_to_retry = plan.safe_to_retry;
}

unfoldable pub sanitize_approval : RepairApprovalRequest → RepairApprovalRequest
sanitize_approval a = record {
  action_id = safe_text a.action_id;
  attempt = a.attempt;
  description = safe_text a.description;
}

unfoldable pub map_option {ℓ κ} : {A : Type ℓ} {B : Type κ} → (A → B) → Option A → Option B
map_option f none = none
map_option f (some a) = some (f a)

-- the payload of `save`
unfoldable pub payload : String → String → RepairSessionSnapshot → PersistedRepairSession
unfolding state_text sanitize_verification sanitize_plan sanitize_approval map_option safe_option
    non_empty
payload now session_id snapshot = record {
  schema_version = some 1;
  session_id = some session_id;
  updated_at = some now;
  state = some (state_text snapshot.state);
  attempt = some snapshot.attempt;
  verification = map_option sanitize_verification snapshot.verification;
  repair_plan = map_option sanitize_plan snapshot.repair_plan;
  approval = map_option sanitize_approval snapshot.approval;
  reason = safe_option (non_empty snapshot.reason);
}

-- `save`; a directory, a write or a renaming that fails gives its error and leaves the file, since
-- the payload goes to a temporary file first
unfoldable pub save :
    Option Thrown
    → String
    → String
    → RepairSessionSnapshot
    → StoredFile
    → Result (Unit {0}) × StoredFile
unfolding payload
save failure now session_id snapshot file = elim failure [
  | some e ↦ (err e, file)
  | none ↦ (ok tt, holds (payload now session_id snapshot))
]

-- `clear`; a file that is missing is no error
unfoldable pub clear : Option Thrown → StoredFile → Result (Unit {0}) × StoredFile
clear failure missing = (ok tt, missing)
clear failure file = elim failure [ some e ↦ (err e, file) | none ↦ (ok tt, missing) ]

unfoldable pub is_given : Option ℕ → ℕ → Bool
is_given none n = false
is_given (some m) n = m == n

unfoldable pub is_named : Option String → String → Bool
is_named none s = false
is_named (some t) s = str_eq t s

-- the snapshot of a state and an attempt that were read
unfoldable pub restored : PersistedRepairSession → RepairSessionState → ℕ → RepairSessionSnapshot
unfolding non_empty
restored raw state attempt = record {
  state = state;
  attempt = attempt;
  verification = raw.verification;
  repair_plan = raw.repair_plan;
  approval = raw.approval;
  reason = non_empty raw.reason;
}

unfoldable pub load_from : String → PersistedRepairSession → Option RepairSessionSnapshot
unfolding read_state is_given is_named restored
load_from session_id raw =
    if not (is_given raw.schema_version 1) || not (is_named raw.session_id session_id)
    then none
    else elim raw.state [
      | none ↦ none
      | some value ↦ elim (read_state value) [
        | none ↦ none
        | some state ↦ elim raw.attempt [
          | none ↦ none
          | some attempt ↦ if ltb attempt 1 then none else some (restored raw state attempt)
        ]
      ]
    ]

unfoldable pub load : String → StoredFile → Option RepairSessionSnapshot
unfolding load_from
load session_id missing = none
load session_id unreadable = none
load session_id (holds raw) = load_from session_id raw
