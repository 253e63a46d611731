-- ===== src/Tests/Coding.antt =====
-- The theorems on verification and repair at concrete runs.
use toni_ai_agent.Common.{
  ℕ, zero, suc, Bool, true, false, Option, none, some, [], all, length, String, str_eq,
  if◌then◌else◌, ◌≡◌, ◌≢◌, ◌≤◌, ◌<◌, ◌↔◌, refl, arith,
}
use toni_ai_agent.Common.Text.{trim}
use toni_ai_agent.Common.{eq_iff}
use toni_ai_agent.Types.{Result, ok}
use toni_ai_agent.Coding.RepairStore.{missing}
use toni_ai_agent.Coding.RepairCoordinator.{Config, open_session, start_repair}
use toni_ai_agent.Coding.RepairCoordinator.Restart.{Survives, start_repair-Survives}
use toni_ai_agent.Coding.SelfDebugger.{
  DebugFailure, RepairPlan, retry, analyse, classify, analyse-safe_iff,
}
use toni_ai_agent.Coding.VerificationEngine.{
  VerificationResult, VerificationRunnerResult, verify, available_commands,
}
use toni_ai_agent.Coding.VerificationEngine.Steps.{
  step_ok, verify-ok, StopsAtFailure, verify-StopsAtFailure,
}
use toni_ai_agent.Coding.RepairLoop.{max_attempts, run}
use toni_ai_agent.Coding.RepairLoop.History.{IsHistory, run-IsHistory, run-bounded, run-ok}
use toni_ai_agent.Coding.RepairSession.{
  RepairSession, SessionRepairResult, approval_required, repaired, waiting_approval, create, start,
  approve,
}
use toni_ai_agent.Coding.RepairSession.Settled.{
  IsSettled, waits, start-IsSettled, approve-IsSettled,
}

abbrev plan : RepairPlan
plan = record {
  outcome = retry;
  summary = "Attempt 1 failed during test.";
  suspected_cause = "unknown_runtime_error";
  next_checks = [];
  safe_to_retry = true;
}

abbrev broken : VerificationResult
broken = record { ok = false; steps = []; failed_step = none; repair_plan = some plan }

-- The host counts the repairs; a verification succeeds after one.
abbrev check : ℕ → ℕ → VerificationResult × ℕ
check attempt zero = (broken, 0)
check attempt (suc n) =
    (record { ok = true; steps = []; failed_step = none; repair_plan = none }, suc n)

abbrev mend : RepairPlan → ℕ → ℕ → Bool × ℕ
mend p attempt n = (true, suc n)

abbrev check_session : ℕ → ℕ → Result VerificationResult × ℕ
check_session attempt n = (ok (check attempt n).0, n)

-- a repair that asks before it mends
abbrev mend_session : RepairPlan → ℕ → Bool → ℕ → Result SessionRepairResult × ℕ
mend_session p attempt true n = (ok repaired, suc n)
mend_session p attempt false n = (ok (approval_required "a" "repair"), n)

run-IsHistory_example :
    IsHistory (max_attempts none) 1 (run (max_attempts none) check mend 0).0.attempts
run-IsHistory_example = run-IsHistory none check mend 0

run-bounded_example : length (run (max_attempts none) check mend 0).0.attempts ≤ 3
run-bounded_example = run-bounded none check mend 0

run-ok_example :
    (run (max_attempts none) check mend 0).0.ok
    ≡ (run (max_attempts none) check mend 0).0.final_verification.ok
run-ok_example = run-ok none check mend 0

start-IsSettled_example :
    IsSettled (start 3 check_session mend_session create 0).1
    × ((start 3 check_session mend_session create 0).1.attempt ≤ 3)
start-IsSettled_example = start-IsSettled 3 check_session mend_session 0 (omega arith)

abbrev waiting : RepairSession
waiting = record {
  state = waiting_approval;
  attempt = 1;
  verification = some broken;
  repair_plan = some plan;
  approval = some (record { action_id = "a"; attempt = 1; description = "repair" });
  reason = none;
  bound = true;
  started = true;
  start_result = none;
}

approve-IsSettled_example :
    IsSettled (approve 3 check_session mend_session "a" waiting 0).0
    × ((approve 3 check_session mend_session "a" waiting 0).0.attempt ≤ 3)
approve-IsSettled_example =
    approve-IsSettled 3 check_session mend_session "a" waiting 0
      (waits (record { action_id = "a"; attempt = 1; description = "repair" }) plan refl refl refl
        refl refl)
      (omega arith)

abbrev scripts : String → Option String
scripts name = if str_eq name "test" then some "npm test" else none

-- a command that always fails
abbrev failing : String → ℕ → VerificationRunnerResult × ℕ
failing command n = (
  record {
    ok = false;
    exit_code = some 1;
    stdout = "";
    stderr = "failed";
    blocked = none;
    reason = none;
  },
  n,
)

verify-ok_example :
    (verify (λ code. "1") failing none scripts 0).0.ok
    ≡ all step_ok (verify (λ code. "1") failing none scripts 0).0.steps
verify-ok_example = verify-ok (λ code. "1") failing none scripts 0

scripts_configured : available_commands scripts ≢ []
unfolding available_commands
scripts_configured h = cc

verify-StopsAtFailure_example :
    StopsAtFailure
      (λ code. "1")
      failing
      none
      []
      (available_commands scripts)
      0
      (verify (λ code. "1") failing none scripts 0)
verify-StopsAtFailure_example =
    verify-StopsAtFailure (λ code. "1") failing none scripts 0 scripts_configured

abbrev failure : DebugFailure
failure = record { operation = "test"; error = "EACCES: permission denied"; attempt = 1 }

analyse-safe_iff_example : ((analyse (λ n. "1") 3 failure).safe_to_retry ≡ true) ↔ (
    (trim failure.error ≢ "")
    × (failure.attempt < 3)
    × (classify (trim failure.error) ≢ "permission_or_access"))
analyse-safe_iff_example = analyse-safe_iff (λ n. "1") 3 failure

abbrev kept : Config
kept = record { resumable = true; persistence = some "s"; audited = true }

abbrev stamp : ℕ → String × String
stamp n = ("id", "time")

start_repair-Survives_example :
    Survives kept
      (start 3 check_session mend_session (open_session kept missing []).session 0).0
      (start_repair stamp 3 check_session mend_session kept none "now"
        (open_session kept missing [])
        0).0
      (start_repair stamp 3 check_session mend_session kept none "now"
        (open_session kept missing [])
        0).1
start_repair-Survives_example =
    start_repair-Survives stamp kept "s" "now" 3 check_session mend_session missing [] 0 refl refl
      (ground (arith, eq_iff "s" ""))
