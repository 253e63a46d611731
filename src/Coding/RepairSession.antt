-- ===== src/Coding/RepairSession.antt =====
-- agent/coding/RepairSession.ts. The two actions are parameters that act on a state of the host; an
-- action that rejects gives an `err`. A call runs to its end before the next: calls that come in
-- while an action is awaited are not modelled. `maxAttempts` is a natural number.
pub mod Settled
pub mod Attempts
use toni_ai_agent.Common.{
  ℕ, zero, suc, ◌+◌, Bool, true, false, not, ◌&&◌, ◌||◌, Option, none, some, String, str_eq, leb,
  max, if◌then◌else◌,
}
use toni_ai_agent.Types.{Result, ok, err, message_of}
use toni_ai_agent.Coding.SelfDebugger.{RepairPlan}
use toni_ai_agent.Coding.VerificationEngine.{VerificationResult}
use toni_ai_agent.Coding.RepairLoop.{is_final}

pub data RepairSessionState : Type 0 where
  verifying needs_repair waiting_approval repairing succeeded failed rejected : RepairSessionState

pub record RepairApprovalRequest : Type 0 where
  pub action_id : String
  pub attempt : ℕ
  pub description : String

pub data SessionRepairResult : Type 0 where
  repaired : SessionRepairResult
  approval_required : String → String → SessionRepairResult
  repair_failed : String → SessionRepairResult

pub record RepairSessionSnapshot : Type 0 where
  pub state : RepairSessionState
  pub attempt : ℕ
  pub verification : Option VerificationResult
  pub repair_plan : Option RepairPlan
  pub approval : Option RepairApprovalRequest
  pub reason : Option String

-- `bound` says that the actions have been attached; `start_result` is what the promise of the
-- first start gives.
pub record RepairSession : Type 0 where
  pub state : RepairSessionState
  pub attempt : ℕ
  pub verification : Option VerificationResult
  pub repair_plan : Option RepairPlan
  pub approval : Option RepairApprovalRequest
  pub reason : Option String
  pub bound : Bool
  pub started : Bool
  pub start_result : Option RepairSessionSnapshot

abbrev pub is_verifying : RepairSessionState → Bool
is_verifying verifying = true
is_verifying _ = false

abbrev pub is_waiting : RepairSessionState → Bool
is_waiting waiting_approval = true
is_waiting _ = false

unfoldable pub snapshot : RepairSession → RepairSessionSnapshot
snapshot x = record {
  state = x.state;
  attempt = x.attempt;
  verification = x.verification;
  repair_plan = x.repair_plan;
  approval = x.approval;
  reason = x.reason;
}

unfoldable pub create : RepairSession
create = record {
  state = verifying;
  attempt = 1;
  verification = none;
  repair_plan = none;
  approval = none;
  reason = none;
  bound = false;
  started = false;
  start_result = none;
}

unfoldable pub restore : RepairSessionSnapshot → RepairSession
restore from = record {
  state = from.state;
  attempt = max 1 from.attempt;
  verification = from.verification;
  repair_plan = from.repair_plan;
  approval = from.approval;
  reason = from.reason;
  bound = false;
  started = not (is_verifying from.state);
  start_result = none;
}

unfoldable pub fail : String → RepairSession → RepairSession
fail reason x = record x {
  state = failed;
  reason = some reason;
  approval = none;
  repair_plan = none;
}

-- What a verification leads to: the session rests, or it repairs by a plan.
pub data Verdict : Type 0 where
  rests : RepairSession → Verdict
  repairs : RepairPlan → RepairSession → Verdict

-- `verifyCurrent`, once the verification is there
unfoldable pub judge : ℕ → Result VerificationResult → RepairSession → Verdict
unfolding fail
judge limit (err e) x = rests (fail (message_of e) (record x { state = verifying }))
judge limit (ok v) x =
    let seen = record x { state = verifying; verification = some v } in
    if v.ok
    then rests (record seen { state = succeeded; repair_plan = none; approval = none })
    else elim v.repair_plan [
      | none ↦
          rests
            (fail "Verification failed without a repair plan" (record seen { repair_plan = none }))
      | some plan ↦
          if not plan.safe_to_retry || is_final plan.outcome
          then rests (
              fail "Repair plan is not safe for automatic retry"
                (record seen { repair_plan = some plan }))
          else if leb limit x.attempt
          then rests (fail "Repair attempt limit reached" (record seen { repair_plan = some plan }))
          else repairs plan (record seen { state = repairing; repair_plan = some plan })
    ]

-- `handleRepairResult`, up to the next verification; the test says whether there is one
unfoldable pub handle_repair_result :
    Result SessionRepairResult → RepairSession → Bool × RepairSession
unfolding fail
handle_repair_result (err e) x = (false, fail (message_of e) x)
handle_repair_result (ok (repair_failed reason)) x = (false, fail reason x)
handle_repair_result (ok (approval_required action_id description)) x = (
  false,
  record x {
    state = waiting_approval;
    approval =
        some (record { action_id = action_id; attempt = x.attempt; description = description });
  },
)
handle_repair_result (ok repaired) x =
    (true, record x { approval = none; repair_plan = none; attempt = x.attempt + 1 })

unfoldable pub reject : String → RepairSession → RepairSession
reject action_id x = elim x.approval [
  | none ↦ x
  | some asked ↦
      if is_waiting x.state && str_eq asked.action_id action_id
      then record x { state = rejected; reason = some "Repair approval rejected"; approval = none }
      else x
]

module _ {S : Type 0} (limit : ℕ) (verify : ℕ → S → Result VerificationResult × S)
    (repair : RepairPlan → ℕ → Bool → S → Result SessionRepairResult × S) where
  -- `verifyCurrent` with the repairs that follow it, where `left` more verifications may come
  unfoldable pub verify_current : ℕ → RepairSession → S → RepairSession × S
  unfolding judge handle_repair_result
  verify_current zero x s = (x, s)
  verify_current (suc left) x s =
      let (v, s1) = verify x.attempt s in
      elim (judge limit v x) [
        | rests x' ↦ (x', s1)
        | repairs plan x' ↦
            let (result, s2) = repair plan x'.attempt false s1 in
            let (again, x2) = handle_repair_result result x' in
            let next = verify_current left x2 s2 in if again then next else (x2, s2)
      ]

  -- the verifications that the limit leaves from an attempt on
  abbrev pub fuel : ℕ
  fuel = suc limit

  unfoldable pub start : RepairSession → S → RepairSessionSnapshot × RepairSession × S
  unfolding verify_current
  start x s = elim x.start_result [
    | some r ↦ (r, x, s)
    | none ↦
        let x' = record x { bound = true } in
        let (ran, s') = verify_current fuel (record x' { started = true }) s in
        if x'.started
        then (snapshot x', x', s)
        else if not (is_verifying x'.state)
        then (snapshot x', record x' { started = true }, s)
        else (snapshot ran, record ran { start_result = some (snapshot ran) }, s')
  ]

  -- `approve` of a plan that waits
  unfoldable pub approve_plan : RepairPlan → RepairSession → S → RepairSession × S
  unfolding verify_current
  approve_plan plan x s =
      let (result, s1) = repair plan x.attempt true s in
      let (again, x') = handle_repair_result result (record x { state = repairing }) in
      let next = verify_current fuel x' s1 in if again then next else (x', s1)

  unfoldable pub approve : String → RepairSession → S → RepairSession × S
  unfolding approve_plan
  approve action_id x s = elim x.approval [
    | none ↦ (x, s)
    | some asked ↦
        if not (is_waiting x.state && str_eq asked.action_id action_id)
        then (x, s)
        else if not x.bound
        then (fail "Pending repair is unavailable" x, s)
        else elim x.repair_plan [
          | none ↦ (fail "Pending repair is unavailable" x, s)
          | some plan ↦ approve_plan plan x s
        ]
  ]
