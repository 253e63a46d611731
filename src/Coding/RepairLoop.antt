-- ===== src/Coding/RepairLoop.antt =====
-- agent/coding/RepairLoop.ts. The two actions are parameters that act on a state of the host; an
-- action that rejects is not modelled. `maxAttempts` is a natural number.
pub mod History
use toni_ai_agent.Common.{
  ℕ, suc, zero, Bool, true, false, not, ◌||◌, Option, none, some, List, [], ◌∷◌, String, leb, min,
  max, if◌then◌else◌,
}
use toni_ai_agent.Coding.SelfDebugger.{
  RepairPlan, DebugOutcome, retry, repair_plan, blocked, failed,
}
use toni_ai_agent.Coding.VerificationEngine.{VerificationResult}

pub record RepairAttempt : Type 0 where
  pub attempt : ℕ
  pub verification : VerificationResult
  pub plan : Option RepairPlan
  pub repaired : Bool
  pub stopped : Bool
  pub reason : Option String

pub record RepairLoopResult : Type 0 where
  pub ok : Bool
  pub attempts : List RepairAttempt
  pub final_verification : VerificationResult

-- `Math.max(1, Math.min(options.maxAttempts ?? 3, 3))`
unfoldable pub max_attempts : Option ℕ → ℕ
max_attempts none = 3
max_attempts (some n) = max 1 (min n 3)

abbrev pub is_final : DebugOutcome → Bool
is_final blocked = true
is_final failed = true
is_final retry = false
is_final repair_plan = false

-- What a round makes of the verification at hand: it stops, with an entry, or it repairs by a plan.
pub data Verdict : Type 0 where
  stops : Bool → RepairAttempt → Verdict
  repairs : RepairPlan → Verdict

unfoldable pub judge : ℕ → ℕ → VerificationResult → Verdict
judge limit attempt final =
    let entry : Option RepairPlan → Option String → RepairAttempt = λ plan reason. record {
      attempt = attempt;
      verification = final;
      plan = plan;
      repaired = false;
      stopped = true;
      reason = reason;
    } in
    if final.ok then stops true (entry none none) else elim final.repair_plan [
      | none ↦ stops false (entry none (some "Verification failed without a repair plan"))
      | some plan ↦
          if not plan.safe_to_retry || is_final plan.outcome
          then stops false (entry (some plan) (some "Repair plan is not safe for automatic retry"))
          else if leb limit attempt
          then stops false (entry (some plan) (some "Repair attempt limit reached"))
          else repairs plan
    ]

-- the entry of a round that repairs, or tries to
unfoldable pub repaired_entry : ℕ → VerificationResult → RepairPlan → Bool → RepairAttempt
repaired_entry attempt final plan repaired = record {
  attempt = attempt;
  verification = final;
  plan = some plan;
  repaired = repaired;
  stopped = not repaired;
  reason = if repaired then none else some "Repair action did not complete";
}

module _ {S : Type 0} (limit : ℕ) (verify : ℕ → S → VerificationResult × S)
    (repair : RepairPlan → ℕ → S → Bool × S) where
  -- the loop, where `left` more rounds may come; each round's entry stands before those that follow
  unfoldable pub rounds : ℕ → ℕ → VerificationResult → S → RepairLoopResult × S
  rounds zero attempt final s =
      (record { ok = final.ok; attempts = []; final_verification = final }, s)
  rounds (suc left) attempt final s = elim (judge limit attempt final) [
    | stops ok entry ↦ (record { ok = ok; attempts = entry ∷ []; final_verification = final }, s)
    | repairs plan ↦
        let (repaired, s') = repair plan attempt s in
        let entry = repaired_entry attempt final plan repaired in
        elim repaired [
          | false ↦ (record { ok = false; attempts = entry ∷ []; final_verification = final }, s')
          | true ↦
              let (final', s'') = verify (suc attempt) s' in
              let (result, s3) = rounds left (suc attempt) final' s'' in
              (record result { attempts = entry ∷ result.attempts }, s3)
        ]
  ]

  unfoldable pub run : S → RepairLoopResult × S
  unfolding rounds
  run s = let (final, s') = verify 1 s in rounds limit 1 final s'
