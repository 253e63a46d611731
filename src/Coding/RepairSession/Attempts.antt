-- ===== src/Coding/RepairSession/Attempts.antt =====
-- A repair session never goes back to an earlier attempt.
use toni_ai_agent.Common.{
  ℕ, zero, suc, ◌≤◌, Bool, true, false, not, none, leb, ◌||◌, if_cases, option_cases, ◌≡◌, refl,
  arith, subst,
}
use toni_ai_agent.Types.{Result, ok, err}
use toni_ai_agent.Coding.RepairLoop.{is_final}
use toni_ai_agent.Coding.SelfDebugger.{RepairPlan}
use toni_ai_agent.Coding.VerificationEngine.{VerificationResult}
use toni_ai_agent.Coding.RepairSession.{
  RepairSession, RepairSessionSnapshot, SessionRepairResult, repaired, approval_required,
  repair_failed, Verdict, rests, repairs, judge, handle_repair_result, fail, verify_current, start,
  snapshot, is_verifying,
}
use toni_ai_agent.Coding.RepairSession.Settled.{verdict_cases}

-- the session of a verdict is at an attempt
IsAt : ℕ → Verdict → Type 0
IsAt n (rests x) = x.attempt ≡ n
IsAt n (repairs plan x) = x.attempt ≡ n

judge-IsAt :
    (limit : ℕ) (v : Result VerificationResult) (x : RepairSession)
    → IsAt x.attempt (judge limit v x)
unfolding judge IsAt fail
judge-IsAt limit (err e) x = refl
judge-IsAt limit (ok v) x =
    if_cases v.ok (IsAt x.attempt) (λ _. refl)
      (λ _.
        option_cases v.repair_plan (IsAt x.attempt) (λ _. refl)
          (λ plan _.
            if_cases (not plan.safe_to_retry || is_final plan.outcome) (IsAt x.attempt) (λ _. refl)
              (λ _. if_cases (leb limit x.attempt) (IsAt x.attempt) (λ _. refl) (λ _. refl))))

handle-attempt :
    (r : Result SessionRepairResult) (x : RepairSession)
    → x.attempt ≤ (handle_repair_result r x).1.attempt
unfolding handle_repair_result fail
handle-attempt (err e) x = omega arith
handle-attempt (ok (repair_failed reason)) x = omega arith
handle-attempt (ok (approval_required action_id description)) x = omega arith
handle-attempt (ok repaired) x = omega arith

module _ {S : Type 0} (limit : ℕ) (verify : ℕ → S → Result VerificationResult × S)
    (repair : RepairPlan → ℕ → Bool → S → Result SessionRepairResult × S) where
  verify_current-attempt :
      (left : ℕ) (x : RepairSession) (s : S)
      → x.attempt ≤ (verify_current limit verify repair left x s).0.attempt
  unfolding verify_current IsAt
  verify_current-attempt zero x s = omega arith
  verify_current-attempt (suc left) x s =
      let (v, s1) = verify x.attempt s in
      let at_ = judge-IsAt limit v x in
      let Later : RepairSession × S → Type 0 = λ p. x.attempt ≤ p.0.attempt in
      verdict_cases (judge limit v x) Later
        (λ x' e.
          let same : x'.attempt ≡ x.attempt = subst (IsAt x.attempt) e at_ in omega (arith, same))
        (λ plan x' e.
          let same : x'.attempt ≡ x.attempt = subst (IsAt x.attempt) e at_ in
          let (result, s2) = repair plan x'.attempt false s1 in
          let (again, x2) = handle_repair_result result x' in
          let later = handle-attempt result x' in
          if_cases again Later (λ _. omega (arith, same, later, verify_current-attempt left x2 s2))
            (λ _. omega (arith, same, later)))

  pub start-attempt :
      (x : RepairSession) (s : S)
      → x.start_result ≡ none
      → x.attempt ≤ (start limit verify repair x s).0.attempt
  unfolding start snapshot
  start-attempt x s fresh =
      let Later : RepairSessionSnapshot × RepairSession × S → Type 0 =
        λ p. x.attempt ≤ p.0.attempt in
      let x' : RepairSession = record x { bound = true; started = true } in
      option_cases x.start_result Later
        (λ _.
          if_cases x.started Later (λ _. omega arith)
            (λ _.
              if_cases (not (is_verifying x.state)) Later (λ _. omega arith)
                (λ _. verify_current-attempt (suc limit) x' s)))
        (λ r e. absurd (cc (fresh, e)))
