-- ===== src/Coding/RepairSession/Settled.antt =====
-- A repair session always comes to rest, within its limit.
use toni_ai_agent.Common.{
  ℕ, zero, suc, ◌+◌, ◌≤◌, ◌<◌, String, not, leb, ◌||◌, option_cases, Bool, true, false, Option,
  some, ◌≡◌, refl, subst, ◌&&◌, str_eq, arith, if_cases,
}
use toni_ai_agent.Types.{Result, ok, err, message_of}
use toni_ai_agent.Coding.RepairLoop.{is_final}
use toni_ai_agent.Coding.SelfDebugger.{RepairPlan}
use toni_ai_agent.Coding.VerificationEngine.{VerificationResult}
use toni_ai_agent.Coding.RepairSession.{
  RepairSession, RepairSessionSnapshot, repairing, succeeded, failed, waiting_approval,
  RepairApprovalRequest, SessionRepairResult, repaired, approval_required, repair_failed, create,
  approve, approve_plan, is_waiting, Verdict, rests, repairs, judge, handle_repair_result, fail,
  verify_current, start,
}

-- The session succeeded with a verification that did, failed with a reason, or waits for an
-- approval of the attempt that it is at.
pub data IsSettled (x : RepairSession) : Type 0 where
  has_succeeded :
      (v : VerificationResult)
      → x.state ≡ succeeded
      → x.verification ≡ some v
      → v.ok ≡ true
      → IsSettled x
  has_failed : (reason : String) → x.state ≡ failed → x.reason ≡ some reason → IsSettled x
  waits :
      (asked : RepairApprovalRequest) (plan : RepairPlan)
      → x.state ≡ waiting_approval
      → x.approval ≡ some asked
      → asked.attempt ≡ x.attempt
      → x.repair_plan ≡ some plan
      → plan.safe_to_retry ≡ true
      → IsSettled x

module _ (limit : ℕ) (attempt : ℕ) where
  -- what is asked of a verdict at an attempt
  Sound : Verdict → Type 0
  Sound (rests x) = IsSettled x × (x.attempt ≡ attempt)
  Sound (repairs plan x) =
      (x.repair_plan ≡ some plan)
      × (plan.safe_to_retry ≡ true)
      × (x.attempt ≡ attempt)
      × (attempt < limit)

  -- what is asked of a repair's result; the test says whether a verification follows
  Followed : Bool × RepairSession → Type 0
  Followed (false, x) = IsSettled x × (x.attempt ≡ attempt)
  Followed (true, x) = x.attempt ≡ suc attempt

judge-Sound :
    (limit : ℕ) (v : Result VerificationResult) (x : RepairSession)
    → Sound limit x.attempt (judge limit v x)
unfolding judge Sound fail
judge-Sound limit (err e) x = (has_failed (message_of e) refl refl, refl)
judge-Sound limit (ok v) x =
    if_cases v.ok (Sound limit x.attempt) (λ good. (has_succeeded v refl refl good, refl))
      (λ bad.
        option_cases v.repair_plan (Sound limit x.attempt)
          (λ missing. (has_failed "Verification failed without a repair plan" refl refl, refl))
          (λ plan found.
            if_cases (not plan.safe_to_retry || is_final plan.outcome) (Sound limit x.attempt)
              (λ unsafe. (has_failed "Repair plan is not safe for automatic retry" refl refl, refl))
              (λ safe.
                if_cases (leb limit x.attempt) (Sound limit x.attempt)
                  (λ at_limit. (has_failed "Repair attempt limit reached" refl refl, refl))
                  (λ below. (refl, ground (arith, safe), refl, ground (arith, below))))))

handle-Followed :
    (limit : ℕ) (r : Result SessionRepairResult) (plan : RepairPlan) (x : RepairSession)
    → x.repair_plan ≡ some plan
    → plan.safe_to_retry ≡ true
    → Followed limit x.attempt (handle_repair_result r x)
unfolding handle_repair_result Followed fail
handle-Followed limit (err e) plan x named safe = (has_failed (message_of e) refl refl, refl)
handle-Followed limit (ok (repair_failed reason)) plan x named safe =
    (has_failed reason refl refl, refl)
handle-Followed limit (ok (approval_required action_id description)) plan x named safe =
    (waits _ plan refl refl refl named safe, refl)
handle-Followed limit (ok repaired) plan x named safe = omega arith

pub verdict_cases {ℓ κ} :
    {B : Type ℓ} {f : RepairSession → B} {g : RepairPlan → RepairSession → B} (v : Verdict)
    (P : B → Type κ)
    → ((x : RepairSession) → v ≡ rests x → P (f x))
    → ((plan : RepairPlan) (x : RepairSession) → v ≡ repairs plan x → P (g plan x))
    → P (elim v [ rests x ↦ f x | repairs plan x ↦ g plan x ])
verdict_cases (rests x) P p q = p x refl
verdict_cases (repairs plan x) P p q = q plan x refl

Followed-stops :
    (limit attempt : ℕ) (p : Bool × RepairSession)
    → Followed limit attempt p
    → p.0 ≡ false
    → IsSettled p.1 × (p.1.attempt ≡ attempt)
unfolding Followed
Followed-stops limit attempt (false, x) h e = h
Followed-stops limit attempt (true, x) h e = absurd cc

Followed-goes :
    (limit attempt : ℕ) (p : Bool × RepairSession)
    → Followed limit attempt p
    → p.0 ≡ true
    → p.1.attempt ≡ suc attempt
unfolding Followed
Followed-goes limit attempt (false, x) h e = absurd cc
Followed-goes limit attempt (true, x) h e = h

IsSettled-start_result :
    (x : RepairSession) {r : Option RepairSessionSnapshot}
    → IsSettled x
    → IsSettled (record x { start_result = r })
IsSettled-start_result x (has_succeeded v state seen good) = has_succeeded v state seen good
IsSettled-start_result x (has_failed reason state because) = has_failed reason state because
IsSettled-start_result x (waits asked plan state request number named safe) =
    waits asked plan state request number named safe

-- A plan that waits for its approval is safe to retry.
waiting-safe :
    (x : RepairSession)
    → IsSettled x
    → is_waiting x.state ≡ true
    → (plan : RepairPlan) → x.repair_plan ≡ some plan
    → plan.safe_to_retry ≡ true
waiting-safe x (has_succeeded v state seen good) waiting plan named = ground (arith, state, waiting)
waiting-safe x (has_failed reason state because) waiting plan named = ground (arith, state, waiting)
waiting-safe x (waits asked plan' state request number named' safe) waiting plan named = cc

module _ {S : Type 0} (limit : ℕ) (verify : ℕ → S → Result VerificationResult × S)
    (repair : RepairPlan → ℕ → Bool → S → Result SessionRepairResult × S) where
  -- the session has come to rest, within the limit
  Rests : RepairSession × S → Type 0
  Rests p = IsSettled p.0 × (p.0.attempt ≤ limit)

  verify_current-Rests :
      (left : ℕ) (x : RepairSession) (s : S)
      → limit < left + x.attempt
      → x.attempt ≤ limit
      → Rests (verify_current limit verify repair left x s)
  unfolding verify_current Rests Sound
  verify_current-Rests zero x s enough below = absurd (omega (arith, enough, below))
  verify_current-Rests (suc left) x s enough below =
      let (v, s1) = verify x.attempt s in
      let sound = judge-Sound limit v x in
      verdict_cases (judge limit v x) Rests
        (λ x' e.
          let (settled, same) = subst (Sound limit x.attempt) e sound in
          (settled, omega (arith, same, below)))
        (λ plan x' e.
          let (named, safe, same, under) = subst (Sound limit x.attempt) e sound in
          let (result, s2) = repair plan x'.attempt false s1 in
          let followed = handle-Followed limit result plan x' named safe in
          if_cases (handle_repair_result result x').0 Rests
            (λ again.
              let next =
                Followed-goes limit x'.attempt (handle_repair_result result x') followed again in
              verify_current-Rests left _ s2 (omega (arith, next, same, enough))
                (omega (arith, next, same, under)))
            (λ stop.
              let (settled, same') =
                Followed-stops limit x'.attempt (handle_repair_result result x') followed stop in
              (settled, omega (arith, same', same, below))))

  approve_plan-Rests :
      (plan : RepairPlan) (x : RepairSession) (s : S)
      → x.repair_plan ≡ some plan
      → plan.safe_to_retry ≡ true
      → x.attempt < limit
      → Rests (approve_plan limit verify repair plan x s)
  unfolding approve_plan Rests
  approve_plan-Rests plan x s named safe under =
      let (result, s1) = repair plan x.attempt true s in
      let x' = record x { state = repairing } in
      let followed = handle-Followed limit result plan x' named safe in
      if_cases (handle_repair_result result x').0 Rests
        (λ again.
          let next =
            Followed-goes limit x'.attempt (handle_repair_result result x') followed again in
          verify_current-Rests (suc limit) _ s1 (omega (arith, next)) (omega (arith, next, under)))
        (λ stop.
          let (settled, same) =
            Followed-stops limit x'.attempt (handle_repair_result result x') followed stop in
          (settled, omega (arith, same, under)))

  -- A fresh session that is started comes to rest, at an attempt within the limit: it has succeeded
  -- with a verification that did, it has failed for a reason, or it waits for the approval of a plan
  -- that is safe to retry.
  pub start-IsSettled :
      (s : S)
      → 1 ≤ limit
      → IsSettled (start limit verify repair create s).1
        × ((start limit verify repair create s).1.attempt ≤ limit)
  unfolding start create Rests
  start-IsSettled s low =
      let x : RepairSession = record create { bound = true; started = true } in
      let (settled, below) = verify_current-Rests (suc limit) x s (omega arith) low in
      (IsSettled-start_result _ settled, below)

  -- An approval that is given to a session that waits brings it to rest again, within the limit.
  pub approve-IsSettled :
      (action_id : String) (x : RepairSession) (s : S)
      → IsSettled x
      → x.attempt < limit
      → IsSettled (approve limit verify repair action_id x s).0
        × ((approve limit verify repair action_id x s).0.attempt ≤ limit)
  unfolding approve fail Rests
  approve-IsSettled action_id x s settled under =
      let stays : Rests (x, s) = (settled, omega (arith, under)) in
      let gives_up : Rests (fail "Pending repair is unavailable" x, s) =
        (has_failed "Pending repair is unavailable" refl refl, omega (arith, under)) in
      option_cases x.approval Rests (λ missing. stays)
        (λ asked found.
          if_cases (not (is_waiting x.state && str_eq asked.action_id action_id)) Rests
            (λ other. stays)
            (λ same.
              if_cases (not x.bound) Rests (λ unbound. gives_up)
                (λ bound.
                  option_cases x.repair_plan Rests (λ none_left. gives_up)
                    (λ plan named.
                      approve_plan-Rests plan x s named
                        (waiting-safe x settled (ground (arith, same)) plan named) under))))
