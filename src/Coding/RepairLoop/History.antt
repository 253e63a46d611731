-- ===== src/Coding/RepairLoop/History.antt =====
-- The attempts that the repair loop records, and how many there can be.
use toni_ai_agent.Common.{
  ℕ, zero, suc, ◌+◌, ◌≤◌, ◌<◌, Bool, true, false, Option, none, some, List, [], ◌∷◌, length, ◌≡◌,
  inl, inr, refl, sym, ap, arith, Bool-cases, ◌⊎◌, not,
}
use toni_ai_agent.Coding.SelfDebugger.{RepairPlan}
use toni_ai_agent.Coding.VerificationEngine.{VerificationResult}
use toni_ai_agent.Coding.RepairLoop.{
  RepairAttempt, Verdict, stops, repairs, judge, repaired_entry, rounds, run, max_attempts,
}

-- The entries of a run from round `n` on: each but the last is of a repair that was done by a plan
-- that is safe to retry, below the limit; the last is where the loop stopped.
pub data IsHistory (limit : ℕ) : ℕ → List RepairAttempt → Type 0 where
  ends :
      {n : ℕ} (entry : RepairAttempt)
      → entry.attempt ≡ n
      → entry.stopped ≡ true
      → entry.repaired ≡ false
      → n ≤ limit
      → IsHistory limit n (entry ∷ [])
  goes :
      {n : ℕ} (entry : RepairAttempt) (plan : RepairPlan) {rest : List RepairAttempt}
      → entry.attempt ≡ n
      → entry.stopped ≡ false
      → entry.repaired ≡ true
      → entry.plan ≡ some plan
      → plan.safe_to_retry ≡ true
      → n < limit
      → IsHistory limit (suc n) rest
      → IsHistory limit n (entry ∷ rest)

-- what a verdict says
judged_stop :
    (limit attempt : ℕ) (final : VerificationResult) (ok : Bool) (entry : RepairAttempt)
    → judge limit attempt final ≡ stops ok entry
    → (entry.attempt ≡ attempt)
      × (entry.stopped ≡ true)
      × (entry.repaired ≡ false)
      × (ok ≡ final.ok)
unfolding judge
judged_stop limit attempt final ok entry h = ground arith

judged_repair :
    (limit attempt : ℕ) (final : VerificationResult) (plan : RepairPlan)
    → judge limit attempt final ≡ repairs plan
    → (attempt < limit) × (plan.safe_to_retry ≡ true) × (final.ok ≡ false)
unfolding judge
judged_repair limit attempt final plan h = ground arith

Verdict-cases :
    (v : Verdict)
    → ((ok : Bool) × (entry : RepairAttempt) × (v ≡ stops ok entry))
      ⊎ ((plan : RepairPlan) × (v ≡ repairs plan))
Verdict-cases (stops ok entry) = inl (ok, entry, refl)
Verdict-cases (repairs plan) = inr (plan, refl)

module _ {S : Type 0} (limit : ℕ) (verify : ℕ → S → VerificationResult × S)
    (repair : RepairPlan → ℕ → S → Bool × S) where
  rounds-IsHistory :
      (left attempt : ℕ) (final : VerificationResult) (s : S)
      → left + attempt ≡ suc limit
      → attempt ≤ limit
      → IsHistory limit attempt (rounds limit verify repair left attempt final s).0.attempts
  unfolding rounds repaired_entry
  rounds-IsHistory zero attempt final s sum below = absurd (omega arith)
  rounds-IsHistory (suc left) attempt final s sum below =
      elim (Verdict-cases (judge limit attempt final)) [
        | inl (ok, entry, e) ↦
            let (number, stopped, not_repaired, same) =
              judged_stop limit attempt final ok entry e in
            rw (e, rounds) (ends entry number stopped not_repaired below)
        | inr (plan, e) ↦
            let (under, safe, bad) = judged_repair limit attempt final plan e in
            elim (Bool-cases (repair plan attempt s).0) [
              | inr failed ↦
                  rw (e, failed, rounds)
                    (ends (repaired_entry attempt final plan (repair plan attempt s).0) refl
                      (ap not failed) failed below)
              | inl done ↦
                  rw (e, done, rounds)
                    (goes (repaired_entry attempt final plan (repair plan attempt s).0) plan refl
                      (ap not done) done refl safe under
                      (rounds-IsHistory left (suc attempt) _ _ (omega (arith, sum))
                        (omega (arith, under))))
            ]
      ]

  rounds-ok :
      (left attempt : ℕ) (final : VerificationResult) (s : S)
      → (rounds limit verify repair left attempt final s).0.ok
        ≡ (rounds limit verify repair left attempt final s).0.final_verification.ok
  unfolding rounds repaired_entry
  rounds-ok zero attempt final s = refl
  rounds-ok (suc left) attempt final s = elim (Verdict-cases (judge limit attempt final)) [
    | inl (ok, entry, e) ↦ rw (e, rounds) (judged_stop limit attempt final ok entry e).3
    | inr (plan, e) ↦ elim (Bool-cases (repair plan attempt s).0) [
      | inr failed ↦ rw (e, failed, rounds) (sym (judged_repair limit attempt final plan e).2)
      | inl done ↦ rw (e, done, rounds) (rounds-ok left (suc attempt) _ _)
    ]
  ]

history-length :
    (limit n : ℕ) (es : List RepairAttempt) → IsHistory limit n es → length es + n ≤ suc limit
history-length limit n es (ends entry number stopped repaired below) = omega (arith, below)
history-length limit n es (goes entry plan number stopped repaired named safe under rest) =
    omega (arith, history-length limit (suc n) _ rest)

max_attempts-bounds : (o : Option ℕ) → (1 ≤ max_attempts o) × (max_attempts o ≤ 3)
unfolding max_attempts
max_attempts-bounds none = (omega arith, omega arith)
max_attempts-bounds (some n) = (omega arith, omega arith)

module _ {S : Type 0} (options : Option ℕ) (verify : ℕ → S → VerificationResult × S)
    (repair : RepairPlan → ℕ → S → Bool × S) (s : S) where
  -- A run of the repair loop records, from attempt 1 on, one entry for each attempt: each but the
  -- last is a repair that was done by a plan that is safe to retry, and the last is where it stopped.
  pub run-IsHistory :
      IsHistory (max_attempts options) 1 (run (max_attempts options) verify repair s).0.attempts
  unfolding run
  run-IsHistory =
      let (low, high) = max_attempts-bounds options in
      rounds-IsHistory (max_attempts options) verify repair (max_attempts options) 1 _ _
        (omega arith) low

  -- A run of the repair loop makes at most three attempts, whatever limit it is given.
  pub run-bounded : length (run (max_attempts options) verify repair s).0.attempts ≤ 3
  run-bounded =
      let (low, high) = max_attempts-bounds options in
      omega (arith, history-length (max_attempts options) 1 _ run-IsHistory, high)

  -- The loop reports success exactly when the verification that it ends with succeeded.
  pub run-ok :
      (run (max_attempts options) verify repair s).0.ok
      ≡ (run (max_attempts options) verify repair s).0.final_verification.ok
  unfolding run
  run-ok = rounds-ok (max_attempts options) verify repair (max_attempts options) 1 _ _
