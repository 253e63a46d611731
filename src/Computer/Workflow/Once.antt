-- ===== src/Computer/Workflow/Once.antt =====
-- What becomes of a queued computer action that is approved (`approveAndVerify` of
-- agent/computer/ComputerActionWorkflow.ts).
use toni_ai_agent.Common.{
  ℕ, suc, Bool, true, false, ◌&&◌, Option, none, some, String, if◌then◌else◌, eq_refl, ◌≡◌, ◌≤◌,
  ◌⊎◌, inl, inr, refl, ◌∙◌, arith, Bool-cases,
}
use toni_ai_agent.Common.JsMap
use toni_ai_agent.Common.JsMap.{JsMap, get-delete}
use toni_ai_agent.Types.{Thrown, Result, ok, err, Result-cases}
use toni_ai_agent.Types.ToolCall.{ToolExecutionResult}
use toni_ai_agent.Computer.Validator.{
  ComputerActionValidation, ComputerValidationStatus, accepted, failed,
  ComputerPostConditionExpectation,
}
use toni_ai_agent.Computer.Lifecycle.{
  Append, written, refused, unsecured, ComputerActionLifecycle, record_event, record_approval,
  record_execution, validation_of,
}
use toni_ai_agent.Computer.VerificationPolicy.{
  bound, nth_observation, observations-end, nth_observation-keeps,
}
use toni_ai_agent.Computer.Controller.{ComputerExecutor}
use toni_ai_agent.Computer.Workflow.{
  Queued, Workflow, Execution, require_queued, observe, verify, approve_queued, approve_and_verify,
}

deleted : {A : Type 0} (m : JsMap A) (k : String) → JsMap.get (JsMap.delete m k) k ≡ none
deleted m k = ground (arith, get-delete m k k, eq_refl k)

Status-cases : (s : ComputerValidationStatus) → (s ≡ accepted) ⊎ (s ≡ failed)
Status-cases accepted = inl refl
Status-cases failed = inr refl

abbrev pub is_written : Append → Bool
is_written (written id time) = true
is_written (refused e) = false
is_written (unsecured id time e) = false

-- Whether the audit file takes the events of an approved action: that of the approval, where the
-- executor says that it was approved, and that of the execution.
abbrev pub is_audited : ToolExecutionResult → (ℕ → Append) → Bool
is_audited result writes =
    if result.approved
    then is_written (writes 0) && is_written (writes 1)
    else is_written (writes 0)

Append-cases :
    (a : Append)
    → ((id : String) × (time : String) × (a ≡ written id time))
      ⊎ (((e : Thrown) × (a ≡ refused e))
          ⊎ ((id : String) × (time : String) × (e : Thrown) × (a ≡ unsecured id time e)))
Append-cases (written id time) = inl (id, time, refl)
Append-cases (refused e) = inr (inl (e, refl))
Append-cases (unsecured id time e) = inr (inr (id, time, e, refl))

module _ (session_id action_id : String) (l : ComputerActionLifecycle) where
  record_approval-cases :
      let recorded = record_approval session_id action_id l in
      ((is_written (l.writes 0) ≡ true) × (recorded.0 ≡ ok tt) × (recorded.1.writes 0 ≡ l.writes 1))
      ⊎ ((is_written (l.writes 0) ≡ false) × ((e : Thrown) × (recorded.0 ≡ err e)))
  unfolding record_approval record_event
  record_approval-cases = elim (Append-cases (l.writes 0)) [
    | inl (id, time, e) ↦ inl (ground arith, ground arith, ground arith)
    | inr (inl (t, e)) ↦ inr (ground arith, (t, ground arith))
    | inr (inr (id, time, t, e)) ↦ inr (ground arith, (t, ground arith))
  ]

  record_execution-cases :
      (result : ToolExecutionResult)
      → let recorded = record_execution session_id action_id result l in
        ((is_written (l.writes 0) ≡ true) × ((v : ComputerActionValidation) × (recorded.0 ≡ ok v)))
        ⊎ ((is_written (l.writes 0) ≡ false) × ((e : Thrown) × (recorded.0 ≡ err e)))
  unfolding record_execution record_event
  record_execution-cases result = elim (Append-cases (l.writes 0)) [
    | inl (id, time, e) ↦ inl (ground arith, (validation_of result, ground arith))
    | inr (inl (t, e)) ↦ inr (ground arith, (t, ground arith))
    | inr (inr (id, time, t, e)) ↦ inr (ground arith, (t, ground arith))
  ]

module _ (executor : ComputerExecutor) (lower : String → String) (parse : String → Option ℕ)
    (policy : Option ℕ) (low : 1 ≤ bound policy) (high : bound policy ≤ 3)
    (action_id session_id : String) where
  -- whether the audit file takes the events of the approval in the workflow's state
  abbrev pub audited : Workflow executor → Bool
  audited w = is_audited (executor.approve_and_resume action_id w.host).0 w.lifecycle.writes

  abbrev pub lookup_queued : Workflow executor → Option Queued
  lookup_queued w = JsMap.get w.queued_actions action_id

  -- what an approval returns before any observation
  made_of : Queued → ToolExecutionResult → ComputerActionValidation → Execution executor
  made_of queued result v = record {
    queued = queued;
    result = result;
    validation = v;
    post_condition = none;
    verification_attempts = 0;
  }

  -- The call has ended. Either its audit events were taken, and the action is no longer queued; or
  -- they were not, the call throws, and the action is still queued as it was, although the executor
  -- has been asked to resume it.
  abbrev pub ApprovalEnds :
      Workflow executor → Queued → Option (Result (Execution executor) × Workflow executor) → Type 0
  ApprovalEnds w queued r =
      (x : Result (Execution executor)) × (w' : Workflow executor) × (r ≡ some (x, w'))
      × (((audited w ≡ true) × (lookup_queued w' ≡ none))
          ⊎ ((audited w ≡ false)
              × ((e : Thrown) × (x ≡ err e))
              × (lookup_queued w' ≡ some queued)
              × (w'.host ≡ (executor.approve_and_resume action_id w.host).1)))

  abbrev IsGone : Workflow executor → Type 0
  IsGone w = lookup_queued w ≡ none

  observe-IsGone :
      (expectation : ComputerPostConditionExpectation) (w : Workflow executor)
      → IsGone w
      → IsGone (observe executor lower parse policy session_id action_id expectation w).1
  unfolding observe
  observe-IsGone expectation w h = ground arith

  -- The observations end, and leave the queue alone.
  verify-ends :
      (expectation : Option ComputerPostConditionExpectation) (execution : Execution executor)
      (w : Workflow executor)
      → IsGone w
      → (x : Result (Execution executor)) × (w' : Workflow executor) × (verify executor lower parse
            policy session_id action_id expectation execution w
          ≡ some (x, w'))
        × IsGone w'
  unfolding verify
  verify-ends none execution w h = (ok execution, w, refl, h)
  verify-ends (some expectation) execution w h =
      let look = observe executor lower parse policy session_id action_id expectation in
      let (k, e, within, earlier, last) = observations-end policy look w low high in
      let gone = nth_observation-keeps policy look IsGone (observe-IsGone expectation) k w h in
      elim (Result-cases (nth_observation look k w).0) [
        | inl (thrown, threw) ↦
            (err thrown, (nth_observation look k w).1, rw (e, verify) (rw threw refl), gone)
        | inr (v, told) ↦ (
          ok (record execution { post_condition = some v; verification_attempts = suc k }),
          (nth_observation look k w).1,
          rw (e, verify) (rw told (ground arith)),
          gone,
        )
      ]

  approve_queued-cases :
      (queued : Queued) (w : Workflow executor)
      → let ran = approve_queued executor lower parse policy action_id session_id queued w in
        ((audited w ≡ true)
          × ((execution : Execution executor) × (ran.0 ≡ ok execution))
          × (lookup_queued ran.1 ≡ none))
        ⊎ ((audited w ≡ false)
            × ((e : Thrown) × (ran.0 ≡ err e))
            × (lookup_queued ran.1 ≡ lookup_queued w)
            × (ran.1.host ≡ (executor.approve_and_resume action_id w.host).1))
  unfolding approve_queued made_of
  approve_queued-cases queued w =
      let result = (executor.approve_and_resume action_id w.host).0 in
      let gone = deleted w.queued_actions action_id in
      let made = λ (v : ComputerActionValidation). made_of queued result v in
      elim (Bool-cases result.approved) [
        | inl yes_approved ↦ elim (record_approval-cases session_id action_id w.lifecycle) [
          | inl (fine, done, next) ↦
              let l = (record_approval session_id action_id w.lifecycle).1 in
              elim (record_execution-cases session_id action_id l result) [
                | inl (fine', (v, done')) ↦
                    inl (ground arith, (made v, ground arith), ground (arith, gone))
                | inr (bad, (e, threw)) ↦
                    inr (ground arith, (e, ground arith), ground arith, ground arith)
              ]
          | inr (bad, (e, threw)) ↦
              inr (ground arith, (e, ground arith), ground arith, ground arith)
        ]
        | inr not_approved ↦ elim (record_execution-cases session_id action_id w.lifecycle result) [
          | inl (fine, (v, done)) ↦ inl (ground arith, (made v, ground arith), ground (arith, gone))
          | inr (bad, (e, threw)) ↦
              inr (ground arith, (e, ground arith), ground arith, ground arith)
        ]
      ]

  found-queued :
      (w : Workflow executor) (queued : Queued)
      → require_queued executor action_id session_id w ≡ ok queued
      → lookup_queued w ≡ some queued
  unfolding require_queued
  found-queued w queued found = ground arith

  -- Where the policy allows one to three observations, the approval of a computer action that is
  -- queued for the session ends. Where the audit file takes the events of its approval and of its
  -- execution, the action is no longer queued, however the observations ended; where it does not,
  -- the call throws, and the action stays queued, although the executor has been asked to resume it.
  pub approve_and_verify-ApprovalEnds :
      (expectation : Option ComputerPostConditionExpectation) (w : Workflow executor)
      (queued : Queued)
      → require_queued executor action_id session_id w ≡ ok queued
      → ApprovalEnds w queued
          (approve_and_verify executor lower parse policy action_id session_id expectation w)
  unfolding approve_and_verify
  approve_and_verify-ApprovalEnds expectation w queued found =
      let ran = approve_queued executor lower parse policy action_id session_id queued w in
      elim (approve_queued-cases queued w) [
        | inr (bad, (e, threw), still, asked) ↦ (
          err e,
          ran.1,
          rw (found, threw, approve_and_verify) refl,
          inr (bad, (e, refl), still ∙ found-queued w queued found, asked),
        )
        | inl (fine, (execution, done), gone) ↦ elim (Status-cases execution.validation.status) [
          | inl is_accepted ↦
              let (x, w', e, gone') = verify-ends expectation execution ran.1 gone in
              (x, w', ground arith, inl (fine, gone'))
          | inr is_failed ↦ (ok execution, ran.1, ground arith, inl (fine, gone))
        ]
      ]
