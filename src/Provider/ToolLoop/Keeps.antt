-- ===== src/Provider/ToolLoop/Keeps.antt =====
-- What every step of the provider's tool loop keeps, the loop keeps.
use toni_ai_agent.Common.{
  ℕ, zero, suc, ◌+◌, Option, List, [], ◌∷◌, ◌++◌, String, option_cases, list_cases, ◌≡◌, refl,
}
use toni_ai_agent.Types.{Result, ok, err, Thrown, result_cases}
use toni_ai_agent.Types.ToolCall.{ToolExecutionResult}
use toni_ai_agent.Provider.Messages.{
  FunctionToolSpec, AgentInput, FunctionCallOutput, ResponseRequest, FunctionCall, Response,
  ToolLoopResult, function_calls,
}
use toni_ai_agent.Provider.ToolLoop.{
  ToolLoop, Host, LoopState, Reply, timed_out, request_failed, answered, Outcome, all_done, waiting,
  threw, create_response, execute_call, run_calls, waits_for, output_of, follow_up,
  process_response, process_fresh, run, resume_approved_call, to_responses_input,
}

-- What holds of each case of an outcome holds of it.
pub outcome_cases {κ μ} :
    {B : Type κ} {t : Thrown → B} {w : ToolLoopResult → B} {d : List FunctionCallOutput → ℕ → B}
    (o : Outcome) (P : B → Type μ)
    → ((e : Thrown) → o ≡ threw e → P (t e))
    → ((r : ToolLoopResult) → o ≡ waiting r → P (w r))
    → ((outputs : List FunctionCallOutput) (n : ℕ) → o ≡ all_done outputs n → P (d outputs n))
    → P (elim o [ threw e ↦ t e | waiting r ↦ w r | all_done outputs n ↦ d outputs n ])
outcome_cases (threw e) P p q r = p e refl
outcome_cases (waiting w) P p q r = q w refl
outcome_cases (all_done outputs n) P p q r = r outputs n refl

-- The same of what the provider's client comes to.
pub reply_cases {κ μ} :
    {B : Type κ} {t f : B} {a : Response → B} (reply : Reply) (P : B → Type μ)
    → (reply ≡ timed_out → P t)
    → (reply ≡ request_failed → P f)
    → ((response : Response) → reply ≡ answered response → P (a response))
    → P (elim reply [ timed_out ↦ t | request_failed ↦ f | answered response ↦ a response ])
reply_cases timed_out P p q r = p refl
reply_cases request_failed P p q r = q refl
reply_cases (answered response) P p q r = r response refl

module _ {W : Type 0} (host : Host W) (loop : ToolLoop) (show : ℕ → String)
    (tools : List FunctionToolSpec) (P : LoopState W → Type 0)
    (asks : (request : ResponseRequest) (st : LoopState W)
      → P st
      → P (create_response host loop request st).1)
    (calls_tool : (call : FunctionCall) (st : LoopState W)
      → P st
      → P (execute_call host loop call st).1) where
  run_calls_keeps :
      (response : Response) (turn : ℕ) (calls : List FunctionCall) (n : ℕ)
      (outputs : List FunctionCallOutput) (st : LoopState W)
      → P st
      → P (run_calls host loop response turn calls n outputs st).1
  unfolding run_calls
  run_calls_keeps response turn [] n outputs st p = p
  run_calls_keeps response turn (call ∷ calls) n outputs st p =
      let st' = (execute_call host loop call st).1 in
      let p' = calls_tool call st p in
      result_cases {B = Outcome × LoopState W} (execute_call host loop call st).0 (λ o. P o.1)
        (λ e _. p')
        (λ r _.
          option_cases {B = Outcome × LoopState W} (waits_for r) (λ o. P o.1)
            (λ _.
              run_calls_keeps response turn calls (n + 1)
                (outputs ++ (output_of host loop call r ∷ [])) st' p')
            (λ id _. p'))

  process_response_keeps :
      (left turn n : ℕ) (response : Response) (st : LoopState W)
      → P st
      → P (process_response host loop show tools left turn n response st).1
  unfolding process_response
  process_response_keeps zero turn n response st p = p
  process_response_keeps (suc left) turn n response st p =
      list_cases {B = Result ToolLoopResult × LoopState W} (function_calls response.output)
        (λ o. P o.1) (λ _. p)
        (λ call calls _.
          let (outcome, st1) = run_calls host loop response turn (call ∷ calls) n [] st in
          let p1 = run_calls_keeps response turn (call ∷ calls) n [] st p in
          outcome_cases {B = Result ToolLoopResult × LoopState W} outcome (λ o. P o.1) (λ e _. p1)
            (λ r _. p1)
            (λ outputs count _.
              let request = follow_up host loop response outputs tools in
              result_cases {B = Result ToolLoopResult × LoopState W}
                (create_response host loop request st1).0 (λ o. P o.1) (λ e _. asks request st1 p1)
                (λ next _.
                  process_response_keeps left (turn + 1) count next
                    (create_response host loop request st1).1 (asks request st1 p1))))

  process_fresh_keeps :
      (n : ℕ) (asked : Result Response × LoopState W)
      → P asked.1
      → P (process_fresh host loop show tools n asked).1
  unfolding process_fresh
  process_fresh_keeps n (err e, st) p = p
  process_fresh_keeps n (ok response, st) p =
      process_response_keeps loop.max_turns 1 n response st p

  pub run_keeps :
      (input : AgentInput) (instructions previous : Option String) (st : LoopState W)
      → P st
      → P (run host loop show tools input instructions previous st).1
  unfolding run
  run_keeps input instructions previous st p =
      result_cases {B = Result ToolLoopResult × LoopState W} (to_responses_input input) (λ o. P o.1)
        (λ e _. p) (λ content _. process_fresh_keeps 0 _ (asks _ st p))

  pub resume_keeps :
      (response_id call_id : String) (result : ToolExecutionResult) (st : LoopState W)
      → P st
      → P (resume_approved_call host loop show tools response_id call_id result st).1
  unfolding resume_approved_call
  resume_keeps response_id call_id result st p = process_fresh_keeps 1 _ (asks _ st p)
