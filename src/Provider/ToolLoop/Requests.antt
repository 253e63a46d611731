-- ===== src/Provider/ToolLoop/Requests.antt =====
-- How many requests a run of the provider's tool loop makes.
use toni_ai_agent.Common.{
  ℕ, zero, suc, ◌+◌, ◌≤◌, Option, none, some, List, [], ◌∷◌, ◌++◌, String, option_cases, list_cases,
  ◌≡◌, refl, arith, ap,
}
use toni_ai_agent.Types.{Result, ok, err, result_cases}
use toni_ai_agent.Limits.ProviderBudget.{ProviderBudget, consume as consume_request}
use toni_ai_agent.Provider.Messages.{
  FunctionToolSpec, AgentInput, FunctionCallOutput, ResponseRequest, FunctionCall, Response,
  ToolLoopResult, function_calls, tool_definitions,
}
use toni_ai_agent.Provider.ToolLoop.{
  ToolLoop, Host, LoopState, Outcome, charge_request, charge_usage, ask_provider, create_response,
  execute_call, run_calls, waits_for, output_of, follow_up, process_response, process_fresh, run,
  to_responses_input, non_empty,
}
use toni_ai_agent.Provider.ToolLoop.Keeps.{outcome_cases, reply_cases}
use toni_ai_agent.Provider.ToolLoop.Bounded.{TurnsWithin, run-TurnsWithin}

-- The requests that a budget has been charged for.
abbrev pub charged : Option ProviderBudget → ℕ
charged none = 0
charged (some b) = b.requests

module _ {W : Type 0} (host : Host W) (loop : ToolLoop) where
  charge_request-charged :
      (st : LoopState W)
      → charged (charge_request host loop st).1.provider_budget ≤ charged st.provider_budget + 1
  unfolding charge_request consume_request
  charge_request-charged st = ground arith

  charge_usage-charged :
      (response : Response) (st : LoopState W)
      → (charge_usage host loop response st).1.provider_budget ≡ st.provider_budget
  unfolding charge_usage
  charge_usage-charged response st = ground arith

  ask_provider-charged :
      (request : ResponseRequest) (st : LoopState W)
      → (ask_provider host loop request st).1.provider_budget ≡ st.provider_budget
  unfolding ask_provider
  ask_provider-charged request st =
      let (reply, w) = host.respond request loop.provider_timeout_ms st.world in
      reply_cases {B = Result Response × LoopState W} reply
        (λ o. o.1.provider_budget ≡ st.provider_budget) (λ _. refl) (λ _. refl)
        (λ response _. charge_usage-charged response (record st { world = w }))

  create_response-charged :
      (request : ResponseRequest) (st : LoopState W)
      → charged (create_response host loop request st).1.provider_budget
        ≤ charged st.provider_budget + 1
  unfolding create_response
  create_response-charged request st =
      let (answer, st') = charge_request host loop st in
      result_cases {B = Result Response × LoopState W} answer
        (λ o. charged o.1.provider_budget ≤ charged st.provider_budget + 1)
        (λ e _. charge_request-charged st)
        (λ _ _.
          omega (arith, charge_request-charged st, ap charged (ask_provider-charged request st')))

  run_calls-charged :
      (response : Response) (turn : ℕ) (calls : List FunctionCall) (n : ℕ)
      (outputs : List FunctionCallOutput) (st : LoopState W)
      → (run_calls host loop response turn calls n outputs st).1.provider_budget
        ≡ st.provider_budget
  unfolding run_calls execute_call
  run_calls-charged response turn [] n outputs st = refl
  run_calls-charged response turn (call ∷ calls) n outputs st =
      let (result, st') = execute_call host loop call st in
      result_cases {B = Outcome × LoopState W} result
        (λ o. o.1.provider_budget ≡ st.provider_budget) (λ e _. refl)
        (λ r _.
          option_cases {B = Outcome × LoopState W} (waits_for r)
            (λ o. o.1.provider_budget ≡ st.provider_budget)
            (λ _.
              run_calls-charged response turn calls (n + 1)
                (outputs ++ (output_of host loop call r ∷ [])) st')
            (λ id _. refl))

module _ {W : Type 0} (host : Host W) (loop : ToolLoop) (show : ℕ → String)
    (tools : List FunctionToolSpec) where
  process_response-charged :
      (left turn n : ℕ) (response : Response) (st : LoopState W)
      → charged (process_response host loop show tools left turn n response st).1.provider_budget
        ≤ charged st.provider_budget + left
  unfolding process_response
  process_response-charged zero turn n response st = omega arith
  process_response-charged (suc left) turn n response st =
      let Good : Result ToolLoopResult × LoopState W → Type 0 =
        λ o. charged o.1.provider_budget ≤ charged st.provider_budget + suc left in
      list_cases (function_calls response.output) Good (λ _. omega arith)
        (λ call calls _.
          let (outcome, st1) = run_calls host loop response turn (call ∷ calls) n [] st in
          let same =
            ap charged (run_calls-charged host loop response turn (call ∷ calls) n [] st) in
          outcome_cases outcome Good (λ e _. omega (arith, same)) (λ r _. omega (arith, same))
            (λ outputs count _.
              let request = follow_up host loop response outputs tools in
              let (next, st2) = create_response host loop request st1 in
              let one = create_response-charged host loop request st1 in
              result_cases next Good (λ e _. omega (arith, same, one))
                (λ response' _. omega (
                  arith,
                  same,
                  one,
                  process_response-charged left (turn + 1) count response' st2,
                ))))

  process_fresh-charged :
      (n : ℕ) (asked : Result Response × LoopState W)
      → charged (process_fresh host loop show tools n asked).1.provider_budget
        ≤ charged asked.1.provider_budget + loop.max_turns
  unfolding process_fresh
  process_fresh-charged n (err e, st) = omega arith
  process_fresh-charged n (ok response, st) =
      process_response-charged loop.max_turns 1 n response st

  -- A run of the tool loop charges at most one request more than the turns that the loop allows,
  -- however it ends, and where it gives a result it gives it in one of those turns.
  pub run-charged :
      (input : AgentInput) (instructions previous : Option String) (st : LoopState W)
      → (charged (run host loop show tools input instructions previous st).1.provider_budget
          ≤ charged st.provider_budget + (loop.max_turns + 1))
        × TurnsWithin 1
            (1 + loop.max_turns)
            (run host loop show tools input instructions previous st).0
  unfolding run
  run-charged input instructions previous st = (
    result_cases {B = Result ToolLoopResult × LoopState W} (to_responses_input input)
        (λ o. charged o.1.provider_budget ≤ charged st.provider_budget + (loop.max_turns + 1))
        (λ e _. omega arith)
        (λ content _.
          let request : ResponseRequest = record {
            model = loop.model;
            instructions = non_empty instructions;
            input = content;
            previous_response_id = non_empty previous;
            tools = tool_definitions tools;
          } in
          omega (
            arith,
            create_response-charged host loop request st,
            process_fresh-charged 0 (create_response host loop request st),
          )),
    run-TurnsWithin host loop show tools input instructions previous st,
  )
