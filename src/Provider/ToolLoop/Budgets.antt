-- ===== src/Provider/ToolLoop/Budgets.antt =====
-- The budgets that the provider's tool loop charges: no run overdraws them.
use toni_ai_agent.Common.{ℕ, ◌≤◌, Option, none, some, List, String, option_cases, arith, subst}
use toni_ai_agent.Types.{Result, result_cases}
use toni_ai_agent.Types.ToolCall.{ToolExecutionResult}
use toni_ai_agent.Limits.CostBudget.{CostBudget, UsageCost, consume as consume_cost}
use toni_ai_agent.Limits.ProviderBudget.{ProviderBudget, consume as consume_request}
use toni_ai_agent.Provider.Pricing.{estimate_model_cost}
use toni_ai_agent.Provider.Messages.{
  FunctionToolSpec, AgentInput, ResponseRequest, FunctionCall, Response,
}
use toni_ai_agent.Provider.ToolLoop.{
  ToolLoop, Host, LoopState, charge_request, charge_usage, ask_provider, create_response,
  execute_call, run, resume_approved_call, or_else,
}
use toni_ai_agent.Provider.ToolLoop.Keeps.{run_keeps, resume_keeps, reply_cases}

-- No more is used than the limits allow.
abbrev pub IsCovered : CostBudget → Type 0
IsCovered b =
    (b.used.input_tokens ≤ b.max_input_tokens)
    × (b.used.output_tokens ≤ b.max_output_tokens)
    × (b.used.estimated_usd ≤ b.max_usd)

abbrev pub CostWithin : Option CostBudget → Type 0
CostWithin none = Unit
CostWithin (some b) = IsCovered b

abbrev pub RequestsWithin : Option ProviderBudget → Type 0
RequestsWithin none = Unit
RequestsWithin (some b) = b.requests ≤ b.max_requests

abbrev pub IsFunded : {W : Type 0} → LoopState W → Type 0
IsFunded st = CostWithin st.cost_budget × RequestsWithin st.provider_budget

consume_cost-IsCovered :
    (usage : UsageCost) (b : CostBudget) → IsCovered b → IsCovered (consume_cost usage b).1
unfolding consume_cost
consume_cost-IsCovered usage b (i, o, u) = (ground arith, ground arith, ground arith)

consume_request-within :
    (b : ProviderBudget)
    → b.requests ≤ b.max_requests
    → (consume_request b).1.requests ≤ (consume_request b).1.max_requests
unfolding consume_request
consume_request-within b h = ground arith

module _ {W : Type 0} (host : Host W) (loop : ToolLoop) where
  charge_request-IsFunded :
      (st : LoopState W) → IsFunded st → IsFunded (charge_request host loop st).1
  unfolding charge_request
  charge_request-IsFunded st (c, r) =
      option_cases {B = Result (Unit {0}) × LoopState W} st.provider_budget (λ o. IsFunded o.1)
        (λ _. (c, r)) (λ b e. (c, consume_request-within b (subst RequestsWithin e r)))

  charge_usage-IsFunded :
      (response : Response) (st : LoopState W)
      → IsFunded st
      → IsFunded (charge_usage host loop response st).1
  unfolding charge_usage
  charge_usage-IsFunded response st (c, r) =
      option_cases {B = Result Response × LoopState W} response.usage (λ o. IsFunded o.1)
        (λ _. (c, r))
        (λ usage _.
          option_cases {B = Result Response × LoopState W} st.cost_budget (λ o. IsFunded o.1)
            (λ _. (c, r))
            (λ b e.
              let input = or_else usage.input_tokens 0 in
              let output = or_else usage.output_tokens 0 in
              result_cases {B = Result Response × LoopState W}
                (estimate_model_cost loop.model input output) (λ o. IsFunded o.1) (λ _ _. (c, r))
                (λ usd _.
                  let cost : UsageCost = record {
                    input_tokens = input;
                    output_tokens = output;
                    estimated_usd = usd;
                  } in
                  result_cases {B = Result Response × LoopState W} (consume_cost cost b).0
                    (λ o. IsFunded o.1) (λ _ _. (c, r))
                    (λ _ _. (consume_cost-IsCovered cost b (subst CostWithin e c), r)))))

  ask_provider-IsFunded :
      (request : ResponseRequest) (st : LoopState W)
      → IsFunded st
      → IsFunded (ask_provider host loop request st).1
  unfolding ask_provider
  ask_provider-IsFunded request st h =
      let (reply, w) = host.respond request loop.provider_timeout_ms st.world in
      reply_cases {B = Result Response × LoopState W} reply (λ o. IsFunded o.1) (λ _. h) (λ _. h)
        (λ response _. charge_usage-IsFunded response (record st { world = w }) h)

  create_response-IsFunded :
      (request : ResponseRequest) (st : LoopState W)
      → IsFunded st
      → IsFunded (create_response host loop request st).1
  unfolding create_response
  create_response-IsFunded request st h =
      let (charged, st') = charge_request host loop st in
      let h' = charge_request-IsFunded st h in
      result_cases {B = Result Response × LoopState W} charged (λ o. IsFunded o.1) (λ e _. h')
        (λ _ _. ask_provider-IsFunded request st' h')

  execute_call-IsFunded :
      (call : FunctionCall) (st : LoopState W)
      → IsFunded st
      → IsFunded (execute_call host loop call st).1
  unfolding execute_call
  execute_call-IsFunded call st h = h

  -- From budgets that are not overdrawn, no run of the tool loop and no resumed call, whatever the
  -- provider and the tools answer and however it ends, overdraws the limit of requests, of tokens or of
  -- costs.
  pub run-IsFunded :
      (show : ℕ → String) (tools : List FunctionToolSpec) (input : AgentInput)
      (instructions previous : Option String) (response_id call_id : String)
      (result : ToolExecutionResult) (st : LoopState W)
      → IsFunded st
      → IsFunded (run host loop show tools input instructions previous st).1
        × IsFunded (resume_approved_call host loop show tools response_id call_id result st).1
  run-IsFunded show tools input instructions previous response_id call_id result st h = (
    run_keeps host loop show tools IsFunded create_response-IsFunded execute_call-IsFunded input
        instructions previous st h,
    resume_keeps host loop show tools IsFunded create_response-IsFunded execute_call-IsFunded
        response_id call_id result st h,
  )
