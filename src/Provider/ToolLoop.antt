-- ===== src/Provider/ToolLoop.antt =====
-- agent/providers/OpenAIToolLoop.ts. The provider's client and the tool executor are a `Host` that
-- acts on a state of its own. The identifier of the request, which only goes on to the log, is left
-- out. The turns recurse on what `maxTurns` leaves.
pub mod Keeps
pub mod Bounded
pub mod Budgets
pub mod Calls
pub mod Sensitive
pub mod Requests
use toni_ai_agent.Common.{
  ℕ, zero, suc, ◌+◌, Bool, true, false, not, ◌&&◌, ◌||◌, Option, none, some, List, [], ◌∷◌, ◌++◌,
  ltb, any, is_some, String, str_eq, if◌then◌else◌,
}
use Prim.Native.String.{◌++◌ as ◌+++◌}
use toni_ai_agent.Types.{Result, ok, err, Thrown, agent_error, plain_error, model_failed}
use toni_ai_agent.Types.Json.{Json, null, bool, num, str, arr, obj, property}
use toni_ai_agent.Types.ToolCall.{ToolExecutionContext, ToolExecutionResult}
use toni_ai_agent.Limits.CostBudget.{CostBudget, consume as consume_cost}
use toni_ai_agent.Limits.ProviderBudget.{ProviderBudget, consume as consume_request}
use toni_ai_agent.Privacy.ContentFilter.{filter_sensitive_content}
use toni_ai_agent.Provider.Pricing.{estimate_model_cost}
use toni_ai_agent.Provider.Messages.{
  FunctionToolSpec, AgentContentPart, input_text, AgentInput, text, parts, FunctionCallOutput,
  ResponsesInput, plain, user_message, call_outputs, ResponseRequest, FunctionCall, Response, Usage,
  PendingToolApproval, ToolLoopResult, tool_definitions, function_calls,
}
pub use toni_ai_agent.Provider.Exchange.{
  Options, ToolLoop, Reply, answered, timed_out, request_failed, Host, LoopState, Outcome, all_done,
  waiting, threw,
}
unfoldable pub use toni_ai_agent.Provider.Exchange.{
  or_else, non_empty, create, sensitive_error, filter_parts, to_responses_input,
  approval_required_by, waits_for, approval_text,
}

module _ {W : Type 0} (host : Host W) (loop : ToolLoop) where
  unfoldable pub output_of : FunctionCall → ToolExecutionResult → FunctionCallOutput
  output_of call r = record { call_id = call.call_id; output = host.stringify r }

  -- `this.providerBudget?.consume()`
  unfoldable pub charge_request : LoopState W → Result (Unit {0}) × LoopState W
  unfolding consume_request
  charge_request st = elim st.provider_budget [
    | none ↦ (ok tt, st)
    | some b ↦
        let (charged, b') = consume_request b in (charged, record st { provider_budget = some b' })
  ]

  -- the charge of an answer's tokens, with the code's message for whatever goes wrong
  unfoldable pub charge_usage : Response → LoopState W → Result Response × LoopState W
  unfolding consume_cost estimate_model_cost or_else
  charge_usage response st = elim response.usage [
    | none ↦ (ok response, st)
    | some usage ↦ elim st.cost_budget [
      | none ↦ (ok response, st)
      | some b ↦
          let input = or_else usage.input_tokens 0 in
          let output = or_else usage.output_tokens 0 in
          elim (estimate_model_cost loop.model input output) [
            | err e ↦ (err (agent_error model_failed "Session model budget exceeded." false), st)
            | ok usd ↦
                let (charged, b') =
                  consume_cost
                    (record { input_tokens = input; output_tokens = output; estimated_usd = usd })
                    b in
                elim charged [
                  | err e ↦
                      (err (agent_error model_failed "Session model budget exceeded." false), st)
                  | ok _ ↦ (ok response, record st { cost_budget = some b' })
                ]
          ]
    ]
  ]

  unfoldable pub ask_provider : ResponseRequest → LoopState W → Result Response × LoopState W
  unfolding charge_usage
  ask_provider request st =
      let (reply, w) = host.respond request loop.provider_timeout_ms st.world in
      let st' = record st { world = w } in
      elim reply [
        | timed_out ↦ (err (agent_error model_failed "Model request timed out." false), st')
        | request_failed ↦ (err (agent_error model_failed "Model request failed." true), st')
        | answered response ↦ charge_usage response st'
      ]

  -- `createResponse`
  unfoldable pub create_response : ResponseRequest → LoopState W → Result Response × LoopState W
  unfolding charge_request ask_provider
  create_response request st =
      let (charged, st') = charge_request st in
      elim charged [ err e ↦ (err e, st') | ok _ ↦ ask_provider request st' ]

  unfoldable pub execute_call :
      FunctionCall → LoopState W → Result ToolExecutionResult × LoopState W
  execute_call call st =
      let (result, w) =
        host.execute
          (record {
            name = call.name;
            arguments_json = call.arguments_json;
            call_id = call.call_id;
          })
          st.world in
      (result, record st { world = w })

  -- the loop over the calls of a response, in a turn and from so many calls on
  unfoldable pub run_calls :
      Response
      → ℕ
      → List FunctionCall
      → ℕ
      → List FunctionCallOutput
      → LoopState W
      → Outcome × LoopState W
  unfolding execute_call waits_for output_of approval_text
  run_calls response turn [] tool_calls outputs st = (all_done outputs tool_calls, st)
  run_calls response turn (call ∷ calls) tool_calls outputs st =
      let (result, st') = execute_call call st in
      elim result [
        | err e ↦ (threw e, st')
        | ok r ↦ elim (waits_for r) [
          | some action_id ↦ (
            waiting (record {
              response_id = response.id;
              text = approval_text;
              turns = turn;
              tool_calls = tool_calls + 1;
              pending_approval = some (record {
                action_id = action_id;
                response_id = response.id;
                call_id = call.call_id;
              });
            }),
            st',
          )
          | none ↦
              run_calls response turn calls (tool_calls + 1) (outputs ++ (output_of call r ∷ []))
                st'
        ]
      ]

  unfoldable pub follow_up :
      Response → List FunctionCallOutput → List FunctionToolSpec → ResponseRequest
  unfolding tool_definitions
  follow_up response outputs tools = record {
    model = loop.model;
    instructions = none;
    input = call_outputs outputs;
    previous_response_id = some response.id;
    tools = tool_definitions tools;
  }

  -- the final answer of a response without calls
  unfoldable pub answer : Response → ℕ → ℕ → ToolLoopResult
  answer response turn tool_calls = record {
    response_id = response.id;
    text = response.output_text;
    turns = turn;
    tool_calls = tool_calls;
    pending_approval = none;
  }

  module _ (show : ℕ → String) (tools : List FunctionToolSpec) where
    -- `processResponse`, with so many turns left
    unfoldable pub process_response :
        ℕ → ℕ → ℕ → Response → LoopState W → Result ToolLoopResult × LoopState W
    unfolding run_calls follow_up create_response answer function_calls
    process_response zero turn tool_calls response st = (
      err (
          agent_error model_failed
            ("Tool loop exceeded maximum turns (" +++ show loop.max_turns +++ ").") false),
      st,
    )
    process_response (suc left) turn tool_calls response st =
        elim (function_calls response.output) [
          | [] ↦ (ok (answer response turn tool_calls), st)
          | call ∷ calls ↦
              let (outcome, st1) = run_calls response turn (call ∷ calls) tool_calls [] st in
              elim outcome [
                | threw e ↦ (err e, st1)
                | waiting r ↦ (ok r, st1)
                | all_done outputs count ↦
                    let (next, st2) = create_response (follow_up response outputs tools) st1 in
                    elim next [
                      | err e ↦ (err e, st2)
                      | ok response' ↦ process_response left (turn + 1) count response' st2
                    ]
              ]
        ]

    -- the turns of a fresh response: from 1 to `maxTurns`
    unfoldable pub process_fresh :
        ℕ → Result Response × LoopState W → Result ToolLoopResult × LoopState W
    unfolding process_response
    process_fresh tool_calls (err e, st) = (err e, st)
    process_fresh tool_calls (ok response, st) =
        process_response loop.max_turns 1 tool_calls response st

    unfoldable pub run :
        AgentInput
        → Option String
        → Option String
        → LoopState W
        → Result ToolLoopResult × LoopState W
    unfolding process_fresh create_response non_empty to_responses_input tool_definitions
    run input instructions previous st = elim (to_responses_input input) [
      | err e ↦ (err e, st)
      | ok content ↦ process_fresh 0 (
          create_response
            (record {
              model = loop.model;
              instructions = non_empty instructions;
              input = content;
              previous_response_id = non_empty previous;
              tools = tool_definitions tools;
            })
            st)
    ]

    -- `resumeApprovedCall`
    unfoldable pub resume_approved_call :
        String → String → ToolExecutionResult → LoopState W → Result ToolLoopResult × LoopState W
    unfolding process_fresh create_response tool_definitions
    resume_approved_call response_id call_id result st = process_fresh 1 (
        create_response
          (record {
            model = loop.model;
            instructions = none;
            input =
                call_outputs (record { call_id = call_id; output = host.stringify result } ∷ []);
            previous_response_id = some response_id;
            tools = tool_definitions tools;
          })
          st)
