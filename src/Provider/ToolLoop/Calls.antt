-- ===== src/Provider/ToolLoop/Calls.antt =====
-- What the provider's tool loop reports of the tools that it called: the host counts the calls that
-- it is asked for.
use toni_ai_agent.Common.{
  ℕ, zero, suc, ◌+◌, Option, List, [], ◌∷◌, ◌++◌, String, option_cases, list_cases, ◌≡◌, refl,
  arith, subst, ◌∙◌, ap,
}
use toni_ai_agent.Types.{Result, ok, err, result_cases}
use toni_ai_agent.Limits.CostBudget.{CostBudget}
use toni_ai_agent.Limits.ProviderBudget.{ProviderBudget}
use toni_ai_agent.Provider.Messages.{
  FunctionToolSpec, AgentInput, FunctionCallOutput, ResponseRequest, FunctionCall, Response,
  ToolLoopResult, function_calls,
}
use toni_ai_agent.Provider.ToolLoop.{
  ToolLoop, Host, LoopState, Outcome, all_done, waiting, threw, charge_request, charge_usage,
  ask_provider, create_response, execute_call, run_calls, waits_for, output_of, follow_up,
  process_response, process_fresh, run, to_responses_input,
}
use toni_ai_agent.Provider.ToolLoop.Keeps.{outcome_cases, reply_cases}

-- A host that counts the tool calls that it is asked for.
abbrev pub counting : {W : Type 0} → Host W → Host (W × ℕ)
counting host = record {
  respond =
      λ request ms w. ((host.respond request ms w.0).0, ((host.respond request ms w.0).1, w.1));
  execute = λ call w. ((host.execute call w.0).0, ((host.execute call w.0).1, w.1 + 1));
  stringify = host.stringify;
}

-- The calls that a result reports, so many before the run besides, are those that were counted.
abbrev pub Reports : {W : Type 0} → ℕ → Result ToolLoopResult × LoopState (W × ℕ) → Type 0
Reports before (err e, st) = Unit
Reports before (ok r, st) = r.tool_calls ≡ before + st.world.1

module _ {W : Type 0} (host : Host W) (loop : ToolLoop) (show : ℕ → String)
    (tools : List FunctionToolSpec) where
  charge_usage-Kept :
      (response : Response) (st : LoopState (W × ℕ))
      → (charge_usage (counting host) loop response st).1.world ≡ st.world
  unfolding charge_usage
  charge_usage-Kept response st = ground arith

  charge_request-Kept :
      (st : LoopState (W × ℕ)) → (charge_request (counting host) loop st).1.world ≡ st.world
  unfolding charge_request
  charge_request-Kept st = ground arith

  ask_provider-Kept :
      (request : ResponseRequest) (st : LoopState (W × ℕ))
      → (ask_provider (counting host) loop request st).1.world.1 ≡ st.world.1
  unfolding ask_provider
  ask_provider-Kept request st =
      let (reply, w) = (counting host).respond request loop.provider_timeout_ms st.world in
      reply_cases {B = Result Response × LoopState (W × ℕ)} reply (λ o. o.1.world.1 ≡ st.world.1)
        (λ _. refl) (λ _. refl)
        (λ response _. ap (λ v. v.1) (charge_usage-Kept response (record st { world = w })))

  create_response-Kept :
      (request : ResponseRequest) (st : LoopState (W × ℕ))
      → (create_response (counting host) loop request st).1.world.1 ≡ st.world.1
  unfolding create_response
  create_response-Kept request st =
      let (charged, st') = charge_request (counting host) loop st in
      let same = ap (λ v. v.1) (charge_request-Kept st) in
      result_cases {B = Result Response × LoopState (W × ℕ)} charged (λ o. o.1.world.1 ≡ st.world.1)
        (λ e _. same) (λ _ _. ask_provider-Kept request st' ∙ same)

  -- the same of an outcome of the calls
  OutcomeReports : ℕ → Outcome × LoopState (W × ℕ) → Type 0
  OutcomeReports before (threw e, st) = Unit
  OutcomeReports before (waiting r, st) = r.tool_calls ≡ before + st.world.1
  OutcomeReports before (all_done outputs n, st) = n ≡ before + st.world.1

  run_calls-Reports :
      (before : ℕ) (response : Response) (turn : ℕ) (calls : List FunctionCall) (n : ℕ)
      (outputs : List FunctionCallOutput) (st : LoopState (W × ℕ))
      → n ≡ before + st.world.1
      → OutcomeReports before (run_calls (counting host) loop response turn calls n outputs st)
  unfolding run_calls OutcomeReports execute_call
  run_calls-Reports before response turn [] n outputs st h = h
  run_calls-Reports before response turn (call ∷ calls) n outputs st h =
      let (result, st') = execute_call (counting host) loop call st in
      let h' : n + 1 ≡ before + st'.world.1 = omega (arith, h) in
      result_cases {B = Outcome × LoopState (W × ℕ)} result (OutcomeReports before) (λ e _. tt)
        (λ r _.
          option_cases {B = Outcome × LoopState (W × ℕ)} (waits_for r) (OutcomeReports before)
            (λ _.
              run_calls-Reports before response turn calls (n + 1)
                (outputs ++ (output_of (counting host) loop call r ∷ [])) st' h')
            (λ id _. h'))

  process_response-Reports :
      (before left turn n : ℕ) (response : Response) (st : LoopState (W × ℕ))
      → n ≡ before + st.world.1
      → Reports before (process_response (counting host) loop show tools left turn n response st)
  unfolding process_response OutcomeReports
  process_response-Reports before zero turn n response st h = tt
  process_response-Reports before (suc left) turn n response st h =
      list_cases {B = Result ToolLoopResult × LoopState (W × ℕ)} (function_calls response.output)
        (Reports before) (λ _. h)
        (λ call calls _.
          let (outcome, st1) =
            run_calls (counting host) loop response turn (call ∷ calls) n [] st in
          let told = run_calls-Reports before response turn (call ∷ calls) n [] st h in
          outcome_cases {B = Result ToolLoopResult × LoopState (W × ℕ)} outcome (Reports before)
            (λ e _. tt) (λ r e. subst (λ o. OutcomeReports before (o, st1)) e told)
            (λ outputs count e.
              let all_told : count ≡ before + st1.world.1 =
                subst (λ o. OutcomeReports before (o, st1)) e told in
              let request = follow_up (counting host) loop response outputs tools in
              let (next, st2) = create_response (counting host) loop request st1 in
              let same = create_response-Kept request st1 in
              result_cases {B = Result ToolLoopResult × LoopState (W × ℕ)} next (Reports before)
                (λ e _. tt)
                (λ response' _.
                  process_response-Reports before left (turn + 1) count response' st2
                    (omega (arith, all_told, same)))))

  process_fresh-Reports :
      (before n : ℕ) (asked : Result Response × LoopState (W × ℕ))
      → n ≡ before + asked.1.world.1
      → Reports before (process_fresh (counting host) loop show tools n asked)
  unfolding process_fresh
  process_fresh-Reports before n (err e, st) h = tt
  process_fresh-Reports before n (ok response, st) h =
      process_response-Reports before loop.max_turns 1 n response st h

  -- The number of tool calls that a run reports is the number of times that it called a tool.
  pub run-Reports :
      (input : AgentInput) (instructions previous : Option String) (w : W)
      (cost : Option CostBudget) (requests : Option ProviderBudget)
      → Reports 0 (
          run
            (counting host)
            loop
            show
            tools
            input
            instructions
            previous
            (record { cost_budget = cost; provider_budget = requests; world = (w, 0) }))
  unfolding run
  run-Reports input instructions previous w cost requests =
      let st : LoopState (W × ℕ) = record {
        cost_budget = cost;
        provider_budget = requests;
        world = (w, 0);
      } in
      let none_yet : (request : ResponseRequest)
          → 0 ≡ 0 + (create_response (counting host) loop request st).1.world.1 =
        λ (request : ResponseRequest). omega (arith, create_response-Kept request st) in
      result_cases {B = Result ToolLoopResult × LoopState (W × ℕ)} (to_responses_input input)
        (Reports 0) (λ e _. tt) (λ content _. process_fresh-Reports 0 0 _ (none_yet _))
