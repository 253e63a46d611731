-- ===== src/Provider/ToolLoop/Bounded.antt =====
-- How many turns the provider's tool loop takes.
use toni_ai_agent.Common.{
  ℕ, zero, suc, ◌+◌, ◌≤◌, ◌<◌, Option, List, [], ◌∷◌, ◌++◌, String, option_cases, list_cases, subst,
  ◌≡◌, refl, arith,
}
use toni_ai_agent.Types.{Result, ok, err, result_cases}
use toni_ai_agent.Provider.Messages.{
  FunctionToolSpec, AgentInput, FunctionCallOutput, FunctionCall, Response, ToolLoopResult,
  function_calls,
}
use toni_ai_agent.Provider.ToolLoop.{
  ToolLoop, Host, LoopState, Outcome, waiting, create_response, execute_call, run_calls, waits_for,
  output_of, follow_up, process_response, process_fresh, run, to_responses_input,
}
use toni_ai_agent.Provider.ToolLoop.Keeps.{outcome_cases}

-- A result of a turn from `low` to before `high`; an error is none.
abbrev pub TurnsWithin : ℕ → ℕ → Result ToolLoopResult → Type 0
TurnsWithin low high (err e) = Unit
TurnsWithin low high (ok r) = (low ≤ r.turns) × (r.turns < high)

TurnOf : ℕ → Outcome → Type 0
TurnOf turn (waiting r) = r.turns ≡ turn
TurnOf turn _ = Unit

TurnsWithin-weaken :
    (low high : ℕ) (r : Result ToolLoopResult)
    → TurnsWithin (low + 1) high r
    → TurnsWithin low high r
TurnsWithin-weaken low high (err e) h = tt
TurnsWithin-weaken low high (ok r) (a, b) = (omega (arith, a), b)

module _ {W : Type 0} (host : Host W) (loop : ToolLoop) (show : ℕ → String)
    (tools : List FunctionToolSpec) where
  run_calls-TurnOf :
      (response : Response) (turn : ℕ) (calls : List FunctionCall) (n : ℕ)
      (outputs : List FunctionCallOutput) (st : LoopState W)
      → TurnOf turn (run_calls host loop response turn calls n outputs st).0
  unfolding run_calls TurnOf
  run_calls-TurnOf response turn [] n outputs st = tt
  run_calls-TurnOf response turn (call ∷ calls) n outputs st =
      let (result, st') = execute_call host loop call st in
      result_cases {B = Outcome × LoopState W} result (λ o. TurnOf turn o.0) (λ e _. tt)
        (λ r _.
          option_cases {B = Outcome × LoopState W} (waits_for r) (λ o. TurnOf turn o.0)
            (λ _.
              run_calls-TurnOf response turn calls (n + 1)
                (outputs ++ (output_of host loop call r ∷ [])) st')
            (λ id _. refl))

  process_response-TurnsWithin :
      (left turn n : ℕ) (response : Response) (st : LoopState W)
      → TurnsWithin turn
          (turn + left)
          (process_response host loop show tools left turn n response st).0
  unfolding process_response TurnOf
  process_response-TurnsWithin zero turn n response st = tt
  process_response-TurnsWithin (suc left) turn n response st =
      let Good : Result ToolLoopResult × LoopState W → Type 0 =
        λ o. TurnsWithin turn (turn + suc left) o.0 in
      list_cases (function_calls response.output) Good (λ _. (omega arith, omega arith))
        (λ call calls _.
          let (outcome, st1) = run_calls host loop response turn (call ∷ calls) n [] st in
          let at = run_calls-TurnOf response turn (call ∷ calls) n [] st in
          outcome_cases outcome Good (λ e _. tt)
            (λ r e.
              let now : r.turns ≡ turn = subst (TurnOf turn) e at in
              (omega (arith, now), omega (arith, now)))
            (λ outputs count _.
              let (next, st2) =
                create_response host loop (follow_up host loop response outputs tools) st1 in
              result_cases next Good (λ e _. tt)
                (λ response' _.
                  TurnsWithin-weaken turn (turn + suc left)
                    (process_response host loop show tools left (turn + 1) count response' st2).0
                    (subst
                      (λ high.
                        TurnsWithin (turn + 1) high
                          (process_response host loop show tools left (turn + 1) count response'
                            st2).0)
                      (omega arith)
                      (process_response-TurnsWithin left (turn + 1) count response' st2)))))

  process_fresh-TurnsWithin :
      (n : ℕ) (asked : Result Response × LoopState W)
      → TurnsWithin 1 (1 + loop.max_turns) (process_fresh host loop show tools n asked).0
  unfolding process_fresh
  process_fresh-TurnsWithin n (err e, st) = tt
  process_fresh-TurnsWithin n (ok response, st) =
      process_response-TurnsWithin loop.max_turns 1 n response st

  -- A run that gives a result gives it in a turn from the first to the last that the loop allows.
  pub run-TurnsWithin :
      (input : AgentInput) (instructions previous : Option String) (st : LoopState W)
      → TurnsWithin 1
          (1 + loop.max_turns)
          (run host loop show tools input instructions previous st).0
  unfolding run
  run-TurnsWithin input instructions previous st =
      result_cases {B = Result ToolLoopResult × LoopState W} (to_responses_input input)
        (λ o. TurnsWithin 1 (1 + loop.max_turns) o.0) (λ e _. tt)
        (λ content _. process_fresh-TurnsWithin 0 _)
