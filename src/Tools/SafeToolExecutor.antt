-- ===== src/Tools/SafeToolExecutor.antt =====
-- agent/tools/SafeToolExecutor.ts, in two steps: up to the call of the tool, and from the settling
-- of its promise. `show` stands for the host's text of a number.
use Prim.Native.String.{◌++◌ as ◌+++◌}
use toni_ai_agent.Common.{ℕ, Bool, false, true, none, some, String, if◌then◌else◌}
use toni_ai_agent.Types.{
  Thrown, agent_error, plain_error, Result, ok, err, message_of, cancelled, tool_failed,
  tool_input_invalid,
}
use toni_ai_agent.Types.Json.{Json}
use toni_ai_agent.Limits.SessionBudget
use toni_ai_agent.Limits.SessionBudget.{SessionBudget}
use toni_ai_agent.Tools.ToolRegistry
use toni_ai_agent.Tools.ToolRegistry.{ToolRegistry, ToolDefinition, ToolOutcome, returned, threw}

-- A tool that has been called, and what its promise will give.
pub record ToolRun : Type 0 where
  pub tool_name : String
  pub argument_hash : String
  pub outcome : ToolOutcome

pub record SafeToolExecutionResult : Type 0 where
  pub tool_name : String
  pub argument_hash : String
  pub output : Json

abbrev pub was_cancelled : Thrown
was_cancelled = agent_error cancelled "Tool execution was cancelled." false

-- `tool.validateInput ? tool.validateInput(rawInput) : rawInput`, and what its `catch` throws
unfoldable pub validated : {World : Type 0} → ToolDefinition World → Json → Result Json
validated tool raw = elim tool.validate_input [
  | none ↦ ok raw
  | some check ↦ elim (check raw) [
    | ok input ↦ ok input
    | err e ↦ err (agent_error tool_input_invalid (message_of e) false)
  ]
]

module _ (show : ℕ → String) (hash_tool_call : String → Json → String) {World : Type 0} where
  -- the part that may throw before the budget is touched again
  unfoldable pub call_tool :
      ToolRegistry World → Bool → String → Json → World → Result ToolRun × World
  unfolding validated
  call_tool registry aborted tool_name raw world =
      if aborted then (err was_cancelled, world) else elim (ToolRegistry.get registry tool_name) [
        | err e ↦ (err e, world)
        | ok tool ↦ elim (validated tool raw) [
          | err e ↦ (err e, world)
          | ok input ↦
              let (outcome, world') = tool.execute input world in
              (
                ok (record {
                  tool_name = tool_name;
                  argument_hash = hash_tool_call tool_name input;
                  outcome = outcome;
                }),
                world',
              )
        ]
      ]

  -- `execute` up to the call of the tool
  unfoldable pub begin_execute :
      ToolRegistry World
      → Bool
      → String
      → Json
      → SessionBudget
      → World
      → Result ToolRun × SessionBudget × World
  begin_execute registry aborted tool_name raw budget world =
      let (paid, budget') = SessionBudget.consume_tool_call show budget in
      elim paid [
        | err e ↦ (err e, budget', world)
        | ok _ ↦
            let (run, world') = call_tool registry aborted tool_name raw world in
            (run, budget', world')
      ]

-- what its `catch` rethrows
unfoldable pub rethrown : String → Thrown → Thrown
rethrown tool_name (agent_error code message retryable) = agent_error code message retryable
rethrown tool_name (plain_error message) =
    agent_error tool_failed ("Tool failed: " +++ tool_name) true

-- `execute` once the tool's promise has settled
unfoldable pub finish_execute : Bool → ToolRun → Result SafeToolExecutionResult
unfolding rethrown
finish_execute aborted run = elim run.outcome [
  | threw e ↦ err (rethrown run.tool_name e)
  | returned output ↦
      if aborted
      then err was_cancelled
      else ok
          (record { tool_name = run.tool_name; argument_hash = run.argument_hash; output = output })
]
