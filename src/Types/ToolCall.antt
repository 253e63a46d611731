-- ===== src/Types/ToolCall.antt =====
-- The calls and results of tools between the provider and the executor:
-- agent/providers/OpenAIToolLoop.ts.
use toni_ai_agent.Common.{Bool, Option, String}
use toni_ai_agent.Types.Json.{Json}

pub record ToolExecutionContext : Type 0 where
  pub name : String
  pub arguments_json : String
  pub call_id : String

-- an `undefined` output is `none`
pub record ToolExecutionResult : Type 0 where
  pub ok : Bool
  pub approved : Bool
  pub output : Option Json
  pub operation_id : Option String
