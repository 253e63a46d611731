-- ===== src/Provider/Messages.antt =====
-- What goes to the provider and what comes back: the types of agent/providers/OpenAIToolLoop.ts and
-- app/AgentInput.ts, as far as the loop reads and writes them.
use toni_ai_agent.Common.{ℕ, Bool, true, Option, List, [], ◌∷◌, String}
use toni_ai_agent.Types.{Risk}
use toni_ai_agent.Types.Json.{Json}

pub record FunctionToolSpec : Type 0 where
  pub name : String
  pub description : String
  pub parameters : Json
  pub risk : Risk

pub record ToolDefinition : Type 0 where
  pub name : String
  pub description : String
  pub parameters : Json
  pub strict : Bool

pub data AgentContentPart : Type 0 where
  input_text : String → AgentContentPart
  input_image : String → Option String → AgentContentPart
  input_file : String → String → AgentContentPart

pub data AgentInput : Type 0 where
  text : String → AgentInput
  parts : List AgentContentPart → AgentInput

pub record FunctionCallOutput : Type 0 where
  pub call_id : String
  pub output : String

pub data ResponsesInput : Type 0 where
  plain : String → ResponsesInput
  user_message : List AgentContentPart → ResponsesInput
  call_outputs : List FunctionCallOutput → ResponsesInput

pub record ResponseRequest : Type 0 where
  pub model : String
  pub instructions : Option String
  pub input : ResponsesInput
  pub previous_response_id : Option String
  pub tools : List ToolDefinition

pub record FunctionCall : Type 0 where
  pub name : String
  pub arguments_json : String
  pub call_id : String

-- an item of `response.output`
pub data OutputItem : Type 0 where
  function_call : FunctionCall → OutputItem
  other_item : OutputItem

pub record Usage : Type 0 where
  pub input_tokens : Option ℕ
  pub output_tokens : Option ℕ

pub record Response : Type 0 where
  pub id : String
  pub output : List OutputItem
  pub output_text : String
  pub usage : Option Usage

pub record PendingToolApproval : Type 0 where
  pub action_id : String
  pub response_id : String
  pub call_id : String

pub record ToolLoopResult : Type 0 where
  pub response_id : String
  pub text : String
  pub turns : ℕ
  pub tool_calls : ℕ
  pub pending_approval : Option PendingToolApproval

-- `toolDefinitions`
unfoldable pub tool_definitions : List FunctionToolSpec → List ToolDefinition
tool_definitions [] = []
tool_definitions (t ∷ ts) =
    record { name = t.name; description = t.description; parameters = t.parameters; strict = true }
    ∷ tool_definitions ts

-- `response.output.filter((item) => item.type === "function_call")`
unfoldable pub function_calls : List OutputItem → List FunctionCall
function_calls [] = []
function_calls (function_call call ∷ items) = call ∷ function_calls items
function_calls (other_item ∷ items) = function_calls items
