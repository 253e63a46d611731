-- ===== src/Policy/ToolchainSupervisor.antt =====
-- agent/supervisor/ToolchainSupervisor.ts, with the invocation of agent/sandbox/types.ts. `lower`
-- stands for the host's `toLowerCase`.
use Prim.Native.String.{◌++◌ as ◌+++◌}
use toni_ai_agent.Common.{Bool, not, List, [], ◌∷◌, String, any, if◌then◌else◌}
use toni_ai_agent.Common.Text.{includes}
use toni_ai_agent.Types.{Risk, yellow, red, is_red, is_green}
use toni_ai_agent.Types.Json.{Json}

pub record ToolInvocation : Type 0 where
  pub tool : String
  pub operation : String
  pub input : Json
  pub risk : Risk

-- `Omit<AgentAction, "id" | "createdAt">`
pub record SupervisedAction : Type 0 where
  pub tool : String
  pub operation : String
  pub description : String
  pub risk : Risk
  pub requires_approval : Bool

abbrev pub red_words : List String
red_words = "delete" ∷ "remove" ∷ "format" ∷ "shutdown" ∷ "reboot" ∷ "administrator" ∷ "reset" ∷ []

abbrev pub yellow_tools : List String
yellow_tools = "browser" ∷ "github" ∷ "computer" ∷ []

abbrev pub yellow_words : List String
yellow_words = "write" ∷ "push" ∷ "commit" ∷ "submit" ∷ "send" ∷ "download" ∷ "install" ∷ []

module _ (lower : String → String) where
  -- a pattern `/(a|b|…)/` is met where one of its words is a part of the text
  unfoldable pub classify : ToolInvocation → Risk
  classify invocation =
      if is_red invocation.risk
      then red
      else if any (includes (lower invocation.operation)) red_words
      then red
      else if any (includes (lower invocation.tool)) yellow_tools
      then yellow
      else if any (includes (lower invocation.operation)) yellow_words
      then yellow
      else invocation.risk

  unfoldable pub inspect : ToolInvocation → SupervisedAction
  unfolding classify
  inspect invocation = record {
    tool = invocation.tool;
    operation = invocation.operation;
    description = "Tool " +++ invocation.tool +++ " requested operation " +++ invocation.operation;
    risk = classify invocation;
    requires_approval = not (is_green (classify invocation));
  }
