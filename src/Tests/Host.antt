-- ===== src/Tests/Host.antt =====
-- A host for the tests: a policy, three tools of the three risks, and the in-memory approvals.
use toni_ai_agent.Common.{ℕ, suc, false, Option, none, [], ◌∷◌, String}
use toni_ai_agent.Types.{Risk, green, yellow, red, AgentContext, coding}
use toni_ai_agent.Types.Json.{str}
use toni_ai_agent.Policy.PermissionEngine.{PermissionPolicy}
use toni_ai_agent.Approval.Compat.Contract.{port}
use toni_ai_agent.Tools.ToolRegistry.{ToolDefinition, returned}
use toni_ai_agent.Executor.State.{SupervisedToolRequest, Tick}
use toni_ai_agent.Executor.Request.{Config, ExecutorState}

abbrev pub policy : PermissionPolicy
policy = record {
  filesystem = record { read = "allow"; write = "approval"; delete = "never_auto" };
  terminal = record {
    safe_commands = "allow";
    unknown_commands = "approval";
    destructive_commands = "never_auto";
  };
  git = record { read = "allow"; commit = "approval"; push = "approval"; reset = none };
  github = none;
  browser = record { read = "allow"; write = "approval"; submit = "never_auto"; download = none };
  computer = none;
  system = record { settings = "approval"; administrator = "never_auto"; shutdown = none };
  school = [];
}

abbrev pub context : AgentContext
context = record { mode = coding; workspace = none; user_request = "edit"; user_id = none }

-- The world counts the calls of tools.
abbrev pub tool : String → Risk → ToolDefinition ℕ
tool name risk = record {
  name = name;
  description = name;
  risk = risk;
  validate_input = none;
  execute = λ input n. (returned input, suc n);
}

abbrev pub config : Config ℕ
config = record {
  lower = λ s. s;
  show = λ n. "2";
  hash_tool_call = λ name input. name;
  policy = policy;
  context = context;
  registry =
      ("look", tool "look" green) ∷ ("edit", tool "edit" yellow) ∷ ("wipe", tool "wipe" red) ∷ [];
  port = port;
}

abbrev pub initial : ExecutorState config
initial = record {
  active = false;
  controllers = [];
  pending = [];
  approvals = [];
  manager = [];
  budget = record { max_tool_calls = 2; tool_calls = 0 };
  audit = [];
  metrics = record {
    tool_calls_total = 0;
    tool_calls_denied = 0;
    approvals_created = 0;
    approvals_consumed = 0;
    tool_duration_total_ms = 0;
  };
  running = none;
  aborted = [];
  world = 0;
}

abbrev pub request : String → Option String → SupervisedToolRequest
request tool_name approval_id = record {
  session_id = "s";
  action_id = "a";
  approval_id = approval_id;
  tool_name = tool_name;
  input = str "x";
  signal = "signal";
}

abbrev pub tick : ℕ → String → Tick
tick now uuid = record { at_get = now; at_put = now; at_consume = now; iso = "now"; uuid = uuid }
