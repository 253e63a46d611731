-- ===== src/Tests/Provider.antt =====
-- The theorems on the provider's tool loop and on the interactive session at concrete inputs.
use toni_ai_agent.Common.{
  ◌≡◌, ◌≤◌, ◌+◌, ℕ, zero, suc, true, false, Option, none, some, List, [], ◌∷◌, String, refl, arith,
}
use toni_ai_agent.Types.{ok, err}
use toni_ai_agent.Types.ToolCall.{ToolExecutionResult}
use toni_ai_agent.Types.Json.{Json}
use toni_ai_agent.Limits.CostBudget.{CostBudget}
use toni_ai_agent.Limits.ProviderBudget.{ProviderBudget}
use toni_ai_agent.Provider.Messages.{
  text, ResponseRequest, Response, function_call, PendingToolApproval,
}
use toni_ai_agent.Provider.ToolLoop.{
  ToolLoop, Host, LoopState, Reply, answered, run, resume_approved_call, sensitive_error,
}
use toni_ai_agent.Provider.ToolLoop.Bounded.{TurnsWithin}
use toni_ai_agent.Provider.ToolLoop.Requests.{charged, run-charged}
use toni_ai_agent.Provider.ToolLoop.Budgets.{IsFunded, run-IsFunded}
use toni_ai_agent.Common.Text.{starts_with}
use toni_ai_agent.Privacy.Replace.{test, found, at_boundary}
use toni_ai_agent.Privacy.ContentFilter.{
  api_key, github_token, bearer_token, credit_card_like, digits, is_digit_next,
}
use toni_ai_agent.Provider.ToolLoop.Sensitive.{run-sensitive_error}
use toni_ai_agent.Provider.ToolLoop.Calls.{counting, Reports, run-Reports}
use toni_ai_agent.App.Commands.{status}
use toni_ai_agent.App.CodingAgent.{Actions}
use toni_ai_agent.App.Session.{Setup, InteractiveSession, SessionHost, Moment}
use toni_ai_agent.App.Session.Pending.{
  SessionEvent, asked, approved, commanded, IsHeld, session_run, session_run-IsHeld,
}
use toni_ai_agent.Coding.RepairSession.{repaired}

abbrev number : ℕ → String
number n = "n"

abbrev call_response : Response
call_response = record {
  id = "r1";
  output =
      function_call (record { name = "read_text_file"; arguments_json = "{}"; call_id = "c1" })
      ∷ [];
  output_text = "";
  usage = some (record { input_tokens = some 10; output_tokens = some 5 });
}

abbrev text_response : Response
text_response = record { id = "r2"; output = []; output_text = "done"; usage = none }

-- The host counts; the first answer asks for a tool, the later ones do not.
abbrev respond : ResponseRequest → ℕ → ℕ → Reply × ℕ
respond request ms zero = (answered call_response, 1)
respond request ms (suc n) = (answered text_response, suc (suc n))

abbrev provider_host : Host ℕ
provider_host = record {
  respond = respond;
  execute =
      λ call n. (ok (record { ok = true; approved = true; output = none; operation_id = none }), n);
  stringify = λ r. "{}";
}

abbrev tool_loop : ToolLoop
tool_loop = record { model = "gpt-5.6-luna"; max_turns = 8; provider_timeout_ms = 60000 }

abbrev cost : CostBudget
cost = record {
  max_input_tokens = 100;
  max_output_tokens = 100;
  max_usd = 1000;
  used = record { input_tokens = 1; output_tokens = 1; estimated_usd = 1 };
}

abbrev requests : ProviderBudget
requests = record { max_requests = 20; requests = 3 }

abbrev loop_state : LoopState ℕ
loop_state = record { cost_budget = some cost; provider_budget = some requests; world = 0 }

run-charged_example :
    (charged
        (run provider_host tool_loop number []
          (text "hello")
          none
          none
          loop_state).1.provider_budget
      ≤ 3 + (8 + 1))
    × TurnsWithin 1 9 (run provider_host tool_loop number [] (text "hello") none none loop_state).0
run-charged_example =
    run-charged provider_host tool_loop number [] (text "hello") none none loop_state

abbrev approved_result : ToolExecutionResult
approved_result = record { ok = true; approved = true; output = none; operation_id = none }

run-IsFunded_example :
    IsFunded (run provider_host tool_loop number [] (text "hello") none none loop_state).1
    × IsFunded
        (resume_approved_call provider_host tool_loop number [] "r1" "c1" approved_result
          loop_state).1
run-IsFunded_example =
    run-IsFunded provider_host tool_loop number [] (text "hello") none none "r1" "c1"
      approved_result loop_state ((omega arith, omega arith, omega arith), omega arith)

run-Reports_example : Reports 0 (
    run
      (counting provider_host)
      tool_loop
      number
      []
      (text "hello")
      none
      none
      (record { cost_budget = some cost; provider_budget = some requests; world = (0, 0) }))
run-Reports_example =
    run-Reports provider_host tool_loop number [] (text "hello") none none 0 (some cost)
      (some requests)

abbrev session_host : SessionHost ℕ
session_host = record {
  loop_host = provider_host;
  list_action_ids = λ n. "a1" ∷ [];
  approve_and_resume =
      λ id n. (ok (record { ok = true; approved = true; output = none; operation_id = none }), n);
  reject_action = λ id n. n;
}

abbrev setup : Setup
setup = record {
  workspace = "/w";
  loop_options = record {
    api_key = some "k";
    env_model = none;
    env_timeout = none;
    model = none;
    max_turns = none;
    provider_timeout_ms = none;
  };
  keeps_cost_budget = false;
  keeps_provider_budget = false;
  tools = [];
}

abbrev actions : Actions ℕ
actions = record {
  stamp = λ n. ("id", "time");
  config = record { resumable = true; persistence = none; audited = false };
  limit = 3;
  verify = λ attempt n.
      (ok (record { ok = true; steps = []; failed_step = none; repair_plan = none }), n);
  repair = λ plan attempt approved n. (ok repaired, n);
}

abbrev pending : PendingToolApproval
pending = record { action_id = "a1"; response_id = "r1"; call_id = "c1" }

abbrev session : InteractiveSession ℕ
session = record {
  model = "gpt-5.6-luna";
  previous_response_id = some "r1";
  pending_tool_approval = some pending;
  request_count = 1;
  tool_loop = some tool_loop;
  coding_workflow = none;
  state = loop_state;
}

abbrev moment : Moment
moment = record { failure = none; now = "now" }

abbrev output_text : Option Json → String
output_text output = ""

abbrev events : List SessionEvent
events = asked (text "more") ∷ approved moment "a2" ∷ commanded moment status ∷ []

session_run-IsHeld_example :
    IsHeld pending session
      (session_run setup session_host actions number output_text events session)
session_run-IsHeld_example =
    session_run-IsHeld setup session_host actions number output_text pending events session refl
      (refl, (refl, (refl, tt)))

-- The text is a credit card's number.
run-sensitive_error_example :
    run provider_host tool_loop number [] (text "4111111111111111") none none loop_state
    ≡ (err sensitive_error, loop_state)
unfolding test found at_boundary starts_with api_key github_token bearer_token credit_card_like
    digits is_digit_next
run-sensitive_error_example =
    run-sensitive_error provider_host tool_loop number [] (text "4111111111111111") none none
      loop_state refl
