-- ===== src/Computer/Controller.antt =====
-- agent/computer/ComputerActionController.ts, over an executor that keeps what the controller asks of
-- agent/core/SupervisedToolExecutor.ts.
use toni_ai_agent.Common.{false, Option, none, some, String, str_eq, if◌then◌else◌}
use toni_ai_agent.Types.{Result}
use toni_ai_agent.Types.ToolCall.{ToolExecutionResult}
use toni_ai_agent.Types.Json.{Json, num, str, obj, member, end, property}
use toni_ai_agent.Computer.Validator.{ScreenObservation, has_image}
use toni_ai_agent.Computer.Lifecycle.{
  ComputerActionRequest, click, type_text, keypress, ComputerActionProposal,
}

-- What the controller asks of the executor; a text stands for the identifier of a call.
pub record ComputerExecutor : Type 1 where
  pub Host : Type 0
  pub execute : String → Json → Host → ToolExecutionResult × Host
  pub approve_and_resume : String → Host → ToolExecutionResult × Host
  pub reject : String → Host → Result (Unit {0}) × Host
  pub capture : Host → Result ScreenObservation × Host

-- A text that is missing or empty is left out.
abbrev pub non_empty : Option String → Option String
non_empty none = none
non_empty (some s) = if str_eq s "" then none else some s

abbrev pub text_of : Option Json → Option String
text_of (some (str s)) = non_empty (some s)
text_of _ = none

unfoldable pub extract_action_id : Option Json → Option String
extract_action_id (some (obj members)) = text_of (property members "actionId")
extract_action_id _ = none

-- the name of the tool that carries an action out, and its arguments
unfoldable pub tool_name_of : ComputerActionRequest → String
tool_name_of (click x y) = "computer_click"
tool_name_of (type_text text) = "computer_type"
tool_name_of (keypress key) = "computer_keypress"

unfoldable pub arguments_of : ComputerActionRequest → Json
arguments_of (click x y) = obj (member "x" (num x) (member "y" (num y) end))
arguments_of (type_text text) = obj (member "text" (str text) end)
arguments_of (keypress key) = obj (member "key" (str key) end)

abbrev pub unfiltered : ToolExecutionResult
unfiltered = record {
  ok = false;
  approved = false;
  operation_id = none;
  output =
      some
        (obj (member "error" (str "Computer actions require a privacy-filtered observation.") end));
}

module _ (executor : ComputerExecutor) where
  open executor use {Host}

  unfoldable pub propose_and_queue :
      ScreenObservation
      → ComputerActionRequest
      → Host
      → (Option ComputerActionProposal × ToolExecutionResult) × Host
  propose_and_queue observation action host =
      let (result, host') = executor.execute (tool_name_of action) (arguments_of action) host in
      if has_image observation then ((none, unfiltered), host) else (
        (
          some (record {
            action = action;
            observation_captured_at = observation.captured_at;
            active_window_title = non_empty observation.active_window_title;
            active_application = non_empty observation.active_application;
            action_id = extract_action_id result.output;
          }),
          result,
        ),
        host',
      )
