-- ===== src/Tests/Trails.antt =====
-- The theorems on the audit chain, the screen and the content filter at concrete inputs.
use Prim.Native.String.{◌++◌ as ◌+++◌}
use toni_ai_agent.Common.{
  ℕ, ◌+◌, true, false, Option, none, some, List, [], ◌∷◌, length, String, ◌≡◌, ◌⊎◌, refl,
}
use toni_ai_agent.Types.{Result, ok}
use toni_ai_agent.Computer.Validator.{ScreenObservation}
use toni_ai_agent.Audit.Chain.{
  AuditEvent, AuditRow, HashInput, append, verify, one_more, last_hash, verify-append,
}
use toni_ai_agent.Audit.Chain.Tamper.{Collide, contents, verify-tamper}
use toni_ai_agent.Vision.PrivacyFilter.{ScreenPrivacyFilter, create, should_block}
use toni_ai_agent.Vision.OcrPipeline.{IsSafe, blocked_result, process, process-IsSafe}
use toni_ai_agent.Vision.Monitor.{
  ScreenMonitor, Event, timer_fired, capture_settled, capture_asked, on, run,
}
use toni_ai_agent.Sandbox.Execution.{Paths, ExecutionRequest}
use toni_ai_agent.Sandbox.Terminal.{
  TerminalExecutor, WorkerCall, WorkerResponse, logging, AllAllowed, run as run_terminal,
  run-AllAllowed,
}
use toni_ai_agent.Vision.ContextAssistant.{
  analyse, best_kind, standing, text_of, school_terms, business_terms, coding_terms,
  analyse-best_kind,
}

abbrev digest : HashInput → String
digest i = i.message +++ i.previous_hash

abbrev number : ℕ → String
number n = "n"

abbrev event : String → AuditEvent
event message = record {
  kind = "tool_executed";
  user_id = none;
  session_id = some "s";
  action_id = none;
  tool_name = some "read_text_file";
  message = message;
  created_at = none;
}

abbrev log : ℕ → List AuditRow
unfolding append
log id = append digest 5 (id + 1) (event "b") (append digest 5 id (event "a") [])

verify-append_example :
    verify digest number (append digest 6 3 (event "c") (log 1))
    ≡ one_more (verify digest number (log 1))
verify-append_example = verify-append digest number 6 3 (event "c") (log 1)

-- Two logs that differ in the numbers of their rows alone.
verify-tamper_example : Collide digest (log 1) (log 7) ⊎ (contents (log 1) ≡ contents (log 7))
unfolding verify append last_hash log
verify-tamper_example = verify-tamper digest number (log 1) (log 7) 2 refl refl refl

abbrev screen : ScreenObservation
screen = record {
  captured_at = "2026-01-01";
  image_data_url = some "data:";
  active_window_title = some "editor";
  active_application = none;
  visible_text = none;
}

abbrev same : String → String
same text = text

abbrev privacy : ScreenPrivacyFilter
unfolding create
privacy = create same none none

abbrev read_password : ScreenObservation → ℕ → Result (Option String) × ℕ
read_password o n = (ok (some " my password "), n + 1)

process-IsSafe_example :
    IsSafe same privacy (process same (some read_password) privacy screen 0).0
    × ((should_block same privacy screen ≡ false)
        ⊎ (process same (some read_password) privacy screen 0 ≡ (blocked_result, 0)))
process-IsSafe_example = process-IsSafe same (some read_password) privacy screen 0

abbrev busy : ScreenMonitor
busy = record { gate = on; interval_ms = 3000; timer = true; capture_in_flight = true }

abbrev after : List Event
after = capture_settled (ok screen) ∷ timer_fired ∷ capture_asked ∷ []

analyse-best_kind_example :
    analyse same screen
    ≡ best_kind
        (length (standing (text_of same screen) school_terms))
        (length (standing (text_of same screen) business_terms))
        (length (standing (text_of same screen) coding_terms))
analyse-best_kind_example = analyse-best_kind same screen

abbrev paths : Paths
paths = record { resolve = same; relative = λ root cwd. ""; is_absolute = λ path. false }

abbrev terminal : TerminalExecutor
terminal = record {
  policy = record {
    workspace_root = "/w";
    max_execution_ms = 1000;
    max_output_bytes = 1000;
    allow_commands = "npm" ∷ [];
    deny_patterns = "rm -rf" ∷ [];
  };
  aliases = [];
}

abbrev works : WorkerCall → ℕ → Result WorkerResponse × ℕ
works call n = (
  ok (record { ok = true; exit_code = some 0; stdout = none; stderr = none; error = none }),
  n + 1,
)

abbrev npm_test : ExecutionRequest
npm_test = record { command = "npm test"; cwd = "/w" }

run-AllAllowed_example :
    AllAllowed paths same same false works terminal
      (run_terminal paths same same false (logging works) terminal 5 npm_test (0, [])).1.1
run-AllAllowed_example = run-AllAllowed paths same same false works terminal 5 npm_test 0
