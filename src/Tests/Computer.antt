-- ===== src/Tests/Computer.antt =====
-- The theorems on computer actions at concrete observations.
use toni_ai_agent.Common.{
  ℕ, suc, true, false, Option, none, some, [], ◌∷◌, String, str_eq, if◌then◌else◌, ◌≡◌, ◌<◌, refl,
  arith,
}
use toni_ai_agent.Common.Text.{includes, includes_codes, starts_with_codes}
use toni_ai_agent.Computer.Validator.{
  ScreenObservation, ComputerPostConditionExpectation, ComputerPostConditionValidation, confirmed,
  inconclusive, validate_post_condition, has_image, staleness, part_check, text_checks, conclude,
  confirmed_fresh,
}
use toni_ai_agent.Common.JsMap
use toni_ai_agent.Types.{Result, ok, err, plain_error}
use toni_ai_agent.Types.Json.{null, str}
use toni_ai_agent.Computer.Lifecycle.{
  keypress, written, refused, record_approval, record_event, record_execution,
}
use toni_ai_agent.Computer.Controller.{ComputerExecutor}
use toni_ai_agent.Computer.Workflow.{
  Queued, Workflow, require_queued, approve_queued, approve_and_verify,
}
use toni_ai_agent.Computer.Workflow.Once.{ApprovalEnds, approve_and_verify-ApprovalEnds}
use toni_ai_agent.Computer.VerificationPolicy.{Ends, observations, observations-end}

abbrev observation : ScreenObservation
observation = record {
  captured_at = "2";
  image_data_url = none;
  active_window_title = some "notes";
  active_application = none;
  visible_text = none;
}

abbrev expectation : ComputerPostConditionExpectation
expectation = record {
  active_window_title_includes = some "note";
  active_application_includes = none;
  visible_text_includes = none;
  visible_text_excludes = none;
  observation_captured_after = some "1";
}

abbrev parse : String → Option ℕ
parse text = if str_eq text "1" then some 1 else if str_eq text "2" then some 2 else none

is_confirmed : (validate_post_condition (λ s. s) parse observation expectation).status ≡ confirmed
unfolding validate_post_condition staleness part_check text_checks conclude includes includes_codes
    starts_with_codes
is_confirmed = refl

confirmed_fresh_example :
    (has_image observation ≡ false)
    × ((b c : ℕ) × (parse "1" ≡ some b) × (parse "2" ≡ some c) × (b < c))
confirmed_fresh_example =
    confirmed_fresh (λ s. s) parse observation expectation "1" refl is_confirmed

-- observations that never tell
abbrev observe : ℕ → Result ComputerPostConditionValidation × ℕ
observe n = (
  ok (record { status = inconclusive; reason = "No observable post-condition was supplied." }),
  suc n,
)

observations-end_example : Ends (some 2) observe 0 0 (observations (some 2) observe 3 0 0)
observations-end_example = observations-end (some 2) observe 0 (omega arith) (omega arith)

-- an executor whose host counts the calls that it approves
abbrev executor : ComputerExecutor
executor = record {
  Host = ℕ;
  execute = λ name arguments n.
      (record { ok = true; approved = false; output = some null; operation_id = none }, n);
  approve_and_resume = λ id n. (
    record { ok = true; approved = true; output = some (str "done"); operation_id = none },
    suc n,
  );
  reject = λ id n. (ok tt, n);
  capture = λ n. (ok observation, n);
}

abbrev entry : Queued
entry = record {
  proposal = record {
    action = keypress "Enter";
    observation_captured_at = "1";
    active_window_title = none;
    active_application = none;
    action_id = some "a";
  };
  queued_result = record { ok = true; approved = false; output = some null; operation_id = none };
  session_id = "s";
}

abbrev workflow : Workflow executor
workflow = record {
  queued_actions = ("a", entry) ∷ [];
  lifecycle = record {
    observation_baselines = ("a", "1") ∷ [];
    events = [];
    writes = λ n. written "id" "time";
  };
  host = 0;
}

entry_found : require_queued executor "a" "s" workflow ≡ ok entry
unfolding require_queued JsMap.get
entry_found = refl

approve_and_verify-ApprovalEnds_example :
    ApprovalEnds executor
      (λ s. s)
      parse
      (some 2)
      (omega arith)
      (omega arith)
      "a"
      "s"
      workflow
      entry
      (approve_and_verify executor (λ s. s) parse (some 2) "a" "s" (some expectation) workflow)
approve_and_verify-ApprovalEnds_example =
    approve_and_verify-ApprovalEnds executor (λ s. s) parse (some 2) (omega arith) (omega arith) "a"
      "s" (some expectation) workflow entry entry_found

-- an audit file that takes no line
abbrev unaudited : Workflow executor
unaudited = record workflow {
  lifecycle = record (workflow.lifecycle) { writes = λ n. refused (plain_error "ENOSPC") };
}

-- The action has been carried out, and is still queued.
stays_queued :
    approve_and_verify executor (λ s. s) parse (some 2) "a" "s" (some expectation) unaudited
    ≡ some (
      err (plain_error "ENOSPC"),
      record unaudited {
        host = 1;
        lifecycle = record (unaudited.lifecycle) { writes = λ n. refused (plain_error "ENOSPC") };
      },
    )
unfolding approve_and_verify approve_queued require_queued JsMap.get record_approval record_event
    record_execution
stays_queued = refl
