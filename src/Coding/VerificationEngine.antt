-- ===== src/Coding/VerificationEngine.antt =====
-- agent/coding/VerificationEngine.ts. The runner of commands is a parameter that acts on a state of
-- the host; `show` stands for the text of an exit code.
pub mod Steps
use Prim.Native.String.{◌++◌ as ◌+++◌}
use toni_ai_agent.Common.{
  ℕ, Bool, true, false, not, Option, none, some, List, [], ◌∷◌, ◌++◌, String, str_eq, if◌then◌else◌,
}
use toni_ai_agent.Coding.SelfDebugger.{DebugFailure, RepairPlan}

pub record VerificationCommand : Type 0 where
  pub name : String
  pub command : String

pub record VerificationStepResult : Type 0 where
  pub name : String
  pub command : String
  pub ok : Bool
  pub skipped : Bool
  pub exit_code : Option ℕ
  pub stdout : Option String
  pub stderr : Option String
  pub reason : Option String
  pub blocked : Option Bool

pub record VerificationResult : Type 0 where
  pub ok : Bool
  pub steps : List VerificationStepResult
  pub failed_step : Option VerificationStepResult
  pub repair_plan : Option RepairPlan

pub record VerificationRunnerResult : Type 0 where
  pub ok : Bool
  pub exit_code : Option ℕ
  pub stdout : String
  pub stderr : String
  pub blocked : Option Bool
  pub reason : Option String

-- the command under a name, where it is not missing or empty
script : (String → Option String) → String → Option String
script scripts name = elim (scripts name) [
  | none ↦ none
  | some command ↦ if str_eq command "" then none else some command
]

-- `if (command) candidates.push({ name, command })`
push : String → Option String → List VerificationCommand → List VerificationCommand
push name none rest = rest
push name (some command) rest = record { name = name; command = command } ∷ rest

abbrev first_of : Option String → Option String → Option String
first_of none b = b
first_of (some a) b = some a

unfoldable pub available_commands : (String → Option String) → List VerificationCommand
unfolding script push
available_commands scripts =
    push "check" (first_of (script scripts "check") (script scripts "typecheck"))
      (push "test" (script scripts "test") (push "build" (script scripts "build") []))

-- `result.reason || result.stderr || …`
unfoldable pub error_text : (Option ℕ → String) → VerificationRunnerResult → String
error_text show result =
    let fallback =
      if str_eq result.stderr ""
      then "Command exited with code " +++ show result.exit_code
      else result.stderr in
    elim result.reason [
      | none ↦ fallback
      | some reason ↦ if str_eq reason "" then fallback else reason
    ]

unfoldable pub step_of : VerificationCommand → VerificationRunnerResult → VerificationStepResult
step_of item result = record {
  name = item.name;
  command = item.command;
  ok = result.ok;
  skipped = false;
  exit_code = result.exit_code;
  stdout = some result.stdout;
  stderr = some result.stderr;
  reason = result.reason;
  blocked = result.blocked;
}

module _ {S : Type 0} (show : Option ℕ → String) (run : String → S → VerificationRunnerResult × S)
    (analyse : Option (DebugFailure → RepairPlan)) where
  -- `this.debuggerPolicy?.analyse(failure)`
  unfoldable pub plan_of : DebugFailure → Option RepairPlan
  plan_of failure = elim analyse [ none ↦ none | some f ↦ some (f failure) ]

  -- the loop over the commands, with the steps so far
  unfoldable pub steps_from :
      List VerificationStepResult → List VerificationCommand → S → VerificationResult × S
  unfolding plan_of
  steps_from steps [] s =
      (record { ok = true; steps = steps; failed_step = none; repair_plan = none }, s)
  steps_from steps (item ∷ rest) s =
      let (result, s') = run item.command s in
      let step = step_of item result in
      let next = steps_from (steps ++ step ∷ []) rest s' in
      if result.ok then next else (
        record {
          ok = false;
          steps = steps ++ step ∷ [];
          failed_step = some step;
          repair_plan =
              plan_of
                (record { operation = item.name; error = error_text show result; attempt = 1 });
        },
        s',
      )

  unfoldable pub verify : (String → Option String) → S → VerificationResult × S
  unfolding steps_from
  verify scripts s = elim (available_commands scripts) [
    | [] ↦ (
      record {
        ok = true;
        steps =
            record {
              name = "check";
              command = "";
              ok = true;
              skipped = true;
              exit_code = none;
              stdout = none;
              stderr = none;
              reason = some "No verification scripts are configured";
              blocked = none;
            }
            ∷ [];
        failed_step = none;
        repair_plan = none;
      },
      s,
    )
    | item ∷ rest ↦ steps_from [] (item ∷ rest) s
  ]
