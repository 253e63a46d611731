-- ===== src/Sandbox/Execution.antt =====
-- agent/sandbox/ExecutionSandbox.ts with the types of agent/sandbox/types.ts. `Paths` stands for Node's
-- module `path`, `lower` for `toLowerCase`.
use Prim.Native.String.{◌++◌ as ◌+++◌}
use toni_ai_agent.Common.{
  ℕ, Bool, true, false, not, ◌||◌, Option, none, some, List, [], ◌∷◌, any, String, str_eq, ◌==◌,
  if◌then◌else◌, ◌≡◌, arith,
}
use toni_ai_agent.Common.Text.{codes, includes, starts_with, trim, first_word, strip_quotes, member}

pub record SandboxPolicy : Type 0 where
  pub workspace_root : String
  pub max_execution_ms : ℕ
  pub max_output_bytes : ℕ
  pub allow_commands : List String
  pub deny_patterns : List String

pub record ExecutionRequest : Type 0 where
  pub command : String
  pub cwd : String

pub record ExecutionResult : Type 0 where
  pub ok : Bool
  pub exit_code : Option ℕ
  pub stdout : String
  pub stderr : String
  pub duration_ms : ℕ
  pub blocked : Bool
  pub reason : Option String

pub record Paths : Type 0 where
  pub resolve : String → String
  pub relative : String → String → String
  pub is_absolute : String → Bool

-- one of ; & | < > ` $ ( )
unfoldable pub is_shell_control : ℕ → Bool
is_shell_control c =
    (c == 59)
    || ((c == 38)
        || ((c == 124)
            || ((c == 60)
                || ((c == 62) || ((c == 96) || ((c == 36) || ((c == 40) || (c == 41))))))))

unfoldable pub has_shell_control : String → Bool
unfolding is_shell_control codes
has_shell_control command = any is_shell_control (codes command)

unfoldable pub block : String → ExecutionResult
block reason = record {
  ok = false;
  exit_code = none;
  stdout = "";
  stderr = "";
  duration_ms = 0;
  blocked = true;
  reason = some reason;
}

unfoldable pub passed : ExecutionResult
passed = record {
  ok = true;
  exit_code = none;
  stdout = "";
  stderr = "";
  duration_ms = 0;
  blocked = false;
  reason = none;
}

unfoldable pub is_nil : List String → Bool
is_nil [] = true
is_nil (x ∷ xs) = false

module _ (paths : Paths) (lower : String → String) (policy : SandboxPolicy) where
  unfoldable pub outside : String → Bool
  outside cwd =
      let relative = paths.relative (paths.resolve policy.workspace_root) (paths.resolve cwd) in
      starts_with relative ".." || paths.is_absolute relative

  unfoldable pub is_denied : String → Bool
  is_denied command = any (λ pattern. includes (lower command) (lower pattern)) policy.deny_patterns

  -- the executable that the allowlist is asked about
  unfoldable pub executable_of : String → String
  executable_of command = strip_quotes (first_word (lower command))

  unfoldable pub is_listed : String → Bool
  unfolding is_nil
  is_listed executable = is_nil policy.allow_commands || member executable policy.allow_commands

  unfoldable pub preflight : ExecutionRequest → ExecutionResult
  unfolding block passed outside is_denied executable_of is_listed has_shell_control
  preflight request =
      let command = trim request.command in
      if outside request.cwd
      then block "Working directory is outside the workspace root"
      else if str_eq command ""
      then block "Command is empty"
      else if has_shell_control command
      then block "Shell control operators are not allowed"
      else if is_denied command
      then block "Command matches a denied safety pattern"
      else if not (is_listed (executable_of command))
      then block ("Executable is not allowlisted: " +++ executable_of command)
      else passed

  -- What a request must be for the sandbox to let it pass.
  abbrev pub IsAllowed : ExecutionRequest → Type 0
  IsAllowed request =
      (outside request.cwd ≡ false)
      × (has_shell_control (trim request.command) ≡ false)
      × (is_denied (trim request.command) ≡ false)
      × (is_listed (executable_of (trim request.command)) ≡ true)

  pub preflight-IsAllowed :
      (request : ExecutionRequest) → (preflight request).ok ≡ true → IsAllowed request
  unfolding preflight block passed
  preflight-IsAllowed request h = (ground arith, ground arith, ground arith, ground arith)
