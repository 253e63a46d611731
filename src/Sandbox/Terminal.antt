-- ===== src/Sandbox/Terminal.antt =====
-- agent/sandbox/TerminalExecutor.ts. The worker acts on a state of the host; one that rejects gives an
-- `err`. `encode` stands for `JSON.stringify` of a text, `win32` says that the platform is Windows, and
-- `time` is how long the worker took.
use Prim.Native.String.{◌++◌ as ◌+++◌}
use toni_ai_agent.Common.{
  ℕ, Bool, false, not, ◌&&◌, Option, none, some, List, [], ◌∷◌, ◌++◌, All, any, map, String, str_eq,
  if◌then◌else◌, arith, if_cases, option_cases,
}
use toni_ai_agent.Common.JsMap.{JsMap, get}
use toni_ai_agent.Common.Text.{codes, is_space, member}
use toni_ai_agent.Types.{Result, ok, err, message_of}
use toni_ai_agent.App.Commands.{join}
use toni_ai_agent.Sandbox.Execution.{
  SandboxPolicy, ExecutionRequest, ExecutionResult, Paths, block, preflight, IsAllowed,
  preflight-IsAllowed,
}
use toni_ai_agent.Sandbox.Commands.{parse_command}

pub record WorkerCall : Type 0 where
  pub executable : String
  pub args : List String
  pub cwd : String

pub record WorkerResponse : Type 0 where
  pub ok : Bool
  pub exit_code : Option ℕ
  pub stdout : Option String
  pub stderr : Option String
  pub error : Option String

pub record TerminalExecutor : Type 0 where
  pub policy : SandboxPolicy
  pub aliases : JsMap String

-- `text ?? ""`
unfoldable pub or_empty : Option String → String
or_empty none = ""
or_empty (some text) = text

unfoldable pub has_space : String → Bool
unfolding codes is_space
has_space text = any is_space (codes text)

module _ (encode : String → String) where
  -- `quoteForPreflight`
  unfoldable pub quote_for_preflight : String → String
  unfolding has_space
  quote_for_preflight value = if has_space value then encode value else value

  -- the command that the sandbox is shown for a call of the worker
  unfoldable pub shown : WorkerCall → ExecutionRequest
  unfolding quote_for_preflight join
  shown call = record {
    command = join " " (map quote_for_preflight (call.executable ∷ call.args));
    cwd = call.cwd;
  }

module _ (lower : String → String) (win32 : Bool) (t : TerminalExecutor) where
  -- `normalizeExecutable`
  unfoldable pub normalize_executable : String → String
  unfolding get or_empty member
  normalize_executable executable =
      let alias : String = elim (get t.aliases (lower executable)) [
        | none ↦ executable
        | some a ↦ a
      ] in
      if win32 && member (lower alias) ("npm" ∷ "npx" ∷ "pnpm" ∷ "yarn" ∷ [])
      then alias +++ ".cmd"
      else alias

-- what a worker's answer comes to
unfoldable pub result_of : ℕ → Result WorkerResponse → ExecutionResult
unfolding or_empty
result_of time (ok r) = record {
  ok = r.ok;
  exit_code = r.exit_code;
  stdout = or_empty r.stdout;
  stderr = or_empty r.stderr;
  duration_ms = time;
  blocked = false;
  reason = r.error;
}
result_of time (err e) = record {
  ok = false;
  exit_code = none;
  stdout = "";
  stderr = message_of e;
  duration_ms = time;
  blocked = false;
  reason = some (message_of e);
}

module _ {W : Type 0} (paths : Paths) (lower encode : String → String) (win32 : Bool)
    (worker : WorkerCall → W → Result WorkerResponse × W) (t : TerminalExecutor) where
  -- `run`, once the call is known
  unfoldable pub run_call : ℕ → WorkerCall → W → ExecutionResult × W
  unfolding preflight shown result_of
  run_call time call w =
      let checked = preflight paths lower t.policy (shown encode call) in
      let (answer, w') = worker call w in
      if not checked.ok then (checked, w) else (result_of time answer, w')

  -- `run`, of a command that has been parsed
  unfoldable pub run_parsed : ℕ → ExecutionRequest → List String → W → ExecutionResult × W
  unfolding run_call normalize_executable block
  run_parsed time request [] w = (block "Executable is missing", w)
  run_parsed time request (raw ∷ args) w =
      if str_eq raw ""
      then (block "Executable is missing", w)
      else run_call time
          (record {
            executable = normalize_executable lower win32 t raw;
            args = args;
            cwd = paths.resolve request.cwd;
          })
          w

  -- `run`
  unfoldable pub run : ℕ → ExecutionRequest → W → ExecutionResult × W
  unfolding run_parsed parse_command block
  run time request w = elim (parse_command request.command) [
    | none ↦ (block "Command could not be parsed safely", w)
    | some parsed ↦ run_parsed time request parsed w
  ]

-- A worker that keeps the calls that it is asked for.
abbrev pub logging :
    {W : Type 0}
    → (WorkerCall → W → Result WorkerResponse × W)
    → WorkerCall
    → W × List WorkerCall
    → Result WorkerResponse × (W × List WorkerCall)
logging worker call s = ((worker call s.0).0, ((worker call s.0).1, s.1 ++ (call ∷ [])))

module _ {W : Type 0} (paths : Paths) (lower encode : String → String) (win32 : Bool)
    (worker : WorkerCall → W → Result WorkerResponse × W) (t : TerminalExecutor) where
  -- every call was shown to the sandbox and let pass
  abbrev pub AllAllowed : List WorkerCall → Type 0
  AllAllowed calls = All (λ call. IsAllowed paths lower t.policy (shown encode call)) calls

  run_call-AllAllowed :
      (time : ℕ) (call : WorkerCall) (w : W)
      → AllAllowed (run_call paths lower encode win32 (logging worker) t time call (w, [])).1.1
  unfolding run_call
  run_call-AllAllowed time call w =
      let checked = preflight paths lower t.policy (shown encode call) in
      if_cases {A = ExecutionResult × (W × List WorkerCall)} (not checked.ok)
        (λ r. AllAllowed r.1.1) (λ _. tt)
        (λ passes. (
          preflight-IsAllowed paths lower t.policy (shown encode call) (ground (arith, passes)),
          tt,
        ))

  run_parsed-AllAllowed :
      (time : ℕ) (request : ExecutionRequest) (parsed : List String) (w : W)
      → AllAllowed
          (run_parsed paths lower encode win32 (logging worker) t time request parsed (w, [])).1.1
  unfolding run_parsed
  run_parsed-AllAllowed time request [] w = tt
  run_parsed-AllAllowed time request (raw ∷ args) w =
      if_cases {A = ExecutionResult × (W × List WorkerCall)} (str_eq raw "") (λ r. AllAllowed r.1.1)
        (λ _. tt)
        (λ _.
          run_call-AllAllowed time
            (record {
              executable = normalize_executable lower win32 t raw;
              args = args;
              cwd = paths.resolve request.cwd;
            })
            w)

  -- Whatever command it is given, the terminal executor asks a worker for no call whose command, as it
  -- is shown, the sandbox would not let pass: in the workspace, without shell controls and denied
  -- patterns, and with a first word, lowered and without quotes, that the policy lists, if it lists any.
  pub run-AllAllowed :
      (time : ℕ) (request : ExecutionRequest) (w : W)
      → AllAllowed (run paths lower encode win32 (logging worker) t time request (w, [])).1.1
  unfolding run
  run-AllAllowed time request w =
      option_cases {B = ExecutionResult × (W × List WorkerCall)} (parse_command request.command)
        (λ r. AllAllowed r.1.1) (λ _. tt) (λ parsed _. run_parsed-AllAllowed time request parsed w)
