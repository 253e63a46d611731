-- ===== src/Policy/PermissionEngine.antt =====
-- agent/core/PermissionEngine.ts. `lower` stands for the host's `toLowerCase`. An optional setting
-- is an `Option`, and the school policy a map of its own properties.
pub mod Floor
pub mod Execute
use toni_ai_agent.Common.{
  Bool, false, not, ◌&&◌, ◌||◌, Option, none, some, List, [], ◌∷◌, String, str_eq, if◌then◌else◌,
}
use toni_ai_agent.Common.JsMap.{JsMap, get}
use toni_ai_agent.Common.Text.{
  includes, starts_with, member, trim, first_word, strip_quotes, has_word_ci, after_prefix, codes,
}
use toni_ai_agent.Types.{
  Risk, green, yellow, red, is_red, is_green, AgentAction, AgentContext, is_school,
}
use toni_ai_agent.Types.Json.{Json, str, obj, property}

pub record FilesystemPolicy : Type 0 where
  pub read : String
  pub write : String
  pub delete : String

pub record TerminalPolicy : Type 0 where
  pub safe_commands : String
  pub unknown_commands : String
  pub destructive_commands : String

pub record GitPolicy : Type 0 where
  pub read : String
  pub commit : String
  pub push : String
  pub reset : Option String

pub record GithubPolicy : Type 0 where
  pub read : String
  pub write : String
  pub merge : String
  pub delete : String

pub record BrowserPolicy : Type 0 where
  pub read : String
  pub write : String
  pub submit : String
  pub download : Option String

pub record ComputerPolicy : Type 0 where
  pub read : String
  pub click : String
  pub type : String
  pub system : String

pub record SystemPolicy : Type 0 where
  pub settings : String
  pub administrator : String
  pub shutdown : Option String

pub record PermissionPolicy : Type 0 where
  pub filesystem : FilesystemPolicy
  pub terminal : TerminalPolicy
  pub git : GitPolicy
  pub github : Option GithubPolicy
  pub browser : BrowserPolicy
  pub computer : Option ComputerPolicy
  pub system : SystemPolicy
  pub school : JsMap String

abbrev pub never_auto : List String
never_auto = "never_auto" ∷ "never" ∷ []

abbrev pub allowed : List String
allowed = "allow" ∷ "workspace" ∷ []

abbrev pub red_operations : List String
red_operations =
    "submit_assignment" ∷ "send_message" ∷ "send_email" ∷ "production_deploy" ∷ "use_secret" ∷ []

abbrev pub destructive_terminal : List String
destructive_terminal =
    "rm" ∷ "del" ∷ "erase" ∷ "format" ∷ "shutdown" ∷ "reboot" ∷ "diskpart" ∷ "mkfs" ∷ []

abbrev pub safe_command_names : List String
safe_command_names =
    "node" ∷ "npm" ∷ "npx" ∷ "pnpm" ∷ "yarn" ∷ "git" ∷ "tsc" ∷ "tsx" ∷ "python" ∷ "python3" ∷ []

-- `a ?? b`
abbrev pub or_else : Option String → String → String
or_else none d = d
or_else (some s) d = s

-- A text that is `undefined`, missing or empty is falsy.
abbrev pub truthy : Option String → Bool
truthy none = false
truthy (some s) = not (str_eq s "")

unfoldable pub risk_for_permission : String → Risk → Risk
risk_for_permission permission fallback =
    if is_red fallback
    then red
    else if member permission never_auto
    then red
    else if member permission allowed
    then green
    else if str_eq permission "approval"
    then yellow
    else yellow

unfoldable pub school_alias : String → Option String
school_alias key =
    if str_eq key "read"
    then some "read_assignments"
    else if str_eq key "analyse" || str_eq key "analyze"
    then some "analyse_assignments"
    else if str_eq key "draft"
    then some "draft_answers"
    else if str_eq key "write"
    then some "write_to_school_portal"
    else if str_eq key "submit"
    then some "submit_assignment"
    else if str_eq key "send"
    then some "send_messages"
    else none

-- `operation.replace(/^school[.:_]?/, "")`
unfoldable pub without_school : String → String
without_school operation = elim (after_prefix (codes "school") operation) [
  | none ↦ operation
  | some rest ↦
      or_else (after_prefix (codes ".") rest)
        (or_else (after_prefix (codes ":") rest) (or_else (after_prefix (codes "_") rest) rest))
]

module _ (policy : PermissionPolicy) where
  unfoldable pub school_key : String → Option String
  unfolding school_alias
  school_key operation =
      let normalized = without_school operation in
      if truthy (get policy.school normalized) then some normalized else school_alias normalized

  -- the setting under the school key, where there is one
  unfoldable pub school_setting : String → Option String
  unfolding school_key
  school_setting op = elim (school_key op) [
    | none ↦ none
    | some key ↦ if str_eq key "" then none else get policy.school key
  ]

  unfoldable pub filesystem_permission : String → String
  filesystem_permission op =
      if includes op "delete" || includes op "remove"
      then policy.filesystem.delete
      else if includes op "write" || (includes op "edit" || includes op "create")
      then policy.filesystem.write
      else policy.filesystem.read

  -- `commandName(input)` is `none` where the input has no text under `command`
  unfoldable pub terminal_permission : Option String → String
  terminal_permission none = policy.terminal.unknown_commands
  terminal_permission (some command) =
      if not (str_eq command "") && has_word_ci command destructive_terminal
      then policy.terminal.destructive_commands
      else if not (str_eq command "") && member command safe_command_names
      then policy.terminal.safe_commands
      else policy.terminal.unknown_commands

  unfoldable pub git_permission : String → String
  git_permission op =
      if includes op "reset"
      then or_else policy.git.reset "approval"
      else if includes op "push"
      then policy.git.push
      else if includes op "commit"
      then policy.git.commit
      else policy.git.read

  unfoldable pub github_permission : String → String
  github_permission op = elim policy.github [
    | none ↦ "approval"
    | some github ↦
        if includes op "delete"
        then github.delete
        else if includes op "merge"
        then github.merge
        else if includes op "write" || (includes op "create" || includes op "update")
        then github.write
        else github.read
  ]

  unfoldable pub browser_permission : String → String
  browser_permission op =
      if includes op "download"
      then or_else policy.browser.download "approval"
      else if includes op "submit" || includes op "send"
      then policy.browser.submit
      else if includes op "write" || (includes op "click" || includes op "type")
      then policy.browser.write
      else policy.browser.read

  unfoldable pub computer_permission : String → String
  computer_permission op = elim policy.computer [
    | none ↦ "approval"
    | some computer ↦
        if includes op "system"
        then computer.system
        else if includes op "type"
        then computer.type
        else if includes op "click"
        then computer.click
        else computer.read
  ]

  unfoldable pub system_permission : String → String
  system_permission op =
      if includes op "administrator"
      then policy.system.administrator
      else if includes op "shutdown" || includes op "reboot"
      then or_else policy.system.shutdown "never_auto"
      else policy.system.settings

module _ (lower : String → String) where
  unfoldable pub command_name : Json → Option String
  command_name (obj members) = elim (property members "command") [
    | some (str command) ↦ some (lower (strip_quotes (first_word (trim command))))
    | _ ↦ none
  ]
  command_name _ = none

  module _ (policy : PermissionPolicy) where
    -- `permissionFor` of a lowered tool and operation
    unfoldable pub permission_of :
        String → String → AgentAction → AgentContext → Option Json → String
    permission_of tool op action context input =
        if str_eq op "use_secret"
          || (includes op "bypass_mfa"
              || (includes op "bypass_captcha" || includes op "bypass_tenant"))
        then "never_auto"
        else if str_eq tool "filesystem" || includes op "file"
        then filesystem_permission policy op
        else if str_eq tool "terminal" || includes op "command"
        then terminal_permission policy (elim input [ none ↦ none | some j ↦ command_name j ])
        else if str_eq tool "git" || starts_with op "git_"
        then git_permission policy op
        else if str_eq tool "github"
        then github_permission policy op
        else if str_eq tool "browser"
        then browser_permission policy op
        else if str_eq tool "computer"
        then computer_permission policy op
        else if str_eq tool "system"
            || (includes op "administrator"
                || (includes op "shutdown" || includes op "system_settings"))
        then system_permission policy op
        else if (is_school context.mode || str_eq tool "school")
            && truthy (school_setting policy op)
        then or_else (school_setting policy op) ""
        else if is_green action.risk
        then "allow"
        else "approval"

    unfoldable pub permission_for : AgentAction → AgentContext → Option Json → String
    permission_for action context input =
        permission_of (lower action.tool) (lower action.operation) action context input

    unfoldable pub evaluated_risk : AgentAction → AgentContext → Option Json → Risk
    unfolding risk_for_permission
    evaluated_risk action context input =
        if member (lower action.operation) red_operations
        then red
        else risk_for_permission (permission_for action context input) action.risk

    unfoldable pub evaluate : AgentAction → AgentContext → Option Json → AgentAction
    unfolding evaluated_risk
    evaluate action context input =
        let risk = evaluated_risk action context input in
        record action { risk = risk; requires_approval = not (is_green risk) }
