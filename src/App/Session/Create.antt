-- ===== src/App/Session/Create.antt =====
-- The constructor of app/InteractiveSession.ts with its fallback policy. The executor and the
-- orchestrator that it makes where none are given stand in the host.
use toni_ai_agent.Common.{Bool, true, Option, none, some, List, [], ◌∷◌, String}
use toni_ai_agent.Policy.PermissionEngine.{PermissionPolicy}
use toni_ai_agent.Audit.Log.{AuditEvent}
use toni_ai_agent.Coding.RepairStore.{StoredFile}
use toni_ai_agent.Coding.RepairCoordinator.{Config, open_session}
use toni_ai_agent.Provider.ToolLoop.{LoopState, or_else}
use toni_ai_agent.App.CodingAgent.{CodingAgent}
use toni_ai_agent.App.Session.{InteractiveSession}

abbrev pub fallback_policy : PermissionPolicy
fallback_policy = record {
  filesystem = record { read = "allow"; write = "workspace"; delete = "approval" };
  terminal = record {
    safe_commands = "allow";
    unknown_commands = "approval";
    destructive_commands = "approval";
  };
  git = record { read = "allow"; commit = "approval"; push = "approval"; reset = some "approval" };
  github =
      some
        (record { read = "allow"; write = "approval"; merge = "approval"; delete = "never_auto" });
  browser = record {
    read = "approval";
    write = "approval";
    submit = "approval";
    download = some "approval";
  };
  computer =
      some (record {
        read = "approval";
        click = "approval";
        type = "approval";
        system = "never_auto";
      });
  system = record {
    settings = "approval";
    administrator = "never_auto";
    shutdown = some "never_auto";
  };
  school =
      ("read_assignments", "allow")
      ∷ ("analyse_assignments", "allow")
      ∷ ("draft_answers", "allow")
      ∷ ("write_to_school_portal", "approval")
      ∷ ("submit_assignment", "approval")
      ∷ ("send_messages", "approval")
      ∷ [];
}

-- `options.repair`: under which session its file is kept, if in one, and whether it is audited
pub record RepairOptions : Type 0 where
  pub persistence : Option String
  pub audited : Bool

pub record SessionOptions : Type 0 where
  pub model : Option String
  pub env_model : Option String
  pub policy : Option PermissionPolicy
  pub coding_workflow : Option CodingAgent
  pub repair : Option RepairOptions

unfoldable pub policy_of : SessionOptions → PermissionPolicy
unfolding or_else
policy_of options = or_else options.policy fallback_policy

-- the configuration of the coordinator that the workflow's agent makes
unfoldable pub repair_config : RepairOptions → Config
repair_config options = record {
  resumable = true;
  persistence = options.persistence;
  audited = options.audited;
}

-- the workflow that is given, or the one of the repair options, over the files as they are
unfoldable pub workflow_of : SessionOptions → StoredFile → List AuditEvent → Option CodingAgent
unfolding repair_config open_session
workflow_of options file audit = elim options.coding_workflow [
  | some workflow ↦ some workflow
  | none ↦ elim options.repair [
    | none ↦ none
    | some repair ↦
        some (record { resumable_repair = some (open_session (repair_config repair) file audit) })
  ]
]

unfoldable pub create :
    {W : Type 0}
    → SessionOptions
    → StoredFile
    → List AuditEvent
    → LoopState W
    → InteractiveSession W
unfolding workflow_of or_else
create options file audit state = record {
  model = or_else options.model (or_else options.env_model "gpt-5.6-luna");
  previous_response_id = none;
  pending_tool_approval = none;
  request_count = 0;
  tool_loop = none;
  coding_workflow = workflow_of options file audit;
  state = state;
}
