-- ===== src/App/Session.antt =====
-- app/InteractiveSession.ts over the provider's tool loop and the coding agent. The tool executor is
-- the host's; `pretty` stands for the indented `JSON.stringify`, `show` for the text of a number. A
-- call runs to its end before the next.
pub mod Decide
pub mod Execute
pub mod Pending
pub mod Create
use Prim.Native.String.{◌++◌ as ◌+++◌}
use toni_ai_agent.Common.{
  ℕ, ◌+◌, Bool, true, false, not, ◌||◌, Option, none, some, List, [], ◌∷◌, ◌++◌, length, map,
  String, str_eq, is_some, if◌then◌else◌,
}
use toni_ai_agent.Common.Text.{member}
use toni_ai_agent.Types.{Result, ok, err, Thrown, plain_error}
use toni_ai_agent.Types.Json.{Json}
use toni_ai_agent.Types.ToolCall.{ToolExecutionResult}
use toni_ai_agent.Limits.CostBudget.{CostBudget}
use toni_ai_agent.Limits.ProviderBudget.{ProviderBudget}
use toni_ai_agent.Coding.RepairSession.{
  RepairSessionState, RepairSessionSnapshot, RepairApprovalRequest, waiting_approval, succeeded,
  rejected, is_waiting,
}
use toni_ai_agent.Coding.RepairStore.{state_text}
use toni_ai_agent.Provider.Messages.{
  FunctionToolSpec, AgentInput, PendingToolApproval, ToolLoopResult,
}
use toni_ai_agent.Provider.ToolLoop.{
  ToolLoop, Host, LoopState, Options, create, run, resume_approved_call, or_else, non_empty,
}
use toni_ai_agent.App.Commands.{
  SessionCommand, empty, help, reset, status, approvals, exit, approve_command, reject_command,
  model_command, request, join,
}
use toni_ai_agent.App.CodingAgent.{
  CodingAgent, Actions, get_repair_snapshot, start_agent_repair, approve_agent_repair,
  reject_agent_repair,
}

pub data ReplyKind : Type 0 where
  command_reply model_reply tool_reply : ReplyKind

pub record SessionReply : Type 0 where
  pub kind : ReplyKind
  pub text : String
  pub exit : Bool

-- What stays the same for a session: its workspace, what its tool loops are made of, and whether it
-- was given budgets or makes its own for each loop.
pub record Setup : Type 0 where
  pub workspace : String
  pub loop_options : Options
  pub keeps_cost_budget : Bool
  pub keeps_provider_budget : Bool
  pub tools : List FunctionToolSpec

pub record InteractiveSession (W : Type 0) : Type 0 where
  pub model : String
  pub previous_response_id : Option String
  pub pending_tool_approval : Option PendingToolApproval
  pub request_count : ℕ
  pub tool_loop : Option ToolLoop
  pub coding_workflow : Option CodingAgent
  pub state : LoopState W

-- The provider's client, and the executor's calls that the session makes itself.
pub record SessionHost (W : Type 0) : Type 0 where
  pub loop_host : Host W
  pub list_action_ids : W → List String
  pub approve_and_resume : String → W → Result ToolExecutionResult × W
  pub reject_action : String → W → W

-- what the file system makes of a save, and the time
pub record Moment : Type 0 where
  pub failure : Option Thrown
  pub now : String

-- `repair?.state` and so on: the snapshot of the workflow, if there is one
unfoldable pub repair_snapshot :
    {W : Type 0} → InteractiveSession W → Result (Option RepairSessionSnapshot)
unfolding get_repair_snapshot
repair_snapshot st = elim st.coding_workflow [
  | none ↦ ok none
  | some agent ↦ elim (get_repair_snapshot agent) [ err e ↦ err e | ok s ↦ ok (some s) ]
]

-- `repair?.state === "waiting_approval"`, with the snapshot
unfoldable pub waiting_repair : Option RepairSessionSnapshot → Option RepairSessionSnapshot
waiting_repair none = none
waiting_repair (some s) = if is_waiting s.state then some s else none

-- `repair.approval?.actionId ?? other`
unfoldable pub approval_id : RepairSessionSnapshot → String → String
approval_id s other = elim s.approval [ none ↦ other | some a ↦ a.action_id ]

abbrev pub pending_is : Option PendingToolApproval → String → Bool
pending_is none id = false
pending_is (some p) id = str_eq p.action_id id

unfoldable pub fresh_cost_budget : CostBudget
fresh_cost_budget = record {
  max_input_tokens = 20000;
  max_output_tokens = 5000;
  max_usd = 10000000;
  used = record { input_tokens = 0; output_tokens = 0; estimated_usd = 0 };
}

unfoldable pub fresh_provider_budget : ProviderBudget
fresh_provider_budget = record { max_requests = 20; requests = 0 }

unfoldable pub instructions_of : Setup → String
instructions_of setup =
    "Olet Toni AI Agent, paikallinen ensisijaisesti suomenkielinen tekninen avustaja.\n"
    +++ "Inspect before editing. Älä arvaa. Käytä vain annettuja työkaluja.\n"
    +++ "Työkalut ovat turvallisuusvalvottuja. Hyväksyntää vaativaa toimintoa ei saa kiertää.\n"
    +++ "Älä väitä tehneesi muutosta, jota työkalu ei vahvista.\n" +++ "Työtila: "
    +++ setup.workspace

unfoldable pub command_text : String → SessionReply
command_text text = record { kind = command_reply; text = text; exit = false }

module _ {W : Type 0} (setup : Setup) where
  -- `ensureToolLoop`
  unfoldable pub ensure_tool_loop : InteractiveSession W → Result ToolLoop × InteractiveSession W
  unfolding create fresh_cost_budget fresh_provider_budget
  ensure_tool_loop st = elim st.tool_loop [
    | some loop ↦ (ok loop, st)
    | none ↦ elim (create (record setup.loop_options { model = some st.model })) [
      | err e ↦ (err e, st)
      | ok loop ↦ (
        ok loop,
        record st {
          tool_loop = some loop;
          state = record st.state {
            cost_budget =
                if setup.keeps_cost_budget then st.state.cost_budget else some fresh_cost_budget;
            provider_budget =
                if setup.keeps_provider_budget
                then st.state.provider_budget
                else some fresh_provider_budget;
          };
        },
      )
    ]
  ]

  module _ (host : SessionHost W) (act : Actions W) (show : ℕ → String) where
    -- the answer to a request, once the tool loop has come to an end
    unfoldable pub asked :
        Result ToolLoopResult × LoopState W
        → InteractiveSession W
        → Result ToolLoopResult × InteractiveSession W
    asked (err e, ls) st = (err e, record st { state = ls })
    asked (ok r, ls) st = (
      ok r,
      record st {
        state = ls;
        previous_response_id = some r.response_id;
        pending_tool_approval = r.pending_approval;
        request_count = st.request_count + 1;
      },
    )

    unfoldable pub ask_loop :
        AgentInput → InteractiveSession W → Result ToolLoopResult × InteractiveSession W
    unfolding ensure_tool_loop asked run instructions_of
    ask_loop input st =
        let (loop, st') = ensure_tool_loop st in
        elim loop [
          | err e ↦ (err e, st')
          | ok l ↦
              asked
                (run host.loop_host l show setup.tools input (some (instructions_of setup))
                  st'.previous_response_id st'.state)
                st'
        ]

    -- `ask`
    unfoldable pub ask :
        AgentInput → InteractiveSession W → Result ToolLoopResult × InteractiveSession W
    unfolding ask_loop repair_snapshot waiting_repair approval_id
    ask input st = elim st.pending_tool_approval [
      | some p ↦ (err (plain_error ("Approval required first: /approve " +++ p.action_id)), st)
      | none ↦ elim (repair_snapshot st) [
        | err e ↦ (err e, st)
        | ok repair ↦ elim (waiting_repair repair) [
          | some s ↦ (
            err (
                plain_error
                  ("Repair approval required first: /approve " +++ approval_id s "<actionId>")),
            st,
          )
          | none ↦ ask_loop input st
        ]
      ]
    ]

    -- `startRepair`
    unfoldable pub start_repair :
        Moment → InteractiveSession W → Result RepairSessionSnapshot × InteractiveSession W
    unfolding start_agent_repair
    start_repair t st = elim st.coding_workflow [
      | none ↦ (err (plain_error "Resumable repair is not configured for this session"), st)
      | some agent ↦ elim st.pending_tool_approval [
        | some p ↦ (err (plain_error ("Approval required first: /approve " +++ p.action_id)), st)
        | none ↦
            let (answer, agent', w) = start_agent_repair act t.failure t.now agent st.state.world in
            (
              answer,
              record st { coding_workflow = some agent'; state = record st.state { world = w } },
            )
      ]
    ]
