-- ===== src/App/CodingAgent.antt =====
-- agent/coding/CodingAgent.ts, and app/CodingWorkflow.ts, which passes every call on to it. The scan of
-- the repository, the tool loop and the actions are parameters that act on the host's state.
use Prim.Native.String.{◌++◌ as ◌+++◌}
use toni_ai_agent.Common.{ℕ, Bool, false, Option, none, some, String, is_some, if◌then◌else◌}
use toni_ai_agent.Types.{Result, ok, err, Thrown, plain_error}
use toni_ai_agent.Coding.SelfDebugger.{RepairPlan}
use toni_ai_agent.Coding.VerificationEngine.{VerificationResult}
use toni_ai_agent.Coding.RepairLoop.{RepairLoopResult}
use toni_ai_agent.Coding.RepairSession.{RepairSessionSnapshot, SessionRepairResult, snapshot}
use toni_ai_agent.Coding.RepairCoordinator.{
  Config, Coordinator, start_repair, approve_repair, reject_repair, run_loop,
}
use toni_ai_agent.Provider.Messages.{ToolLoopResult}

-- The coordinator of a resumable repair, if one is configured.
pub record CodingAgent : Type 0 where
  pub resumable_repair : Option Coordinator

pub record CodingAgentResult (M : Type 0) : Type 0 where
  pub repository : M
  pub loop : ToolLoopResult
  pub repair : Option RepairLoopResult
  pub repair_session : Option RepairSessionSnapshot

unfoldable pub not_configured : Thrown
not_configured = plain_error "Resumable repair is not configured for this coding agent"

-- `getRepairSnapshot`
unfoldable pub get_repair_snapshot : CodingAgent → Result RepairSessionSnapshot
unfolding snapshot not_configured
get_repair_snapshot agent = elim agent.resumable_repair [
  | none ↦ err not_configured
  | some c ↦ ok (snapshot c.session)
]

-- What the agent's coordinator and its automated repair are built over.
pub record Actions (W : Type 0) : Type 0 where
  pub stamp : ℕ → String × String
  pub config : Config
  pub limit : ℕ
  pub verify : ℕ → W → Result VerificationResult × W
  pub repair : RepairPlan → ℕ → Bool → W → Result SessionRepairResult × W

-- the two actions of the automated repair, where both are configured
pub record Automated (W : Type 0) : Type 0 where
  pub verification : ℕ → W → VerificationResult × W
  pub repair : RepairPlan → ℕ → W → Bool × W
  pub max_attempts : Option ℕ

module _ {W : Type 0} (act : Actions W) (failure : Option Thrown) (now : String) where
  -- `startRepair`
  unfoldable pub start_agent_repair :
      CodingAgent → W → Result RepairSessionSnapshot × CodingAgent × W
  unfolding start_repair not_configured
  start_agent_repair agent w = elim agent.resumable_repair [
    | none ↦ (err not_configured, agent, w)
    | some c ↦
        let (answer, c', w') =
          start_repair act.stamp act.limit act.verify act.repair act.config failure now c w in
        (answer, record { resumable_repair = some c' }, w')
  ]

  -- `approveRepair`
  unfoldable pub approve_agent_repair :
      String → CodingAgent → W → Result RepairSessionSnapshot × CodingAgent × W
  unfolding approve_repair not_configured
  approve_agent_repair action_id agent w = elim agent.resumable_repair [
    | none ↦ (err not_configured, agent, w)
    | some c ↦
        let (answer, c', w') =
          approve_repair act.stamp act.limit act.verify act.repair act.config failure now action_id
            c w in
        (answer, record { resumable_repair = some c' }, w')
  ]

  -- `rejectRepair`
  unfoldable pub reject_agent_repair :
      String → CodingAgent → Result RepairSessionSnapshot × CodingAgent
  unfolding reject_repair not_configured
  reject_agent_repair action_id agent = elim agent.resumable_repair [
    | none ↦ (err not_configured, agent)
    | some c ↦
        let (answer, c') = reject_repair act.stamp act.config failure now action_id c in
        (answer, record { resumable_repair = some c' })
  ]

-- the coordinator of `run` for an automated repair
abbrev automated_config : Config
automated_config = record { resumable = false; persistence = none; audited = false }

module _ {W M : Type 0} (act : Actions W) (failure : Option Thrown) (now : String) where
  -- `run`, from the tool loop's result on
  unfoldable pub after_loop :
      Option (Automated W)
      → M
      → ToolLoopResult
      → CodingAgent
      → W
      → Result (CodingAgentResult M) × CodingAgent × W
  unfolding start_agent_repair run_loop
  after_loop automated repository loop agent w =
      let plain : CodingAgentResult M = record {
        repository = repository;
        loop = loop;
        repair = none;
        repair_session = none;
      } in
      if is_some loop.pending_approval
      then (ok plain, agent, w)
      else if is_some agent.resumable_repair
      then (let (answer, agent', w') = start_agent_repair act failure now agent w in
          (
            elim answer [ err e ↦ err e | ok s ↦ ok (record plain { repair_session = some s }) ],
            agent',
            w',
          ))
      else elim automated [
        | none ↦ (ok plain, agent, w)
        | some a ↦
            let (result, w') = run_loop a.verification a.repair automated_config a.max_attempts w in
            (
              elim result [ err e ↦ err e | ok r ↦ ok (record plain { repair = some r }) ],
              agent,
              w',
            )
      ]

  -- the text that the model is asked with
  unfoldable pub context_of : (M → String) → M → String → String
  context_of summarize repository request =
      "Repository inspection completed. Treat this as metadata only; read source files before editing.\n"
      +++ summarize repository
      +++ "\n\nUser request: "
      +++ request

  -- `run`; `ask` is the tool loop under the agent's instructions
  unfoldable pub run_agent :
      (W → Result M × W)
      → (M → String)
      → (String → W → Result ToolLoopResult × W)
      → Option (Automated W)
      → String
      → CodingAgent
      → W
      → Result (CodingAgentResult M) × CodingAgent × W
  unfolding after_loop context_of
  run_agent scan summarize ask automated request agent w =
      let (scanned, w1) = scan w in
      elim scanned [
        | err e ↦ (err e, agent, w1)
        | ok repository ↦
            let (asked, w2) = ask (context_of summarize repository request) w1 in
            elim asked [
              | err e ↦ (err e, agent, w2)
              | ok loop ↦ after_loop automated repository loop agent w2
            ]
      ]
