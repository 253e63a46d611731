-- ===== src/App/Session/Decide.antt =====
-- `approve` and `reject` of app/InteractiveSession.ts.
use Prim.Native.String.{◌++◌ as ◌+++◌}
use toni_ai_agent.Common.{
  ℕ, ◌+◌, Bool, true, false, Option, none, some, String, str_eq, if◌then◌else◌,
}
use toni_ai_agent.Common.Text.{member}
use toni_ai_agent.Types.{Result, ok, err, plain_error}
use toni_ai_agent.Types.Json.{Json}
use toni_ai_agent.Types.ToolCall.{ToolExecutionResult}
use toni_ai_agent.Coding.RepairSession.{
  RepairSessionState, RepairSessionSnapshot, waiting_approval, succeeded, rejected,
}
use toni_ai_agent.Coding.RepairStore.{state_text}
use toni_ai_agent.Provider.Messages.{PendingToolApproval, ToolLoopResult}
use toni_ai_agent.Provider.ToolLoop.{LoopState, resume_approved_call}
use toni_ai_agent.App.CodingAgent.{CodingAgent, Actions, approve_agent_repair, reject_agent_repair}
use toni_ai_agent.App.Session.{
  Setup, InteractiveSession, SessionHost, Moment, repair_snapshot, waiting_repair, approval_id,
  ensure_tool_loop,
}

-- `text || other`
unfoldable pub or_text : String → String → String
or_text text other = if str_eq text "" then other else text

-- what the user is told of a repair that he has approved
unfoldable pub repair_answer : String → RepairSessionSnapshot → String
unfolding approval_id state_text
repair_answer action_id s = elim s.state [
  | waiting_approval ↦ "Korjaus odottaa edelleen hyväksyntää: " +++ approval_id s action_id
  | succeeded ↦ "Korjaus hyväksyttiin ja varmennus onnistui."
  | other ↦ "Korjaus hyväksyntä käsitelty: " +++ state_text other +++ (elim s.reason [
    | none ↦ ""
    | some reason ↦ if str_eq reason "" then "" else " — " +++ reason
  ])
]

abbrev pub is_rejected : RepairSessionState → Bool
is_rejected rejected = true
is_rejected _ = false

unfoldable pub reject_answer : String → RepairSessionSnapshot → String
unfolding approval_id
reject_answer action_id s =
    if is_rejected s.state
    then "Korjaus hylätty: " +++ action_id
    else "Korjaus odottaa edelleen hyväksyntää: " +++ approval_id s action_id

-- the calls of the agent's repair that wait for an approval, if one does
unfoldable pub repair_that_waits : {W : Type 0} → InteractiveSession W → Result (Option CodingAgent)
unfolding repair_snapshot waiting_repair
repair_that_waits st = elim (repair_snapshot st) [
  | err e ↦ err e
  | ok repair ↦ elim (waiting_repair repair) [ none ↦ ok none | some s ↦ ok st.coding_workflow ]
]

module _ {W : Type 0} (setup : Setup) (host : SessionHost W) (act : Actions W) (show : ℕ → String)
    (pretty : Option Json → String) where
  -- the answer to an approval, once the resumed tool loop has come to an end
  unfoldable pub resumed :
      ToolExecutionResult
      → Result ToolLoopResult × LoopState W
      → InteractiveSession W
      → Result String × InteractiveSession W
  unfolding or_text
  resumed result (err e, ls) st = (err e, record st { state = ls })
  resumed result (ok r, ls) st = (
    ok (or_text r.text (pretty result.output)),
    record st {
      state = ls;
      previous_response_id = some r.response_id;
      request_count = st.request_count + 1;
      pending_tool_approval = r.pending_approval;
    },
  )

  -- the call that was approved has ended with a result
  unfoldable pub resume :
      PendingToolApproval
      → ToolExecutionResult
      → InteractiveSession W
      → Result String × InteractiveSession W
  unfolding resumed ensure_tool_loop resume_approved_call
  resume p result st =
      let (loop, st') = ensure_tool_loop setup (record st { pending_tool_approval = none }) in
      elim loop [
        | err e ↦ (err e, st')
        | ok l ↦
            resumed result
              (resume_approved_call host.loop_host l show setup.tools p.response_id p.call_id result
                st'.state)
              st'
      ]

  unfoldable pub approve_pending :
      PendingToolApproval → String → InteractiveSession W → Result String × InteractiveSession W
  unfolding resume
  approve_pending p action_id st =
      let (result, w) = host.approve_and_resume action_id st.state.world in
      let st' = record st { state = record st.state { world = w } } in
      elim result [ err e ↦ (err e, st') | ok r ↦ resume p r st' ]

  unfoldable pub approve_waiting_repair :
      Moment → String → InteractiveSession W → Result String × InteractiveSession W
  unfolding repair_that_waits approve_agent_repair repair_answer
  approve_waiting_repair t action_id st = elim (repair_that_waits st) [
    | err e ↦ (err e, st)
    | ok none ↦ (err (plain_error ("No resumable approval found for action " +++ action_id)), st)
    | ok (some agent) ↦
        let (answer, agent', w) =
          approve_agent_repair act t.failure t.now action_id agent st.state.world in
        (
          elim answer [ err e ↦ err e | ok s ↦ ok (repair_answer action_id s) ],
          record st { coding_workflow = some agent'; state = record st.state { world = w } },
        )
  ]

  -- `approve`
  unfoldable pub approve :
      Moment → String → InteractiveSession W → Result String × InteractiveSession W
  unfolding approve_pending approve_waiting_repair
  approve t action_id st = elim st.pending_tool_approval [
    | none ↦ approve_waiting_repair t action_id st
    | some p ↦
        if str_eq p.action_id action_id
        then approve_pending p action_id st
        else approve_waiting_repair t action_id st
  ]

  -- `this.pendingToolApproval = undefined`, where it is the action's
  unfoldable pub forget_pending : String → Option PendingToolApproval → Option PendingToolApproval
  forget_pending action_id none = none
  forget_pending action_id (some p) = if str_eq p.action_id action_id then none else some p

  unfoldable pub reject_waiting_repair :
      Moment → String → InteractiveSession W → Result String × InteractiveSession W
  unfolding repair_that_waits reject_agent_repair reject_answer
  reject_waiting_repair t action_id st = elim (repair_that_waits st) [
    | err e ↦ (err e, st)
    | ok none ↦ (err (plain_error ("No pending approval found for action " +++ action_id)), st)
    | ok (some agent) ↦
        let (answer, agent') = reject_agent_repair act t.failure t.now action_id agent in
        (
          elim answer [ err e ↦ err e | ok s ↦ ok (reject_answer action_id s) ],
          record st { coding_workflow = some agent' },
        )
  ]

  -- `reject`
  unfoldable pub reject :
      Moment → String → InteractiveSession W → Result String × InteractiveSession W
  unfolding forget_pending reject_waiting_repair member
  reject t action_id st =
      if member action_id (host.list_action_ids st.state.world)
      then (
        ok ("Toiminto hylätty: " +++ action_id),
        record st {
          pending_tool_approval = forget_pending action_id st.pending_tool_approval;
          state = record st.state { world = host.reject_action action_id st.state.world };
        },
      )
      else reject_waiting_repair t action_id st
