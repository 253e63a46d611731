-- ===== src/App/Session/Pending.antt =====
-- While a tool call waits for its approval, the interactive session of app/InteractiveSession.ts does
-- not go on with the conversation.
use toni_ai_agent.Common.{
  ℕ, Bool, true, false, Option, none, some, List, [], ◌∷◌, All, String, str_eq, is_some, ◌≡◌, refl,
  arith, ◌∙◌, option_cases, if_cases, sym, subst,
}
use toni_ai_agent.Common.Text.{member}
use toni_ai_agent.Types.{Result}
use toni_ai_agent.Types.Json.{Json}
use toni_ai_agent.Provider.Messages.{AgentInput, PendingToolApproval, ToolLoopResult}
use toni_ai_agent.Provider.ToolLoop.{non_empty}
use toni_ai_agent.App.Commands.{
  SessionCommand, empty, help, reset, status, approvals, exit, approve_command, reject_command,
  model_command, request,
}
use toni_ai_agent.App.CodingAgent.{Actions}
use toni_ai_agent.App.Session.{
  Setup, InteractiveSession, SessionHost, SessionReply, Moment, ask, start_repair,
}
use toni_ai_agent.App.Session.Decide.{
  approve, approve_waiting_repair, reject, reject_waiting_repair, forget_pending,
}
use toni_ai_agent.App.Session.Execute.{execute_command}

pub data SessionEvent : Type 0 where
  asked : AgentInput → SessionEvent
  approved : Moment → String → SessionEvent
  rejected : Moment → String → SessionEvent
  repair_started : Moment → SessionEvent
  commanded : Moment → SessionCommand → SessionEvent

module _ {W : Type 0} (setup : Setup) (host : SessionHost W) (act : Actions W) (show : ℕ → String)
    (pretty : Option Json → String) where
  unfoldable pub session_step : SessionEvent → InteractiveSession W → InteractiveSession W
  unfolding ask approve reject start_repair execute_command
  session_step (asked input) st = (ask setup host act show input st).1
  session_step (approved t id) st = (approve setup host act show pretty t id st).1
  session_step (rejected t id) st = (reject setup host act show pretty t id st).1
  session_step (repair_started t) st = (start_repair setup host act show t st).1
  session_step (commanded t command) st =
      (execute_command setup host act show pretty t command st).1

  unfoldable pub session_run : List SessionEvent → InteractiveSession W → InteractiveSession W
  unfolding session_step
  session_run [] st = st
  session_run (e ∷ es) st = session_run es (session_step e st)

-- The user decides on an action, or drops the conversation.
abbrev pub settles : String → SessionEvent → Bool
settles id (approved t other) = str_eq id other
settles id (rejected t other) = str_eq id other
settles id (commanded t (reject_command (some other))) = str_eq id other
settles id (commanded t (model_command value)) = is_some (non_empty value)
settles id (commanded t reset) = true
settles id _ = false

-- The conversation is where it was, it waits for the same approval, and no request to the provider has
-- been charged.
abbrev pub IsHeld :
    {W : Type 0} → PendingToolApproval → InteractiveSession W → InteractiveSession W → Type 0
IsHeld p before after =
    (after.pending_tool_approval ≡ some p)
    × (after.previous_response_id ≡ before.previous_response_id)
    × (after.request_count ≡ before.request_count)
    × (after.state.provider_budget ≡ before.state.provider_budget)

non_empty-some : (id action : String) → non_empty (some id) ≡ some action → action ≡ id
unfolding non_empty
non_empty-some id action e = ground (arith, e)

module _ {W : Type 0} (setup : Setup) (host : SessionHost W) (act : Actions W) (show : ℕ → String)
    (pretty : Option Json → String) (p : PendingToolApproval) (st : InteractiveSession W)
    (waits : st.pending_tool_approval ≡ some p) where
  approve_waiting_repair-IsHeld :
      (t : Moment) (id : String)
      → IsHeld p st (approve_waiting_repair setup host act show pretty t id st).1
  unfolding approve_waiting_repair
  approve_waiting_repair-IsHeld t id =
      (ground (arith, waits), ground arith, ground arith, ground arith)

  reject_waiting_repair-IsHeld :
      (t : Moment) (id : String)
      → IsHeld p st (reject_waiting_repair setup host act show pretty t id st).1
  unfolding reject_waiting_repair
  reject_waiting_repair-IsHeld t id =
      (ground (arith, waits), ground arith, ground arith, ground arith)

  start_repair-IsHeld : (t : Moment) → IsHeld p st (start_repair setup host act show t st).1
  unfolding start_repair
  start_repair-IsHeld t = (ground (arith, waits), ground arith, ground arith, ground arith)

  ask-IsHeld : (input : AgentInput) → IsHeld p st (ask setup host act show input st).1
  unfolding ask
  ask-IsHeld input =
      option_cases {B = Result ToolLoopResult × InteractiveSession W} st.pending_tool_approval
        (λ o. IsHeld p st o.1) (λ gone. absurd (cc (waits, gone)))
        (λ _ _. (waits, refl, refl, refl))

  approve-IsHeld :
      (t : Moment) (id : String)
      → str_eq p.action_id id ≡ false
      → IsHeld p st (approve setup host act show pretty t id st).1
  unfolding approve
  approve-IsHeld t id other =
      option_cases {B = Result String × InteractiveSession W} st.pending_tool_approval
        (λ o. IsHeld p st o.1) (λ gone. absurd (cc (waits, gone)))
        (λ q same.
          if_cases {A = Result String × InteractiveSession W} (str_eq q.action_id id)
            (λ o. IsHeld p st o.1) (λ yes_. absurd (ground (arith, waits, same, other, yes_)))
            (λ _. approve_waiting_repair-IsHeld t id))

  reject-IsHeld :
      (t : Moment) (id : String)
      → str_eq p.action_id id ≡ false
      → IsHeld p st (reject setup host act show pretty t id st).1
  unfolding reject forget_pending
  reject-IsHeld t id other =
      if_cases {A = Result String × InteractiveSession W}
        (member id (host.list_action_ids st.state.world)) (λ o. IsHeld p st o.1)
        (λ _. (ground (arith, waits, other), refl, refl, refl))
        (λ _. reject_waiting_repair-IsHeld t id)

  execute_command-IsHeld :
      (t : Moment) (command : SessionCommand)
      → settles p.action_id (commanded t command) ≡ false
      → IsHeld p st (execute_command setup host act show pretty t command st).1
  unfolding execute_command
  execute_command-IsHeld t empty h = (waits, refl, refl, refl)
  execute_command-IsHeld t help h = (waits, refl, refl, refl)
  execute_command-IsHeld t status h = (waits, refl, refl, refl)
  execute_command-IsHeld t approvals h = (waits, refl, refl, refl)
  execute_command-IsHeld t exit h = (waits, refl, refl, refl)
  execute_command-IsHeld t reset h = absurd cc
  execute_command-IsHeld t (approve_command id) h = (waits, refl, refl, refl)
  execute_command-IsHeld t (reject_command none) h = (waits, refl, refl, refl)
  execute_command-IsHeld t (reject_command (some id)) h =
      option_cases {B = Result (Option SessionReply) × InteractiveSession W} (non_empty (some id))
        (λ o. IsHeld p st o.1) (λ _. (waits, refl, refl, refl))
        (λ action e.
          reject-IsHeld t action
            (subst (λ x. str_eq p.action_id x ≡ false) (sym (non_empty-some id action e)) h))
  execute_command-IsHeld t (model_command none) h = (waits, refl, refl, refl)
  execute_command-IsHeld t (model_command (some value)) h =
      option_cases {B = Result (Option SessionReply) × InteractiveSession W}
        (non_empty (some value)) (λ o. IsHeld p st o.1) (λ _. (waits, refl, refl, refl))
        (λ model e. absurd (ground (arith, e, h)))
  execute_command-IsHeld t (request value) h = (waits, refl, refl, refl)

  session_step-IsHeld :
      (e : SessionEvent)
      → settles p.action_id e ≡ false
      → IsHeld p st (session_step setup host act show pretty e st)
  unfolding session_step
  session_step-IsHeld (asked input) h = ask-IsHeld input
  session_step-IsHeld (approved t id) h = approve-IsHeld t id h
  session_step-IsHeld (rejected t id) h = reject-IsHeld t id h
  session_step-IsHeld (repair_started t) h = start_repair-IsHeld t
  session_step-IsHeld (commanded t command) h = execute_command-IsHeld t command h

module _ {W : Type 0} (setup : Setup) (host : SessionHost W) (act : Actions W) (show : ℕ → String)
    (pretty : Option Json → String) (p : PendingToolApproval) where
  -- While a tool call waits for its approval, and until the user approves or rejects it, resets the
  -- conversation or changes the model, no sequence of the session's calls goes on with the
  -- conversation: it stays where it was and waits for the same approval, and no request to the provider
  -- is charged.
  pub session_run-IsHeld :
      (es : List SessionEvent) (st : InteractiveSession W)
      → st.pending_tool_approval ≡ some p
      → All (λ e. settles p.action_id e ≡ false) es
      → IsHeld p st (session_run setup host act show pretty es st)
  unfolding session_run
  session_run-IsHeld [] st waits h = (waits, refl, refl, refl)
  session_run-IsHeld (e ∷ es) st waits (now, later) =
      let (w, c, n, b) = session_step-IsHeld setup host act show pretty p st waits e now in
      let (w', c', n', b') =
        session_run-IsHeld es (session_step setup host act show pretty e st) w later in
      (w', c' ∙ c, n' ∙ n, b' ∙ b)
