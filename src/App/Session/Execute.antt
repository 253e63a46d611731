-- ===== src/App/Session/Execute.antt =====
-- `executeCommand` and `getState` of app/InteractiveSession.ts.
use Prim.Native.String.{◌++◌ as ◌+++◌}
use toni_ai_agent.Common.{
  ℕ, Bool, true, Option, none, some, List, [], ◌∷◌, ◌++◌, length, map, String, str_eq, is_some,
  if◌then◌else◌,
}
use toni_ai_agent.Types.{Result, ok, err}
use toni_ai_agent.Types.Json.{Json}
use toni_ai_agent.Coding.RepairSession.{
  RepairSessionState, RepairSessionSnapshot, RepairApprovalRequest, is_waiting,
}
use toni_ai_agent.Coding.RepairStore.{state_text}
use toni_ai_agent.Provider.ToolLoop.{non_empty}
use toni_ai_agent.App.Commands.{
  SessionCommand, empty, help, reset, status, approvals, exit, approve_command, reject_command,
  model_command, request, join,
}
use toni_ai_agent.App.CodingAgent.{Actions}
use toni_ai_agent.App.Session.{
  SessionReply, command_reply, command_text, Setup, InteractiveSession, SessionHost, Moment,
  repair_snapshot,
}
use toni_ai_agent.App.Session.Decide.{reject}

pub record SessionState : Type 0 where
  pub model : String
  pub workspace : String
  pub request_count : ℕ
  pub has_conversation : Bool
  pub pending_approvals : ℕ
  pub pending_repair_approval : Option RepairApprovalRequest
  pub repair_state : Option RepairSessionState

-- `repair?.state === "waiting_approval" ? repair.approval : undefined`
unfoldable pub repair_approval : Option RepairSessionSnapshot → Option RepairApprovalRequest
repair_approval none = none
repair_approval (some s) = if is_waiting s.state then s.approval else none

-- the lines that are not empty
unfoldable pub filled : List String → List String
filled [] = []
filled (line ∷ lines) = let rest = filled lines in if str_eq line "" then rest else line ∷ rest

unfoldable pub help_text : String
help_text =
    "/help  /status  /approvals\n/approve <actionId>  /reject <actionId>\n/model [nimi]  /reset  /exit\nMuut rivit lähetetään mallille."

module _ {W : Type 0} (setup : Setup) (host : SessionHost W) (show : ℕ → String) where
  -- `getState`
  unfoldable pub get_state : InteractiveSession W → Result SessionState
  unfolding repair_snapshot repair_approval
  get_state st = elim (repair_snapshot st) [
    | err e ↦ err e
    | ok repair ↦ ok (record {
      model = st.model;
      workspace = setup.workspace;
      request_count = st.request_count;
      has_conversation = is_some st.previous_response_id;
      pending_approvals = length (host.list_action_ids st.state.world);
      pending_repair_approval = repair_approval repair;
      repair_state = elim repair [ none ↦ none | some s ↦ some s.state ];
    })
  ]

  unfoldable pub status_text : SessionState → String
  unfolding filled join state_text
  status_text s = join "\n" (
      filled (
        ("Malli: " +++ s.model)
        ∷ ("Workspace: " +++ s.workspace)
        ∷ ("Pyyntöjä: " +++ show s.request_count)
        ∷ ("Keskustelutila: " +++ (if s.has_conversation then "aktiivinen" else "tyhjä"))
        ∷ ("Odottaa työkaluhyväksyntää: " +++ show s.pending_approvals)
        ∷ ("Korjaustila: "
            +++ (elim s.repair_state [ none ↦ "ei käytössä" | some x ↦ state_text x ]))
        ∷ (elim s.pending_repair_approval [
          | none ↦ ""
          | some a ↦ "Odottaa korjaushyväksyntää: " +++ a.action_id
        ])
        ∷ []))

  -- the lines of `/approvals`
  unfoldable pub approval_lines : List String → Option RepairApprovalRequest → List String
  approval_lines ids none = map (λ id. "Työkalu: " +++ id) ids
  approval_lines ids (some a) =
      map (λ id. "Työkalu: " +++ id) ids ++ (("Korjaus: " +++ a.action_id) ∷ [])

  unfoldable pub approvals_text : InteractiveSession W → Result String
  unfolding repair_snapshot repair_approval approval_lines join
  approvals_text st = elim (repair_snapshot st) [
    | err e ↦ err e
    | ok repair ↦
        elim (approval_lines (host.list_action_ids st.state.world) (repair_approval repair)) [
          | [] ↦ ok "Ei odottavia hyväksyntöjä."
          | line ∷ lines ↦ ok ("Odottaa hyväksyntää:\n" +++ join "\n" (line ∷ lines))
        ]
  ]

-- the reply of a text, or its error
unfoldable pub reply_of : Result String → Result (Option SessionReply)
unfolding command_text
reply_of (err e) = err e
reply_of (ok text) = ok (some (command_text text))

module _ {W : Type 0} (setup : Setup) (host : SessionHost W) (act : Actions W) (show : ℕ → String)
    (pretty : Option Json → String) where
  -- `executeCommand`
  unfoldable pub execute_command :
      Moment
      → SessionCommand
      → InteractiveSession W
      → Result (Option SessionReply) × InteractiveSession W
  unfolding get_state status_text approvals_text reply_of command_text reject non_empty help_text
  execute_command t empty st = (ok none, st)
  execute_command t help st = (reply_of (ok help_text), st)
  execute_command t status st = (
    elim (get_state setup host show st) [
      | err e ↦ err e
      | ok s ↦ reply_of (ok (status_text setup host show s))
    ],
    st,
  )
  execute_command t approvals st = (reply_of (approvals_text setup host show st), st)
  execute_command t (approve_command id) st = (
    reply_of (elim (non_empty id) [
      | none ↦ ok "Käyttö: /approve <actionId>"
      | some action ↦ ok ("Hyväksyntä suoritetaan komennolla /approve " +++ action +++ ".")
    ]),
    st,
  )
  execute_command t (reject_command id) st = elim (non_empty id) [
    | none ↦ (reply_of (ok "Käyttö: /reject <actionId>"), st)
    | some action ↦
        let (answer, st') = reject setup host act show pretty t action st in (reply_of answer, st')
  ]
  execute_command t (model_command value) st = elim (non_empty value) [
    | none ↦ (reply_of (ok ("Nykyinen malli: " +++ st.model)), st)
    | some model ↦ (
      reply_of (ok ("Malli vaihdettu: " +++ model)),
      record st {
        model = model;
        previous_response_id = none;
        pending_tool_approval = none;
        tool_loop = none;
      },
    )
  ]
  execute_command t reset st = (
    reply_of (ok "Keskustelutila nollattu."),
    record st { previous_response_id = none; pending_tool_approval = none; request_count = 0 },
  )
  execute_command t exit st = (
    ok (some (record { kind = command_reply; text = "Toni AI Agent suljetaan."; exit = true })),
    st,
  )
  execute_command t (request value) st = (ok none, st)
