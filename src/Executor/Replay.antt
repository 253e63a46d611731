-- ===== src/Executor/Replay.antt =====
-- An approval authorises one call: once consumed it starts no other, whatever happens in between.
use toni_ai_agent.Common.{
  ℕ, true, false, none, some, List, [], ◌∷◌, All, String, ◌≡◌, ◌≢◌, inl, inr, sym, subst, ◌∙◌,
  arith, Option-cases, Bool,
}
use toni_ai_agent.Types.{Result-cases, AgentAction}
use toni_ai_agent.Approval.Port.{ApprovalContract}
use toni_ai_agent.Approval.Manager
use toni_ai_agent.Tools.ToolRegistry
use toni_ai_agent.Executor.{
  execute, release, settle, reject, cancel, abort, settle_running, Event, executed, settled,
  approved, rejected, cancelled, aborted, step, run,
}
use toni_ai_agent.Executor.State.{SupervisedToolRequest, Tick, Running, given}
use toni_ai_agent.Executor.Request.{
  Config, ExecutorState, started, append, permission_of, action_of, has_valid_approval,
}
use toni_ai_agent.Executor.Begin.{
  refuse_approval, deny, consume_approval, by_decision, decide, execute_unlocked,
}
use toni_ai_agent.Executor.Called.{claim_of, request_approval-ne-started}
use toni_ai_agent.Executor.Authority.{decided, consumed_for}
use toni_ai_agent.Executor.Touch.{
  Touch, untouched, stored, claimed, execute-Touch, approve-Touch, allow-approvals,
  release-approvals,
}

-- The event does not name a new approval `id`.
abbrev pub IsFresh : String → Event → Type 0
IsFresh id (executed tick request) = tick.uuid ≢ id
IsFresh id (settled duration) = Unit
IsFresh id (approved tick action_id) = tick.uuid ≢ id
IsFresh id (rejected action_id) = Unit
IsFresh id (cancelled operation_id) = Unit
IsFresh id (aborted signal) = Unit

module _ {World : Type 0} (config : Config World) (contract : ApprovalContract config.port)
    (id : String) where
  open contract use {Spent}

  touch-Spent :
      (uuid : String) (s t : config.port.State)
      → Touch config.port uuid s t
      → uuid ≢ id
      → Spent s id
      → Spent t id
  touch-Spent uuid s t (untouched e) fresh h = subst (λ u. Spent u id) (sym e) h
  touch-Spent uuid s t (stored now input named e) fresh h =
      subst (λ u. Spent u id) (sym e)
        (contract.put-Spent s now input id h (subst (λ u. u ≢ id) (sym named) fresh))
  touch-Spent uuid s t (claimed now claim e) fresh h =
      subst (λ u. Spent u id) (sym e) (contract.consume-Spent s now claim id h)

  settle-approvals :
      (duration : ℕ) (r : Running) (st : ExecutorState config)
      → (settle config duration r st).1.approvals ≡ st.approvals
  unfolding settle append
  settle-approvals duration r st = ground arith

  step-Spent :
      (e : Event) (st : ExecutorState config)
      → IsFresh id e
      → Spent st.approvals id
      → Spent (step config e st).approvals id
  unfolding step settle_running reject cancel abort
  step-Spent (executed tick request) st fresh h =
      touch-Spent _ _ _ (execute-Touch config tick request st) fresh h
  step-Spent (approved tick action_id) st fresh h =
      touch-Spent _ _ _ (approve-Touch config tick action_id st) fresh h
  step-Spent (settled duration) st fresh h = elim (Option-cases st.running) [
    | inl e ↦ subst (λ s. Spent s id) (ground (arith, e)) h
    | inr (r, e) ↦ subst (λ s. Spent s id) (ground (arith, e, settle-approvals duration r st)) h
  ]
  step-Spent (rejected action_id) st fresh h =
      elim (Result-cases (Manager.reject st.manager action_id).0) [
        | inl (x, e) ↦ subst (λ s. Spent s id) (ground (arith, e)) h
        | inr (x, e) ↦ subst (λ s. Spent s id) (ground (arith, e)) h
      ]
  step-Spent (cancelled operation_id) st fresh h = subst (λ s. Spent s id) (ground arith) h
  step-Spent (aborted signal) st fresh h = h

  run-Spent :
      (es : List Event) (st : ExecutorState config)
      → All (IsFresh id) es
      → Spent st.approvals id
      → Spent (run config es st).approvals id
  unfolding run
  run-Spent [] st fresh h = h
  run-Spent (e ∷ es) st fresh h =
      run-Spent es (step config e st) fresh.1 (step-Spent e st fresh.0 h)

  allow-consume :
      (tick : Tick) (request : SupervisedToolRequest) (st : ExecutorState config)
      (action : AgentAction) (valid : Bool)
      → (decide config tick request action valid st).0 ≡ started
      → (decide config tick request action valid st).1.approvals
        ≡ (consume_approval config tick request st).1.approvals
  unfolding decide by_decision refuse_approval deny
  allow-consume tick request st action valid h =
      let reason = (permission_of config valid request action).reason in
      ground (
        arith,
        request_approval-ne-started config tick request action reason st,
        allow-approvals config tick request st reason,
      )

  consume-approvals :
      (tick : Tick) (request : SupervisedToolRequest) (st : ExecutorState config)
      → given request.approval_id ≡ some id
      → (consume_approval config tick request st).1.approvals
        ≡ (config.port.consume st.approvals tick.at_consume (claim_of config request id)).1
  unfolding consume_approval append
  consume-approvals tick request st named =
      elim (Result-cases
        (config.port.consume st.approvals tick.at_consume (claim_of config request id)).0) [
          | inl (x, e) ↦ ground (arith, named, e)
          | inr (x, e) ↦ ground (arith, named, e)
        ]

  executed_unlocked :
      (tick : Tick) (request : SupervisedToolRequest) (st : ExecutorState config)
      → (execute config tick request st).0 ≡ started
      → ((execute config tick request st).1.approvals
          ≡ (execute_unlocked config tick request (record st { active = true })).1.approvals)
        × ((execute_unlocked config tick request (record st { active = true })).0 ≡ started)
  unfolding execute release
  executed_unlocked tick request st h = ground (
    arith,
    release-approvals config tick
        (execute_unlocked config tick request (record st { active = true })),
  )

  unlocked_decided :
      (tick : Tick) (request : SupervisedToolRequest) (st : ExecutorState config)
      → (execute_unlocked config tick request st).0 ≡ started
      → (action : AgentAction) × (valid : Bool) × ((decide config tick request action valid st).0
          ≡ started)
        × ((execute_unlocked config tick request st).1.approvals
            ≡ (decide config tick request action valid st).1.approvals)
  unfolding execute_unlocked
  unlocked_decided tick request st h =
      elim (Result-cases (ToolRegistry.get config.registry request.tool_name)) [
        | inl (e, missing) ↦ ground (arith, missing)
        | inr (tool, found) ↦ (
          action_of config tick request tool,
          has_valid_approval config tick request st,
          ground (arith, found),
          ground (arith, found),
        )
      ]

  start-Spent :
      (tick : Tick) (request : SupervisedToolRequest) (st : ExecutorState config)
      → given request.approval_id ≡ some id
      → (execute config tick request st).0 ≡ started
      → Spent (execute config tick request st).1.approvals id
  start-Spent tick request st named h =
      let st' = record st { active = true } in
      let (same, ran) = executed_unlocked tick request st h in
      let (action, valid, start, same') = unlocked_decided tick request st' ran in
      let consumed = (decided config tick request action valid st' start).1 in
      let (r, taken) = consumed_for config tick request st' id named consumed in
      subst (λ s. Spent s id)
        (sym (
          same
          ∙ (same'
              ∙ (allow-consume tick request st' action valid start
                  ∙ consume-approvals tick request st' named))))
        (contract.consume-Spent_self st.approvals tick.at_consume (claim_of config request id) r
          taken)

  unlocked_valid :
      (tick : Tick) (request : SupervisedToolRequest) (st : ExecutorState config)
      → given request.approval_id ≡ some id
      → (execute_unlocked config tick request st).0 ≡ started
      → has_valid_approval config tick request st ≡ true
  unfolding execute_unlocked
  unlocked_valid tick request st named h =
      elim (Result-cases (ToolRegistry.get config.registry request.tool_name)) [
        | inl (e, missing) ↦ ground (arith, missing)
        | inr (tool, found) ↦ ground (arith, found, named)
      ]

  valid-get :
      (tick : Tick) (request : SupervisedToolRequest) (st : ExecutorState config)
      → given request.approval_id ≡ some id
      → config.port.get st.approvals tick.at_get id ≡ none
      → has_valid_approval config tick request st ≡ false
  unfolding has_valid_approval
  valid-get tick request st named gone = ground (arith, named, gone)

  spent_refused :
      (tick : Tick) (request : SupervisedToolRequest) (st : ExecutorState config)
      → given request.approval_id ≡ some id
      → Spent st.approvals id
      → (execute config tick request st).0 ≢ started
  spent_refused tick request st named h start =
      let st' = record st { active = true } in
      let valid =
        unlocked_valid tick request st' named (executed_unlocked tick request st start).1 in
      let invalid =
        valid-get tick request st' named (contract.get-Spent st.approvals tick.at_get id h) in
      cc (valid, invalid)

  -- Once a call that names an approval has started, no later call that names the same approval
  -- starts, whatever calls, settlements, approvals, rejections, cancellations and aborts come in
  -- between, if the approval store keeps its contract and no call between them is given the same
  -- identifier for a new approval.
  pub replay_refused :
      (tick tick' : Tick) (request request' : SupervisedToolRequest) (st : ExecutorState config)
      (between : List Event)
      → given request.approval_id ≡ some id
      → given request'.approval_id ≡ some id
      → (execute config tick request st).0 ≡ started
      → All (IsFresh id) between
      → (execute config tick' request' (run config between (execute config tick request st).1)).0
        ≢ started
  replay_refused tick tick' request request' st between named named' start fresh =
      spent_refused tick' request' _ named'
        (run-Spent between _ fresh (start-Spent tick request st named start))
