-- ===== src/Executor/Invariant.antt =====
-- The session lock and the controllers: in every reachable state the lock is held exactly while a
-- tool runs, and the only controller is that of the call that runs.
use toni_ai_agent.Common.{
  ℕ, Bool, true, false, Option, none, some, List, [], ◌∷◌, String, str_eq, eq_iff, ◌≡◌, ◌≢◌, not,
  inl, inr, refl, sym, ap, ◌∙◌, subst, arith, Option-cases, Bool-cases, is_some, if_cases, if_keeps,
}
use toni_ai_agent.Common.Text.{member}
use toni_ai_agent.Common.JsMap
use toni_ai_agent.Common.JsMap.{JsMap, get-set, get-delete, has-eq_is_some}
use toni_ai_agent.Types.{Result-cases, AgentAction}
use toni_ai_agent.Approval.Manager
use toni_ai_agent.Tools.SafeToolExecutor.{begin_execute, finish_execute}
use toni_ai_agent.Executor.{
  execute, release, settle, is_aborted, approve_and_resume, is_granted, reject, abort_running,
  cancel, abort, settle_running, Event, executed, settled, approved, rejected, cancelled, aborted,
  step, run,
}
use toni_ai_agent.Executor.State.{SupervisedToolRequest, Tick, Running}
use toni_ai_agent.Executor.Request.{Config, ExecutorState, Begun, refused, replied, started, append}
use toni_ai_agent.Executor.Begin.{
  request_approval, deny, consume_approval, start_tool, allow, execute_unlocked,
}
use toni_ai_agent.Executor.Touch.{input_of}
use toni_ai_agent.Executor.Branches.{execute_unlocked-elim}

module _ {World : Type 0} (config : Config World) where
  -- The lock is held exactly while a call runs, and only that call has a controller.
  pub record IsConsistent (st : ExecutorState config) : Type 0 where
    pub locked : st.active ≡ is_some st.running
    pub owned :
        (id : String)
        → JsMap.has st.controllers id ≡ true
        → (r : Running) × (st.running ≡ some r) × (r.request.action_id ≡ id)

  -- inside `runExclusive`, before a tool is called
  record IsEntered (st : ExecutorState config) : Type 0 where
    active : st.active ≡ true
    idle : st.running ≡ none
    free : (id : String) → JsMap.has st.controllers id ≡ false

  After : Begun × ExecutorState config → Type 0
  After (started, st) = IsConsistent st
  After (refused e, st) = IsEntered st
  After (replied r, st) = IsEntered st

  -- What leaves the lock, the running call and the controllers alone keeps `IsEntered`.
  keeps-IsEntered :
      (st st' : ExecutorState config)
      → st'.active ≡ st.active
      → st'.running ≡ st.running
      → st'.controllers ≡ st.controllers
      → IsEntered st
      → IsEntered st'
  keeps-IsEntered st st' a r c h = record {
    active = a ∙ h.active;
    idle = r ∙ h.idle;
    free = λ id. ap (λ m. JsMap.has m id) c ∙ h.free id;
  }

  same-IsConsistent :
      (st st' : ExecutorState config)
      → st'.active ≡ st.active
      → st'.running ≡ st.running
      → st'.controllers ≡ st.controllers
      → IsConsistent st
      → IsConsistent st'
  same-IsConsistent st st' a r c h = record {
    locked = a ∙ (h.locked ∙ ap is_some (sym r));
    owned = λ id has.
        let (q, running, same) = h.owned id (ap (λ m. JsMap.has m id) (sym c) ∙ has) in
        (q, r ∙ running, same);
  }

  delete-has_inv :
      (m : JsMap (Unit {0})) (k id : String)
      → JsMap.has (JsMap.delete m k) id ≡ true
      → (JsMap.has m id ≡ true) × (k ≢ id)
  unfolding JsMap.has
  delete-has_inv m k id h = ground (arith, get-delete m k id, eq_iff k id)

  set-has :
      (m : JsMap (Unit {0})) (k id : String)
      → JsMap.has m id ≡ false
      → JsMap.has (JsMap.set m k tt) id ≡ true
      → k ≡ id
  unfolding JsMap.has
  set-has m k id free h = ground (arith, get-set m k tt id, eq_iff k id)

  delete-has :
      (m : JsMap (Unit {0})) (k id : String)
      → JsMap.has m id ≡ false
      → JsMap.has (JsMap.delete (JsMap.set m k tt) k) id ≡ false
  unfolding JsMap.has
  delete-has m k id free =
      ground (arith, get-set m k tt id, get-delete (JsMap.set m k tt) k id, eq_iff k id)

  start_tool-After :
      (request : SupervisedToolRequest) (reason : String) (st : ExecutorState config)
      → IsEntered st
      → After (start_tool config request reason st)
  unfolding start_tool append After
  start_tool-After request reason st h =
      let free = h.free request.action_id in
      let began =
        begin_execute config.show config.hash_tool_call config.registry
          (member request.signal st.aborted) request.tool_name request.input st.budget st.world in
      elim (Result-cases began.0) [
        | inl (e, failed) ↦
            rw (free, failed)
              (record {
                active = h.active;
                idle = h.idle;
                free = λ id. delete-has st.controllers request.action_id id (h.free id);
              })
        | inr (r, ran) ↦
            rw (free, ran)
              (record {
                locked = h.active;
                owned = λ id has. (
                  record { request = request; controller_aborted = false; run = r },
                  refl,
                  set-has st.controllers request.action_id id (h.free id) has,
                );
              })
      ]

  consume_approval-IsEntered :
      (tick : Tick) (request : SupervisedToolRequest) (st : ExecutorState config)
      → IsEntered st
      → IsEntered (consume_approval config tick request st).1
  unfolding consume_approval append
  consume_approval-IsEntered tick request st h =
      keeps-IsEntered st _ (ground arith) (ground arith) (ground arith) h

  request_approval-After :
      (tick : Tick) (request : SupervisedToolRequest) (action : AgentAction) (reason : String)
      (st : ExecutorState config)
      → IsEntered st
      → After (request_approval config tick request action reason st)
  unfolding request_approval append After
  request_approval-After tick request action reason st h =
      let input = input_of config tick request st in
      elim (Result-cases (config.port.put st.approvals tick.at_put input).0) [
        | inl (e, failed) ↦ rw (failed, request_approval) (keeps-IsEntered st _ refl refl refl h)
        | inr (r, stored) ↦ rw (stored, request_approval) (keeps-IsEntered st _ refl refl refl h)
      ]

  allow-After :
      (tick : Tick) (request : SupervisedToolRequest) (reason : String) (st : ExecutorState config)
      → IsEntered st
      → After (allow config tick request reason st)
  unfolding allow After
  allow-After tick request reason st h =
      let h' = consume_approval-IsEntered tick request st h in
      elim (Result-cases (consume_approval config tick request st).0) [
        | inl (e, failed) ↦ rw (failed, allow) h'
        | inr (u, done) ↦ rw (done, allow) (start_tool-After request reason _ h')
      ]

  execute_unlocked-After :
      (tick : Tick) (request : SupervisedToolRequest) (st : ExecutorState config)
      → IsEntered st
      → After (execute_unlocked config tick request st)
  unfolding After deny append
  execute_unlocked-After tick request st h =
      execute_unlocked-elim config tick request st After (λ e. h)
        (keeps-IsEntered st _ refl refl refl h)
        (λ action reason yellow_risk unnamed.
          request_approval-After tick request action reason st h)
        (λ reason. keeps-IsEntered st _ refl refl refl h)
        (λ reason. allow-After tick request reason st h)

  released :
      (st : ExecutorState config) → IsEntered st → IsConsistent (record st { active = false })
  released st h = record { locked = rw h.idle; owned = λ id has. ground (arith, h.free id) }

  release-IsConsistent :
      (p : Begun × ExecutorState config) → After p → IsConsistent (release config p).1
  unfolding After release
  release-IsConsistent (started, st) h = h
  release-IsConsistent (refused e, st) h = released st h
  release-IsConsistent (replied r, st) h = released st h

  entered :
      (st : ExecutorState config)
      → IsConsistent st
      → st.active ≡ false
      → IsEntered (record st { active = true })
  entered st h idle =
      let still : st.running ≡ none = ground (arith, h.locked) in
      record {
        active = refl;
        idle = still;
        free = λ id. elim (Bool-cases (JsMap.has st.controllers id)) [
          | inr absent ↦ absent
          | inl present ↦ let (r, e, same) = h.owned id present in cc
        ];
      }

  execute-IsConsistent :
      (tick : Tick) (request : SupervisedToolRequest) (st : ExecutorState config)
      → IsConsistent st
      → IsConsistent (execute config tick request st).1
  unfolding execute
  execute-IsConsistent tick request st h =
      if_cases st.active (λ (p : Begun × ExecutorState config). IsConsistent p.1) (λ busy. h)
        (λ idle.
          release-IsConsistent (execute_unlocked config tick request (record st { active = true }))
            (execute_unlocked-After tick request _ (entered st h idle)))

  settle-IsConsistent :
      (duration : ℕ) (r : Running) (st : ExecutorState config)
      → st.running ≡ some r
      → IsConsistent st
      → IsConsistent (settle config duration r st).1
  unfolding settle append
  settle-IsConsistent duration r st running h =
      let free =
        λ (id : String)
            (has : JsMap.has (JsMap.delete st.controllers r.request.action_id) id ≡ true).
          let (present, other) = delete-has_inv st.controllers r.request.action_id id has in
          let (r', running', same) = h.owned id present in
          let same' : r' ≡ r = cc (running, running') in
          absurd (other (subst (λ (q : Running). q.request.action_id ≡ id) same' same)) in
      elim (Result-cases (finish_execute (is_aborted r st.aborted) r.run)) [
        | inl (e, failed) ↦
            rw (failed, settle) (record { locked = refl; owned = λ id has. free id has })
        | inr (x, done) ↦
            rw (done, settle) (record { locked = refl; owned = λ id has. free id has })
      ]

  approve-IsConsistent :
      (tick : Tick) (action_id : String) (st : ExecutorState config)
      → IsConsistent st
      → IsConsistent (approve_and_resume config tick action_id st).1
  unfolding approve_and_resume
  approve-IsConsistent tick action_id st h = elim (Option-cases (JsMap.get st.pending action_id)) [
    | inl e ↦ rw (e, approve_and_resume) h
    | inr (pending, e) ↦ elim (Result-cases (Manager.approve st.manager action_id).0) [
      | inl (x, f) ↦ rw (e, f, approve_and_resume) (same-IsConsistent st _ refl refl refl h)
      | inr (asked, f) ↦
          rw (e, f, approve_and_resume)
            (if_keeps (λ (p : Begun × ExecutorState config). IsConsistent p.1)
              (not (is_granted asked.approved)) (same-IsConsistent st _ refl refl refl h)
              (execute-IsConsistent tick _ _ (same-IsConsistent st _ refl refl refl h)))
    ]
  ]

  reject-IsConsistent :
      (action_id : String) (st : ExecutorState config)
      → IsConsistent st
      → IsConsistent (reject config action_id st).1
  unfolding reject
  reject-IsConsistent action_id st h =
      same-IsConsistent st _ (ground arith) (ground arith) (ground arith) h

  abort_running-same :
      (id : String) (o : Option Running) → is_some (abort_running config id o) ≡ is_some o
  unfolding abort_running
  abort_running-same id none = refl
  abort_running-same id (some r) = ground arith

  abort_running-request :
      (id : String) (o : Option Running) (r : Running)
      → o ≡ some r
      → (r' : Running) × (abort_running config id o ≡ some r')
        × (r'.request.action_id ≡ r.request.action_id)
  unfolding abort_running
  abort_running-request id o r e = elim (Bool-cases (str_eq r.request.action_id id)) [
    | inl same ↦ (record r { controller_aborted = true }, rw (e, abort_running, same), refl)
    | inr other ↦ (r, rw (e, abort_running, other), refl)
  ]

  cancel-IsConsistent :
      (operation_id : String) (st : ExecutorState config)
      → IsConsistent st
      → IsConsistent (cancel config operation_id st).1
  unfolding cancel
  cancel-IsConsistent operation_id st h =
      if_cases (JsMap.has st.controllers operation_id)
        (λ (p : Bool × ExecutorState config). IsConsistent p.1)
        (λ present. record {
          locked = h.locked ∙ sym (abort_running-same operation_id st.running);
          owned = λ id has.
              let (r, running, same) =
                h.owned id (delete-has_inv st.controllers operation_id id has).0 in
              let (r', running', same') = abort_running-request operation_id st.running r running in
              (r', running', same' ∙ same);
        })
        (λ absent. h)

  step-IsConsistent :
      (e : Event) (st : ExecutorState config) → IsConsistent st → IsConsistent (step config e st)
  unfolding step settle_running abort
  step-IsConsistent (executed tick request) st h = execute-IsConsistent tick request st h
  step-IsConsistent (settled duration) st h = elim (Option-cases st.running) [
    | inl e ↦ rw (e, settle_running) h
    | inr (r, e) ↦ rw (e, settle_running) (settle-IsConsistent duration r st e h)
  ]
  step-IsConsistent (approved tick action_id) st h = approve-IsConsistent tick action_id st h
  step-IsConsistent (rejected action_id) st h = reject-IsConsistent action_id st h
  step-IsConsistent (cancelled operation_id) st h = cancel-IsConsistent operation_id st h
  step-IsConsistent (aborted signal) st h = same-IsConsistent st _ refl refl refl h

  -- In every state that a consistent one leads to, the session lock is held exactly while a tool
  -- runs, and the only operation that has an abort controller is the one that runs.
  pub run-IsConsistent :
      (es : List Event) (st : ExecutorState config)
      → IsConsistent st
      → IsConsistent (run config es st)
  unfolding run
  run-IsConsistent [] st h = h
  run-IsConsistent (e ∷ es) st h = run-IsConsistent es (step config e st) (step-IsConsistent e st h)
