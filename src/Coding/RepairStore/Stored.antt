-- ===== src/Coding/RepairStore/Stored.antt =====
-- What the store of agent/coding/RepairSessionStore.ts gives back of what it was given.
use toni_ai_agent.Common.{
  ◌≤◌, Option, none, some, String, str_eq, eq_refl, eq_iff, if◌then◌else◌, ◌≡◌, ◌≢◌, refl, arith,
  is_some, Bool-cases, inl, inr, subst, sym,
}
use toni_ai_agent.Types.{Thrown}
use toni_ai_agent.Coding.RepairSession.{
  RepairSessionState, verifying, needs_repair, waiting_approval, repairing, succeeded, failed,
  rejected, RepairSessionSnapshot,
}
use toni_ai_agent.Coding.RepairStore.{
  StoredFile, state_text, read_state, non_empty, safe_option, sanitize_verification, sanitize_plan,
  sanitize_approval, map_option, payload, save, is_given, is_named, restored, load_from, load,
}

-- What a snapshot is once it has been stored: without output, with its texts made safe, and without
-- a reason that is empty.
unfoldable pub stored : RepairSessionSnapshot → RepairSessionSnapshot
unfolding sanitize_verification sanitize_plan sanitize_approval map_option safe_option non_empty
stored s = record {
  state = s.state;
  attempt = s.attempt;
  verification = map_option sanitize_verification s.verification;
  repair_plan = map_option sanitize_plan s.repair_plan;
  approval = map_option sanitize_approval s.approval;
  reason = non_empty (safe_option (non_empty s.reason));
}

read_state-state_text : (state : RepairSessionState) → read_state (state_text state) ≡ some state
unfolding read_state state_text
read_state-state_text verifying = refl
read_state-state_text needs_repair = refl
read_state-state_text waiting_approval = refl
read_state-state_text repairing = refl
read_state-state_text succeeded = refl
read_state-state_text failed = refl
read_state-state_text rejected = refl

load_from-payload :
    (now session_id : String) (s : RepairSessionSnapshot)
    → 1 ≤ s.attempt
    → load_from session_id (payload now session_id s) ≡ some (stored s)
unfolding load_from payload is_given is_named restored stored
load_from-payload now session_id s h =
    ground (arith, eq_refl session_id, read_state-state_text s.state, h)

load_from-other :
    (now session_id other : String) (s : RepairSessionSnapshot)
    → other ≢ session_id
    → load_from other (payload now session_id s) ≡ none
unfolding load_from payload is_given is_named
load_from-other now session_id other s h = ground (arith, eq_iff session_id other, h)

-- What is saved for a session is loaded for it, as it is stored, and for no other session; a save
-- that fails leaves what every session loads.
pub load-save :
    (failure : Option Thrown) (now session_id : String) (s : RepairSessionSnapshot)
    (file : StoredFile) (reader : String)
    → 1 ≤ s.attempt
    → load reader (save failure now session_id s file).1 ≡ (
        if is_some failure
        then load reader file
        else if str_eq reader session_id
        then some (stored s)
        else none)
unfolding load save
load-save (some e) now session_id s file reader h = refl
load-save none now session_id s file reader h = elim (Bool-cases (str_eq reader session_id)) [
  | inl e ↦ rw e (
      subst (λ r. load_from r (payload now session_id s) ≡ some (stored s))
        (sym ((eq_iff reader session_id).0 e)) (load_from-payload now session_id s h))
  | inr e ↦
      rw e (load_from-other now session_id reader s (ground (arith, eq_iff reader session_id, e)))
]
