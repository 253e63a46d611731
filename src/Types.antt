-- ===== src/Types.antt =====
-- The types that the agent's parts share: agent/types.ts, agent/errors/AgentError.ts and the JSON
-- values of tool inputs.
pub mod Json
pub mod ToolCall
use toni_ai_agent.Common.{Bool, Option, String, true, false, ◌≡◌, ◌⊎◌, inl, inr, refl}

pub data Risk : Type 0 where
  green yellow red : Risk

pub data AgentMode : Type 0 where
  coding school research computer : AgentMode

pub record AgentAction : Type 0 where
  pub id : String
  pub tool : String
  pub operation : String
  pub description : String
  pub risk : Risk
  pub requires_approval : Bool
  pub created_at : String

pub record ApprovalRequest : Type 0 where
  pub action : AgentAction
  pub reason : String
  pub approved : Option Bool

pub record AgentContext : Type 0 where
  pub mode : AgentMode
  pub workspace : Option String
  pub user_request : String
  pub user_id : Option String

pub data AgentErrorCode : Type 0 where
  tool_failed tool_input_invalid cancelled budget_exceeded : AgentErrorCode
  approval_expired approval_required permission_denied model_failed : AgentErrorCode

-- What the code throws: an `AgentError` with its code, message and `retryable`, or a plain `Error`.
pub data Thrown : Type 0 where
  agent_error : AgentErrorCode → String → Bool → Thrown
  plain_error : String → Thrown

-- `error.message`
unfoldable pub message_of : Thrown → String
message_of (agent_error code message retryable) = message
message_of (plain_error message) = message

-- `risk === "green"` and so on
abbrev pub is_green : Risk → Bool
is_green green = true
is_green _ = false

abbrev pub is_yellow : Risk → Bool
is_yellow yellow = true
is_yellow _ = false

abbrev pub is_red : Risk → Bool
is_red red = true
is_red _ = false

abbrev pub is_school : AgentMode → Bool
is_school school = true
is_school _ = false

-- A call that may throw.
pub data Result {ℓ} (A : Type ℓ) : Type ℓ where
  ok : A → Result A
  err : Thrown → Result A

pub Result-cases {ℓ} :
    {A : Type ℓ} (r : Result A) → ((e : Thrown) × (r ≡ err e)) ⊎ ((a : A) × (r ≡ ok a))
Result-cases (ok a) = inr (a, refl)
Result-cases (err e) = inl (e, refl)

-- What holds of both branches of a case analysis of a result holds of it.
pub result_cases {ℓ κ μ} :
    {A : Type ℓ} {B : Type κ} {n : Thrown → B} {f : A → B} (r : Result A) (P : B → Type μ)
    → ((e : Thrown) → r ≡ err e → P (n e))
    → ((a : A) → r ≡ ok a → P (f a))
    → P (elim r [ err e ↦ n e | ok a ↦ f a ])
result_cases (err e) P p q = p e refl
result_cases (ok a) P p q = q a refl
