-- ===== src/Provider/Exchange.antt =====
-- What the tool loop of agent/providers/OpenAIToolLoop.ts is made of, what it stands on, and what it
-- makes of an input and of a tool's result. The provider's client and the tool executor are a `Host`
-- that acts on a state of its own.
use toni_ai_agent.Common.{
  ℕ, false, not, ◌||◌, Option, none, some, List, [], ◌∷◌, ltb, is_some, String, str_eq,
  if◌then◌else◌,
}
use toni_ai_agent.Types.{Result, ok, err, Thrown, agent_error, plain_error, model_failed}
use toni_ai_agent.Types.Json.{Json, str, obj, property}
use toni_ai_agent.Types.ToolCall.{ToolExecutionContext, ToolExecutionResult}
use toni_ai_agent.Limits.CostBudget.{CostBudget}
use toni_ai_agent.Limits.ProviderBudget.{ProviderBudget}
use toni_ai_agent.Privacy.ContentFilter.{filter_sensitive_content}
use toni_ai_agent.Provider.Messages.{
  AgentContentPart, input_text, AgentInput, text, parts, FunctionCallOutput, ResponsesInput, plain,
  user_message, ResponseRequest, Response, ToolLoopResult,
}

-- What `new OpenAIToolLoop` is given; a variable of the environment that is not set is `none`, and a
-- timeout there that is no natural number is `some none`.
pub record Options : Type 0 where
  pub api_key : Option String
  pub env_model : Option String
  pub env_timeout : Option (Option ℕ)
  pub model : Option String
  pub max_turns : Option ℕ
  pub provider_timeout_ms : Option ℕ

pub record ToolLoop : Type 0 where
  pub model : String
  pub max_turns : ℕ
  pub provider_timeout_ms : ℕ

-- `left ?? right`
unfoldable pub or_else {ℓ} : {A : Type ℓ} → Option A → A → A
or_else none other = other
or_else (some a) other = a

-- `value ? { value } : {}` of a text
unfoldable pub non_empty : Option String → Option String
non_empty none = none
non_empty (some t) = if str_eq t "" then none else some t

unfoldable pub create : Options → Result ToolLoop
unfolding or_else non_empty
create o =
    let timeout =
      or_else {A = ℕ}
        (elim o.provider_timeout_ms [
          | some ms ↦ some ms
          | none ↦ elim o.env_timeout [ none ↦ some 60000 | some read ↦ read ]
        ])
        0 in
    if not (is_some (non_empty o.api_key))
    then err (plain_error "OPENAI_API_KEY is not configured")
    else if ltb timeout 1000 || ltb 300000 timeout
    then err (plain_error "Invalid provider timeout.")
    else ok (record {
      model = or_else o.model (or_else o.env_model "gpt-5.6-luna");
      max_turns = or_else o.max_turns 8;
      provider_timeout_ms = timeout;
    })

-- what `client.responses.create` comes to
pub data Reply : Type 0 where
  answered : Response → Reply
  timed_out : Reply
  request_failed : Reply

pub record Host (W : Type 0) : Type 0 where
  pub respond : ResponseRequest → ℕ → W → Reply × W
  pub execute : ToolExecutionContext → W → Result ToolExecutionResult × W
  pub stringify : ToolExecutionResult → String

-- The budgets and the host's state.
pub record LoopState (W : Type 0) : Type 0 where
  pub cost_budget : Option CostBudget
  pub provider_budget : Option ProviderBudget
  pub world : W

unfoldable pub sensitive_error : Thrown
sensitive_error =
    agent_error model_failed "Sensitive content was blocked before model processing." false

-- the content of a message, or the error of a text that is blocked
unfoldable pub filter_parts : List AgentContentPart → Result (List AgentContentPart)
unfolding sensitive_error
filter_parts [] = ok []
filter_parts (input_text t ∷ rest) =
    let others = filter_parts rest in
    if (filter_sensitive_content t).blocked then err sensitive_error else elim others [
      | err e ↦ err e
      | ok ps ↦ ok (input_text (filter_sensitive_content t).value ∷ ps)
    ]
filter_parts (part ∷ rest) = elim (filter_parts rest) [ err e ↦ err e | ok ps ↦ ok (part ∷ ps) ]

-- `toResponsesInput`
unfoldable pub to_responses_input : AgentInput → Result ResponsesInput
unfolding filter_parts sensitive_error
to_responses_input (text t) =
    if (filter_sensitive_content t).blocked
    then err sensitive_error
    else ok (plain (filter_sensitive_content t).value)
to_responses_input (parts ps) = elim (filter_parts ps) [
  | err e ↦ err e
  | ok content ↦ ok (user_message content)
]

-- `isApprovalRequired`, with the identifier that it finds
unfoldable pub approval_required_by : Option Json → Option String
unfolding property
approval_required_by (some (obj members)) = elim (property members "status") [
  | some (str status) ↦
      if str_eq status "approval_required"
      then elim (property members "actionId") [ some (str id) ↦ some id | _ ↦ none ]
      else none
  | _ ↦ none
]
approval_required_by _ = none

-- the `action` that a result asks a person for, if it is not approved
unfoldable pub waits_for : ToolExecutionResult → Option String
unfolding approval_required_by
waits_for r = if not r.approved then approval_required_by r.output else none

unfoldable pub approval_text : String
approval_text = "Hyväksyntä tarvitaan ennen tämän toiminnon suorittamista."

-- What the calls of a response come to: their outputs with the number of calls so far, a call that
-- waits for an approval, or an error of the executor.
pub data Outcome : Type 0 where
  all_done : List FunctionCallOutput → ℕ → Outcome
  waiting : ToolLoopResult → Outcome
  threw : Thrown → Outcome
