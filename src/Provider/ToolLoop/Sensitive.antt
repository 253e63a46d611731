-- ===== src/Provider/ToolLoop/Sensitive.antt =====
-- What the provider's tool loop does with an input that the content filter blocks.
use toni_ai_agent.Common.{
  ℕ, Bool, true, false, any, Option, List, [], ◌∷◌, String, ◌≡◌, refl, arith,
}
use toni_ai_agent.Types.{err}
use toni_ai_agent.Privacy.ContentFilter.{is_sensitive, filter-is_sensitive}
use toni_ai_agent.Provider.Messages.{
  FunctionToolSpec, AgentContentPart, input_text, input_image, input_file, AgentInput, text, parts,
}
use toni_ai_agent.Provider.ToolLoop.{
  ToolLoop, Host, LoopState, run, to_responses_input, filter_parts, sensitive_error,
}

-- A text of the input matches a pattern of the content filter.
abbrev pub part_is_sensitive : AgentContentPart → Bool
part_is_sensitive (input_text t) = is_sensitive t
part_is_sensitive _ = false

abbrev pub input_is_sensitive : AgentInput → Bool
input_is_sensitive (text t) = is_sensitive t
input_is_sensitive (parts ps) = any part_is_sensitive ps

filter_parts-sensitive :
    (ps : List AgentContentPart)
    → any part_is_sensitive ps ≡ true
    → filter_parts ps ≡ err sensitive_error
unfolding filter_parts
filter_parts-sensitive [] h = absurd cc
filter_parts-sensitive (input_text t ∷ ps) h =
    ground (arith, h, (filter-is_sensitive t).0, filter_parts-sensitive ps)
filter_parts-sensitive (input_image url detail ∷ ps) h = ground (arith, filter_parts-sensitive ps h)
filter_parts-sensitive (input_file name content ∷ ps) h =
    ground (arith, filter_parts-sensitive ps h)

to_responses_input-sensitive :
    (input : AgentInput)
    → input_is_sensitive input ≡ true
    → to_responses_input input ≡ err sensitive_error
unfolding to_responses_input
to_responses_input-sensitive (text t) h = ground (arith, h, (filter-is_sensitive t).0)
to_responses_input-sensitive (parts ps) h = ground (arith, filter_parts-sensitive ps h)

-- An input with a text in which a pattern of the content filter matches is refused, before the
-- provider is asked, a tool is called or a budget is charged.
pub run-sensitive_error :
    {W : Type 0} (host : Host W) (loop : ToolLoop) (show : ℕ → String)
    (tools : List FunctionToolSpec) (input : AgentInput) (instructions previous : Option String)
    (st : LoopState W)
    → input_is_sensitive input ≡ true
    → run host loop show tools input instructions previous st ≡ (err sensitive_error, st)
unfolding run
run-sensitive_error host loop show tools input instructions previous st h =
    rw (to_responses_input-sensitive input h, run) refl
