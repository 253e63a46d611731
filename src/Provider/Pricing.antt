-- ===== src/Provider/Pricing.antt =====
-- agent/providers/ModelPricing.ts. A cost is counted in units of a ten-millionth of a dollar: each
-- price is a whole number of them for a token, so that the sum is exact here.
use Prim.Native.String.{◌++◌ as ◌+++◌}
use toni_ai_agent.Common.{ℕ, ◌+◌, ◌*◌, none, some, [], ◌∷◌, String}
use toni_ai_agent.Common.JsMap.{JsMap, get}
use toni_ai_agent.Types.{Result, ok, err, plain_error}

pub record ModelPricing : Type 0 where
  pub input_per_token : ℕ
  pub output_per_token : ℕ

abbrev pub pricing : JsMap ModelPricing
pricing =
    ("gpt-5.6-luna", record { input_per_token = 2; output_per_token = 12 })
    ∷ ("gpt-5.6-terra", record { input_per_token = 20; output_per_token = 120 })
    ∷ ("gpt-5.6-sol", record { input_per_token = 40; output_per_token = 200 })
    ∷ []

unfoldable pub estimate_model_cost : String → ℕ → ℕ → Result ℕ
unfolding get
estimate_model_cost model input_tokens output_tokens = elim (get pricing model) [
  | none ↦ err (plain_error ("No pricing configured for model: " +++ model))
  | some p ↦ ok (input_tokens * p.input_per_token + output_tokens * p.output_per_token)
]
