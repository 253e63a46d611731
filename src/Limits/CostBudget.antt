-- ===== src/Limits/CostBudget.antt =====
-- agent/limits/CostBudget.ts. Token counts are natural numbers, and so are the costs, in a unit of
-- which every price is a multiple: the sums and comparisons of the source are exact here.
use toni_ai_agent.Common.{ℕ, ◌+◌, ltb, ◌==◌, ◌||◌, if◌then◌else◌}
use toni_ai_agent.Types.{Result, ok, err, plain_error}

pub record UsageCost : Type 0 where
  pub input_tokens : ℕ
  pub output_tokens : ℕ
  pub estimated_usd : ℕ

pub record CostBudget : Type 0 where
  pub max_input_tokens : ℕ
  pub max_output_tokens : ℕ
  pub max_usd : ℕ
  pub used : UsageCost

unfoldable pub create : ℕ → ℕ → ℕ → Result CostBudget
create max_input max_output max_usd =
    if ltb max_input 1 || (ltb max_output 1 || max_usd == 0)
    then err (plain_error "Invalid cost budget.")
    else ok (record {
      max_input_tokens = max_input;
      max_output_tokens = max_output;
      max_usd = max_usd;
      used = record { input_tokens = 0; output_tokens = 0; estimated_usd = 0 };
    })

unfoldable pub consume : UsageCost → CostBudget → Result (Unit {0}) × CostBudget
consume usage b =
    let next : UsageCost = record {
      input_tokens = b.used.input_tokens + usage.input_tokens;
      output_tokens = b.used.output_tokens + usage.output_tokens;
      estimated_usd = b.used.estimated_usd + usage.estimated_usd;
    } in
    if ltb b.max_input_tokens next.input_tokens
      || (ltb b.max_output_tokens next.output_tokens || ltb b.max_usd next.estimated_usd)
    then (err (plain_error "Session cost budget exceeded."), b)
    else (ok tt, record b { used = next })

unfoldable pub snapshot : CostBudget → UsageCost
snapshot b = b.used
