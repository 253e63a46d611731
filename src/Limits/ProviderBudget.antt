-- ===== src/Limits/ProviderBudget.antt =====
-- agent/limits/ProviderBudget.ts. The limit is a natural number.
use toni_ai_agent.Common.{ℕ, ◌+◌, ◌-◌, ltb, leb, if◌then◌else◌}
use toni_ai_agent.Types.{Result, ok, err, plain_error}

pub record ProviderBudget : Type 0 where
  pub max_requests : ℕ
  pub requests : ℕ

unfoldable pub create : ℕ → Result ProviderBudget
create max_requests =
    if ltb max_requests 1
    then err (plain_error "maxRequests must be a positive integer.")
    else ok (record { max_requests = max_requests; requests = 0 })

unfoldable pub consume : ProviderBudget → Result (Unit {0}) × ProviderBudget
consume b =
    if leb b.max_requests b.requests
    then (err (plain_error "Provider request budget exceeded."), b)
    else (ok tt, record b { requests = b.requests + 1 })

unfoldable pub get_used : ProviderBudget → ℕ
get_used b = b.requests

unfoldable pub get_remaining : ProviderBudget → ℕ
get_remaining b = b.max_requests - b.requests
