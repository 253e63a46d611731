-- ===== src/Limits.antt =====
-- The budgets of agent/limits: tool calls, provider requests and model costs.
pub mod SessionBudget
pub mod ProviderBudget
pub mod CostBudget
