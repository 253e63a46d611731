-- ===== src/Executor/Budget.antt =====
-- The tool calls of a session stay within its budget.
use toni_ai_agent.Common.{◌≤◌}
use toni_ai_agent.Common.JsMap
use toni_ai_agent.Approval.Manager
use toni_ai_agent.Executor.Request.{Config, ExecutorState}

module _ {World : Type 0} (config : Config World) where
  -- No more tools have been called than the budget has been charged for, and the budget has not been
  -- overdrawn.
  pub record IsWithin (st : ExecutorState config) : Type 0 where
    pub charged : st.metrics.tool_calls_total ≤ st.budget.tool_calls
    pub bounded : st.budget.tool_calls ≤ st.budget.max_tool_calls
