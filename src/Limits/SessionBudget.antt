-- ===== src/Limits/SessionBudget.antt =====
-- agent/limits/SessionBudget.ts. The limit is a natural number.
use Prim.Native.String.{◌++◌ as ◌+++◌}
use toni_ai_agent.Common.{ℕ, ◌+◌, ◌-◌, ltb, leb, String, if◌then◌else◌}
use toni_ai_agent.Types.{Result, ok, err, plain_error}

pub record SessionBudget : Type 0 where
  pub max_tool_calls : ℕ
  pub tool_calls : ℕ

unfoldable pub create : ℕ → Result SessionBudget
create max_tool_calls =
    if ltb max_tool_calls 1
    then err (plain_error "Session tool-call budget must be a positive integer.")
    else ok (record { max_tool_calls = max_tool_calls; tool_calls = 0 })

-- `show` stands for the host's text of a number.
unfoldable pub consume_tool_call : (ℕ → String) → SessionBudget → Result (Unit {0}) × SessionBudget
consume_tool_call show b =
    if leb b.max_tool_calls b.tool_calls
    then (
      err (plain_error ("Session tool-call budget exceeded (" +++ show b.max_tool_calls +++ ").")),
      b,
    )
    else (ok tt, record b { tool_calls = b.tool_calls + 1 })

unfoldable pub get_tool_calls : SessionBudget → ℕ
get_tool_calls b = b.tool_calls

unfoldable pub get_remaining : SessionBudget → ℕ
get_remaining b = b.max_tool_calls - b.tool_calls
