-- ===== src/Sandbox/Commands.antt =====
-- `parseCommand` of agent/sandbox/TerminalExecutor.ts. Lengths count code points.
use Prim.Native.Char.{code}
use Prim.Native.String.{◌++◌ as ◌+++◌}
use toni_ai_agent.Common.{
  ℕ, Bool, true, false, not, ◌&&◌, ◌||◌, Option, none, some, List, [], ◌∷◌, ◌++◌, any, length,
  is_some, ltb, ◌==◌, String, str_eq, if◌then◌else◌,
}
use toni_ai_agent.Common.Text.{codes, is_space, trim}

pub record ParseState : Type 0 where
  pub args : List String
  pub current : String
  pub quote : Option ℕ
  pub escaping : Bool
  pub token_started : Bool

unfoldable pub start_state : ParseState
start_state = record {
  args = [];
  current = "";
  quote = none;
  escaping = false;
  token_started = false;
}

-- `quote !== "'"`
unfoldable pub not_single : Option ℕ → Bool
not_single none = true
not_single (some q) = not (q == 39)

-- a character inside a quote
unfoldable pub quoted : ℕ → ℕ → String → ParseState → ParseState
quoted q c char st =
    if c == q
    then record st { quote = none; token_started = true }
    else record st { current = st.current +++ char; token_started = true }

-- a character outside quotes and escapes
unfoldable pub unquoted : ℕ → String → ParseState → ParseState
unfolding is_space
unquoted c char st =
    if (c == 39) || (c == 34)
    then record st { quote = some c; token_started = true }
    else if is_space c
    then if st.token_started
      then record st { args = st.args ++ (st.current ∷ []); current = ""; token_started = false }
      else st
    else record st { current = st.current +++ char; token_started = true }

-- the body of the loop
unfoldable pub parse_step : ℕ → String → ParseState → ParseState
unfolding not_single quoted unquoted
parse_step c char st =
    if st.escaping
    then record st { current = st.current +++ char; escaping = false; token_started = true }
    else if (c == 92) && not_single st.quote
    then record st { escaping = true; token_started = true }
    else elim st.quote [ some q ↦ quoted q c char st | none ↦ unquoted c char st ]

unfoldable pub parse_loop : String → ParseState → ParseState
unfolding parse_step
parse_loop String.[] st = st
parse_loop (String.◌∷◌ c s) st = parse_loop s (parse_step (code c) (String.◌∷◌ c String.[]) st)

-- what the loop leaves, with the token that is still open
unfoldable pub last_args : ParseState → List String
last_args st =
    if st.escaping || is_some st.quote || st.token_started
    then st.args ++ (st.current ∷ [])
    else st.args

unfoldable pub parse_command : String → Option (List String)
unfolding parse_loop start_state last_args codes trim
parse_command command =
    let input = trim command in
    let st = parse_loop input start_state in
    let args = last_args st in
    if str_eq input "" || ltb 4096 (length (codes input))
    then none
    else if is_some st.quote
        || ((length args == 0)
            || (ltb 64 (length args) || any (λ a. ltb 4096 (length (codes a))) args))
    then none
    else some args
