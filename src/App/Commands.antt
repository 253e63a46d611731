-- ===== src/App/Commands.antt =====
-- `parseSessionInput` of app/InteractiveSession.ts; `lower` stands for `toLowerCase`.
use Prim.Native.Char.{code}
use Prim.Native.String.{◌++◌ as ◌+++◌}
use toni_ai_agent.Common.{
  Bool, false, ◌||◌, Option, none, some, List, [], ◌∷◌, String, str_eq, if◌then◌else◌,
}
use toni_ai_agent.Common.Text.{is_space, trim, starts_with}

pub data SessionCommand : Type 0 where
  empty help reset status approvals exit : SessionCommand
  approve_command : Option String → SessionCommand
  reject_command : Option String → SessionCommand
  model_command : Option String → SessionCommand
  request : String → SessionCommand

unfoldable pub begins_with_space : String → Bool
unfolding is_space
begins_with_space String.[] = false
begins_with_space (String.◌∷◌ c s) = is_space (code c)

-- The word that a character begins, before the words that follow.
unfoldable pub onto_first : String → List String → List String
onto_first start [] = start ∷ []
onto_first start (word ∷ words) = (start +++ word) ∷ words

-- `text.split(/\s+/)`
unfoldable pub split_spaces : String → List String
unfolding begins_with_space onto_first is_space
split_spaces String.[] = "" ∷ []
split_spaces (String.◌∷◌ c s) =
    let rest = split_spaces s in
    if is_space (code c)
    then if begins_with_space s then rest else "" ∷ rest
    else onto_first (String.◌∷◌ c String.[]) rest

-- `words.join(separator)`
unfoldable pub join : String → List String → String
join separator [] = ""
join separator (word ∷ []) = word
join separator (word ∷ next ∷ words) = word +++ separator +++ join separator (next ∷ words)

-- `value.slice(1)`
unfoldable pub without_first : String → String
without_first String.[] = ""
without_first (String.◌∷◌ c s) = s

-- `args[0] ? { actionId: args[0] } : {}`
unfoldable pub first_argument : List String → Option String
first_argument [] = none
first_argument (word ∷ words) = if str_eq word "" then none else some word

-- `args.length ? { value: args.join(" ") } : {}`
unfoldable pub all_arguments : List String → Option String
unfolding join
all_arguments [] = none
all_arguments (word ∷ words) = some (join " " (word ∷ words))

module _ (lower : String → String) where
  unfoldable pub command_of : String → List String → SessionCommand
  unfolding first_argument all_arguments
  command_of value [] = request value
  command_of value (word ∷ args) =
      let command = lower word in
      if str_eq command "help"
      then help
      else if str_eq command "reset"
      then reset
      else if str_eq command "status"
      then status
      else if str_eq command "approvals"
      then approvals
      else if str_eq command "approve"
      then approve_command (first_argument args)
      else if str_eq command "reject"
      then reject_command (first_argument args)
      else if str_eq command "exit" || str_eq command "quit"
      then exit
      else if str_eq command "model"
      then model_command (all_arguments args)
      else request value

  unfoldable pub parse_session_input : String → SessionCommand
  unfolding command_of split_spaces without_first trim
  parse_session_input input =
      let value = trim input in
      if str_eq value ""
      then empty
      else if starts_with value "/"
      then command_of value (split_spaces (without_first value))
      else request value
