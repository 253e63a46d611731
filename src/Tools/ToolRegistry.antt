-- ===== src/Tools/ToolRegistry.antt =====
-- agent/tools/ToolRegistry.ts. `World` is what tools act on; a tool that is run returns the outcome
-- of its promise and the world that it leaves.
use Prim.Native.String.{◌++◌ as ◌+++◌}
use toni_ai_agent.Common.{
  Bool, false, not, ◌&&◌, ◌||◌, ℕ, Option, none, some, List, [], ◌∷◌, String, leb, ◌==◌, length,
  all, if◌then◌else◌,
}
use toni_ai_agent.Common.Text.{codes}
use toni_ai_agent.Common.JsMap
use toni_ai_agent.Common.JsMap.{JsMap}
use toni_ai_agent.Types.{Risk, Result, ok, err, plain_error, Thrown}
use toni_ai_agent.Types.Json.{Json}

pub data ToolOutcome : Type 0 where
  returned : Json → ToolOutcome
  threw : Thrown → ToolOutcome

pub record ToolDefinition (World : Type 0) : Type 0 where
  pub name : String
  pub description : String
  pub risk : Risk
  pub validate_input : Option (Json → Result Json)
  pub execute : Json → World → ToolOutcome × World

abbrev pub ToolRegistry : Type 0 → Type 0
ToolRegistry World = JsMap (ToolDefinition World)

is_small : ℕ → Bool
is_small c = leb 97 c && leb c 122

is_name_char : ℕ → Bool
unfolding is_small
is_name_char c = is_small c || ((leb 48 c && leb c 57) || (c == 95))

name_codes_ok : List ℕ → Bool
unfolding is_small is_name_char
name_codes_ok [] = false
name_codes_ok (c ∷ s) =
    is_small c && (all is_name_char s && (leb 1 (length s) && leb (length s) 63))

-- `/^[a-z][a-z0-9_]{1,63}$/.test(name)`
unfoldable pub is_tool_name : String → Bool
unfolding name_codes_ok codes
is_tool_name name = name_codes_ok (codes name)

module _ {World : Type 0} where
  unfoldable pub register :
      ToolRegistry World → ToolDefinition World → Result (Unit {0}) × ToolRegistry World
  register tools tool =
      if not (is_tool_name tool.name)
      then (err (plain_error ("Invalid tool name: " +++ tool.name)), tools)
      else if JsMap.has tools tool.name
      then (err (plain_error ("Tool already registered: " +++ tool.name)), tools)
      else (ok tt, JsMap.set tools tool.name tool)

  unfoldable pub get : ToolRegistry World → String → Result (ToolDefinition World)
  get tools name = elim (JsMap.get tools name) [
    | none ↦ err (plain_error ("Tool not found: " +++ name))
    | some tool ↦ ok tool
  ]

  unfoldable pub get_risk : ToolRegistry World → String → Result Risk
  unfolding get
  get_risk tools name = elim (get tools name) [ ok tool ↦ ok tool.risk | err e ↦ err e ]

  unfoldable pub list : ToolRegistry World → List (ToolDefinition World)
  list tools = JsMap.values tools
