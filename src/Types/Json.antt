-- ===== src/Types/Json.antt =====
-- JSON values, as `JSON.parse` returns them. A number stands as the text that JSON gives it.
use toni_ai_agent.Common.{Bool, Option, none, some, String, str_eq, if◌then◌else◌}

mutual
  pub data Json : Type 0 where
    null : Json
    bool : Bool → Json
    num : String → Json
    str : String → Json
    arr : Items → Json
    obj : Members → Json

  pub data Items : Type 0 where
    nil : Items
    cons : Json → Items → Items

  pub data Members : Type 0 where
    end : Members
    member : String → Json → Members → Members

-- `value[key]` on an object's own properties. Of two members with one key the later one counts.
unfoldable pub property : Members → String → Option Json
property end key = none
property (member k v rest) key = elim (property rest key) [
  | some w ↦ some w
  | none ↦ if str_eq k key then some v else none
]
