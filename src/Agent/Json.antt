-- ===== src/Agent/Json.antt =====
-- The JSON library, a parameter of the agent.
use open_crank.Prelude.{Bytes, ◌⊎◌, Bool, Option, List}

-- The operations of `nlohmann::json` that the agent calls. `parse` gives a value or the text of the
-- exception; `string_at` is `value(key, "")`, which throws, `none`, when the key holds no string;
-- `null` is a value that was never assigned.
pub record JsonLib : Type 1 where
  pub Json : Type 0
  pub parse : Bytes → Json ⊎ Bytes
  pub is_object : Json → Bool
  pub is_string : Json → Bool
  pub contains : Json → Bytes → Bool
  pub at : Json → Bytes → Json
  pub string_at : Json → Bytes → Option Bytes
  pub get_string : Json → Bytes
  pub items : Json → List (Bytes × Json)
  pub empty_object : Json
  pub null : Json
  pub set : Json → Bytes → Json → Json
  pub of_string : Bytes → Json
  pub dump : Json → Bytes
