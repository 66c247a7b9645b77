-- ===== src/Json.antt =====
-- ArduinoJson, which is not part of the repository, as an interface: the accessors that the program
-- calls on a parsed document. `J.text v` is `v.as<const char*>()`, none where `v` is no string.
use espos_p4_cockpit.Prelude.{ℕ, String, Bool, List, Option}

pub record JsonLib : Type 1 where
  pub Json : Type 0
  pub deserialize : String → Option Json
  pub is_null : Json → Bool
  pub member : Json → String → Json
  pub elements : Json → List Json
  pub text : Json → Option String
  pub number : Json → Option ℕ
  pub truth : Json → Option Bool
