-- ===== src/Controls.antt =====
-- The widgets of main/jlp/widgets/widget_factory.cpp that send, and what a button sends for the
-- JSON text of a value. The casts of numbers are those of Fetch.
pub mod Button
pub mod Toggle
pub mod Brightness
pub mod Talk
use espos_p4_cockpit.Prelude.{String, Bool, Option, some, none, List, [], ◌∷◌, ◌=s◌, if◌then◌else◌}
use espos_p4_cockpit.Json.{JsonLib}
use espos_p4_cockpit.Fetch.{Numbers}

module _ (J : JsonLib) (V : Numbers J) where
  open J use {Json, deserialize, is_null, text}
  open V use {Real, Whole, as_bool, as_int, as_float}

  -- A call of a function of main/jlp/net/sk_put.cpp, or of drop_anchor_here().
  pub data Sent : Type 0 where
    puts_null : String → Sent
    puts_bool : String → Bool → Sent
    puts_int : String → Whole → Sent
    puts_float : String → Real → Sent
    puts_string : String → String → Sent
    drops_anchor : Sent

  unfoldable pub put_json_value : String → Json → List Sent
  put_json_value path v = if is_null v then puts_null path ∷ [] else elim (as_bool v) [
    | some b ↦ puts_bool path b ∷ []
    | none ↦ elim (as_int v) [
      | some i ↦ puts_int path i ∷ []
      | none ↦ elim (as_float v) [
        | some f ↦ puts_float path f ∷ []
        | none ↦ elim (text v) [ some s ↦ puts_string path s ∷ [] | none ↦ [] ]
      ]
    ]
  ]

  unfoldable pub button_fire : String → String → Bool → List Sent
  unfolding put_json_value
  button_fire path json is_press =
      if path =s "@drop_here"
      then (if is_press then drops_anchor ∷ [] else [])
      else if json =s ""
      then []
      else elim (deserialize json) [ none ↦ [] | some v ↦ put_json_value path v ]
