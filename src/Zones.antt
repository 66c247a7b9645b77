-- ===== src/Zones.antt =====
-- main/jlp/zone_registry.{h,cpp}: SignalK metadata zones and descriptions by path, and the colour of a
-- zone state. Zones are in raw units. The LVGL notification of apply_meta() is its second result.
pub mod Match
pub mod Meta
use espos_p4_cockpit.Prelude.{
  ℕ, String, Bool, true, false, not, ◌&&◌, ◌||◌, List, [], ◌∷◌, map, Option, none, some,
  if◌then◌else◌, or_else, is_some, ◌=s◌,
}
use espos_p4_cockpit.Prelude.Dict.{Dict, lookup, insert}
use espos_p4_cockpit.Json.{JsonLib}
use espos_p4_cockpit.Float.{FloatLib}

pub data ZoneState : Type 0 where
  nominal normal alert warn alarm emergency : ZoneState

unfoldable pub parse_state : Option String → ZoneState
parse_state none = normal
parse_state (some s) =
    if s =s "nominal"
    then nominal
    else if s =s "normal"
    then normal
    else if s =s "alert"
    then alert
    else if s =s "warn"
    then warn
    else if s =s "alarm"
    then alarm
    else if s =s "emergency"
    then emergency
    else normal

unfoldable pub color_for_state : ZoneState → ℕ
color_for_state nominal = 0x3fb950
color_for_state normal = 0x3fb950
color_for_state alert = 0xd29922
color_for_state warn = 0xdb6d28
color_for_state alarm = 0xf85149
color_for_state emergency = 0xa371f7

-- `desc && *desc`.
abbrev pub is_given : Option String → Bool
is_given none = false
is_given (some d) = not (d =s "")

module _ (F : FloatLib) where
  open F use {Float, lt, le, eq, minus_huge, huge}

  pub record Zone : Type 0 where
    pub lower : Float
    pub upper : Float
    pub state : ZoneState

  pub record Registry : Type 0 where
    pub zones : Dict (List Zone)
    pub descriptions : Dict String

  -- The loop that finds the highest upper bound.
  unfoldable pub top_edge : Float → List Zone → Float
  top_edge top [] = top
  top_edge top (z ∷ zs) = top_edge (if lt top z.upper then z.upper else top) zs

  -- The test of the second loop.
  unfoldable pub hits : Float → Float → Zone → Bool
  hits top raw z =
      if eq z.lower z.upper
      then eq raw z.lower
      else (le z.lower raw && lt raw z.upper) || (eq raw z.upper && eq z.upper top)

  unfoldable pub first_hit : Float → Float → List Zone → Option Zone
  unfolding hits
  first_hit top raw [] = none
  first_hit top raw (z ∷ zs) =
      let rest = first_hit top raw zs in if hits top raw z then some z else rest

  unfoldable pub match : String → Float → Registry → Option Zone
  unfolding top_edge first_hit
  match path raw r = elim (lookup path r.zones) [
    | none ↦ none
    | some zs ↦ first_hit (top_edge minus_huge zs) raw zs
  ]

  unfoldable pub description : String → Registry → String
  description path r = or_else (lookup path r.descriptions) ""

  -- The update that apply_meta() makes with what it has read.
  unfoldable pub merge_meta : String → Option String → List Zone → Registry → Registry × Bool
  merge_meta path desc zs r =
      let described =
        if is_given desc
        then record r { descriptions = insert path (or_else desc "") r.descriptions }
        else r in
      elim zs [
        | [] ↦ (described, is_given desc)
        | z ∷ more ↦ (record described { zones = insert path (z ∷ more) described.zones }, true)
      ]

  module _ (J : JsonLib) (real : J.Json → Option Float) where
    open J use {Json, member, elements, text}

    unfoldable pub read_zone : Json → Zone
    read_zone z = record {
      lower = or_else (real (member z "lower")) minus_huge;
      upper = or_else (real (member z "upper")) huge;
      state = parse_state (some (or_else (text (member z "state")) "normal"));
    }

    unfoldable pub apply_meta : String → Json → Registry → Registry × Bool
    unfolding read_zone merge_meta
    apply_meta path meta r =
        merge_meta path (text (member meta "description"))
          (map read_zone (elements (member meta "zones"))) r
