-- ===== src/Fetch.antt =====
-- main/jlp/net/zone_fetch.cpp: the metadata and the values that the panel asks the server for, applied in
-- one job on the UI task. What espOS answers to a request is an argument, none where it failed.
pub mod Seed
pub mod Layout
pub mod Wake
pub mod Puts
use espos_p4_cockpit.Prelude.{
  ℕ, String, Bool, true, false, not, ◌&&◌, Option, none, some, is_some, List, [], ◌∷◌, ◌++◌,
  if◌then◌else◌,
}
use espos_p4_cockpit.Json.{JsonLib}
use espos_p4_cockpit.Float.{FloatLib}
use espos_p4_cockpit.Layout.{SubjectKind, float, int, bool, string}
use espos_p4_cockpit.Subjects
use espos_p4_cockpit.Subjects.{Outside, lookup_subject, kind_of}
use espos_p4_cockpit.Zones
use espos_p4_cockpit.Zones.{apply_meta}

-- How ArduinoJson reads a value: as_bool, as_int and as_float are none where is<T>() is false. The other
-- fields are the casts of the language.
pub record Numbers (J : JsonLib) : Type 1 where
  pub Real : Type 0
  pub Whole : Type 0
  pub as_bool : J.Json → Option Bool
  pub as_int : J.Json → Option Whole
  pub as_float : J.Json → Option Real
  pub of_bool : Bool → Whole
  pub of_whole : Whole → Real
  pub to_whole : Real → Whole

module _ (J : JsonLib) (V : Numbers J) where
  open J use {Json, deserialize, is_null, member}
  open V use {Real, Whole, as_bool, as_int, as_float, of_bool, of_whole, to_whole}

  pub data ValueResult : Type 0 where
    real : Real → ValueResult
    whole : Whole → ValueResult

  unfoldable pub parse_value : Json → Option ValueResult
  parse_value v = if is_null v then none else elim (as_bool v) [
    | some b ↦ some (whole (of_bool b))
    | none ↦ elim (as_int v) [
      | some i ↦ some (whole i)
      | none ↦ elim (as_float v) [ some f ↦ some (real f) | none ↦ none ]
    ]
  ]

  -- Both appended to the results of the paths before.
  unfoldable pub fetch_meta : String → Option String → List (String × Json) → List (String × Json)
  fetch_meta path answer out = elim answer [
    | none ↦ out
    | some text ↦ elim (deserialize text) [
      | none ↦ out
      | some doc ↦
          if is_null (member doc "zones") && is_null (member doc "description")
          then out
          else out ++ (path, doc) ∷ []
    ]
  ]

  unfoldable pub fetch_value :
      String → Option String → List (String × ValueResult) → List (String × ValueResult)
  unfolding parse_value
  fetch_value path answer out = elim answer [
    | none ↦ out
    | some text ↦ elim (deserialize text) [
      | none ↦ out
      | some doc ↦ elim (parse_value doc) [ none ↦ out | some r ↦ out ++ (path, r) ∷ [] ]
    ]
  ]

  -- The loop of fetch_task().
  unfoldable pub fetch_all :
      (String → Option String)
      → (String → Option String)
      → List String
      → List (String × Json) × List (String × ValueResult)
      → List (String × Json) × List (String × ValueResult)
  unfolding fetch_meta fetch_value
  fetch_all metas values [] out = out
  fetch_all metas values (path ∷ paths) (ms, vs) =
      fetch_all metas values paths
        (fetch_meta path (metas path) ms, fetch_value path (values path) vs)

  -- A write to an LVGL subject.
  pub data Write : Type 0 where
    set_float : ℕ → Real → Write
    set_int : ℕ → Whole → Write

  unfoldable pub seed : SubjectKind → ℕ → ValueResult → List Write
  seed float sub (real f) = set_float sub f ∷ []
  seed float sub (whole i) = set_float sub (of_whole i) ∷ []
  seed string sub r = []
  seed _ sub (real f) = set_int sub (to_whole f) ∷ []
  seed _ sub (whole i) = set_int sub i ∷ []

  module _ (W : Outside) where
    -- The second loop of the job.
    unfoldable pub seed_all : Subjects.Registry → List (String × ValueResult) → List Write
    unfolding seed
    seed_all r [] = []
    seed_all r ((path, v) ∷ vs) =
        elim (kind_of W path r) [
          | none ↦ []
          | some kind ↦ elim (lookup_subject W path r) [ none ↦ [] | some sub ↦ seed kind sub v ]
        ]
        ++ seed_all r vs

  module _ (F : FloatLib) (real_of : J.Json → Option F.Float) where
    -- The first loop of the job, without the notifications of LVGL.
    unfoldable pub apply_metas : List (String × Json) → Zones.Registry F → Zones.Registry F
    apply_metas [] z = z
    apply_metas ((path, doc) ∷ ms) z = apply_metas ms (apply_meta F J real_of path doc z).0
