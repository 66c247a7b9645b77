-- ===== src/Fetch/Puts.antt =====
-- main/jlp/net/sk_put.cpp and drop_here.cpp: the requests that the panel sends. A request is a path with
-- the JSON text of its value; the printing of numbers and of JSON texts is the C library's and
-- ArduinoJson's.
use espos_p4_cockpit.Prelude.{
  ◌≡◌, inl, inr, refl, String, Bool, true, false, ◌&&◌, Option, none, some, ◌++◌, if◌then◌else◌,
  or_else, Bytes, codes, Bool-cases, arith,
}
use espos_p4_cockpit.Json.{JsonLib}

-- A path and a value.
abbrev pub Request : Type 0
Request = Bytes × Bytes

abbrev pub put_bool : Bytes → Bool → Request
put_bool path value = (path, if value then codes "true" else codes "false")

abbrev pub put_null : Bytes → Request
put_null path = (path, codes "null")

-- The double type of the target, with the four bounds, the value that stands for no fix, and "%.7f".
pub record Doubles (J : JsonLib) : Type 1 where
  pub Double : Type 0
  pub le : Double → Double → Bool
  pub read : J.Json → Option Double
  pub minus_90 : Double
  pub plus_90 : Double
  pub minus_180 : Double
  pub plus_180 : Double
  pub no_fix : Double
  pub print : Double → Bytes

module _ (J : JsonLib) (D : Doubles J) where
  open J use {Json, deserialize, member}
  open D use {Double, le, read, minus_90, plus_90, minus_180, plus_180, no_fix, print}

  abbrev pub put_position : Bytes → Double → Double → Request
  put_position path latitude longitude = (
    path,
    codes "{\"latitude\":"
        ++ (print latitude ++ (codes ",\"longitude\":" ++ (print longitude ++ codes "}"))),
  )

  abbrev pub is_fix : Double → Double → Bool
  is_fix lat lon = le minus_90 lat && le lat plus_90 && le minus_180 lon && le lon plus_180

  abbrev pub anchor_position : Bytes
  anchor_position = codes "navigation.anchor.position"

  -- drop_task() on the members of a position.
  unfoldable pub drop_at : Option Double → Option Double → Option Request
  drop_at latitude longitude =
      let lat = or_else latitude no_fix in
      let lon = or_else longitude no_fix in
      if is_fix lat lon then some (put_position anchor_position lat lon) else none

  -- What drop_task() sends, where the server answered with the given text.
  unfoldable pub drop_task : Option String → Option Request
  unfolding drop_at
  drop_task answer = elim answer [
    | none ↦ none
    | some text ↦ elim (deserialize text) [
      | none ↦ none
      | some v ↦ drop_at (read (member v "latitude")) (read (member v "longitude"))
    ]
  ]

  -- An anchor is dropped only at a position of which both parts are given and within bounds, where
  -- the value for no fix is out of bounds.
  drop_at-fix :
      (latitude longitude : Option Double) (r : Request)
      → le no_fix plus_90 ≡ false
      → le no_fix plus_180 ≡ false
      → drop_at latitude longitude ≡ some r
      → (lat : Double) × (lon : Double) × (latitude ≡ some lat)
        × (longitude ≡ some lon)
        × (is_fix lat lon ≡ true)
        × (r ≡ put_position anchor_position lat lon)
  unfolding drop_at
  drop_at-fix none lon r no_lat no_lon h = absurd (ground (arith, h))
  drop_at-fix (some lat) none r no_lat no_lon h = absurd (ground (arith, h))
  drop_at-fix (some lat) (some lon) r no_lat no_lon h = elim (Bool-cases (is_fix lat lon)) [
    | inl e ↦ (lat, lon, refl, refl, e, ground (arith, h))
    | inr e ↦ absurd (ground (arith, h))
  ]
