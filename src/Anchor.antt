-- ===== src/Anchor.antt =====
-- The track of the anchor_track widget of main/jlp/widgets/widget_factory.cpp: a ring of the last 256
-- positions, drawn as five lines of rising opacity. Trail is the plain list that it stands for.
use espos_p4_cockpit.Prelude.{
  ℕ, zero, suc, ◌+◌, ◌-◌, ◌*◌, ◌/◌, ◌%◌, Bool, true, false, not, ◌&&◌, ◌||◌, Option, none, some,
  List, [], ◌∷◌, ltb, if◌then◌else◌, get_elem?, set, take, drop,
}
use espos_p4_cockpit.Float.{FloatLib}
pub mod Points
pub mod Trail
pub mod Bands
pub mod Dial

-- The float constants 0 and `kAnchorWarnMarginM`, the difference, `anchor_track_xy` on the bearing and
-- the two radii, and the test that two points are less than two pixels apart.
pub record Plot (F : FloatLib) (P : Type 0) : Type 0 where
  pub none_f : F.Float
  pub warn_margin : F.Float
  pub minus : F.Float → F.Float → F.Float
  pub xy : F.Float → F.Float → F.Float → P
  pub near : P → P → Bool

-- The last-known values of `AnchorTrackCtx`.
pub record Readings (F : FloatLib) : Type 0 where
  pub state_on : Bool
  pub have_bearing : Bool
  pub bearing_rad : F.Float
  pub cur_m : F.Float
  pub max_m : F.Float

-- Its ring: `band_pts`, `head` and `count`.
pub record Ring (P : Type 0) : Type 0 where
  pub band_pts : List P
  pub head : ℕ
  pub count : ℕ

abbrev pub track_max : ℕ
track_max = 256

abbrev pub track_bands : ℕ
track_bands = 5

-- The points in order of time, from the index `start`; none stands for a read outside of the array.
unfoldable pub ordered_from : {P : Type 0} → List P → ℕ → ℕ → List (Option P)
ordered_from pts start zero = []
ordered_from pts start (suc n) = get_elem? pts (start % track_max) ∷ ordered_from pts (start + 1) n

unfoldable pub ordered : {P : Type 0} → Ring P → List (Option P)
ordered g = ordered_from g.band_pts ((g.head + track_max - g.count) % track_max) g.count

-- The slice of the band `b` of `n` points: where it begins, and its length.
abbrev pub band_lo : ℕ → ℕ → ℕ
band_lo n b = b * n / track_bands - 1

abbrev pub band_len : ℕ → ℕ → ℕ
band_len n b = (b + 1) * n / track_bands - band_lo n b

-- A line and its opacity (LV_OPA_20 is 51, LV_OPA_COVER 255); none is a hidden one.
abbrev pub band : {A : Type 0} → List A → ℕ → ℕ → Option (List A × ℕ)
band pts n b =
    if ltb (band_len n b) 2
    then none
    else some (take (band_len n b) (drop (band_lo n b) pts), 51 + 204 * b / (track_bands - 1))

abbrev pub bands : {A : Type 0} → List A → ℕ → List (Option (List A × ℕ))
bands pts n = band pts n 0 ∷ band pts n 1 ∷ band pts n 2 ∷ band pts n 3 ∷ band pts n 4 ∷ []

abbrev pub store : {P : Type 0} → P → Ring P → Ring P
store p g = record {
  band_pts = set g.band_pts g.head p;
  head = (g.head + 1) % track_max;
  count = if ltb g.count track_max then g.count + 1 else g.count;
}

module _ {F : FloatLib} {P : Type 0} (m : Plot F P) where
  abbrev pub anchor_track_watching : Readings F → Bool
  anchor_track_watching a = a.state_on || F.lt m.none_f a.max_m

  abbrev pub anchor_ring_color : F.Float → F.Float → ℕ
  anchor_ring_color cur_m max_m =
      if F.lt max_m cur_m
      then 0xf85149
      else if F.le (m.minus max_m cur_m) m.warn_margin
      then 0xd29922
      else 0x3fb950

  -- Whether a position is to be recorded, but for the test of the last point.
  abbrev pub has_position : Readings F → Bool
  has_position a = anchor_track_watching a && a.have_bearing && not (F.le a.max_m m.none_f)

  abbrev pub is_near : P → Option P → Bool
  is_near p none = false
  is_near p (some q) = m.near p q

  unfoldable pub anchor_track_push : Readings F → Ring P → Ring P
  anchor_track_push a g =
      let p = m.xy a.bearing_rad a.cur_m a.max_m in
      if not (has_position a)
      then g
      else if ltb 0 g.count && is_near p (get_elem? g.band_pts ((g.head + 255) % track_max))
      then g
      else store p g

  -- What `anchor_track_render` leaves of the ring.
  unfoldable pub anchor_track_render : Readings F → Ring P → Ring P
  anchor_track_render a g = if not (anchor_track_watching a) then record g { count = 0 } else g

  abbrev pub anchor_track_redraw : Readings F → Ring P → List (Option (List (Option P) × ℕ))
  anchor_track_redraw a g =
      if not (anchor_track_watching a) || ltb g.count 2
      then none ∷ none ∷ none ∷ none ∷ none ∷ []
      else bands (ordered g) g.count

  -- What the observers of the four subjects set.
  pub data Reading : Type 0 where
    state : Bool → Reading
    bearing : F.Float → Reading
    current : F.Float → Reading
    limit : F.Float → Reading

  unfoldable pub read : Reading → Readings F → Readings F
  read (state on) a = record a { state_on = on }
  read (bearing x) a = record a { bearing_rad = x; have_bearing = true }
  read (current x) a = record a { cur_m = x }
  read (limit x) a = record a { max_m = x }

  abbrev pub is_position : Reading → Bool
  is_position (bearing x) = true
  is_position (current x) = true
  is_position _ = false

  -- One observer call.
  abbrev pub observed : Reading → Readings F → Ring P → Ring P
  observed e a g =
      let a' = read e a in
      anchor_track_render a' (if is_position e then anchor_track_push a' g else g)

  unfoldable pub run : List Reading → Readings F → Ring P → Readings F × Ring P
  run [] a g = (a, g)
  run (e ∷ es) a g = run es (read e a) (observed e a g)
