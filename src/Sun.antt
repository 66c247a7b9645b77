-- ===== src/Sun.antt =====
-- main/jlp/sun_state.{h,cpp}: day or night, as SignalK's environment.mode says.
use espos_p4_cockpit.Prelude.{
  List, [], ◌∷◌, Option, none, some, arith, if◌then◌else◌, codes, Bytes, unquote,
  same_ignoring_case, ◌≢◌,
}

pub data DayNight : Type 0 where
  unknown day night : DayNight

-- The null pointer is the empty text here: both return at once.
unfoldable pub set_mode : Bytes → DayNight → DayNight
set_mode [] state = state
set_mode (c ∷ cs) state =
    if same_ignoring_case (c ∷ cs) (codes "day")
    then day
    else if same_ignoring_case (c ∷ cs) (codes "night")
    then night
    else state

-- A value delta, as JSON text; a delta without a value is ignored.
unfoldable pub on_mode : Option Bytes → DayNight → DayNight
unfolding set_mode
on_mode none state = state
on_mode (some value) state = set_mode (unquote value) state

unfoldable pub on_modes : List (Option Bytes) → DayNight → DayNight
unfolding on_mode
on_modes [] state = state
on_modes (v ∷ vs) state = on_modes vs (on_mode v state)

set_mode-known : (mode : Bytes) (state : DayNight) → state ≢ unknown → set_mode mode state ≢ unknown
unfolding set_mode
set_mode-known [] state h = h
set_mode-known (c ∷ cs) state h = ground arith

on_mode-known : (v : Option Bytes) (state : DayNight) → state ≢ unknown → on_mode v state ≢ unknown
unfolding on_mode
on_mode-known none state h = h
on_mode-known (some v) state h = set_mode-known (unquote v) state h

-- Once a mode is known, no sequence of deltas, however malformed, makes it unknown again.
pub on_modes-known :
    (vs : List (Option Bytes)) (state : DayNight) → state ≢ unknown → on_modes vs state ≢ unknown
unfolding on_modes
on_modes-known [] state h = h
on_modes-known (v ∷ vs) state h = on_modes-known vs (on_mode v state) (on_mode-known v state h)
