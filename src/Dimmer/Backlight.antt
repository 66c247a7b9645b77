-- ===== src/Dimmer/Backlight.antt =====
-- What the backlight shows under main/jlp/idle_dimmer.cpp, over every sequence of polls, touches,
-- layout pushes, notifications and settings.
use espos_p4_cockpit.Prelude.{
  ℕ, ◌*◌, ◌%◌, ◌^◌, ◌≤◌, ◌<◌, ◌≡◌, ◌⊎◌, ◌↔◌, true, false, not, List, [], ◌∷◌, some, arith,
}
use espos_p4_cockpit.Sun.{DayNight, night}
use espos_p4_cockpit.Dimmer.{
  Dimmer, initial, init_cover, set_on_brightness, is_night, tick, wake, configure,
}

-- The panel agrees with the flag: awake means the cover is hidden and the brightness the one that the
-- user set; dimmed means the cover takes the first tap and the brightness is the dim level.
pub record Agrees (d : Dimmer) : Type 0 where
  pub created : d.cover.created ≡ true
  pub awake : d.on ≡ true → (d.cover.hidden ≡ true) × (d.display ≡ some d.on_brightness_pct)
  pub dimmed : d.on ≡ false → (d.cover.hidden ≡ false) × (d.display ≡ some d.dim_pct)
  pub flag : d.cover.visible ≡ not d.on

pub data Event : Type 0 where
  polled : DayNight → Event
  idled : ℕ → Event
  woken : Event
  configured : ℕ → ℕ → Event
  brightened : ℕ → Event

-- `idled` is LVGL's counter reaching a reading between two calls, by time or by a touch.
pub step : Event → Dimmer → Dimmer
unfolding tick wake configure set_on_brightness
step (polled mode) d = tick mode d
step (idled ms) d = record d { idle_ms = ms }
step woken d = wake d
step (configured timeout pct) d = configure timeout pct d
step (brightened pct) d = set_on_brightness pct d

pub run : List Event → Dimmer → Dimmer
run [] d = d
run (e ∷ es) d = run es (step e d)

step-Agrees : (e : Event) (d : Dimmer) → Agrees d → Agrees (step e d)
unfolding step
step-Agrees (polled mode) d a = ground arith
step-Agrees (idled ms) d a = ground arith
step-Agrees woken d a = ground arith
step-Agrees (configured timeout pct) d a = ground arith
step-Agrees (brightened pct) d a = ground arith

-- When every sequence of polls, idle times, wakes, layout pushes and brightness settings has run, from
-- a panel that agrees with its flag: a panel that is awake shows the user's brightness with the cover
-- hidden, and a dimmed one shows the dim level with the cover up.
pub run-Agrees : (es : List Event) (d : Dimmer) → Agrees d → Agrees (run es d)
unfolding run
run-Agrees [] d a = a
run-Agrees (e ∷ es) d a = run-Agrees es (step e d) (step-Agrees e d a)

-- The bring-up of main/app_main.cpp: the driver's brightness, the dimmer's, then the cover.
abbrev pub brought_up : ℕ → Dimmer
brought_up pct =
    let lit = set_on_brightness pct (record initial { display = some pct }) in
    record lit { cover = init_cover lit.cover }

-- After the bring-up with any brightness, and every sequence of polls, idle times, wakes, layout
-- pushes and brightness settings that follows, a panel that is awake shows the user's brightness
-- with the cover hidden, and a dimmed one shows the dim level with the cover up.
pub run-brought_up : (pct : ℕ) (es : List Event) → Agrees (run es (brought_up pct))
unfolding set_on_brightness init_cover
run-brought_up pct es = run-Agrees es (brought_up pct) (ground arith)

-- A poll leaves the panel awake exactly when the dimmer is off, or it is not night, or the last
-- activity is more recent than the timeout, in milliseconds modulo 2 ^ 32.
pub tick-on_iff :
    (mode : DayNight) (d : Dimmer)
    → ((tick mode d).on ≡ true) ↔ (
        (d.idle_timeout_sec ≡ 0)
        ⊎ ((is_night mode ≡ false) ⊎ (d.idle_ms < (d.idle_timeout_sec * 1000) % 2 ^ 32)))
unfolding tick
tick-on_iff mode d = (λ e. ground arith, λ e. ground arith)

-- For a positive timeout whose milliseconds fit 32 bits, a night poll dims exactly after the whole
-- timeout.
tick-night :
    (d : Dimmer)
    → 0 < d.idle_timeout_sec
    → d.idle_timeout_sec * 1000 < 2 ^ 32
    → ((tick night d).on ≡ false) ↔ (d.idle_timeout_sec * 1000 ≤ d.idle_ms)
unfolding tick
tick-night d h k = (λ e. ground arith, λ e. ground arith)

-- A 32-bit timeout whose milliseconds do not fit 32 bits dims early: some activity more recent than
-- the timeout leaves the panel dark after the next night poll.
pub tick-early :
    (d : Dimmer)
    → d.idle_timeout_sec < 2 ^ 32
    → 2 ^ 32 ≤ d.idle_timeout_sec * 1000
    → (ms : ℕ) × (ms < d.idle_timeout_sec * 1000)
      × ((tick night (record d { idle_ms = ms })).on ≡ false)
unfolding tick
tick-early d h k = ((d.idle_timeout_sec * 1000) % 2 ^ 32, omega arith, ground arith)
