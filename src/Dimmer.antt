-- ===== src/Dimmer.antt =====
-- main/jlp/idle_dimmer.{h,cpp} with main/jlp/wake_overlay.cpp: the backlight, the settings of the
-- idle dimmer and the "tap to wake" cover. `idle_ms` is LVGL's inactivity counter, `display` the
-- brightness last handed to the display driver (none before there is one).
pub mod Backlight
use espos_p4_cockpit.Prelude.{
  ℕ, ◌*◌, ◌%◌, ◌^◌, Bool, true, false, not, ◌&&◌, ◌||◌, Option, none, some, ltb, ◌==◌,
  if◌then◌else◌,
}
use espos_p4_cockpit.Sun.{DayNight, unknown, day, night}

-- WakeOverlay: `root_`, the LVGL hidden flag, and `visible_`.
pub record Cover : Type 0 where
  pub created : Bool
  pub hidden : Bool
  pub visible : Bool

unfoldable pub init_cover : Cover → Cover
init_cover c = record c { created = true; hidden = true }

unfoldable pub show : Cover → Cover
show c = if not c.created || c.visible then c else record c { hidden = false; visible = true }

unfoldable pub hide : Cover → Cover
hide c = if not c.created || not c.visible then c else record c { hidden = true; visible = false }

pub record Dimmer : Type 0 where
  pub idle_timeout_sec : ℕ  -- uint32_t
  pub on_brightness_pct : ℕ  -- uint8_t
  pub dim_pct : ℕ  -- uint8_t
  pub on : Bool
  pub cover : Cover
  pub display : Option ℕ
  pub idle_ms : ℕ  -- uint32_t

abbrev pub initial : Dimmer
initial = record {
  idle_timeout_sec = 0;
  on_brightness_pct = 95;
  dim_pct = 0;
  on = true;
  cover = record { created = false; hidden = false; visible = false };
  display = none;
  idle_ms = 0;
}

-- `on == on_`.
abbrev pub same : Bool → Bool → Bool
same true b = b
same false b = not b

unfoldable pub set_on : Bool → Dimmer → Dimmer
unfolding show hide
set_on on d =
    let set = record d { on = on } in
    if same on d.on then d else elim d.display [
      | none ↦ set
      | some old ↦
          if on
          then record set { cover = hide d.cover; display = some d.on_brightness_pct }
          else record set { cover = show d.cover; display = some d.dim_pct }
    ]

unfoldable pub set_on_brightness : ℕ → Dimmer → Dimmer
set_on_brightness pct d =
    let set = record d { on_brightness_pct = pct } in
    if not d.on
    then set
    else elim d.display [ none ↦ set | some old ↦ record set { display = some pct } ]

abbrev pub is_night : DayNight → Bool
is_night night = true
is_night _ = false

-- The 1 Hz poll that init() installs. `idle_timeout_sec_ * 1000U` is 32-bit arithmetic.
unfoldable pub tick : DayNight → Dimmer → Dimmer
unfolding set_on
tick mode d =
    let should = ltb d.idle_ms ((d.idle_timeout_sec * 1000) % 2 ^ 32) in
    if d.idle_timeout_sec == 0
    then (if not d.on then set_on true d else d)
    else if not (is_night mode)
    then (if not d.on then set_on true d else d)
    else if not (same should d.on)
    then set_on should d
    else d

unfoldable pub wake : Dimmer → Dimmer
unfolding set_on
wake d = let active = record d { idle_ms = 0 } in if not d.on then set_on true active else active

unfoldable pub configure : ℕ → ℕ → Dimmer → Dimmer
unfolding wake
configure timeout pct d =
    let clamped = if ltb 100 pct then 100 else pct in
    wake (record d { idle_timeout_sec = timeout; dim_pct = clamped })
