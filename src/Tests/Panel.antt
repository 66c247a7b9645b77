-- ===== src/Tests/Panel.antt =====
-- Runs of the theorems on zones, the dimmer, the layout, the subjects and the theme.
use espos_p4_cockpit.Prelude.{
  ℕ, ◌+◌, ◌*◌, ◌≡◌, ◌<◌, ◌↔◌, ◌⊎◌, refl, true, false, [], ◌∷◌, none, some, arith, ◌=s◌,
}
use espos_p4_cockpit.Prelude.Dict.{lookup}
use espos_p4_cockpit.Zones.{Zone, Registry as Zones, match, normal, alarm}
use espos_p4_cockpit.Zones.Match.{IsTop, Answers, match-Answers}
use espos_p4_cockpit.Sun.{night}
use espos_p4_cockpit.Dimmer.{Dimmer, initial, tick}
use espos_p4_cockpit.Dimmer.Backlight.{
  Agrees, polled, idled, woken, configured, brought_up, run, run-brought_up, run-Agrees, tick-early,
}
use espos_p4_cockpit.Layout.{validate, float}
use espos_p4_cockpit.Layout.Accepted.{IsValid, validate_iff}
use espos_p4_cockpit.Layout.Switcher.{
  ScreenSwitcherCtx, select_screen, IsAligned, IsOnly, active_screen, select_screen_lem,
}
use espos_p4_cockpit.Layout.{is_in}
use espos_p4_cockpit.Subjects.{Outside, Slot}
use espos_p4_cockpit.Subjects.Lifetime.{binds, swaps, Keeps, run as run_calls, run-Keeps}
use espos_p4_cockpit.Tests.Sample.{
  layout, json, naturals, naturals-IsOrdered, Value, str, num, array, object, item, nothing_more,
  field, closed,
}

abbrev low : Zone naturals
low = record { lower = 0; upper = 10; state = normal }

abbrev high : Zone naturals
high = record { lower = 10; upper = 20; state = alarm }

abbrev depth : Zones naturals
depth = record { zones = ("depth", low ∷ high ∷ []) ∷ []; descriptions = [] }

match-Answers_example :
    (top : ℕ) × IsTop naturals naturals-IsOrdered 0 (low ∷ high ∷ []) top
    × Answers naturals naturals-IsOrdered top 20 (low ∷ high ∷ []) (match naturals "depth" 20 depth)
unfolding lookup ◌=s◌
match-Answers_example =
    match-Answers naturals naturals-IsOrdered "depth" 20 depth (low ∷ high ∷ []) refl
      (refl, (refl, tt))

abbrev threshold : Value
threshold = object (field "lower" (num 5) (field "state" (str "alarm") closed))

abbrev meta : Value
meta = object (field "zones" (array (item threshold nothing_more)) closed)

run-brought_up_example :
    Agrees (run (configured 60 20 ∷ idled 60_000 ∷ polled night ∷ []) (brought_up 95))
run-brought_up_example = run-brought_up 95 (configured 60 20 ∷ idled 60_000 ∷ polled night ∷ [])

run-Agrees_example : Agrees (run (woken ∷ []) (run [] (brought_up 95)))
run-Agrees_example = run-Agrees (woken ∷ []) (run [] (brought_up 95)) (run-brought_up 95 [])

abbrev minute : Dimmer
minute = record initial { idle_timeout_sec = 60; idle_ms = 60_000 }

abbrev fifty_days : Dimmer
fifty_days = record initial { idle_timeout_sec = 4_320_000 }

tick-early_example :
    (ms : ℕ) × (ms < 4_320_000 * 1000)
    × ((tick night (record fifty_days { idle_ms = ms })).on ≡ false)
tick-early_example = tick-early fifty_days (omega arith) (omega arith)

validate_iff_example : (validate json layout ≡ none) ↔ IsValid json layout
validate_iff_example = validate_iff json layout

abbrev pub two_screens : ScreenSwitcherCtx
two_screens = record {
  hidden = false ∷ true ∷ [];
  tabs = true ∷ false ∷ [];
  told = true ∷ false ∷ [];
  ids = "a" ∷ "b" ∷ [];
  active = 0;
}

select_screen_lem_example :
    ((is_in "b" ("a" ∷ "b" ∷ []) ≡ false)
      × (select_screen "b" (some two_screens) ≡ (some two_screens, false)))
    ⊎ ((is_in "b" ("a" ∷ "b" ∷ []) ≡ true)
        × ((after : ScreenSwitcherCtx) × (select_screen "b" (some two_screens) ≡ (some after, true))
            × IsAligned after
            × (active_screen (some after) ≡ "b")
            × IsOnly after.active after
            × (after.ids ≡ "a" ∷ "b" ∷ [])))
select_screen_lem_example =
    select_screen_lem "b" two_screens
      (record { screens = refl; tab_count = refl; in_range = omega arith })

-- An LVGL and an espOS that hand out the next number.
abbrev pub outside : Outside
outside = record {
  State = ℕ;
  create = λ kind n. (some n, n + 1);
  subscribe = λ path n. (n + 1, n + 1);
  unsubscribe = λ handle n. n;
}

abbrev bound : Slot
bound = record { kind = float; subject = 3; sub_handle = 4 }

run-Keeps_example :
    Keeps outside "depth" bound
      (run_calls outside
        (swaps (λ p. false) ∷ binds "depth" float ∷ [])
        (("depth", bound) ∷ [], 4)).0
unfolding lookup ◌=s◌
run-Keeps_example =
    run-Keeps outside (swaps (λ p. false) ∷ binds "depth" float ∷ []) "depth" bound
      (("depth", bound) ∷ []) 4 refl
