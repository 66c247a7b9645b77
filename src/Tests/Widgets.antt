-- ===== src/Tests/Widgets.antt =====
-- Runs of the theorems on the widgets that send, the watch of the stream widget, the kinds and colours
-- of the tiles, and the delivery of notifications.
use espos_p4_cockpit.Prelude.{
  ◌+◌, ◌-◌, ◌*◌, ◌/◌, ◌≤◌, ◌≡◌, ◌≢◌, ◌⊎◌, inl, refl, String, true, false, List, [], ◌∷◌, ◌++◌, none,
  some, codes, ◌=s◌, Bytes, same_bytes, if◌then◌else◌, map, arith,
}
use espos_p4_cockpit.Prelude.Dict.{lookup}
use espos_p4_cockpit.Layout.{float, validate}
use espos_p4_cockpit.Controls.Button
use espos_p4_cockpit.Controls.Button.{Touch, touches, asked_all, touches-sent}
use espos_p4_cockpit.Controls.Toggle
use espos_p4_cockpit.Controls.Toggle.{value, clicked, reconciled, reported, wishes, run-reported}
use espos_p4_cockpit.Controls.Brightness
use espos_p4_cockpit.Controls.Brightness.{
  written, drained, dragged, committed, clamped, run-clamped,
}
use espos_p4_cockpit.Picture
use espos_p4_cockpit.Picture.{shown}
use espos_p4_cockpit.Picture.Watch.{Watch, Seen, connecting, watch_tick, watch_tick-shown}
use espos_p4_cockpit.Picture.Touch.{Toucher, pressed, pressing, Follows, last_place, run-Follows}
use espos_p4_cockpit.Stream.Stats.{no_stats}
use espos_p4_cockpit.Builders.{builder_of, screens_subjects, subjects_of}
use espos_p4_cockpit.Builders.Kinds.{screens_subjects-validate}
use espos_p4_cockpit.Tiles.{Arithmetic, Colors, Tile, parse_display}
use espos_p4_cockpit.Tiles.Tint.{Tints, parse_display-Tints_long}
use espos_p4_cockpit.Zones
use espos_p4_cockpit.Zones.{Zone, alarm, color_for_state, match, top_edge, first_hit, hits}
use espos_p4_cockpit.Theme.{default_theme}
use espos_p4_cockpit.Tests.Sample.{json, naturals, layout, Value, object, field, closed, str}
use espos_p4_cockpit.Tests.Boot.{numbers}
use espos_p4_cockpit.Tests.Sample.{flooded}
use espos_p4_cockpit.Notifications.Delivery
use espos_p4_cockpit.Notifications.Delivery.{Update, arrives, drains, does, on_notification}
use espos_p4_cockpit.Notifications.Delivery.Heard.{Delivers, run-delivered}
use espos_p4_cockpit.Notifications.History.{acknowledges}

abbrev horn : Button.Button json numbers
horn = record {
  path = "horn";
  press_json = "on";
  release_json = "off";
  hold_ms = 500;
  hold_timer = false;
  press_fired = false;
  dimmed = false;
  sent = [];
}

abbrev lifted : Touch json numbers
lifted = record { long = true; lifted = true }

abbrev slid_off : Touch json numbers
slid_off = record { long = true; lifted = false }

touches-sent_example :
    (touches json numbers (lifted ∷ slid_off ∷ []) horn).sent
    ≡ [] ++ asked_all json numbers (lifted ∷ slid_off ∷ []) horn
touches-sent_example = touches-sent json numbers (lifted ∷ slid_off ∷ []) horn refl

run-reported_example :
    (Toggle.run (clicked ∷ value true ∷ clicked ∷ reconciled ∷ []) (Toggle.built false)).sent
      ≡ wishes (clicked ∷ value true ∷ clicked ∷ reconciled ∷ []) false
    × (((Toggle.run
            (clicked ∷ value true ∷ clicked ∷ reconciled ∷ [])
            (Toggle.built false)).reconcile
          ≡ true)
        ⊎ ((Toggle.run
              (clicked ∷ value true ∷ clicked ∷ reconciled ∷ [])
              (Toggle.built false)).checked
            ≡ reported (clicked ∷ value true ∷ clicked ∷ reconciled ∷ []) false))
run-reported_example = run-reported (clicked ∷ value true ∷ clicked ∷ reconciled ∷ []) false

run-clamped_example :
    let b =
      Brightness.run (dragged 3 ∷ written 50 ∷ committed ∷ drained ∷ []) (Brightness.built 95) in
    (5 ≤ b.knob)
    × (b.knob ≤ 100)
    × ((b.dragging ≡ true) ⊎ ((b.posted ≢ []) ⊎ (b.knob ≡ clamped b.setting)))
run-clamped_example = run-clamped 95 (dragged 3 ∷ written 50 ∷ committed ∷ drained ∷ [])

-- A widget that shows the first frame of its second session.
abbrev first_frame : Picture.Pixels
first_frame = record { session = 2; buffer = 0 }

abbrev playing : Watch
playing = record {
  visible = true;
  watch_timer = true;
  voice_busy_until = 0;
  paused = false;
  text = connecting;
  picture = record {
    started = true;
    alive = true;
    epoch = 1;
    buf_0 = some first_frame;
    buf_1 = none;
    src = some 0;
    placeholder = false;
    queue = [];
    session = 2;
  };
}

abbrev gone : Seen
gone = record {
  running = false;
  starts = true;
  vstate = 1;
  stats = no_stats;
  at_voice = 7;
  at_pause = 8;
  at_age = 9;
}

watch_tick-shown_example :
    (shown (watch_tick gone playing).picture ≡ some first_frame)
    × (((watch_tick gone playing).picture.started ≡ false)
        ⊎ ((watch_tick gone playing).picture.session ≡ 2 + 1))
watch_tick-shown_example = watch_tick-shown gone playing first_frame refl refl refl refl refl

abbrev untouched : Toucher
untouched = record { visible = true; corner = (10, 20); last_sent = none; sent = [] }

run-Follows_example :
    Follows
      (10, 20)
      (last_place
        ((pressed, some (300, 40)) ∷ (pressing, some (300, 40)) ∷ (pressing, some (5, 60)) ∷ [])
        none)
      (Picture.Touch.run true
        ((pressed, some (300, 40)) ∷ (pressing, some (300, 40)) ∷ (pressing, some (5, 60)) ∷ [])
        untouched).sent
run-Follows_example =
    run-Follows
      ((pressed, some (300, 40)) ∷ (pressing, some (300, 40)) ∷ (pressing, some (5, 60)) ∷ [])
      untouched refl tt

screens_subjects-validate_example : float ≡ float
unfolding validate builder_of screens_subjects subjects_of ◌=s◌ lookup
screens_subjects-validate_example =
    screens_subjects-validate json layout "depth" float float refl ((refl, tt), tt)
      (inl (refl, refl)) (inl (refl, refl))

-- A path of 84 bytes.
abbrev long_path : String
long_path = "electrical.switches.bank.213.1.state.electrical.switches.bank.213.1.state.electrical"

abbrev counting : Arithmetic naturals json
counting = record {
  add = λ a b. a + b;
  sub = λ a b. a - b;
  mul = λ a b. a * b;
  div = λ a b. a / b;
  zero = 0;
  half = 0;
  one = 1;
  hundred = 100;
  of_nat = λ n. n;
  to_steps = λ n. n;
  real = json.number;
  print = λ d n. [];
}

abbrev cut_path : String
cut_path = "electrical.switches.bank.213.1.state.electrical.switches.bank.213.1.state.elect"

-- The texts that these bytes can be.
abbrev first_text : Bytes → List String → String
first_text bs [] = ""
first_text bs (t ∷ ts) = if same_bytes bs (codes t) then t else first_text bs ts

abbrev text_of_bytes : Bytes → String
text_of_bytes bs = first_text bs ("depth" ∷ "bilge" ∷ long_path ∷ cut_path ∷ [])

abbrev bound : Value
bound = object (field "bind" (str "depth") closed)

abbrev bound_longer : Value
bound_longer = object (field "bind" (str long_path) closed)

abbrev plain : Colors
plain = record { bg = 0; fg = 1; bg_explicit = true; fg_explicit = false }

abbrev empty_tile : Tile
empty_tile = record { text = []; unit_text = []; bg = 0; indicator = 0; steps = 0 }

abbrev alarming : Zone naturals
alarming = record { lower = 0; upper = 10; state = alarm }

abbrev known : Zones.Registry naturals
known = record {
  zones = (long_path, alarming ∷ []) ∷ ("depth", alarming ∷ []) ∷ [];
  descriptions = [];
}

parse_display-Tints_long_example :
    Tints naturals json counting codes text_of_bytes default_theme
      (parse_display naturals json counting codes text_of_bytes bound)
      0
      100
      plain
      false
      5
      known
      empty_tile
      (color_for_state alarm)
      (color_for_state alarm)
    × Tints naturals json counting codes text_of_bytes default_theme
        (parse_display naturals json counting codes text_of_bytes bound_longer)
        0
        100
        plain
        false
        5
        known
        empty_tile
        0
        0x58a6ff
    × ((parse_display naturals json counting codes text_of_bytes bound_longer).path ≢ long_path)
unfolding lookup ◌=s◌ match top_edge first_hit hits
parse_display-Tints_long_example =
    parse_display-Tints_long naturals json counting codes text_of_bytes default_theme bound
      bound_longer "depth" long_path 0 100 plain false 5 known empty_tile alarming alarming refl
      refl refl (omega arith) (omega arith) refl refl refl refl refl refl

abbrev update : Update
update = record { path = "notifications.bilge"; value_json = some "normal" }

run-delivered_example :
    let es = arrives update ∷ does (acknowledges 3 "bilge") ∷ drains 4 ∷ arrives update ∷ [] in
    Delivers json codes text_of_bytes es flooded
    × Delivers json codes text_of_bytes (es ++ map drains (9 ∷ [])) flooded
    × ((Delivery.run json codes text_of_bytes
          (es ++ map drains (9 ∷ []))
          (record { s_queue = []; state = flooded })).s_queue
        ≡ [])
unfolding Delivery.run Delivery.step on_notification
run-delivered_example =
    run-delivered json codes text_of_bytes
      (arrives update ∷ does (acknowledges 3 "bilge") ∷ drains 4 ∷ arrives update ∷ []) (9 ∷ [])
      flooded (omega arith)
