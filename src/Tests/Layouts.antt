-- ===== src/Tests/Layouts.antt =====
-- Runs of the theorems on LayoutManager::apply().
use espos_p4_cockpit.Prelude.{
  ℕ, ◌+◌, refl, String, true, List, [], ◌∷◌, Option, none, some, ◌=s◌, codes,
}
use espos_p4_cockpit.Json.{JsonLib}
use espos_p4_cockpit.Notifications.{empty_registry}
use espos_p4_cockpit.Alert.{init}
use espos_p4_cockpit.Dimmer.{initial}
use espos_p4_cockpit.Theme.{ThemeColors, default_theme}
use espos_p4_cockpit.Layout.{validate}
use espos_p4_cockpit.Swap.{boot, post_layout, Panel, apply}
use espos_p4_cockpit.Swap.Atomic.{Refuses, apply_refused}
use espos_p4_cockpit.Swap.Trees.{ShowsOne, applies, applies-ShowsOne}
use espos_p4_cockpit.Tests.Sample.{json, layout, Value}
use espos_p4_cockpit.Tests.Memory.{memory, mounted}

-- A parser that reads every text as the layout.
abbrev reader : JsonLib
reader = record json { deserialize = λ s. some layout }

-- A builder that counts the widgets and binds one path for each.
abbrev pub counter : ThemeColors → Value → ℕ → ℕ × Option String × List String
counter theme w n = (n + 1, none, "depth" ∷ [])

abbrev pub fresh : (J : JsonLib) → Panel J memory ℕ codes
fresh J = record {
  parent = true;
  roots = [];
  current = none;
  next_id = 1;
  active_name = "";
  active_source = boot;
  known_paths = [];
  theme = default_theme;
  status_visible = true;
  notifications = empty_registry;
  alerts = init;
  dimmer = initial;
  store = mounted;
  outside = 0;
}

apply_refused_example :
    Refuses json memory ℕ codes counter
      (fresh json)
      (apply json memory ℕ codes counter 5 "{}" post_layout (fresh json))
unfolding apply validate ◌=s◌
apply_refused_example =
    apply_refused json memory ℕ codes counter 5 "{}" post_layout (fresh json) refl

applies-ShowsOne_example : ShowsOne reader memory ℕ codes counter (
    applies reader memory ℕ codes counter
      ((5, "{}", post_layout) ∷ (6, "{}", boot) ∷ [])
      (fresh reader))
applies-ShowsOne_example =
    applies-ShowsOne reader memory ℕ codes counter ((5, "{}", post_layout) ∷ (6, "{}", boot) ∷ [])
      (fresh reader) tt
