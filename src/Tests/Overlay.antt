-- ===== src/Tests/Overlay.antt =====
-- Runs of the theorems on the alert overlay.
use espos_p4_cockpit.Prelude.{
  ◌≡◌, ◌≢◌, refl, true, false, List, [], ◌∷◌, some, arith, ◌=s◌, str_iff, sym, ◌∙◌,
}
use espos_p4_cockpit.Prelude.Dict.{lookup, insert}
use espos_p4_cockpit.Notifications.{
  alarm, Notification, Registry, empty_registry, apply, apply_decoded, decode, asks_sound,
  parse_not_state, most_severe, on_change,
}
use espos_p4_cockpit.Alert.{AlertOverlay, init, is_called, rebuild, observe, tap}
use espos_p4_cockpit.Alert.Current.{IsCurrent}
use espos_p4_cockpit.Alert.History.{Event, delta, tapped, reacts, booted, reacts-booted-IsCurrent}
use espos_p4_cockpit.Alert.Tap.{HasMovedOn, tap-dismisses}
use espos_p4_cockpit.Alert.Sound.{Deserves, apply_decoded-chime}
use espos_p4_cockpit.Tests.Sample.{json, loud_delta}

-- An alarm, then a tap that comes late enough.
abbrev alarm_and_tap : List (Event json)
alarm_and_tap = delta 1 100 "bilge" (loud_delta "alarm") ∷ tapped 2 900 (λ at. 800) true ∷ []

reacts-booted-IsCurrent_example :
    IsCurrent 7
      (reacts json 7 alarm_and_tap (booted json 7)).0
      (reacts json 7 alarm_and_tap (booted json 7)).1
reacts-booted-IsCurrent_example = reacts-booted-IsCurrent json 7 alarm_and_tap

-- The panel with one alarm on it.
abbrev ringing : Registry × AlertOverlay
ringing = reacts json 7 (delta 1 100 "bilge" (loud_delta "alarm") ∷ []) (booted json 7)

ringing-path : ringing.1.current_path ≡ "bilge"
unfolding reacts on_change apply apply_decoded decode asks_sound parse_not_state ◌=s◌ lookup observe
    rebuild most_severe is_called insert
ringing-path = refl

ringing-path_given : ringing.1.current_path ≢ ""
unfolding ◌=s◌
ringing-path_given e =
    let q : false ≡ true = (str_iff "bilge" "").1 (sym ringing-path ∙ e) in absurd (cc)

tap-dismisses_example :
    HasMovedOn ringing.1.current_path (tap 7 2 900 (λ at. 800) true ringing.0 ringing.1).1
tap-dismisses_example =
    tap-dismisses 7 2 900 (λ at. 800) true ringing.0 ringing.1
      (reacts-booted-IsCurrent json 7 (delta 1 100 "bilge" (loud_delta "alarm") ∷ []))
      ringing-path_given (omega arith)

abbrev leak : Notification
leak = record { path = "bilge"; message = "water"; state = alarm; wants_sound = true }

-- The registry to which the overlay is subscribed.
abbrev calm : Registry
calm = (on_change 7 empty_registry).0

apply_decoded-chime_example :
    Deserves calm (apply_decoded 1 "bilge" (some leak) calm).0 init alarm (some leak)
unfolding observe on_change apply_decoded lookup ◌=s◌ most_severe is_called insert
apply_decoded-chime_example = apply_decoded-chime 7 1 100 "bilge" (some leak) calm init alarm refl
