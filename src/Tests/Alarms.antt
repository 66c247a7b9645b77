-- ===== src/Tests/Alarms.antt =====
-- Runs of the theorems on notifications and on the alert overlay.
use espos_p4_cockpit.Prelude.{◌≡◌, refl, false, [], ◌∷◌, none, some, arith, ◌=s◌}
use espos_p4_cockpit.Prelude.Dict.{lookup, insert}
use espos_p4_cockpit.Notifications.{
  normal, alarm, emergency, Notification, empty_registry, apply, apply_decoded, decode, asks_sound,
  parse_not_state, is_acknowledged, most_severe,
}
use espos_p4_cockpit.Notifications.Views.{view}
use espos_p4_cockpit.Notifications.History.{receives, acknowledges, run}
use espos_p4_cockpit.Notifications.Ack.{ack_survives_echo}
use espos_p4_cockpit.Notifications.Invariant.{Sound, run-Sound}
use espos_p4_cockpit.Notifications.Quiet.{most_severe-unacknowledged}
use espos_p4_cockpit.Tests.Sample.{json, delta_of, bilge, flooded}

ack_survives_echo_example :
    let after =
      run json (acknowledges 0 "bilge" ∷ receives 5 "bilge" (delta_of "normal") ∷ []) flooded in
    (lookup "bilge" after.acked ≡ some alarm) × (lookup "bilge" after.self_cleared ≡ none)
unfolding lookup decode parse_not_state ◌=s◌
ack_survives_echo_example =
    ack_survives_echo json "bilge" flooded 0 5 bilge (delta_of "normal") [] refl refl tt refl
      (omega arith)

abbrev worse : Notification
worse = record { path = "bilge"; message = "water"; state = emergency; wants_sound = false }

abbrev cleared : Notification
cleared = record { path = "bilge"; message = "water"; state = normal; wants_sound = false }

run-Sound_example :
    Sound "bilge"
      (view "bilge" (run json (receives 1 "bilge" (delta_of "alarm") ∷ []) empty_registry))
run-Sound_example = run-Sound json "bilge" (receives 1 "bilge" (delta_of "alarm") ∷ [])

most_severe-unacknowledged_example :
    (is_acknowledged "bilge" (run json (receives 1 "bilge" (delta_of "alarm") ∷ []) empty_registry)
      ≡ false)
    × (false ≡ false)
unfolding run lookup decode parse_not_state asks_sound ◌=s◌ apply apply_decoded most_severe insert
most_severe-unacknowledged_example =
    most_severe-unacknowledged json (receives 1 "bilge" (delta_of "alarm") ∷ []) bilge refl
