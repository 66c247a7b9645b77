-- ===== src/Tests/Requests.antt =====
-- Runs of the theorems on the HTTP handlers, the audio switches and the turned strip.
use espos_p4_cockpit.Prelude.{
  ℕ, ◌+◌, ◌≤◌, ◌≡◌, ◌↔◌, ◌⊎◌, refl, String, true, false, List, [], ◌∷◌, some, length, Bytes, codes,
  arith,
}
use espos_p4_cockpit.Json.{JsonLib}
use espos_p4_cockpit.Swap.{no_result, not_initialised}
use espos_p4_cockpit.Http.Body.{Call, part}
use espos_p4_cockpit.Http.Hop.{
  begins, applies, skips, takes, times_out, HasAnswered, posted, run, run-HasAnswered,
}
use espos_p4_cockpit.Http.Push.{layout_post, Says, layout_post-Says}
use espos_p4_cockpit.Http.Screenshot
use espos_p4_cockpit.Http.Screenshot.{
  requested, ran, timed_out, none_yet, pending, abandoned, run_single,
}
use espos_p4_cockpit.Audio.{init_voice}
use espos_p4_cockpit.Audio.Kept
use espos_p4_cockpit.Audio.Kept.{IsApplied, run-init_voice}
use espos_p4_cockpit.Ui.{at, flush}
use espos_p4_cockpit.Ui.Rotated.{flush-turned}
use espos_p4_cockpit.Tests.Sample.{json, object, field, closed, str}
use espos_p4_cockpit.Tests.Memory.{memory, mounted}
use espos_p4_cockpit.Tests.Layouts.{counter, fresh}

abbrev two_parts : List Call
two_parts = (5, part (b'{' ∷ [])) ∷ (7, part (b'}' ∷ 0 ∷ [])) ∷ []

-- A job that adds one and answers what it found.
abbrev add_one : ℕ → ℕ × ℕ
add_one n = (n, n + 1)

run-HasAnswered_example :
    HasAnswered add_one (run add_one (begins ∷ times_out ∷ times_out ∷ []) (posted 0 5)).handler
    × HasAnswered add_one
        (run add_one (begins ∷ begins ∷ applies ∷ skips ∷ takes ∷ []) (posted 0 5)).handler
run-HasAnswered_example = run-HasAnswered add_one (begins ∷ []) 0 5

abbrev brace : Bytes → String
brace bs = "{}"

layout_post-Says_example :
    let (reply, p') =
      layout_post json memory ℕ codes counter brace 2 two_parts 0 true
        (begins ∷ applies ∷ takes ∷ [])
        (record no_result { err = some not_initialised })
        5
        (fresh json) in
    Says json memory ℕ codes counter brace (fresh json) p' reply
layout_post-Says_example =
    layout_post-Says json memory ℕ codes counter brace 2 two_parts 0 true
      (begins ∷ applies ∷ takes ∷ []) (record no_result { err = some not_initialised }) 5
      (fresh json)

run-init_voice_example :
    IsApplied memory
      (Kept.run memory (Kept.held true ∷ Kept.mic_muted true ∷ Kept.turned 140 true ∷ []) (
        init_voice memory
            (some (record { ptt_held = false; probe = true }))
            (some (record { enabled = true; volume = 50 }))
            60
            mounted,
        mounted,
      )).0
run-init_voice_example =
    run-init_voice memory (Kept.held true ∷ Kept.mic_muted true ∷ Kept.turned 140 true ∷ [])
      (some (record { ptt_held = false; probe = true }))
      (some (record { enabled = true; volume = 50 })) 60 mounted (λ e. refl)

flush-turned_example :
    let s = flush true 4 4 (record { x1 = 1; y1 = 0; x2 = 2; y2 = 1 }) (10 ∷ 11 ∷ 12 ∷ 13 ∷ []) in
    (at s.px 1 ≡ 12) × (s.x + 1 ≡ 2) × (s.y + 0 ≡ 2)
flush-turned_example =
    flush-turned 4 4 (record { x1 = 1; y1 = 0; x2 = 2; y2 = 1 }) (10 ∷ 11 ∷ 12 ∷ 13 ∷ []) 0 1
      (omega arith) (omega arith) (omega arith) (omega arith) refl (omega arith) (omega arith)

-- A parser that reads every text as a request for the screen "b".
abbrev asks_b : JsonLib
asks_b = record json { deserialize = λ s. some (object (field "id" (str "b") closed)) }

run_single_example :
    let s = Screenshot.run (requested ∷ timed_out ∷ requested ∷ []) none_yet in
    (length s.queued ≤ 1)
    × ((s.busy ≡ true) ↔ (
        (s.queued ≡ pending ∷ [])
        ⊎ ((s.queued ≡ abandoned ∷ []) ⊎ (s.handler ≡ Screenshot.served))))
run_single_example = run_single (requested ∷ timed_out ∷ requested ∷ [])
