-- ===== src/Tests/Wire.antt =====
-- Runs of the theorems on the stream client.
use espos_p4_cockpit.Prelude.{
  ℕ, ◌≡◌, refl, Bool, true, false, List, [], ◌∷◌, Option, none, some, length, Bytes, arith,
}
use espos_p4_cockpit.Stream.{
  State, stop, pause, segment, failure, Effect, Link, failed, run_connection,
}
use espos_p4_cockpit.Stream.Framing.{quiet}
use espos_p4_cockpit.Stream.Session.{told, run_connection-wire}
use espos_p4_cockpit.Stream.Pacing.{Ends, run_connection-turn}
use espos_p4_cockpit.Stream.Client.{Request, Answers, new_state}
use espos_p4_cockpit.Stream.Client.World.{
  begun, looked, created, freed, exited, ended, stopped, diagnosed, empty, run,
}
use espos_p4_cockpit.Stream.Client.Phases.{IsSingle}
use espos_p4_cockpit.Stream.Client.Singleton.{run-IsSingle}
use espos_p4_cockpit.Stream.Task.{Attempt}

-- An engine that decodes each frame into the number of its bytes.
abbrev header : Bytes → Option (ℕ × ℕ)
header bs = some (2, 1)

abbrev decode : ℕ → Bytes → Option (ℕ × ℕ)
decode size bs = some (length bs, 4)

abbrev pixels : Bytes → ℕ × ℕ
pixels bs = (length bs, 4)

abbrev tick : ℕ → ℕ
tick k = 1000

abbrev takes : List (Effect ℕ) → Bool
takes log = true

abbrev small : Request
small = record { width = 2; height = 1; cb = true }

abbrev all_given : Answers
all_given = record { engine = true; rx = true; out_0 = some 64; out_1 = some 64; task = true }

abbrev shown_small : State
shown_small = record (new_state small) { out_buf_size = 64 }

abbrev fresh_link : Link ℕ
fresh_link = record { arrivals = []; commands = []; now = 0; readings = 0; log = [] }

abbrev two_frames : List Bytes
two_frames = (7 ∷ 8 ∷ 9 ∷ []) ∷ (5 ∷ []) ∷ []

run_connection-wire_example :
    (s' : State) × (l' : Link ℕ) × (run_connection header decode tick takes 3 0 shown_small (
        quiet header decode tick takes
          (segment (0 ∷ 0 ∷ [])
            ∷ segment (0 ∷ 3 ∷ 7 ∷ [])
            ∷ segment (8 ∷ 9 ∷ 0 ∷ 0 ∷ 0 ∷ 1 ∷ 5 ∷ [])
            ∷ [])
          fresh_link)
      ≡ some (failed, s', l'))
    × (l'.log ≡ told header decode tick takes pixels two_frames 0 [])
run_connection-wire_example =
    run_connection-wire header decode tick takes pixels 2 1 64 (λ log. refl) two_frames 0
      (segment (0 ∷ 0 ∷ [])
        ∷ segment (0 ∷ 3 ∷ 7 ∷ [])
        ∷ segment (8 ∷ 9 ∷ 0 ∷ 0 ∷ 0 ∷ 1 ∷ 5 ∷ [])
        ∷ [])
      shown_small fresh_link
      (record { running = refl; paused = refl; cb = refl; wide = refl; high = refl; room = refl })
      ((omega arith, omega arith, refl, refl), ((omega arith, omega arith, refl, refl), tt))
      (omega arith, (omega arith, (omega arith, tt))) refl

abbrev busy_link : Link ℕ
busy_link = record fresh_link {
  arrivals = segment (0 ∷ 0 ∷ 0 ∷ 1 ∷ 5 ∷ 0 ∷ []) ∷ failure ∷ [];
  commands = [] ∷ (pause true ∷ []) ∷ [] ∷ (pause false ∷ stop ∷ []) ∷ [];
}

run_connection-turn_example :
    Ends header decode tick takes
      (run_connection header decode tick takes 2 0 shown_small busy_link)
run_connection-turn_example =
    run_connection-turn header decode tick takes 2 0 shown_small busy_link refl (omega arith)

empty-IsSingle : IsSingle empty
empty-IsSingle = record {
  current = refl;
  states = refl;
  engines = refl;
  buffers = refl;
  made = tt;
  handed = tt;
  dropped = tt;
  tasks = tt;
  ending = tt;
}

run-IsSingle_example : IsSingle (
    run
      (begun small all_given
        ∷ begun small all_given
        ∷ looked 1
        ∷ looked 0
        ∷ freed 0
        ∷ created 0 true
        ∷ stopped
        ∷ diagnosed
        ∷ exited 0
        ∷ begun small all_given
        ∷ looked 0
        ∷ created 0 true
        ∷ ended 0
        ∷ [])
      empty)
run-IsSingle_example =
    run-IsSingle
      (begun small all_given
        ∷ begun small all_given
        ∷ looked 1
        ∷ looked 0
        ∷ freed 0
        ∷ created 0 true
        ∷ stopped
        ∷ diagnosed
        ∷ exited 0
        ∷ begun small all_given
        ∷ looked 0
        ∷ created 0 true
        ∷ ended 0
        ∷ [])
      empty empty-IsSingle

abbrev attempts : List (Attempt ℕ)
attempts =
    record { commands = []; link = none }
    ∷ record { commands = [] ∷ [] ∷ (stop ∷ []) ∷ []; link = some (9, busy_link) }
    ∷ []
