-- ===== src/Http/Screenshot.antt =====
-- The single-flight guard of GET /screenshot in main/jlp/net/http_api.cpp. One server task runs the
-- handlers, one at a time; the UI task runs the snapshots that they post.
use espos_p4_cockpit.Prelude.{
  ℕ, ◌+◌, ◌≤◌, ◌≡◌, ◌↔◌, ◌⊎◌, Bool, true, false, List, [], ◌∷◌, ◌++◌, if◌then◌else◌, length, arith,
}

-- `UiHop::state` of a snapshot that is still queued.
pub data Claim : Type 0 where
  pending abandoned : Claim

pub data Handler : Type 0 where
  idle : Handler
  waiting : Handler  -- for the snapshot that was posted last
  served : Handler  -- that snapshot has run, and the handler has yet to look

-- `busy` is `g_screenshot_busy`; `queued` the snapshots on the UI task, the oldest first; `turned_away`
-- counts the answers 429.
pub record Shots : Type 0 where
  pub busy : Bool
  pub queued : List Claim
  pub handler : Handler
  pub turned_away : ℕ

pub data Event : Type 0 where
  requested ran taken timed_out : Event

abbrev pub abandon_last : List Claim → List Claim
abandon_last [] = []
abandon_last (c ∷ []) = abandoned ∷ []
abandon_last (c ∷ d ∷ cs) = c ∷ abandon_last (d ∷ cs)

-- A request, while no other is being handled, that gets its semaphore.
abbrev pub request : Shots → Shots
request s = elim s.handler [
  | idle ↦
      if s.busy
      then record s { turned_away = s.turned_away + 1 }
      else record s { busy = true; queued = s.queued ++ pending ∷ []; handler = waiting }
  | _ ↦ s
]

-- The job that is at the head of the queue: one whose handler has given up clears the flag.
abbrev pub run_snapshot : Shots → Shots
run_snapshot s = elim s.queued [
  | [] ↦ s
  | c ∷ cs ↦ elim c [
    | pending ↦ record s { queued = cs; handler = served }
    | abandoned ↦ record s { queued = cs; busy = false }
  ]
]

-- The handler has the semaphore, or its wait is over: only a snapshot that has not run is left the flag.
unfoldable pub step_shots : Event → Shots → Shots
step_shots requested s = request s
step_shots ran s = run_snapshot s
step_shots taken s = elim s.handler [ served ↦ record s { busy = false; handler = idle } | _ ↦ s ]
step_shots timed_out s = elim s.handler [
  | idle ↦ s
  | waiting ↦ record s { queued = abandon_last s.queued; handler = idle }
  | served ↦ record s { busy = false; handler = idle }
]

pub run : List Event → Shots → Shots
run [] s = s
run (e ∷ es) s = run es (step_shots e s)

abbrev pub none_yet : Shots
none_yet = record { busy = false; queued = []; handler = idle; turned_away = 0 }

-- Where the two tasks can stand.
abbrev pub Stands : Bool → List Claim → Handler → Type 0
Stands false [] idle = Unit
Stands true (pending ∷ []) waiting = Unit
Stands true [] served = Unit
Stands true (abandoned ∷ []) idle = Unit
Stands _ _ _ = ⊥

step_shots-Stands :
    (e : Event) (s : Shots)
    → Stands s.busy s.queued s.handler
    → let s' = step_shots e s in Stands s'.busy s'.queued s'.handler
unfolding step_shots
step_shots-Stands requested s k = ground arith
step_shots-Stands ran s k = ground arith
step_shots-Stands taken s k = ground arith
step_shots-Stands timed_out s k = ground arith

run-Stands :
    (es : List Event) (s : Shots)
    → Stands s.busy s.queued s.handler
    → let s' = run es s in Stands s'.busy s'.queued s'.handler
unfolding run
run-Stands [] s k = k
run-Stands (e ∷ es) s k = run-Stands es (step_shots e s) (step_shots-Stands e s k)

-- After any requests, snapshots and timeouts in any order: at most one snapshot is queued, and the flag
-- is set exactly while one is queued or a handler is at work, so that it is never left set.
pub run_single :
    (es : List Event)
    → let s = run es none_yet in
      (length s.queued ≤ 1)
      × ((s.busy ≡ true)
          ↔ ((s.queued ≡ pending ∷ []) ⊎ ((s.queued ≡ abandoned ∷ []) ⊎ (s.handler ≡ served))))
run_single es = stands (run es none_yet) (run-Stands es none_yet tt)
  where
    stands :
        (s : Shots)
        → Stands s.busy s.queued s.handler
        → (length s.queued ≤ 1)
          × ((s.busy ≡ true)
              ↔ ((s.queued ≡ pending ∷ []) ⊎ ((s.queued ≡ abandoned ∷ []) ⊎ (s.handler ≡ served))))
    stands s k = (ground arith, (λ e. ground arith, λ e. ground arith))
