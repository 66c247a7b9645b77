-- ===== src/Http/Hop.antt =====
-- The hop of POST /layout in main/jlp/net/http_api.cpp: the handler waits while its job stands in the
-- queue of the UI task, gives up, or waits on for a job that has begun. A run of the two tasks is any
-- sequence of steps; what the job does to the panel is a parameter.
use espos_p4_cockpit.Prelude.{
  ◌≡◌, ◌⊎◌, refl, Bool, true, false, List, [], ◌∷◌, ◌++◌, if◌then◌else◌, arith,
}

-- `UiHop::state`; `done` is the screenshot's.
pub data HopState : Type 0 where
  pending abandoned running : HopState

pub data Job : Type 0 where
  queued applying skipping over : Job

-- What the handler answers: the result, "not applied" or "still running".
pub data Answer (R : Type 0) : Type 0 where
  result : R → Answer R
  not_applied still_running : Answer R

pub data Wait (R : Type 0) : Type 0 where
  first second : Wait R
  answered : Answer R → Wait R

pub record Hop (X R : Type 0) : Type 0 where
  pub state : HopState
  pub sem : Bool
  pub job : Job
  pub found : R  -- `*result`
  pub handler : Wait R
  pub panel : X

abbrev pub posted : {X R : Type 0} → R → X → Hop X R
posted blank x = record {
  state = pending;
  sem = false;
  job = queued;
  found = blank;
  handler = first;
  panel = x;
}

-- The job begins and claims the work, applies, and gives the semaphore; the handler takes it, or its
-- wait times out.
pub data Step : Type 0 where
  begins applies skips takes times_out : Step

module _ {X R : Type 0} (apply : X → R × X) where
  abbrev pub claim : Hop X R → Hop X R
  claim h = elim h.job [
    | queued ↦ elim h.state [
      | pending ↦ record h { state = running; job = applying }
      | _ ↦ record h { job = skipping }
    ]
    | _ ↦ h
  ]

  abbrev pub give_up : Hop X R → Hop X R
  give_up h = elim h.handler [
    | first ↦ elim h.state [
      | pending ↦ record h { state = abandoned; handler = answered not_applied }
      | _ ↦ record h { handler = second }
    ]
    | second ↦ record h { handler = answered still_running }
    | answered a ↦ h
  ]

  -- The handler has the semaphore, and reads the result.
  abbrev pub take_result : Hop X R → Hop X R
  take_result h = elim h.handler [
    | answered a ↦ h
    | _ ↦ if h.sem then record h { sem = false; handler = answered (result h.found) } else h
  ]

  unfoldable pub step : Step → Hop X R → Hop X R
  step begins h = claim h
  step applies h = elim h.job [
    | applying ↦
        let (r, x) = apply h.panel in record h { panel = x; found = r; job = over; sem = true }
    | _ ↦ h
  ]
  step skips h = elim h.job [ skipping ↦ record h { job = over; sem = true } | _ ↦ h ]
  step takes h = take_result h
  step times_out h = give_up h

  unfoldable pub run : List Step → Hop X R → Hop X R
  unfolding step
  run [] h = h
  run (s ∷ ss) h = run ss (step s h)

  -- Where the two tasks can stand, with the panel `x` as it was when the job was posted.
  abbrev pub Stands : X → Job → HopState → Wait R → Bool → R → X → Type 0
  Stands x queued pending first false r p = p ≡ x
  Stands x queued abandoned (answered not_applied) false r p = p ≡ x
  Stands x skipping abandoned (answered not_applied) false r p = p ≡ x
  Stands x over abandoned (answered not_applied) true r p = p ≡ x
  Stands x applying running first false r p = p ≡ x
  Stands x applying running second false r p = p ≡ x
  Stands x applying running (answered still_running) false r p = p ≡ x
  Stands x over running first true r p = (r ≡ (apply x).0) × (p ≡ (apply x).1)
  Stands x over running second true r p = (r ≡ (apply x).0) × (p ≡ (apply x).1)
  Stands x over running (answered still_running) true r p = p ≡ (apply x).1
  Stands x over running (answered (result r')) false r p = (r' ≡ (apply x).0) × (p ≡ (apply x).1)
  Stands x _ _ _ _ _ _ = ⊥

  abbrev pub StandsSo : X → Hop X R → Type 0
  StandsSo x h = Stands x h.job h.state h.handler h.sem h.found h.panel

  step-StandsSo : (s : Step) (x : X) (h : Hop X R) → StandsSo x h → StandsSo x (step s h)
  unfolding step
  step-StandsSo begins x h k = ground arith
  step-StandsSo applies x h k = ground arith
  step-StandsSo skips x h k = ground arith
  step-StandsSo takes x h k = ground arith
  step-StandsSo times_out x h k = ground arith

  run-StandsSo : (ss : List Step) (x : X) (h : Hop X R) → StandsSo x h → StandsSo x (run ss h)
  unfolding run
  run-StandsSo [] x h k = k
  run-StandsSo (s ∷ ss) x h k = run-StandsSo ss x (step s h) (step-StandsSo s x h k)

  -- What an answer promises about the panel as it now is.
  abbrev pub Honest : X → Wait R → X → Type 0
  Honest x (answered (result r)) p = (r ≡ (apply x).0) × (p ≡ (apply x).1)
  Honest x (answered not_applied) p = p ≡ x
  Honest x _ p = (p ≡ x) ⊎ (p ≡ (apply x).1)

  -- After any steps of the two tasks from the moment that the job is posted: if the handler has
  -- answered that the layout was not applied, the panel is and stays as it was; if it has answered
  -- with a result, that is the result of the one apply that was made, and the panel is what that
  -- apply left; and in every case the job is applied at most once.
  pub run-Honest :
      (ss : List Step) (blank : R) (x : X)
      → let h = run ss (posted blank x) in Honest x h.handler h.panel
  run-Honest ss blank x = honest (run ss (posted blank x)) (run-StandsSo ss x (posted blank x) refl)
    where
      honest : (h : Hop X R) → StandsSo x h → Honest x h.handler h.panel
      honest h k = ground arith

  run_append : (ss ts : List Step) (h : Hop X R) → run (ss ++ ts) h ≡ run ts (run ss h)
  unfolding run
  run_append [] ts h = refl
  run_append (s ∷ ss) ts h = run_append ss ts (step s h)

  abbrev pub HasAnswered : Wait R → Type 0
  HasAnswered (answered a) = Unit
  HasAnswered _ = ⊥

  -- However far the two tasks have come, the handler has answered once its two waits have timed out,
  -- and, without that, once the job has had its turn and the handler takes the semaphore.
  pub run-HasAnswered :
      (ss : List Step) (blank : R) (x : X)
      → HasAnswered (run (ss ++ times_out ∷ times_out ∷ []) (posted blank x)).handler
        × HasAnswered (run (ss ++ begins ∷ applies ∷ skips ∷ takes ∷ []) (posted blank x)).handler
  unfolding run step
  run-HasAnswered ss blank x =
      let h = run ss (posted blank x) in
      let k = run-StandsSo ss x (posted blank x) refl in
      (
        rw (run_append ss (times_out ∷ times_out ∷ []) (posted blank x)) (late h k),
        rw (run_append ss (begins ∷ applies ∷ skips ∷ takes ∷ []) (posted blank x)) (fair h k),
      )
    where
      late : (h : Hop X R) → StandsSo x h → HasAnswered (run (times_out ∷ times_out ∷ []) h).handler
      late h k = ground arith

      fair :
          (h : Hop X R)
          → StandsSo x h
          → HasAnswered (run (begins ∷ applies ∷ skips ∷ takes ∷ []) h).handler
      fair h k = ground arith
