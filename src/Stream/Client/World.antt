-- ===== src/Stream/Client/World.antt =====
-- The stream client of main/jlp/net/stream_client.cpp between several tasks: starts, stops and the end of
-- the stream's task, each in the steps between which another task may run.
use espos_p4_cockpit.Prelude.{ℕ, zero, suc, Bool, List, [], ◌∷◌, Option, none, some, if◌then◌else◌}
use espos_p4_cockpit.Stream.{State}
use espos_p4_cockpit.Stream.Client.{
  Object, Client, Request, Answers, free_state, prepare, take_g_state, clear_g_state, with_state,
  request_stop, stop_diagnostic,
}

-- The client, and the `State`s by how far they are: of starts before their second look at `g_state`
-- (`made`), of the start whose task is not created yet (`handed`), of starts that failed and are yet to
-- free theirs (`dropped`), of tasks that run (`tasks`), and of tasks that have let go of `g_state` and
-- are yet to free theirs and go (`ending`).
pub record World : Type 0 where
  pub client : Client
  pub made : List Object
  pub handed : List Object
  pub dropped : List Object
  pub tasks : List Object
  pub ending : List Object

-- One step of one task; a number says which of those that are so far.
pub data Event : Type 0 where
  begun : Request → Answers → Event
  looked : ℕ → Event
  created : ℕ → Bool → Event  -- and whether the task can be created
  freed : ℕ → Event
  exited : ℕ → Event
  ended : ℕ → Event
  worked : (State → State) → Event  -- the task, or a caller that sets a flag
  stopped : Event
  diagnosed : Event

abbrev pub pick : ℕ → List Object → Option (Object × List Object)
pick i [] = none
pick zero (o ∷ os) = some (o, os)
pick (suc i) (o ∷ os) = elim (pick i os) [ none ↦ none | some r ↦ some (r.0, o ∷ r.1) ]

unfoldable pub looks : Object → World → World
unfolding take_g_state
looks o w =
    let (ours, c) = take_g_state o w.client in
    if ours
    then record w { client = c; handed = o ∷ w.handed }
    else record w { client = c; dropped = o ∷ w.dropped }

unfoldable pub creates : Bool → Object → World → World
unfolding clear_g_state
creates task o w =
    if task
    then record w { tasks = o ∷ w.tasks }
    else record w { client = clear_g_state o w.client; dropped = o ∷ w.dropped }

unfoldable pub exits : Object → World → World
unfolding clear_g_state
exits o w = record w { client = clear_g_state o w.client; ending = o ∷ w.ending }

abbrev pub frees : Object → World → World
frees o w = record w { client = free_state o w.client }

unfoldable pub begins : Request → Answers → World → World
unfolding prepare
begins q a w =
    let (new, c) = prepare q a w.client in
    record w { client = c; made = elim new [ none ↦ w.made | some o ↦ o ∷ w.made ] }

unfoldable pub step : Event → World → World
unfolding begins looks creates exits
step (begun q a) w = begins q a w
step (looked i) w = elim (pick i w.made) [ none ↦ w | some r ↦ looks r.0 (record w { made = r.1 }) ]
step (created i task) w = elim (pick i w.handed) [
  | none ↦ w
  | some r ↦ creates task r.0 (record w { handed = r.1 })
]
step (freed i) w = elim (pick i w.dropped) [
  | none ↦ w
  | some r ↦ frees r.0 (record w { dropped = r.1 })
]
step (exited i) w = elim (pick i w.tasks) [
  | none ↦ w
  | some r ↦ exits r.0 (record w { tasks = r.1 })
]
step (ended i) w = elim (pick i w.ending) [
  | none ↦ w
  | some r ↦ frees r.0 (record w { ending = r.1 })
]
step (worked f) w = record w { client = with_state f w.client }
step stopped w = record w { client = request_stop w.client }
step diagnosed w = record w { client = (stop_diagnostic w.client).1 }

unfoldable pub run : List Event → World → World
unfolding step
run [] w = w
run (e ∷ es) w = run es (step e w)

abbrev pub empty : World
empty = record {
  client = record { g_state = none; states = 0; engines = 0; buffers = 0; next_id = 0 };
  made = [];
  handed = [];
  dropped = [];
  tasks = [];
  ending = [];
}
