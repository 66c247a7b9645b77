-- ===== src/Stream/Client/Singleton.antt =====
-- That main/jlp/net/stream_client.cpp has one client at a time and loses nothing that it allocates.
use espos_p4_cockpit.Prelude.{
  suc, ◌<◌, ◌≡◌, Bool, true, false, ◌↔◌, List, [], ◌∷◌, Option, none, some, is_some, arith,
}
use espos_p4_cockpit.Stream.{State}
use espos_p4_cockpit.Stream.Client.{
  Object, Client, Request, Answers, prepare, take_g_state, clear_g_state, start, with_state,
  request_stop, stop_diagnostic,
}
use espos_p4_cockpit.Stream.Client.World.{
  World, Event, begun, looked, created, freed, exited, ended, worked, stopped, diagnosed, pick,
  looks, creates, exits, frees, begins, step, run,
}
use espos_p4_cockpit.Stream.Client.Phases.{
  allotted, IsSingle, Splits, pick-Splits, IsOnly, pick-IsOnly, pick-IsOnly_after, kept, single,
  recount, frees-IsSingle, looks-IsSingle, creates-IsSingle, exits-IsSingle,
}

-- A start says yes exactly for a size with no zero, when there is no client and the driver and the
-- system give all that is asked for; a start that says no has given back everything.
start_lem :
    (q : Request) (a : Answers) (c : Client)
    → let (said, c') = start q a c in
      ((said ≡ true) ↔ (
        (0 < q.width)
        × (0 < q.height)
        × (c.g_state ≡ none)
        × (a.engine ≡ true)
        × (a.rx ≡ true)
        × (is_some a.out_0 ≡ true)
        × (is_some a.out_1 ≡ true)
        × (a.task ≡ true)))
      × (said ≡ false → c' ≡ record c { next_id = c'.next_id })
unfolding start prepare take_g_state clear_g_state
start_lem q a c = ((λ e. ground arith, λ e. ground arith), λ e. ground arith)

-- Diagnostics never stop the client of a widget, and stop their own.
pub stop_diagnostic_lem :
    (c : Client) (o : Object)
    → c.g_state ≡ some o
    → let (said, c') = stop_diagnostic c in
      (o.state.cb ≡ true → (said ≡ false) × (c' ≡ c))
      × (o.state.cb ≡ false → (said ≡ true) × (c' ≡ request_stop c))
unfolding stop_diagnostic
stop_diagnostic_lem c o e = (λ k. ground arith, λ k. ground arith)

-- One of a phase taken out.
looked-IsSingle :
    (w : World) (r : Option (Object × List Object))
    → IsSingle w
    → Splits w.made r
    → IsSingle (elim r [ none ↦ w | some r ↦ looks r.0 (record w { made = r.1 }) ])
looked-IsSingle w none k h = k
looked-IsSingle w (some (o, rest)) k (h, hs, n) =
    let (counts, (made, handed, dropped, tasks, ending)) = kept w k in
    let w' : World = record w { made = rest } in
    looks-IsSingle o w' h k.current (
      recount w.client (allotted w) (suc (allotted w')) (omega (arith, n)) counts,
      (hs, handed, dropped, tasks, ending),
    )

freed-IsSingle :
    (w : World) (r : Option (Object × List Object))
    → IsSingle w
    → Splits w.dropped r
    → IsSingle (elim r [ none ↦ w | some r ↦ frees r.0 (record w { dropped = r.1 }) ])
freed-IsSingle w none k h = k
freed-IsSingle w (some (o, rest)) k (h, hs, n) =
    let (counts, (made, handed, dropped, tasks, ending)) = kept w k in
    let w' : World = record w { dropped = rest } in
    frees-IsSingle o w' h k.current (
      recount w.client (allotted w) (suc (allotted w')) (omega (arith, n)) counts,
      (made, handed, hs, tasks, ending),
    )

ended-IsSingle :
    (w : World) (r : Option (Object × List Object))
    → IsSingle w
    → Splits w.ending r
    → IsSingle (elim r [ none ↦ w | some r ↦ frees r.0 (record w { ending = r.1 }) ])
ended-IsSingle w none k h = k
ended-IsSingle w (some (o, rest)) k (h, hs, n) =
    let (counts, (made, handed, dropped, tasks, ending)) = kept w k in
    let w' : World = record w { ending = rest } in
    frees-IsSingle o w' h k.current (
      recount w.client (allotted w) (suc (allotted w')) (omega (arith, n)) counts,
      (made, handed, dropped, tasks, hs),
    )

created-IsSingle :
    (task : Bool) (w : World) (r : Option (Object × List Object))
    → IsSingle w
    → Splits w.handed r
    → IsOnly w.tasks w.client.g_state r
    → IsSingle (elim r [ none ↦ w | some r ↦ creates task r.0 (record w { handed = r.1 }) ])
created-IsSingle task w none k h a = k
created-IsSingle task w (some (o, rest)) k (h, hs, n) (no_start, no_task, s, at, same) =
    let (counts, (made, handed, dropped, tasks, ending)) = kept w k in
    let w' : World = record w { handed = rest } in
    creates-IsSingle task o w' h (no_start, no_task) (s, at, same)
      (
        recount w.client (allotted w) (suc (allotted w')) (omega (arith, n)) counts,
        (made, hs, dropped, tasks, ending),
      )

exited-IsSingle :
    (w : World) (r : Option (Object × List Object))
    → IsSingle w
    → Splits w.tasks r
    → IsOnly w.handed w.client.g_state r
    → IsSingle (elim r [ none ↦ w | some r ↦ exits r.0 (record w { tasks = r.1 }) ])
exited-IsSingle w none k h a = k
exited-IsSingle w (some (o, rest)) k (h, hs, n) (no_task, no_start, s, at, same) =
    let (counts, (made, handed, dropped, tasks, ending)) = kept w k in
    let w' : World = record w { tasks = rest } in
    exits-IsSingle o w' h (no_start, no_task) (s, at, same)
      (
        recount w.client (allotted w) (suc (allotted w')) (omega (arith, n)) counts,
        (made, handed, dropped, hs, ending),
      )

begins-IsSingle : (q : Request) (a : Answers) (w : World) → IsSingle w → IsSingle (begins q a w)
unfolding begins prepare
begins-IsSingle q a w k =
    let (counts, whole) = kept w k in
    let e = k.current in single (begins q a w) (ground arith) (ground arith)

with_state-IsSingle :
    (f : State → State) (w : World)
    → IsSingle w
    → IsSingle (record w { client = with_state f w.client })
with_state-IsSingle f w k =
    let (counts, whole) = kept w k in
    let e = k.current in
    single (record w { client = with_state f w.client }) (ground arith) (ground arith)

stop_diagnostic-IsSingle :
    (w : World) → IsSingle w → IsSingle (record w { client = (stop_diagnostic w.client).1 })
unfolding stop_diagnostic
stop_diagnostic-IsSingle w k =
    let (counts, whole) = kept w k in
    let e = k.current in
    single (record w { client = (stop_diagnostic w.client).1 }) (ground arith) (ground arith)

step-IsSingle : (e : Event) (w : World) → IsSingle w → IsSingle (step e w)
unfolding step
step-IsSingle (begun q a) w k = begins-IsSingle q a w k
step-IsSingle (looked i) w k = looked-IsSingle w (pick i w.made) k (pick-Splits i w.made k.made)
step-IsSingle (created i task) w k =
    created-IsSingle task w (pick i w.handed) k (pick-Splits i w.handed k.handed)
      (pick-IsOnly i w.handed w.tasks w.client.g_state k.current)
step-IsSingle (freed i) w k =
    freed-IsSingle w (pick i w.dropped) k (pick-Splits i w.dropped k.dropped)
step-IsSingle (exited i) w k =
    exited-IsSingle w (pick i w.tasks) k (pick-Splits i w.tasks k.tasks)
      (pick-IsOnly_after i w.handed w.tasks w.client.g_state k.current)
step-IsSingle (ended i) w k = ended-IsSingle w (pick i w.ending) k (pick-Splits i w.ending k.ending)
step-IsSingle (worked f) w k = with_state-IsSingle f w k
step-IsSingle stopped w k = with_state-IsSingle (λ s. record s { running = false }) w k
step-IsSingle diagnosed w k = stop_diagnostic-IsSingle w k

-- Starts, stops and ends of the stream's task take their steps in any order, with any answers of the
-- driver: at most one `State` at a time waits for its task or has a task that has not let go of
-- `g_state`, and `g_state` is that one, and null where there is none; and one `State`, one engine and
-- three buffers are allocated for each start and each task that is yet to free its own. Tasks that have
-- let go and are yet to go may stand beside the next one.
pub run-IsSingle : (es : List Event) (w : World) → IsSingle w → IsSingle (run es w)
unfolding run
run-IsSingle [] w k = k
run-IsSingle (e ∷ es) w k = run-IsSingle es (step e w) (step-IsSingle e w k)
