-- ===== src/Stream/Task.antt =====
-- The life of the stream task of main/jlp/net/stream_client.cpp: connect, read, and pause for longer
-- and longer while no session delivers a frame. What a connection attempt finds is an argument.
pub mod Backoff
use espos_p4_cockpit.Prelude.{
  ℕ, zero, suc, ◌+◌, ◌*◌, ◌/◌, ◌==◌, min, Bool, true, false, not, List, [], ◌∷◌, Option, none, some,
  ltb, if◌then◌else◌, drop, Bytes,
}
use espos_p4_cockpit.Stream.{
  State, Command, obey, Effect, Link, Outcome, waiting, next32, run_connection,
}
use espos_p4_cockpit.Stream.Pacing.{pending}

abbrev pub max_backoff_ms : ℕ
max_backoff_ms = 10000

-- What connect_to_server() finds, with the address of the server, and what other tasks do meanwhile:
-- one entry for each read of `running` outside the session.
pub record Attempt (P : Type 0) : Type 0 where
  pub commands : List (List Command)
  pub link : Option (ℕ × Link P)

-- `waits` holds how long the task paused after each attempt, newest first.
pub record Task : Type 0 where
  pub state : State
  pub backoff_ms : ℕ
  pub had_session : Bool
  pub waits : List ℕ
  pub stuck : Bool  -- in a pause that nothing ends

abbrev pub flags : List (List Command) → State → State
flags [] s = s
flags (c ∷ cs) s = obey c s

-- `for (waited = 0; waited < backoff_ms && running; waited += 100)`, with fuel for its rounds.
unfoldable pub wait : ℕ → ℕ → ℕ → List (List Command) → State → ℕ × State
wait zero waited backoff cs s = (waited, s)
wait (suc fuel) waited backoff cs s =
    let s₁ = flags cs s in
    let rest = wait fuel (waited + 100) backoff (drop 1 cs) s₁ in
    if not (ltb waited backoff) then (waited, s) else if not s₁.running then (waited, s₁) else rest

unfoldable pub pause_between : List (List Command) → Task → Task
pause_between cs t =
    let (ms, s) = wait (t.backoff_ms + 1) 0 t.backoff_ms cs t.state in
    record t { state = s; waits = ms ∷ t.waits }

abbrev pub doubled : ℕ → ℕ
doubled ms = min (ms * 2) max_backoff_ms

-- A task starts with these.
abbrev pub begin : State → Task
begin s = record { state = s; backoff_ms = 1000; had_session = false; waits = []; stuck = false }

module _ {P : Type 0} (info : Bytes → Option (ℕ × ℕ)) (process : ℕ → Bytes → Option (P × ℕ))
    (tick : ℕ → ℕ) (takes : List (Effect P) → Bool) where
  -- After a session: only one that delivered frames sets the backoff back.
  unfoldable pub after_session : ℕ → Task → Option (Outcome × State × Link P) → Task
  after_session before t none = record t { stuck = true }
  after_session before t (some (o, s, l)) = record t {
    state = record s { connected = false };
    had_session = true;
    backoff_ms = if s.frames_decoded == before then doubled t.backoff_ms else 1000;
    stuck = elim o [ waiting ↦ true | _ ↦ false ];
  }

  -- A session on a connection to the given address.
  unfoldable pub session : ℕ → Link P → Task → Task
  session addr l t =
      let s₁ = record t.state {
        reconnects = if t.had_session then next32 t.state.reconnects else t.state.reconnects;
        connected = true;
        peer_be = addr;
      } in
      after_session s₁.frames_decoded t
        (run_connection info process tick takes (pending l.arrivals + 1) 0 s₁ l)

  -- One round of `while (running)`: whether the loop goes on, and what it did.
  unfoldable pub attempt : Attempt P → Task → Bool × Task
  attempt a t =
      let t₁ = record t { state = flags a.commands t.state } in
      let cs = drop 1 a.commands in
      if not t₁.state.running then (false, t₁) else (
        true,
        elim a.link [
          | none ↦ let t₂ = pause_between cs t₁ in record t₂ { backoff_ms = doubled t₂.backoff_ms }
          | some l ↦ let t₂ = session l.0 l.1 t₁ in if t₂.stuck then t₂ else pause_between cs t₂
        ],
      )

  -- The loop, over the attempts that it comes to; whether it has ended.
  unfoldable pub stream_task : List (Attempt P) → Task → Bool × Task
  stream_task [] t = (false, t)
  stream_task (a ∷ rest) t =
      let (on, t₁) = attempt a t in
      let more = stream_task rest t₁ in
      if not on then (true, t₁) else if t₁.stuck then (false, t₁) else more
