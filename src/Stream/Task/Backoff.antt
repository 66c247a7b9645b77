-- ===== src/Stream/Task/Backoff.antt =====
-- How often the stream task of main/jlp/net/stream_client.cpp connects.
use espos_p4_cockpit.Prelude.{
  ℕ, zero, suc, ◌+◌, ◌*◌, ◌≤◌, ◌<◌, ◌≡◌, ◌==◌, refl, min, Bool, true, false, Bool-cases,
  Option-cases, inl, inr, List, [], ◌∷◌, Option, none, some, if◌then◌else◌, drop, All, Bytes, arith,
}
use espos_p4_cockpit.Stream.{
  State, Command, stop, pause, obey, Effect, Link, Outcome, next32, run_connection,
}
use espos_p4_cockpit.Stream.Pacing.{pending}
use espos_p4_cockpit.Stream.Task.{
  Attempt, Task, max_backoff_ms, flags, wait, pause_between, doubled, after_session, session,
  attempt, stream_task,
}

-- A backoff is a second or more, ten at most, and whole tenths.
abbrev pub IsBackoff : ℕ → Type 0
IsBackoff ms = (1000 ≤ ms) × (ms ≤ max_backoff_ms) × (k : ℕ) × (ms ≡ k * 100)

-- An uninterrupted pause lasts as long as the backoff says.
wait-running :
    (fuel k waited backoff : ℕ) (cs : List (List Command)) (s : State)
    → k < fuel
    → waited + k * 100 ≡ backoff
    → (wait fuel waited backoff cs s).1.running ≡ true
    → (wait fuel waited backoff cs s).0 ≡ backoff
unfolding wait
wait-running zero k waited backoff cs s h e r = absurd (ground arith)
wait-running (suc fuel) zero waited backoff cs s h e r = ground arith
wait-running (suc fuel) (suc k) waited backoff cs s h e r = elim (Bool-cases (flags cs s).running) [
  | inl on ↦
      let ih =
        wait-running fuel k (waited + 100) backoff (drop 1 cs) (flags cs s) (omega arith)
          (omega arith) in
      ground (arith, ih)
  | inr off ↦ absurd (ground arith)
]

doubled-IsBackoff : (ms : ℕ) → IsBackoff ms → IsBackoff (doubled ms)
doubled-IsBackoff ms (low, high, k, e) = (omega arith, omega arith, min (k * 2) 100, omega arith)

abbrev pub InRange : ℕ → Type 0
InRange ms = (1000 ≤ ms) × (ms ≤ max_backoff_ms)

-- Each pause so far was in range, but for one that a stop has cut short.
pub record Paced (t : Task) : Type 0 where
  pub backoff : IsBackoff t.backoff_ms
  pub all : t.state.running ≡ true → All InRange t.waits
  pub before : All InRange (drop 1 t.waits)

All-drop : (xs : List ℕ) → All InRange xs → All InRange (drop 1 xs)
All-drop [] h = _
All-drop (x ∷ xs) h = h.1

obey-running : (cs : List Command) (s : State) → (obey cs s).running ≡ true → s.running ≡ true
obey-running [] s r = r
obey-running (stop ∷ cs) s r = absurd (cc (obey-running cs (record s { running = false }) r))
obey-running (pause b ∷ cs) s r = obey-running cs (record s { paused = b }) r

flags-running :
    (cs : List (List Command)) (s : State) → (flags cs s).running ≡ true → s.running ≡ true
flags-running [] s r = r
flags-running (c ∷ cs) s r = obey-running c s r

pause_between-Paced :
    (cs : List (List Command)) (t : Task)
    → IsBackoff t.backoff_ms
    → All InRange t.waits
    → Paced (pause_between cs t)
unfolding pause_between
pause_between-Paced cs t (low, high, k, e) h = record {
  backoff = (low, high, k, e);
  all = λ r.
      let same =
        wait-running (t.backoff_ms + 1) k 0 t.backoff_ms cs t.state (omega arith) (omega arith) r in
      (rw same (low, high), h);
  before = h;
}

module _ {P : Type 0} (info : Bytes → Option (ℕ × ℕ)) (process : ℕ → Bytes → Option (P × ℕ))
    (tick : ℕ → ℕ) (takes : List (Effect P) → Bool) where
  after_session-keeps :
      (before : ℕ) (t : Task) (r : Option (Outcome × State × Link P))
      → IsBackoff t.backoff_ms
      → let t' = after_session info process tick takes before t r in
        IsBackoff t'.backoff_ms × (t'.waits ≡ t.waits)
  unfolding after_session
  after_session-keeps before t none h = (h, refl)
  after_session-keeps before t (some (o, s, l)) h = elim (Bool-cases (s.frames_decoded == before)) [
    | inl none_new ↦ rw none_new (doubled-IsBackoff t.backoff_ms h, refl)
    | inr some_new ↦ rw some_new ((omega arith, omega arith, 10, refl), refl)
  ]

  session-keeps :
      (addr : ℕ) (l : Link P) (t : Task)
      → IsBackoff t.backoff_ms
      → let t' = session info process tick takes addr l t in
        IsBackoff t'.backoff_ms × (t'.waits ≡ t.waits)
  unfolding session
  session-keeps addr l t h =
      after_session-keeps t.state.frames_decoded t
        (run_connection info process tick takes (pending l.arrivals + 1) 0
          (record t.state {
            reconnects = if t.had_session then next32 t.state.reconnects else t.state.reconnects;
            connected = true;
            peer_be = addr;
          })
          l)
        h

  attempt-Paced :
      (a : Attempt P) (t : Task) → Paced t → Paced (attempt info process tick takes a t).1
  unfolding attempt
  attempt-Paced a t p =
      let s = flags a.commands t.state in
      let t₁ = record t { state = s } in
      let cs = drop 1 a.commands in
      elim (Bool-cases s.running) [
        | inr off ↦
            simp off (record { backoff = p.backoff; all = λ r. absurd (cc); before = p.before })
        | inl on ↦
            let waits = p.all (flags-running a.commands t.state on) in
            elim (Option-cases a.link) [
              | inl refused ↦
                  let q = pause_between-Paced cs t₁ p.backoff waits in
                  simp (on, refused)
                    (record {
                      backoff = doubled-IsBackoff _ q.backoff;
                      all = q.all;
                      before = q.before;
                    })
              | inr ((addr, l), connected) ↦
                  let kept = session-keeps addr l t₁ p.backoff in
                  elim (Bool-cases (session info process tick takes addr l t₁).stuck) [
                    | inl stuck ↦
                        simp (on, connected, stuck)
                          (record {
                            backoff = kept.0;
                            all = λ r. rw kept.1 waits;
                            before = rw kept.1 (All-drop t.waits waits);
                          })
                    | inr free ↦
                        simp (on, connected, free)
                          (pause_between-Paced cs (session info process tick takes addr l t₁) kept.0
                            (rw kept.1 waits))
                  ]
            ]
      ]

  -- Whatever the task finds at each of its attempts and whenever it is stopped: it pauses for at least
  -- one second and at most ten between one attempt and the next, but for a last pause that a stop
  -- cuts short.
  stream_task-Paced :
      (attempts : List (Attempt P)) (t : Task)
      → Paced t
      → Paced (stream_task info process tick takes attempts t).1
  unfolding stream_task
  stream_task-Paced [] t p = p
  stream_task-Paced (a ∷ rest) t p =
      let p' = attempt-Paced a t p in
      let ih = stream_task-Paced rest (attempt info process tick takes a t).1 p' in
      elim (Bool-cases (attempt info process tick takes a t).0) [
        | inr off ↦ simp off p'
        | inl on ↦ elim (Bool-cases (attempt info process tick takes a t).1.stuck) [
          | inl stuck ↦ simp (on, stuck) p'
          | inr free ↦ simp (on, free) ih
        ]
      ]
