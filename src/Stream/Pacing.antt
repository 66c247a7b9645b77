-- ===== src/Stream/Pacing.antt =====
-- What the stream task of main/jlp/net/stream_client.cpp may do on any connection: the order of what it
-- receives, shows and acknowledges, and how it ends.
use espos_p4_cockpit.Prelude.{
  ℕ, zero, suc, ◌+◌, ◌-◌, ◌*◌, ◌≤◌, ◌<◌, ◌≡◌, ◌≢◌, refl, sym, ap, ◌∙◌, subst, Bool, true, false,
  ◌||◌, ◌&&◌, ◌⊎◌, Bool-cases, Option-cases, inl, inr, List, [], ◌∷◌, ◌++◌, Option, none, some,
  length, length-append, take, drop, take-append-drop, ltb, ◌==◌, if◌then◌else◌, Bytes, arith,
}
use espos_p4_cockpit.Stream.{
  State, is_wrong_size, Command, Arrival, segment, failure, Effect, received, rejected, shown,
  acked, Link, Outcome, done, failed, waiting, recv, frame_length, max_frame_bytes, poll_state,
  polled, read_loop, read_exact, wait_out, send_ack, ack_frame, show_frame, handle_frame, round,
  run_connection, obey,
}

-- Whether the server is owed an acknowledgement, by what was done, newest first; `none` where the
-- order is broken: a frame taken before the last was acknowledged, acknowledged twice or shown when
-- none was taken, or where a frame is empty or larger than the receive buffer.
module _ {P : Type 0} where
  abbrev pub advance : Effect P → Option Bool → Option Bool
  advance e none = none
  advance (received f) (some owed) =
      if owed || length f == 0 || ltb max_frame_bytes (length f) then none else some true
  advance rejected (some owed) = if owed then some true else none
  advance (shown idx px n) (some owed) = if owed then some true else none
  advance acked (some owed) = if owed then some false else none

  abbrev pub turn : List (Effect P) → Option Bool
  turn [] = some false
  turn (e ∷ log) = advance e (turn log)

-- The bytes that are still to arrive.
abbrev pub pending : List Arrival → ℕ
pending [] = 0
pending (failure ∷ rest) = pending rest
pending (segment bs ∷ rest) = length bs + pending rest

length-take-drop : (n : ℕ) (xs : Bytes) → length (take n xs) + length (drop n xs) ≡ length xs
length-take-drop n xs =
    sym (length-append (take n xs) (drop n xs)) ∙ ap length (take-append-drop n xs)

recv-pending :
    (want : ℕ) (arrivals : List Arrival)
    → let (bs, rest) = recv want arrivals in length bs + pending rest ≤ pending arrivals
unfolding recv
recv-pending want [] = omega arith
recv-pending want (failure ∷ rest) = omega arith
recv-pending want (segment bs ∷ rest) = elim (Bool-cases (ltb want (length bs))) [
  | inl more ↦ rw more (omega (arith, length-take-drop want bs))
  | inr all ↦ rw all (omega (arith, length-take-drop want bs))
]

module _ {P : Type 0} (info : Bytes → Option (ℕ × ℕ)) (process : ℕ → Bytes → Option (P × ℕ))
    (tick : ℕ → ℕ) (takes : List (Effect P) → Bool) where
  -- What a read returns is of the length asked for, and has left the socket.
  abbrev Took : ℕ → Bytes → Link P → Link P → Option Bytes → Type 0
  Took len got l l' none = Unit
  Took len got l l' (some bs) =
      (length bs ≡ len) × (pending l'.arrivals + len ≤ pending l.arrivals + length got)

  Took-before :
      (len : ℕ) (got bs : Bytes) (l l₁ l' : Link P) (r : Option Bytes)
      → length bs + pending l₁.arrivals ≤ pending l.arrivals
      → Took len (got ++ bs) l₁ l' r
      → Took len got l l' r
  Took-before len got bs l l₁ l' none h t = _
  Took-before len got bs l l₁ l' (some all) h t = (t.0, omega (arith, t.1, h, length-append got bs))

  -- A read leaves the log.
  abbrev Keeps : ℕ → Bytes → Link P → Option Bytes × State × Link P → Type 0
  Keeps len got l r = (r.2.log ≡ l.log) × Took len got l r.2 r.0

  read_loop_over :
      (len : ℕ) (got : Bytes) (s : State) (l : Link P)
      → Keeps len got l (if length got == len then some got else none, s, l)
  read_loop_over len got s l = elim (Bool-cases (length got == len)) [
    | inl all ↦ rw all (refl, (ground arith, ground arith))
    | inr few ↦ rw few (refl, _)
  ]

  read_loop-Keeps :
      (fuel len : ℕ) (got : Bytes) (s : State) (l : Link P)
      → Keeps len got l (read_loop info process tick takes fuel len got s l)
  unfolding read_loop polled
  read_loop-Keeps zero len got s l = read_loop_over len got s l
  read_loop-Keeps (suc fuel) len got s l =
      let s₁ = poll_state info process tick takes s l in
      let r = recv (len - length got) l.arrivals in
      let l₁ = record (polled info process tick takes l) { arrivals = r.1 } in
      let out = read_loop info process tick takes fuel len (got ++ r.0) s₁ l₁ in
      let ih = read_loop-Keeps fuel len (got ++ r.0) s₁ l₁ in
      elim (Bool-cases (ltb (length got) len)) [
        | inr full ↦ rw full (read_loop_over len got s l)
        | inl more ↦ elim (Bool-cases s₁.running) [
          | inr off ↦ simp (more, off) (refl, _)
          | inl on ↦ elim (Bool-cases (length r.0 == 0)) [
            | inl over ↦ simp (more, on, over) (refl, _)
            | inr some_bytes ↦
                simp (more, on, some_bytes)
                  (
                    ih.0,
                    Took-before len got r.0 l l₁ out.2 out.0
                        (recv-pending (len - length got) l.arrivals) ih.1,
                  )
          ]
        ]
      ]

  read_exact-Keeps :
      (len : ℕ) (s : State) (l : Link P)
      → Keeps len [] l (read_exact info process tick takes len s l)
  unfolding read_exact
  read_exact-Keeps len s l = read_loop-Keeps (suc len) len [] s l

  -- A frame is taken when nothing is owed, and leaves its acknowledgement owed.
  handle_frame-turn :
      (f : Bytes) (previous : ℕ) (s : State) (l : Link P)
      → turn l.log ≡ some false
      → 0 < length f
      → length f ≤ max_frame_bytes
      → let l' = (handle_frame info process tick takes f previous s l).2 in
        (turn l'.log ≡ some true) × (l'.arrivals ≡ l.arrivals)
  unfolding handle_frame show_frame
  handle_frame-turn f previous s l e h k =
      let fits : (length f == 0 || ltb max_frame_bytes (length f)) ≡ false = ground arith in
      elim (Bool-cases (is_wrong_size info process tick takes s f)) [
        | inl wrong ↦ simp (wrong, e, fits) (refl, refl)
        | inr right ↦ elim (Option-cases (process s.out_buf_size f)) [
          | inl bad ↦ simp (right, bad, e, fits) (refl, refl)
          | inr (px, good) ↦ elim (Bool-cases s.cb) [
            | inl cb ↦ simp (right, good, cb, e, fits) (refl, refl)
            | inr none_set ↦ simp (right, good, none_set, e, fits) (refl, refl)
          ]
        ]
      ]

  -- The task stands in the wait of `ack_frame`: paused and running, and the other tasks do nothing more.
  abbrev pub Stands : State → Link P → Type 0
  Stands s l = (s.paused ≡ true) × (s.running ≡ true) × (l.commands ≡ [])

  wait_out-Stands :
      (cs : List (List Command)) (s : State)
      → let w = wait_out info process tick takes cs s in
        w.0 ≡ waiting → (w.1.paused ≡ true) × (w.1.running ≡ true) × (w.2 ≡ [])
  unfolding wait_out
  wait_out-Stands [] s = λ e. (ground arith, ground arith, refl)
  wait_out-Stands (c ∷ cs) s =
      let next = obey c s in
      elim (Bool-cases (next.paused && next.running)) [
        | inl on ↦ rw on (wait_out-Stands cs next)
        | inr off ↦ rw off (λ e. absurd (cc))
      ]

  -- What is owed after an acknowledgement that ends so.
  abbrev Settled : Outcome × State × Link P → Link P → Type 0
  Settled r l =
      (r.2.arrivals ≡ l.arrivals)
      × (r.0 ≡ done → turn r.2.log ≡ some false)
      × (turn r.2.log ≢ none)
      × (r.0 ≡ waiting → Stands r.1 r.2)

  send_ack-Settled :
      (s : State) (l : Link P)
      → turn l.log ≡ some true
      → Settled (send_ack info process tick takes s l) l
  unfolding send_ack polled
  send_ack-Settled s l e = elim (Bool-cases (poll_state info process tick takes s l).running) [
    | inr off ↦ simp (off, e) (refl, λ k. absurd (cc), λ k. absurd (cc), λ k. absurd (cc))
    | inl on ↦ elim (Bool-cases (takes l.log)) [
      | inl sent ↦ simp (on, sent, e) (refl, λ k. refl, λ k. absurd (cc), λ k. absurd (cc))
      | inr lost ↦ simp (on, lost, e) (refl, λ k. refl, λ k. absurd (cc), λ k. absurd (cc))
    ]
  ]

  ack_frame-Settled :
      (s : State) (l : Link P)
      → turn l.log ≡ some true
      → Settled (ack_frame info process tick takes s l) l
  unfolding ack_frame
  ack_frame-Settled s l e =
      go (wait_out info process tick takes l.commands s) (wait_out-Stands l.commands s)
    where
      go :
          (w : Outcome × State × List (List Command))
          → (w.0 ≡ waiting → (w.1.paused ≡ true) × (w.1.running ≡ true) × (w.2 ≡ []))
          → let l₁ = record l { commands = w.2 } in
            Settled
              (elim w.0 [
                | waiting ↦ (waiting, w.1, l₁)
                | _ ↦ send_ack info process tick takes w.1 l₁
              ])
              l
      go (done, s₁, cs) stands = send_ack-Settled s₁ (record l { commands = cs }) e
      go (failed, s₁, cs) stands = send_ack-Settled s₁ (record l { commands = cs }) e
      go (waiting, s₁, cs) stands = (refl, λ k. absurd (cc), λ k. absurd (cc), λ k. stands refl)

  -- What a round leaves: the order kept, and five bytes fewer to come where the loop goes on.
  abbrev Rounds : Link P → Outcome × ℕ × State × Link P → Type 0
  Rounds l r =
      (turn r.3.log ≢ none)
      × (r.0 ≡ done → (turn r.3.log ≡ some false) × (pending r.3.arrivals + 5 ≤ pending l.arrivals))
      × (r.0 ≡ waiting → Stands r.2 r.3)

  round-Rounds :
      (previous : ℕ) (s : State) (l : Link P)
      → turn l.log ≡ some false
      → Rounds l (round info process tick takes previous s l)
  unfolding round polled
  round-Rounds previous s l e =
      let s₀ = poll_state info process tick takes s l in
      let l₀ = polled info process tick takes l in
      let head = read_exact info process tick takes 4 s₀ l₀ in
      let kept = read_exact-Keeps 4 s₀ l₀ in
      let idle : turn head.2.log ≡ some false = ap turn kept.0 ∙ e in
      elim (Bool-cases s₀.running) [
        | inr off ↦ simp (off, e) (λ k. absurd (cc), λ k. absurd (cc), λ k. absurd (cc))
        | inl on ↦ elim (Option-cases head.0) [
          | inl cut ↦ simp (on, cut, idle) (λ k. absurd (cc), λ k. absurd (cc), λ k. absurd (cc))
          | inr (four, got) ↦
              let len = frame_length four in
              elim (Bool-cases (len == 0 || ltb max_frame_bytes len)) [
                | inl bad ↦
                    simp (on, got, bad, idle) (λ k. absurd (cc), λ k. absurd (cc), λ k. absurd (cc))
                | inr good ↦
                    let some_len : 0 < len = ground arith in
                    let fits : len ≤ max_frame_bytes = ground arith in
                    let body = read_exact info process tick takes len head.1 head.2 in
                    let kept₂ = read_exact-Keeps len head.1 head.2 in
                    let idle₂ : turn body.2.log ≡ some false = ap turn kept₂.0 ∙ idle in
                    elim (Option-cases body.0) [
                      | inl cut ↦
                          simp (on, got, good, cut, idle₂)
                            (λ k. absurd (cc), λ k. absurd (cc), λ k. absurd (cc))
                      | inr (f, whole) ↦
                          let h = handle_frame info process tick takes f previous body.1 body.2 in
                          let took : Took 4 [] l₀ head.2 (some four) =
                            subst (λ k. Took 4 [] l₀ head.2 k) got kept.1 in
                          let took₂ : Took len [] head.2 body.2 (some f) =
                            subst (λ k. Took len [] head.2 body.2 k) whole kept₂.1 in
                          let (owed, same) =
                            handle_frame-turn f previous body.1 body.2 idle₂
                              (omega (arith, took₂.0, some_len)) (omega (arith, took₂.0, fits)) in
                          let (same₂, free, kept₃, stands) = ack_frame-Settled h.1 h.2 owed in
                          simp (on, got, good, whole)
                            (
                              kept₃,
                              λ k. (
                                free k,
                                rw (same₂, same) (omega (arith, took.1, took₂.1, some_len)),
                              ),
                              stands,
                            )
                    ]
              ]
        ]
      ]

  -- It failed, or stands in a pause; with the order kept.
  abbrev pub Ends : Option (Outcome × State × Link P) → Type 0
  Ends r =
      (x : Outcome × State × Link P) × (r ≡ some x)
      × (turn x.2.log ≢ none)
      × ((x.0 ≡ failed) ⊎ ((x.0 ≡ waiting) × Stands x.1 x.2))

  -- On every connection, whatever arrives and whatever the other tasks do, from a log after which
  -- nothing is owed, one round for every five bytes that arrive and one more being enough:
  -- `run_connection` returns, or it comes to the wait before an acknowledgement, paused and not stopped,
  -- with the other tasks doing nothing more, where it stays. In both cases every frame that it took had
  -- one byte at least and no more than the receive buffer holds, none was taken before the one before it
  -- was acknowledged, and none was acknowledged or shown that was not taken.
  pub run_connection-turn :
      (fuel previous : ℕ) (s : State) (l : Link P)
      → turn l.log ≡ some false
      → pending l.arrivals < fuel * 5
      → Ends (run_connection info process tick takes fuel previous s l)
  unfolding run_connection
  run_connection-turn zero previous s l e h = absurd (ground arith)
  run_connection-turn (suc fuel) previous s l e h =
      go (λ now s₁ l₁ k m. run_connection-turn fuel now s₁ l₁ k m)
        (round info process tick takes previous s l) (round-Rounds previous s l e)
    where
      go :
          ((now : ℕ) (s₁ : State) (l₁ : Link P)
            → turn l₁.log ≡ some false
            → pending l₁.arrivals < fuel * 5
            → Ends (run_connection info process tick takes fuel now s₁ l₁))
          → (r : Outcome × ℕ × State × Link P) → Rounds l r
          → Ends (elim r.0 [
            | done ↦ run_connection info process tick takes fuel r.1 r.2 r.3
            | failed ↦ some (failed, r.2, r.3)
            | waiting ↦ some (waiting, r.2, r.3)
          ])
      go again (done, now, s₁, l₁) (kept, next, stands) =
          again now s₁ l₁ (next refl).0 (omega (arith, (next refl).1))
      go again (failed, now, s₁, l₁) (kept, next, stands) = ((failed, s₁, l₁), refl, kept, inl refl)
      go again (waiting, now, s₁, l₁) (kept, next, stands) =
          ((waiting, s₁, l₁), refl, kept, inr (refl, stands refl))
