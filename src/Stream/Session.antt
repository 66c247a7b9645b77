-- ===== src/Stream/Session.antt =====
-- A session of the stream task of main/jlp/net/stream_client.cpp with a server that keeps to the
-- framing: four bytes of length, the highest first, before each frame.
use mathlib.Core.List.{append_assoc}
use espos_p4_cockpit.Prelude.{
  ℕ, suc, ◌+◌, ◌-◌, ◌/◌, ◌%◌, ◌^◌, ◌≤◌, ◌<◌, ◌≡◌, refl, ◌∙◌, Bool, true, false, Bool-cases, inl,
  inr, List, [], ◌∷◌, ◌++◌, Option, some, All, length, ◌==◌, Bytes, arith,
}
use espos_p4_cockpit.Stream.{
  State, Arrival, segment, failure, Effect, received, shown, acked, Link, Outcome, done, failed,
  poll_state, polled, frame_length, max_frame_bytes, recv, read_loop, read_exact, next32,
  show_frame, handle_frame, wait_out, send_ack, ack_frame, round, run_connection,
}
use espos_p4_cockpit.Stream.Framing.{content, IsIntact, quiet, read_exact-prefix}

-- The four bytes that the server writes before a frame.
abbrev pub encode : ℕ → Bytes
encode n = n / 2 ^ 24 % 256 ∷ n / 2 ^ 16 % 256 ∷ n / 2 ^ 8 % 256 ∷ n % 256 ∷ []

-- Any length of 32 bits is read back from the four bytes that the server writes for it.
pub frame_length-encode : (n : ℕ) → n < 2 ^ 32 → frame_length (encode n) ≡ n
unfolding frame_length
frame_length-encode n h = omega arith

-- What the server sends for some frames.
abbrev pub wire : List Bytes → Bytes
wire [] = []
wire (f ∷ fs) = encode (length f) ++ f ++ wire fs

module _ {P : Type 0} (info : Bytes → Option (ℕ × ℕ)) (process : ℕ → Bytes → Option (P × ℕ))
    (tick : ℕ → ℕ) (takes : List (Effect P) → Bool) (pixels : Bytes → P × ℕ) where
  -- A task that shows frames of the given size.
  pub record IsReady (width height size : ℕ) (s : State) : Type 0 where
    pub running : s.running ≡ true
    pub paused : s.paused ≡ false
    pub cb : s.cb ≡ true
    pub wide : s.width ≡ width
    pub high : s.height ≡ height
    pub room : s.out_buf_size ≡ size

  -- A frame of that size that the engine decodes into `pixels`.
  abbrev pub IsPlayable : ℕ → ℕ → ℕ → Bytes → Type 0
  IsPlayable width height size f =
      (0 < length f)
      × (length f ≤ max_frame_bytes)
      × (info f ≡ some (width, height))
      × (process size f ≡ some (pixels f))

  -- What is seen of the frames: each shown in the other buffer, and then acknowledged.
  abbrev pub told : List Bytes → ℕ → List (Effect P) → List (Effect P)
  told [] idx log = log
  told (f ∷ fs) idx log =
      told fs (1 - idx) (acked ∷ shown idx (pixels f).0 (pixels f).1 ∷ received f ∷ log)

  module _ (width height size : ℕ) (all : (log : List (Effect P)) → takes log ≡ true) where
    -- What a frame leaves behind: the task ready, the frame shown, counted and acknowledged.
    abbrev pub Shows : Bytes → State → List (Effect P) → State → List (Effect P) → Type 0
    Shows f s log s' log' =
        IsReady width height size s'
        × (s'.out_idx ≡ 1 - s.out_idx)
        × (s'.frames_decoded ≡ next32 s.frames_decoded)
        × (log' ≡ acked ∷ shown s.out_idx (pixels f).0 (pixels f).1 ∷ received f ∷ log)

    -- The state and the link with which `handle_frame` reaches the decoder.
    abbrev pub counted : Bytes → State → State
    counted f s = record s {
      frames_received = next32 s.frames_received;
      bytes_received = (s.bytes_received + (length f + 4)) % 2 ^ 64;
    }

    abbrev pub noted : Bytes → List Arrival → Link P → Link P
    noted f arrivals l = record l { arrivals = arrivals; commands = []; log = received f ∷ l.log }

    handle_frame_playable :
        (f : Bytes) (previous : ℕ) (arrivals : List Arrival) (s : State) (l : Link P)
        → IsReady width height size s
        → IsPlayable width height size f
        → handle_frame info process tick takes f previous s
            (quiet info process tick takes arrivals l)
          ≡ show_frame info process tick takes
              (pixels f)
              previous
              (counted f s)
              (noted f arrivals l)
    unfolding handle_frame
    handle_frame_playable f previous arrivals s l r (some_bytes, few, header, decoded) =
        simp (r.wide, r.high, r.room, decoded) (ground arith)

    ack_frame_ready :
        (arrivals : List Arrival) (s : State) (l : Link P)
        → s.running ≡ true
        → s.paused ≡ false
        → ack_frame info process tick takes s (quiet info process tick takes arrivals l)
          ≡ (done, s, quiet info process tick takes arrivals (record l { log = acked ∷ l.log }))
    unfolding ack_frame send_ack wait_out poll_state polled
    ack_frame_ready arrivals s l r p = ground (arith, all l.log)

    show_frame_lem :
        (f : Bytes) (previous : ℕ) (arrivals : List Arrival) (s : State) (l : Link P)
        → IsReady width height size s
        → let (now, s', l') =
            show_frame info process tick takes
              (pixels f)
              previous
              (counted f s)
              (noted f arrivals l) in
          Shows f s l.log s' (acked ∷ l'.log)
    unfolding show_frame
    show_frame_lem f previous arrivals s l r = elim (Bool-cases (previous == 0)) [
      | inl first ↦ rw first (
        record {
          running = r.running;
          paused = r.paused;
          cb = r.cb;
          wide = r.wide;
          high = r.high;
          room = r.room;
        },
        refl,
        refl,
        rw r.cb refl,
      )
      | inr later ↦ rw later (
        record {
          running = r.running;
          paused = r.paused;
          cb = r.cb;
          wide = r.wide;
          high = r.high;
          room = r.room;
        },
        refl,
        refl,
        rw r.cb refl,
      )
    ]

    -- A round on which all goes well, from its steps.
    round_steps :
        (previous now len : ℕ) (head f : Bytes) (o : Outcome) (s s₁ s₂ s₃ s₄ : State)
        (l l₁ l₂ l₃ l₄ : Link P)
        → poll_state info process tick takes s l ≡ s
        → polled info process tick takes l ≡ l
        → s.running ≡ true
        → read_exact info process tick takes 4 s l ≡ (some head, s₁, l₁)
        → frame_length head ≡ len
        → 0 < len
        → len ≤ max_frame_bytes
        → read_exact info process tick takes len s₁ l₁ ≡ (some f, s₂, l₂)
        → handle_frame info process tick takes f previous s₂ l₂ ≡ (now, s₃, l₃)
        → ack_frame info process tick takes s₃ l₃ ≡ (o, s₄, l₄)
        → round info process tick takes previous s l ≡ (o, now, s₄, l₄)
    unfolding round
    round_steps previous now len head f o s s₁ s₂ s₃ s₄ l l₁ l₂ l₃ l₄ u v r a e p q b h k =
        simp (u, v, r, a, e, b, h, k) (ground arith)

    round-frame :
        (f more : Bytes) (previous : ℕ) (arrivals : List Arrival) (s : State) (l : Link P)
        → IsReady width height size s
        → IsPlayable width height size f
        → IsIntact arrivals
        → content arrivals ≡ encode (length f) ++ f ++ more
        → (now : ℕ) × (s' : State) × (l' : Link P) × (rest : List Arrival) × (round info process
              tick takes previous s
              (quiet info process tick takes arrivals l)
            ≡ (done, now, s', quiet info process tick takes rest l'))
          × (IsIntact rest × (content rest ≡ more))
          × Shows f s l.log s' l'.log
    unfolding show_frame poll_state polled
    round-frame f more previous arrivals s l r p i e =
        let (mid, head, left, intact) =
          read_exact-prefix info process tick takes (encode (length f)) (f ++ more) arrivals s l
            r.running i (e ∙ append_assoc (encode (length f)) f more) in
        let (rest, body, left₂, intact₂) =
          read_exact-prefix info process tick takes f more mid s l r.running intact left in
        let (now, s', l') =
          show_frame info process tick takes (pixels f) previous (counted f s) (noted f rest l) in
        let (r', flipped, one_more, seen) = show_frame_lem f previous rest s l r in
        let run =
          round_steps previous now (length f) (encode (length f)) f done s s s s' s'
            (quiet info process tick takes arrivals l) (quiet info process tick takes mid l)
            (quiet info process tick takes rest l) l'
            (quiet info process tick takes rest (record l' { log = acked ∷ l'.log })) refl refl
            r.running head (frame_length-encode (length f) (omega arith)) p.0 p.1 body
            (handle_frame_playable f previous rest s l r p)
            (ack_frame_ready rest s' l' r'.running r'.paused) in
        (
          now,
          s',
          record l' { log = acked ∷ l'.log },
          rest,
          run,
          (intact₂, left₂),
          (r', flipped, one_more, seen),
        )

    round_over :
        (previous : ℕ) (arrivals : List Arrival) (s : State) (l : Link P)
        → s.running ≡ true
        → IsIntact arrivals
        → content arrivals ≡ []
        → round info process tick takes previous s (quiet info process tick takes arrivals l)
          ≡ (failed, previous, s, quiet info process tick takes [] l)
    unfolding round read_exact read_loop recv poll_state polled
    round_over previous [] s l r i e = simp r (ground arith)
    round_over previous (failure ∷ rest) s l r i e = elim i [ ]
    round_over previous (segment [] ∷ rest) s l r (n, i) e = absurd (ground arith)
    round_over previous (segment (b ∷ bs) ∷ rest) s l r (n, i) e = absurd (cc)

    -- From a task that is ready and a connection, in any segments, of the framed bytes of some
    -- frames that the engine decodes at the expected size, every acknowledgement being taken,
    -- `run_connection` ends within one round more than there are frames: it has received each
    -- frame whole and in order, shown it in the buffer other than the last, and acknowledged it
    -- before the next.
    pub run_connection-wire :
        (fs : List Bytes) (previous : ℕ) (arrivals : List Arrival) (s : State) (l : Link P)
        → IsReady width height size s
        → All (IsPlayable width height size) fs
        → IsIntact arrivals
        → content arrivals ≡ wire fs
        → (s' : State) × (l' : Link P) × (run_connection info process tick takes
              (suc (length fs))
              previous
              s
              (quiet info process tick takes arrivals l)
            ≡ some (failed, s', l'))
          × (l'.log ≡ told fs s.out_idx l.log)
    unfolding run_connection
    run_connection-wire [] previous arrivals s l r ps i e = (
      s,
      quiet info process tick takes [] l,
      simp (round_over previous arrivals s l r.running i e, run_connection),
      refl,
    )
    run_connection-wire (f ∷ fs) previous arrivals s l r (p, ps) i e =
        let (now, s₁, l₁, rest, step, (i₁, e₁), (r₁, flipped, more, seen)) =
          round-frame f (wire fs) previous arrivals s l r p i e in
        let (s', l', run, log) = run_connection-wire fs now rest s₁ l₁ r₁ ps i₁ e₁ in
        (s', l', simp (step, run_connection) run, log ∙ rw (flipped, seen) refl)
