-- ===== src/Stream.antt =====
-- The stream client of main/jlp/net/stream_client.cpp: the framing that its task reads, the decode
-- and the one-byte acknowledgement that paces the server. The socket, the JPEG engine and the clock
-- are parameters; another task acts wherever this code reads a flag. A `uint8_t` is any number here.
pub mod Framing
pub mod Session
pub mod Pacing
pub mod Client
pub mod Task
pub mod Stats
use espos_p4_cockpit.Prelude.{
  ℕ, zero, suc, ◌+◌, ◌-◌, ◌*◌, ◌/◌, ◌%◌, ◌^◌, Bool, true, false, not, ◌&&◌, ◌||◌, List, [], ◌∷◌,
  ◌++◌, Option, none, some, ltb, ◌==◌, if◌then◌else◌, is_some, or_else, length, take, drop, set,
  Bytes,
}

abbrev pub max_frame_bytes : ℕ
max_frame_bytes = 128 * 1024

abbrev pub interval_ring : ℕ
interval_ring = 256

-- `State`, what the task itself uses of it; the buffers and the engine are those of Client.
pub record State : Type 0 where
  pub width : ℕ
  pub height : ℕ
  pub height_padded : ℕ
  pub decoded_bytes : ℕ
  pub cb : Bool  -- whether there is a frame callback
  pub running : Bool
  pub paused : Bool
  pub connected : Bool
  pub peer_be : ℕ
  pub out_buf_size : ℕ
  pub out_idx : ℕ
  pub frames_received : ℕ
  pub frames_decoded : ℕ
  pub decode_errors : ℕ
  pub protocol_errors : ℕ
  pub reconnects : ℕ
  pub bytes_received : ℕ
  pub last_frame_us : ℕ
  pub intervals_ms : List ℕ
  pub interval_count : ℕ

-- `fetch_add(1)` on a `std::atomic<uint32_t>`.
abbrev pub next32 : ℕ → ℕ
next32 n = (n + 1) % 2 ^ 32

-- What another task does between two of this task's reads of the flags.
pub data Command : Type 0 where
  stop : Command
  pause : Bool → Command

abbrev pub obey : List Command → State → State
obey [] s = s
obey (stop ∷ cs) s = obey cs (record s { running = false })
obey (pause b ∷ cs) s = obey cs (record s { paused = b })

-- What the socket delivers: bytes, or the end of the connection (closed, failed or timed out).
pub data Arrival : Type 0 where
  segment : Bytes → Arrival
  failure : Arrival

-- What the task is seen to do on one connection.
pub data Effect (P : Type 0) : Type 0 where
  received : Bytes → Effect P
  rejected : Effect P
  shown : ℕ → P → ℕ → Effect P  -- the buffer, the pixels and their bytes, given to the callback
  acked : Effect P

pub record Link (P : Type 0) : Type 0 where
  pub arrivals : List Arrival
  pub commands : List (List Command)  -- one entry for each read of the flags, then none
  pub now : ℕ  -- the clock, in microseconds
  pub readings : ℕ
  pub log : List (Effect P)  -- newest first

-- `recv(sock, buf, want)`: the bytes that it stores, none where its result is not positive. With
-- nothing left to arrive, the receive timeout ends it.
unfoldable pub recv : ℕ → List Arrival → Bytes × List Arrival
recv want [] = ([], [])
recv want (failure ∷ rest) = ([], rest)
recv want (segment bs ∷ rest) =
    (take want bs, if ltb want (length bs) then segment (drop want bs) ∷ rest else rest)

-- `frame_len`: the disjoint shifts of four bytes are their sum.
unfoldable pub frame_length : Bytes → ℕ
frame_length (a ∷ b ∷ c ∷ d ∷ []) = a * 2 ^ 24 + b * 2 ^ 16 + c * 2 ^ 8 + d
frame_length _ = 0

abbrev pub record_interval : ℕ → State → State
record_interval ms s = record s {
  intervals_ms = set s.intervals_ms (s.interval_count % interval_ring) ms;
  interval_count = next32 s.interval_count;
}

-- How a call ends: with a result, or still waiting out a pause that nothing ends.
pub data Outcome : Type 0 where
  done failed waiting : Outcome

-- `info` parses a header into a size, `process` decodes into a buffer of the given size, `tick` is the
-- time from one reading of the clock to the next, and `takes` whether the next acknowledgement is sent.
module _ {P : Type 0} (info : Bytes → Option (ℕ × ℕ)) (process : ℕ → Bytes → Option (P × ℕ))
    (tick : ℕ → ℕ) (takes : List (Effect P) → Bool) where
  -- One read of the flags.
  unfoldable pub poll_state : State → Link P → State
  poll_state s l = elim l.commands [ [] ↦ s | c ∷ cs ↦ obey c s ]

  unfoldable pub polled : Link P → Link P
  polled l = record l { commands = drop 1 l.commands }

  -- The loop of `read_exact`, with fuel for its rounds; `got` is what the buffer holds so far.
  unfoldable pub read_loop : ℕ → ℕ → Bytes → State → Link P → Option Bytes × State × Link P
  unfolding recv
  read_loop zero len got s l = (if length got == len then some got else none, s, l)
  read_loop (suc fuel) len got s l =
      let s₁ = poll_state s l in
      let l₁ = record (polled l) { arrivals = (recv (len - length got) l.arrivals).1 } in
      let bs = (recv (len - length got) l.arrivals).0 in
      let rest = read_loop fuel len (got ++ bs) s₁ l₁ in
      if not (ltb (length got) len)
      then (if length got == len then some got else none, s, l)
      else if not s₁.running
      then (none, s₁, polled l)
      else if length bs == 0
      then (none, s₁, l₁)
      else rest

  -- Each round stores a byte at least, so `len` rounds are enough.
  unfoldable pub read_exact : ℕ → State → Link P → Option Bytes × State × Link P
  read_exact len s l = read_loop (suc len) len [] s l

  -- The wait of `ack_frame` for the end of a pause: one read of the flags for each round.
  unfoldable pub wait_out : List (List Command) → State → Outcome × State × List (List Command)
  wait_out [] s = (if s.paused && s.running then waiting else done, s, [])
  wait_out (c ∷ cs) s =
      let s₁ = obey c s in
      let rest = wait_out cs s₁ in if s₁.paused && s₁.running then rest else (done, s₁, cs)

  -- The acknowledgement, once nothing pauses it.
  unfoldable pub send_ack : State → Link P → Outcome × State × Link P
  send_ack s l =
      let s₁ = poll_state s l in
      let l₁ = polled l in
      if not s₁.running
      then (failed, s₁, l₁)
      else (if takes l₁.log then done else failed, s₁, record l₁ { log = acked ∷ l₁.log })

  unfoldable pub ack_frame : State → Link P → Outcome × State × Link P
  ack_frame s l =
      let (o, s₁, cs) = wait_out l.commands s in
      let l₁ = record l { commands = cs } in
      elim o [ waiting ↦ (waiting, s₁, l₁) | _ ↦ send_ack s₁ l₁ ]

  -- `info.width != st.width || info.height != st.height`, or no header.
  abbrev pub is_wrong_size : State → Bytes → Bool
  is_wrong_size s bs = elim (info bs) [
    | none ↦ true
    | some wh ↦ not (wh.0 == s.width) || not (wh.1 == s.height)
  ]

  -- A frame that decoded: shown, counted and timed; `previous` is `prev_frame_us`.
  unfoldable pub show_frame : P × ℕ → ℕ → State → Link P → ℕ × State × Link P
  show_frame px previous s l =
      let log = if s.cb then shown s.out_idx px.0 px.1 ∷ l.log else l.log in
      let now = l.now + tick l.readings in
      let s₁ = record s { frames_decoded = next32 s.frames_decoded; out_idx = 1 - s.out_idx } in
      let s₂ =
        if previous == 0 then s₁ else record_interval ((now - previous) / 1000 % 2 ^ 32) s₁ in
      let l₁ = record l { log = log; now = now; readings = l.readings + 1 } in
      (now, record s₂ { last_frame_us = now }, l₁)

  -- What is done with the bytes of a whole frame, up to its acknowledgement.
  unfoldable pub handle_frame : Bytes → ℕ → State → Link P → ℕ × State × Link P
  handle_frame bs previous s l =
      let s₁ = record s {
        frames_received = next32 s.frames_received;
        bytes_received = (s.bytes_received + (length bs + 4)) % 2 ^ 64;
      } in
      let l₁ = record l { log = received bs ∷ l.log } in
      let refused = record s₁ { decode_errors = next32 s₁.decode_errors } in
      let noted = record l₁ { log = rejected ∷ l₁.log } in
      if is_wrong_size s bs then (previous, refused, noted) else elim (process s.out_buf_size bs) [
        | none ↦ (previous, refused, noted)
        | some px ↦ show_frame px previous s₁ l₁
      ]

  -- One round of `run_connection`: `done` where the loop goes on.
  unfoldable pub round : ℕ → State → Link P → Outcome × ℕ × State × Link P
  round previous s l =
      let s₀ = poll_state s l in
      let l₀ = polled l in
      let (head, s₁, l₁) = read_exact 4 s₀ l₀ in
      let len = frame_length (bytes_of head) in
      let (body, s₂, l₂) = read_exact len s₁ l₁ in
      let (now, s₃, l₃) = handle_frame (bytes_of body) previous s₂ l₂ in
      let (o, s₄, l₄) = ack_frame s₃ l₃ in
      if not s₀.running
      then (failed, previous, s₀, l₀)
      else if not (is_some head)
      then (failed, previous, s₁, l₁)
      else if len == 0 || ltb max_frame_bytes len
      then (failed, previous, record s₁ { protocol_errors = next32 s₁.protocol_errors }, l₁)
      else if not (is_some body)
      then (failed, previous, s₂, l₂)
      else (o, now, s₄, l₄)
    where
      bytes_of : Option Bytes → Bytes
      bytes_of b = or_else b []

  -- `run_connection`, with fuel for its rounds; `none` where the fuel ran out.
  unfoldable pub run_connection : ℕ → ℕ → State → Link P → Option (Outcome × State × Link P)
  run_connection zero previous s l = none
  run_connection (suc fuel) previous s l =
      let (o, now, s₁, l₁) = round previous s l in
      elim o [
        | done ↦ run_connection fuel now s₁ l₁
        | failed ↦ some (failed, s₁, l₁)
        | waiting ↦ some (waiting, s₁, l₁)
      ]
