-- ===== src/Stream/Client.antt =====
-- The handover of the one stream client of main/jlp/net/stream_client.cpp between its callers and its
-- task: stream_client_start() by its parts, the stops, and what the task does with `g_state` when it ends.
-- The answers of the JPEG driver and of the task's creation are arguments.
pub mod World
pub mod Phases
pub mod Singleton
use espos_p4_cockpit.Prelude.{
  ℕ, ◌+◌, ◌-◌, ◌*◌, ◌/◌, ◌%◌, ◌^◌, min, String, Bool, true, false, not, ◌&&◌, ◌||◌, List, [], ◌∷◌,
  Option, none, some, ◌==◌, if◌then◌else◌, is_some, or_else, replicate,
}
use espos_p4_cockpit.Stream.{State, interval_ring}

-- A `State` with what it owns: the decode engine and its buffers.
pub record Object : Type 0 where
  pub id : ℕ
  pub state : State
  pub decoder : Bool
  pub rx_buf : Bool
  pub out_buf_0 : Bool
  pub out_buf_1 : Bool

abbrev pub one_if : Bool → ℕ
one_if true = 1
one_if false = 0

abbrev pub buffers_of : Object → ℕ
buffers_of o = one_if o.rx_buf + one_if o.out_buf_0 + one_if o.out_buf_1

-- `g_state`, and what is allocated.
pub record Client : Type 0 where
  pub g_state : Option Object
  pub states : ℕ
  pub engines : ℕ
  pub buffers : ℕ
  pub next_id : ℕ

pub record Request : Type 0 where
  pub width : ℕ
  pub height : ℕ
  pub cb : Bool

-- What the driver and the system answer to one start; an output buffer comes with its size.
pub record Answers : Type 0 where
  pub engine : Bool
  pub rx : Bool
  pub out_0 : Option ℕ
  pub out_1 : Option ℕ
  pub task : Bool

-- `free_state`.
abbrev pub free_state : Object → Client → Client
free_state o c = record c {
  states = c.states - 1;
  engines = c.engines - one_if o.decoder;
  buffers = c.buffers - buffers_of o;
}

abbrev pub new_state : Request → State
new_state q = record {
  width = q.width;
  height = q.height;
  height_padded = (q.height + 15) % 2 ^ 32 / 16 * 16;
  decoded_bytes = q.width * ((q.height + 15) % 2 ^ 32 / 16 * 16) * 2 % 2 ^ 32;
  cb = q.cb;
  running = true;
  paused = false;
  connected = false;
  peer_be = 0;
  out_buf_size = 0;
  out_idx = 0;
  frames_received = 0;
  frames_decoded = 0;
  decode_errors = 0;
  protocol_errors = 0;
  reconnects = 0;
  bytes_received = 0;
  last_frame_us = 0;
  intervals_ms = replicate interval_ring 0;
  interval_count = 0;
}

-- The new `State` with the buffers that the driver gave; both decode into the smaller size.
abbrev pub allocated : Request → Answers → ℕ → Object
allocated q a id = record {
  id = id;
  state = record (new_state q) { out_buf_size = min (or_else a.out_0 0) (or_else a.out_1 0) };
  decoder = true;
  rx_buf = a.rx;
  out_buf_0 = is_some a.out_0;
  out_buf_1 = is_some a.out_1;
}

-- stream_client_start() up to the second look at `g_state`: the new `State`, if there is one.
unfoldable pub prepare : Request → Answers → Client → Option Object × Client
prepare q a c =
    let o = allocated q a c.next_id in
    let c₁ = record c { states = c.states + 1; next_id = c.next_id + 1 } in
    let c₂ = record c₁ { engines = c.engines + 1; buffers = c.buffers + buffers_of o } in
    if q.width == 0 || q.height == 0
    then (none, c)
    else if is_some c.g_state
    then (none, c)
    else if not a.engine
    then (none, record c₁ { states = c₁.states - 1 })
    else if not a.rx || not (is_some a.out_0) || not (is_some a.out_1)
    then (none, free_state o c₂)
    else (some o, c₂)

-- The second critical section: the look at `g_state`, and whether it is now that of the new `State`.
unfoldable pub take_g_state : Object → Client → Bool × Client
take_g_state o c = if is_some c.g_state then (false, c) else (true, record c { g_state = some o })

-- The critical section of a start that gets no task, and of a task that ends:
-- `if (g_state == st) g_state = nullptr`.
unfoldable pub clear_g_state : Object → Client → Client
clear_g_state o c = elim c.g_state [
  | none ↦ c
  | some s ↦ if s.id == o.id then record c { g_state = none } else c
]

-- stream_client_start() with nothing of the other tasks in between.
unfoldable pub start : Request → Answers → Client → Bool × Client
unfolding prepare take_g_state clear_g_state
start q a c =
    let (made, c₁) = prepare q a c in
    elim made [
      | none ↦ (false, c₁)
      | some o ↦
          let (ours, c₂) = take_g_state o c₁ in
          if not ours
          then (false, free_state o c₂)
          else if not a.task
          then (false, free_state o (clear_g_state o c₂))
          else (true, c₂)
    ]

abbrev pub with_state : (State → State) → Client → Client
with_state f c = elim c.g_state [
  | none ↦ c
  | some o ↦ record c { g_state = some (record o { state = f o.state }) }
]

abbrev pub set_paused : Bool → Client → Client
set_paused paused c = with_state (λ s. record s { paused = paused }) c

-- stream_client_stop() sets a flag only.
abbrev pub request_stop : Client → Client
request_stop c = with_state (λ s. record s { running = false }) c

-- stream_client_stop_diagnostic(): nothing running counts as stopped.
unfoldable pub stop_diagnostic : Client → Bool × Client
stop_diagnostic c = elim c.g_state [
  | none ↦ (true, c)
  | some o ↦ if not o.state.cb then (true, request_stop c) else (false, c)
]

-- stream_client_peer(): an address, or none.
abbrev pub peer : Client → Option ℕ
peer c =
    let a : ℕ = elim c.g_state [
      | none ↦ 0
      | some o ↦ if o.state.connected then o.state.peer_be else 0
    ] in
    if a == 0 then none else some a
