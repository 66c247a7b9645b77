-- ===== src/Picture.antt =====
-- The picture of the stream widget of main/jlp/widgets/widget_factory.cpp: the frames that the stream
-- client hands over, the image on the UI task, and the stop of a session.
use espos_p4_cockpit.Prelude.{
  ℕ, ◌+◌, ◌%◌, ◌^◌, Bool, true, false, not, ◌&&◌, ◌||◌, Option, none, some, is_some, List, [], ◌∷◌,
  ◌++◌, ◌==◌, if◌then◌else◌,
}
pub mod Sessions
pub mod Watch
pub mod Touch

-- One of the two output buffers of a session of the stream client.
pub record Pixels : Type 0 where
  pub session : ℕ
  pub buffer : ℕ

-- A job that was posted to the UI task, with the epoch that its frame was handed over in.
pub record Post : Type 0 where
  pub ep : ℕ
  pub px : Pixels

-- `StreamCtx::started` and `StreamShared`: `src` is the index of the descriptor that the image shows.
-- `session` counts the sessions that were started.
pub record Picture : Type 0 where
  pub started : Bool
  pub alive : Bool
  pub epoch : ℕ
  pub buf_0 : Option Pixels
  pub buf_1 : Option Pixels
  pub src : Option ℕ
  pub placeholder : Bool  -- whether it is shown
  pub queue : List Post
  pub session : ℕ

abbrev pub is_pixels : Pixels → Option Pixels → Bool
is_pixels px none = false
is_pixels px (some q) = px.session == q.session && px.buffer == q.buffer

-- `stream_try_start` for a known host, with the answer of stream_client_start().
abbrev pub try_start : Bool → Picture → Picture
try_start ok s =
    if s.started || not ok then s else record s { started = true; session = s.session + 1 }

-- The callback on the network task.
abbrev pub hand_over : Pixels → Picture → Picture
hand_over px s =
    if s.alive then record s { queue = s.queue ++ record { ep = s.epoch; px = px } ∷ [] } else s

-- The frame on the image: in its descriptor, or in a new one.
abbrev pub show_pixels : Pixels → Picture → Picture
show_pixels px s =
    let shown = record s { placeholder = false } in
    if is_pixels px s.buf_0
    then record shown { src = some 0 }
    else if is_pixels px s.buf_1
    then record shown { src = some 1 }
    else if is_some s.buf_0
    then record shown { buf_1 = some px; src = some 1 }
    else record shown { buf_0 = some px; src = some 0 }

-- The job at the head of the queue of the UI task.
abbrev pub drain : Picture → Picture
drain s = elim s.queue [
  | [] ↦ s
  | p ∷ ps ↦
      let s' = record s { queue = ps } in
      if s.alive && p.ep == s.epoch then show_pixels p.px s' else s'
]

abbrev pub do_stop : Picture → Picture
do_stop s = if not s.started then s else record s {
  started = false;
  epoch = (s.epoch + 1) % 2 ^ 32;
  buf_0 = none;
  buf_1 = none;
  src = none;
  placeholder = true;
}

pub data Event : Type 0 where
  starts : Bool → Event
  frame : Pixels → Event
  drains stops : Event

unfoldable pub step : Event → Picture → Picture
step (starts ok) s = try_start ok s
step (frame px) s = hand_over px s
step drains s = drain s
step stops s = do_stop s

unfoldable pub run : List Event → Picture → Picture
run [] s = s
run (e ∷ es) s = run es (step e s)

-- The pixels that the image refers to.
abbrev pub shown : Picture → Option Pixels
shown s = elim s.src [ none ↦ none | some i ↦ if i == 0 then s.buf_0 else s.buf_1 ]
