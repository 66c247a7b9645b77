-- ===== src/App/Link.antt =====
-- What the status overlay shows of the stream, and what the first connect starts.
use espos_p4_cockpit.Prelude.{
  ℕ, ◌+◌, ◌≡◌, ◌≢◌, String, ◌↔◌, ◌⊎◌, refl, Bool, true, false, not, ◌&&◌, Option, none, some, List,
  [], ◌∷◌, ◌++◌, if◌then◌else◌, Bytes, codes, arith,
}
use espos_p4_cockpit.Status.{StatusOverlay, init_status, set_sk}
use espos_p4_cockpit.App.{
  Start, zone_fetch, layout_fetch, wake_discover, App, Event, stream_connected, stream_disconnected,
  token_approved, network_up, network_down, other, Server, unless_connected, seeds, sk_stream_up,
  sk_stream_down, on_espos_event, run,
}

-- What a history says of the stream: nothing yet, up or down.
pub data Stream : Type 0 where
  unheard up down : Stream

abbrev pub heard : Event → Stream → Stream
heard (stream_connected server known) s = up
heard stream_disconnected s = down
heard _ s = s

pub last_heard : List Event → Stream → Stream
last_heard [] s = s
last_heard (e ∷ es) s = last_heard es (heard e s)

-- The overlay and the flags agree with the stream.
pub record Agrees (s : Stream) (a : App) : Type 0 where
  pub made : a.overlay.made ≡ true
  pub banner : (a.overlay.lost_hidden ≡ false) ↔ (s ≡ down)
  pub flag : (a.s_sk_connected ≡ true) ↔ (s ≡ up)
  pub label : (s ≢ up) ⊎ (a.overlay.lbl_sk ≡ codes "sk:ok")

on_espos_event-Agrees :
    (udec : ℕ → Bytes) (e : Event) (s : Stream) (a : App)
    → Agrees s a
    → Agrees (heard e s) (on_espos_event udec e a)
unfolding on_espos_event
on_espos_event-Agrees udec (stream_connected none known) s a h = ground arith
on_espos_event-Agrees udec (stream_connected (some server) known) s a h = ground arith
on_espos_event-Agrees udec stream_disconnected s a h = ground arith
on_espos_event-Agrees udec token_approved s a h = ground arith
on_espos_event-Agrees udec network_up s a h = ground arith
on_espos_event-Agrees udec network_down s a h = ground arith
on_espos_event-Agrees udec other s a h = h

run-Agrees :
    (udec : ℕ → Bytes) (es : List Event) (s : Stream) (a : App)
    → Agrees s a
    → Agrees (last_heard es s) (run udec es a)
unfolding run last_heard
run-Agrees udec [] s a h = h
run-Agrees udec (e ∷ es) s a h =
    run-Agrees udec es (heard e s) (on_espos_event udec e a) (on_espos_event-Agrees udec e s a h)

abbrev pub fetches : List Start → ℕ
fetches [] = 0
fetches (layout_fetch ∷ ss) = 1 + fetches ss
fetches (zone_fetch ps ∷ ss) = fetches ss
fetches (wake_discover ∷ ss) = fetches ss

abbrev pub ever_up : List Event → Bool
ever_up [] = false
ever_up (stream_connected server known ∷ es) = true
ever_up (_ ∷ es) = ever_up es

fetches-append : (xs ys : List Start) → fetches (xs ++ ys) ≡ fetches xs + fetches ys
fetches-append [] ys = omega arith
fetches-append (layout_fetch ∷ xs) ys = omega (arith, fetches-append xs ys)
fetches-append (zone_fetch ps ∷ xs) ys = fetches-append xs ys
fetches-append (wake_discover ∷ xs) ys = fetches-append xs ys

fetches-boot : (known : List String) → fetches (seeds known ++ layout_fetch ∷ []) ≡ 1
fetches-boot [] = refl
fetches-boot (p ∷ ps) = refl

fetches-sk_stream_up :
    (udec : ℕ → Bytes) (server : Option Server) (known : List String) (a : App)
    → fetches (sk_stream_up udec server known a).started
      ≡ fetches a.started + (if a.s_boot_fetch_done then 0 else 1)
unfolding sk_stream_up
fetches-sk_stream_up udec server known a =
    let first : List Start = if a.s_boot_fetch_done then [] else seeds known ++ layout_fetch ∷ [] in
    let wake : List Start = if a.s_wake_configured then [] else wake_discover ∷ [] in
    let b = fetches-boot known in
    let one : fetches first ≡ (if a.s_boot_fetch_done then 0 else 1) = ground arith in
    let no_more : fetches wake ≡ 0 = ground arith in
    omega (arith, fetches-append a.started (first ++ wake), fetches-append first wake)

run-fetches :
    (udec : ℕ → Bytes) (es : List Event) (a : App)
    → fetches (run udec es a).started
      ≡ fetches a.started + (if ever_up es && not a.s_boot_fetch_done then 1 else 0)
unfolding run on_espos_event
run-fetches udec [] a = omega arith
run-fetches udec (stream_connected server known ∷ es) a = ground (
  arith,
  run-fetches udec es (sk_stream_up udec server known a),
  fetches-sk_stream_up udec server known a,
)
run-fetches udec (stream_disconnected ∷ es) a = run-fetches udec es (sk_stream_down a)
run-fetches udec (token_approved ∷ es) a =
    ground (arith, run-fetches udec es (unless_connected "approved" a))
run-fetches udec (network_up ∷ es) a =
    ground (arith, run-fetches udec es (unless_connected "connecting" a))
run-fetches udec (network_down ∷ es) a =
    ground (arith, run-fetches udec es (unless_connected "no network" a))
run-fetches udec (other ∷ es) a = run-fetches udec es a

-- Where the boot leaves the statics and the overlay.
abbrev pub booted : ℕ → Bool → StatusOverlay → App
booted ver_res configured o = record {
  s_boot_fetch_done = false;
  s_sk_connected = false;
  s_wake_configured = configured;
  overlay = set_sk (some (codes "no network")) (init_status ver_res o);
  started = [];
}

-- After the boot and every sequence of events the banner is up exactly while the last thing heard of
-- the stream is that it went down, the strip says "sk:ok" while it is up, whatever else was heard
-- since, and the layout was fetched once if the stream was ever up, and not otherwise.
pub run-booted :
    (udec : ℕ → Bytes) (ver_res : ℕ) (configured : Bool) (o : StatusOverlay) (es : List Event)
    → let a = run udec es (booted ver_res configured o) in
      Agrees (last_heard es unheard) a × (fetches a.started ≡ (if ever_up es then 1 else 0))
unfolding init_status
run-booted udec ver_res configured o es =
    let a = booted ver_res configured o in
    let begins : Agrees unheard a = ground arith in
    (run-Agrees udec es unheard a begins, ground (arith, run-fetches udec es a))
