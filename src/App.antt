-- ===== src/App.antt =====
-- main/app_main.cpp: the events of the Signal K stream and of the network, which the event loop posts to
-- the UI task, and the boot. The server that espOS has selected is an argument of each job.
pub mod Link
pub mod Boot
use espos_p4_cockpit.Prelude.{
  ℕ, ◌+◌, String, Bool, true, false, not, ◌&&◌, ◌||◌, Option, none, some, is_some, List, [], ◌∷◌,
  ◌++◌, ltb, if◌then◌else◌, Bytes, codes,
}
use espos_p4_cockpit.Swap.{
  ApplySource, boot, boot_store, boot_default, post_layout, boot_fetched, Swapped,
}
use espos_p4_cockpit.Status.{StatusOverlay, set_sk, set_sk_server, show_sk_lost, hide_sk_lost}

-- A server: the text of its host, its port.
abbrev pub Server : Type 0
Server = Bytes × ℕ

-- What the jobs start: a fetch of metadata and values, the fetch of the layout, the wake discovery.
pub data Start : Type 0 where
  zone_fetch : List String → Start
  layout_fetch wake_discover : Start

-- The statics of app_main.cpp, the overlay, and what was started, the first first.
pub record App : Type 0 where
  pub s_boot_fetch_done : Bool
  pub s_sk_connected : Bool
  pub s_wake_configured : Bool
  pub overlay : StatusOverlay
  pub started : List Start

pub data Event : Type 0 where
  stream_connected : Option Server → List String → Event  -- with known_paths()
  stream_disconnected token_approved network_up network_down other : Event

abbrev pub seeds : List String → List Start
seeds [] = []
seeds (p ∷ ps) = zone_fetch (p ∷ ps) ∷ []

abbrev pub named : (ℕ → Bytes) → Option Server → StatusOverlay → StatusOverlay
named udec none o = o
named udec (some (host, port)) o = set_sk_server udec (some host) port o

unfoldable pub sk_stream_up : (ℕ → Bytes) → Option Server → List String → App → App
sk_stream_up udec server known a = record a {
  s_sk_connected = true;
  overlay = named udec server (hide_sk_lost (set_sk (some (codes "ok")) a.overlay));
  s_boot_fetch_done = true;
  started =
      a.started
      ++ ((if a.s_boot_fetch_done then [] else seeds known ++ layout_fetch ∷ [])
          ++ (if a.s_wake_configured then [] else wake_discover ∷ []));
}

unfoldable pub sk_stream_down : App → App
sk_stream_down a = record a {
  s_sk_connected = false;
  overlay = show_sk_lost (set_sk (some (codes "down")) a.overlay);
}

abbrev pub unless_connected : String → App → App
unless_connected line a =
    if a.s_sk_connected then a else record a { overlay = set_sk (some (codes line)) a.overlay }

-- The job that on_espos_event() posts.
unfoldable pub on_espos_event : (ℕ → Bytes) → Event → App → App
unfolding sk_stream_up sk_stream_down
on_espos_event udec (stream_connected server known) a = sk_stream_up udec server known a
on_espos_event udec stream_disconnected a = sk_stream_down a
on_espos_event udec token_approved a = unless_connected "approved" a
on_espos_event udec network_up a = unless_connected "connecting" a
on_espos_event udec network_down a = unless_connected "no network" a
on_espos_event udec other a = a

unfoldable pub run : (ℕ → Bytes) → List Event → App → App
run udec [] a = a
run udec (e ∷ es) a = run udec es (on_espos_event udec e a)

-- The post-swap hook: what it fetches, where a server is known.
abbrev pub is_boot : ApplySource → Bool
is_boot boot_store = true
is_boot boot_fetched = true
is_boot _ = false

unfoldable pub post_swap : Option Server → Swapped → List Start
post_swap server s =
    if is_some server then seeds (if is_boot s.source then s.all_paths else s.introduced) else []

-- What poll_status_line() reports of the bus: a fault once it has talked and then been silent for more
-- than 30 seconds.
unfoldable pub is_stalled : Bool → ℕ → Bool
is_stalled n2k_seen rx_idle = n2k_seen && ltb 30 rx_idle
