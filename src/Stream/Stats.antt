-- ===== src/Stream/Stats.antt =====
-- stream_client_stats() of main/jlp/net/stream_client.cpp: the counters, and the percentiles of the
-- last intervals between frames.
pub mod Percentiles
use espos_p4_cockpit.Prelude.{
  ℕ, zero, suc, ◌+◌, ◌-◌, ◌*◌, ◌/◌, ◌==◌, min, Bool, true, false, not, List, [], ◌∷◌, Option, none,
  some, leb, if◌then◌else◌, take, get_elem?, or_else,
}
use espos_p4_cockpit.Stream.{State, interval_ring}
use espos_p4_cockpit.Stream.Client.{Object, Client}

pub record StreamStats : Type 0 where
  pub running : Bool
  pub connected : Bool
  pub frames_received : ℕ
  pub frames_decoded : ℕ
  pub decode_errors : ℕ
  pub protocol_errors : ℕ
  pub reconnects : ℕ
  pub bytes_received : ℕ
  pub last_frame_us : ℕ
  pub interval_samples : ℕ
  pub interval_p50_ms : ℕ
  pub interval_p99_ms : ℕ
  pub interval_max_ms : ℕ

-- std::sort, ascending.
unfoldable pub insert_sorted : ℕ → List ℕ → List ℕ
insert_sorted x [] = x ∷ []
insert_sorted x (y ∷ ys) = let rest = insert_sorted x ys in if leb x y then x ∷ y ∷ ys else y ∷ rest

unfoldable pub sort_ring : List ℕ → List ℕ
unfolding insert_sorted
sort_ring [] = []
sort_ring (x ∷ xs) = insert_sorted x (sort_ring xs)

-- `v[i]`, of a list that is long enough.
abbrev pub at : List ℕ → ℕ → ℕ
at xs i = or_else (get_elem? xs i) 0

abbrev pub no_stats : StreamStats
no_stats = record {
  running = false;
  connected = false;
  frames_received = 0;
  frames_decoded = 0;
  decode_errors = 0;
  protocol_errors = 0;
  reconnects = 0;
  bytes_received = 0;
  last_frame_us = 0;
  interval_samples = 0;
  interval_p50_ms = 0;
  interval_p99_ms = 0;
  interval_max_ms = 0;
}

-- The first critical section.
abbrev pub counters : State → StreamStats
counters s = record no_stats {
  running = s.running;
  connected = s.connected;
  frames_received = s.frames_received;
  frames_decoded = s.frames_decoded;
  decode_errors = s.decode_errors;
  protocol_errors = s.protocol_errors;
  reconnects = s.reconnects;
  bytes_received = s.bytes_received;
  last_frame_us = s.last_frame_us;
}

-- The intervals that are copied: the whole ring once it has gone round.
abbrev pub samples : State → List ℕ
samples s = take (min s.interval_count interval_ring) s.intervals_ms

unfoldable pub percentiles : ℕ → List ℕ → StreamStats → StreamStats
unfolding sort_ring
percentiles count ring out =
    let sorted = sort_ring ring in
    if count == 0 then out else record out {
      interval_samples = count;
      interval_p50_ms = at sorted (count / 2);
      interval_p99_ms = at sorted (count * 99 / 100);
      interval_max_ms = at sorted (count - 1);
    }

-- The client at the first look and at the second, for which the task may have gone.
unfoldable pub stats : Client → Client → StreamStats
unfolding percentiles
stats c c' = elim c.g_state [
  | none ↦ no_stats
  | some o ↦ elim c'.g_state [
    | none ↦ counters o.state
    | some o' ↦
        let n = min o'.state.interval_count interval_ring in
        if o'.id == o.id
        then percentiles n (samples o'.state) (counters o.state)
        else counters o.state
  ]
]
