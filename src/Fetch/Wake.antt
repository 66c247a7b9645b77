-- ===== src/Fetch/Wake.antt =====
-- main/jlp/net/wake_discover.cpp: the search for the server that listens for the wake word. `udec` prints
-- an unsigned number, `atoi` reads one, with 0 for every text that gives none above 0. One attempt meets
-- one set of answers of the network.
pub mod Port
pub mod Search
pub mod Again
use espos_p4_cockpit.Prelude.{
  ℕ, zero, suc, ◌+◌, ◌-◌, String, Bool, true, false, not, ◌&&◌, ◌||◌, Option, none, some, List, [],
  ◌∷◌, ◌++◌, ltb, ◌==◌, ◌=s◌, if◌then◌else◌, or_else, Bytes, codes, same_bytes,
}
use espos_p4_cockpit.Json.{JsonLib}
use espos_p4_cockpit.Fetch.Layout.{Response, posted_body}

-- `strrchr(uri, ':') + 1`.
unfoldable pub after_colon : Bytes → Option Bytes
after_colon [] = none
after_colon (c ∷ cs) = elim (after_colon cs) [
  | some rest ↦ some rest
  | none ↦ if c == b':' then some cs else none
]

abbrev pub default_port : ℕ
default_port = 10400

unfoldable pub port_of : (Bytes → ℕ) → Bytes → ℕ
unfolding after_colon
port_of atoi uri = elim (after_colon uri) [
  | none ↦ default_port
  | some text ↦ if ltb 0 (atoi text) && ltb (atoi text) 65536 then atoi text else default_port
]

abbrev pub max_words : ℕ
max_words = 8

-- The loop over "wakeWords", with `room` words still to take.
unfoldable pub take_words : ℕ → List (Option String) → List String
take_words zero ws = []
take_words (suc room) [] = []
take_words (suc room) (none ∷ ws) = take_words (suc room) ws
take_words (suc room) (some t ∷ ws) =
    if t =s "" then take_words (suc room) ws else t ∷ take_words room ws

-- The wait before an attempt, in milliseconds.
abbrev pub wait_before : ℕ → ℕ
wait_before attempt = if attempt == 0 then 0 else if ltb attempt 12 then 10000 else 60000

-- What one attempt meets: the host of the selected server, the answer to the status request, and the
-- address that the host has.
pub record Answers : Type 0 where
  pub server : Option String
  pub response : Response
  pub address : Option Bytes

-- What set_wake_network() is called with.
pub record Target : Type 0 where
  pub ip : Bytes
  pub port : ℕ
  pub words : List String

module _ (J : JsonLib) (atoi : Bytes → ℕ) (utf8 : String → Bytes) where
  open J use {Json, deserialize, member, elements, text}

  abbrev pub words_of : List Json → List (Option String)
  words_of [] = []
  words_of (v ∷ vs) = text v ∷ words_of vs

  unfoldable pub target_of : Json → Bytes → Target
  target_of doc ip = record {
    ip = ip;
    port = port_of atoi (utf8 (or_else (text (member doc "uri")) ""));
    words = take_words max_words (words_of (elements (member doc "wakeWords")));
  }

  -- The parts of the body of the loop; none is `continue`.
  unfoldable pub with_doc : Option Bytes → Option Json → Option Target
  with_doc address none = none
  with_doc none (some doc) = none
  with_doc (some ip) (some doc) =
      if or_else (text (member doc "status")) "" =s "ready" then some (target_of doc ip) else none

  unfoldable pub with_body : Option Bytes → Option String → Option Target
  unfolding with_doc
  with_body address none = none
  with_body address (some body) = with_doc address (deserialize body)

  unfoldable pub with_server : Answers → Option String → Option Target
  unfolding with_body
  with_server a none = none
  with_server a (some host) = with_body a.address (posted_body a.response)

  unfoldable pub attempt : Answers → Option Target
  unfolding with_server
  attempt a = with_server a a.server

  unfoldable pub go_on : Option Target → ℕ → Option (Target × ℕ) → Option (Target × ℕ)
  go_on none waited rest = rest
  go_on (some t) waited rest = some (t, waited)

  -- The loop from an attempt on: what it hands to the satellite and the milliseconds of its delays, without
  -- the time of the requests; none while it goes on.
  unfoldable pub discover : ℕ → ℕ → List Answers → Option (Target × ℕ)
  unfolding go_on
  discover n waited [] = none
  discover n waited (a ∷ as') =
      let waited' = waited + wait_before n in
      go_on (attempt a) waited' (discover (n + 1) waited' as')

-- The statics, with the number of tasks that run.
pub record Discovery : Type 0 where
  pub discovered_for : Bytes
  pub running : Bool
  pub tasks : ℕ

-- wake_discover_start() for the given server, and whether xTaskCreate() succeeds.
unfoldable pub wake_discover_start :
    (ℕ → Bytes) → Bool → Option (Bytes × ℕ) → Bool → Discovery → Discovery
wake_discover_start udec sat server spawns d = elim server [
  | none ↦ d
  | some (host, port) ↦
      let key = host ++ (codes ":" ++ udec port) in
      if not sat || d.running
      then d
      else if same_bytes key d.discovered_for
      then d
      else if spawns
      then record { discovered_for = key; running = true; tasks = d.tasks + 1 }
      else record d { discovered_for = []; running = false }
]

-- The end of discover_task().
unfoldable pub discovered : Discovery → Discovery
discovered d = record d { running = false; tasks = d.tasks - 1 }
