-- ===== src/Http/Soak.antt =====
-- GET /stream_soak of main/jlp/net/http_api.cpp over the stream client. `number` is strtol() of a whole
-- text, none where it does not end with the text.
use espos_p4_cockpit.Prelude.{
  ℕ, ◌≡◌, refl, String, Bool, true, false, not, ◌||◌, Option, none, some, or_else, ltb, ◌=s◌,
  if◌then◌else◌, arith,
}
use espos_p4_cockpit.Stream.Client.{
  Object, Client, Request, Answers, prepare, start, stop_diagnostic,
}

-- The keys of the query that are given.
pub record Query : Type 0 where
  pub stop : Option String
  pub start : Option String
  pub host : Option String
  pub port : Option String

pub data Problem : Type 0 where
  stop_must_be_1 owned_by_widget start_must_be_1 bad_port no_host start_failed : Problem

-- A port outside 1 to 65535, or one that is no number.
abbrev pub is_bad_port : (String → Option ℕ) → Option String → Bool
is_bad_port number none = false
is_bad_port number (some text) = elim (number text) [
  | none ↦ true
  | some n ↦ ltb n 1 || ltb 65535 n
]

-- `server` is the host of the Signal K server, empty where there is none.
unfoldable pub soak :
    (String → Option ℕ) → String → ℕ → ℕ → Answers → Option Query → Client → Option Problem × Client
soak number server width height given none c = (none, c)
soak number server width height given (some q) c =
    let (stopped, c₁) = stop_diagnostic c in
    let host = or_else q.host server in
    let (started, c₂) = start (record { width = width; height = height; cb = false }) given c in
    elim q.stop [
      | some text ↦
          if not (text =s "1")
          then (some stop_must_be_1, c)
          else (if stopped then none else some owned_by_widget, c₁)
      | none ↦ elim q.start [
        | none ↦ (none, c)
        | some text ↦
            if not (text =s "1")
            then (some start_must_be_1, c)
            else if is_bad_port number q.port
            then (some bad_port, c)
            else if host =s ""
            then (some no_host, c)
            else (if started then none else some start_failed, c₂)
      ]
    ]

start-busy :
    (q : Request) (a : Answers) (c : Client) (o : Object)
    → c.g_state ≡ some o
    → start q a c ≡ (false, c)
unfolding start prepare
start-busy q a c o e = ground arith

-- While a widget's stream runs, no request to /stream_soak changes anything of the client.
soak-widget :
    (number : String → Option ℕ) (server : String) (width height : ℕ) (given : Answers)
    (query : Option Query) (c : Client) (o : Object)
    → c.g_state ≡ some o
    → o.state.cb ≡ true
    → (soak number server width height given query c).1 ≡ c
unfolding soak stop_diagnostic
soak-widget number server width height given none c o e w = refl
soak-widget number server width height given (some q) c o e w =
    let busy = start-busy (record { width = width; height = height; cb = false }) given c o e in
    ground (arith, busy)
