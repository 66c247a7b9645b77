-- ===== src/Notifications/Delivery.antt =====
-- on_notification() of main/jlp/notifications_registry.cpp: from the task of the stream through the job
-- queue of the UI task to the registry. `utf8` and `of_utf8` convert texts and bytes.
pub mod Heard
use espos_p4_cockpit.Prelude.{
  ℕ, ◌≡◌, refl, sym, ap, ◌∙◌, String, false, Option, none, some, List, [], ◌∷◌, ◌++◌, if◌then◌else◌,
  take, drop, Bytes, codes, same_bytes,
}
use mathlib.Core.List.{append_assoc, append-nil}
use espos_p4_cockpit.Json.{JsonLib}
use espos_p4_cockpit.Notifications.{Registry, apply}
use espos_p4_cockpit.Notifications.History
use espos_p4_cockpit.Notifications.History.{Call}
use espos_p4_cockpit.Ui.Queue.{Queue, post, drain_one}

-- An update of the stream: a path, and the text of a value where it has one.
pub record Update : Type 0 where
  pub path : String
  pub value_json : Option String

-- What the lambda of on_notification() holds.
pub record Delta : Type 0 where
  pub path : String
  pub value : String

abbrev pub prefix : Bytes
prefix = codes "notifications."

module _ (J : JsonLib) (utf8 : String → Bytes) (of_utf8 : Bytes → String) where
  open J use {deserialize}

  -- The job that on_notification() posts; none where it returns before.
  unfoldable pub on_notification : Update → Option Delta
  on_notification u = elim u.value_json [
    | none ↦ none
    | some value ↦
        if same_bytes (take 14 (utf8 u.path)) prefix
        then some (record { path = u.path; value = value })
        else none
  ]

  unfoldable pub handle_delta : ℕ → Delta → Registry → Registry
  handle_delta now d r = elim (deserialize d.value) [
    | none ↦ r
    | some doc ↦ (apply J now (of_utf8 (drop 14 (utf8 d.path))) doc r).0
  ]

  pub data Event : Type 0 where
    arrives : Update → Event  -- on the task of the stream
    drains : ℕ → Event  -- a round of the UI task, with its clock
    does : Call J → Event  -- by code that runs on the UI task

  abbrev pub posted : Option Delta → Queue Delta Registry → Queue Delta Registry
  posted none q = q
  posted (some d) q = post handle_delta false 0 d q

  unfoldable pub step : Event → Queue Delta Registry → Queue Delta Registry
  unfolding on_notification handle_delta
  step (arrives u) q = posted (on_notification u) q
  step (drains now) q = drain_one handle_delta now q
  step (does c) q = record q { state = History.step J c q.state }

  unfoldable pub run : List Event → Queue Delta Registry → Queue Delta Registry
  unfolding step
  run [] q = q
  run (e ∷ es) q = run es (step e q)

  -- What reaches the registry.
  pub data Entry : Type 0 where
    delivered : ℕ → Delta → Entry
    called : Call J → Entry

  abbrev pub enact : Entry → Registry → Registry
  enact (delivered now d) r = handle_delta now d r
  enact (called c) r = History.step J c r

  pub enact_all : List Entry → Registry → Registry
  enact_all [] r = r
  enact_all (e ∷ es) r = enact_all es (enact e r)

  abbrev pub deltas_of : List Entry → List Delta
  deltas_of [] = []
  deltas_of (delivered now d ∷ es) = d ∷ deltas_of es
  deltas_of (called c ∷ es) = deltas_of es

  abbrev pub calls_of : List Entry → List (Call J)
  calls_of [] = []
  calls_of (delivered now d ∷ es) = calls_of es
  calls_of (called c ∷ es) = c ∷ calls_of es

  abbrev pub listed : Option Delta → List Delta
  listed none = []
  listed (some d) = d ∷ []

  -- The deltas of the updates that on_notification() lets through, in the order in which they arrive.
  abbrev pub arrivals : List Event → List Delta
  arrivals [] = []
  arrivals (arrives u ∷ es) = listed (on_notification u) ++ arrivals es
  arrivals (drains now ∷ es) = arrivals es
  arrivals (does c ∷ es) = arrivals es

  -- The calls of the UI task, in order.
  abbrev pub made : List Event → List (Call J)
  made [] = []
  made (arrives u ∷ es) = made es
  made (drains now ∷ es) = made es
  made (does c ∷ es) = c ∷ made es

  -- A log that leads from one state to another.
  abbrev pub Logs : List Event → Queue Delta Registry → Type 0
  Logs es q =
      (log : List Entry) × ((run es q).state ≡ enact_all log q.state)
      × (deltas_of log ++ (run es q).s_queue ≡ q.s_queue ++ arrivals es)
      × (calls_of log ≡ made es)

  posted-state : (o : Option Delta) (q : Queue Delta Registry) → (posted o q).state ≡ q.state
  posted-state none q = refl
  posted-state (some d) q = refl

  posted-s_queue :
      (o : Option Delta) (q : Queue Delta Registry) → (posted o q).s_queue ≡ q.s_queue ++ listed o
  posted-s_queue none q = sym (append-nil q.s_queue)
  posted-s_queue (some d) q = refl

  drains-Logs :
      (now : ℕ) (es : List Event) (ds : List Delta) (r : Registry)
      → ((q : Queue Delta Registry) → Logs es q)
      → Logs (drains now ∷ es) (record { s_queue = ds; state = r })
  unfolding run enact_all
  drains-Logs now es [] r next = next (record { s_queue = []; state = r })
  drains-Logs now es (d ∷ ds) r next =
      let (log, reached, kept, own) =
        next (record { s_queue = ds; state = handle_delta now d r }) in
      (delivered now d ∷ log, reached, ap (λ xs. d ∷ xs) kept, own)

  pub run-Logs : (es : List Event) (q : Queue Delta Registry) → Logs es q
  unfolding run enact_all
  run-Logs [] q = ([], refl, sym (append-nil q.s_queue), refl)
  run-Logs (arrives u ∷ es) q =
      let o = on_notification u in
      let (log, reached, kept, own) = run-Logs es (posted o q) in
      (
        log,
        reached ∙ ap (enact_all log) (posted-state o q),
        kept
            ∙ ap (λ ds. ds ++ arrivals es) (posted-s_queue o q)
            ∙ append_assoc q.s_queue (listed o) (arrivals es),
        own,
      )
  run-Logs (drains now ∷ es) q = drains-Logs now es q.s_queue q.state (run-Logs es)
  run-Logs (does c ∷ es) q =
      let (log, reached, kept, own) = run-Logs es (record q { state = History.step J c q.state }) in
      (called c ∷ log, reached, kept, ap (λ xs. c ∷ xs) own)
