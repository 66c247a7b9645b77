-- ===== src/Notifications.antt =====
-- main/jlp/notifications_registry.{h,cpp}: the live set of SignalK notifications, the local
-- acknowledgements, and the guards that tell the echo of the panel's own ACK from a real clear.
-- Times are readings of esp_timer_get_time(), one for each call; std::function callbacks are numbers.
pub mod Severity
pub mod Views
pub mod History
pub mod Delivery
pub mod Ack
pub mod Escalation
pub mod Invariant
pub mod Quiet
pub mod Observers
use espos_p4_cockpit.Prelude.{
  ℕ, ◌+◌, ◌-◌, ◌%◌, ◌^◌, String, Bool, true, false, not, ◌&&◌, ◌||◌, List, [], ◌∷◌, ◌++◌, Option,
  none, some, ltb, leb, ◌==◌, if◌then◌else◌, or_else, ◌=s◌,
}
use espos_p4_cockpit.Prelude.Dict.{Dict, lookup, insert, erase, has}
use espos_p4_cockpit.Json.{JsonLib}

pub data NotState : Type 0 where
  nominal normal alert warn alarm emergency : NotState

-- The enumerator's uint8_t value, by which states are compared.
abbrev pub rank : NotState → ℕ
rank nominal = 0
rank normal = 1
rank alert = 2
rank warn = 3
rank alarm = 4
rank emergency = 5

unfoldable pub parse_not_state : Option String → NotState
parse_not_state none = normal
parse_not_state (some s) =
    if s =s "nominal"
    then nominal
    else if s =s "normal"
    then normal
    else if s =s "alert"
    then alert
    else if s =s "warn"
    then warn
    else if s =s "warning"
    then warn
    else if s =s "alarm"
    then alarm
    else if s =s "emergency"
    then emergency
    else normal

unfoldable pub not_state_name : NotState → String
not_state_name nominal = "nominal"
not_state_name normal = "normal"
not_state_name alert = "alert"
not_state_name warn = "warn"
not_state_name alarm = "alarm"
not_state_name emergency = "emergency"

pub record Notification : Type 0 where
  pub path : String
  pub message : String
  pub state : NotState
  pub wants_sound : Bool

pub record Slot : Type 0 where
  pub token : ℕ
  pub cb : ℕ

pub record Registry : Type 0 where
  pub map : Dict Notification
  pub self_cleared : Dict ℕ
  pub acked : Dict NotState
  pub reasserting : Dict (Unit {0})
  pub ack_clear_echo_at : Dict ℕ
  pub observers : List Slot
  pub next_token : ℕ
  pub last_change_was_escalation : Bool
  pub last_escalation_wants_sound : Bool
  pub last_changed_path : String

abbrev pub empty_registry : Registry
empty_registry = record {
  map = [];
  self_cleared = [];
  acked = [];
  reasserting = [];
  ack_clear_echo_at = [];
  observers = [];
  next_token = 1;
  last_change_was_escalation = false;
  last_escalation_wants_sound = false;
  last_changed_path = "";
}

abbrev pub reassert_window_us : ℕ
reassert_window_us = 60_000_000

abbrev pub self_clear_window_us : ℕ
self_clear_window_us = 10_000_000

-- `state == Nominal || state == Normal`.
abbrev pub is_cleared : NotState → Bool
is_cleared s = rank s == rank nominal || rank s == rank normal

-- The slots that fire_observers() calls: a snapshot, taken before the first call.
unfoldable pub fire_observers : Registry → Registry × List Slot
fire_observers r = (r, r.observers)

-- `now - then` stands under `<` only, where truncation at 0 gives the signed test's answer.
unfoldable pub take_self_clear : ℕ → String → Registry → Registry × Bool
take_self_clear now path r = elim (lookup path r.self_cleared) [
  | none ↦ (r, false)
  | some at ↦
      (record r { self_cleared = erase path r.self_cleared }, ltb (now - at) self_clear_window_us)
]

-- The branch of apply() for a null value.
unfoldable pub remove : ℕ → String → Registry → Registry × List Slot
unfolding take_self_clear fire_observers
remove now path r =
    let (taken, echo) = take_self_clear now path r in
    let kept = if echo then taken else record taken { acked = erase path taken.acked } in
    let gone = record kept { map = erase path kept.map; last_changed_path = path } in
    if has path kept.map then fire_observers gone else (kept, [])

-- `it != end && it->second.state == n.state && it->second.message == n.message`.
abbrev pub is_repeat : Notification → Option Notification → Bool
is_repeat n none = false
is_repeat n (some old) = rank old.state == rank n.state && (old.message =s n.message)

-- The branch for a nominal or normal state.
unfoldable pub clear : ℕ → Notification → Registry → Registry × List Slot
unfolding take_self_clear fire_observers
clear now n r =
    let (taken, echo) = take_self_clear now n.path r in
    let kept =
      if echo
      then record taken { ack_clear_echo_at = insert n.path now taken.ack_clear_echo_at }
      else record taken { acked = erase n.path taken.acked } in
    let stored = record kept { map = insert n.path n kept.map; last_changed_path = n.path } in
    if is_repeat n (lookup n.path kept.map) then (kept, []) else fire_observers stored

-- The re-assert clock: a re-raise inside the window marks the path.
unfoldable pub settle_echo : ℕ → Notification → Registry → Registry
settle_echo now n r = elim (lookup n.path r.ack_clear_echo_at) [
  | none ↦ r
  | some at ↦ record r {
    ack_clear_echo_at = erase n.path r.ack_clear_echo_at;
    reasserting =
        if ltb (now - at) reassert_window_us && leb (rank alert) (rank n.state)
        then insert n.path tt r.reasserting
        else r.reasserting;
  }
]

-- An escalation above the level of the acknowledgement re-arms the path.
unfoldable pub rearm : Notification → Registry → Registry
rearm n r = elim (lookup n.path r.acked) [
  | none ↦ r
  | some level ↦
      if ltb (rank level) (rank n.state) then record r { acked = erase n.path r.acked } else r
]

abbrev pub stored_state : Option Notification → NotState
stored_state none = normal
stored_state (some old) = old.state

-- The branch for an alerting state.
unfoldable pub raise : ℕ → Notification → Registry → Registry × List Slot
unfolding settle_echo rearm fire_observers
raise now n r =
    let dropped = record r { self_cleared = erase n.path r.self_cleared } in
    let ready = rearm n (settle_echo now n dropped) in
    let escalation = ltb (rank (stored_state (lookup n.path ready.map))) (rank n.state) in
    let stored = record ready {
      map = insert n.path n ready.map;
      last_change_was_escalation = escalation;
      last_escalation_wants_sound = escalation && n.wants_sound;
      last_changed_path = n.path;
    } in
    if is_repeat n (lookup n.path ready.map) then (ready, []) else fire_observers stored

-- apply() on a decoded delta; `none` stands for a null value.
unfoldable pub apply_decoded : ℕ → String → Option Notification → Registry → Registry × List Slot
unfolding remove clear raise
apply_decoded now path delta r =
    let quiet = record r {
      last_change_was_escalation = false;
      last_escalation_wants_sound = false;
    } in
    elim delta [
      | none ↦ remove now path quiet
      | some n ↦ if is_cleared n.state then clear now n quiet else raise now n quiet
    ]

module _ (J : JsonLib) where
  open J use {Json, is_null, member, elements, text}

  -- Whether the `method` array holds "sound".
  unfoldable pub asks_sound : List Json → Bool
  asks_sound [] = false
  asks_sound (m ∷ ms) = (or_else (text m) "" =s "sound") || asks_sound ms

  unfoldable pub decode : String → Json → Option Notification
  unfolding asks_sound
  decode path value =
      if is_null value
      then none
      else some (record {
        path = path;
        message = or_else (text (member value "message")) "";
        state = parse_not_state (some (or_else (text (member value "state")) "normal"));
        wants_sound = asks_sound (elements (member value "method"));
      })

  unfoldable pub apply : ℕ → String → Json → Registry → Registry × List Slot
  unfolding apply_decoded
  apply now path value r = apply_decoded now path (decode path value) r

unfoldable pub forget_self_clear : String → Registry → Registry
forget_self_clear path r = record r { self_cleared = erase path r.self_cleared }

-- The last part says whether the caller is to send the ACK delta to the server as well.
unfoldable pub acknowledge : ℕ → String → Registry → Registry × List Slot × Bool
acknowledge now path r = elim (lookup path r.map) [
  | none ↦ (r, [], false)
  | some n ↦
      let send = not (has path r.reasserting) in
      let acked = record r {
        acked = insert path n.state r.acked;
        self_cleared = if send then insert path now r.self_cleared else r.self_cleared;
        last_changed_path = path;
      } in
      (acked, acked.observers, send)
]

abbrev pub is_acknowledged : String → Registry → Bool
is_acknowledged path r = has path r.acked

-- `!best || kv.second.state > best->state`.
abbrev pub is_above : Notification → Option Notification → Bool
is_above n none = true
is_above n (some best) = ltb (rank best.state) (rank n.state)

-- The loop of most_severe().
unfoldable pub scan : Dict NotState → Option Notification → Dict Notification → Option Notification
scan acked best [] = best
scan acked best ((path, n) ∷ rest) =
    scan acked
      (if has path acked || is_cleared n.state
        then best
        else if is_above n best
        then some n
        else best)
      rest

unfoldable pub most_severe : Registry → Option Notification
unfolding scan
most_severe r = scan r.acked none r.map

-- The loop of snapshot().
unfoldable pub collect : Bool → Dict Notification → List Notification
collect include_cleared [] = []
collect include_cleared ((path, n) ∷ rest) =
    let others = collect include_cleared rest in
    if not include_cleared && is_cleared n.state then others else n ∷ others

-- std::sort by descending severity. Which of two equal rows comes first is left open by the
-- standard; here it is the earlier one.
unfoldable pub place : Notification → List Notification → List Notification
place n [] = n ∷ []
place n (m ∷ ms) = if ltb (rank n.state) (rank m.state) then m ∷ place n ms else n ∷ m ∷ ms

unfoldable pub sort : List Notification → List Notification
unfolding place
sort [] = []
sort (n ∷ ns) = place n (sort ns)

unfoldable pub snapshot : Bool → Registry → List Notification
unfolding collect sort
snapshot include_cleared r = sort (collect include_cleared r.map)

unfoldable pub on_change : ℕ → Registry → Registry × ℕ
on_change cb r = (
  record r {
    observers = r.observers ++ (record { token = r.next_token; cb = cb }) ∷ [];
    next_token = (r.next_token + 1) % 2 ^ 32;
  },
  r.next_token,
)

unfoldable pub remove_slot : ℕ → List Slot → List Slot
remove_slot token [] = []
remove_slot token (s ∷ ss) = if s.token == token then ss else s ∷ remove_slot token ss

unfoldable pub off_change : ℕ → Registry → Registry
unfolding remove_slot
off_change token r = record r { observers = remove_slot token r.observers }
