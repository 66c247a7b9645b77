-- ===== src/Alert.antt =====
-- main/jlp/alert_overlay.{h,cpp}: the modal alarm over the lower half of the screen, its chime and
-- its ACK button. The LVGL objects are the fields that hold what they show; lv_tick_get() is an
-- argument, and so is what put_notification_ack() answers.
pub mod Tells
pub mod Current
pub mod History
pub mod Tap
pub mod Sound
use espos_p4_cockpit.Prelude.{
  ℕ, String, Bool, true, false, not, ◌&&◌, ◌||◌, List, [], ◌∷◌, Option, none, some, ltb, leb, ◌==◌,
  if◌then◌else◌, ◌=s◌,
}
use espos_p4_cockpit.Notifications.{
  NotState, nominal, normal, alert, warn, alarm, emergency, rank, not_state_name, Notification,
  Slot, Registry, is_acknowledged, most_severe, acknowledge, forget_self_clear,
}

unfoldable pub color_for_not_state : NotState → ℕ
color_for_not_state nominal = 0x3fb950
color_for_not_state normal = 0x3fb950
color_for_not_state alert = 0xd29922
color_for_not_state warn = 0xdb6d28
color_for_not_state alarm = 0xf85149
color_for_not_state emergency = 0xa371f7

-- `root` says whether init() has made the objects.
pub record AlertOverlay : Type 0 where
  pub root : Bool
  pub hidden : Bool
  pub state_label : String
  pub state_color : ℕ
  pub path_label : String
  pub msg_label : String
  pub current_path : String
  pub shown_at : ℕ
  pub enabled : Bool
  pub min_state : NotState

-- What init() leaves: the labels as made, the members at their defaults.
abbrev pub init : AlertOverlay
init = record {
  root = true;
  hidden = true;
  state_label = "ALARM";
  state_color = 0xf85149;
  path_label = "";
  msg_label = "";
  current_path = "";
  shown_at = 0;
  enabled = true;
  min_state = alarm;
}

abbrev pub dismiss : AlertOverlay → AlertOverlay
dismiss o = record o { hidden = true; current_path = "" }

abbrev pub present : ℕ → Notification → AlertOverlay → AlertOverlay
present tick n o = record o {
  shown_at = if o.hidden || not (o.current_path =s n.path) then tick else o.shown_at;
  current_path = n.path;
  state_label = not_state_name n.state;
  state_color = color_for_not_state n.state;
  path_label = n.path;
  msg_label = if n.message =s "" then "(no message)" else n.message;
  hidden = false;
}

unfoldable pub rebuild : ℕ → Registry → AlertOverlay → AlertOverlay
rebuild tick r o =
    if not o.root then o else if not o.enabled then dismiss o else elim (most_severe r) [
      | none ↦ dismiss o
      | some n ↦ if ltb (rank n.state) (rank o.min_state) then dismiss o else present tick n o
    ]

unfoldable pub configure : ℕ → Bool → NotState → Registry → AlertOverlay → AlertOverlay
unfolding rebuild
configure tick enabled min_state r o =
    rebuild tick r (record o { enabled = enabled; min_state = min_state })

-- What the callback of on_change() plays: nothing, or the chime of one state.
unfoldable pub chimes : Registry → AlertOverlay → Option NotState
chimes r o =
    if o.enabled
      && r.last_change_was_escalation
      && r.last_escalation_wants_sound
      && not (is_acknowledged r.last_changed_path r)
    then elim (most_severe r) [
      | none ↦ none
      | some n ↦ if leb (rank o.min_state) (rank n.state) then some n.state else none
    ]
    else none

-- The callback that init() registers: the chime, then the rebuild.
unfoldable pub changed : ℕ → Registry → AlertOverlay → AlertOverlay × Option NotState
unfolding chimes rebuild
changed tick r o = (rebuild tick r o, chimes r o)

-- Whether one of the fired slots is the overlay's.
unfoldable pub is_called : ℕ → List Slot → Bool
is_called cb [] = false
is_called cb (s ∷ ss) = (s.cb == cb) || is_called cb ss

unfoldable pub observe :
    ℕ → ℕ → List Slot → Registry → AlertOverlay → AlertOverlay × Option NotState
unfolding changed
observe cb tick fired r o = if is_called cb fired then changed tick r o else (o, none)

-- A click on ACK: `elaps` is lv_tick_elaps() at that moment, `sent` what put_notification_ack() answers.
-- The registry's observers run inside acknowledge(), before the delta is sent.
unfoldable pub tap :
    ℕ → ℕ → ℕ → (ℕ → ℕ) → Bool → Registry → AlertOverlay → Registry × AlertOverlay × Option NotState
unfolding observe
tap cb now tick elaps sent r o =
    if (o.current_path =s "") || ltb (elaps o.shown_at) 500
    then (r, o, none)
    else let path = o.current_path in
      let (acked, fired, send) = acknowledge now path r in
      let (shown, chime) = observe cb tick fired acked o in
      let final = if send && not sent then forget_self_clear path acked else acked in
      (final, shown, chime)
