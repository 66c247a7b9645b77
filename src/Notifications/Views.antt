-- ===== src/Notifications/Views.antt =====
-- main/jlp/notifications_registry.cpp seen one path at a time: what the registry keeps for a path,
-- and a delta as a step of that path alone.
use espos_p4_cockpit.Prelude.{
  ℕ, ◌-◌, ◌≡◌, refl, String, Bool, true, false, ◌||◌, Option, none, some, inl, inr, arith, ltb,
  if◌then◌else◌, ◌=s◌, str_iff, Bool-cases, Option-cases,
}
use espos_p4_cockpit.Prelude.Dict.{lookup, has, lookup-insert, lookup-erase}
use espos_p4_cockpit.Json.{JsonLib}
use espos_p4_cockpit.Notifications.{
  NotState, rank, Notification, Registry, is_cleared, is_repeat, reassert_window_us,
  self_clear_window_us, remove, clear, raise, apply_decoded, decode, apply, acknowledge,
  forget_self_clear,
}

-- What the registry keeps for one path.
pub record View : Type 0 where
  pub entry : Option Notification
  pub cleared_at : Option ℕ
  pub level : Option NotState
  pub reasserts : Bool
  pub echo_at : Option ℕ

abbrev pub view : String → Registry → View
view q r = record {
  entry = lookup q r.map;
  cleared_at = lookup q r.self_cleared;
  level = lookup q r.acked;
  reasserts = has q r.reasserting;
  echo_at = lookup q r.ack_clear_echo_at;
}

-- Whether less than `window` has passed since `at`.
abbrev pub within : ℕ → ℕ → Option ℕ → Bool
within now window none = false
within now window (some at) = ltb (now - at) window

-- An alerting state at most as severe as the acknowledgement leaves it in place.
abbrev pub hold : NotState → Option NotState → Option NotState
hold s none = none
hold s (some level) = if ltb (rank level) (rank s) then none else some level

-- A repeat leaves the stored entry, sound flag included.
abbrev pub renew : Notification → Option Notification → Option Notification
renew n old = if is_repeat n old then old else some n

abbrev pub delivered_clear : ℕ → Option Notification → View → View
delivered_clear now entry v =
    let echo = within now self_clear_window_us v.cleared_at in
    record v { entry = entry; cleared_at = none; level = if echo then v.level else none }

-- One path's answer to a delta.
abbrev pub deliver : ℕ → Option Notification → View → View
deliver now none v = delivered_clear now none v
deliver now (some n) v =
    if is_cleared n.state
    then record (delivered_clear now (renew n v.entry) v) {
      echo_at = if within now self_clear_window_us v.cleared_at then some now else v.echo_at;
    }
    else record {
      entry = renew n v.entry;
      cleared_at = none;
      level = hold n.state v.level;
      reasserts = within now reassert_window_us v.echo_at || v.reasserts;
      echo_at = none;
    }

module _ (now : ℕ) (q : String) (r : Registry) where
  view-remove :
      (path : String)
      → view q (remove now path r).0 ≡ (if path =s q then deliver now none (view q r) else view q r)
  unfolding remove
  view-remove path = ground (
    arith,
    str_iff path q,
    lookup-erase path q r.self_cleared,
    lookup-erase path q r.acked,
    lookup-erase path q r.map,
  )

  view-clear :
      (n : Notification)
      → is_cleared n.state ≡ true
      → view q (clear now n r).0
        ≡ (if n.path =s q then deliver now (some n) (view q r) else view q r)
  unfolding clear
  view-clear n h = ground (
    arith,
    str_iff n.path q,
    lookup-erase n.path q r.self_cleared,
    lookup-erase n.path q r.acked,
    lookup-insert n.path q now r.ack_clear_echo_at,
    lookup-insert n.path q n r.map,
  )

  view-raise :
      (n : Notification)
      → is_cleared n.state ≡ false
      → view q (raise now n r).0
        ≡ (if n.path =s q then deliver now (some n) (view q r) else view q r)
  unfolding raise
  view-raise n h = ground (
    arith,
    str_iff n.path q,
    lookup-erase n.path q r.self_cleared,
    lookup-erase n.path q r.acked,
    lookup-erase n.path q r.ack_clear_echo_at,
    lookup-insert n.path q tt r.reasserting,
    lookup-insert n.path q n r.map,
  )

-- One path's answer to acknowledge(): only a stored path takes the level, and only a path that has
-- not proved to re-assert expects an echo.
abbrev pub acknowledged : ℕ → View → View
acknowledged now v = elim v.entry [
  | none ↦ v
  | some n ↦ record v {
    level = some n.state;
    cleared_at = if v.reasserts then v.cleared_at else some now;
  }
]

pub view-acknowledge :
    (now : ℕ) (path q : String) (r : Registry)
    → view q (acknowledge now path r).0
      ≡ (if path =s q then acknowledged now (view q r) else view q r)
unfolding acknowledge
view-acknowledge now path q r = elim (Option-cases (lookup path r.map)) [
  | inl e ↦ ground (arith, str_iff path q)
  | inr (n, e) ↦ ground (
    arith,
    str_iff path q,
    lookup-insert path q now r.self_cleared,
    lookup-insert path q n.state r.acked,
  )
]

pub view-forget :
    (path q : String) (r : Registry)
    → view q (forget_self_clear path r)
      ≡ (if path =s q then record (view q r) { cleared_at = none } else view q r)
unfolding forget_self_clear
view-forget path q r = ground (arith, lookup-erase path q r.self_cleared)

-- apply() drops both flags before anything else.
abbrev pub quiet : Registry → Registry
quiet r = record r { last_change_was_escalation = false; last_escalation_wants_sound = false }

pub view-apply_decoded :
    (now : ℕ) (path q : String) (delta : Option Notification) (r : Registry)
    → ((n : Notification) → delta ≡ some n → n.path ≡ path)
    → view q (apply_decoded now path delta r).0
      ≡ (if path =s q then deliver now delta (view q r) else view q r)
unfolding apply_decoded
view-apply_decoded now path q none r h = view-remove now q _ path
view-apply_decoded now path q (some n) r h = elim (Bool-cases (is_cleared n.state)) [
  | inl e ↦ ground (arith, h n refl, view-clear now q (quiet r) n e)
  | inr e ↦ ground (arith, h n refl, view-raise now q (quiet r) n e)
]

module _ (J : JsonLib) where
  open J use {Json}

  pub decode-path :
      (path : String) (value : Json) (n : Notification)
      → decode J path value ≡ some n
      → n.path ≡ path
  unfolding decode
  decode-path path value n h = ground arith

  -- A delta changes what the registry keeps for its own path by `deliver`, and leaves every other
  -- path as it was.
  pub view-apply :
      (now : ℕ) (path q : String) (value : Json) (r : Registry)
      → view q (apply J now path value r).0
        ≡ (if path =s q then deliver now (decode J path value) (view q r) else view q r)
  unfolding apply
  view-apply now path q value r =
      view-apply_decoded now path q (decode J path value) r (decode-path path value)
