-- ===== src/Notifications/Escalation.antt =====
-- What the observers of main/jlp/notifications_registry.cpp are told about a delta: whether they are
-- called at all, and whether the change is an escalation that asks for sound.
use espos_p4_cockpit.Prelude.{
  ℕ, ◌≡◌, refl, sym, subst, String, Bool, true, false, not, ◌&&◌, List, [], inl, inr, Option, none,
  some, arith, ltb, if◌then◌else◌, Bool-cases, is_some,
}
use espos_p4_cockpit.Prelude.Dict.{lookup}
use espos_p4_cockpit.Json.{JsonLib}
use espos_p4_cockpit.Notifications.{
  Notification, Registry, Slot, rank, is_cleared, is_repeat, stored_state, decode, apply,
  apply_decoded, remove, clear, raise,
}
use espos_p4_cockpit.Notifications.Views.{quiet, decode-path}

-- A delta escalates a path when it is alerting and above what is stored, an unknown path being normal.
abbrev pub escalates : Option Notification → Option Notification → Bool
escalates old none = false
escalates old (some n) = not (is_cleared n.state) && ltb (rank (stored_state old)) (rank n.state)

abbrev pub asks : Option Notification → Bool
asks none = false
asks (some n) = n.wants_sound

-- A delta changes what is stored when it removes an entry, or differs from it in state or message.
abbrev pub changes : Option Notification → Option Notification → Bool
changes old none = is_some old
changes old (some n) = not (is_repeat n old)

abbrev pub Told :
    Registry → Option Notification → Option Notification → Registry × List Slot → Type 0
Told r old delta after =
    (after.0.last_change_was_escalation ≡ escalates old delta)
    × (after.0.last_escalation_wants_sound ≡ (escalates old delta && asks delta))
    × (after.1 ≡ (if changes old delta then r.observers else []))

remove-Told :
    (now : ℕ) (path : String) (r : Registry)
    → r.last_change_was_escalation ≡ false
    → r.last_escalation_wants_sound ≡ false
    → Told r (lookup path r.map) none (remove now path r)
unfolding remove
remove-Told now path r h k = (ground arith, ground arith, ground arith)

clear-Told :
    (now : ℕ) (n : Notification) (r : Registry)
    → is_cleared n.state ≡ true
    → r.last_change_was_escalation ≡ false
    → r.last_escalation_wants_sound ≡ false
    → Told r (lookup n.path r.map) (some n) (clear now n r)
unfolding clear
clear-Told now n r c h k = (ground arith, ground arith, ground arith)

raise-Told :
    (now : ℕ) (n : Notification) (r : Registry)
    → is_cleared n.state ≡ false
    → r.last_change_was_escalation ≡ false
    → r.last_escalation_wants_sound ≡ false
    → Told r (lookup n.path r.map) (some n) (raise now n r)
unfolding raise
raise-Told now n r c h k = (ground arith, ground arith, ground arith)

apply_decoded-Told :
    (now : ℕ) (path : String) (delta : Option Notification) (r : Registry)
    → ((n : Notification) → delta ≡ some n → n.path ≡ path)
    → Told r (lookup path r.map) delta (apply_decoded now path delta r)
unfolding apply_decoded
apply_decoded-Told now path none r h = remove-Told now path _ refl refl
apply_decoded-Told now path (some n) r h = elim (Bool-cases (is_cleared n.state)) [
  | inl e ↦
      subst
        (λ (b : Bool).
          Told r (lookup path r.map) (some n)
            (if b then clear now n (quiet r) else raise now n (quiet r)))
        (sym e)
        (subst (λ q. Told r (lookup q r.map) (some n) (clear now n (quiet r))) (h n refl)
          (clear-Told now n (quiet r) e refl refl))
  | inr e ↦
      subst
        (λ (b : Bool).
          Told r (lookup path r.map) (some n)
            (if b then clear now n (quiet r) else raise now n (quiet r)))
        (sym e)
        (subst (λ q. Told r (lookup q r.map) (some n) (raise now n (quiet r))) (h n refl)
          (raise-Told now n (quiet r) e refl refl))
]

-- After a delta the escalation flag is set exactly when the delta is alerting and above the stored
-- state of its path, the sound flag exactly when such a delta asks for sound, and all observers are
-- called, in order and once, exactly when the delta changes what is stored for its path.
apply-Told :
    (J : JsonLib) (now : ℕ) (path : String) (value : J.Json) (r : Registry)
    → Told r (lookup path r.map) (decode J path value) (apply J now path value r)
unfolding apply
apply-Told J now path value r =
    apply_decoded-Told now path (decode J path value) r (decode-path J path value)
