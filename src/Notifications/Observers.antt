-- ===== src/Notifications/Observers.antt =====
-- Observer tokens of main/jlp/notifications_registry.h, and the names of the notification states.
use espos_p4_cockpit.Prelude.{
  ℕ, ◌+◌, ◌^◌, ◌<◌, ◌≡◌, refl, List, [], ◌∷◌, ◌++◌, some, arith, All, ◌=s◌,
}
use espos_p4_cockpit.Notifications.{
  NotState, nominal, normal, alert, warn, alarm, emergency, Registry, Slot, on_change, off_change,
  remove_slot, parse_not_state, not_state_name,
}

-- Every token in use is older than the next one.
abbrev pub IsFresh : ℕ → List Slot → Type 0
IsFresh next = All (λ s. s.token < next)

remove_slot-append :
    (next cb : ℕ) (ss : List Slot)
    → IsFresh next ss
    → remove_slot next (ss ++ (record { token = next; cb = cb }) ∷ []) ≡ ss
unfolding remove_slot
remove_slot-append next cb [] h = ground arith
remove_slot-append next cb (s ∷ ss) h = ground (arith, remove_slot-append next cb ss h.1)

IsFresh-append :
    (next cb : ℕ) (ss : List Slot)
    → IsFresh next ss
    → IsFresh (next + 1) (ss ++ (record { token = next; cb = cb }) ∷ [])
IsFresh-append next cb [] h = (omega arith, tt)
IsFresh-append next cb (s ∷ ss) h = (omega arith, IsFresh-append next cb ss h.1)

-- As long as the 32-bit counter has not wrapped, a new observer gets a token that no other observer
-- holds, off_change() with that token removes this observer and no other, and tokens stay distinct.
off_change-on_change :
    (cb : ℕ) (r : Registry)
    → IsFresh r.next_token r.observers
    → r.next_token + 1 < 2 ^ 32
    → ((off_change (on_change cb r).1 (on_change cb r).0).observers ≡ r.observers)
      × IsFresh (on_change cb r).0.next_token (on_change cb r).0.observers
unfolding on_change off_change
off_change-on_change cb r h bound =
    let e : (r.next_token + 1) ≡ (on_change cb r).0.next_token = omega arith in
    (
      remove_slot-append r.next_token cb r.observers h,
      rw (← e) (IsFresh-append r.next_token cb r.observers h),
    )

-- Every state is read back from the name that the panel prints for it.
pub parse-not_state_name : (s : NotState) → parse_not_state (some (not_state_name s)) ≡ s
unfolding parse_not_state not_state_name ◌=s◌
parse-not_state_name nominal = refl
parse-not_state_name normal = refl
parse-not_state_name alert = refl
parse-not_state_name warn = refl
parse-not_state_name alarm = refl
parse-not_state_name emergency = refl
