-- ===== src/Alert/Tells.antt =====
-- What a delta to main/jlp/notifications_registry.cpp tells its observers: either every observer is
-- called, or nothing that the overlay of main/jlp/alert_overlay.cpp may show has changed.
use espos_p4_cockpit.Prelude.{
  ℕ, ◌≤◌, ◌≡◌, refl, ◌⊎◌, inl, inr, String, true, false, ◌||◌, List, [], ◌∷◌, Option, none, some,
  arith, if◌then◌else◌, ◌=s◌, str_iff, str_refl, Bool-cases, Option-cases,
}
use espos_p4_cockpit.Prelude.Dict.{Dict, lookup, insert, erase, has, lookup-insert, lookup-erase}
use espos_p4_cockpit.Notifications.{
  NotState, rank, Notification, Slot, Registry, is_cleared, is_above, scan, take_self_clear,
  is_repeat, settle_echo, rearm, remove, clear, raise, apply_decoded,
}
use espos_p4_cockpit.Notifications.Views.{view}
use espos_p4_cockpit.Notifications.Invariant.{Sound}

-- No path has two entries.
abbrev pub IsUnique : Dict Notification → Type 0
IsUnique [] = Unit
IsUnique ((k, n) ∷ m) = (lookup k m ≡ none) × IsUnique m

pub insert-IsUnique :
    (k : String) (n : Notification) (m : Dict Notification) → IsUnique m → IsUnique (insert k n m)
unfolding insert lookup
insert-IsUnique k n [] h = (refl, tt)
insert-IsUnique k n ((j, w) ∷ m) h = elim (Bool-cases (j =s k)) [
  | inl e ↦ rw e (ground (arith, str_iff j k, h.0), h.1)
  | inr e ↦ rw e (
    ground (arith, str_iff j k, str_iff k j, h.0, lookup-insert k j n m),
    insert-IsUnique k n m h.1,
  )
]

pub erase-IsUnique : (k : String) (m : Dict Notification) → IsUnique m → IsUnique (erase k m)
unfolding erase lookup
erase-IsUnique k [] h = tt
erase-IsUnique k ((j, w) ∷ m) h = elim (Bool-cases (j =s k)) [
  | inl e ↦ rw e (erase-IsUnique k m h.1)
  | inr e ↦ rw e (ground (arith, h.0, lookup-erase k j m), erase-IsUnique k m h.1)
]

-- Two sets of acknowledgements that hide the same alerting entries.
abbrev pub HideAlike : Dict NotState → Dict NotState → Dict Notification → Type 0
HideAlike a b m =
    (k : String) (n : Notification)
    → lookup k m ≡ some n
    → (has k a || is_cleared n.state) ≡ (has k b || is_cleared n.state)

HideAlike-tail :
    (a b : Dict NotState) (k : String) (n : Notification) (m : Dict Notification)
    → lookup k m ≡ none
    → HideAlike a b ((k, n) ∷ m)
    → HideAlike a b m
unfolding lookup
HideAlike-tail a b k n m u h j p e = ground (arith, str_iff k j, h j p)

pub scan-HideAlike :
    (a b : Dict NotState) (m : Dict Notification) (best : Option Notification)
    → IsUnique m
    → HideAlike a b m
    → scan a best m ≡ scan b best m
unfolding scan lookup
scan-HideAlike a b [] best u h = refl
scan-HideAlike a b ((k, n) ∷ m) best u h =
    let same : (has k a || is_cleared n.state) ≡ (has k b || is_cleared n.state) =
      h k n (ground (arith, str_refl k)) in
    let next =
      if has k b || is_cleared n.state then best else if is_above n best then some n else best in
    rw same (scan-HideAlike a b m next u.1 (HideAlike-tail a b k n m u.0 h))

-- What a delta does: it calls every observer, or what the overlay may show stays as it was.
abbrev pub Tells : Registry → Registry × List Slot → Type 0
Tells r (s, fired) =
    (s.observers ≡ r.observers)
    × ((fired ≡ s.observers) ⊎ ((s.map ≡ r.map) × HideAlike s.acked r.acked r.map))

pub remove-Tells : (now : ℕ) (path : String) (r : Registry) → Tells r (remove now path r)
unfolding remove take_self_clear
remove-Tells now path r = elim (Bool-cases (has path r.map)) [
  | inl e ↦ ground arith
  | inr e ↦ (
    ground arith,
    inr (ground arith, λ k n q. ground (arith, str_iff path k, lookup-erase path k r.acked)),
  )
]

pub clear-Tells :
    (now : ℕ) (n : Notification) (r : Registry)
    → is_cleared n.state ≡ true
    → Tells r (clear now n r)
unfolding clear take_self_clear
clear-Tells now n r c = elim (Option-cases (lookup n.path r.map)) [
  | inl e ↦ ground arith
  | inr (old, e) ↦ elim (Bool-cases (is_repeat n (some old))) [
    | inl q ↦ (
      ground arith,
      inr (ground arith, λ k m w. ground (arith, str_iff n.path k, lookup-erase n.path k r.acked)),
    )
    | inr q ↦ ground arith
  ]
]

-- A repeat of an entry that its acknowledgement covers leaves the acknowledgements alone.
rearm_repeat :
    (now : ℕ) (n old : Notification) (r : Registry)
    → is_repeat n (some old) ≡ true
    → ((level : NotState) → lookup n.path r.acked ≡ some level → rank old.state ≤ rank level)
    → (rearm n (settle_echo now n r)).acked ≡ r.acked
unfolding rearm settle_echo
rearm_repeat now n old r q h = elim (Option-cases (lookup n.path r.acked)) [
  | inl e ↦ ground arith
  | inr (level, e) ↦ let above : rank old.state ≤ rank level = h level e in ground arith
]

pub rearm-settle_echo-kept :
    (now : ℕ) (n : Notification) (r : Registry)
    → ((rearm n (settle_echo now n r)).map ≡ r.map)
      × ((rearm n (settle_echo now n r)).observers ≡ r.observers)
unfolding rearm settle_echo
rearm-settle_echo-kept now n r = ground arith

abbrev pub dropped : Notification → Registry → Registry
dropped n r = record r { self_cleared = erase n.path r.self_cleared }

raise_repeat :
    (now : ℕ) (n : Notification) (r : Registry)
    → is_repeat n (lookup n.path r.map) ≡ true
    → (raise now n r).0 ≡ rearm n (settle_echo now n (dropped n r))
unfolding raise
raise_repeat now n r q = rw ((rearm-settle_echo-kept now n (dropped n r)).0, q) refl

raise_fires :
    (now : ℕ) (n : Notification) (r : Registry)
    → is_repeat n (lookup n.path r.map) ≡ false
    → (raise now n r).1 ≡ (raise now n r).0.observers
unfolding raise
raise_fires now n r q = rw ((rearm-settle_echo-kept now n (dropped n r)).0, q) refl

raise-observers :
    (now : ℕ) (n : Notification) (r : Registry) → (raise now n r).0.observers ≡ r.observers
unfolding raise
raise-observers now n r = ground (arith, rearm-settle_echo-kept now n (dropped n r))

pub raise-Tells :
    (now : ℕ) (n : Notification) (r : Registry)
    → ((old : Notification) (level : NotState)
        → lookup n.path r.map ≡ some old
        → lookup n.path r.acked ≡ some level
        → is_cleared old.state ≡ false
        → rank old.state ≤ rank level)
    → is_cleared n.state ≡ false
    → Tells r (raise now n r)
raise-Tells now n r h c = elim (Option-cases (lookup n.path r.map)) [
  | inl e ↦ (raise-observers now n r, inl (raise_fires now n r (rw e refl)))
  | inr (old, e) ↦ elim (Bool-cases (is_repeat n (some old))) [
    | inl q ↦
        let alerting : is_cleared old.state ≡ false = ground arith in
        let kept : (rearm n (settle_echo now n (dropped n r))).acked ≡ r.acked =
          rearm_repeat now n old (dropped n r) q (λ level a. h old level e a alerting) in
        let held : (raise now n r).0 ≡ rearm n (settle_echo now n (dropped n r)) =
          raise_repeat now n r (rw e q) in
        (
          raise-observers now n r,
          inr (
            rw held ((rearm-settle_echo-kept now n (dropped n r)).0),
            λ k m w. rw (held, kept) refl,
          ),
        )
    | inr q ↦ (raise-observers now n r, inl (raise_fires now n r (rw e q)))
  ]
]

-- A delta calls every observer, or leaves what most_severe() answers as it was.
pub apply_decoded-Tells :
    (now : ℕ) (path : String) (delta : Option Notification) (r : Registry)
    → ((q : String) → Sound q (view q r))
    → Tells r (apply_decoded now path delta r)
unfolding apply_decoded
apply_decoded-Tells now path none r s = remove-Tells now path _
apply_decoded-Tells now path (some n) r s = elim (Bool-cases (is_cleared n.state)) [
  | inl e ↦ rw e (clear-Tells now n _ e)
  | inr e ↦ rw e (raise-Tells now n _ (λ old level a b c. (s n.path).covered old level a b c) e)
]
