-- ===== src/Alert/Current.antt =====
-- The overlay of main/jlp/alert_overlay.cpp against the registry it watches: what is on the screen
-- is what most_severe() answers, after every change.
use espos_p4_cockpit.Prelude.{
  ℕ, ◌≡◌, refl, sym, subst, ◌⊎◌, inl, inr, String, true, false, List, Option, none, some, arith,
  ltb, leb, if◌then◌else◌, ◌=s◌, Bool-cases, Option-cases,
}
use espos_p4_cockpit.Prelude.Dict.{Dict, lookup}
use espos_p4_cockpit.Notifications.{
  rank, Notification, Slot, Registry, is_cleared, most_severe, not_state_name, apply_decoded,
  acknowledge,
}
use espos_p4_cockpit.Notifications.Views.{view}
use espos_p4_cockpit.Notifications.Invariant.{Sound}
use espos_p4_cockpit.Notifications.Quiet.{
  IsNamed, Stores, remove-Stores, clear-Stores, raise-Stores,
}
use espos_p4_cockpit.Alert.{
  AlertOverlay, dismiss, present, rebuild, changed, is_called, observe, color_for_not_state,
}
use espos_p4_cockpit.Alert.Tells.{IsUnique, insert-IsUnique, erase-IsUnique, scan-HideAlike, Tells}

-- What the operator is to see: the most severe alarm, where the layout enables the overlay and the
-- alarm reaches the layout's threshold.
abbrev pub wanted : Registry → AlertOverlay → Option Notification
wanted r o =
    if o.enabled
    then elim (most_severe r) [
      | none ↦ none
      | some n ↦ if leb (rank o.min_state) (rank n.state) then some n else none
    ]
    else none

abbrev pub IsShown : AlertOverlay → Option Notification → Type 0
IsShown o none = (o.hidden ≡ true) × (o.current_path ≡ "")
IsShown o (some n) =
    (o.hidden ≡ false)
    × (o.current_path ≡ n.path)
    × (o.path_label ≡ n.path)
    × (o.state_label ≡ not_state_name n.state)
    × (o.state_color ≡ color_for_not_state n.state)
    × (o.msg_label ≡ (if n.message =s "" then "(no message)" else n.message))

-- Made, and showing what is wanted.
abbrev pub Fits : Registry → AlertOverlay → Type 0
Fits r o = IsShown o (wanted r o) × (o.root ≡ true)

-- The registry is sound, the overlay observes it, and it shows what is wanted.
pub record IsCurrent (cb : ℕ) (r : Registry) (o : AlertOverlay) : Type 0 where
  pub sound : (q : String) → Sound q (view q r)
  pub unique : IsUnique r.map
  pub named : IsNamed r.map
  pub observed : is_called cb r.observers ≡ true
  pub made : o.root ≡ true
  pub shown : IsShown o (wanted r o)

IsShown-dismiss :
    (r : Registry) (o : AlertOverlay)
    → wanted r o ≡ none
    → IsShown (dismiss o) (wanted r (dismiss o))
IsShown-dismiss r o e = rw e (refl, refl)

IsShown-present :
    (tick : ℕ) (n : Notification) (r : Registry) (o : AlertOverlay)
    → wanted r o ≡ some n
    → IsShown (present tick n o) (wanted r (present tick n o))
IsShown-present tick n r o e = rw e (refl, refl, refl, refl, refl, refl)

-- What rebuild() leaves is what is wanted.
pub rebuild_cases :
    (tick : ℕ) (r : Registry) (o : AlertOverlay)
    → o.root ≡ true
    → ((rebuild tick r o ≡ dismiss o) × (wanted r o ≡ none))
      ⊎ ((n : Notification) × (rebuild tick r o ≡ present tick n o) × (wanted r o ≡ some n))
unfolding rebuild
rebuild_cases tick r o e = elim (Bool-cases o.enabled) [
  | inr d ↦ inl (ground arith)
  | inl d ↦ elim (Option-cases (most_severe r)) [
    | inl m ↦ inl (ground arith)
    | inr (n, m) ↦ elim (Bool-cases (ltb (rank n.state) (rank o.min_state))) [
      | inl below ↦ inl (ground arith)
      | inr above ↦ inr (n, ground arith, ground arith)
    ]
  ]
]

pub rebuild-IsShown :
    (tick : ℕ) (r : Registry) (o : AlertOverlay) → o.root ≡ true → Fits r (rebuild tick r o)
rebuild-IsShown tick r o e = elim (rebuild_cases tick r o e) [
  | inl (done, none_wanted) ↦ subst (Fits r) (sym done) (IsShown-dismiss r o none_wanted, e)
  | inr (n, done, n_wanted) ↦ subst (Fits r) (sym done) (IsShown-present tick n r o n_wanted, e)
]

pub observe_called :
    (cb tick : ℕ) (fired : List Slot) (s : Registry) (o : AlertOverlay)
    → is_called cb fired ≡ true
    → (observe cb tick fired s o).0 ≡ rebuild tick s o
unfolding observe changed
observe_called cb tick fired s o e = rw e refl

observe_missed :
    (cb tick : ℕ) (fired : List Slot) (s : Registry) (o : AlertOverlay)
    → is_called cb fired ≡ false
    → (observe cb tick fired s o).0 ≡ o
unfolding observe changed
observe_missed cb tick fired s o e = rw e refl

-- The registry part of IsCurrent, and that the observers were called where it matters.
pub observe-IsShown :
    (cb tick : ℕ) (fired : List Slot) (r s : Registry) (o : AlertOverlay)
    → o.root ≡ true
    → is_called cb s.observers ≡ true
    → IsShown o (wanted r o)
    → (fired ≡ s.observers) ⊎ (most_severe s ≡ most_severe r)
    → Fits s (observe cb tick fired s o).0
observe-IsShown cb tick fired r s o made called shown told =
    elim (Bool-cases (is_called cb fired)) [
      | inl c ↦
          subst (Fits s) (sym (observe_called cb tick fired s o c)) (rebuild-IsShown tick s o made)
      | inr c ↦
          subst (Fits s) (sym (observe_missed cb tick fired s o c))
            (elim told [ inl e ↦ absurd (cc) | inr e ↦ (rw e shown, made) ])
    ]

pub acknowledge-Tells :
    (now : ℕ) (path : String) (r : Registry)
    → ((acknowledge now path r).0.observers ≡ r.observers)
      × (((acknowledge now path r).1 ≡ (acknowledge now path r).0.observers)
          ⊎ (most_severe (acknowledge now path r).0 ≡ most_severe r))
unfolding acknowledge most_severe
acknowledge-Tells now path r = elim (Option-cases (lookup path r.map)) [
  | inl e ↦ rw (acknowledge, e) (refl, inr refl)
  | inr (n, e) ↦ rw (acknowledge, e) (refl, inl refl)
]

pub Tells-most_severe :
    (r s : Registry) (fired : List Slot)
    → IsUnique r.map
    → Tells r (s, fired)
    → (fired ≡ s.observers) ⊎ (most_severe s ≡ most_severe r)
unfolding most_severe
Tells-most_severe r s fired u (e, inl f) = inl f
Tells-most_severe r s fired u (e, inr (same, alike)) =
    inr (rw same (scan-HideAlike s.acked r.acked r.map none u alike))

Stores-IsUnique :
    (before after : Dict Notification) (path : String) (delta : Option Notification)
    → Stores before after path delta
    → IsUnique before
    → IsUnique after
Stores-IsUnique before after path none (inl e) h = rw e h
Stores-IsUnique before after path none (inr e) h = rw e (erase-IsUnique path before h)
Stores-IsUnique before after path (some n) (inl e) h = rw e h
Stores-IsUnique before after path (some n) (inr e) h = rw e (insert-IsUnique n.path n before h)

pub apply_decoded-IsUnique :
    (now : ℕ) (path : String) (delta : Option Notification) (r : Registry)
    → IsUnique r.map
    → IsUnique (apply_decoded now path delta r).0.map
unfolding apply_decoded
apply_decoded-IsUnique now path none r = Stores-IsUnique _ _ path none (remove-Stores now path _)
apply_decoded-IsUnique now path (some n) r = elim (Bool-cases (is_cleared n.state)) [
  | inl e ↦ rw e (Stores-IsUnique _ _ n.path (some n) (clear-Stores now n _))
  | inr e ↦ rw e (Stores-IsUnique _ _ n.path (some n) (raise-Stores now n _))
]

pub acknowledge-map :
    (now : ℕ) (path : String) (r : Registry) → (acknowledge now path r).0.map ≡ r.map
unfolding acknowledge
acknowledge-map now path r = ground arith
