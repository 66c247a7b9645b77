-- ===== src/Alert/Tap.antt =====
-- The ACK button of main/jlp/alert_overlay.cpp: what a tap does and when it is ignored.
use espos_p4_cockpit.Prelude.{
  ℕ, ◌≤◌, ◌<◌, ◌≡◌, ◌≢◌, refl, sym, subst, ◌⊎◌, inl, inr, String, Bool, true, false, ◌||◌, [], ◌∷◌,
  Option, none, some, arith, ltb, ◌=s◌, str_iff, Bool-cases, Option-cases,
}
use espos_p4_cockpit.Prelude.Dict.{Dict, lookup, insert, lookup-insert_self}
use espos_p4_cockpit.Notifications.{
  NotState, Notification, Registry, most_severe, acknowledge, is_acknowledged,
}
use espos_p4_cockpit.Notifications.Quiet.{IsNamed, acknowledge-IsNamed, IsMostSevere-unacknowledged}
use espos_p4_cockpit.Notifications.Severity.{HasPending, IsMostSevere, most_severe-IsMostSevere}
use espos_p4_cockpit.Alert.{
  AlertOverlay, present, rebuild, changed, chimes, is_called, observe, tap,
}
use espos_p4_cockpit.Alert.Tells.{IsUnique}
use espos_p4_cockpit.Alert.Current.{IsCurrent, IsShown, wanted, rebuild_cases, observe_called}

-- A tap within half a second of the moment at which the overlay came up, or moved on to another
-- path, changes nothing.
tap-rebuild_early :
    (cb now tick later : ℕ) (elaps : ℕ → ℕ) (sent : Bool) (r : Registry) (o : AlertOverlay)
    → o.root ≡ true
    → (o.hidden ≡ true) ⊎ (o.current_path ≢ (rebuild tick r o).current_path)
    → elaps tick < 500
    → tap cb now later elaps sent r (rebuild tick r o) ≡ (r, rebuild tick r o, none)
unfolding tap ◌=s◌
tap-rebuild_early cb now tick later elaps sent r o made fresh early =
    elim (rebuild_cases tick r o made) [
      | inl (done, w) ↦ rw done refl
      | inr (n, done, w) ↦
          let armed : (present tick n o).shown_at ≡ tick = elim fresh [
            | inl h ↦ ground arith
            | inr d ↦
                let other : (o.current_path =s n.path) ≡ false =
                  elim (Bool-cases (o.current_path =s n.path)) [
                    | inl e ↦ absurd (d (rw done ((str_iff o.current_path n.path).0 e)))
                    | inr e ↦ e
                  ] in
                ground arith
          ] in
          let soon : ltb (elaps (present tick n o).shown_at) 500 ≡ true = rw armed (ground arith) in
          rw (done, soon) (ground arith)
    ]

-- What acknowledge() does for a stored path.
acknowledge_stored :
    (now : ℕ) (path : String) (n : Notification) (r : Registry)
    → lookup path r.map ≡ some n
    → ((acknowledge now path r).0.acked ≡ insert path n.state r.acked)
      × ((acknowledge now path r).0.last_changed_path ≡ path)
      × ((acknowledge now path r).1 ≡ r.observers)
unfolding acknowledge
acknowledge_stored now path n r e = ground arith

acknowledge_missing :
    (now : ℕ) (path : String) (r : Registry)
    → lookup path r.map ≡ none
    → (acknowledge now path r).1 ≡ []
unfolding acknowledge
acknowledge_missing now path r e = ground arith

acknowledge-acked :
    (now : ℕ) (path : String) (n : Notification) (r : Registry)
    → lookup path r.map ≡ some n
    → is_acknowledged path (acknowledge now path r).0 ≡ true
acknowledge-acked now path n r e =
    let stored = acknowledge_stored now path n r e in
    rw stored.0 (rw (lookup-insert_self path n.state r.acked) refl)

chimes_acknowledged :
    (s : Registry) (o : AlertOverlay)
    → is_acknowledged s.last_changed_path s ≡ true
    → chimes s o ≡ none
unfolding chimes
chimes_acknowledged s o e = ground arith

observe-acknowledge_silent :
    (cb now tick : ℕ) (path : String) (r : Registry) (o : AlertOverlay)
    → (observe cb tick (acknowledge now path r).1 (acknowledge now path r).0 o).1 ≡ none
unfolding observe changed is_called
observe-acknowledge_silent cb now tick path r o = elim (Option-cases (lookup path r.map)) [
  | inl e ↦ rw (acknowledge_missing now path r e) refl
  | inr (n, e) ↦
      let acked : is_acknowledged (acknowledge now path r).0.last_changed_path
            (acknowledge now path r).0
          ≡ true =
        rw ((acknowledge_stored now path n r e).1) (acknowledge-acked now path n r e) in
      let silent = chimes_acknowledged (acknowledge now path r).0 o acked in ground (arith, silent)
]

-- A tap on ACK never sounds the chime, whatever the last change of the registry was.
tap-silent :
    (cb now tick : ℕ) (elaps : ℕ → ℕ) (sent : Bool) (r : Registry) (o : AlertOverlay)
    → (tap cb now tick elaps sent r o).2 ≡ none
unfolding tap
tap-silent cb now tick elaps sent r o =
    elim (Bool-cases ((o.current_path =s "") || ltb (elaps o.shown_at) 500)) [
      | inl e ↦ rw e refl
      | inr e ↦ rw e (observe-acknowledge_silent cb now tick o.current_path r o)
    ]

HasPending-lookup :
    (acked : Dict NotState) (b : Notification) (m : Dict Notification)
    → IsNamed m
    → IsUnique m
    → HasPending acked b m
    → lookup b.path m ≡ some b
unfolding lookup
HasPending-lookup acked b [] named unique p = absurd p
HasPending-lookup acked b ((k, n) ∷ m) named unique (inl (e, pending)) =
    ground (arith, named.0, str_iff k b.path)
HasPending-lookup acked b ((k, n) ∷ m) named unique (inr p) =
    ground (arith, unique.0, str_iff k b.path, HasPending-lookup acked b m named.1 unique.1 p)

wanted-most_severe :
    (r : Registry) (o : AlertOverlay) (n : Notification)
    → wanted r o ≡ some n
    → most_severe r ≡ some n
wanted-most_severe r o n e = ground arith

IsMostSevere-lookup :
    (r : Registry) (res : Option Notification) (b : Notification)
    → IsNamed r.map
    → IsUnique r.map
    → IsMostSevere r res
    → res ≡ some b
    → lookup b.path r.map ≡ some b
IsMostSevere-lookup r none b named unique s e = absurd (cc)
IsMostSevere-lookup r (some c) b named unique s e =
    let same : c ≡ b = ground arith in
    rw (← same) (HasPending-lookup r.acked c r.map named unique s.0)

shown-lookup :
    (cb : ℕ) (r : Registry) (o : AlertOverlay) (w : Option Notification)
    → IsCurrent cb r o
    → wanted r o ≡ w
    → IsShown o w
    → o.current_path ≢ ""
    → (n : Notification) × (lookup o.current_path r.map ≡ some n)
shown-lookup cb r o none c e (h, blank) tapped = absurd (tapped blank)
shown-lookup cb r o (some n) c e shown tapped = (
  n,
  rw shown.1 (
      IsMostSevere-lookup r (most_severe r) n c.named c.unique (most_severe-IsMostSevere r)
        (wanted-most_severe r o n e)),
)

-- The overlay is hidden and shows no path, or it is on the screen and shows another path.
pub data HasMovedOn (path : String) (k : AlertOverlay) : Type 0 where
  hides : k.hidden ≡ true → k.current_path ≡ "" → HasMovedOn path k
  moves : k.hidden ≡ false → k.path_label ≡ k.current_path → k.path_label ≢ path → HasMovedOn path k

-- After a rebuild the overlay does not show an acknowledged path.
rebuild-HasMovedOn :
    (tick : ℕ) (path : String) (s : Registry) (o : AlertOverlay)
    → o.root ≡ true
    → IsNamed s.map
    → is_acknowledged path s ≡ true
    → HasMovedOn path (rebuild tick s o)
rebuild-HasMovedOn tick path s o made named acked = elim (rebuild_cases tick s o made) [
  | inl (done, w) ↦ subst (HasMovedOn path) (sym done) (hides refl refl)
  | inr (n, done, w) ↦
      let quiet =
        IsMostSevere-unacknowledged s (most_severe s) n named (most_severe-IsMostSevere s)
          (wanted-most_severe s o n w) in
      subst (HasMovedOn path) (sym done) (
        moves refl refl (λ shown.
          let hidden : is_acknowledged path s ≡ false = rw (← shown) quiet.0 in absurd (cc)))
]

-- A tap that is not ignored takes the tapped path off the screen: the overlay is then hidden, or it
-- stays on the screen and its label names another path.
pub tap-dismisses :
    (cb now tick : ℕ) (elaps : ℕ → ℕ) (sent : Bool) (r : Registry) (o : AlertOverlay)
    → IsCurrent cb r o
    → o.current_path ≢ ""
    → 500 ≤ elaps o.shown_at
    → HasMovedOn o.current_path (tap cb now tick elaps sent r o).1
unfolding tap
tap-dismisses cb now tick elaps sent r o c tapped late =
    let path = o.current_path in
    let s = (acknowledge now path r).0 in
    let (n, stored) = shown-lookup cb r o (wanted r o) c refl c.shown tapped in
    let called : is_called cb (acknowledge now path r).1 ≡ true =
      rw ((acknowledge_stored now path n r stored).2) c.observed in
    let heard : ((o.current_path =s "") || ltb (elaps o.shown_at) 500) ≡ false =
      ground (arith, str_iff o.current_path "", tapped) in
    let shown : (tap cb now tick elaps sent r o).1 ≡ rebuild tick s o =
      rw heard (observe_called cb tick (acknowledge now path r).1 s o called) in
    subst (HasMovedOn path) (sym shown) (
      rebuild-HasMovedOn tick path s o c.made (acknowledge-IsNamed now path r c.named)
        (acknowledge-acked now path n r stored))
