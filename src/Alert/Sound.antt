-- ===== src/Alert/Sound.antt =====
-- The chime of main/jlp/alert_overlay.cpp: which deltas sound it.
use espos_p4_cockpit.Prelude.{
  ℕ, ◌≤◌, ◌<◌, ◌≡◌, ◌≢◌, refl, ◌∙◌, sym, subst, inl, inr, String, true, false, ◌&&◌, List, [], ◌∷◌,
  Option, none, some, arith, ltb, ◌=s◌, str_iff, Bool-cases, Option-cases,
}
use espos_p4_cockpit.Prelude.Dict.{Dict, lookup, insert, lookup-insert_self}
use espos_p4_cockpit.Notifications.{
  NotState, rank, Notification, Slot, Registry, is_cleared, most_severe, is_acknowledged,
  stored_state, is_repeat, take_self_clear, remove, clear, raise, apply_decoded,
}
use espos_p4_cockpit.Notifications.Severity.{
  is_pending, AtMost, IsMostSevere, most_severe-IsMostSevere,
}
use espos_p4_cockpit.Alert.{AlertOverlay, changed, chimes, is_called, observe}
use espos_p4_cockpit.Alert.Tells.{dropped, rearm-settle_echo-kept}

remove-flag :
    (now : ℕ) (path : String) (r : Registry)
    → (remove now path r).0.last_change_was_escalation ≡ r.last_change_was_escalation
unfolding remove take_self_clear
remove-flag now path r = ground arith

clear-flag :
    (now : ℕ) (n : Notification) (r : Registry)
    → (clear now n r).0.last_change_was_escalation ≡ r.last_change_was_escalation
unfolding clear take_self_clear
clear-flag now n r = ground arith

-- What a raise that calls the observers leaves.
raise_loud :
    (now : ℕ) (n : Notification) (r : Registry)
    → is_repeat n (lookup n.path r.map) ≡ false
    → ((raise now n r).0.map ≡ insert n.path n r.map)
      × ((raise now n r).0.last_changed_path ≡ n.path)
      × ((raise now n r).0.last_change_was_escalation
          ≡ ltb (rank (stored_state (lookup n.path r.map))) (rank n.state))
      × ((raise now n r).0.last_escalation_wants_sound
          ≡ (ltb (rank (stored_state (lookup n.path r.map))) (rank n.state) && n.wants_sound))
unfolding raise
raise_loud now n r q =
    rw ((rearm-settle_echo-kept now n (dropped n r)).0, q) (refl, refl, refl, refl)

raise_still :
    (now : ℕ) (n : Notification) (r : Registry)
    → is_repeat n (lookup n.path r.map) ≡ true
    → (raise now n r).1 ≡ []
unfolding raise
raise_still now n r q = rw ((rearm-settle_echo-kept now n (dropped n r)).0, q) refl

AtMost-lookup :
    (acked : Dict NotState) (top : ℕ) (path : String) (n : Notification) (m : Dict Notification)
    → AtMost acked top m
    → lookup path m ≡ some n
    → is_pending acked path n ≡ true
    → rank n.state ≤ top
unfolding lookup
AtMost-lookup acked top path n [] h e p = absurd (cc)
AtMost-lookup acked top path n ((k, m) ∷ rest) h e p = elim (Bool-cases (k =s path)) [
  | inl q ↦
      let same : m ≡ n = ground arith in
      let here : k ≡ path = (str_iff k path).0 q in rw (← same) (h.0 (rw (here, same) p))
  | inr q ↦ AtMost-lookup acked top path n rest h.1 (ground arith) p
]

IsMostSevere-above :
    (r : Registry) (path : String) (n b : Notification) (res : Option Notification)
    → IsMostSevere r res
    → res ≡ some b
    → lookup path r.map ≡ some n
    → is_pending r.acked path n ≡ true
    → rank n.state ≤ rank b.state
IsMostSevere-above r path n b none s e l p = absurd (cc)
IsMostSevere-above r path n b (some c) s e l p =
    let same : c ≡ b = ground arith in
    rw (← same) (AtMost-lookup r.acked (rank c.state) path n r.map s.1 l p)

-- When the callback chimes.
chimes-some :
    (s : Registry) (o : AlertOverlay) (level : NotState)
    → chimes s o ≡ some level
    → (b : Notification) × (most_severe s ≡ some b)
      × (level ≡ b.state)
      × (rank o.min_state ≤ rank b.state)
      × (s.last_change_was_escalation ≡ true)
      × (s.last_escalation_wants_sound ≡ true)
      × (is_acknowledged s.last_changed_path s ≡ false)
unfolding chimes
chimes-some s o level e = elim (Option-cases (most_severe s)) [
  | inl m ↦ absurd (ground arith)
  | inr (b, m) ↦ (b, m, ground arith, ground arith, ground arith, ground arith, ground arith)
]

observe-chimes :
    (cb tick : ℕ) (fired : List Slot) (s : Registry) (o : AlertOverlay) (level : NotState)
    → (observe cb tick fired s o).1 ≡ some level
    → (is_called cb fired ≡ true) × (chimes s o ≡ some level)
unfolding observe changed
observe-chimes cb tick fired s o level e = ground arith

-- What sounding the chime takes: an alerting notification that asks for sound, is more severe than
-- what its path held, is not acknowledged, and is covered by the severity that sounds.
abbrev pub Deserves : Registry → Registry → AlertOverlay → NotState → Option Notification → Type 0
Deserves r s o level none = ⊥
Deserves r s o level (some n) =
    (n.wants_sound ≡ true)
    × (rank (stored_state (lookup n.path r.map)) < rank n.state)
    × (is_acknowledged n.path s ≡ false)
    × (rank n.state ≤ rank level)
    × (rank o.min_state ≤ rank level)

raise-Deserves :
    (cb now tick : ℕ) (n : Notification) (r : Registry) (o : AlertOverlay) (level : NotState)
    → is_cleared n.state ≡ false
    → (observe cb tick (raise now n r).1 (raise now n r).0 o).1 ≡ some level
    → Deserves r (raise now n r).0 o level (some n)
unfolding is_called
raise-Deserves cb now tick n r o level alerting e =
    let s = (raise now n r).0 in
    let heard = observe-chimes cb tick (raise now n r).1 s o level e in
    let (b, top, same, enough, worse, sound, fresh) = chimes-some s o level heard.1 in
    elim (Bool-cases (is_repeat n (lookup n.path r.map))) [
      | inl q ↦
          let silent = raise_still now n r q in
          let unheard : is_called cb (raise now n r).1 ≡ false = rw silent refl in absurd (cc)
      | inr q ↦
          let loud = raise_loud now n r q in
          let quiet : is_acknowledged n.path s ≡ false =
            subst (λ p. is_acknowledged p s ≡ false) loud.1 fresh in
          let stored : lookup n.path s.map ≡ some n =
            rw loud.0 (lookup-insert_self n.path n r.map) in
          let climbed : ltb (rank (stored_state (lookup n.path r.map))) (rank n.state) ≡ true =
            sym loud.2 ∙ worse in
          let asked : (ltb (rank (stored_state (lookup n.path r.map))) (rank n.state)
                && n.wants_sound)
              ≡ true =
            sym loud.3 ∙ sound in
          let above : rank n.state ≤ rank b.state =
            IsMostSevere-above s n.path n b (most_severe s) (most_severe-IsMostSevere s) top stored
              (ground arith) in
          (ground arith, ground arith, quiet, rw same above, rw same enough)
    ]

quiet_chimes :
    (s : Registry) (o : AlertOverlay) (level : NotState)
    → s.last_change_was_escalation ≡ false
    → chimes s o ≢ some level
unfolding chimes
quiet_chimes s o level e h = ground arith

-- A delta sounds the chime only for a raise whose `method` asks for sound, that is more severe than
-- what its path held, and whose path is not acknowledged after it; the severity that sounds is at
-- least that of the raise, and reaches the overlay's threshold.
pub apply_decoded-chime :
    (cb now tick : ℕ) (path : String) (delta : Option Notification) (r : Registry)
    (o : AlertOverlay) (level : NotState)
    → (observe cb tick (apply_decoded now path delta r).1 (apply_decoded now path delta r).0 o).1
      ≡ some level
    → Deserves r (apply_decoded now path delta r).0 o level delta
unfolding apply_decoded
apply_decoded-chime cb now tick path none r o level =
    λ e. quiet_chimes _ o level (remove-flag now path _) (observe-chimes cb tick _ _ o level e).1
apply_decoded-chime cb now tick path (some n) r o level = elim (Bool-cases (is_cleared n.state)) [
  | inl c ↦ rw c (λ e.
      absurd (quiet_chimes _ o level (clear-flag now n _) (observe-chimes cb tick _ _ o level e).1))
  | inr c ↦ rw c (λ e. raise-Deserves cb now tick n _ o level c e)
]
