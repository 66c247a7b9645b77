-- ===== src/Notifications/Quiet.antt =====
-- What an acknowledgement promises to the operator in main/jlp/notifications_registry.cpp: the
-- overlay is never driven by an acknowledged or a cleared path.
use espos_p4_cockpit.Prelude.{
  ℕ, ◌≡◌, refl, ◌⊎◌, inl, inr, String, false, List, [], ◌∷◌, Option, none, some, arith, Bool-cases,
  Option-cases, All,
}
use espos_p4_cockpit.Prelude.Dict.{Dict, lookup, insert, erase, has, All-insert, All-erase}
use espos_p4_cockpit.Json.{JsonLib}
use espos_p4_cockpit.Notifications.{
  NotState, Notification, Registry, is_cleared, empty_registry, most_severe, is_acknowledged,
  apply_decoded, apply, acknowledge, remove, clear, raise, on_change, off_change, forget_self_clear,
  decode,
}
use espos_p4_cockpit.Notifications.Severity.{HasPending, IsMostSevere, most_severe-IsMostSevere}
use espos_p4_cockpit.Notifications.History.{
  Call, receives, acknowledges, forgets, subscribes, unsubscribes, step, run,
}

abbrev pub IsNamed : Dict Notification → Type 0
IsNamed = All (λ e. e.1.path ≡ e.0)

-- The three ways in which a call leaves the map.
abbrev pub Stores : Dict Notification → Dict Notification → String → Option Notification → Type 0
Stores before after path none = (after ≡ before) ⊎ (after ≡ erase path before)
Stores before after path (some n) = (after ≡ before) ⊎ (after ≡ insert n.path n before)

pub remove-Stores :
    (now : ℕ) (path : String) (r : Registry) → Stores r.map (remove now path r).0.map path none
unfolding remove
remove-Stores now path r = ground arith

pub clear-Stores :
    (now : ℕ) (n : Notification) (r : Registry) → Stores r.map (clear now n r).0.map n.path (some n)
unfolding clear
clear-Stores now n r = ground arith

pub raise-Stores :
    (now : ℕ) (n : Notification) (r : Registry) → Stores r.map (raise now n r).0.map n.path (some n)
unfolding raise
raise-Stores now n r = ground arith

Stores-IsNamed :
    (before after : Dict Notification) (path : String) (delta : Option Notification)
    → Stores before after path delta
    → IsNamed before
    → IsNamed after
Stores-IsNamed before after path none (inl e) h = rw e h
Stores-IsNamed before after path none (inr e) h =
    rw e (All-erase (λ (e : String × Notification). e.1.path ≡ e.0) path before h)
Stores-IsNamed before after path (some n) (inl e) h = rw e h
Stores-IsNamed before after path (some n) (inr e) h =
    rw e (All-insert (λ (e : String × Notification). e.1.path ≡ e.0) n.path n before refl h)

pub apply_decoded-IsNamed :
    (now : ℕ) (path : String) (delta : Option Notification) (r : Registry)
    → IsNamed r.map
    → IsNamed (apply_decoded now path delta r).0.map
unfolding apply_decoded
apply_decoded-IsNamed now path none r = Stores-IsNamed _ _ path none (remove-Stores now path _)
apply_decoded-IsNamed now path (some n) r = elim (Bool-cases (is_cleared n.state)) [
  | inl e ↦ rw e (Stores-IsNamed _ _ n.path (some n) (clear-Stores now n _))
  | inr e ↦ rw e (Stores-IsNamed _ _ n.path (some n) (raise-Stores now n _))
]

pub acknowledge-IsNamed :
    (now : ℕ) (path : String) (r : Registry)
    → IsNamed r.map
    → IsNamed (acknowledge now path r).0.map
unfolding acknowledge
acknowledge-IsNamed now path r h = elim (Option-cases (lookup path r.map)) [
  | inl e ↦ rw (e, acknowledge) h
  | inr (n, e) ↦ rw (e, acknowledge) h
]

HasPending-unacknowledged :
    (acked : Dict NotState) (b : Notification) (m : Dict Notification)
    → IsNamed m
    → HasPending acked b m
    → (has b.path acked ≡ false) × (is_cleared b.state ≡ false)
HasPending-unacknowledged acked b [] h e = absurd e
HasPending-unacknowledged acked b ((path, n) ∷ m) h (inl (e, pending)) = ground (arith, h.0)
HasPending-unacknowledged acked b ((path, n) ∷ m) h (inr e) =
    HasPending-unacknowledged acked b m h.1 e

pub IsMostSevere-unacknowledged :
    (r : Registry) (res : Option Notification) (b : Notification)
    → IsNamed r.map
    → IsMostSevere r res
    → res ≡ some b
    → (is_acknowledged b.path r ≡ false) × (is_cleared b.state ≡ false)
IsMostSevere-unacknowledged r none b h s e = absurd (cc)
IsMostSevere-unacknowledged r (some c) b h s e =
    let same : c ≡ b = ground arith in rw (← same) (HasPending-unacknowledged r.acked c r.map h s.0)

module _ (J : JsonLib) where
  pub step-IsNamed : (c : Call J) (r : Registry) → IsNamed r.map → IsNamed (step J c r).map
  unfolding step apply on_change off_change forget_self_clear
  step-IsNamed (receives now path value) r h =
      apply_decoded-IsNamed now path (decode J path value) r h
  step-IsNamed (acknowledges now path) r h = acknowledge-IsNamed now path r h
  step-IsNamed (forgets path) r h = h
  step-IsNamed (subscribes cb) r h = h
  step-IsNamed (unsubscribes token) r h = h

  run-IsNamed : (cs : List (Call J)) (r : Registry) → IsNamed r.map → IsNamed (run J cs r).map
  unfolding run
  run-IsNamed [] r h = h
  run-IsNamed (c ∷ cs) r h = run-IsNamed cs (step J c r) (step-IsNamed c r h)

  -- After every history, what most_severe() answers is alerting and is not acknowledged under the
  -- path that the answer names: an acknowledged path never drives the overlay.
  pub most_severe-unacknowledged :
      (cs : List (Call J)) (b : Notification)
      → most_severe (run J cs empty_registry) ≡ some b
      → (is_acknowledged b.path (run J cs empty_registry) ≡ false) × (is_cleared b.state ≡ false)
  most_severe-unacknowledged cs b e =
      let r = run J cs empty_registry in
      IsMostSevere-unacknowledged r (most_severe r) b (run-IsNamed cs empty_registry tt)
        (most_severe-IsMostSevere r) e
