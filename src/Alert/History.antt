-- ===== src/Alert/History.antt =====
-- Histories of the overlay of main/jlp/alert_overlay.cpp: the deltas, taps and layout swaps that reach
-- it, in the order in which the UI task handles them.
use espos_p4_cockpit.Prelude.{
  ℕ, ◌≡◌, refl, inl, inr, String, Bool, true, not, ◌&&◌, ◌||◌, List, [], ◌∷◌, arith, ltb, ◌=s◌,
  Bool-cases,
}
use espos_p4_cockpit.Json.{JsonLib}
use espos_p4_cockpit.Notifications.{
  NotState, Registry, most_severe, apply, acknowledge, decode, empty_registry, forget_self_clear,
  on_change,
}
use espos_p4_cockpit.Notifications.Views.{view}
use espos_p4_cockpit.Notifications.Invariant.{Sound, Sound-step, Sound-empty}
use espos_p4_cockpit.Notifications.History.{receives, acknowledges, forgets, step}
use espos_p4_cockpit.Notifications.Quiet.{IsNamed, step-IsNamed}
use espos_p4_cockpit.Alert.{AlertOverlay, init, configure, is_called, observe, tap}
use espos_p4_cockpit.Alert.Tells.{IsUnique, Tells, apply_decoded-Tells}
use espos_p4_cockpit.Alert.Current.{
  IsCurrent, rebuild-IsShown, observe-IsShown, Tells-most_severe, apply_decoded-IsUnique,
  acknowledge-map, acknowledge-Tells,
}

module _ (J : JsonLib) where
  open J use {Json}

  -- What reaches the overlay: a delta, a tap on ACK, a layout swap.
  pub data Event : Type 0 where
    delta : ℕ → ℕ → String → Json → Event
    tapped : ℕ → ℕ → (ℕ → ℕ) → Bool → Event
    configured : ℕ → Bool → NotState → Event

  unfoldable pub react : ℕ → Event → Registry × AlertOverlay → Registry × AlertOverlay
  react cb (delta now tick path value) (r, o) =
      let (s, fired) = apply J now path value r in (s, (observe cb tick fired s o).0)
  react cb (tapped now tick elaps sent) (r, o) =
      let (s, shown, chime) = tap cb now tick elaps sent r o in (s, shown)
  react cb (configured tick enabled min_state) (r, o) = (r, configure tick enabled min_state r o)

  unfoldable pub reacts : ℕ → List Event → Registry × AlertOverlay → Registry × AlertOverlay
  unfolding react
  reacts cb [] p = p
  reacts cb (e ∷ es) p = reacts cb es (react cb e p)

  -- The overlay after init(): subscribed with the callback `cb`.
  abbrev pub booted : ℕ → Registry × AlertOverlay
  booted cb = ((on_change cb empty_registry).0, init)

  delta-IsCurrent :
      (cb now tick : ℕ) (path : String) (value : Json) (r : Registry) (o : AlertOverlay)
      → IsCurrent cb r o
      → IsCurrent cb
          (apply J now path value r).0
          (observe cb tick (apply J now path value r).1 (apply J now path value r).0 o).0
  unfolding step apply
  delta-IsCurrent cb now tick path value r o c =
      let told : Tells r (apply J now path value r) =
        apply_decoded-Tells now path (decode J path value) r c.sound in
      let called : is_called cb (apply J now path value r).0.observers ≡ true =
        rw told.0 c.observed in
      let seen =
        observe-IsShown cb tick (apply J now path value r).1 r (apply J now path value r).0 o c.made
          called c.shown (Tells-most_severe r _ _ c.unique told) in
      record {
        sound = λ q. Sound-step J q (receives now path value) r (c.sound q);
        unique = apply_decoded-IsUnique now path (decode J path value) r c.unique;
        named = step-IsNamed J (receives now path value) r c.named;
        observed = called;
        made = seen.1;
        shown = seen.0;
      }

  tap-IsCurrent :
      (cb now tick : ℕ) (elaps : ℕ → ℕ) (sent : Bool) (r : Registry) (o : AlertOverlay)
      → IsCurrent cb r o
      → IsCurrent cb (tap cb now tick elaps sent r o).0 (tap cb now tick elaps sent r o).1
  unfolding tap step forget_self_clear most_severe
  tap-IsCurrent cb now tick elaps sent r o c =
      elim (Bool-cases ((o.current_path =s "") || ltb (elaps o.shown_at) 500)) [
        | inl e ↦ rw e c
        | inr e ↦
            let path = o.current_path in
            let s = (acknowledge now path r).0 in
            let told = acknowledge-Tells now path r in
            let called : is_called cb s.observers ≡ true = rw told.0 c.observed in
            let seen =
              observe-IsShown cb tick (acknowledge now path r).1 r s o c.made called c.shown
                told.1 in
            let unique : IsUnique s.map = rw (acknowledge-map now path r) c.unique in
            let named : IsNamed s.map = step-IsNamed J (acknowledges now path) r c.named in
            let sound : (q : String) → Sound q (view q s) =
              λ q. Sound-step J q (acknowledges now path) r (c.sound q) in
            elim (Bool-cases ((acknowledge now path r).2 && not sent)) [
              | inl f ↦
                  rw (e, f)
                    (record {
                      sound = λ q. Sound-step J q (forgets path) s (sound q);
                      unique = unique;
                      named = named;
                      observed = called;
                      made = seen.1;
                      shown = seen.0;
                    })
              | inr f ↦
                  rw (e, f)
                    (record {
                      sound = sound;
                      unique = unique;
                      named = named;
                      observed = called;
                      made = seen.1;
                      shown = seen.0;
                    })
            ]
      ]

  react-IsCurrent :
      (cb : ℕ) (e : Event) (r : Registry) (o : AlertOverlay)
      → IsCurrent cb r o
      → IsCurrent cb (react cb e (r, o)).0 (react cb e (r, o)).1
  unfolding react configure
  react-IsCurrent cb (delta now tick path value) r o c =
      delta-IsCurrent cb now tick path value r o c
  react-IsCurrent cb (tapped now tick elaps sent) r o c = tap-IsCurrent cb now tick elaps sent r o c
  react-IsCurrent cb (configured tick enabled min_state) r o c =
      let seen =
        rebuild-IsShown tick r (record o { enabled = enabled; min_state = min_state }) c.made in
      record {
        sound = c.sound;
        unique = c.unique;
        named = c.named;
        observed = c.observed;
        made = seen.1;
        shown = seen.0;
      }

  reacts-IsCurrent :
      (cb : ℕ) (es : List Event) (r : Registry) (o : AlertOverlay)
      → IsCurrent cb r o
      → IsCurrent cb (reacts cb es (r, o)).0 (reacts cb es (r, o)).1
  unfolding reacts
  reacts-IsCurrent cb [] r o c = c
  reacts-IsCurrent cb (e ∷ es) r o c = reacts-IsCurrent cb es _ _ (react-IsCurrent cb e r o c)

  booted-IsCurrent : (cb : ℕ) → IsCurrent cb (booted cb).0 (booted cb).1
  unfolding on_change most_severe is_called
  booted-IsCurrent cb = record {
    sound = λ q. Sound-empty J q;
    unique = tt;
    named = tt;
    observed = ground arith;
    made = refl;
    shown = (refl, refl);
  }

  -- After every sequence of deltas, taps and layout swaps the overlay, subscribed at boot, is
  -- current: it shows the path, the severity, the colour and the message of what most_severe()
  -- answers where that reaches the threshold of an enabled overlay, and is hidden otherwise.
  pub reacts-booted-IsCurrent :
      (cb : ℕ) (es : List Event)
      → IsCurrent cb (reacts cb es (booted cb)).0 (reacts cb es (booted cb)).1
  reacts-booted-IsCurrent cb es = reacts-IsCurrent cb es _ _ (booted-IsCurrent cb)
