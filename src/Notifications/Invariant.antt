-- ===== src/Notifications/Invariant.antt =====
-- What holds of the registry of main/jlp/notifications_registry.cpp after every history of calls.
use espos_p4_cockpit.Prelude.{
  ℕ, ◌≤◌, ◌≡◌, refl, ◌∙◌, sym, subst, inl, inr, String, true, false, List, [], ◌∷◌, Option, none,
  some, arith, is_some, ◌=s◌, str_iff, Bool-cases,
}
use espos_p4_cockpit.Prelude.Dict.{lookup}
use espos_p4_cockpit.Json.{JsonLib}
use espos_p4_cockpit.Notifications.{
  NotState, Notification, Registry, rank, is_cleared, empty_registry, decode,
}
use espos_p4_cockpit.Notifications.Views.{View, view, deliver, acknowledged, decode-path}
use espos_p4_cockpit.Notifications.History.{
  Call, receives, acknowledges, forgets, subscribes, unsubscribes, step, run, effect, effects,
  view-step, view-run,
}

-- What holds of one path: its entry is stored under its own name, an acknowledgement is never below
-- the alerting state that is stored, no re-assert clock runs while the path is alerting, and the
-- panel waits for an echo only of an acknowledged path.
pub record Sound (q : String) (v : View) : Type 0 where
  pub named : (n : Notification) → v.entry ≡ some n → n.path ≡ q
  pub covered :
      (n : Notification) (level : NotState)
      → v.entry ≡ some n
      → v.level ≡ some level
      → is_cleared n.state ≡ false
      → rank n.state ≤ rank level
  pub settled :
      (n : Notification) → v.entry ≡ some n → is_cleared n.state ≡ false → v.echo_at ≡ none
  pub awaits : is_some v.cleared_at ≡ true → is_some v.level ≡ true

Sound-deliver :
    (now : ℕ) (q : String) (delta : Option Notification) (v : View)
    → ((n : Notification) → delta ≡ some n → n.path ≡ q)
    → Sound q v
    → Sound q (deliver now delta v)
Sound-deliver now q none v h s = record {
  named = λ n e. cc;
  covered = λ n l e k c. cc;
  settled = λ n e c. cc;
  awaits = λ e. cc;
}
Sound-deliver now q (some m) v h s = record {
  named = λ n e. ground (arith, h m refl, s.named n);
  covered = λ n l e k c. ground (arith, s.covered n l);
  settled = λ n e c. ground (arith, s.settled n);
  awaits = λ e. ground arith;
}

Sound-acknowledged : (now : ℕ) (q : String) (v : View) → Sound q v → Sound q (acknowledged now v)
Sound-acknowledged now q v s = record {
  named = λ n e. ground (arith, s.named n);
  covered = λ n l e k c. ground arith;
  settled = λ n e c. ground (arith, s.settled n);
  awaits = λ e. ground (arith, s.awaits);
}

Sound-forgotten : (q : String) (v : View) → Sound q v → Sound q (record v { cleared_at = none })
Sound-forgotten q v s = record {
  named = s.named;
  covered = s.covered;
  settled = s.settled;
  awaits = λ e. cc;
}

module _ (J : JsonLib) where
  Sound-effect : (q : String) (c : Call J) (v : View) → Sound q v → Sound q (effect J q c v)
  Sound-effect q (receives now path value) v s = elim (Bool-cases (path =s q)) [
    | inl e ↦ rw e (
        Sound-deliver now q (decode J path value) v
          (λ n d. decode-path J path value n d ∙ (str_iff path q).0 e) s)
    | inr e ↦ rw e s
  ]
  Sound-effect q (acknowledges now path) v s = elim (Bool-cases (path =s q)) [
    | inl e ↦ rw e (Sound-acknowledged now q v s)
    | inr e ↦ rw e s
  ]
  Sound-effect q (forgets path) v s = elim (Bool-cases (path =s q)) [
    | inl e ↦ rw e (Sound-forgotten q v s)
    | inr e ↦ rw e s
  ]
  Sound-effect q (subscribes cb) v s = s
  Sound-effect q (unsubscribes token) v s = s

  pub Sound-step :
      (q : String) (c : Call J) (r : Registry) → Sound q (view q r) → Sound q (view q (step J c r))
  Sound-step q c r s = subst (Sound q) (sym (view-step J q c r)) (Sound-effect q c (view q r) s)

  Sound-effects :
      (q : String) (cs : List (Call J)) (v : View) → Sound q v → Sound q (effects J q cs v)
  Sound-effects q [] v s = s
  Sound-effects q (c ∷ cs) v s = Sound-effects q cs (effect J q c v) (Sound-effect q c v s)

  pub Sound-empty : (q : String) → Sound q (view q empty_registry)
  unfolding lookup
  Sound-empty q = record {
    named = λ n e. cc;
    covered = λ n l e k c. cc;
    settled = λ n e c. cc;
    awaits = λ e. cc;
  }

  -- After every history of deltas, acknowledgements and observers, and for every path: the entry is
  -- stored under its own name; an acknowledged path that alerts is at most as severe as the level
  -- it was acknowledged at; no re-assert clock runs for a path that alerts; and the panel waits for
  -- the echo of an ACK only of an acknowledged path.
  pub run-Sound : (q : String) (cs : List (Call J)) → Sound q (view q (run J cs empty_registry))
  run-Sound q cs =
      subst (Sound q) (sym (view-run J q cs empty_registry))
        (Sound-effects q cs (view q empty_registry) (Sound-empty q))
