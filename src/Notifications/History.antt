-- ===== src/Notifications/History.antt =====
-- Histories of the registry of main/jlp/notifications_registry.cpp: the calls that reach it, in the
-- order in which the UI task makes them.
use espos_p4_cockpit.Prelude.{
  ℕ, ◌≡◌, refl, ◌∙◌, ap, String, Bool, false, List, [], ◌∷◌, ◌++◌, none, if◌then◌else◌, ◌=s◌, All,
}
use espos_p4_cockpit.Json.{JsonLib}
use espos_p4_cockpit.Notifications.{
  Registry, apply, decode, acknowledge, forget_self_clear, on_change, off_change,
}
use espos_p4_cockpit.Notifications.Views.{
  View, view, deliver, acknowledged, view-apply, view-acknowledge, view-forget,
}

module _ (J : JsonLib) where
  open J use {Json}

  pub data Call : Type 0 where
    receives : ℕ → String → Json → Call
    acknowledges : ℕ → String → Call
    forgets : String → Call
    subscribes : ℕ → Call
    unsubscribes : ℕ → Call

  unfoldable pub step : Call → Registry → Registry
  step (receives now path value) r = (apply J now path value r).0
  step (acknowledges now path) r = (acknowledge now path r).0
  step (forgets path) r = forget_self_clear path r
  step (subscribes cb) r = (on_change cb r).0
  step (unsubscribes token) r = off_change token r

  unfoldable pub run : List Call → Registry → Registry
  unfolding step
  run [] r = r
  run (c ∷ cs) r = run cs (step c r)

  -- What a call does to the part that belongs to one path.
  abbrev pub effect : String → Call → View → View
  effect q (receives now path value) v =
      if path =s q then deliver now (decode J path value) v else v
  effect q (acknowledges now path) v = if path =s q then acknowledged now v else v
  effect q (forgets path) v = if path =s q then record v { cleared_at = none } else v
  effect q (subscribes cb) v = v
  effect q (unsubscribes token) v = v

  abbrev pub effects : String → List Call → View → View
  effects q [] v = v
  effects q (c ∷ cs) v = effects q cs (effect q c v)

  -- Whether a call is about a path.
  abbrev pub concerns : String → Call → Bool
  concerns q (receives now path value) = path =s q
  concerns q (acknowledges now path) = path =s q
  concerns q (forgets path) = path =s q
  concerns q (subscribes cb) = false
  concerns q (unsubscribes token) = false

  pub view-step : (q : String) (c : Call) (r : Registry) → view q (step c r) ≡ effect q c (view q r)
  unfolding step on_change off_change
  view-step q (receives now path value) r = view-apply J now path q value r
  view-step q (acknowledges now path) r = view-acknowledge now path q r
  view-step q (forgets path) r = view-forget path q r
  view-step q (subscribes cb) r = refl
  view-step q (unsubscribes token) r = refl

  pub view-run :
      (q : String) (cs : List Call) (r : Registry) → view q (run cs r) ≡ effects q cs (view q r)
  unfolding run
  view-run q [] r = refl
  view-run q (c ∷ cs) r = view-run q cs (step c r) ∙ ap (effects q cs) (view-step q c r)

  effect_other : (q : String) (c : Call) (v : View) → concerns q c ≡ false → effect q c v ≡ v
  effect_other q (receives now path value) v h = rw h
  effect_other q (acknowledges now path) v h = rw h
  effect_other q (forgets path) v h = rw h
  effect_other q (subscribes cb) v h = refl
  effect_other q (unsubscribes token) v h = refl

  pub effects_others :
      (q : String) (others cs : List Call) (v : View)
      → All (λ c. concerns q c ≡ false) others
      → effects q (others ++ cs) v ≡ effects q cs v
  effects_others q [] cs v h = refl
  effects_others q (c ∷ others) cs v (h, hs) =
      ap (effects q (others ++ cs)) (effect_other q c v h) ∙ effects_others q others cs v hs
