-- ===== src/Notifications/Ack.antt =====
-- The life of an acknowledgement in main/jlp/notifications_registry.cpp, with calls about other
-- paths and new observers coming between.
use espos_p4_cockpit.Prelude.{
  ℕ, ◌-◌, ◌≤◌, ◌<◌, ◌≡◌, refl, ◌∙◌, ap, ◌↔◌, String, true, false, List, [], ◌∷◌, ◌++◌, Option, none,
  some, arith, ltb, if◌then◌else◌, str_refl, All, is_some,
}
use espos_p4_cockpit.Json.{JsonLib}
use espos_p4_cockpit.Prelude.Dict.{lookup, has}
use espos_p4_cockpit.Notifications.{
  Notification, Registry, rank, is_cleared, decode, acknowledge, is_acknowledged,
  reassert_window_us, self_clear_window_us,
}
use espos_p4_cockpit.Notifications.Views.{View, view, deliver, acknowledged}
use espos_p4_cockpit.Notifications.History.{
  Call, receives, acknowledges, forgets, run, effects, concerns, view-run, effects_others,
}

-- A delta that says that the condition is over: null, nominal or normal.
abbrev pub IsClear : Option Notification → Type 0
IsClear none = Unit
IsClear (some n) = is_cleared n.state ≡ true

module _ (t₀ t₁ : ℕ) (n : Notification) (v : View) (stored : v.entry ≡ some n) where
  deliver_echo :
      (delta : Option Notification)
      → v.reasserts ≡ false
      → IsClear delta
      → t₁ - t₀ < self_clear_window_us
      → (deliver t₁ delta (acknowledged t₀ v)).level ≡ some n.state
  deliver_echo none s c w = ground arith
  deliver_echo (some m) s c w = ground arith

  deliver_late :
      (delta : Option Notification)
      → v.reasserts ≡ false
      → IsClear delta
      → self_clear_window_us ≤ t₁ - t₀
      → (deliver t₁ delta (acknowledged t₀ v)).level ≡ none
  deliver_late none s c w = ground arith
  deliver_late (some m) s c w = ground arith

  deliver_forgotten :
      (delta : Option Notification)
      → IsClear delta
      → (deliver t₁ delta (record (acknowledged t₀ v) { cleared_at = none })).level ≡ none
  deliver_forgotten none c = ground arith
  deliver_forgotten (some m) c = ground arith

  deliver_raise :
      (m : Notification)
      → is_cleared m.state ≡ false
      → (deliver t₁ (some m) (acknowledged t₀ v)).level
        ≡ (if ltb (rank n.state) (rank m.state) then none else some n.state)
  deliver_raise m c = ground arith

  -- An echo that keeps its entry, then a re-raise.
  deliver_reraise :
      (t₂ : ℕ) (e m : Notification)
      → v.reasserts ≡ false
      → is_cleared e.state ≡ true
      → t₁ - t₀ < self_clear_window_us
      → is_cleared m.state ≡ false
      → t₂ - t₁ < reassert_window_us
      → (deliver t₂ (some m) (deliver t₁ (some e) (acknowledged t₀ v))).reasserts ≡ true
  deliver_reraise t₂ e m s c w d u = ground arith

  deliver_reraise_level :
      (t₂ : ℕ) (e m : Notification)
      → v.reasserts ≡ false
      → is_cleared e.state ≡ true
      → t₁ - t₀ < self_clear_window_us
      → is_cleared m.state ≡ false
      → rank m.state ≤ rank n.state
      → (deliver t₂ (some m) (deliver t₁ (some e) (acknowledged t₀ v))).level ≡ some n.state
  deliver_reraise_level t₂ e m s c w d u = ground arith

deliver-cleared_at :
    (t : ℕ) (delta : Option Notification) (v : View) → (deliver t delta v).cleared_at ≡ none
deliver-cleared_at t none v = refl
deliver-cleared_at t (some m) v = ground arith

acknowledge_local :
    (t : ℕ) (p : String) (r : Registry) → has p r.reasserting ≡ true → (acknowledge t p r).2 ≡ false
unfolding acknowledge
acknowledge_local t p r h = ground arith

module _ (J : JsonLib) (p : String) (r : Registry) where
  open J use {Json}

  -- The calls between two calls about `p`.
  abbrev Others : List (Call J) → Type 0
  Others = All (λ c. concerns J p c ≡ false)

  -- An ACK, a delta, and others between.
  ack_receive :
      (t₀ t₁ : ℕ) (value : Json) (others : List (Call J))
      → Others others
      → view p (run J (acknowledges t₀ p ∷ (others ++ receives t₁ p value ∷ [])) r)
        ≡ deliver t₁ (decode J p value) (acknowledged t₀ (view p r))
  ack_receive t₀ t₁ value others h =
      view-run J p _ r ∙ effects_others J p others (receives t₁ p value ∷ []) _ h ∙ rw (str_refl p)

  own_forgets :
      (t₀ t₁ : ℕ) (value : Json) (v : View)
      → effects J p (acknowledges t₀ p ∷ forgets p ∷ receives t₁ p value ∷ []) v
        ≡ deliver t₁ (decode J p value) (record (acknowledged t₀ v) { cleared_at = none })
  own_forgets t₀ t₁ value v = rw (str_refl p)

  own_receives :
      (t₀ t₁ t₂ : ℕ) (value again : Json) (v : View)
      → effects J p (acknowledges t₀ p ∷ receives t₁ p value ∷ receives t₂ p again ∷ []) v
        ≡ deliver t₂ (decode J p again) (deliver t₁ (decode J p value) (acknowledged t₀ v))
  own_receives t₀ t₁ t₂ value again v = rw (str_refl p)

  -- Three calls about `p`, with others between.
  three_calls :
      (a b c : Call J) (between others : List (Call J))
      → Others between
      → Others others
      → view p (run J (a ∷ (between ++ (b ∷ (others ++ c ∷ [])))) r)
        ≡ effects J p (a ∷ b ∷ c ∷ []) (view p r)
  three_calls a b c between others g h =
      view-run J p _ r
      ∙ effects_others J p between (b ∷ (others ++ c ∷ [])) _ g
      ∙ effects_others J p others (c ∷ []) _ h

  abbrev pub Stored : Notification → Type 0
  Stored n = lookup p r.map ≡ some n

  module _ (t₀ t₁ : ℕ) (n : Notification) (value : Json) (others : List (Call J)) where
    -- The echo of the panel's own ACK, inside its window and whatever happens to other paths
    -- meanwhile, leaves the path acknowledged at the level of the acknowledged notification, and is
    -- absorbed only once.
    pub ack_survives_echo :
        Stored n
        → has p r.reasserting ≡ false
        → All (λ c. concerns J p c ≡ false) others
        → IsClear (decode J p value)
        → t₁ - t₀ < self_clear_window_us
        → let after = run J (acknowledges t₀ p ∷ (others ++ receives t₁ p value ∷ [])) r in
          (lookup p after.acked ≡ some n.state) × (lookup p after.self_cleared ≡ none)
    ack_survives_echo stored fresh h c w =
        let e = ack_receive t₀ t₁ value others h in
        (
          ap (λ v. v.level) e ∙ deliver_echo t₀ t₁ n (view p r) stored (decode J p value) fresh c w,
          ap (λ v. v.cleared_at) e ∙ deliver-cleared_at t₁ (decode J p value) _,
        )

    -- A clear that comes when the window is over is the condition really going away: it erases the
    -- acknowledgement, so the next alerting delta pops the overlay again.
    late_clear_rearms :
        Stored n
        → has p r.reasserting ≡ false
        → All (λ c. concerns J p c ≡ false) others
        → IsClear (decode J p value)
        → self_clear_window_us ≤ t₁ - t₀
        → is_acknowledged p (run J (acknowledges t₀ p ∷ (others ++ receives t₁ p value ∷ [])) r)
          ≡ false
    late_clear_rearms stored fresh h c w =
        ap (λ v. is_some v.level) (ack_receive t₀ t₁ value others h)
        ∙ ap is_some (deliver_late t₀ t₁ n (view p r) stored (decode J p value) fresh c w)

    -- An alerting delta keeps the acknowledgement exactly when it is not above the acknowledged level.
    raise_rearms_iff :
        (m : Notification)
        → Stored n
        → All (λ c. concerns J p c ≡ false) others
        → decode J p value ≡ some m
        → is_cleared m.state ≡ false
        → (is_acknowledged p (run J (acknowledges t₀ p ∷ (others ++ receives t₁ p value ∷ [])) r)
            ≡ true)
          ↔ (rank m.state ≤ rank n.state)
    raise_rearms_iff m stored h d c =
        let e : view p (run J (acknowledges t₀ p ∷ (others ++ receives t₁ p value ∷ [])) r)
            ≡ deliver t₁ (some m) (acknowledged t₀ (view p r)) =
          ack_receive t₀ t₁ value others h
          ∙ ap (λ o. deliver t₁ o (acknowledged t₀ (view p r))) d in
        let l = ap (λ v. v.level) e ∙ deliver_raise t₀ t₁ n (view p r) stored m c in ground arith

    -- When the ACK delta could not be sent and its mark was dropped, no clear is taken for an echo,
    -- however soon it comes.
    forgotten_clear_rearms :
        (between : List (Call J))
        → Stored n
        → All (λ c. concerns J p c ≡ false) between
        → All (λ c. concerns J p c ≡ false) others
        → IsClear (decode J p value)
        → let calls =
            acknowledges t₀ p ∷ (between ++ (forgets p ∷ (others ++ receives t₁ p value ∷ []))) in
          is_acknowledged p (run J calls r) ≡ false
    forgotten_clear_rearms between stored g h c =
        ap (λ v. is_some v.level)
          (three_calls (acknowledges t₀ p) (forgets p) (receives t₁ p value) between others g h
            ∙ own_forgets t₀ t₁ value (view p r))
        ∙ ap is_some (deliver_forgotten t₀ t₁ n (view p r) stored (decode J p value) c)

    -- A path whose ACK echo is followed by a re-raise within a minute is learnt to be driven by the
    -- bus: the acknowledgement stays, and every later acknowledgement is kept local.
    reraise_stays_local :
        (between : List (Call J)) (t₂ t₃ : ℕ) (again : Json) (e m : Notification)
        → Stored n
        → has p r.reasserting ≡ false
        → All (λ c. concerns J p c ≡ false) others
        → All (λ c. concerns J p c ≡ false) between
        → decode J p value ≡ some e
        → is_cleared e.state ≡ true
        → t₁ - t₀ < self_clear_window_us
        → decode J p again ≡ some m
        → is_cleared m.state ≡ false
        → rank m.state ≤ rank n.state
        → t₂ - t₁ < reassert_window_us
        → let calls =
            acknowledges t₀ p
            ∷ (others ++ (receives t₁ p value ∷ (between ++ receives t₂ p again ∷ []))) in
          let after = run J calls r in
          (is_acknowledged p after ≡ true) × ((acknowledge t₃ p after).2 ≡ false)
    reraise_stays_local between t₂ t₃ again e m stored fresh g h de ce w dm cm le u =
        let calls =
          acknowledges t₀ p
          ∷ (others ++ (receives t₁ p value ∷ (between ++ receives t₂ p again ∷ []))) in
        let after = run J calls r in
        let seen : view p after
            ≡ deliver t₂ (some m) (deliver t₁ (some e) (acknowledged t₀ (view p r))) =
          three_calls (acknowledges t₀ p) (receives t₁ p value) (receives t₂ p again) others between
            g h
          ∙ own_receives t₀ t₁ t₂ value again (view p r)
          ∙ rw (de, dm) in
        (
          ap (λ v. is_some v.level) seen
              ∙ ap is_some
                  (deliver_reraise_level t₀ t₁ n (view p r) stored t₂ e m fresh ce w cm le),
          acknowledge_local t₃ p after (
              ap (λ v. v.reasserts) seen
              ∙ deliver_reraise t₀ t₁ n (view p r) stored t₂ e m fresh ce w cm u),
        )
