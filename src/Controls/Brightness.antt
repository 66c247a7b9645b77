-- ===== src/Controls/Brightness.antt =====
-- The backlight slider of main/jlp/widgets/widget_factory.cpp, which follows and writes the setting
-- `cockpit.brightness`. The setting is a percentage of main/config/cockpit.json, so never below 0.
use espos_p4_cockpit.Prelude.{
  ℕ, ◌≤◌, ◌≡◌, ◌≢◌, refl, sym, subst, All, ◌⊎◌, inl, inr, min, max, Bool, true, false, Option, none,
  some, List, [], ◌∷◌, ◌++◌, ◌==◌, if◌then◌else◌, Bool-cases, arith,
}

abbrev pub brightness_min : ℕ
brightness_min = 5

abbrev pub brightness_max : ℕ
brightness_max = 100

abbrev pub clamped : ℕ → ℕ
clamped pct = max brightness_min (min brightness_max pct)

-- The setting, the jobs that on_brightness_setting_changed() has posted, the slider, and the level of
-- the display where a drag has set it.
pub record Backlight : Type 0 where
  pub setting : ℕ
  pub posted : List ℕ
  pub dragging : Bool
  pub knob : ℕ
  pub preview : Option ℕ

-- espos_config_set_i32(): the callback runs only where the value changes.
abbrev pub write_setting : ℕ → Backlight → Backlight
write_setting pct b =
    if pct == b.setting
    then b
    else record b { setting = pct; posted = b.posted ++ clamped pct ∷ [] }

-- The observer of the slider.
abbrev pub follow : ℕ → Backlight → Backlight
follow pct b = if b.dragging then b else record b { knob = clamped pct }

abbrev pub run_posted : List ℕ → Backlight → Backlight
run_posted [] b = b
run_posted (pct ∷ ps) b = follow pct (record b { posted = ps })

pub data Event : Type 0 where
  written : ℕ → Event  -- by the config API or the designer
  drained pressing : Event
  dragged : ℕ → Event  -- VALUE_CHANGED at a place of the slider
  committed : Event  -- RELEASED or PRESS_LOST

unfoldable pub step : Event → Backlight → Backlight
step (written pct) b = write_setting pct b
step drained b = run_posted b.posted b
step pressing b = record b { dragging = true }
step (dragged pct) b = record b {
  dragging = true;
  knob = clamped pct;
  preview = some (clamped pct);
}
step committed b = write_setting b.knob (record b { dragging = false })

unfoldable pub run : List Event → Backlight → Backlight
run [] b = b
run (e ∷ es) b = run es (step e b)

-- build_brightness_slider(), with the setting as it finds it.
abbrev pub built : ℕ → Backlight
built pct = record {
  setting = pct;
  posted = [];
  dragging = false;
  knob = clamped pct;
  preview = none;
}

-- The value of the last job, or the given one where none is posted.
abbrev pub last_of : List ℕ → ℕ → ℕ
last_of [] k = k
last_of (p ∷ ps) k = last_of ps p

last_of-snoc : (ps : List ℕ) (p k : ℕ) → last_of (ps ++ p ∷ []) k ≡ p
last_of-snoc [] p k = refl
last_of-snoc (q ∷ ps) p k = last_of-snoc ps p q

clamped_again : (n : ℕ) → clamped (clamped n) ≡ clamped n
clamped_again n = ground arith

abbrev Fits : ℕ → Type 0
Fits n = clamped n ≡ n

All-snoc : (ps : List ℕ) (p : ℕ) → All Fits ps → Fits p → All Fits (ps ++ p ∷ [])
All-snoc [] p all h = (h, tt)
All-snoc (q ∷ ps) p (g, all) h = (g, All-snoc ps p all h)

last_of-either : (ps : List ℕ) (c k k' : ℕ) → last_of ps k ≡ c → (k' ≡ c) → last_of ps k' ≡ c
last_of-either [] c k k' h e = e
last_of-either (p ∷ ps) c k k' h e = h

-- Where the knob will be once the posted jobs have run.
record Shows (b : Backlight) : Type 0 where
  range : Fits b.knob
  jobs : All Fits b.posted
  held : last_of b.posted (clamped b.setting) ≡ clamped b.setting
  free : (b.dragging ≡ true) ⊎ (last_of b.posted b.knob ≡ clamped b.setting)

write_setting-Shows :
    (pct : ℕ) (b : Backlight)
    → Fits b.knob
    → All Fits b.posted
    → last_of b.posted (clamped b.setting) ≡ clamped b.setting
    → (b.dragging ≡ true) ⊎ ((b.knob ≡ pct) ⊎ (last_of b.posted b.knob ≡ clamped b.setting))
    → Shows (write_setting pct b)
write_setting-Shows pct b range jobs held free = elim (Bool-cases (pct == b.setting)) [
  | inl e ↦
      let same : pct ≡ b.setting = ground arith in
      let there : b.knob ≡ pct → b.knob ≡ clamped b.setting = λ k. ground arith in
      let free' : (b.dragging ≡ true) ⊎ (last_of b.posted b.knob ≡ clamped b.setting) = elim free [
        | inl d ↦ inl d
        | inr (inl k) ↦
            inr (
              last_of-either b.posted (clamped b.setting) (clamped b.setting) b.knob held (there k))
        | inr (inr f) ↦ inr f
      ] in
      rw e (record { range = range; jobs = jobs; held = held; free = free' })
  | inr e ↦ rw e (record {
    range = range;
    jobs = All-snoc b.posted (clamped pct) jobs (clamped_again pct);
    held = last_of-snoc b.posted (clamped pct) (clamped pct);
    free = inr (last_of-snoc b.posted (clamped pct) b.knob);
  })
]

run_posted-Shows : (ps : List ℕ) (b : Backlight) → b.posted ≡ ps → Shows b → Shows (run_posted ps b)
run_posted-Shows [] b e h = h
run_posted-Shows (p ∷ ps) b e h =
    let c = clamped b.setting in
    let (now, jobs) : All Fits (p ∷ ps) = subst (All Fits) e h.jobs in
    let last : last_of ps p ≡ c = subst (λ qs. last_of qs c ≡ c) e h.held in
    let held = last_of-either ps c p c last refl in
    elim (Bool-cases b.dragging) [
      | inl d ↦ rw d (record { range = h.range; jobs = jobs; held = held; free = inl refl })
      | inr f ↦ rw f (record {
        range = clamped_again p;
        jobs = jobs;
        held = held;
        free = inr (subst (λ q. last_of ps q ≡ c) (sym now) last);
      })
    ]

step-Shows : (e : Event) (b : Backlight) → Shows b → Shows (step e b)
unfolding step
step-Shows (written pct) b h =
    write_setting-Shows pct b h.range h.jobs h.held
      (elim h.free [ inl d ↦ inl d | inr f ↦ inr (inr f) ])
step-Shows drained b h = run_posted-Shows b.posted b refl h
step-Shows pressing b h = record { range = h.range; jobs = h.jobs; held = h.held; free = inl refl }
step-Shows (dragged pct) b h = record {
  range = clamped_again pct;
  jobs = h.jobs;
  held = h.held;
  free = inl refl;
}
step-Shows committed b h =
    write_setting-Shows b.knob (record b { dragging = false }) h.range h.jobs h.held
      (inr (inl refl))

run-Shows : (es : List Event) (b : Backlight) → Shows b → Shows (run es b)
unfolding run
run-Shows [] b h = h
run-Shows (e ∷ es) b h = run-Shows es (step e b) (step-Shows e b h)

settled : (ps : List ℕ) (k c : ℕ) → last_of ps k ≡ c → (ps ≢ []) ⊎ (k ≡ c)
settled [] k c h = inr h
settled (p ∷ ps) k c h = inl (λ e. cc)

-- After every sequence of drags, writes of the setting and jobs the slider stands within its range, and
-- where no finger is on it and no job is left it stands at the setting.
pub run-clamped :
    (pct : ℕ) (es : List Event)
    → let b = run es (built pct) in
      (5 ≤ b.knob)
      × (b.knob ≤ 100)
      × ((b.dragging ≡ true) ⊎ ((b.posted ≢ []) ⊎ (b.knob ≡ clamped b.setting)))
run-clamped pct es =
    let b = run es (built pct) in
    let h : Shows b =
      run-Shows es (built pct)
        (record { range = clamped_again pct; jobs = tt; held = refl; free = inr refl }) in
    let r = h.range in
    (
      ground (arith, r),
      ground (arith, r),
      elim h.free [ inl d ↦ inl d | inr f ↦ inr (settled b.posted b.knob (clamped b.setting) f) ],
    )
