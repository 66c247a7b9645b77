-- ===== src/Picture/Watch.antt =====
-- The watch timer of the stream widget and its visibility, in main/jlp/widgets/widget_factory.cpp.
use espos_p4_cockpit.Prelude.{
  ℕ, ◌+◌, ◌-◌, ◌/◌, ◌≤◌, ◌<◌, ◌≡◌, ◌⊎◌, refl, Bool, true, false, not, ◌&&◌, ◌||◌, some, List, [],
  ◌∷◌, ltb, ◌==◌, if◌then◌else◌, All, arith,
}
use espos_p4_cockpit.Stream.Stats.{StreamStats}
use espos_p4_cockpit.Picture.{
  Pixels, Post, Picture, try_start, hand_over, show_pixels, drain, do_stop, shown,
}

pub data Text : Type 0 where
  connecting no_signal : Text

-- The rest of StreamCtx: `text` is the placeholder's, `paused` what the client was told last.
pub record Watch : Type 0 where
  pub visible : Bool
  pub watch_timer : Bool
  pub voice_busy_until : ℕ
  pub paused : Bool
  pub text : Text
  pub picture : Picture

-- What a tick meets: whether the client runs, whether a start succeeds, the state of the voice, the
-- statistics, and the clock at its three reads.
pub record Seen : Type 0 where
  pub running : Bool
  pub starts : Bool
  pub vstate : ℕ
  pub stats : StreamStats
  pub at_voice : ℕ
  pub at_pause : ℕ
  pub at_age : ℕ

-- `age_ms >= 0 && age_ms < 3000`, where the division drops the fraction.
abbrev pub is_fresh : ℕ → ℕ → Bool
is_fresh now last = if ltb now last then ltb (last - now) 1000 else ltb ((now - last) / 1000) 3000

abbrev pub healed : Seen → Picture → Picture
healed a p = if p.started && not a.running then record p { started = false } else p

abbrev pub busy_until : Seen → ℕ → ℕ
busy_until a before = if a.vstate == 2 || a.vstate == 3 then a.at_voice + 2000000 else before

-- Whether the placeholder is hidden.
abbrev pub is_live : Seen → Bool → Bool → Bool
is_live a started voice_busy =
    let have_frame = started && a.stats.connected && ltb 0 a.stats.last_frame_us in
    (voice_busy && have_frame) || (have_frame && is_fresh a.at_age a.stats.last_frame_us)

abbrev pub label : Seen → Bool → Bool → Text → Text
label a started hidden before =
    if hidden then before else if started && a.stats.connected then no_signal else connecting

unfoldable pub watch_tick : Seen → Watch → Watch
watch_tick a c =
    let p = try_start a.starts (healed a c.picture) in
    let until = busy_until a c.voice_busy_until in
    let voice_busy = ltb a.at_pause until in
    let hidden = is_live a p.started voice_busy in
    if not c.visible then c else record c {
      voice_busy_until = until;
      paused = voice_busy;
      text = label a p.started hidden c.text;
      picture = record p { placeholder = not hidden };
    }

unfoldable pub set_visible : Bool → Bool → Watch → Watch
set_visible starts vis c =
    if (vis && c.visible) || (not vis && not c.visible)
    then c
    else if vis
    then record c { visible = true; watch_timer = true; picture = try_start starts c.picture }
    else record c {
      visible = false;
      watch_timer = false;
      text = if c.picture.started then connecting else c.text;
      picture = do_stop c.picture;
    }

-- What befalls the widget: a tick where its timer runs, a screen change, a frame and its job.
pub data Event : Type 0 where
  ticks : Seen → Event
  changes : Bool → Bool → Event
  frame : Pixels → Event
  drains : Event

unfoldable pub step : Event → Watch → Watch
unfolding watch_tick set_visible
step (ticks a) c = if c.watch_timer then watch_tick a c else c
step (changes starts vis) c = set_visible starts vis c
step (frame px) c = record c { picture = hand_over px c.picture }
step drains c = record c { picture = drain c.picture }

unfoldable pub run : List Event → Watch → Watch
run [] c = c
run (e ∷ es) c = run es (step e c)

-- The timer runs exactly on a visible screen, and only there a session is owned.
abbrev pub Tends : Watch → Type 0
Tends c = (c.watch_timer ≡ c.visible) × ((c.visible ≡ true) ⊎ (c.picture.started ≡ false))

show_pixels-started : (px : Pixels) (s : Picture) → (show_pixels px s).started ≡ s.started
show_pixels-started px s = ground arith

drain_at-started :
    (p : Post) (ps : List Post) (s : Picture)
    → (if s.alive && p.ep == s.epoch
        then show_pixels p.px (record s { queue = ps })
        else record s { queue = ps }).started
      ≡ s.started
drain_at-started p ps s =
    let same = show_pixels-started p.px (record s { queue = ps }) in ground arith

drain-started : (s : Picture) → (drain s).started ≡ s.started
drain-started s = by_queue s.queue
  where
    by_queue :
        (q : List Post)
        → (elim q as (λ x. Picture) [
          | [] ↦ s
          | p ∷ ps ↦
              let s' = record s { queue = ps } in
              if s.alive && p.ep == s.epoch then show_pixels p.px s' else s'
        ]).started
          ≡ s.started
    by_queue [] = refl
    by_queue (p ∷ ps) = drain_at-started p ps s

step-Tends : (e : Event) (c : Watch) → Tends c → Tends (step e c)
unfolding step
step-Tends (ticks a) c h = ground arith
step-Tends (changes starts vis) c h = ground arith
step-Tends (frame px) c h = ground arith
step-Tends drains c (timer, owned) = (timer, rw (drain-started c.picture) owned)

-- After every sequence of screen changes, ticks and frames the watch timer runs exactly while the
-- screen is visible, and a widget that is not visible owns no session of the client.
pub run-Tends : (es : List Event) (c : Watch) → Tends c → Tends (run es c)
unfolding run
run-Tends [] c h = h
run-Tends (e ∷ es) c h = run-Tends es (step e c) (step-Tends e c h)

-- Where the client was stopped by another hand, a tick gives up the session but not its pixels: the
-- image still refers to them while no session is owned, or the next one.
pub watch_tick-shown :
    (a : Seen) (c : Watch) (px : Pixels)
    → c.visible ≡ true
    → c.picture.started ≡ true
    → a.running ≡ false
    → shown c.picture ≡ some px
    → px.session ≡ c.picture.session
    → (shown (watch_tick a c).picture ≡ some px)
      × (((watch_tick a c).picture.started ≡ false)
          ⊎ ((watch_tick a c).picture.session ≡ px.session + 1))
unfolding watch_tick
watch_tick-shown a c px seen owned stopped on mine = ground arith

abbrev pub all_ticks : List Seen → List Event
all_ticks [] = []
all_ticks (a ∷ as') = ticks a ∷ all_ticks as'

-- A tick within two seconds after the time `t`.
abbrev pub Soon : ℕ → Seen → Type 0
Soon t b = (t ≤ b.at_voice) × (b.at_pause < t + 2000000)

record Busy (t : ℕ) (c : Watch) : Type 0 where
  seen : c.visible ≡ true
  timer : c.watch_timer ≡ true
  until : t + 2000000 ≤ c.voice_busy_until
  paused : c.paused ≡ true

tick-Busy : (t : ℕ) (a : Seen) (c : Watch) → Soon t a → Busy t c → Busy t (step (ticks a) c)
unfolding step
tick-Busy t a c soon h = ground arith

all_ticks-Busy :
    (t : ℕ) (as' : List Seen) (c : Watch)
    → All (Soon t) as'
    → Busy t c
    → Busy t (run (all_ticks as') c)
unfolding run
all_ticks-Busy t [] c soon h = h
all_ticks-Busy t (a ∷ as') c (now, later) h =
    all_ticks-Busy t as' (step (ticks a) c) later (tick-Busy t a c now h)

-- From a tick that finds the satellite listening or speaking the stream stays paused at every tick of
-- the next two seconds, whatever the voice does in between.
pub run-paused :
    (a : Seen) (as' : List Seen) (c : Watch)
    → c.visible ≡ true
    → c.watch_timer ≡ true
    → (a.vstate ≡ 2) ⊎ (a.vstate ≡ 3)
    → All (Soon a.at_voice) (a ∷ as')
    → (run (all_ticks (a ∷ as')) c).paused ≡ true
unfolding run step
run-paused a as' c seen timer voice (now, later) =
    let first : Busy a.at_voice (step (ticks a) c) = ground arith in
    (all_ticks-Busy a.at_voice as' (step (ticks a) c) later first).paused
