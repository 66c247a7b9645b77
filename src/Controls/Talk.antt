-- ===== src/Controls/Talk.antt =====
-- The push-to-talk button of main/jlp/widgets/widget_factory.cpp, and its poll of the satellite.
use espos_p4_cockpit.Prelude.{
  ℕ, ◌≡◌, ◌⊎◌, inl, inr, refl, Bool, true, false, Option, none, some, List, [], ◌∷◌, ◌==◌,
  if◌then◌else◌, Bytes, codes,
}
use espos_p4_cockpit.Store.{Nvs}
use espos_p4_cockpit.Audio.{Satellite, VoiceControl, tell_satellite, set_ptt_held}

module _ (N : Nvs) where
  -- `VoiceCtx` with the voice control; `last` is none for its -1, `dimmed` is the opacity of the tile.
  pub record Talk : Type 0 where
    pub voice : VoiceControl N
    pub idle_text : Bytes
    pub idle_fg : ℕ
    pub last : Option ℕ
    pub text : Bytes
    pub fg : ℕ
    pub dimmed : Bool
    pub deleted : Bool

  abbrev pub is_last : ℕ → Option ℕ → Bool
  is_last s none = false
  is_last s (some l) = s == l

  -- The text and the colour for a state of the satellite; the bytes are those of an ellipsis.
  abbrev pub caption_of : ℕ → Talk → Bytes × ℕ
  caption_of s c =
      if s == 2
      then (codes "LISTENING", 0x33cc66)
      else if s == 0
      then (0xE2 ∷ 0x80 ∷ 0xA6 ∷ [], 0x888888)
      else (c.idle_text, c.idle_fg)

  unfoldable pub on_poll : ℕ → Talk → Talk
  on_poll s c =
      if is_last s c.last
      then c
      else record c { last = some s; text = (caption_of s c).0; fg = (caption_of s c).1 }

  pub data Event : Type 0 where
    pressed released press_lost deletes : Event
    polls : ℕ → Event

  unfoldable pub live : Event → Talk → Talk
  unfolding on_poll set_ptt_held
  live pressed c = record c { dimmed = true; voice = set_ptt_held N true c.voice }
  live released c = record c { dimmed = false; voice = set_ptt_held N false c.voice }
  live press_lost c = record c { dimmed = false; voice = set_ptt_held N false c.voice }
  live deletes c = record c { deleted = true; voice = set_ptt_held N false c.voice }
  live (polls s) c = on_poll s c

  -- Nothing reaches a widget that was deleted.
  unfoldable pub step : Event → Talk → Talk
  unfolding live
  step e c = if c.deleted then c else live e c

  unfoldable pub run : List Event → Talk → Talk
  unfolding step
  run [] c = c
  run (e ∷ es) c = run es (step e c)

  -- Whether the satellite holds the mic open for the button.
  abbrev pub holds : Option Satellite → Bool
  holds none = false
  holds (some s) = s.ptt_held

  -- A mic that is held open has a finger on a tile that is still there.
  abbrev pub IsHeldBy : Talk → Type 0
  IsHeldBy c = (holds c.voice.sat ≡ false) ⊎ ((c.dimmed ≡ true) × (c.deleted ≡ false))

  let_go : (v : VoiceControl N) → holds (set_ptt_held N false v).sat ≡ false
  unfolding set_ptt_held
  let_go v = go v.sat
    where
      go :
          (o : Option Satellite)
          → holds (tell_satellite N (λ k. record k { ptt_held = false }) o) ≡ false
      go none = refl
      go (some k) = refl

  if-IsHeldBy :
      (b : Bool) (x y : Talk)
      → IsHeldBy x
      → (b ≡ false → IsHeldBy y)
      → IsHeldBy (if b then x else y)
  if-IsHeldBy true x y h k = h
  if-IsHeldBy false x y h k = k refl

  on_poll-IsHeldBy : (s : ℕ) (c : Talk) → IsHeldBy c → IsHeldBy (on_poll s c)
  unfolding on_poll
  on_poll-IsHeldBy s c h = if-IsHeldBy (is_last s c.last) c _ h (λ e. h)

  live-IsHeldBy : (e : Event) (c : Talk) → c.deleted ≡ false → IsHeldBy c → IsHeldBy (live e c)
  unfolding live
  live-IsHeldBy pressed c here h = inr (refl, here)
  live-IsHeldBy released c here h = inl (let_go c.voice)
  live-IsHeldBy press_lost c here h = inl (let_go c.voice)
  live-IsHeldBy deletes c here h = inl (let_go c.voice)
  live-IsHeldBy (polls s) c here h = on_poll-IsHeldBy s c h

  step-IsHeldBy : (e : Event) (c : Talk) → IsHeldBy c → IsHeldBy (step e c)
  unfolding step
  step-IsHeldBy e c h = if-IsHeldBy c.deleted c (live e c) h (λ here. live-IsHeldBy e c here h)

  -- Whatever the touches, the polls and the deletion of the tile, the mic is held open only while a
  -- finger is on the button.
  pub run-IsHeldBy : (es : List Event) (c : Talk) → IsHeldBy c → IsHeldBy (run es c)
  unfolding run
  run-IsHeldBy [] c h = h
  run-IsHeldBy (e ∷ es) c h = run-IsHeldBy es (step e c) (step-IsHeldBy e c h)
