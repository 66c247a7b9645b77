-- ===== src/Audio/Kept.antt =====
-- What the audio switches of main/jlp/audio/voice_control.cpp keep over a restart.
use espos_p4_cockpit.Prelude.{
  ℕ, ◌≤◌, ◌≡◌, Bool, true, false, not, Option, none, some, List, [], ◌∷◌, arith,
}
use espos_p4_cockpit.Store.{Nvs, Store, is_ok, store_flag_set}
use espos_p4_cockpit.Store.RoundTrip.{IsReliable, store_flag_get-store_flag_set}
use espos_p4_cockpit.Audio.{
  Device, Satellite, VoiceControl, init_voice, set_ptt_held, set_speaker_muted, set_volume,
  set_mic_muted,
}

module _ (N : Nvs) where
  abbrev pub Follows : ℕ → Bool → Option Device → Type 0
  Follows volume muted none = Unit
  Follows volume muted (some d) = (d.volume ≡ volume) × (d.enabled ≡ not muted)

  abbrev pub IsReleased : Bool → Option Satellite → Type 0
  IsReleased muted none = Unit
  IsReleased muted (some k) = muted ≡ true → k.ptt_held ≡ false

  -- The driver plays at the level of the panel, and is enabled exactly where the speaker is not
  -- muted; the level is a percentage; a muted mic is not held open.
  abbrev pub IsApplied : VoiceControl N → Type 0
  IsApplied v =
      (v.volume ≤ 100) × Follows v.volume v.speaker_muted v.audio × IsReleased v.mic_muted v.sat

  pub data Event : Type 0 where
    held : Bool → Event
    speaker_muted : Bool → Event
    mic_muted : Bool → Event
    turned : ℕ → Bool → Event

  pub step : Event → VoiceControl N × Store N → VoiceControl N × Store N
  step (held h) (v, s) = (set_ptt_held N h v, s)
  step (speaker_muted m) (v, s) = set_speaker_muted N m v s
  step (mic_muted m) (v, s) = set_mic_muted N m v s
  step (turned pct persist) (v, s) = set_volume N pct persist v s

  pub run : List Event → VoiceControl N × Store N → VoiceControl N × Store N
  run [] w = w
  run (e ∷ es) w = run es (step e w)

  step-IsApplied :
      (e : Event) (v : VoiceControl N) (s : Store N) → IsApplied v → IsApplied (step e (v, s)).0
  unfolding step set_ptt_held set_speaker_muted set_volume set_mic_muted
  step-IsApplied (held h) v s a = ground arith
  step-IsApplied (speaker_muted m) v s a = ground arith
  step-IsApplied (mic_muted m) v s a = ground arith
  step-IsApplied (turned pct persist) v s a = ground arith

  -- Whatever the switches are set to, in any order: the level is at most 100, the driver is at the
  -- panel's level and enabled exactly where the speaker is not muted, and a muted microphone is not
  -- held open.
  pub run-IsApplied :
      (es : List Event) (v : VoiceControl N) (s : Store N)
      → IsApplied v
      → IsApplied (run es (v, s)).0
  unfolding run
  run-IsApplied [] v s a = a
  run-IsApplied (e ∷ es) v s a =
      let (v', s') = step e (v, s) in run-IsApplied es v' s' (step-IsApplied e v s a)

  -- init_voice() brings the panel into that state, whatever the store holds, where the button is not held.
  init_voice-IsApplied :
      (sat : Option Satellite) (audio : Option Device) (volume : ℕ) (s : Store N)
      → IsReleased true sat
      → IsApplied (init_voice N sat audio volume s)
  unfolding init_voice
  init_voice-IsApplied sat audio volume s h = ground arith

  -- After the bring-up from any store, with any driver and a satellite whose button is not held, and
  -- whatever the switches are then set to: the level is at most 100, the driver is at the panel's level
  -- and enabled exactly where the speaker is not muted, and a muted microphone is not held open.
  pub run-init_voice :
      (es : List Event) (sat : Option Satellite) (audio : Option Device) (volume : ℕ) (s : Store N)
      → IsReleased true sat
      → IsApplied (run es (init_voice N sat audio volume s, s)).0
  run-init_voice es sat audio volume s h =
      run-IsApplied es (init_voice N sat audio volume s) s
        (init_voice-IsApplied sat audio volume s h)

module _ (N : Nvs) (R : IsReliable N) where
  -- Over a store that keeps what it is given: a mute of the speaker or of the microphone that was
  -- written is the one that the next start restores, and the driver is then enabled accordingly.
  init_voice-set_muted :
      (m : Bool) (v : VoiceControl N) (sat : Option Satellite) (audio : Option Device) (volume : ℕ)
      (s : Store N)
      → (store_flag_set N "spk_muted" m s).0 ≡ true
      → is_ok (N.open_ro (store_flag_set N "spk_muted" m s).1.nvs).0 ≡ true
      → (store_flag_set N "mic_muted" m s).0 ≡ true
      → is_ok (N.open_ro (store_flag_set N "mic_muted" m s).1.nvs).0 ≡ true
      → ((init_voice N sat audio volume (set_speaker_muted N m v s).1).speaker_muted ≡ m)
        × ((init_voice N sat audio volume (set_mic_muted N m v s).1).mic_muted ≡ m)
  unfolding init_voice set_speaker_muted set_mic_muted
  init_voice-set_muted m v sat audio volume s h o h₂ o₂ = (
    store_flag_get-store_flag_set N R "spk_muted" m false s h o,
    store_flag_get-store_flag_set N R "mic_muted" m false s h₂ o₂,
  )
