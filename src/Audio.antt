-- ===== src/Audio.antt =====
-- The chime and the panel's audio switches: main/jlp/audio/chime.cpp and voice_control.cpp, with the
-- settings that they keep in the store. The audio driver and the satellite are what they were last
-- told; the value of a sample is a parameter. Frequencies and amplitudes are in Hertz and percent.
pub mod Kept
pub mod Insistence
use espos_p4_cockpit.Prelude.{
  ℕ, zero, suc, ◌+◌, ◌*◌, ◌/◌, ◌%◌, ◌^◌, Bool, true, false, not, ◌&&◌, ◌||◌, List, [], ◌∷◌, ◌++◌,
  Option, none, some, ltb, if◌then◌else◌,
}
use espos_p4_cockpit.Notifications.{NotState, nominal, normal, alert, warn, alarm, emergency}
use espos_p4_cockpit.Store.{Nvs, Store, store_flag_get, store_flag_set, store_u8_get, store_u8_set}

-- A tone, or a rest where `hz` is zero.
pub record Seg : Type 0 where
  pub hz : ℕ
  pub ms : ℕ

abbrev pub tone : ℕ → ℕ → Seg
tone hz ms = record { hz = hz; ms = ms }

-- pattern_for(): the amplitude and the segments.
unfoldable pub pattern_for : NotState → ℕ × List Seg
pattern_for emergency =
    (85, tone 1100 90 ∷ tone 0 60 ∷ tone 1100 90 ∷ tone 0 60 ∷ tone 1100 90 ∷ [])
pattern_for alarm = (80, tone 880 150 ∷ tone 0 90 ∷ tone 880 150 ∷ [])
pattern_for warn = (65, tone 660 220 ∷ [])
pattern_for alert = (55, tone 540 180 ∷ [])
pattern_for normal = (0, [])
pattern_for nominal = (0, [])

-- The number of samples of a segment.
abbrev pub frames_of : ℕ → Seg → ℕ
frames_of rate seg = seg.ms * rate % 2 ^ 32 / 1000

module _ {V : Type 0} (sample : ℕ → ℕ → Seg → ℕ → V) where
  -- The loop of append_seg() over the samples, `k` of them to come from sample `i` on.
  unfoldable pub samples_from : ℕ → ℕ → Seg → ℕ → ℕ → List V
  samples_from rate amp seg zero i = []
  samples_from rate amp seg (suc k) i = sample rate amp seg i ∷ samples_from rate amp seg k (i + 1)

  unfoldable pub append_seg : List V → ℕ → Seg → ℕ → List V
  unfolding samples_from
  append_seg out rate seg amp = out ++ samples_from rate amp seg (frames_of rate seg) 0

  unfoldable pub append_all : List V → ℕ → List Seg → ℕ → List V
  unfolding append_seg
  append_all out rate [] amp = out
  append_all out rate (seg ∷ segs) amp = append_all (append_seg out rate seg amp) rate segs amp

  -- Chime::play(): what goes to the driver. `audio` is whether the driver is ready and its rate, if
  -- there is a driver.
  unfoldable pub play : NotState → Bool → Bool → Option (Bool × ℕ) → Option (List V)
  unfolding pattern_for append_all
  play state ignore_mute muted none = none
  play state ignore_mute muted (some (ready, rate)) =
      if (muted && not ignore_mute) || not ready
      then none
      else let (amp, segs) = pattern_for state in
        elim segs [ [] ↦ none | s ∷ ss ↦ some (append_all [] rate (s ∷ ss ++ tone 0 40 ∷ []) amp) ]

-- What the driver and the satellite were last told.
pub record Device : Type 0 where
  pub enabled : Bool
  pub volume : ℕ

pub record Satellite : Type 0 where
  pub ptt_held : Bool
  pub probe : Bool  -- whether the mic's samples may be read

module _ (N : Nvs) where
  pub record Chime : Type 0 where
    pub ready : Option (Bool × ℕ)
    pub muted : Bool

  -- Chime::init_voice() and Chime::set_muted().
  abbrev pub init_chime : Option (Bool × ℕ) → Store N → Chime
  init_chime audio s = record { ready = audio; muted = store_flag_get N "chime_muted" false s }

  abbrev pub mute_chime : Bool → Chime → Store N → Chime × Store N
  mute_chime m c s = (record c { muted = m }, (store_flag_set N "chime_muted" m s).1)

  pub record VoiceControl : Type 0 where
    pub sat : Option Satellite
    pub audio : Option Device
    pub speaker_muted : Bool
    pub mic_muted : Bool
    pub volume : ℕ

  abbrev pub tell_device : (Device → Device) → Option Device → Option Device
  tell_device f none = none
  tell_device f (some d) = some (f d)

  abbrev pub tell_satellite : (Satellite → Satellite) → Option Satellite → Option Satellite
  tell_satellite f none = none
  tell_satellite f (some s) = some (f s)

  -- VoiceControl::init_voice(); `volume` is the level before it.
  unfoldable pub init_voice : Option Satellite → Option Device → ℕ → Store N → VoiceControl
  init_voice sat audio volume s =
      let muted = store_flag_get N "spk_muted" false s in
      let stored = store_u8_get N "volume" volume s in
      let level = if ltb 100 stored then 100 else stored in
      record {
        sat = sat;
        audio = tell_device (λ d. record d { enabled = not muted; volume = level }) audio;
        speaker_muted = muted;
        mic_muted = store_flag_get N "mic_muted" false s;
        volume = level;
      }

  unfoldable pub set_ptt_held : Bool → VoiceControl → VoiceControl
  set_ptt_held held v =
      if held && v.mic_muted
      then v
      else record v { sat = tell_satellite (λ k. record k { ptt_held = held }) v.sat }

  unfoldable pub set_speaker_muted : Bool → VoiceControl → Store N → VoiceControl × Store N
  set_speaker_muted muted v s = (
    record v {
      speaker_muted = muted;
      audio = tell_device (λ d. record d { enabled = not muted }) v.audio;
    },
    (store_flag_set N "spk_muted" muted s).1,
  )

  unfoldable pub set_volume : ℕ → Bool → VoiceControl → Store N → VoiceControl × Store N
  set_volume pct persist v s =
      let level = if ltb 100 pct then 100 else pct in
      let v₁ = record v {
        volume = level;
        audio = tell_device (λ d. record d { volume = level }) v.audio;
      } in
      (v₁, if persist then (store_u8_set N "volume" level s).1 else s)

  unfoldable pub set_mic_muted : Bool → VoiceControl → Store N → VoiceControl × Store N
  set_mic_muted muted v s =
      let quiet = tell_satellite (λ k. record k { ptt_held = false; probe = false }) v.sat in
      (
        record v { mic_muted = muted; sat = if muted then quiet else v.sat },
        (store_flag_set N "mic_muted" muted s).1,
      )
