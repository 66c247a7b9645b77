-- ===== src/Audio/Insistence.antt =====
-- The tones of main/jlp/audio/chime.cpp grow with the severity, and no sound is played that a mute
-- forbids.
use espos_p4_cockpit.Prelude.{
  ℕ, ◌+◌, ◌≤◌, ◌<◌, ◌≡◌, ◌↔◌, ◌⊎◌, refl, Bool, true, false, List, [], ◌∷◌, none, some, ltb,
  if◌then◌else◌, arith,
}
use espos_p4_cockpit.Notifications.{NotState, rank}
use espos_p4_cockpit.Audio.{Seg, pattern_for, play}

-- How many tones there are, and the highest of them.
abbrev pub beeps : List Seg → ℕ
beeps [] = 0
beeps (s ∷ ss) = (if ltb 0 s.hz then 1 else 0) + beeps ss

-- A more severe notification has at least as many tones, at least as loud.
pub pattern_for_mono :
    (a b : NotState)
    → rank a ≤ rank b
    → ((pattern_for a).0 ≤ (pattern_for b).0) × (beeps (pattern_for a).1 ≤ beeps (pattern_for b).1)
unfolding pattern_for
pattern_for_mono a b h = ground arith

module _ {V : Type 0} (sample : ℕ → ℕ → Seg → ℕ → V) where
  -- The chime plays exactly where there is a driver, it is ready, the panel is not muted or the mute is
  -- to be ignored, and the state is alert or above.
  pub play_iff :
      (state : NotState) (ignore_mute muted : Bool) (ready : Bool) (rate : ℕ)
      → (play sample state ignore_mute muted none ≡ none)
        × ((play sample state ignore_mute muted (some (ready, rate)) ≡ none)
            ↔ (((muted ≡ true) × (ignore_mute ≡ false)) ⊎ ((ready ≡ false) ⊎ (rank state < 2))))
  unfolding play pattern_for
  play_iff state ignore_mute muted ready rate = (refl, (λ e. ground arith, λ e. ground arith))
