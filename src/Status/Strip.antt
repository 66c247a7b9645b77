-- ===== src/Status/Strip.antt =====
-- The strip and the content below it, and the badge of the microphone.
use espos_p4_cockpit.Prelude.{
  ℕ, ◌+◌, ◌≤◌, ◌<◌, ◌≡◌, refl, Bool, true, false, not, List, [], ◌∷◌, arith,
}
use espos_p4_cockpit.Status.{StatusOverlay, init_status, set_visible, MicOverlay, set_mic_visible}

-- Strip and content share the screen without a gap, and the strip takes its lines exactly while it is
-- visible.
pub record Shares (ver_res : ℕ) (s : StatusOverlay) : Type 0 where
  pub shown : s.strip_hidden ≡ not s.visible
  pub whole : s.content_y + s.content_h ≡ ver_res
  pub top : s.visible ≡ true → s.content_y ≡ 28
  pub full : s.visible ≡ false → s.content_y ≡ 0

set_visible-Shares :
    (ver_res : ℕ) (v : Bool) (s : StatusOverlay)
    → 28 ≤ ver_res
    → s.made ≡ true
    → Shares ver_res s
    → (set_visible ver_res v s).made ≡ true × Shares ver_res (set_visible ver_res v s)
unfolding set_visible
set_visible-Shares ver_res v s fits made h = ground arith

-- The strip after a list of wishes, one for each layout.
pub asked : ℕ → List Bool → StatusOverlay → StatusOverlay
asked ver_res [] s = s
asked ver_res (v ∷ vs) s = asked ver_res vs (set_visible ver_res v s)

asked-Shares :
    (ver_res : ℕ) (vs : List Bool) (s : StatusOverlay)
    → 28 ≤ ver_res
    → s.made ≡ true
    → Shares ver_res s
    → Shares ver_res (asked ver_res vs s)
unfolding asked
asked-Shares ver_res [] s fits made h = h
asked-Shares ver_res (v ∷ vs) s fits made h =
    let (made', h') = set_visible-Shares ver_res v s fits made h in
    asked-Shares ver_res vs (set_visible ver_res v s) fits made' h'

-- After init() and every sequence of layouts the strip and the content share the screen.
pub asked-init_status :
    (ver_res : ℕ) (vs : List Bool) (s : StatusOverlay)
    → 28 ≤ ver_res
    → s.visible ≡ true
    → Shares ver_res (asked ver_res vs (init_status ver_res s))
unfolding init_status
asked-init_status ver_res vs s fits shown =
    asked-Shares ver_res vs (init_status ver_res s) fits refl (ground arith)

-- The badge is there exactly while the satellite listens, and its ring is bright for the first ten of
-- every twenty polls.
pub record IsBadge (s : MicOverlay) : Type 0 where
  pub hidden : s.hidden ≡ not s.visible
  pub pulse : s.pulse < 20

set_mic_visible-IsBadge :
    (on : Bool) (s : MicOverlay)
    → IsBadge s
    → IsBadge (set_mic_visible on s) × ((set_mic_visible on s).visible ≡ on)
unfolding set_mic_visible
set_mic_visible-IsBadge on s h = ground arith
