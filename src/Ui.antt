-- ===== src/Ui.antt =====
-- flush_cb() of components/cockpit_hal/src/ui.cpp: the strip of pixels that LVGL has drawn goes to the
-- display driver, turned for a panel that is mounted upside down.
pub mod Rotated
pub mod Timers
pub mod Handles
pub mod Firing
pub mod Queue
use espos_p4_cockpit.Prelude.{
  ℕ, zero, suc, ◌+◌, ◌-◌, ◌*◌, ◌/◌, ◌%◌, ◌^◌, Bool, true, false, not, List, [], ◌∷◌, ◌++◌, Option,
  none, some, ltb, ◌==◌, if◌then◌else◌, get_elem?, or_else, set,
}

-- `px[i]`, of a strip that is long enough.
abbrev pub at : List ℕ → ℕ → ℕ
at px i = or_else (get_elem? px i) 0

-- The loop that turns the strip, `k` rounds of it from `i` on.
unfoldable pub swap_loop : ℕ → ℕ → ℕ → List ℕ → List ℕ
swap_loop zero i total px = px
swap_loop (suc k) i total px =
    swap_loop k (i + 1) total (set (set px i (at px (total - 1 - i))) (total - 1 - i) (at px i))

pub record Area : Type 0 where
  pub x1 : ℕ
  pub y1 : ℕ
  pub x2 : ℕ
  pub y2 : ℕ

-- What the display driver is given: the corner, the size and the pixels.
pub record Strip : Type 0 where
  pub x : ℕ
  pub y : ℕ
  pub w : ℕ
  pub h : ℕ
  pub px : List ℕ

-- flush_cb() on a display of the given size; `turned` is COCKPIT_UI_ROTATE_180.
unfoldable pub flush : Bool → ℕ → ℕ → Area → List ℕ → Strip
unfolding swap_loop
flush turned disp_w disp_h area px =
    let w = area.x2 + 1 - area.x1 in
    let h = area.y2 + 1 - area.y1 in
    let total = w * h in
    if turned
    then record {
      x = disp_w - (area.x1 + w);
      y = disp_h - (area.y1 + h);
      w = w;
      h = h;
      px = swap_loop (total / 2) 0 total px;
    }
    else record { x = area.x1; y = area.y1; w = w; h = h; px = px }
