-- ===== src/Ui/Rotated.antt =====
-- The turned strip of components/cockpit_hal/src/ui.cpp shows the same picture upside down.
use espos_p4_cockpit.Prelude.{
  ℕ, zero, suc, ◌+◌, ◌-◌, ◌*◌, ◌/◌, ◌≤◌, ◌<◌, ◌≡◌, ◌≢◌, refl, ap, Bool-cases, inl, inr, ==_iff, ◌∙◌,
  Bool, true, false, List, [], ◌∷◌, ltb, leb, ◌==◌, ◌&&◌, ◌||◌, if◌then◌else◌, length, length-set,
  set, arith,
}
use native.Mathlib.Nat.{mul_comm, suc-mul, add-mul}
use espos_p4_cockpit.Ui.{at, swap_loop, Area, flush}

at-set :
    (xs : List ℕ) (i j a : ℕ) → i < length xs → at (set xs i a) j ≡ (if j == i then a else at xs j)
at-set [] i j a h = absurd (ground arith)
at-set (x ∷ xs) zero zero a h = refl
at-set (x ∷ xs) zero (suc j) a h = ground arith
at-set (x ∷ xs) (suc i) zero a h = ground arith
at-set (x ∷ xs) (suc i) (suc j) a h = ground (arith, at-set xs i j a (omega arith))

-- Whether pixel `j` has its new value after the rounds from `i` on.
abbrev moved : ℕ → ℕ → ℕ → ℕ → Bool
moved k i total j = (leb i j && ltb j (i + k)) || (leb (total - (i + k)) j && ltb j (total - i))

-- One round of the loop moves two pixels.
at-swap :
    (px : List ℕ) (i m j : ℕ)
    → i < length px
    → m < length px
    → at (set (set px i (at px m)) m (at px i)) j
      ≡ (if j == m then at px i else if j == i then at px m else at px j)
at-swap px i m j h k =
    at-set (set px i (at px m)) m j (at px i) (omega (arith, length-set px i (at px m)))
    ∙ ap (λ x. if j == m then at px i else x) (at-set px i j (at px m) h)

moved_first :
    (k i total j : ℕ)
    → 2 * (i + suc k) ≤ total
    → j ≡ i
    → (moved k (i + 1) total j ≡ false) × (moved (suc k) i total j ≡ true)
moved_first k i total j h e = (ground arith, ground arith)

moved_last :
    (k i total j : ℕ)
    → 2 * (i + suc k) ≤ total
    → j ≡ total - 1 - i
    → (moved k (i + 1) total j ≡ false) × (moved (suc k) i total j ≡ true)
moved_last k i total j h e = (ground arith, ground arith)

moved_other :
    (k i total j : ℕ)
    → 2 * (i + suc k) ≤ total
    → j < total
    → j ≢ i
    → j ≢ total - 1 - i
    → moved k (i + 1) total j ≡ moved (suc k) i total j
moved_other k i total j h l p q = ground arith

swap_loop_lem :
    (k i total : ℕ) (px : List ℕ) (j : ℕ)
    → length px ≡ total
    → 2 * (i + k) ≤ total
    → j < total
    → at (swap_loop k i total px) j ≡ (if moved k i total j then at px (total - 1 - j) else at px j)
unfolding swap_loop
swap_loop_lem zero i total px j e h l = ground arith
swap_loop_lem (suc k) i total px j e h l =
    let m = total - 1 - i in
    let n = total - 1 - j in
    let px₁ = set px i (at px m) in
    let px₂ = set px₁ m (at px i) in
    let size = length-set px₁ m (at px i) ∙ length-set px i (at px m) ∙ e in
    let ih = swap_loop_lem k (i + 1) total px₂ j size (omega arith) l in
    let after : (x : ℕ)
        → at px₂ x ≡ (if x == m then at px i else if x == i then at px m else at px x) =
      λ x. at-swap px i m x (omega arith) (omega arith) in
    elim (Bool-cases (j == i)) [
      | inl first ↦
          let (out, now) = moved_first k i total j h ((==_iff j i).0 first) in
          let other : (j == m) ≡ false = ground arith in
          let there : m ≡ n = ground arith in
          rw now ((rw out at ih) ∙ after j ∙ rw (other, first) (ap (at px) there))
      | inr not_first ↦ elim (Bool-cases (j == m)) [
        | inl last ↦
            let (out, now) = moved_last k i total j h ((==_iff j m).0 last) in
            let there : i ≡ n = ground arith in
            rw now ((rw out at ih) ∙ after j ∙ rw last (ap (at px) there))
        | inr not_last ↦
            let same = moved_other k i total j h l (ground arith) (ground arith) in
            let near : (n == m) ≡ false = ground arith in
            let far : (n == i) ≡ false = ground arith in
            let kept : at px₂ n ≡ at px n = after n ∙ rw (near, far) refl in
            let kept₂ : at px₂ j ≡ at px j = after j ∙ rw (not_last, not_first) refl in
            rw (← same) (rw (kept, kept₂) at ih)
      ]
    ]

reversed :
    (total j : ℕ) (px : List ℕ)
    → length px ≡ total
    → j < total
    → at (swap_loop (total / 2) 0 total px) j ≡ at px (total - 1 - j)
reversed total j px e l = elim (Bool-cases (moved (total / 2) 0 total j)) [
  | inl out ↦ rw out at (swap_loop_lem (total / 2) 0 total px j e (omega arith) l)
  | inr middle ↦
      let same : j ≡ total - 1 - j = ground arith in
      (rw middle at (swap_loop_lem (total / 2) 0 total px j e (omega arith) l)) ∙ ap (at px) same
]

-- The place opposite to column `c` of row `r` in a strip.
opposite :
    (w h c r : ℕ)
    → c < w
    → r < h
    → (w * h - 1 - ((h - 1 - r) * w + (w - 1 - c)) ≡ r * w + c)
      × ((h - 1 - r) * w + (w - 1 - c) < w * h)
opposite w h c r k l =
    let q = h - 1 - r in
    let whole : w * h ≡ r * w + q * w + w =
      mul_comm w h
      ∙ ap (λ x. x * w) {y = suc (r + q)} (omega arith)
      ∙ suc-mul (r + q) w
      ∙ ap (λ x. x + w) (add-mul r q w) in
    (omega (arith, whole), omega (arith, whole))

-- On a panel mounted upside down, a strip inside the display: the driver is given each pixel of the
-- strip once, at the place that is opposite to its own through the middle of the display.
pub flush-turned :
    (disp_w disp_h : ℕ) (area : Area) (px : List ℕ) (c r : ℕ)
    → area.x1 ≤ area.x2
    → area.y1 ≤ area.y2
    → area.x2 < disp_w
    → area.y2 < disp_h
    → let w = area.x2 + 1 - area.x1 in
      let h = area.y2 + 1 - area.y1 in
      let s = flush true disp_w disp_h area px in
      length px ≡ w * h
      → c < w
      → r < h
      → (at s.px ((h - 1 - r) * w + (w - 1 - c)) ≡ at px (r * w + c))
        × (s.x + (w - 1 - c) ≡ disp_w - 1 - (area.x1 + c))
        × (s.y + (h - 1 - r) ≡ disp_h - 1 - (area.y1 + r))
unfolding flush
flush-turned disp_w disp_h area px c r hx hy hw hh e hc hr =
    let w = area.x2 + 1 - area.x1 in
    let h = area.y2 + 1 - area.y1 in
    let (back, inside) = opposite w h c r hc hr in
    (
      reversed (w * h) ((h - 1 - r) * w + (w - 1 - c)) px e inside ∙ ap (at px) back,
      omega arith,
      omega arith,
    )
