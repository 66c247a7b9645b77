-- ===== src/Anchor/Bands.antt =====
-- The five lines of an anchor track together (`anchor_track_redraw`).
use espos_p4_cockpit.Prelude.{ℕ, zero, suc, ◌+◌, ◌*◌, ◌/◌, ◌≤◌, ◌<◌, ◌≡◌, ◌⊎◌, inl, inr, arith}
use espos_p4_cockpit.Anchor.{band_lo, band_len}

-- The line of the band `b` draws the step from the point `i` to the next one.
abbrev pub Draws : ℕ → ℕ → ℕ → Type 0
Draws n i b = (2 ≤ band_len n b) × (band_lo n b ≤ i) × (i + 2 ≤ band_lo n b + band_len n b)

Draws-slice : (n i b : ℕ) → Draws n i b → (b * n / 5 ≤ i + 1) × (i + 1 < (b + 1) * n / 5)
Draws-slice n i b (two, from, to) = (omega arith, omega arith)

slice-Draws : (n i b : ℕ) → b * n / 5 ≤ i + 1 → i + 1 < (b + 1) * n / 5 → Draws n i b
slice-Draws n i b from to = (omega arith, omega arith, omega arith)

lt_or_le : (a b : ℕ) → (a < b) ⊎ (b ≤ a)
lt_or_le a b = ground arith

mul_le : (a b n : ℕ) → a ≤ b → a * n ≤ b * n
mul_le zero b n h = omega arith
mul_le (suc a) zero n h = absurd (omega arith)
mul_le (suc a) (suc b) n h = omega (arith, mul_le a b n (omega arith))

slice_unique :
    (n j b b' : ℕ)
    → b * n / 5 ≤ j
    → j < (b + 1) * n / 5
    → b' * n / 5 ≤ j
    → j < (b' + 1) * n / 5
    → b' ≤ b
slice_unique n j b b' from to from' to' = elim (lt_or_le b b') [
  | inl lt ↦ omega (arith, mul_le (b + 1) b' n (omega arith))
  | inr le ↦ le
]

slice : (n j : ℕ) → j < n → (b : ℕ) × (b < 5) × (b * n / 5 ≤ j) × (j < (b + 1) * n / 5)
slice n j h = elim (lt_or_le j (n / 5)) [
  | inl a ↦ (0, omega arith, omega arith, omega arith)
  | inr a ↦ elim (lt_or_le j (2 * n / 5)) [
    | inl b ↦ (1, omega arith, omega arith, omega arith)
    | inr b ↦ elim (lt_or_le j (3 * n / 5)) [
      | inl c ↦ (2, omega arith, omega arith, omega arith)
      | inr c ↦ elim (lt_or_le j (4 * n / 5)) [
        | inl d ↦ (3, omega arith, omega arith, omega arith)
        | inr d ↦ (4, omega arith, omega arith, omega arith)
      ]
    ]
  ]
]

-- Of a track of `n` points each step from one point to the next is drawn by one line of the five, and
-- by no other.
bands_lem :
    (n i : ℕ)
    → i + 1 < n
    → (b : ℕ) × (b < 5) × Draws n i b × ((b' : ℕ) → b' < 5 → Draws n i b' → b' ≡ b)
bands_lem n i h =
    let (b, lt, from, to) = slice n (i + 1) h in
    (
      b,
      lt,
      slice-Draws n i b from to,
      λ b' lt' d.
          let (from', to') = Draws-slice n i b' d in
          omega (
            arith,
            slice_unique n (i + 1) b b' from to from' to',
            slice_unique n (i + 1) b' b from' to' from to,
          ),
    )
