-- ===== src/Theme/Colors.antt =====
-- The colours that parse_hex_color() of main/jlp/widgets/widget_factory.cpp reads.
use espos_p4_cockpit.Prelude.{
  ℕ, ◌+◌, ◌*◌, ◌/◌, ◌%◌, ◌-◌, ◌<◌, ◌≡◌, ap, inl, inr, [], ◌∷◌, some, ltb, if◌then◌else◌, Bytes,
  arith, Option-cases,
}
use espos_p4_cockpit.Theme.{digit, digits, expand, parse_digits, parse_hex_color}

digit-bound : (c d : ℕ) → digit c ≡ some d → d < 16
unfolding digit
digit-bound c d e = ground arith

twice :
    (x y z : ℕ)
    → x < 16
    → y < 16
    → z < 16
    → expand (((0 * 16 + x) * 16 + y) * 16 + z)
      ≡ (((((0 * 16 + x) * 16 + x) * 16 + y) * 16 + y) * 16 + z) * 16 + z
unfolding expand
twice x y z hx hy hz = omega arith

-- Three digits are read as each of them twice, also where one of them is no digit.
parse_hex_color_short :
    (a b c : ℕ)
    → parse_hex_color (some (b'#' ∷ a ∷ b ∷ c ∷ []))
      ≡ parse_hex_color (some (b'#' ∷ a ∷ a ∷ b ∷ b ∷ c ∷ c ∷ []))
unfolding parse_hex_color parse_digits digits
parse_hex_color_short a b c = elim (Option-cases (digit a)) [
  | inl e ↦ ground arith
  | inr (x, e) ↦ elim (Option-cases (digit b)) [
    | inl f ↦ ground arith
    | inr (y, f) ↦ elim (Option-cases (digit c)) [
      | inl g ↦ ground arith
      | inr (z, g) ↦
          let x_small = digit-bound a x e in
          let y_small = digit-bound b y f in
          let z_small = digit-bound c z g in
          rw (e, e, f, f, g, g) (ap some (twice x y z x_small y_small z_small))
    ]
  ]
]

-- The hexadecimal digit of a number below 16.
abbrev hex : ℕ → ℕ
hex d = if ltb d 10 then b'0' + d else b'a' + (d - 10)

digit-hex : (d : ℕ) → d < 16 → digit (hex d) ≡ some d
unfolding digit
digit-hex d h = ground arith

-- A colour as the six digits of `#rrggbb`.
abbrev print : ℕ → Bytes
print v =
    b'#'
    ∷ hex (v / 1_048_576)
    ∷ hex ((v / 65_536) % 16)
    ∷ hex ((v / 4096) % 16)
    ∷ hex ((v / 256) % 16)
    ∷ hex ((v / 16) % 16)
    ∷ hex (v % 16)
    ∷ []

-- Every 24-bit colour, printed as six digits, is read back.
parse_hex_color-print : (v : ℕ) → v < 16_777_216 → parse_hex_color (some (print v)) ≡ some v
unfolding parse_hex_color parse_digits digits
parse_hex_color-print v h =
    rw
      (
        digit-hex (v / 1_048_576) (omega arith),
        digit-hex ((v / 65_536) % 16) (omega arith),
        digit-hex ((v / 4096) % 16) (omega arith),
        digit-hex ((v / 256) % 16) (omega arith),
        digit-hex ((v / 16) % 16) (omega arith),
        digit-hex (v % 16) (omega arith),
      )
      (ap some (omega arith))
