-- ===== src/Theme.antt =====
-- The theme of main/jlp/widgets/widget_factory.cpp: the two process-wide default colours, and the
-- parser of colours written `#rgb` or `#rrggbb`. A shift by four is a product by 16, and the `|` of
-- disjoint bit fields is a sum.
pub mod Colors
use espos_p4_cockpit.Prelude.{
  ℕ, ◌+◌, ◌*◌, ◌/◌, ◌%◌, ◌-◌, String, Bool, not, ◌&&◌, ◌||◌, List, [], ◌∷◌, Option, none, some, leb,
  ◌==◌, if◌then◌else◌, or_else, length, Bytes, codes,
}
use espos_p4_cockpit.Json.{JsonLib}

unfoldable pub digit : ℕ → Option ℕ
digit c =
    if leb b'0' c && leb c b'9'
    then some (c - b'0')
    else if leb b'a' c && leb c b'f'
    then some (10 + c - b'a')
    else if leb b'A' c && leb c b'F'
    then some (10 + c - b'A')
    else none

-- The loop over the digits.
unfoldable pub digits : ℕ → Bytes → Option ℕ
unfolding digit
digits v [] = some v
digits v (c ∷ cs) = elim (digit c) [ none ↦ none | some d ↦ digits (v * 16 + d) cs ]

-- 0xRGB to 0xRRGGBB.
unfoldable pub expand : ℕ → ℕ
expand v =
    let r = (v / 256) % 16 in
    let g = (v / 16) % 16 in
    let b = v % 16 in r * 1_048_576 + r * 65_536 + g * 4096 + g * 256 + b * 16 + b

-- The part after the `#`.
unfoldable pub parse_digits : Bytes → Option ℕ
unfolding digits expand
parse_digits h =
    if not (length h == 3) && not (length h == 6)
    then none
    else elim (digits 0 h) [ none ↦ none | some v ↦ some (if length h == 3 then expand v else v) ]

-- `none` stands for false, which leaves *out alone.
unfoldable pub parse_hex_color : Option Bytes → Option ℕ
unfolding parse_digits
parse_hex_color none = none
parse_hex_color (some []) = none
parse_hex_color (some (c ∷ h)) = if c == b'#' then parse_digits h else none

pub record ThemeColors : Type 0 where
  pub fg : ℕ
  pub accent : ℕ

abbrev pub default_theme : ThemeColors
default_theme = record { fg = 0xe6edf3; accent = 0x58a6ff }

module _ (J : JsonLib) where
  open J use {Json, is_null, member, text}

  unfoldable pub color_of : Json → String → Option ℕ
  unfolding parse_hex_color
  color_of theme key =
      parse_hex_color (elim (text (member theme key)) [ none ↦ none | some s ↦ some (codes s) ])

  -- What apply_theme() makes of the globals, whatever they were.
  unfoldable pub apply_theme : Json → ThemeColors → ThemeColors
  unfolding color_of
  apply_theme theme old = if is_null theme then default_theme else record {
    fg = or_else (color_of theme "fg") default_theme.fg;
    accent = or_else (color_of theme "accent") default_theme.accent;
  }
