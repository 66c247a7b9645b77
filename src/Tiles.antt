-- ===== src/Tiles.antt =====
-- The tiles of main/jlp/widgets/widget_factory.cpp that show a value: what they read of their
-- specification, and what their observers make of a value. `utf8` and `of_utf8` convert texts and bytes.
pub mod Tint
use espos_p4_cockpit.Prelude.{
  ℕ, ◌+◌, String, Bool, true, false, not, ◌&&◌, ◌||◌, Option, none, some, is_some, List, [], ◌∷◌,
  ◌++◌, ltb, leb, ◌==◌, ◌=s◌, if◌then◌else◌, or_else, take, Bytes, codes,
}
use espos_p4_cockpit.Json.{JsonLib}
use espos_p4_cockpit.Float.{FloatLib}
use espos_p4_cockpit.Theme.{ThemeColors, color_of}
use espos_p4_cockpit.Zones
use espos_p4_cockpit.Zones.{color_for_state, match, description}

-- The arithmetic of the target's float, the integers that the program casts, and how ArduinoJson reads a
-- number. `to_steps` is the cast of a number that is not negative; `print` is "%.*f".
pub record Arithmetic (F : FloatLib) (J : JsonLib) : Type 0 where
  pub add : F.Float → F.Float → F.Float
  pub sub : F.Float → F.Float → F.Float
  pub mul : F.Float → F.Float → F.Float
  pub div : F.Float → F.Float → F.Float
  pub zero : F.Float
  pub half : F.Float
  pub one : F.Float
  pub hundred : F.Float
  pub of_nat : ℕ → F.Float
  pub to_steps : F.Float → ℕ
  pub real : J.Json → Option F.Float
  pub print : ℕ → F.Float → Bytes

abbrev pub tile_bg_hex : ℕ
tile_bg_hex = 0x161b22

abbrev pub bar_steps : ℕ
bar_steps = 1000

pub record Colors : Type 0 where
  pub bg : ℕ
  pub fg : ℕ
  pub bg_explicit : Bool
  pub fg_explicit : Bool

-- A compiled font by its size.
unfoldable pub resolve_font : ℕ → ℕ → ℕ
resolve_font desired_px fallback =
    if leb desired_px 0
    then fallback
    else if leb 36 desired_px
    then 36
    else if leb 28 desired_px
    then 28
    else if leb 20 desired_px
    then 20
    else if leb 16 desired_px
    then 16
    else 14

-- What the observers write of a tile.
pub record Tile : Type 0 where
  pub text : Bytes
  pub unit_text : Bytes
  pub bg : ℕ
  pub indicator : ℕ
  pub steps : ℕ

module _ (F : FloatLib) (J : JsonLib) (A : Arithmetic F J) (utf8 : String → Bytes)
    (of_utf8 : Bytes → String) where
  open F use {Float, lt, le, eq}
  open J use {Json, is_null, member, text, number}
  open A use {add, sub, mul, div, zero, half, one, hundred, of_nat, to_steps, real, print}

  unfoldable pub parse_colors : ThemeColors → Json → Colors
  parse_colors theme spec =
      let bg = color_of J spec "bg_color" in
      let fg = color_of J spec "fg_color" in
      record {
        bg = or_else bg tile_bg_hex;
        fg = or_else fg theme.fg;
        bg_explicit = is_some bg;
        fg_explicit = is_some fg;
      }

  unfoldable pub font_from_spec : Json → ℕ → ℕ
  unfolding resolve_font
  font_from_spec spec fallback =
      let display = member spec "display" in
      if is_null display
      then fallback
      else resolve_font (or_else (number (member display "font_size")) 0) fallback

  pub record Disp : Type 0 where
    pub scale : Float
    pub offset : Float
    pub decimals : ℕ
    pub unit : Bytes
    pub path : String

  -- snprintf() into a buffer of one byte more.
  abbrev pub cut : ℕ → String → String
  cut room s = of_utf8 (take room (utf8 s))

  unfoldable pub parse_display : Json → Disp
  parse_display spec =
      let display = member spec "display" in
      let given = not (is_null display) in
      record {
        scale = if given then or_else (real (member display "scale")) one else one;
        offset = if given then or_else (real (member display "offset")) zero else zero;
        decimals = if given then or_else (number (member display "decimals")) 1 else 1;
        unit = if given then take 11 (utf8 (or_else (text (member display "unit")) "")) else [];
        path = cut 79 (or_else (text (member spec "bind")) "");
      }

  abbrev pub shown_value : Disp → Float → Float
  shown_value d raw = add (mul raw d.scale) d.offset

  unfoldable pub zone_color : String → Float → ℕ → Zones.Registry F → ℕ
  zone_color path raw fallback zs =
      if path =s ""
      then fallback
      else elim (match F path raw zs) [ none ↦ fallback | some z ↦ color_for_state z.state ]

  unfoldable pub scale_to_steps : Float → Float → Float → ℕ
  scale_to_steps v low high =
      let n = div (sub v low) (sub high low) in
      let n₁ = if lt n zero then zero else n in
      let n₂ = if lt one n₁ then one else n₁ in
      if le high low then 0 else to_steps (add (mul n₂ (of_nat bar_steps)) half)

  -- The observer of build_label(), where `valid` is whether the tile still exists.
  unfoldable pub label_observer :
      Disp → Colors → Bool → Bool → Float → Zones.Registry F → Tile → Tile
  unfolding zone_color
  label_observer d colors show_description valid raw zs t =
      let desc = description F d.path zs in
      let number_text = print d.decimals (shown_value d raw) ++ (codes " " ++ d.unit) in
      let wrote = show_description && not (desc =s "") in
      record t {
        text = if wrote then utf8 desc else number_text;
        bg = if valid then zone_color d.path raw colors.bg zs else t.bg;
      }

  unfoldable pub value_observer :
      Disp → Colors → Bool → Bool → Float → Zones.Registry F → Tile → Tile
  unfolding zone_color
  value_observer d colors unit_valid valid raw zs t = record t {
    text = print d.decimals (shown_value d raw);
    unit_text = if unit_valid then d.unit else t.unit_text;
    bg = if valid then zone_color d.path raw colors.bg zs else t.bg;
  }

  abbrev pub indicator_fallback : ThemeColors → Colors → ℕ
  indicator_fallback theme colors = if colors.fg_explicit then colors.fg else theme.accent

  -- The observers of build_arc() and build_bar(), which do the same to their widgets.
  unfoldable pub range_observer :
      ThemeColors → Disp → Float → Float → Colors → Float → Zones.Registry F → Tile → Tile
  unfolding zone_color scale_to_steps
  range_observer theme d low high colors raw zs t = record t {
    steps = scale_to_steps (shown_value d raw) low high;
    indicator = zone_color d.path raw (indicator_fallback theme colors) zs;
    text = print d.decimals (shown_value d raw) ++ (codes " " ++ d.unit);
  }

  -- The tile of build_toggle(), for the raw value of its subject.
  unfoldable pub toggle_observer : Disp → Colors → Float → Zones.Registry F → Tile → Tile
  unfolding zone_color
  toggle_observer d colors raw zs t = record t { bg = zone_color d.path raw colors.bg zs }

  -- The observer of build_slider().
  unfoldable pub slider_observer :
      ThemeColors → Disp → Float → Float → Colors → Bool → Float → Zones.Registry F → Tile → Tile
  unfolding zone_color scale_to_steps
  slider_observer theme d low high colors dragging raw zs t = if dragging then t else record t {
    steps = scale_to_steps (shown_value d raw) low high;
    indicator = zone_color d.path raw (indicator_fallback theme colors) zs;
  }

  -- What a release of the slider puts.
  unfoldable pub commit_slider : Disp → Float → Float → ℕ → Float
  commit_slider d low high steps =
      let span = sub high low in
      let part = if lt zero span then mul (div (of_nat steps) (of_nat bar_steps)) span else zero in
      let scale = if eq d.scale zero then one else d.scale in
      div (sub (add low part) d.offset) scale
