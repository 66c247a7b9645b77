-- ===== src/Tiles/Tint.antt =====
-- The colours of the tiles of main/jlp/widgets/widget_factory.cpp.
use espos_p4_cockpit.Prelude.{
  ℕ, ◌≤◌, ◌<◌, ◌≡◌, ◌≢◌, refl, sym, ap, ◌∙◌, String, Bool, true, false, Option, none, some, [],
  ◌=s◌, str_iff, if◌then◌else◌, or_else, take, take_all, length, length-take, Bytes, Bool-cases,
  inl, inr, arith,
}
use espos_p4_cockpit.Prelude.Dict.{lookup}
use espos_p4_cockpit.Json.{JsonLib}
use espos_p4_cockpit.Float.{FloatLib}
use espos_p4_cockpit.Theme.{ThemeColors}
use espos_p4_cockpit.Zones
use espos_p4_cockpit.Zones.{color_for_state, match}
use espos_p4_cockpit.Tiles.{
  Arithmetic, Colors, Tile, Disp, cut, parse_display, zone_color, label_observer, value_observer,
  indicator_fallback, range_observer, toggle_observer, slider_observer,
}

module _ (F : FloatLib) (J : JsonLib) (A : Arithmetic F J) (utf8 : String → Bytes)
    (of_utf8 : Bytes → String) where
  open F use {Float}
  open J use {Json, member, text}

  zone_color-match :
      (path : String) (raw : Float) (fallback : ℕ) (zs : Zones.Registry F)
      (o : Option (Zones.Zone F))
      → (path =s "") ≡ false
      → match F path raw zs ≡ o
      → zone_color F J A utf8 of_utf8 path raw fallback zs
        ≡ elim o [ none ↦ fallback | some z ↦ color_for_state z.state ]
  unfolding zone_color
  zone_color-match path raw fallback zs o given e =
      rw given
        (ap (λ q. elim q as (λ x. ℕ) [ none ↦ fallback | some z ↦ color_for_state z.state ]) e)

  -- The colours that a value leaves on a label, a value tile, a toggle, an arc or bar, and a slider
  -- that no finger holds.
  pub record Tints (theme : ThemeColors) (d : Disp F J A utf8 of_utf8) (low high : Float)
      (colors : Colors) (described : Bool) (raw : Float) (zs : Zones.Registry F) (t : Tile)
      (bg indicator : ℕ) : Type 0 where
    pub label : (label_observer F J A utf8 of_utf8 d colors described true raw zs t).bg ≡ bg
    pub value : (value_observer F J A utf8 of_utf8 d colors true true raw zs t).bg ≡ bg
    pub toggle : (toggle_observer F J A utf8 of_utf8 d colors raw zs t).bg ≡ bg
    pub range :
        (range_observer F J A utf8 of_utf8 theme d low high colors raw zs t).indicator ≡ indicator
    pub slider :
        (slider_observer F J A utf8 of_utf8 theme d low high colors false raw zs t).indicator
        ≡ indicator

  observers-Tints :
      (theme : ThemeColors) (d : Disp F J A utf8 of_utf8) (low high : Float) (colors : Colors)
      (described : Bool) (raw : Float) (zs : Zones.Registry F) (t : Tile)
      (o : Option (Zones.Zone F))
      → (d.path =s "") ≡ false
      → match F d.path raw zs ≡ o
      → Tints theme d low high colors described raw zs t
          (elim o [ none ↦ colors.bg | some z ↦ color_for_state z.state ])
          (elim o [
            | none ↦ indicator_fallback F J A utf8 of_utf8 theme colors
            | some z ↦ color_for_state z.state
          ])
  unfolding label_observer value_observer toggle_observer range_observer slider_observer
  observers-Tints theme d low high colors described raw zs t o given e =
      let bg = zone_color-match d.path raw colors.bg zs o given e in
      let ring =
        zone_color-match d.path raw (indicator_fallback F J A utf8 of_utf8 theme colors) zs o given
          e in
      record { label = bg; value = bg; toggle = bg; range = ring; slider = ring }

  parse_display-path :
      (spec : Json) (path : String)
      → text (member spec "bind") ≡ some path
      → (parse_display F J A utf8 of_utf8 spec).path ≡ cut F J A utf8 of_utf8 79 path
  unfolding parse_display
  parse_display-path spec path e = ap (λ o. of_utf8 (take 79 (utf8 (or_else o "")))) e

  cut_short :
      (path : String)
      → length (utf8 path) ≤ 79
      → of_utf8 (utf8 path) ≡ path
      → cut F J A utf8 of_utf8 79 path ≡ path
  cut_short path few back = ap of_utf8 (take_all 79 (utf8 path) few) ∙ back

  -- A value in a zone of a path of at most 79 bytes gives every tile that is bound to the path the colour
  -- of that zone, whatever its specification says of colours, scale, offset and description.
  parse_display-Tints :
      (theme : ThemeColors) (spec : Json) (path : String) (low high : Float) (colors : Colors)
      (described : Bool) (raw : Float) (zs : Zones.Registry F) (t : Tile) (z : Zones.Zone F)
      → text (member spec "bind") ≡ some path
      → (path =s "") ≡ false
      → length (utf8 path) ≤ 79
      → of_utf8 (utf8 path) ≡ path
      → match F path raw zs ≡ some z
      → Tints theme
          (parse_display F J A utf8 of_utf8 spec)
          low
          high
          colors
          described
          raw
          zs
          t
          (color_for_state z.state)
          (color_for_state z.state)
  parse_display-Tints theme spec path low high colors described raw zs t z bind given few back e =
      let d = parse_display F J A utf8 of_utf8 spec in
      let same : d.path ≡ path = parse_display-path spec path bind ∙ cut_short path few back in
      observers-Tints theme d low high colors described raw zs t (some z)
        (ap (λ p. p =s "") same ∙ given) (ap (λ p. match F p raw zs) same ∙ e)

  match-none :
      (path : String) (raw : Float) (zs : Zones.Registry F)
      → lookup path zs.zones ≡ none
      → match F path raw zs ≡ none
  unfolding match
  match-none path raw zs e = rw (match, e) refl

  -- A text that keeps its bytes and has one is not the empty one.
  cut_given :
      (path : String)
      → 79 < length (utf8 path)
      → utf8 "" ≡ []
      → utf8 (of_utf8 (take 79 (utf8 path))) ≡ take 79 (utf8 path)
      → (of_utf8 (take 79 (utf8 path)) =s "") ≡ false
  cut_given path long blank whole =
      let kept = of_utf8 (take 79 (utf8 path)) in
      elim (Bool-cases (kept =s "")) [
        | inr e ↦ e
        | inl e ↦
            let void : take 79 (utf8 path) ≡ [] =
              sym whole ∙ ap utf8 ((str_iff kept "").0 e) ∙ blank in
            let room : length (take 79 (utf8 path)) ≡ 79 =
              length-take 79 (utf8 path) (omega (arith, long)) in
            let nothing : length (take 79 (utf8 path)) ≡ 0 = ap length void in
            absurd (omega (arith, room, nothing))
      ]

  -- Two paths with a value in a zone: one of at most 79 bytes, and a longer one. Every tile that is bound
  -- to the first takes the colour of its zone, whatever its specification says of colours, scale, offset
  -- and description. Of the longer path a tile keeps the first 79 bytes, which are another path; where
  -- the registry has no zones for that one, every tile that is bound to the longer path shows the colour
  -- that it has without zones.
  pub parse_display-Tints_long :
      (theme : ThemeColors) (spec longer : Json) (path long : String) (low high : Float)
      (colors : Colors) (described : Bool) (raw : Float) (zs : Zones.Registry F) (t : Tile)
      (y z : Zones.Zone F)
      → text (member spec "bind") ≡ some path
      → text (member longer "bind") ≡ some long
      → (path =s "") ≡ false
      → length (utf8 path) ≤ 79
      → 79 < length (utf8 long)
      → match F path raw zs ≡ some y
      → match F long raw zs ≡ some z
      → utf8 "" ≡ []
      → of_utf8 (utf8 path) ≡ path
      → utf8 (of_utf8 (take 79 (utf8 long))) ≡ take 79 (utf8 long)
      → lookup (of_utf8 (take 79 (utf8 long))) zs.zones ≡ none
      → Tints theme
          (parse_display F J A utf8 of_utf8 spec)
          low
          high
          colors
          described
          raw
          zs
          t
          (color_for_state y.state)
          (color_for_state y.state)
        × Tints theme
            (parse_display F J A utf8 of_utf8 longer)
            low
            high
            colors
            described
            raw
            zs
            t
            colors.bg
            (if colors.fg_explicit then colors.fg else theme.accent)
        × ((parse_display F J A utf8 of_utf8 longer).path ≢ long)
  parse_display-Tints_long theme spec longer path long low high colors described raw zs t y z bind
        bound given few many e found blank back whole unknown =
      let d = parse_display F J A utf8 of_utf8 longer in
      let same = parse_display-path longer long bound in
      let missed = match-none (of_utf8 (take 79 (utf8 long))) raw zs unknown in
      (
        parse_display-Tints theme spec path low high colors described raw zs t y bind given few back
            e,
        observers-Tints theme d low high colors described raw zs t none
            (ap (λ p. p =s "") same ∙ cut_given long many blank whole)
            (ap (λ p. match F p raw zs) same ∙ missed),
        λ other.
            let nothing : match F long raw zs ≡ none =
              ap (λ p. match F p raw zs) (sym other ∙ same) ∙ missed in
            absurd (cc),
      )
