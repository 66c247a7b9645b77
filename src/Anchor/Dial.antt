-- ===== src/Anchor/Dial.antt =====
-- The anchor widget of main/jlp/widgets/widget_factory.cpp: what its dial shows of the last readings.
use espos_p4_cockpit.Prelude.{
  ℕ, ◌≡◌, ◌≢◌, ◌↔◌, String, Bool, true, false, not, ◌||◌, Option, some, ◌++◌, if◌then◌else◌, Bytes,
  codes, Bool-cases, inl, inr, arith,
}
use espos_p4_cockpit.Json.{JsonLib}
use espos_p4_cockpit.Float.{FloatLib}
use espos_p4_cockpit.Anchor.{Readings, Plot, anchor_ring_color}
use espos_p4_cockpit.Tiles.{Arithmetic, Disp, shown_value, bar_steps}

module _ (F : FloatLib) (P : Type 0) (m : Plot F P) (J : JsonLib) (A : Arithmetic F J)
    (utf8 : String → Bytes) (of_utf8 : Bytes → String) where
  open F use {Float, lt}
  open A use {zero, one, mul, div, of_nat, to_steps, print}

  -- The needle is the bearing that it points to.
  pub record Dial : Type 0 where
    pub needle_hidden : Bool
    pub needle : Option Float
    pub ring : ℕ
    pub ring_color : ℕ
    pub dist : Bytes
    pub caption : Bytes

  abbrev pub anchor_is_watching : Readings F → Bool
  anchor_is_watching a = a.state_on || lt zero a.max_m

  -- How far out of its limit the boat is, from 0 to 1.
  abbrev pub fraction : Readings F → Float
  fraction a =
      let frac = if lt zero a.max_m then div a.cur_m a.max_m else zero in
      let above = if lt frac zero then zero else frac in if lt one above then one else above

  unfoldable pub anchor_render : Disp F J A utf8 of_utf8 → ℕ → Readings F → Dial → Dial
  anchor_render d muted a dial =
      let text = λ (r : Float). print d.decimals (shown_value F J A utf8 of_utf8 d r) in
      if not (anchor_is_watching a)
      then record dial {
        needle_hidden = true;
        ring = 0;
        ring_color = muted;
        dist = codes "--";
        caption = codes "ANCHOR UP";
      }
      else record dial {
        needle_hidden = not a.have_bearing;
        needle = if a.have_bearing then some a.bearing_rad else dial.needle;
        ring = to_steps (mul (fraction a) (of_nat bar_steps));
        ring_color = if lt zero a.max_m then anchor_ring_color m a.cur_m a.max_m else muted;
        dist = text a.cur_m;
        caption =
            if lt zero a.max_m
            then codes "of " ++ (text a.max_m ++ (codes " " ++ d.unit))
            else d.unit;
      }

  red_iff :
      (has_max past near : Bool) (muted : ℕ)
      → muted ≢ 0xf85149
      → ((if has_max
            then (if past then 0xf85149 else if near then 0xd29922 else 0x3fb950)
            else muted)
          ≡ 0xf85149)
        ↔ ((has_max ≡ true) × (past ≡ true))
  red_iff has_max past near muted ne = ground arith

  shown_iff : (have : Bool) → ((not have) ≡ false) ↔ ((true ≡ true) × (have ≡ true))
  shown_iff have = ground arith

  up_iff :
      (state_on has_max past : Bool) (muted : ℕ)
      → muted ≢ 0xf85149
      → (state_on || has_max) ≡ false
      → (muted ≡ 0xf85149) ↔ ((has_max ≡ true) × (past ≡ true))
  up_iff state_on has_max past muted ne e = ground arith

  hidden_iff : (have : Bool) → (true ≡ false) ↔ ((false ≡ true) × (have ≡ true))
  hidden_iff have = ground arith

  -- The ring is red exactly where the boat is beyond a limit that is above 0, and the needle shows only
  -- where there is a bearing and a watch.
  anchor_render_lem :
      (d : Disp F J A utf8 of_utf8) (muted : ℕ) (a : Readings F) (dial : Dial)
      → muted ≢ 0xf85149
      → (((anchor_render d muted a dial).ring_color ≡ 0xf85149)
          ↔ ((lt zero a.max_m ≡ true) × (lt a.max_m a.cur_m ≡ true)))
        × (((anchor_render d muted a dial).needle_hidden ≡ false)
            ↔ ((anchor_is_watching a ≡ true) × (a.have_bearing ≡ true)))
  unfolding anchor_render
  anchor_render_lem d muted a dial ne = elim (Bool-cases (anchor_is_watching a)) [
    | inl e ↦ rw e (
      red_iff (lt zero a.max_m) (lt a.max_m a.cur_m) (F.le (m.minus a.max_m a.cur_m) m.warn_margin)
          muted ne,
      shown_iff a.have_bearing,
    )
    | inr e ↦
        let up = up_iff a.state_on (lt zero a.max_m) (lt a.max_m a.cur_m) muted ne e in
        rw e (up, hidden_iff a.have_bearing)
  ]
