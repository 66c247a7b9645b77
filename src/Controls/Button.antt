-- ===== src/Controls/Button.antt =====
-- The button of main/jlp/widgets/widget_factory.cpp, from the press to the release.
use espos_p4_cockpit.Prelude.{
  ℕ, ◌≡◌, refl, sym, ap, ◌∙◌, String, Bool, true, false, ◌||◌, List, [], ◌∷◌, ◌++◌, ◌==◌,
  if◌then◌else◌,
}
use mathlib.Core.List.{append_assoc, append-nil}
use espos_p4_cockpit.Json.{JsonLib}
use espos_p4_cockpit.Fetch.{Numbers}
use espos_p4_cockpit.Controls.{Sent, button_fire}

module _ (J : JsonLib) (V : Numbers J) where
  -- `ButtonCtx`, with whether the tile is dimmed and what was sent.
  pub record Button : Type 0 where
    pub path : String
    pub press_json : String
    pub release_json : String
    pub hold_ms : ℕ
    pub hold_timer : Bool
    pub press_fired : Bool
    pub dimmed : Bool
    pub sent : List (Sent J V)

  abbrev pub fires : Bool → Button → List (Sent J V)
  fires is_press c =
      button_fire J V c.path (if is_press then c.press_json else c.release_json) is_press

  -- `now` is whether there is no hold time.
  unfoldable pub pressed : Bool → Button → Button
  pressed true c = record c { dimmed = true; press_fired = true; sent = c.sent ++ fires true c }
  pressed false c = record c { dimmed = true; press_fired = false; hold_timer = true }

  unfoldable pub on_pressed : Button → Button
  unfolding pressed
  on_pressed c = pressed (c.hold_ms == 0) c

  -- The hold timer, which runs once.
  unfoldable pub on_held : Button → Button
  on_held c =
      if c.hold_timer
      then record c { press_fired = true; hold_timer = false; sent = c.sent ++ fires true c }
      else c

  unfoldable pub on_released : Button → Button
  on_released c =
      if c.hold_timer
      then record c { dimmed = false; hold_timer = false }
      else if c.press_fired
      then record c { dimmed = false; sent = c.sent ++ fires false c }
      else record c { dimmed = false }

  unfoldable pub on_press_lost : Button → Button
  on_press_lost c = record c { dimmed = false; hold_timer = false }

  -- How LVGL reports a touch: it goes down, may stay until the hold timer has run, and is lifted over
  -- the tile or slides off it.
  pub record Touch : Type 0 where
    pub long : Bool
    pub lifted : Bool

  unfoldable pub after_press : Touch → Button → Button
  unfolding on_held on_released on_press_lost
  after_press t c =
      let held = if t.long then on_held c else c in
      if t.lifted then on_released held else on_press_lost held

  unfoldable pub touch : Touch → Button → Button
  unfolding on_pressed after_press
  touch t c = after_press t (on_pressed c)

  unfoldable pub touches : List Touch → Button → Button
  touches [] c = c
  touches (t ∷ ts) c = touches ts (touch t c)

  -- The requests of a touch: none where it is shorter than the hold time.
  abbrev pub asked : Bool → Touch → Button → List (Sent J V)
  asked now t c =
      if now || t.long then fires true c ++ (if t.lifted then fires false c else []) else []

  pub asked_all : List Touch → Button → List (Sent J V)
  asked_all [] c = []
  asked_all (t ∷ ts) c = asked (c.hold_ms == 0) t c ++ asked_all ts c

  -- What a touch leaves of a button whose timer is not pending.
  record Touched (now : Bool) (t : Touch) (c d : Button) : Type 0 where
    sent : d.sent ≡ c.sent ++ asked now t c
    idle : d.hold_timer ≡ false
    path : d.path ≡ c.path
    press : d.press_json ≡ c.press_json
    release : d.release_json ≡ c.release_json
    hold : d.hold_ms ≡ c.hold_ms

  after_press-Touched :
      (now long lifted : Bool) (c : Button)
      → c.hold_timer ≡ false
      → let t : Touch = record { long = long; lifted = lifted } in
        Touched now t c (after_press t (pressed now c))
  unfolding after_press pressed on_held on_released on_press_lost
  after_press-Touched true true true c idle = simp idle (record {
    sent = append_assoc c.sent (fires true c) (fires false c);
    idle = refl;
    path = refl;
    press = refl;
    release = refl;
    hold = refl;
  })
  after_press-Touched true true false c idle = simp idle (record {
    sent = ap (λ xs. c.sent ++ xs) (sym (append-nil (fires true c)));
    idle = refl;
    path = refl;
    press = refl;
    release = refl;
    hold = refl;
  })
  after_press-Touched true false true c idle = simp idle (record {
    sent = append_assoc c.sent (fires true c) (fires false c);
    idle = refl;
    path = refl;
    press = refl;
    release = refl;
    hold = refl;
  })
  after_press-Touched true false false c idle = record {
    sent = ap (λ xs. c.sent ++ xs) (sym (append-nil (fires true c)));
    idle = refl;
    path = refl;
    press = refl;
    release = refl;
    hold = refl;
  }
  after_press-Touched false true true c idle = record {
    sent = append_assoc c.sent (fires true c) (fires false c);
    idle = refl;
    path = refl;
    press = refl;
    release = refl;
    hold = refl;
  }
  after_press-Touched false true false c idle = record {
    sent = ap (λ xs. c.sent ++ xs) (sym (append-nil (fires true c)));
    idle = refl;
    path = refl;
    press = refl;
    release = refl;
    hold = refl;
  }
  after_press-Touched false false true c idle = record {
    sent = sym (append-nil c.sent);
    idle = refl;
    path = refl;
    press = refl;
    release = refl;
    hold = refl;
  }
  after_press-Touched false false false c idle = record {
    sent = sym (append-nil c.sent);
    idle = refl;
    path = refl;
    press = refl;
    release = refl;
    hold = refl;
  }

  asked_all-Touched :
      (now : Bool) (t : Touch) (ts : List Touch) (c d : Button)
      → Touched now t c d
      → asked_all ts d ≡ asked_all ts c
  unfolding asked_all
  asked_all-Touched now t [] c d h = refl
  asked_all-Touched now t (u ∷ ts) c d h =
      let first : asked (d.hold_ms == 0) u d ≡ asked (c.hold_ms == 0) u c = cc in
      let later = asked_all-Touched now t ts c d h in cc

  -- Where every touch begins with no timer pending, a button sends for each touch that lasts the hold
  -- time its press value and, where the finger is lifted over it, its release value. A touch that slides
  -- off the tile never sends the release value.
  pub touches-sent :
      (ts : List Touch) (c : Button)
      → c.hold_timer ≡ false
      → (touches ts c).sent ≡ c.sent ++ asked_all ts c
  unfolding touches touch asked_all
  touches-sent [] c idle = sym (append-nil c.sent)
  touches-sent (t ∷ ts) c idle =
      let now = c.hold_ms == 0 in
      let d = after_press t (pressed now c) in
      let h : Touched now t c d = after_press-Touched now t.long t.lifted c idle in
      touches-sent ts d h.idle
      ∙ ap (λ xs. xs ++ asked_all ts d) h.sent
      ∙ append_assoc c.sent (asked now t c) (asked_all ts d)
      ∙ ap (λ xs. c.sent ++ (asked now t c ++ xs)) (asked_all-Touched now t ts c d h)
