-- ===== src/Tests/Swing.antt =====
-- Runs of the theorems on the anchor track, the stream widget and the notifications widget.
use espos_p4_cockpit.Prelude.{
  ℕ, ◌+◌, ◌≡◌, refl, true, false, List, [], ◌∷◌, some, map, ltb, replicate, arith,
}
use espos_p4_cockpit.Anchor.{Plot, Readings, Reading, state, bearing, current, limit, ordered, run}
use espos_p4_cockpit.Anchor.Trail.{trail_after, run-trail}
use espos_p4_cockpit.Picture
use espos_p4_cockpit.Picture.{Pixels, starts, frame, drains, stops, step, shown}
use espos_p4_cockpit.Picture.Sessions.{blank, run-shown, late-shown}
use espos_p4_cockpit.Rows.{ListCtx}
use espos_p4_cockpit.Tests.Sample.{naturals}

-- Points are the sums of a bearing and a radius, near where they are equal or less than two apart.
abbrev plot : Plot naturals ℕ
plot = record {
  none_f = 0;
  warn_margin = 3;
  minus = λ x y. x;
  xy = λ b r top. b + r;
  near = λ p q. ltb p (q + 2);
}

abbrev unread : Readings naturals
unread = record { state_on = false; have_bearing = false; bearing_rad = 0; cur_m = 0; max_m = 0 }

abbrev swing : List (Reading plot)
swing = state true ∷ limit 30 ∷ bearing 10 ∷ current 1 ∷ current 5 ∷ bearing 40 ∷ []

run-trail_example :
    ordered (run plot swing unread (record { band_pts = replicate 256 0; head = 0; count = 0 })).1
    ≡ map some (trail_after plot swing unread [])
run-trail_example = run-trail plot (replicate 256 0) unread swing refl

abbrev first : Pixels
first = record { session = 1; buffer = 0 }

run-shown_example :
    let s = Picture.run (starts true ∷ frame first ∷ drains ∷ []) blank in
    (s.started ≡ true) × (first.session ≡ s.session)
unfolding Picture.run step
run-shown_example =
    run-shown (starts true ∷ frame first ∷ drains ∷ []) first (omega arith)
      (tt, ((refl, refl), (tt, tt))) shown_first
  where
    shown_first : shown (Picture.run (starts true ∷ frame first ∷ drains ∷ []) blank) ≡ some first
    shown_first = refl

late-shown_example :
    let s' =
      Picture.run
        (stops ∷ frame first ∷ drains ∷ [])
        (record blank { started = true; session = 1 }) in
    (shown s' ≡ some first) × (s'.placeholder ≡ false) × (s'.started ≡ false)
late-shown_example = late-shown (record blank { started = true; session = 1 }) first refl refl refl

abbrev plain : ListCtx
plain = record {
  columns = record { field = "message"; width = 100 } ∷ [];
  row_color_field = "state";
  max_rows = 1;
  row_height = 28;
  bg = 0x161b22;
  fg = 0xc9d1d9;
  include_cleared = false;
}
