-- ===== src/Anchor/Trail.antt =====
-- The ring of an anchor track stands for a plain list of the last positions.
use espos_p4_cockpit.Prelude.{
  ℕ, zero, suc, ◌+◌, ◌-◌, ◌%◌, ◌≤◌, ◌<◌, ◌≡◌, refl, sym, ◌∙◌, subst, Bool, true, false, not, ◌&&◌,
  some, List, [], ◌∷◌, ◌++◌, map, ltb, if◌then◌else◌, get_elem?, length, arith,
}
use espos_p4_cockpit.Float.{FloatLib}
use espos_p4_cockpit.Anchor.{
  Plot, Readings, Ring, Reading, ordered_from, ordered, store, has_position, is_near,
  anchor_track_watching, anchor_track_push, anchor_track_render, read, is_position, observed, run,
}
use espos_p4_cockpit.Anchor.Points.{
  IsRing, latest, newest, newest-snoc, ordered_from_snoc, store-IsRing, ordered-store, shown_points,
  ordered_none,
}

module _ {F : FloatLib} {P : Type 0} (m : Plot F P) where
  -- A position is recorded unless it is near the newest one.
  abbrev pub recorded : Readings F → List P → List P
  recorded a trail =
      let p = m.xy a.bearing_rad a.cur_m a.max_m in
      if not (has_position m a)
      then trail
      else if is_near m p (newest trail)
      then trail
      else latest (trail ++ p ∷ [])

  -- The trail that is left by readings: none while the anchor is up.
  unfoldable pub trail_after : List (Reading m) → Readings F → List P → List P
  trail_after [] a trail = trail
  trail_after (e ∷ es) a trail =
      let a' = read m e a in
      let trail' = if is_position m e then recorded a' trail else trail in
      trail_after es a' (if not (anchor_track_watching m a') then [] else trail')

  near-newest :
      (p : P) (pts : List P) (h n : ℕ) (trail : List P)
      → h < 256
      → n ≤ 256
      → ordered_from pts ((h + 256 - n) % 256) n ≡ map some trail
      → (ltb 0 n && is_near m p (get_elem? pts ((h + 255) % 256))) ≡ is_near m p (newest trail)
  unfolding ordered_from
  near-newest p pts h zero [] lt le shows = refl
  near-newest p pts h zero (q ∷ trail) lt le shows = absurd (ground (arith, shows))
  near-newest p pts h (suc n) trail lt le shows =
      let s = (h + 256 - suc n) % 256 in
      let last = ordered_from_snoc pts s n in
      let at : (s + n) % 256 ≡ (h + 255) % 256 = omega arith in
      let new =
        newest-snoc trail (ordered_from pts s n) (get_elem? pts ((s + n) % 256))
          (sym shows ∙ last) in
      let some_one : ltb 0 (suc n) ≡ true = ground arith in cc

  abbrev pub Shows : Ring P → List P → Type 0
  Shows g trail = IsRing g × (ordered g ≡ map some trail)

  if-Shows :
      (b : Bool) (g g' : Ring P) (t t' : List P)
      → Shows g t
      → Shows g' t'
      → Shows (if b then g else g') (if b then t else t')
  if-Shows true g g' t t' h h' = h
  if-Shows false g g' t t' h h' = h'

  push-Shows :
      (a : Readings F) (g : Ring P) (trail : List P)
      → Shows g trail
      → Shows (anchor_track_push m a g) (recorded a trail)
  unfolding anchor_track_push
  push-Shows a g trail (ring, shows) =
      let p = m.xy a.bearing_rad a.cur_m a.max_m in
      let test =
        near-newest p g.band_pts g.head g.count trail ring.1 ring.2 (shown_points g trail shows) in
      let new : Shows (store p g) (latest (trail ++ p ∷ [])) =
        (store-IsRing p g ring, ordered-store p g trail ring shows) in
      let b = is_near m p (newest trail) in
      let next = if-Shows b g (store p g) trail (latest (trail ++ p ∷ [])) (ring, shows) new in
      if-Shows (not (has_position m a)) g _ trail _ (ring, shows)
        (subst
          (λ c. Shows (if c then g else store p g) (if b then trail else latest (trail ++ p ∷ [])))
          (sym test) next)

  render-Shows :
      (a : Readings F) (g : Ring P) (trail : List P)
      → Shows g trail
      → Shows (anchor_track_render m a g) (if not (anchor_track_watching m a) then [] else trail)
  unfolding anchor_track_render
  render-Shows a g trail (ring, shows) =
      if-Shows (not (anchor_track_watching m a)) (record g { count = 0 }) g [] trail
        ((ring.0, ring.1, omega arith), ordered_none g) (ring, shows)

  run-Shows :
      (es : List (Reading m)) (a : Readings F) (g : Ring P) (trail : List P)
      → Shows g trail
      → Shows (run m es a g).1 (trail_after es a trail)
  unfolding run trail_after
  run-Shows [] a g trail shows = shows
  run-Shows (e ∷ es) a g trail shows =
      let a' = read m e a in
      let trail' = if is_position m e then recorded a' trail else trail in
      let pushed = if-Shows (is_position m e) _ g _ trail (push-Shows a' g trail shows) shows in
      run-Shows es a' (observed m e a g) _ (render-Shows a' _ trail' pushed)

  -- From a fresh widget on and after any readings, the points in the order in which they are drawn are
  -- the trail that a plain list keeps, which takes a new position at its end, holds at most 256 and is
  -- emptied when the anchor is up.
  pub run-trail :
      (pts : List P) (a : Readings F) (es : List (Reading m))
      → length pts ≡ 256
      → ordered (run m es a (record { band_pts = pts; head = 0; count = 0 })).1
        ≡ map some (trail_after es a [])
  run-trail pts a es len =
      let g : Ring P = record { band_pts = pts; head = 0; count = 0 } in
      (run-Shows es a g [] ((len, omega arith, omega arith), ordered_none g)).1
