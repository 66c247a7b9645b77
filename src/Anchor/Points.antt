-- ===== src/Anchor/Points.antt =====
-- The points of an anchor track in order of time: what a read of the ring gives, and what a point that is
-- stored does to it.
use espos_p4_cockpit.Prelude.{
  ℕ, zero, suc, ◌+◌, ◌-◌, ◌%◌, ◌≤◌, ◌<◌, ◌≡◌, ◌≢◌, refl, ap, ◌∙◌, subst, Option, none, some, List,
  [], ◌∷◌, ◌++◌, map, get_elem?, set, length, length-set, length-append, drop, drop-append, ◌⊎◌,
  inl, inr, arith,
}
use espos_p4_cockpit.Anchor.{Ring, ordered_from, ordered, store}

lt_or_eq : (n : ℕ) → n ≤ 256 → (n < 256) ⊎ (n ≡ 256)
lt_or_eq n h = ground arith

module _ {P : Type 0} where
  ordered_from_cong :
      (pts : List P) (s s' n : ℕ)
      → s % 256 ≡ s' % 256
      → ordered_from pts s n ≡ ordered_from pts s' n
  unfolding ordered_from
  ordered_from_cong pts s s' zero h = refl
  ordered_from_cong pts s s' (suc n) h =
      let rest = ordered_from_cong pts (s + 1) (s' + 1) n (omega arith) in cc

  pub ordered_from_snoc :
      (pts : List P) (s n : ℕ)
      → ordered_from pts s (suc n) ≡ ordered_from pts s n ++ get_elem? pts ((s + n) % 256) ∷ []
  unfolding ordered_from
  ordered_from_snoc pts s zero = ap (λ k. get_elem? pts k ∷ []) (omega arith)
  ordered_from_snoc pts s (suc n) =
      let rest = ordered_from_snoc pts (s + 1) n in
      let e : (s + 1 + n) % 256 ≡ (s + suc n) % 256 = omega arith in
      ap (◌∷◌ (get_elem? pts (s % 256)))
        (rest ∙ ap (λ k. ordered_from pts (s + 1) n ++ get_elem? pts k ∷ []) e)

  get_elem?-set_same :
      (pts : List P) (i : ℕ) (p : P) → i < length pts → get_elem? (set pts i p) i ≡ some p
  get_elem?-set_same [] i p h = absurd (ground arith)
  get_elem?-set_same (x ∷ xs) zero p h = refl
  get_elem?-set_same (x ∷ xs) (suc i) p h = get_elem?-set_same xs i p (omega arith)

  get_elem?-set_other :
      (pts : List P) (i j : ℕ) (p : P) → i ≢ j → get_elem? (set pts i p) j ≡ get_elem? pts j
  get_elem?-set_other [] i j p h = refl
  get_elem?-set_other (x ∷ xs) zero zero p h = absurd (h refl)
  get_elem?-set_other (x ∷ xs) zero (suc j) p h = refl
  get_elem?-set_other (x ∷ xs) (suc i) zero p h = refl
  get_elem?-set_other (x ∷ xs) (suc i) (suc j) p h =
      get_elem?-set_other xs i j p (λ e. h (omega arith))

  ordered_from-set :
      (pts : List P) (p : P) (i s n : ℕ)
      → ((k : ℕ) → k < n → i ≢ (s + k) % 256)
      → ordered_from (set pts i p) s n ≡ ordered_from pts s n
  unfolding ordered_from
  ordered_from-set pts p i s zero h = refl
  ordered_from-set pts p i s (suc n) h =
      let here = get_elem?-set_other pts i (s % 256) p (λ e. h 0 (omega arith) (omega arith)) in
      let rest =
        ordered_from-set pts p i (s + 1) n (λ k lt e. h (suc k) (omega arith) (omega arith)) in
      cc

  -- The indices of the ring are in range.
  abbrev pub IsRing : Ring P → Type 0
  IsRing g = (length g.band_pts ≡ 256) × (g.head < 256) × (g.count ≤ 256)

  -- The last 256 of a list.
  abbrev pub latest : List P → List P
  latest ps = drop (length ps - 256) ps

  abbrev pub newest : List P → Option P
  newest [] = none
  newest (p ∷ []) = some p
  newest (p ∷ q ∷ ps) = newest (q ∷ ps)

  length-ordered_from : (pts : List P) (s n : ℕ) → length (ordered_from pts s n) ≡ n
  unfolding ordered_from
  length-ordered_from pts s zero = refl
  length-ordered_from pts s (suc n) = omega (arith, length-ordered_from pts (s + 1) n)

  pub newest-snoc :
      (ps : List P) (xs : List (Option P)) (y : Option P)
      → map some ps ≡ xs ++ y ∷ []
      → newest ps ≡ y
  newest-snoc [] [] y h = absurd (ground (arith, h))
  newest-snoc [] (x ∷ xs) y h = absurd (ground (arith, h))
  newest-snoc (p ∷ []) [] y h = ground (arith, h)
  newest-snoc (p ∷ []) (x ∷ []) y h = absurd (ground (arith, h))
  newest-snoc (p ∷ []) (x ∷ z ∷ xs) y h = absurd (ground (arith, h))
  newest-snoc (p ∷ q ∷ ps) [] y h = absurd (ground (arith, h))
  newest-snoc (p ∷ q ∷ ps) (x ∷ xs) y h = newest-snoc (q ∷ ps) xs y (ground (arith, h))

  ordered_from-room :
      (pts : List P) (p : P) (h n : ℕ)
      → length pts ≡ 256
      → h < 256
      → n < 256
      → ordered_from (set pts h p) (((h + 1) % 256 + 256 - suc n) % 256) (suc n)
        ≡ ordered_from pts ((h + 256 - n) % 256) n ++ some p ∷ []
  ordered_from-room pts p h n len lt room =
      let s = (h + 256 - n) % 256 in
      let at : (s + n) % 256 ≡ h = omega arith in
      let here = get_elem?-set_same pts h p (omega arith) in
      let rest = ordered_from-set pts p h s n (λ k lt' e. omega arith) in
      let first =
        ordered_from_cong (set pts h p) (((h + 1) % 256 + 256 - suc n) % 256) s (suc n)
          (omega arith) in
      let last = ordered_from_snoc (set pts h p) s n in cc

  ordered_from-full :
      (pts : List P) (p : P) (h n : ℕ)
      → length pts ≡ 256
      → h < 256
      → suc n ≡ 256
      → ordered_from (set pts h p) (((h + 1) % 256 + 256 - suc n) % 256) (suc n)
        ≡ drop 1 (ordered_from pts ((h + 256 - suc n) % 256) (suc n)) ++ some p ∷ []
  unfolding ordered_from
  ordered_from-full pts p h n len lt full =
      let s = h + 1 in
      let at : (s + n) % 256 ≡ h = omega arith in
      let here = get_elem?-set_same pts h p (omega arith) in
      let rest = ordered_from-set pts p h s n (λ k lt' e. omega arith) in
      let first =
        ordered_from_cong (set pts h p) (((h + 1) % 256 + 256 - suc n) % 256) s (suc n)
          (omega arith) in
      let last = ordered_from_snoc (set pts h p) s n in
      let old = ordered_from_cong pts ((h + 256 - suc n) % 256 + 1) s n (omega arith) in cc

  pub store-IsRing : (p : P) (g : Ring P) → IsRing g → IsRing (store p g)
  store-IsRing p g (len, head, count) =
      let kept = length-set g.band_pts g.head p in (omega arith, omega arith, ground arith)

  length-some : (ps : List P) → length (map some ps) ≡ length ps
  length-some [] = refl
  length-some (p ∷ ps) = omega (arith, length-some ps)

  map_some-append : (ps qs : List P) → map some (ps ++ qs) ≡ map some ps ++ map some qs
  map_some-append [] qs = refl
  map_some-append (p ∷ ps) qs = ap (◌∷◌ (some p)) (map_some-append ps qs)

  map_some-drop : (k : ℕ) (ps : List P) → map some (drop k ps) ≡ drop k (map some ps)
  map_some-drop zero ps = refl
  map_some-drop (suc k) [] = refl
  map_some-drop (suc k) (p ∷ ps) = map_some-drop k ps

  length-trail : (g : Ring P) (trail : List P) → ordered g ≡ map some trail → length trail ≡ g.count
  unfolding ordered
  length-trail g trail shows = omega (
    arith,
    length-ordered_from g.band_pts ((g.head + 256 - g.count) % 256) g.count,
    length-some trail,
    ap length shows,
  )

  latest-room : (ps : List P) → length ps ≤ 256 → latest ps ≡ ps
  latest-room ps h = let e : length ps - 256 ≡ 0 = omega arith in ap (λ k. drop k ps) e

  latest-full :
      (ps : List P) (p : P) → length ps ≡ 256 → latest (ps ++ p ∷ []) ≡ drop 1 ps ++ p ∷ []
  latest-full ps p h =
      let e : length (ps ++ p ∷ []) - 256 ≡ 1 = omega (arith, length-append ps (p ∷ [])) in
      ap (λ k. drop k (ps ++ p ∷ [])) e ∙ drop-append 1 ps (p ∷ []) (omega arith)

  -- A point that is stored is the newest of the last 256.
  pub ordered-store :
      (p : P) (g : Ring P) (trail : List P)
      → IsRing g
      → ordered g ≡ map some trail
      → ordered (store p g) ≡ map some (latest (trail ++ p ∷ []))
  unfolding ordered
  ordered-store p g trail (len, head, count) shows =
      let size = length-trail g trail shows in
      let joined = map_some-append trail (p ∷ []) in
      elim (lt_or_eq g.count count) [
        | inl room ↦
            let stored = ordered_from-room g.band_pts p g.head g.count len head room in
            let all = latest-room (trail ++ p ∷ []) (omega (arith, length-append trail (p ∷ []))) in
            let grows : (store p g).count ≡ suc g.count = ground arith in
            let begin =
              ap
                (λ c.
                  ordered_from (set g.band_pts g.head p) (((g.head + 1) % 256 + 256 - c) % 256) c)
                grows in
            cc
        | inr full ↦
            let stored = ordered_from-full g.band_pts p g.head 255 len head refl in
            let all = latest-full trail p (omega arith) in
            let stays : (store p g).count ≡ 256 = ground arith in
            let begin =
              ap
                (λ c.
                  ordered_from (set g.band_pts g.head p) (((g.head + 1) % 256 + 256 - c) % 256) c)
                stays in
            let shown =
              subst (λ c. ordered_from g.band_pts ((g.head + 256 - c) % 256) c ≡ map some trail)
                full shows in
            let cut = map_some-drop 1 trail in
            let pasted = map_some-append (drop 1 trail) (p ∷ []) in cc
      ]

  pub shown_points :
      (g : Ring P) (trail : List P)
      → ordered g ≡ map some trail
      → ordered_from g.band_pts ((g.head + 256 - g.count) % 256) g.count ≡ map some trail
  unfolding ordered
  shown_points g trail shows = shows

  pub ordered_none : (g : Ring P) → ordered (record g { count = 0 }) ≡ []
  unfolding ordered ordered_from
  ordered_none g = refl
