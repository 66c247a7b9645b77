-- ===== src/Zones/Match.antt =====
-- Which zone ZoneRegistry::match() of main/jlp/zone_registry.cpp picks, for values that are not NaN.
use espos_p4_cockpit.Prelude.{
  ◌≡◌, refl, sym, ◌∙◌, ap, ◌⊎◌, inl, inr, String, true, false, List, [], ◌∷◌, ◌++◌, Option, none,
  some, arith, if◌then◌else◌, Bool-cases, ◌≢◌, All,
}
use espos_p4_cockpit.Prelude.Dict.{lookup}
use mathlib.Core.Bool.{false≢true}
use mathlib.Core.List.{Memᴰ}
use espos_p4_cockpit.Float.{FloatLib, IsOrdered}
use espos_p4_cockpit.Zones.{Zone, Registry, top_edge, hits, first_hit, match}

module _ (F : FloatLib) (o : IsOrdered F) where
  open F use {Float, lt, le, eq, minus_huge, huge}
  open o use {le_total, le_trans, lt_not_le, eq_both}

  -- Zones that tile the range from `lo` to `hi`: each starts where the one before it ends.
  abbrev pub Tiles : Float → List (Zone F) → Float → Type 0
  Tiles lo [] hi = lo ≡ hi
  Tiles lo (z ∷ zs) hi = (z.lower ≡ lo) × (lt z.lower z.upper ≡ true) × Tiles z.upper zs hi

  top_edge-Tiles :
      (top lo hi : Float) (zs : List (Zone F))
      → zs ≢ []
      → le top lo ≡ true
      → Tiles lo zs hi
      → top_edge F top zs ≡ hi
  unfolding top_edge
  top_edge-Tiles top lo hi [] h e t = absurd (h refl)
  top_edge-Tiles top lo hi (z ∷ []) h e (l, s, t) =
      ground (arith, lt_not_le top z.upper, lt_not_le z.lower z.upper, le_trans z.upper top lo)
  top_edge-Tiles top lo hi (z ∷ y ∷ zs) h e (l, s, t) =
      let step : (if lt top z.upper then z.upper else top) ≡ z.upper =
        ground (arith, lt_not_le top z.upper, lt_not_le z.lower z.upper, le_trans z.upper top lo) in
      rw step (
        top_edge-Tiles z.upper z.upper hi (y ∷ zs) (λ q. cc)
          (ground (arith, le_total z.upper z.upper)) t)

  -- The zone holds the value: half-open, a point, or closed at the topmost edge.
  abbrev pub Holds : Float → Float → Zone F → Type 0
  Holds top raw z =
      (le z.lower raw ≡ true)
      × (le raw z.upper ≡ true)
      × ((lt raw z.upper ≡ true) ⊎ ((eq z.lower z.upper ≡ true) ⊎ (eq z.upper top ≡ true)))

  hits-Holds :
      (top raw : Float) (z : Zone F)
      → le z.lower z.upper ≡ true
      → hits F top raw z ≡ true
      → Holds top raw z
  unfolding hits
  hits-Holds top raw z s h = ground (
    arith,
    eq_both z.lower z.upper,
    eq_both raw z.lower,
    eq_both raw z.upper,
    lt_not_le raw z.upper,
    le_total raw z.upper,
    le_trans raw z.lower z.upper,
    le_trans z.lower z.upper raw,
  )

  Holds-hits : (top raw : Float) (z : Zone F) → Holds top raw z → hits F top raw z ≡ true
  unfolding hits
  Holds-hits top raw z h = ground (
    arith,
    eq_both z.lower z.upper,
    eq_both raw z.lower,
    eq_both raw z.upper,
    lt_not_le raw z.upper,
    le_total raw z.upper,
    le_trans raw z.upper z.lower,
    le_trans z.upper z.lower raw,
  )

  -- The answer of the search: the first zone that holds the value, or none where none does.
  abbrev pub Answers : Float → Float → List (Zone F) → Option (Zone F) → Type 0
  Answers top raw zs none = All (λ z. ¬ Holds top raw z) zs
  Answers top raw zs (some z) =
      (before after : List (Zone F)) × (zs ≡ before ++ z ∷ after)
      × All (λ y. ¬ Holds top raw y) before
      × Holds top raw z

  Answers-skip :
      (top raw : Float) (z : Zone F) (zs : List (Zone F)) (res : Option (Zone F))
      → ¬ Holds top raw z
      → Answers top raw zs res
      → Answers top raw (z ∷ zs) res
  Answers-skip top raw z zs none h a = (h, a)
  Answers-skip top raw z zs (some y) h (before, after, e, b, c) =
      (z ∷ before, after, ap (◌∷◌ z) e, (h, b), c)

  first_hit-Answers :
      (top raw : Float) (zs : List (Zone F))
      → All (λ z. le z.lower z.upper ≡ true) zs
      → Answers top raw zs (first_hit F top raw zs)
  unfolding first_hit
  first_hit-Answers top raw [] h = tt
  first_hit-Answers top raw (z ∷ zs) h = elim (Bool-cases (hits F top raw z)) [
    | inl e ↦ rw e ([], zs, refl, tt, hits-Holds top raw z h.0 e)
    | inr e ↦ rw e (
        Answers-skip top raw z zs (first_hit F top raw zs)
          (λ k. false≢true (sym e ∙ Holds-hits top raw z k)) (first_hit-Answers top raw zs h.1))
  ]

  -- `top` is the highest of `floor` and the upper bounds.
  abbrev pub IsTop : Float → List (Zone F) → Float → Type 0
  IsTop floor zs top =
      (le floor top ≡ true)
      × All (λ z. le z.upper top ≡ true) zs
      × ((top ≡ floor) ⊎ ((z : Zone F) × Memᴰ z zs × (top ≡ z.upper)))

  IsTop-cons :
      (floor : Float) (z : Zone F) (zs : List (Zone F)) (top : Float)
      → IsTop (if lt floor z.upper then z.upper else floor) zs top
      → IsTop floor (z ∷ zs) top
  IsTop-cons floor z zs top (a, b, c) = (
    ground (arith, lt_not_le floor z.upper, le_total floor z.upper, le_trans floor z.upper top),
    (
      ground (arith, lt_not_le floor z.upper, le_total floor z.upper, le_trans z.upper floor top),
      b,
    ),
    elim c [
      | inl e ↦ elim (Bool-cases (lt floor z.upper)) [
        | inl k ↦ inr (z, Memᴰ.head refl, ground arith)
        | inr k ↦ inl (ground arith)
      ]
      | inr (y, m, e) ↦ inr (y, Memᴰ.tail m, e)
    ],
  )

  top_edge-IsTop : (floor : Float) (zs : List (Zone F)) → IsTop floor zs (top_edge F floor zs)
  unfolding top_edge
  top_edge-IsTop floor [] = (ground (arith, le_total floor floor), tt, inl refl)
  top_edge-IsTop floor (z ∷ zs) =
      IsTop-cons floor z zs _ (top_edge-IsTop (if lt floor z.upper then z.upper else floor) zs)

  -- For zones with lower ≤ upper, match() answers the first zone of the path that holds the value:
  -- lower ≤ value < upper, or a point zone at the value, or value = upper where upper is the highest
  -- upper bound of all; and it answers nothing only where no zone holds the value.
  pub match-Answers :
      (path : String) (raw : Float) (r : Registry F) (zs : List (Zone F))
      → lookup path r.zones ≡ some zs
      → All (λ z. le z.lower z.upper ≡ true) zs
      → (top : Float) × IsTop minus_huge zs top × Answers top raw zs (match F path raw r)
  unfolding match
  match-Answers path raw r zs e h = (
    top_edge F minus_huge zs,
    top_edge-IsTop minus_huge zs,
    rw (e, match) (first_hit-Answers (top_edge F minus_huge zs) raw zs h),
  )

  Holds-below :
      (hi raw : Float) (z : Zone F) → le z.lower raw ≡ true → lt raw z.upper ≡ true → Holds hi raw z
  Holds-below hi raw z a b = (a, ground (arith, lt_not_le raw z.upper, le_total raw z.upper), inl b)

  first_hit-Tiles :
      (lo hi raw : Float) (zs : List (Zone F))
      → zs ≢ []
      → Tiles lo zs hi
      → le lo raw ≡ true
      → le raw hi ≡ true
      → (z : Zone F) × (first_hit F hi raw zs ≡ some z) × Holds hi raw z
  unfolding first_hit
  first_hit-Tiles lo hi raw [] h t a b = absurd (h refl)
  first_hit-Tiles lo hi raw (z ∷ []) h (l, s, t) a b =
      let held : Holds hi raw z = (
        ground arith,
        ground arith,
        inr (inr (ground (arith, eq_both z.upper hi, le_total hi hi))),
      ) in
      (z, rw (Holds-hits hi raw z held), held)
  first_hit-Tiles lo hi raw (z ∷ y ∷ zs) h (l, s, t) a b = elim (Bool-cases (hits F hi raw z)) [
    | inl e ↦ (
      z,
      rw e,
      hits-Holds hi raw z (ground (arith, lt_not_le z.lower z.upper, le_total z.lower z.upper)) e,
    )
    | inr e ↦
        let above : lt raw z.upper ≡ false = elim (Bool-cases (lt raw z.upper)) [
          | inl k ↦
              absurd
                (false≢true (sym e ∙ Holds-hits hi raw z (Holds-below hi raw z (ground arith) k)))
          | inr k ↦ k
        ] in
        let (w, found, held) =
          first_hit-Tiles z.upper hi raw (y ∷ zs) (λ q. cc) t
            (ground (arith, lt_not_le raw z.upper)) b in
        (w, rw e found, held)
  ]

  -- Where the zones of a path tile a range, every value of the closed range gets a zone that holds it,
  -- the value at the very top included.
  match-Tiles :
      (path : String) (lo hi raw : Float) (r : Registry F) (zs : List (Zone F))
      → lookup path r.zones ≡ some zs
      → zs ≢ []
      → Tiles lo zs hi
      → le minus_huge lo ≡ true
      → le lo raw ≡ true
      → le raw hi ≡ true
      → (z : Zone F) × (match F path raw r ≡ some z) × Holds hi raw z
  unfolding match
  match-Tiles path lo hi raw r zs e h t m a b =
      rw (e, match, top_edge-Tiles minus_huge lo hi zs h m t) (first_hit-Tiles lo hi raw zs h t a b)
