-- ===== src/Zones/Meta.antt =====
-- What a meta object changes: ZoneRegistry::apply_meta() of main/jlp/zone_registry.cpp.
use espos_p4_cockpit.Prelude.{
  ◌≡◌, ◌∙◌, String, Bool, true, false, ◌&&◌, ◌||◌, List, [], ◌∷◌, Option, none, some, arith,
  if◌then◌else◌, or_else, ◌=s◌, str_refl, map,
}
use espos_p4_cockpit.Prelude.Dict.{lookup, lookup-insert}
use espos_p4_cockpit.Json.{JsonLib}
use espos_p4_cockpit.Float.{FloatLib, IsOrdered}
use espos_p4_cockpit.Zones.{
  Zone, Registry, match, description, read_zone, is_given, merge_meta, apply_meta, match,
  parse_state,
}

abbrev pub is_filled {ℓ} : {A : Type ℓ} → List A → Bool
is_filled [] = false
is_filled (x ∷ xs) = true

module _ (F : FloatLib) where
  abbrev pub Merged :
      String → String → Option String → List (Zone F) → Registry F → Registry F × Bool → Type 0
  Merged path q desc zs r after =
      (lookup q after.0.zones ≡ (if path =s q && is_filled zs then some zs else lookup q r.zones))
      × (description F q after.0
          ≡ (if path =s q && is_given desc then or_else desc "" else description F q r))
      × (after.1 ≡ (is_given desc || is_filled zs))

  merge_meta-Merged :
      (path q : String) (desc : Option String) (zs : List (Zone F)) (r : Registry F)
      → Merged path q desc zs r (merge_meta F path desc zs r)
  unfolding merge_meta description
  merge_meta-Merged path q desc [] r = (
    ground arith,
    ground (arith, lookup-insert path q (or_else desc "") r.descriptions),
    ground arith,
  )
  merge_meta-Merged path q desc (z ∷ zs) r = (
    ground (arith, lookup-insert path q (z ∷ zs) r.zones),
    ground (arith, lookup-insert path q (or_else desc "") r.descriptions),
    ground arith,
  )

  match_single :
      (o : IsOrdered F) (path : String) (raw : F.Float) (z : Zone F) (r : Registry F)
      → lookup path r.zones ≡ some (z ∷ [])
      → F.le z.lower raw ≡ true
      → F.lt raw z.upper ≡ true
      → match F path raw r ≡ some z
  unfolding match
  match_single o path raw z r e a b =
      ground
        (arith, o.eq_both z.lower z.upper, o.lt_not_le raw z.upper, o.le_trans z.upper z.lower raw)

  module _ (J : JsonLib) (real : J.Json → Option F.Float) where
    open J use {Json, member, elements, text}

    -- A meta object replaces the zones of its path when it has any, and the description when it has
    -- one that is not empty; it changes nothing else, and the bound subject is notified exactly when
    -- something was replaced.
    apply_meta-Merged :
        (path q : String) (meta : Json) (r : Registry F)
        → Merged path q
            (text (member meta "description"))
            (map (read_zone F J real) (elements (member meta "zones")))
            r
            (apply_meta F J real path meta r)
    unfolding apply_meta
    apply_meta-Merged path q meta r = merge_meta-Merged path q _ _ r

    read_one :
        (z : Json) (l : F.Float)
        → real (member z "lower") ≡ some l
        → real (member z "upper") ≡ none
        → map (read_zone F J real) (z ∷ [])
          ≡ (record {
            lower = l;
            upper = F.huge;
            state = parse_state (some (or_else (text (member z "state")) "normal"));
          })
            ∷ []
    unfolding read_zone
    read_one z l el eu = rw (el, eu)

    -- A single zone that gives only its lower bound, the usual alarm threshold, is picked for every
    -- value from that bound up to the upper sentinel.
    match-apply_meta_one_sided :
        (o : IsOrdered F) (path : String) (meta z : Json) (l raw : F.Float) (r : Registry F)
        → elements (member meta "zones") ≡ z ∷ []
        → real (member z "lower") ≡ some l
        → real (member z "upper") ≡ none
        → F.le l raw ≡ true
        → F.lt raw F.huge ≡ true
        → match F path raw (apply_meta F J real path meta r).0
          ≡ some (record {
            lower = l;
            upper = F.huge;
            state = parse_state (some (or_else (text (member z "state")) "normal"));
          })
    unfolding apply_meta
    match-apply_meta_one_sided o path meta z l raw r e el eu a b =
        let zone : Zone F = record {
          lower = l;
          upper = F.huge;
          state = parse_state (some (or_else (text (member z "state")) "normal"));
        } in
        let one : map (read_zone F J real) (elements (member meta "zones")) ≡ zone ∷ [] =
          rw e (read_one z l el eu) in
        let looked : lookup path (apply_meta F J real path meta r).0.zones ≡ some (zone ∷ []) =
          (apply_meta-Merged path path meta r).0 ∙ rw (one, str_refl path) in
        match_single o path raw zone (apply_meta F J real path meta r).0 looked a b
