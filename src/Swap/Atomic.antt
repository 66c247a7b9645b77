-- ===== src/Swap/Atomic.antt =====
-- What LayoutManager::apply() of main/jlp/layout/layout_manager.cpp leaves, accepted or not.
use espos_p4_cockpit.Prelude.{
  ℕ, ◌*◌, ◌≤◌, ◌≡◌, refl, ap, sym, subst, ◌∙◌, ◌⊎◌, inl, inr, String, true, false, List, [], Option,
  none, some, is_some, ltb, length, Bytes, arith, Bool-cases, Option-cases,
}
use espos_p4_cockpit.Json.{JsonLib}
use espos_p4_cockpit.Theme.{ThemeColors, apply_theme}
use espos_p4_cockpit.Store.{Nvs}
use espos_p4_cockpit.Layout.{validate}
use espos_p4_cockpit.Swap.{
  ApplySource, ApplyResult, no_result, not_initialised, too_large, unparsed, invalid, unbuilt,
  Swapped, Built, Panel, build_layout, swap_in, apply,
}

module _ (J : JsonLib) (N : Nvs) (X : Type 0) (utf8 : String → Bytes)
    (build_widget : ThemeColors → J.Json → X → X × Option String × List String) where
  -- The layout passed every test, and its widgets were built.
  abbrev pub IsBuilt : String → J.Json → Built J N X utf8 → Type 0
  IsBuilt json doc b =
      (J.deserialize json ≡ some doc)
      × (validate J doc ≡ none)
      × (length (utf8 json) ≤ 64 * 1024)
      × (b.err ≡ none)

  -- A layout that is refused changes nothing but what its widgets' builders had made by then.
  abbrev pub Refuses : Panel J N X utf8 → ApplyResult × Panel J N X utf8 × Option Swapped → Type 0
  Refuses p res =
      (is_some res.0.err ≡ true) × ((x : X) × (res.1 ≡ record p { outside = x })) × (res.2 ≡ none)

  abbrev pub Accepts :
      ℕ
      → String
      → ApplySource
      → Panel J N X utf8
      → ApplyResult × Panel J N X utf8 × Option Swapped
      → Type 0
  Accepts tick json source p res =
      (doc : J.Json) × (b : Built J N X utf8) × IsBuilt json doc b
      × (res ≡ (
        (swap_in J N X utf8 build_widget tick json source doc b p).0,
        (swap_in J N X utf8 build_widget tick json source doc b p).1,
        some (swap_in J N X utf8 build_widget tick json source doc b p).2,
      ))

  abbrev pub Outcome :
      ℕ
      → String
      → ApplySource
      → Panel J N X utf8
      → ApplyResult × Panel J N X utf8 × Option Swapped
      → Type 0
  Outcome tick json source p res = Refuses p res ⊎ Accepts tick json source p res

  pub apply-Outcome :
      (tick : ℕ) (json : String) (source : ApplySource) (p : Panel J N X utf8)
      → Outcome tick json source p (apply J N X utf8 build_widget tick json source p)
  unfolding apply
  apply-Outcome tick json source p = elim (Bool-cases p.parent) [
    | inr e ↦
        let at : apply J N X utf8 build_widget tick json source p
            ≡ (record no_result { err = some not_initialised }, p, none) =
          simp (apply, e) in
        subst (Outcome tick json source p) (sym at) (inl (refl, (p.outside, refl), refl))
    | inl e ↦ elim (Bool-cases (ltb (64 * 1024) (length (utf8 json)))) [
      | inl l ↦
          let at : apply J N X utf8 build_widget tick json source p
              ≡ (record no_result { err = some too_large }, p, none) =
            simp (apply, e, l) in
          subst (Outcome tick json source p) (sym at) (inl (refl, (p.outside, refl), refl))
      | inr l ↦ elim (Option-cases (J.deserialize json)) [
        | inl d ↦
            let at : apply J N X utf8 build_widget tick json source p
                ≡ (record no_result { err = some unparsed }, p, none) =
              simp (apply, e, l, d) in
            subst (Outcome tick json source p) (sym at) (inl (refl, (p.outside, refl), refl))
        | inr (doc, d) ↦ elim (Option-cases (validate J doc)) [
          | inr (why, v) ↦
              let at : apply J N X utf8 build_widget tick json source p
                  ≡ (record no_result { err = some (invalid why) }, p, none) =
                simp (apply, e, l, d, v) in
              subst (Outcome tick json source p) (sym at) (inl (refl, (p.outside, refl), refl))
          | inl v ↦
              let b =
                build_layout J N X utf8 build_widget (apply_theme J (J.member doc "theme") p.theme)
                  (J.elements (J.member doc "screens"))
                  (record { outside = p.outside; live = []; count = 0; err = none }) in
              elim (Option-cases b.err) [
                | inr (why, f) ↦
                    let at : apply J N X utf8 build_widget tick json source p ≡ (
                      record no_result { err = some (unbuilt why); widgets = b.count },
                      record p { outside = b.outside },
                      none,
                    ) =
                      simp (apply, e, l, d, v, f) in
                    subst (Outcome tick json source p) (sym at)
                      (inl (refl, (b.outside, refl), refl))
                | inl f ↦ inr (doc, b, (d, v, ground arith, f), simp (apply, e, l, d, v, f))
              ]
        ]
      ]
    ]
  ]

  swap_in-ok :
      (tick : ℕ) (json : String) (source : ApplySource) (doc : J.Json) (b : Built J N X utf8)
      (p : Panel J N X utf8)
      → (swap_in J N X utf8 build_widget tick json source doc b p).0.err ≡ none
  unfolding swap_in
  swap_in-ok tick json source doc b p = refl

  -- A layout that apply() refuses, for whatever reason and however far its build had come, leaves the
  -- layout on the screen, its name, source and paths, the theme, the settings and the store as they
  -- were, and does not call the post-swap hook; only the builders of its widgets may leave traces.
  pub apply_refused :
      (tick : ℕ) (json : String) (source : ApplySource) (p : Panel J N X utf8)
      → is_some (apply J N X utf8 build_widget tick json source p).0.err ≡ true
      → Refuses p (apply J N X utf8 build_widget tick json source p)
  apply_refused tick json source p h = elim (apply-Outcome tick json source p) [
    | inl refused ↦ refused
    | inr (doc, b, built, at) ↦
        let fine = swap_in-ok tick json source doc b p in
        let clash : false ≡ true =
          sym (
            ap (λ (res : ApplyResult × Panel J N X utf8 × Option Swapped). is_some res.0.err) at
            ∙ ap is_some fine)
          ∙ h in
        absurd (cc)
  ]
