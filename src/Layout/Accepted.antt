-- ===== src/Layout/Accepted.antt =====
-- Which layouts validate() of main/jlp/layout/layout_manager.cpp accepts.
use espos_p4_cockpit.Prelude.{
  ◌≡◌, ◌≢◌, ◌↔◌, refl, sym, subst, ◌∙◌, inl, inr, String, true, false, List, [], ◌∷◌, map, none,
  some, is_some, or_else, arith, All, Bool-cases, Option-cases,
}
use espos_p4_cockpit.Prelude.Dict.{Dict, lookup}
use espos_p4_cockpit.Json.{JsonLib}
use espos_p4_cockpit.Layout.{
  SubjectKind, rejected, accepted, is_in, check_widgets, check_screens, validate,
}
use espos_p4_cockpit.Layout.Bindings.{
  AreFresh, AreConsistent, records, records-append, records-AreConsistent, records_all,
}
use espos_p4_cockpit.Layout.Widgets.{
  result, result-some, result-none, id_of, AreComplete, widgets_bindings, screens_bindings,
  check_widgets_complete, check_widgets_sound,
}

module _ (J : JsonLib) where
  open J use {Json, member, elements, text, number}

  -- A screen with an id, whose widgets have an id and a type each, no two of them the same id.
  abbrev pub IsSoundScreen : Json → Type 0
  IsSoundScreen s =
      (is_some (text (member s "id")) ≡ true)
      × AreComplete J (elements (member s "widgets"))
      × AreFresh [] (map (id_of J) (elements (member s "widgets")))

  check_screens_step :
      (sid : String) (ids : List String) (s : Json) (ss : List Json) (seen : Dict SubjectKind)
      → text (member s "id") ≡ some sid
      → is_in sid ids ≡ false
      → result (check_screens J ids (s ∷ ss) seen)
        ≡ elim (result (check_widgets J sid [] (elements (member s "widgets")) seen)) [
          | none ↦ none
          | some seen' ↦ result (check_screens J (sid ∷ ids) ss seen')
        ]
  unfolding check_screens
  check_screens_step sid ids s ss seen e f =
      elim (Option-cases (result (check_widgets J sid [] (elements (member s "widgets")) seen))) [
        | inl r ↦
            let (why, failed) =
              result-none (check_widgets J sid [] (elements (member s "widgets")) seen) r in
            rw (r, result, check_screens, e, f, failed) refl
        | inr (seen', r) ↦
            let passed =
              result-some (check_widgets J sid [] (elements (member s "widgets")) seen) seen' r in
            rw (r, result, check_screens, e, f, passed) refl
      ]

  check_screens_complete :
      (ids : List String) (ss : List Json) (seen : Dict SubjectKind)
      → All IsSoundScreen ss
      → AreFresh ids (map (id_of J) ss)
      → result (check_screens J ids ss seen) ≡ records (screens_bindings J ss) seen
  unfolding check_screens
  check_screens_complete ids [] seen c f = refl
  check_screens_complete ids (s ∷ ss) seen ((has_id, complete, distinct), cs) (fresh, fs) =
      elim (Option-cases (text (member s "id"))) [
        | inl e ↦ absurd (ground arith)
        | inr (sid, e) ↦
            let ws = elements (member s "widgets") in
            let named : id_of J s ≡ sid = rw e refl in
            let unseen : is_in sid ids ≡ false = rw (← named) fresh in
            let later : AreFresh (sid ∷ ids) (map (id_of J) ss) = rw (← named) fs in
            let here = check_widgets_complete J sid [] ws seen complete distinct in
            let split = records-append (widgets_bindings J ws) (screens_bindings J ss) seen in
            check_screens_step sid ids s ss seen e unseen
            ∙ elim (Option-cases (records (widgets_bindings J ws) seen)) [
              | inl r ↦ rw (split, here, r) refl
              | inr (seen', r) ↦
                  rw (split, here, r) (check_screens_complete (sid ∷ ids) ss seen' cs later)
            ]
      ]

  check_screens_sound :
      (ids : List String) (ss : List Json) (seen after : Dict SubjectKind)
      → result (check_screens J ids ss seen) ≡ some after
      → All IsSoundScreen ss × AreFresh ids (map (id_of J) ss)
  unfolding check_screens
  check_screens_sound ids [] seen after h = (tt, tt)
  check_screens_sound ids (s ∷ ss) seen after h = elim (Option-cases (text (member s "id"))) [
    | inl e ↦ absurd (ground arith)
    | inr (sid, e) ↦ elim (Bool-cases (is_in sid ids)) [
      | inl f ↦ absurd (ground arith)
      | inr f ↦
          let ws = elements (member s "widgets") in
          let step = check_screens_step sid ids s ss seen e f in
          elim (Option-cases (result (check_widgets J sid [] ws seen))) [
            | inl r ↦ absurd (ground arith)
            | inr (seen', r) ↦
                let passed : result (check_screens J (sid ∷ ids) ss seen') ≡ some after =
                  sym (step ∙ rw r refl) ∙ h in
                let more = check_screens_sound (sid ∷ ids) ss seen' after passed in
                let screen = check_widgets_sound J sid [] ws seen seen' r in
                let named : id_of J s ≡ sid = rw e refl in
                (
                  ((rw e refl, screen.0, screen.1), more.0),
                  subst (λ i. (is_in i ids ≡ false) × AreFresh (i ∷ ids) (map (id_of J) ss))
                      (sym named) (f, more.1),
                )
          ]
    ]
  ]

  -- A layout as the protocol asks for it: schema 1, at least one screen, sound screens with distinct
  -- ids, and no path that widgets of the compared types bind as two kinds.
  abbrev pub IsValid : Json → Type 0
  IsValid doc =
      let ss = elements (member doc "screens") in
      (or_else (number (member doc "schema")) 0 ≡ 1)
      × (ss ≢ [])
      × All IsSoundScreen ss
      × AreFresh [] (map (id_of J) ss)
      × AreConsistent (screens_bindings J ss)

  screens-IsValid :
      (ss : List Json) (after : Dict SubjectKind)
      → result (check_screens J [] ss []) ≡ some after
      → All IsSoundScreen ss
        × AreFresh [] (map (id_of J) ss)
        × AreConsistent (screens_bindings J ss)
  screens-IsValid ss after h =
      let sound = check_screens_sound [] ss [] after h in
      let recorded = sym (check_screens_complete [] ss [] sound.0 sound.1) ∙ h in
      (sound.0, sound.1, records-AreConsistent (screens_bindings J ss) after recorded)

  IsValid-screens :
      (ss : List Json)
      → All IsSoundScreen ss
      → AreFresh [] (map (id_of J) ss)
      → AreConsistent (screens_bindings J ss)
      → (after : Dict SubjectKind) × (check_screens J [] ss [] ≡ accepted after)
  unfolding lookup
  IsValid-screens ss sound fresh consistent =
      let (after, e) =
        records_all (screens_bindings J ss) [] consistent (λ path j k l b. absurd (cc)) in
      (
        after,
        result-some (check_screens J [] ss []) after
            (check_screens_complete [] ss [] sound fresh ∙ e),
      )

  validate_screens :
      (doc s : Json) (ss : List Json)
      → or_else (number (member doc "schema")) 0 ≡ 1
      → elements (member doc "screens") ≡ s ∷ ss
      → validate J doc
        ≡ elim (check_screens J [] (s ∷ ss) []) [ rejected e ↦ some e | accepted seen ↦ none ]
  unfolding validate
  validate_screens doc s ss one e = rw (one, e) refl

  validate_refused :
      (doc : Json)
      → validate J doc ≡ none
      → (or_else (number (member doc "schema")) 0 ≡ 1) × (elements (member doc "screens") ≢ [])
  unfolding validate
  validate_refused doc h = (ground arith, λ e. ground arith)

  validate_sound :
      (doc : Json) (ss : List Json)
      → elements (member doc "screens") ≡ ss
      → validate J doc ≡ none
      → IsValid doc
  validate_sound doc [] e h = absurd ((validate_refused doc h).1 e)
  validate_sound doc (s ∷ ss) e h =
      let (one, some_screens) = validate_refused doc h in
      elim (Option-cases (result (check_screens J [] (s ∷ ss) []))) [
        | inl r ↦
            let (why, failed) = result-none (check_screens J [] (s ∷ ss) []) r in
            let refused : validate J doc ≡ some why =
              validate_screens doc s ss one e ∙ rw failed refl in
            absurd (cc)
        | inr (after, r) ↦
            let (sound, fresh, consistent) = screens-IsValid (s ∷ ss) after r in
            rw e (one, (λ q. cc), sound, fresh, consistent)
      ]

  IsValid-accepted :
      (doc : Json) (ss : List Json)
      → elements (member doc "screens") ≡ ss
      → IsValid doc
      → validate J doc ≡ none
  IsValid-accepted doc [] e v = absurd (v.1 e)
  IsValid-accepted doc (s ∷ ss) e v =
      let (after, passed) =
        IsValid-screens (s ∷ ss) (subst (All IsSoundScreen) e v.2)
          (subst (λ l. AreFresh [] (map (id_of J) l)) e v.3)
          (subst (λ l. AreConsistent (screens_bindings J l)) e v.4) in
      validate_screens doc s ss v.0 e ∙ rw passed refl

  -- validate() accepts exactly the layouts with schema 1, at least one screen, an id on every screen, an
  -- id and a type on every widget, no screen id twice, no widget id twice in one screen, and no path
  -- bound both as a float, by a label, a value, an arc, a bar or a bar of a bargroup, and as an int,
  -- by a toggle, be it on two screens. What widgets of other types bind, sliders among them, is not
  -- compared.
  pub validate_iff : (doc : Json) → (validate J doc ≡ none) ↔ IsValid doc
  validate_iff doc = (
    validate_sound doc (elements (member doc "screens")) refl,
    IsValid-accepted doc (elements (member doc "screens")) refl,
  )
