-- ===== src/Builders/Kinds.antt =====
-- The kinds that validate() of main/jlp/layout/layout_manager.cpp checks, and those that the builders of
-- main/jlp/widgets/widget_factory.cpp ask for.
use espos_p4_cockpit.Prelude.{
  ◌≡◌, refl, sym, subst, ◌⊎◌, inl, inr, String, Bool, true, false, Option, none, some, List, [],
  ◌∷◌, ◌++◌, or_else, All, arith,
}
use espos_p4_cockpit.Json.{JsonLib}
use espos_p4_cockpit.Layout.{SubjectKind, validate}
use espos_p4_cockpit.Layout.Bindings.{Binding, Binds}
use espos_p4_cockpit.Layout.Widgets.{type_of, widget_bindings, widgets_bindings, screens_bindings}
use espos_p4_cockpit.Layout.Accepted.{validate_iff}
use espos_p4_cockpit.Builders.Named.{
  label_named, value_named, toggle_named, arc_named, bar_named, bargroup_named, as_label, as_value,
  as_toggle, as_arc, as_bar, as_bargroup,
}
use espos_p4_cockpit.Builders.{
  Builder, build_label, build_value, build_toggle, build_arc, build_bar, build_bargroup,
  build_button, build_notifications, build_anchor, build_anchor_track, build_voice, build_speaker,
  build_mic, build_volume, build_slider, build_stream, builder_of, subjects_of, built_by, typed,
  widget_subjects, widgets_subjects, screens_subjects,
}

-- The builders whose kinds expected_subject_kind() knows, or that ask for no subject.
abbrev pub is_checked : Option Builder → Bool
is_checked (some build_slider) = false
is_checked (some build_anchor) = false
is_checked (some build_anchor_track) = false
is_checked _ = true

Binds-append_left :
    (path : String) (kind : SubjectKind) (as' bs : List Binding)
    → Binds path kind as'
    → Binds path kind (as' ++ bs)
Binds-append_left path kind [] bs h = absurd h
Binds-append_left path kind ((p, k) ∷ as') bs h = elim h [
  | inl here ↦ inl here
  | inr later ↦ inr (Binds-append_left path kind as' bs later)
]

Binds-append_right :
    (path : String) (kind : SubjectKind) (as' bs : List Binding)
    → Binds path kind bs
    → Binds path kind (as' ++ bs)
Binds-append_right path kind [] bs h = h
Binds-append_right path kind ((p, k) ∷ as') bs h = inr (Binds-append_right path kind as' bs h)

Binds-split :
    (path : String) (kind : SubjectKind) (as' bs : List Binding)
    → Binds path kind (as' ++ bs)
    → Binds path kind as' ⊎ Binds path kind bs
Binds-split path kind [] bs h = inr h
Binds-split path kind ((p, k) ∷ as') bs h = elim h [
  | inl here ↦ inl (inl here)
  | inr later ↦ elim (Binds-split path kind as' bs later) [ inl l ↦ inl (inr l) | inr r ↦ inr r ]
]

module _ (J : JsonLib) where
  open J use {Json, member, elements, text}

  subjects_of-Binds :
      (b : Builder) (t path : String) (k : SubjectKind) (w : Json)
      → builder_of t ≡ some b
      → is_checked (some b) ≡ true
      → Binds path k (subjects_of J b w)
      → Binds path k (widget_bindings J t w)
  unfolding subjects_of
  subjects_of-Binds build_label t path k w named c h =
      subst (λ u. Binds path k (widget_bindings J u w)) (sym (label_named t named))
        (as_label J path k w h)
  subjects_of-Binds build_value t path k w named c h =
      subst (λ u. Binds path k (widget_bindings J u w)) (sym (value_named t named))
        (as_value J path k w h)
  subjects_of-Binds build_toggle t path k w named c h =
      subst (λ u. Binds path k (widget_bindings J u w)) (sym (toggle_named t named))
        (as_toggle J path k w h)
  subjects_of-Binds build_arc t path k w named c h =
      subst (λ u. Binds path k (widget_bindings J u w)) (sym (arc_named t named))
        (as_arc J path k w h)
  subjects_of-Binds build_bar t path k w named c h =
      subst (λ u. Binds path k (widget_bindings J u w)) (sym (bar_named t named))
        (as_bar J path k w h)
  subjects_of-Binds build_bargroup t path k w named c h =
      subst (λ u. Binds path k (widget_bindings J u w)) (sym (bargroup_named t named))
        (as_bargroup J path k w h)
  subjects_of-Binds build_slider t path k w named c h = absurd (ground (arith, c))
  subjects_of-Binds build_anchor t path k w named c h = absurd (ground (arith, c))
  subjects_of-Binds build_anchor_track t path k w named c h = absurd (ground (arith, c))
  subjects_of-Binds build_button t path k w named c h = absurd h
  subjects_of-Binds build_notifications t path k w named c h = absurd h
  subjects_of-Binds build_voice t path k w named c h = absurd h
  subjects_of-Binds build_speaker t path k w named c h = absurd h
  subjects_of-Binds build_mic t path k w named c h = absurd h
  subjects_of-Binds build_volume t path k w named c h = absurd h
  subjects_of-Binds build_stream t path k w named c h = absurd h

  built_by-Binds :
      (o : Option Builder) (t path : String) (k : SubjectKind) (w : Json)
      → builder_of t ≡ o
      → is_checked o ≡ true
      → Binds path k (built_by J o w)
      → Binds path k (widget_bindings J t w)
  built_by-Binds none t path k w named c h = absurd h
  built_by-Binds (some b) t path k w named c h = subjects_of-Binds b t path k w named c h

  typed-Binds :
      (o : Option String) (path : String) (k : SubjectKind) (w : Json)
      → is_checked (typed J o) ≡ true
      → Binds path k (built_by J (typed J o) w)
      → Binds path k (widget_bindings J (or_else o "") w)
  typed-Binds none path k w c h = absurd h
  typed-Binds (some t) path k w c h = built_by-Binds (builder_of t) t path k w refl c h

  -- A widget whose kinds validate() checks.
  abbrev pub IsChecked : Json → Type 0
  IsChecked w = is_checked (typed J (text (member w "type"))) ≡ true

  widgets_subjects-Binds :
      (ws : List Json) (path : String) (k : SubjectKind)
      → All IsChecked ws
      → Binds path k (widgets_subjects J ws)
      → Binds path k (widgets_bindings J ws)
  unfolding widgets_subjects widget_subjects
  widgets_subjects-Binds [] path k c h = h
  widgets_subjects-Binds (w ∷ ws) path k (now, later) h =
      let mine = widget_bindings J (type_of J w) w in
      elim (Binds-split path k (widget_subjects J w) (widgets_subjects J ws) h) [
        | inl first ↦
            Binds-append_left path k mine (widgets_bindings J ws)
              (typed-Binds (text (member w "type")) path k w now first)
        | inr rest ↦
            Binds-append_right path k mine (widgets_bindings J ws)
              (widgets_subjects-Binds ws path k later rest)
      ]

  -- A screen of such widgets.
  abbrev pub AreChecked : Json → Type 0
  AreChecked s = All IsChecked (elements (member s "widgets"))

  screens_subjects-Binds :
      (ss : List Json) (path : String) (k : SubjectKind)
      → All AreChecked ss
      → Binds path k (screens_subjects J ss)
      → Binds path k (screens_bindings J ss)
  unfolding screens_subjects
  screens_subjects-Binds [] path k c h = h
  screens_subjects-Binds (s ∷ ss) path k (now, later) h =
      let ws = elements (member s "widgets") in
      elim (Binds-split path k (widgets_subjects J ws) (screens_subjects J ss) h) [
        | inl first ↦
            Binds-append_left path k (widgets_bindings J ws) (screens_bindings J ss)
              (widgets_subjects-Binds ws path k now first)
        | inr rest ↦
            Binds-append_right path k (widgets_bindings J ws) (screens_bindings J ss)
              (screens_subjects-Binds ss path k later rest)
      ]

  -- Where validate() accepts a layout without sliders and anchor widgets, the builders of its widgets
  -- ask for no subject as two kinds.
  pub screens_subjects-validate :
      (doc : Json) (path : String) (j k : SubjectKind)
      → validate J doc ≡ none
      → All AreChecked (elements (member doc "screens"))
      → Binds path j (screens_subjects J (elements (member doc "screens")))
      → Binds path k (screens_subjects J (elements (member doc "screens")))
      → j ≡ k
  screens_subjects-validate doc path j k accepted checked hj hk =
      let ss = elements (member doc "screens") in
      ((validate_iff J doc).0 accepted).4 path j k (screens_subjects-Binds ss path j checked hj)
        (screens_subjects-Binds ss path k checked hk)
