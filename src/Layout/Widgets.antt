-- ===== src/Layout/Widgets.antt =====
-- Which widgets of a screen the loops of validate() in main/jlp/layout/layout_manager.cpp accept.
use espos_p4_cockpit.Prelude.{
  ◌≡◌, refl, ap, sym, subst, ◌∙◌, inl, inr, String, true, false, List, [], ◌∷◌, ◌++◌, map, Option,
  none, some, is_some, if◌then◌else◌, or_else, ◌=s◌, str_iff, arith, All, Bool-cases, Option-cases,
}
use espos_p4_cockpit.Prelude.Dict.{Dict, lookup, insert}
use espos_p4_cockpit.Json.{JsonLib}
use espos_p4_cockpit.Layout.{
  SubjectKind, float, int, same_kind, expected_subject_kind, Rejection, Verdict, rejected, accepted,
  record_path_kind, is_in, check_bars, check_kinds, check_widgets,
}
use espos_p4_cockpit.Layout.Bindings.{
  AreFresh, Binding, records, records_new, records_same, records_clash, records-append,
}

abbrev pub result {ℓ} : {A : Type ℓ} → Verdict A → Option A
result (rejected e) = none
result (accepted a) = some a

pub result-some {ℓ} : {A : Type ℓ} → (v : Verdict A) (a : A) → result v ≡ some a → v ≡ accepted a
result-some (rejected e) a h = absurd (cc)
result-some (accepted b) a h = ground arith

pub result-none {ℓ} :
    {A : Type ℓ} → (v : Verdict A) → result v ≡ none → (e : Rejection) × (v ≡ rejected e)
result-none (rejected e) h = (e, refl)
result-none (accepted b) h = absurd (cc)

-- The kinds that the check compares, by the type of the widget.
abbrev pub compared_kinds : Dict SubjectKind
compared_kinds =
    ("label", float) ∷ ("value", float) ∷ ("arc", float) ∷ ("bar", float) ∷ ("toggle", int) ∷ []

expected_subject_kind-lookup :
    (type : String) → expected_subject_kind type ≡ lookup type compared_kinds
unfolding expected_subject_kind lookup
expected_subject_kind-lookup type = ground (
  arith,
  str_iff type "label",
  str_iff "label" type,
  str_iff type "value",
  str_iff "value" type,
  str_iff type "arc",
  str_iff "arc" type,
  str_iff type "bar",
  str_iff "bar" type,
  str_iff type "toggle",
  str_iff "toggle" type,
)

module _ (J : JsonLib) where
  open J use {Json, member, elements, text, number}

  abbrev pub id_of : Json → String
  id_of v = or_else (text (member v "id")) ""

  abbrev pub type_of : Json → String
  type_of v = or_else (text (member v "type")) ""

  abbrev pub bar_bindings : List Json → List Binding
  bar_bindings [] = []
  bar_bindings (b ∷ bs) = elim (text (member b "bind")) [
    | none ↦ bar_bindings bs
    | some path ↦ (path, float) ∷ bar_bindings bs
  ]

  -- The binds of one widget: those of its bars, or its own where its type has a kind that is compared.
  abbrev pub widget_bindings : String → Json → List Binding
  widget_bindings type w =
      if type =s "bargroup"
      then bar_bindings (elements (member w "bars"))
      else elim (text (member w "bind")) [
        | none ↦ []
        | some path ↦ elim (lookup type compared_kinds) [
          | none ↦ []
          | some kind ↦ (path, kind) ∷ []
        ]
      ]

  abbrev pub widgets_bindings : List Json → List Binding
  widgets_bindings [] = []
  widgets_bindings (w ∷ ws) = widget_bindings (type_of w) w ++ widgets_bindings ws

  abbrev pub screens_bindings : List Json → List Binding
  screens_bindings [] = []
  screens_bindings (s ∷ ss) =
      widgets_bindings (elements (member s "widgets")) ++ screens_bindings ss

  result-record_path_kind :
      (path : String) (kind : SubjectKind) (type widget : String) (seen : Dict SubjectKind)
      → result (record_path_kind path kind type widget seen) ≡ records ((path, kind) ∷ []) seen
  unfolding record_path_kind
  result-record_path_kind path kind type widget seen = ground arith

  result-check_bars :
      (type widget : String) (bs : List Json) (seen : Dict SubjectKind)
      → result (check_bars J type widget bs seen) ≡ records (bar_bindings bs) seen
  unfolding check_bars record_path_kind
  result-check_bars type widget [] seen = refl
  result-check_bars type widget (b ∷ bs) seen = elim (Option-cases (text (member b "bind"))) [
    | inl e ↦
        let unbound : bar_bindings (b ∷ bs) ≡ bar_bindings bs = rw (bar_bindings, e) refl in
        let skipped : check_bars J type widget (b ∷ bs) seen ≡ check_bars J type widget bs seen =
          rw (check_bars, e) refl in
        rw (unbound, skipped) (result-check_bars type widget bs seen)
    | inr (path, e) ↦
        let bound : bar_bindings (b ∷ bs) ≡ (path, float) ∷ bar_bindings bs =
          rw (bar_bindings, e) refl in
        elim (Option-cases (lookup path seen)) [
          | inl n ↦
              let taken : check_bars J type widget (b ∷ bs) seen
                  ≡ check_bars J type widget bs (insert path float seen) =
                rw (check_bars, e, n) refl in
              rw (bound, taken, records_new path float (bar_bindings bs) seen n)
                (result-check_bars type widget bs (insert path float seen))
          | inr (was, n) ↦ elim (Bool-cases (same_kind was float)) [
            | inl q ↦
                let kept : check_bars J type widget (b ∷ bs) seen
                    ≡ check_bars J type widget bs seen =
                  rw (check_bars, e, n, q) refl in
                rw (bound, kept, records_same path float was (bar_bindings bs) seen n q)
                  (result-check_bars type widget bs seen)
            | inr q ↦
                let clash : result (check_bars J type widget (b ∷ bs) seen) ≡ none =
                  rw (result, check_bars, e, n, q) refl in
                rw (bound, clash, records_clash path float was (bar_bindings bs) seen n q) refl
          ]
        ]
  ]

  result-check_kinds :
      (type widget : String) (w : Json) (seen : Dict SubjectKind)
      → result (check_kinds J type widget w seen) ≡ records (widget_bindings type w) seen
  unfolding check_kinds
  result-check_kinds type widget w seen = elim (Bool-cases (type =s "bargroup")) [
    | inl e ↦ rw e (result-check_bars type widget (elements (member w "bars")) seen)
    | inr e ↦ elim (Option-cases (text (member w "bind"))) [
      | inl b ↦ rw (e, b) refl
      | inr (path, b) ↦ elim (Option-cases (expected_subject_kind type)) [
        | inl k ↦
            let listed : lookup type compared_kinds ≡ none =
              sym (expected_subject_kind-lookup type) ∙ k in
            rw (e, b, k, listed) refl
        | inr (kind, k) ↦
            let listed : lookup type compared_kinds ≡ some kind =
              sym (expected_subject_kind-lookup type) ∙ k in
            rw (e, b, k, listed) (result-record_path_kind path kind type widget seen)
      ]
    ]
  ]

  -- Every widget has an id and a type.
  abbrev pub AreComplete : List Json → Type 0
  AreComplete =
      All (λ w. (is_some (text (member w "id")) ≡ true) × (is_some (text (member w "type")) ≡ true))

  check_widgets_step :
      (screen wid type : String) (wids : List String) (w : Json) (ws : List Json)
      (seen : Dict SubjectKind)
      → text (member w "id") ≡ some wid
      → is_in wid wids ≡ false
      → text (member w "type") ≡ some type
      → result (check_widgets J screen wids (w ∷ ws) seen)
        ≡ elim (records (widget_bindings type w) seen) [
          | none ↦ none
          | some s ↦ result (check_widgets J screen (wid ∷ wids) ws s)
        ]
  unfolding check_widgets
  check_widgets_step screen wid type wids w ws seen e f t =
      elim (Option-cases (records (widget_bindings type w) seen)) [
        | inl r ↦
            let (why, failed) =
              result-none (check_kinds J type wid w seen)
                (result-check_kinds type wid w seen ∙ r) in
            rw (r, result, check_widgets, e, f, t, failed) refl
        | inr (s, r) ↦
            let passed : check_kinds J type wid w seen ≡ accepted s =
              result-some (check_kinds J type wid w seen) s
                (result-check_kinds type wid w seen ∙ r) in
            rw (r, result, check_widgets, e, f, t, passed) refl
      ]

  pub check_widgets_complete :
      (screen : String) (wids : List String) (ws : List Json) (seen : Dict SubjectKind)
      → AreComplete ws
      → AreFresh wids (map id_of ws)
      → result (check_widgets J screen wids ws seen) ≡ records (widgets_bindings ws) seen
  unfolding check_widgets
  check_widgets_complete screen wids [] seen c f = refl
  check_widgets_complete screen wids (w ∷ ws) seen ((has_id, has_type), cs) (fresh, fs) =
      elim (Option-cases (text (member w "id"))) [
        | inl e ↦ absurd (ground arith)
        | inr (wid, e) ↦ elim (Option-cases (text (member w "type"))) [
          | inl t ↦ absurd (ground arith)
          | inr (type, t) ↦
              let named : id_of w ≡ wid = rw e refl in
              let typed : type_of w ≡ type = rw t refl in
              let unseen : is_in wid wids ≡ false = rw (← named) fresh in
              let later : AreFresh (wid ∷ wids) (map id_of ws) = rw (← named) fs in
              let split : records (widgets_bindings (w ∷ ws)) seen
                  ≡ elim (records (widget_bindings type w) seen) [
                    | none ↦ none
                    | some s ↦ records (widgets_bindings ws) s
                  ] =
                ap (λ y. records (widget_bindings y w ++ widgets_bindings ws) seen) typed
                ∙ records-append (widget_bindings type w) (widgets_bindings ws) seen in
              check_widgets_step screen wid type wids w ws seen e unseen t
              ∙ elim (Option-cases (records (widget_bindings type w) seen)) [
                | inl r ↦ rw (split, r) refl
                | inr (s, r) ↦
                    rw (split, r) (check_widgets_complete screen (wid ∷ wids) ws s cs later)
              ]
        ]
      ]

  pub check_widgets_sound :
      (screen : String) (wids : List String) (ws : List Json) (seen after : Dict SubjectKind)
      → result (check_widgets J screen wids ws seen) ≡ some after
      → AreComplete ws × AreFresh wids (map id_of ws)
  unfolding check_widgets
  check_widgets_sound screen wids [] seen after h = (tt, tt)
  check_widgets_sound screen wids (w ∷ ws) seen after h =
      elim (Option-cases (text (member w "id"))) [
        | inl e ↦ absurd (ground arith)
        | inr (wid, e) ↦ elim (Bool-cases (is_in wid wids)) [
          | inl f ↦ absurd (ground arith)
          | inr f ↦ elim (Option-cases (text (member w "type"))) [
            | inl t ↦ absurd (ground arith)
            | inr (type, t) ↦ elim (Option-cases (records (widget_bindings type w) seen)) [
              | inl r ↦
                  let step = check_widgets_step screen wid type wids w ws seen e f t in
                  absurd (ground arith)
              | inr (s, r) ↦
                  let step = check_widgets_step screen wid type wids w ws seen e f t in
                  let passed : result (check_widgets J screen (wid ∷ wids) ws s) ≡ some after =
                    sym (step ∙ rw r refl) ∙ h in
                  let more = check_widgets_sound screen (wid ∷ wids) ws s after passed in
                  let named : id_of w ≡ wid = rw e refl in
                  (
                    ((rw e refl, rw t refl), more.0),
                    subst (λ i. (is_in i wids ≡ false) × AreFresh (i ∷ wids) (map id_of ws))
                        (sym named) (f, more.1),
                  )
            ]
          ]
        ]
      ]
