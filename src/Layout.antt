-- ===== src/Layout.antt =====
-- main/jlp/layout/layout_manager.cpp: the layout manager. This file holds validate() and what it
-- calls; the children hold the screen switcher and the swap, and what is proved of them. An error
-- text is a constructor that holds the variable parts of the text.
pub mod Switcher
pub mod Bindings
pub mod Widgets
pub mod Accepted
use espos_p4_cockpit.Prelude.{
  ℕ, String, Bool, true, false, not, ◌&&◌, ◌||◌, List, [], ◌∷◌, Option, none, some, ◌==◌,
  if◌then◌else◌, or_else, ◌=s◌,
}
use espos_p4_cockpit.Prelude.Dict.{Dict, lookup, insert}
use espos_p4_cockpit.Json.{JsonLib}

pub data SubjectKind : Type 0 where
  float int bool string : SubjectKind

abbrev pub same_kind : SubjectKind → SubjectKind → Bool
same_kind float float = true
same_kind int int = true
same_kind bool bool = true
same_kind string string = true
same_kind _ _ = false

unfoldable pub subject_kind_name : SubjectKind → String
subject_kind_name float = "Float"
subject_kind_name int = "Int"
subject_kind_name bool = "Bool"
subject_kind_name string = "String"

unfoldable pub expected_subject_kind : String → Option SubjectKind
expected_subject_kind type =
    if type =s "label"
    then some float
    else if type =s "value"
    then some float
    else if type =s "arc"
    then some float
    else if type =s "bar"
    then some float
    else if type =s "toggle"
    then some int
    else none

-- The texts that *err may hold after validate().
pub data Rejection : Type 0 where
  unsupported_schema : ℕ → Rejection
  no_screens : Rejection
  screen_missing_id : Rejection
  duplicate_screen_id : String → Rejection
  widget_missing_id : Rejection
  duplicate_widget_id : (screen widget : String) → Rejection
  widget_missing_type : (screen : String) → Rejection
  kind_conflict : (path type widget wants was : String) → Rejection

-- What a check answers: false and the text, or what it has seen so far.
pub data Verdict {ℓ} (A : Type ℓ) : Type ℓ where
  rejected : Rejection → Verdict A
  accepted : A → Verdict A

-- The label of a widget is its type and its id.
unfoldable pub record_path_kind :
    String → SubjectKind → String → String → Dict SubjectKind → Verdict (Dict SubjectKind)
unfolding subject_kind_name
record_path_kind path kind type widget seen = elim (lookup path seen) [
  | none ↦ accepted (insert path kind seen)
  | some was ↦
      if not (same_kind was kind)
      then rejected
          (kind_conflict path type widget (subject_kind_name kind) (subject_kind_name was))
      else accepted seen
]

-- `ids.count(id) > 0`.
abbrev pub is_in : String → List String → Bool
is_in id [] = false
is_in id (i ∷ ids) = (i =s id) || is_in id ids

module _ (J : JsonLib) where
  open J use {Json, member, elements, text, number}

  -- The loop over the bars of a bargroup.
  unfoldable pub check_bars :
      String → String → List Json → Dict SubjectKind → Verdict (Dict SubjectKind)
  unfolding record_path_kind
  check_bars type widget [] seen = accepted seen
  check_bars type widget (b ∷ bs) seen = elim (text (member b "bind")) [
    | none ↦ check_bars type widget bs seen
    | some path ↦ elim (record_path_kind path float type widget seen) [
      | rejected e ↦ rejected e
      | accepted seen' ↦ check_bars type widget bs seen'
    ]
  ]

  -- The kind check of one widget.
  unfoldable pub check_kinds :
      String → String → Json → Dict SubjectKind → Verdict (Dict SubjectKind)
  unfolding check_bars expected_subject_kind
  check_kinds type widget w seen =
      if type =s "bargroup"
      then check_bars type widget (elements (member w "bars")) seen
      else elim (text (member w "bind")) [
        | none ↦ accepted seen
        | some bind ↦ elim (expected_subject_kind type) [
          | none ↦ accepted seen
          | some kind ↦ record_path_kind bind kind type widget seen
        ]
      ]

  -- The loop over the widgets of one screen; `wids` are the ids before.
  unfoldable pub check_widgets :
      String → List String → List Json → Dict SubjectKind → Verdict (Dict SubjectKind)
  unfolding check_kinds
  check_widgets screen wids [] seen = accepted seen
  check_widgets screen wids (w ∷ ws) seen = elim (text (member w "id")) [
    | none ↦ rejected widget_missing_id
    | some wid ↦
        if is_in wid wids
        then rejected (duplicate_widget_id screen wid)
        else elim (text (member w "type")) [
          | none ↦ rejected (widget_missing_type screen)
          | some type ↦ elim (check_kinds type wid w seen) [
            | rejected e ↦ rejected e
            | accepted seen' ↦ check_widgets screen (wid ∷ wids) ws seen'
          ]
        ]
  ]

  -- The loop over the screens; `ids` are the screen ids before.
  unfoldable pub check_screens :
      List String → List Json → Dict SubjectKind → Verdict (Dict SubjectKind)
  unfolding check_widgets
  check_screens ids [] seen = accepted seen
  check_screens ids (s ∷ ss) seen = elim (text (member s "id")) [
    | none ↦ rejected screen_missing_id
    | some sid ↦
        if is_in sid ids
        then rejected (duplicate_screen_id sid)
        else elim (check_widgets sid [] (elements (member s "widgets")) seen) [
          | rejected e ↦ rejected e
          | accepted seen' ↦ check_screens (sid ∷ ids) ss seen'
        ]
  ]

  -- `*err` where validate() answers false, none where it answers true.
  unfoldable pub validate : Json → Option Rejection
  unfolding check_screens
  validate doc =
      let schema = or_else (number (member doc "schema")) 0 in
      if not (schema == 1)
      then some (unsupported_schema schema)
      else elim (elements (member doc "screens")) [
        | [] ↦ some no_screens
        | s ∷ ss ↦ elim (check_screens [] (s ∷ ss) []) [
          | rejected e ↦ some e
          | accepted seen ↦ none
        ]
      ]
