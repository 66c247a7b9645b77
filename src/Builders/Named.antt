-- ===== src/Builders/Named.antt =====
-- The builders of main/jlp/widgets/widget_factory.cpp whose types expected_subject_kind() of
-- main/jlp/layout/layout_manager.cpp knows: their names, and the binds of their widgets.
use espos_p4_cockpit.Prelude.{
  ◌≡◌, inl, inr, String, Bool, true, false, Option, none, some, List, [], ◌∷◌, ◌++◌, ◌=s◌, str_iff,
  if◌then◌else◌, arith,
}
use espos_p4_cockpit.Prelude.Dict.{lookup}
use espos_p4_cockpit.Json.{JsonLib}
use espos_p4_cockpit.Layout.{SubjectKind, float, int}
use espos_p4_cockpit.Layout.Bindings.{Binding, Binds}
use espos_p4_cockpit.Layout.Widgets.{bar_bindings, widget_bindings}
use espos_p4_cockpit.Builders.{
  build_label, build_value, build_toggle, build_arc, build_bar, build_bargroup, builder_of, asks,
  toggle_asks, bars_ask,
}

pub label_named : (t : String) → builder_of t ≡ some build_label → t ≡ "label"
unfolding builder_of
label_named t h = (str_iff t "label").0 (ground arith)

pub value_named : (t : String) → builder_of t ≡ some build_value → t ≡ "value"
unfolding builder_of
value_named t h = (str_iff t "value").0 (ground arith)

pub toggle_named : (t : String) → builder_of t ≡ some build_toggle → t ≡ "toggle"
unfolding builder_of
toggle_named t h = (str_iff t "toggle").0 (ground arith)

pub arc_named : (t : String) → builder_of t ≡ some build_arc → t ≡ "arc"
unfolding builder_of
arc_named t h = (str_iff t "arc").0 (ground arith)

pub bar_named : (t : String) → builder_of t ≡ some build_bar → t ≡ "bar"
unfolding builder_of
bar_named t h = (str_iff t "bar").0 (ground arith)

pub bargroup_named : (t : String) → builder_of t ≡ some build_bargroup → t ≡ "bargroup"
unfolding builder_of
bargroup_named t h = (str_iff t "bargroup").0 (ground arith)

module _ (J : JsonLib) where
  open J use {Json, member, elements, text}

  Binds-asks :
      (path : String) (kind k : SubjectKind) (o : Option String)
      → Binds path k (asks J kind o)
      → Binds path k (elim o as (λ x. List Binding) [ none ↦ [] | some p ↦ (p, kind) ∷ [] ])
  Binds-asks path kind k none h = h
  Binds-asks path kind k (some p) h = h

  if-Binds :
      (b : Bool) (path : String) (k : SubjectKind) (xs : List Binding)
      → Binds path k (if b then [] else xs)
      → Binds path k xs
  if-Binds true path k xs h = absurd h
  if-Binds false path k xs h = h

  Binds-toggle_asks :
      (path : String) (k : SubjectKind) (o : Option String)
      → Binds path k (toggle_asks J o)
      → Binds path k (elim o as (λ x. List Binding) [ none ↦ [] | some p ↦ (p, int) ∷ [] ])
  Binds-toggle_asks path k none h = h
  Binds-toggle_asks path k (some p) h = if-Binds (p =s "@audio_mute") path k ((p, int) ∷ []) h

  bar-Binds :
      (path : String) (k : SubjectKind) (o : Option String) (xs ys : List Binding)
      → (Binds path k xs → Binds path k ys)
      → Binds path k (asks J float o ++ xs)
      → Binds path k (elim o as (λ x. List Binding) [ none ↦ ys | some p ↦ (p, float) ∷ ys ])
  bar-Binds path k none xs ys f h = f h
  bar-Binds path k (some p) xs ys f h = elim h [ inl here ↦ inl here | inr later ↦ inr (f later) ]

  Binds-bars_ask :
      (path : String) (k : SubjectKind) (bs : List Json)
      → Binds path k (bars_ask J bs)
      → Binds path k (bar_bindings J bs)
  Binds-bars_ask path k [] h = h
  Binds-bars_ask path k (b ∷ bs) h =
      bar-Binds path k (text (member b "bind")) (bars_ask J bs) (bar_bindings J bs)
        (Binds-bars_ask path k bs) h

  pub as_label :
      (path : String) (k : SubjectKind) (w : Json)
      → Binds path k (asks J float (text (member w "bind")))
      → Binds path k (widget_bindings J "label" w)
  unfolding lookup ◌=s◌
  as_label path k w h = Binds-asks path float k (text (member w "bind")) h

  pub as_value :
      (path : String) (k : SubjectKind) (w : Json)
      → Binds path k (asks J float (text (member w "bind")))
      → Binds path k (widget_bindings J "value" w)
  unfolding lookup ◌=s◌
  as_value path k w h = Binds-asks path float k (text (member w "bind")) h

  pub as_toggle :
      (path : String) (k : SubjectKind) (w : Json)
      → Binds path k (toggle_asks J (text (member w "bind")))
      → Binds path k (widget_bindings J "toggle" w)
  unfolding lookup ◌=s◌
  as_toggle path k w h = Binds-toggle_asks path k (text (member w "bind")) h

  pub as_arc :
      (path : String) (k : SubjectKind) (w : Json)
      → Binds path k (asks J float (text (member w "bind")))
      → Binds path k (widget_bindings J "arc" w)
  unfolding lookup ◌=s◌
  as_arc path k w h = Binds-asks path float k (text (member w "bind")) h

  pub as_bar :
      (path : String) (k : SubjectKind) (w : Json)
      → Binds path k (asks J float (text (member w "bind")))
      → Binds path k (widget_bindings J "bar" w)
  unfolding lookup ◌=s◌
  as_bar path k w h = Binds-asks path float k (text (member w "bind")) h

  pub as_bargroup :
      (path : String) (k : SubjectKind) (w : Json)
      → Binds path k (bars_ask J (elements (member w "bars")))
      → Binds path k (widget_bindings J "bargroup" w)
  unfolding lookup ◌=s◌
  as_bargroup path k w h = Binds-bars_ask path k (elements (member w "bars")) h
