-- ===== src/Builders.antt =====
-- The dispatch of build_widget() in main/jlp/widgets/widget_factory.cpp, and the subjects that each
-- builder asks the registry for.
pub mod Named
pub mod Kinds
use espos_p4_cockpit.Prelude.{
  String, Bool, true, false, not, Option, none, some, List, [], ◌∷◌, ◌++◌, ◌=s◌, ◌||◌,
  if◌then◌else◌,
}
use espos_p4_cockpit.Json.{JsonLib}
use espos_p4_cockpit.Layout.{SubjectKind, float, int, string}
use espos_p4_cockpit.Layout.Bindings.{Binding}

pub data Builder : Type 0 where
  build_label build_value build_toggle build_arc build_bar build_bargroup build_button : Builder
  build_notifications build_anchor build_anchor_track build_voice build_speaker build_mic : Builder
  build_volume build_slider build_stream : Builder

-- The tests of build_widget() on the type; none is its "unknown widget kind".
unfoldable pub builder_of : String → Option Builder
builder_of t =
    if t =s "label"
    then some build_label
    else if t =s "value"
    then some build_value
    else if t =s "toggle"
    then some build_toggle
    else if t =s "arc"
    then some build_arc
    else if t =s "bar"
    then some build_bar
    else if t =s "bargroup"
    then some build_bargroup
    else if t =s "button"
    then some build_button
    else if t =s "notifications"
    then some build_notifications
    else if t =s "anchor"
    then some build_anchor
    else if t =s "anchor_track"
    then some build_anchor_track
    else if t =s "voice"
    then some build_voice
    else if t =s "speaker" || t =s "mute_speaker"
    then some build_speaker
    else if t =s "mic" || t =s "mute_mic"
    then some build_mic
    else if t =s "volume"
    then some build_volume
    else if t =s "slider"
    then some build_slider
    else if t =s "stream"
    then some build_stream
    else none

-- The fixed paths of the two anchor widgets.
abbrev pub anchor_paths : String → List Binding
anchor_paths bearing =
    ("navigation.anchor.state", string)
    ∷ (bearing, float)
    ∷ ("navigation.anchor.currentRadius", float)
    ∷ ("navigation.anchor.maxRadius", float)
    ∷ []

module _ (J : JsonLib) where
  open J use {Json, member, elements, text}

  abbrev pub asks : SubjectKind → Option String → List Binding
  asks kind none = []
  asks kind (some path) = (path, kind) ∷ []

  -- A toggle that is bound to "@audio_mute" asks for no subject.
  abbrev pub toggle_asks : Option String → List Binding
  toggle_asks none = []
  toggle_asks (some path) = if path =s "@audio_mute" then [] else (path, int) ∷ []

  abbrev pub bars_ask : List Json → List Binding
  bars_ask [] = []
  bars_ask (b ∷ bs) = asks float (text (member b "bind")) ++ bars_ask bs

  -- The calls of get_or_create(), where none of them fails.
  unfoldable pub subjects_of : Builder → Json → List Binding
  subjects_of build_label w = asks float (text (member w "bind"))
  subjects_of build_value w = asks float (text (member w "bind"))
  subjects_of build_toggle w = toggle_asks (text (member w "bind"))
  subjects_of build_arc w = asks float (text (member w "bind"))
  subjects_of build_bar w = asks float (text (member w "bind"))
  subjects_of build_bargroup w = bars_ask (elements (member w "bars"))
  subjects_of build_anchor w = anchor_paths "navigation.anchor.apparentBearing"
  subjects_of build_anchor_track w = anchor_paths "navigation.anchor.bearingTrue"
  subjects_of build_slider w = asks float (text (member w "bind"))
  subjects_of _ w = []

  abbrev pub built_by : Option Builder → Json → List Binding
  built_by none w = []
  built_by (some b) w = subjects_of b w

  abbrev pub typed : Option String → Option Builder
  typed none = none
  typed (some t) = builder_of t

  unfoldable pub widget_subjects : Json → List Binding
  unfolding builder_of subjects_of
  widget_subjects w = built_by (typed (text (member w "type"))) w

  -- The loops over widgets and screens of build_screens().
  unfoldable pub widgets_subjects : List Json → List Binding
  unfolding widget_subjects
  widgets_subjects [] = []
  widgets_subjects (w ∷ ws) = widget_subjects w ++ widgets_subjects ws

  unfoldable pub screens_subjects : List Json → List Binding
  unfolding widgets_subjects
  screens_subjects [] = []
  screens_subjects (s ∷ ss) =
      widgets_subjects (elements (member s "widgets")) ++ screens_subjects ss
