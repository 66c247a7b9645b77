-- ===== src/Swap.antt =====
-- LayoutManager::apply() of main/jlp/layout/layout_manager.cpp: a layout is parsed, validated, built
-- beside the one on the screen, and swapped in. The construction of one widget is the parameter
-- `build_widget`, over a state of its own (the LVGL objects and the subjects); `utf8` gives the bytes
-- of a text.
pub mod Atomic
pub mod Trees
use espos_p4_cockpit.Prelude.{
  ℕ, ◌+◌, ◌*◌, ◌^◌, String, Bool, true, false, not, ◌&&◌, ◌||◌, List, [], ◌∷◌, ◌++◌, map, Option,
  none, some, ltb, ◌==◌, if◌then◌else◌, or_else, ◌=s◌, length, Bytes,
}
use espos_p4_cockpit.Json.{JsonLib}
use espos_p4_cockpit.Notifications.{alarm, parse_not_state, Registry}
use espos_p4_cockpit.Alert.{AlertOverlay, configure as configure_alert}
use espos_p4_cockpit.Dimmer.{Dimmer, configure as configure_dimmer}
use espos_p4_cockpit.Theme.{ThemeColors, color_of, apply_theme}
use espos_p4_cockpit.Store.{Nvs, Store, store_write_atomic}
use espos_p4_cockpit.Layout.{Rejection, is_in, validate}
use espos_p4_cockpit.Layout.Switcher.{ScreenSwitcherCtx, build_switcher}

pub data ApplySource : Type 0 where
  boot boot_store boot_default post_layout boot_fetched : ApplySource

abbrev pub is_post : ApplySource → Bool
is_post post_layout = true
is_post _ = false

-- What ApplyResult::err says.
pub data Failure : Type 0 where
  not_initialised too_large unparsed : Failure
  invalid : Rejection → Failure
  unbuilt : String → Failure

pub record ApplyResult : Type 0 where
  pub err : Option Failure  -- none where `ok`
  pub name : String
  pub screens : ℕ
  pub widgets : ℕ
  pub unsaved : Bool  -- the warning

abbrev pub no_result : ApplyResult
no_result = record { err = none; name = ""; screens = 0; widgets = 0; unsaved = false }

-- A layout tree below `parent_`; `running` is what the streams of a single screen were told.
pub record Root : Type 0 where
  pub id : ℕ
  pub hidden : Bool
  pub bg : Option ℕ
  pub switcher : Option ScreenSwitcherCtx
  pub running : Bool

-- The arguments of the post-swap hook.
pub record Swapped : Type 0 where
  pub introduced : List String
  pub source : ApplySource
  pub all_paths : List String

-- The paths that the layout before did not bind. The sets of paths are lists here: order and repeats
-- do not count.
abbrev pub outside_of : List String → List String → List String
outside_of known [] = []
outside_of known (p ∷ ps) =
    let rest = outside_of known ps in if is_in p known then rest else p ∷ rest

abbrev pub remove_root : Option ℕ → List Root → List Root
remove_root none roots = roots
remove_root (some id) [] = []
remove_root (some id) (r ∷ rs) =
    let rest = remove_root (some id) rs in if r.id == id then rest else r ∷ rest

module _ (J : JsonLib) (N : Nvs) (X : Type 0) (utf8 : String → Bytes) where
  open J use {Json, deserialize, is_null, member, elements, text, number, truth}

  pub record Built : Type 0 where
    pub outside : X
    pub live : List String
    pub count : ℕ
    pub err : Option String

  pub record Panel : Type 0 where
    pub parent : Bool
    pub roots : List Root
    pub current : Option ℕ
    pub next_id : ℕ
    pub active_name : String
    pub active_source : ApplySource
    pub known_paths : List String
    pub theme : ThemeColors
    pub status_visible : Bool
    pub notifications : Registry
    pub alerts : AlertOverlay
    pub dimmer : Dimmer
    pub store : Store N
    pub outside : X

  module _ (build_widget : ThemeColors → Json → X → X × Option String × List String) where
    -- The widgets of one screen, up to the first that fails.
    unfoldable pub build_widgets : ThemeColors → List Json → Built → Built
    build_widgets theme [] b = b
    build_widgets theme (w ∷ ws) b =
        let (x, failed, bound) = build_widget theme w b.outside in
        let live = b.live ++ bound in
        elim failed [
          | some why ↦ record b { outside = x; live = live; err = some why }
          | none ↦
              build_widgets theme ws (record b { outside = x; live = live; count = b.count + 1 })
        ]

    -- The loop over the screens, up to the first that fails.
    unfoldable pub build_screens : ThemeColors → List Json → Built → Built
    unfolding build_widgets
    build_screens theme [] b = b
    build_screens theme (s ∷ ss) b =
        let b₁ = build_widgets theme (elements (member s "widgets")) b in
        elim b₁.err [ some why ↦ b₁ | none ↦ build_screens theme ss b₁ ]

    -- A layout without screens fails before any of them.
    unfoldable pub build_layout : ThemeColors → List Json → Built → Built
    unfolding build_screens
    build_layout theme [] b = record b { err = some "no screens" }
    build_layout theme (s ∷ ss) b = build_screens theme (s ∷ ss) b

    -- The settings of the layout for the status strip, the alert overlay and the dimmer.
    unfoldable pub apply_settings : ℕ → Json → Panel → Panel
    apply_settings tick doc p =
        let notif = member doc "notifications" in
        let display = member doc "display" in
        let enabled =
          if is_null notif then true else or_else (truth (member notif "enabled")) true in
        let min_state =
          if is_null notif
          then alarm
          else parse_not_state (some (or_else (text (member notif "min_state")) "alarm")) in
        let seconds = or_else (number (member display "idle_timeout_sec")) 0 in
        let pct = or_else (number (member display "idle_dim_pct")) 0 in
        let timeout = if not (is_null display) && ltb seconds (2 ^ 32) then seconds else 0 in
        let dim = if not (is_null display) && ltb pct 256 then pct else 0 in
        record p {
          status_visible = or_else (truth (member doc "status_overlay")) true;
          alerts = configure_alert tick enabled min_state p.notifications p.alerts;
          dimmer = configure_dimmer timeout dim p.dimmer;
        }

    -- The part of apply() after a build that succeeded.
    unfoldable pub swap_in :
        ℕ → String → ApplySource → Json → Built → Panel → ApplyResult × Panel × Swapped
    unfolding apply_settings
    swap_in tick json source doc b p =
        let screens = elements (member doc "screens") in
        let ids = map (λ s. or_else (text (member s "id")) "") screens in
        let theme = member doc "theme" in
        let staging : Root = record {
          id = p.next_id;
          hidden = false;
          bg = if is_null theme then none else color_of J theme "bg";
          switcher = build_switcher ids;
          running = length screens == 1;
        } in
        let set = apply_settings tick doc p in
        let (saved, written) = store_write_atomic N (utf8 json) p.store in
        let name = or_else (text (member doc "name")) "(unnamed)" in
        (
          record {
            err = none;
            name = name;
            screens = length screens;
            widgets = b.count;
            unsaved = is_post source && not saved;
          },
          record set {
            roots = remove_root p.current (staging ∷ p.roots);
            current = some p.next_id;
            next_id = p.next_id + 1;
            active_name = name;
            active_source = source;
            known_paths = b.live;
            theme = apply_theme J theme p.theme;
            store = if is_post source then written else p.store;
            outside = b.outside;
          },
          record {
            introduced = outside_of p.known_paths b.live;
            source = source;
            all_paths = b.live;
          },
        )

    -- The hook is called exactly where the third part holds its arguments. The theme that is set for a build
    -- and put back when it fails, and the staging tree that is then deleted, are no steps of their own: a
    -- failed build leaves the panel as it was but for what the builders changed.
    unfoldable pub apply : ℕ → String → ApplySource → Panel → ApplyResult × Panel × Option Swapped
    unfolding build_layout swap_in
    apply tick json source p =
        if not p.parent
        then (record no_result { err = some not_initialised }, p, none)
        else if ltb (64 * 1024) (length (utf8 json))
        then (record no_result { err = some too_large }, p, none)
        else elim (deserialize json) [
          | none ↦ (record no_result { err = some unparsed }, p, none)
          | some doc ↦ elim (validate J doc) [
            | some why ↦ (record no_result { err = some (invalid why) }, p, none)
            | none ↦
                let theme = apply_theme J (member doc "theme") p.theme in
                let start : Built = record {
                  outside = p.outside;
                  live = [];
                  count = 0;
                  err = none;
                } in
                let b = build_layout theme (elements (member doc "screens")) start in
                elim b.err [
                  | some why ↦ (
                    record no_result { err = some (unbuilt why); widgets = b.count },
                    record p { outside = b.outside },
                    none,
                  )
                  | none ↦
                      let (result, after, swapped) = swap_in tick json source doc b p in
                      (result, after, some swapped)
                ]
          ]
        ]
