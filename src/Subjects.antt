-- ===== src/Subjects.antt =====
-- main/jlp/subject_registry.{h,cpp}: the registry of the values that widgets observe, one for each
-- bound path, with its espOS subscription. The allocator of LVGL and the subscription table of
-- espOS are not part of the repository: they are the interface `Outside`. A handle that is not
-- positive is 0 here.
pub mod Updates
pub mod Lifetime
use espos_p4_cockpit.Prelude.{
  ℕ, ◌<◌, String, Bool, true, false, not, ◌&&◌, ◌||◌, List, [], ◌∷◌, Option, none, some, ltb, ◌==◌,
  if◌then◌else◌, ◌=s◌, Bytes, codes, last_is, drop_last,
}
use espos_p4_cockpit.Prelude.Dict.{Dict, lookup}
use espos_p4_cockpit.Layout.{SubjectKind, float, int, bool, string, same_kind}

-- lv_subject_create(), espos_sk_subscribe() and espos_sk_unsubscribe() on the state behind them;
-- `none` is a null subject. Bool and Int subjects are of one LVGL type.
pub record Outside : Type 1 where
  pub State : Type 0
  pub create : SubjectKind → State → Option ℕ × State
  pub subscribe : String → State → ℕ × State
  pub unsubscribe : ℕ → State → State

pub record Slot : Type 0 where
  pub kind : SubjectKind
  pub subject : ℕ
  pub sub_handle : ℕ

abbrev pub Registry : Type 0
Registry = Dict Slot

unfoldable pub is_local_sentinel : String → Bool
is_local_sentinel path = elim (codes path) [ [] ↦ false | c ∷ cs ↦ c == b'@' ]

-- `v == "..."`.
abbrev is_code_list : Bytes → Bytes → Bool
is_code_list [] [] = true
is_code_list (x ∷ xs) (y ∷ ys) = (x == y) && is_code_list xs ys
is_code_list _ _ = false

abbrev pub is_text : String → Bytes → Bool
is_text s v = is_code_list (codes s) v

module _ (W : Outside) where
  open W use {State, create, subscribe, unsubscribe}

  -- The handle of a new slot.
  unfoldable pub open_subscription : String → State → ℕ × State
  unfolding is_local_sentinel
  open_subscription path w = if is_local_sentinel path then (0, w) else subscribe path w

  unfoldable pub get_or_create :
      String → SubjectKind → Registry × State → Option ℕ × Registry × State
  unfolding open_subscription
  get_or_create path kind (r, w) = elim (lookup path r) [
    | some slot ↦ (if not (same_kind slot.kind kind) then none else some slot.subject, r, w)
    | none ↦
        let (made, w₁) = create kind w in
        elim made [
          | none ↦ (none, r, w₁)
          | some subject ↦
              let (handle, w₂) = open_subscription path w₁ in
              let slot : Slot = record { kind = kind; subject = subject; sub_handle = handle } in
              (some subject, (path, slot) ∷ r, w₂)
        ]
  ]

  unfoldable pub lookup_subject : String → Registry → Option ℕ
  lookup_subject path r = elim (lookup path r) [ none ↦ none | some slot ↦ some slot.subject ]

  unfoldable pub kind_of : String → Registry → Option SubjectKind
  kind_of path r = elim (lookup path r) [ none ↦ none | some slot ↦ some slot.kind ]

  unfoldable pub paths : Registry → List String
  paths [] = []
  paths ((path, slot) ∷ r) = path ∷ paths r

  -- The body of the loop of garbage_collect().
  unfoldable pub collect_slot : Bool → String → Slot → State → Slot × State
  unfolding is_local_sentinel
  collect_slot live path slot w =
      if not live && ltb 0 slot.sub_handle
      then (record slot { sub_handle = 0 }, unsubscribe slot.sub_handle w)
      else if live && not (ltb 0 slot.sub_handle) && not (is_local_sentinel path)
      then (record slot { sub_handle = (subscribe path w).0 }, (subscribe path w).1)
      else (slot, w)

  -- `live` is `live_paths.count(path) > 0`.
  unfoldable pub garbage_collect : (String → Bool) → Registry × State → Registry × State
  unfolding collect_slot
  garbage_collect live ([], w) = ([], w)
  garbage_collect live (((path, slot) ∷ r), w) =
      let (slot', w₁) = collect_slot (live path) path slot w in
      let (r', w₂) = garbage_collect live (r, w₁) in ((path, slot') ∷ r', w₂)

-- The loop that undoes `\"` and `\\`.
unfoldable pub unescape : Bytes → Bytes
unescape [] = []
unescape (c ∷ []) = c ∷ []
unescape (c ∷ d ∷ cs) = elim (c == b'\\') [ true ↦ d ∷ unescape cs | false ↦ c ∷ unescape (d ∷ cs) ]

-- What a string subject shows of a value: the content of a JSON string, any other value verbatim.
unfoldable pub shown_text : Bytes → Bytes
unfolding unescape
shown_text [] = []
shown_text (x ∷ []) = x ∷ []
shown_text (x ∷ y ∷ xs) =
    if x == b'"' && last_is b'"' (y ∷ xs) then unescape (drop_last (y ∷ xs)) else x ∷ y ∷ xs

-- What the UI task does with a value: `strtof` and `strtol` are the C library's.
module _ (Real Whole : Type 0) (strtof : Bytes → Real) (strtol : Bytes → Whole)
    (of_bool : Bool → Whole) where
  pub data Write : Type 0 where
    set_float : Real → Write
    set_int : Whole → Write
    copy_string : Bytes → Write

  unfoldable pub on_value : SubjectKind → Bytes → Option Write
  unfolding shown_text
  on_value float v = if is_text "null" v then none else some (set_float (strtof v))
  on_value int v = if is_text "null" v then none else some (set_int (strtol v))
  on_value bool v = some (set_int (of_bool (is_text "true" v || is_text "1" v)))
  on_value string v = some (copy_string (shown_text v))
