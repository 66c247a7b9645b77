-- ===== src/Store.antt =====
-- main/jlp/layout/store.cpp: the layout and the panel's settings in the NVS partition "layout". NVS is
-- not part of the repository: it is the interface `Nvs`. A handle belongs to the one namespace that the
-- program opens, so the calls on it are calls on the state.
pub mod RoundTrip
use espos_p4_cockpit.Prelude.{
  ℕ, String, Bool, true, false, not, ◌&&◌, ◌||◌, List, Option, none, some, ltb, ◌==◌, if◌then◌else◌,
  or_else, Bytes,
}

-- The esp_err_t values that the program tells apart.
pub data Err : Type 0 where
  ok no_free_pages new_version_found not_found failed : Err

abbrev pub is_ok : Err → Bool
is_ok ok = true
is_ok _ = false

pub record Nvs : Type 1 where
  pub State : Type 0
  pub init_partition : State → Err × State
  pub erase_partition : State → State
  pub open_ro : State → Err × State
  pub open_rw : State → Err × State
  pub close : State → State
  pub blob_size : String → State → Option ℕ  -- nvs_get_blob() without a buffer
  pub get_blob : String → State → Option Bytes
  pub set_blob : String → Bytes → State → Err × State
  pub get_u8 : String → State → Option ℕ
  pub set_u8 : String → ℕ → State → Err × State
  pub erase_key : String → State → Err × State
  pub commit : State → Err × State

-- What g_boot_report says.
pub data Report : Type 0 where
  uninit : Report
  init_failed : Err → Report
  layout_size : ℕ → Report

abbrev pub key : String
key = "layout"

-- `err == ESP_ERR_NVS_NO_FREE_PAGES || err == ESP_ERR_NVS_NEW_VERSION_FOUND`.
abbrev pub wants_erase : Err → Bool
wants_erase no_free_pages = true
wants_erase new_version_found = true
wants_erase _ = false

module _ (N : Nvs) where
  open N use {
    State, init_partition, erase_partition, open_ro, open_rw, close, blob_size, get_blob, set_blob,
    get_u8, set_u8, erase_key, commit,
  }

  pub record Store : Type 0 where
    pub ready : Bool
    pub boot_report : Report
    pub nvs : State

  -- Mounting, with the one erase of a blank or old partition.
  unfoldable pub mount : State → Err × State
  mount w =
      let (err, w₁) = init_partition w in
      if wants_erase err then init_partition (erase_partition w₁) else (err, w₁)

  unfoldable pub store_init : Store → Bool × Store
  unfolding mount
  store_init s =
      let (err, w) = mount s.nvs in
      let (opened, w₁) = open_ro w in
      let size = if is_ok opened then or_else (blob_size key w₁) 0 else 0 in
      if s.ready
      then (true, s)
      else if not (is_ok err)
      then (false, record s { boot_report = init_failed err; nvs = w })
      else (
        true,
        record s {
          ready = true;
          boot_report = layout_size size;
          nvs = if is_ok opened then close w₁ else w₁;
        },
      )

  -- `none` stands for false. What opening for a read does to the state is given up with the handle,
  -- so the reads answer no state.
  unfoldable pub store_read : Store → Option Bytes
  store_read s =
      let (err, w) = open_ro s.nvs in
      if not s.ready || not (is_ok err) then none else elim (blob_size key w) [
        | none ↦ none
        | some size ↦ if size == 0 then none else get_blob key w
      ]

  -- The write of one entry on an open handle: set, then commit only where that succeeded, then close.
  unfoldable pub finish : Err × State → Bool × State
  finish (err, w) =
      if is_ok err then (let (done, w₁) = commit w in (is_ok done, close w₁)) else (false, close w)

  unfoldable pub store_write_atomic : Bytes → Store → Bool × Store
  unfolding finish
  store_write_atomic json s =
      let (err, w) = open_rw s.nvs in
      let (done, w₁) = finish (set_blob key json w) in
      if not s.ready
      then (false, s)
      else if not (is_ok err)
      then (false, record s { nvs = w })
      else (done, record s { nvs = w₁ })

  -- An entry that is not there counts as cleared.
  unfoldable pub store_clear : Store → Bool × Store
  unfolding finish
  store_clear s =
      let (err, w) = open_rw s.nvs in
      let (erased, w₁) = erase_key key w in
      let (done, w₂) = finish (erased, w₁) in
      if not s.ready
      then (false, s)
      else if not (is_ok err)
      then (false, record s { nvs = w })
      else (elim erased [ not_found ↦ true | ok ↦ done | _ ↦ done ], record s { nvs = w₂ })

  unfoldable pub store_u8_get : String → ℕ → Store → ℕ
  store_u8_get name dflt s =
      let (err, w) = open_ro s.nvs in if not (is_ok err) then dflt else or_else (get_u8 name w) dflt

  unfoldable pub store_flag_get : String → Bool → Store → Bool
  store_flag_get name dflt s =
      let (err, w) = open_ro s.nvs in
      if not (is_ok err) then dflt else elim (get_u8 name w) [ none ↦ dflt | some v ↦ not (v == 0) ]

  unfoldable pub store_u8_set : String → ℕ → Store → Bool × Store
  unfolding finish
  store_u8_set name value s =
      let (err, w) = open_rw s.nvs in
      let (done, w₁) = finish (set_u8 name value w) in
      if not (is_ok err) then (false, record s { nvs = w }) else (done, record s { nvs = w₁ })

  unfoldable pub store_flag_set : String → Bool → Store → Bool × Store
  unfolding store_u8_set
  store_flag_set name value s = store_u8_set name (if value then 1 else 0) s
