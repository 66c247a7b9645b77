-- ===== src/Rows.antt =====
-- The rows of the notifications widget of main/jlp/widgets/widget_factory.cpp.
use espos_p4_cockpit.Prelude.{
  ℕ, zero, suc, ◌+◌, ◌*◌, ◌/◌, ◌%◌, ◌^◌, String, ◌=s◌, Bool, not, ltb, leb, if◌then◌else◌, List, [],
  ◌∷◌, some, length, take, ◌==◌,
}
use espos_p4_cockpit.Notifications.{
  NotState, nominal, normal, alert, warn, alarm, emergency, Notification, Registry, parse_not_state,
  not_state_name, snapshot,
}
pub mod Tint

pub record ListColumn : Type 0 where
  pub field : String
  pub width : ℕ

-- Of `ListCtx`; 0 stands for each `max_rows` that is not positive.
pub record ListCtx : Type 0 where
  pub columns : List ListColumn
  pub row_color_field : String
  pub max_rows : ℕ
  pub row_height : ℕ
  pub bg : ℕ
  pub fg : ℕ
  pub include_cleared : Bool

pub record Cell : Type 0 where
  pub x : ℕ
  pub width : ℕ
  pub fg : ℕ
  pub text : String

pub record Row : Type 0 where
  pub y : ℕ
  pub bg : ℕ
  pub cells : List Cell

unfoldable pub read_field_str : Notification → String → String
read_field_str n f =
    if f =s "path"
    then n.path
    else if f =s "state"
    then not_state_name n.state
    else if f =s "message"
    then n.message
    else ""

abbrev pub state_color : NotState → ℕ
state_color nominal = 0x3fb950
state_color normal = 0x3fb950
state_color alert = 0xd29922
state_color warn = 0xdb6d28
state_color alarm = 0xf85149
state_color emergency = 0xa371f7

abbrev pub row_color_for : String → ℕ
row_color_for state_token = state_color (parse_not_state (some state_token))

-- The dark text on a background whose perceived brightness is at least 128.
unfoldable pub row_text_color_for : ℕ → ℕ → ℕ
row_text_color_for row_bg default_fg =
    let r = row_bg / 2 ^ 16 % 256 in
    let g = row_bg / 2 ^ 8 % 256 in
    let b = row_bg % 256 in
    if leb 128 ((r * 299 + g * 587 + b * 114) / 1000) then 0x0d1117 else default_fg

unfoldable pub row_bg : ListCtx → Notification → ℕ
row_bg lc n =
    let token = read_field_str n lc.row_color_field in
    if lc.row_color_field =s "" then lc.bg else if token =s "" then lc.bg else row_color_for token

-- The cells of a row from the position `x` on.
unfoldable pub cells_from : Notification → ℕ → ℕ → List ListColumn → List Cell
cells_from n fg x [] = []
cells_from n fg x (col ∷ cols) =
    record { x = x; width = col.width; fg = fg; text = read_field_str n col.field }
    ∷ cells_from n fg (x + col.width) cols

abbrev pub row : ListCtx → Notification → ℕ → Row
row lc n y =
    let bg = row_bg lc n in
    record { y = y; bg = bg; cells = cells_from n (row_text_color_for bg lc.fg) 0 lc.columns }

unfoldable pub rows_from : ListCtx → ℕ → List Notification → List Row
rows_from lc r [] = []
rows_from lc r (n ∷ ns) = row lc n (r * lc.row_height) ∷ rows_from lc (r + 1) ns

abbrev pub row_limit : ListCtx → ℕ
row_limit lc = if ltb 0 lc.max_rows then lc.max_rows else 8

-- The rows, and whether the label for no notifications is there.
abbrev pub list_rebuild_rows : ListCtx → Registry → List Row × Bool
list_rebuild_rows lc reg =
    let rows = take (row_limit lc) (snapshot lc.include_cleared reg) in
    (rows_from lc 0 rows, length rows == 0)
