-- ===== src/Rows/Tint.antt =====
-- Which notifications the widget shows, and in which colours.
use espos_p4_cockpit.Prelude.{
  ℕ, zero, suc, ◌+◌, ◌*◌, ◌≤◌, ◌≡◌, refl, ap, subst, if◌then◌else◌, ◌∙◌, min, List, [], ◌∷◌, some,
  length, get_elem?, take, drop, All, ◌=s◌, arith,
}
use espos_p4_cockpit.Notifications.{
  NotState, nominal, normal, alert, warn, alarm, emergency, rank, Notification, Registry, snapshot,
  not_state_name, parse_not_state,
}
use espos_p4_cockpit.Notifications.Severity.{IsDescending, snapshot_lem}
use espos_p4_cockpit.Rows.{
  ListColumn, ListCtx, read_field_str, state_color, row_text_color_for, row_bg, cells_from, row,
  rows_from, row_limit, list_rebuild_rows,
}

-- None of the notifications that are left out is above one that is shown.
abbrev pub IsCut : List Notification → List Notification → Type 0
IsCut shown hidden = All (λ n. All (λ m. rank m.state ≤ rank n.state) hidden) shown

IsDescending-IsCut :
    (k : ℕ) (ns : List Notification) → IsDescending ns → IsCut (take k ns) (drop k ns)
IsDescending-IsCut zero ns h = tt
IsDescending-IsCut (suc k) [] h = tt
IsDescending-IsCut (suc k) (n ∷ ns) (below, h) = (All-drop _ k ns below, IsDescending-IsCut k ns h)
  where
    All-drop :
        (P : Notification → Type 0) (k : ℕ) (ns : List Notification) → All P ns → All P (drop k ns)
    All-drop P zero ns all = all
    All-drop P (suc k) [] all = tt
    All-drop P (suc k) (n ∷ ns) (h, all) = All-drop _ k ns all

length-take-min : (k : ℕ) (ns : List Notification) → length (take k ns) ≡ min k (length ns)
length-take-min zero ns = omega arith
length-take-min (suc k) [] = omega arith
length-take-min (suc k) (n ∷ ns) = omega (arith, length-take-min k ns)

length-rows_from :
    (lc : ListCtx) (r : ℕ) (ns : List Notification) → length (rows_from lc r ns) ≡ length ns
unfolding rows_from
length-rows_from lc r [] = refl
length-rows_from lc r (n ∷ ns) = omega (arith, length-rows_from lc (r + 1) ns)

get_elem?-rows_from :
    (lc : ListCtx) (r i : ℕ) (ns : List Notification) (n : Notification)
    → get_elem? ns i ≡ some n
    → get_elem? (rows_from lc r ns) i ≡ some (row lc n ((r + i) * lc.row_height))
unfolding rows_from
get_elem?-rows_from lc r i [] n h = absurd (ground (arith, h))
get_elem?-rows_from lc r zero (m ∷ ns) n h =
    let same : m ≡ n = cc in
    let e : r ≡ r + zero = omega arith in
    ap (λ k. some (row lc k (r * lc.row_height))) same
    ∙ ap (λ k. some (row lc n (k * lc.row_height))) e
get_elem?-rows_from lc r (suc i) (m ∷ ns) n h =
    let e : r + 1 + i ≡ r + suc i = omega arith in
    get_elem?-rows_from lc (r + 1) i ns n h ∙ ap (λ k. some (row lc n (k * lc.row_height))) e

-- The widget has a row for each notification up to its limit, one below the other in the order of
-- the list, and leaves out none that is more severe than one that it shows.
list_rebuild_rows_lem :
    (lc : ListCtx) (reg : Registry)
    → let pending = snapshot lc.include_cleared reg in
      let rows = (list_rebuild_rows lc reg).0 in
      (length rows ≡ min (row_limit lc) (length pending))
      × IsCut (take (row_limit lc) pending) (drop (row_limit lc) pending)
      × ((i : ℕ) (n : Notification)
          → get_elem? (take (row_limit lc) pending) i ≡ some n
          → get_elem? rows i ≡ some (row lc n (i * lc.row_height)))
list_rebuild_rows_lem lc reg =
    let pending = snapshot lc.include_cleared reg in
    (
      length-rows_from lc 0 (take (row_limit lc) pending) ∙ length-take-min (row_limit lc) pending,
      IsDescending-IsCut (row_limit lc) pending (snapshot_lem lc.include_cleared reg).0,
      λ i n h.
          get_elem?-rows_from lc 0 i (take (row_limit lc) pending) n h
          ∙ ap (λ k. some (row lc n (k * lc.row_height))) (omega arith),
    )

-- On the colour of each state the text is dark.
row_text_color_for-state_color :
    (s : NotState) (fg : ℕ) → row_text_color_for (state_color s) fg ≡ 0x0d1117
unfolding row_text_color_for
row_text_color_for-state_color nominal fg = refl
row_text_color_for-state_color normal fg = refl
row_text_color_for-state_color alert fg = refl
row_text_color_for-state_color warn fg = refl
row_text_color_for-state_color alarm fg = refl
row_text_color_for-state_color emergency fg = refl

row_bg-state :
    (lc : ListCtx) (n : Notification)
    → lc.row_color_field ≡ "state"
    → row_bg lc n ≡ state_color n.state
unfolding row_bg read_field_str ◌=s◌ not_state_name parse_not_state
row_bg-state lc n h = rw h (named n.state)
  where
    named :
        (s : NotState)
        → (if not_state_name s =s ""
            then lc.bg
            else state_color (parse_not_state (some (not_state_name s))))
          ≡ state_color s
    named nominal = refl
    named normal = refl
    named alert = refl
    named warn = refl
    named alarm = refl
    named emergency = refl

cells_from-fg :
    (n : Notification) (fg x : ℕ) (cols : List ListColumn)
    → All (λ c. c.fg ≡ fg) (cells_from n fg x cols)
unfolding cells_from
cells_from-fg n fg x [] = tt
cells_from-fg n fg x (col ∷ cols) = (refl, cells_from-fg n fg (x + col.width) cols)

-- Where rows are coloured by the state, a row has the colour of its state and all its text is dark,
-- whatever the colours of the widget are.
row_lem :
    (lc : ListCtx) (n : Notification) (y : ℕ)
    → lc.row_color_field ≡ "state"
    → ((row lc n y).bg ≡ state_color n.state) × All (λ c. c.fg ≡ 0x0d1117) (row lc n y).cells
row_lem lc n y h =
    let e = row_bg-state lc n h in
    let dark = row_text_color_for-state_color n.state lc.fg in
    (
      e,
      subst (λ fg. All (λ c. c.fg ≡ fg) (row lc n y).cells)
          (ap (λ bg. row_text_color_for bg lc.fg) e ∙ dark)
          (cells_from-fg n (row_text_color_for (row_bg lc n) lc.fg) 0 lc.columns),
    )
