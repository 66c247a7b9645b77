-- ===== src/Layout/Switcher.antt =====
-- The screen switcher of main/jlp/layout/layout_manager.cpp: which screen of a layout is shown, and
-- its selection by id. `none` stands for the null switcher of a layout with one screen.
use espos_p4_cockpit.Prelude.{
  ℕ, zero, suc, ◌+◌, ◌<◌, ◌≡◌, refl, ap, ◌∙◌, ◌⊎◌, inl, inr, String, Bool, true, false, not, List,
  [], ◌∷◌, map, Option, none, some, ltb, ◌==◌, if◌then◌else◌, or_else, ◌=s◌, str_iff, length,
  get_elem?, arith, Bool-cases,
}
use espos_p4_cockpit.Layout.{is_in}

-- `screens` and `tabs` hold what is last shown of each: whether the screen is hidden, and whether
-- the tab has the active colours. `told` is what the stream widgets of each screen were last told.
pub record ScreenSwitcherCtx : Type 0 where
  pub hidden : List Bool
  pub tabs : List Bool
  pub told : List Bool
  pub ids : List String
  pub active : ℕ

-- Whether each of a list's places, counted from `i`, is the place `idx`.
unfoldable pub marks {ℓ} : {A : Type ℓ} → ℕ → ℕ → List A → List Bool
marks idx i [] = []
marks idx i (x ∷ xs) = (i == idx) ∷ marks idx (i + 1) xs

-- An index from a tab, from the search below or 0; none of them is negative.
unfoldable pub switcher_show : ℕ → ScreenSwitcherCtx → ScreenSwitcherCtx
unfolding marks
switcher_show idx ctx = if not (ltb idx (length ctx.hidden)) then ctx else record ctx {
  hidden = map not (marks idx 0 ctx.hidden);
  tabs = marks idx 0 ctx.tabs;
  active = idx;
  told = marks idx 0 ctx.hidden;
}

-- The switcher that build_screens() leaves for these screen ids.
unfoldable pub build_switcher : List String → Option ScreenSwitcherCtx
unfolding switcher_show
build_switcher [] = none
build_switcher (id ∷ []) = none
build_switcher (a ∷ b ∷ ids) = some (
    switcher_show 0 (record {
      hidden = map (λ i. false) (a ∷ b ∷ ids);
      tabs = map (λ i. false) (a ∷ b ∷ ids);
      told = map (λ i. false) (a ∷ b ∷ ids);
      ids = a ∷ b ∷ ids;
      active = 0;
    }))

unfoldable pub find : String → ℕ → List String → Option ℕ
find id i [] = none
find id i (x ∷ xs) = let rest = find id (i + 1) xs in if x =s id then some i else rest

unfoldable pub select_screen : String → Option ScreenSwitcherCtx → Option ScreenSwitcherCtx × Bool
unfolding find switcher_show
select_screen id none = (none, false)
select_screen id (some ctx) = elim (find id 0 ctx.ids) [
  | none ↦ (some ctx, false)
  | some i ↦ (some (switcher_show i ctx), true)
]

unfoldable pub active_screen : Option ScreenSwitcherCtx → String
active_screen none = ""
active_screen (some ctx) = or_else (get_elem? ctx.ids ctx.active) ""

unfoldable pub screen_ids : Option ScreenSwitcherCtx → List String
screen_ids none = []
screen_ids (some ctx) = ctx.ids

-- The vectors are parallel, and the active screen is one of them.
pub record IsAligned (ctx : ScreenSwitcherCtx) : Type 0 where
  pub screens : length ctx.hidden ≡ length ctx.ids
  pub tab_count : length ctx.tabs ≡ length ctx.ids
  pub in_range : ctx.active < length ctx.ids

-- Screen `i` is on the display, alone, its tab is lit alone, and its streams alone were told to run.
abbrev pub IsOnly : ℕ → ScreenSwitcherCtx → Type 0
IsOnly i ctx =
    (j : ℕ)
    → j < length ctx.ids
    → (get_elem? ctx.hidden j ≡ some (not (j == i)))
      × (get_elem? ctx.tabs j ≡ some (j == i))
      × (get_elem? ctx.told j ≡ some (j == i))

length-marks {ℓ} : {A : Type ℓ} → (idx i : ℕ) (xs : List A) → length (marks idx i xs) ≡ length xs
unfolding marks
length-marks idx i [] = refl
length-marks idx i (x ∷ xs) = ap suc (length-marks idx (i + 1) xs)

length-not : (bs : List Bool) → length (map not bs) ≡ length bs
length-not [] = refl
length-not (b ∷ bs) = ap suc (length-not bs)

get_elem?-marks {ℓ} :
    {A : Type ℓ}
    → (idx i j : ℕ) (xs : List A) → j < length xs
    → get_elem? (marks idx i xs) j ≡ some ((i + j) == idx)
unfolding marks
get_elem?-marks idx i j [] h = absurd (omega arith)
get_elem?-marks idx i zero (x ∷ xs) h = ground arith
get_elem?-marks idx i (suc j) (x ∷ xs) h =
    get_elem?-marks idx (i + 1) j xs (omega arith) ∙ ap (λ k. some (k == idx)) (omega arith)

marks-places {ℓ} :
    {A : Type ℓ}
    → (idx j : ℕ) (xs : List A) → j < length xs
    → get_elem? (marks idx 0 xs) j ≡ some (j == idx)
marks-places idx j xs h = get_elem?-marks idx 0 j xs h ∙ ap (λ k. some (k == idx)) (omega arith)

get_elem?-not :
    (bs : List Bool) (j : ℕ) (b : Bool)
    → get_elem? bs j ≡ some b
    → get_elem? (map not bs) j ≡ some (not b)
get_elem?-not [] j b h = absurd (cc)
get_elem?-not (c ∷ bs) zero b h = ground arith
get_elem?-not (c ∷ bs) (suc j) b h = get_elem?-not bs j b h

find_cases :
    (id : String) (i : ℕ) (xs : List String)
    → ((find id i xs ≡ none) × (is_in id xs ≡ false))
      ⊎ ((j : ℕ) × (find id i xs ≡ some (i + j))
          × (get_elem? xs j ≡ some id)
          × (j < length xs)
          × (is_in id xs ≡ true))
unfolding find
find_cases id i [] = inl (refl, refl)
find_cases id i (x ∷ xs) = elim (Bool-cases (x =s id)) [
  | inl e ↦ inr (0, ground arith, ground (arith, str_iff x id), omega arith, ground arith)
  | inr e ↦ elim (find_cases id (i + 1) xs) [
    | inl (n, out) ↦ inl (ground arith, ground arith)
    | inr (j, f, g, h, m) ↦ inr (suc j, ground arith, g, omega arith, ground arith)
  ]
]

switcher_show-IsOnly :
    (idx : ℕ) (ctx : ScreenSwitcherCtx)
    → IsAligned ctx
    → idx < length ctx.ids
    → IsOnly idx (switcher_show idx ctx)
      × IsAligned (switcher_show idx ctx)
      × ((switcher_show idx ctx).active ≡ idx)
      × ((switcher_show idx ctx).ids ≡ ctx.ids)
unfolding switcher_show
switcher_show-IsOnly idx ctx a h =
    let fits : ltb idx (length ctx.hidden) ≡ true = ground (arith, a.screens) in
    rw fits (
      (λ j k.
          let mark = marks-places idx j ctx.hidden (ground (arith, a.screens)) in
          (
            get_elem?-not (marks idx 0 ctx.hidden) j (j == idx) mark,
            marks-places idx j ctx.tabs (ground (arith, a.tab_count)),
            mark,
          )),
      record {
        screens = length-not (marks idx 0 ctx.hidden) ∙ length-marks idx 0 ctx.hidden ∙ a.screens;
        tab_count = length-marks idx 0 ctx.tabs ∙ a.tab_count;
        in_range = h;
      },
      refl,
      refl,
    )

-- Selecting a screen by an id that the layout has succeeds: afterwards that screen is the active
-- one and the only one shown, lit and told to stream. Any other id is refused and changes nothing.
pub select_screen_lem :
    (id : String) (ctx : ScreenSwitcherCtx)
    → IsAligned ctx
    → ((is_in id ctx.ids ≡ false) × (select_screen id (some ctx) ≡ (some ctx, false)))
      ⊎ ((is_in id ctx.ids ≡ true)
          × ((after : ScreenSwitcherCtx) × (select_screen id (some ctx) ≡ (some after, true))
              × IsAligned after
              × (active_screen (some after) ≡ id)
              × IsOnly after.active after
              × (after.ids ≡ ctx.ids)))
unfolding select_screen active_screen
select_screen_lem id ctx a = elim (find_cases id 0 ctx.ids) [
  | inl (n, out) ↦ inl (out, rw (select_screen, n) refl)
  | inr (j, f, g, h, m) ↦
      let found : find id 0 ctx.ids ≡ some j = f ∙ ap some (omega arith) in
      let (only, aligned, at, kept) = switcher_show-IsOnly j ctx a h in
      inr (
        m,
        (
          switcher_show j ctx,
          rw (select_screen, found) refl,
          aligned,
          rw (active_screen, kept, at, g) refl,
          rw at only,
          kept,
        ),
      )
]

length-false : (ids : List String) → length (map (λ i. false) ids) ≡ length ids
length-false [] = refl
length-false (i ∷ ids) = ap suc (length-false ids)

-- A layout with several screens starts on its first one: it is the active one, and the only one
-- shown, lit and told to stream.
build_switcher_lem :
    (a b : String) (ids : List String)
    → (ctx : ScreenSwitcherCtx) × (build_switcher (a ∷ b ∷ ids) ≡ some ctx)
      × IsAligned ctx
      × (active_screen (some ctx) ≡ a)
      × IsOnly 0 ctx
      × (screen_ids (some ctx) ≡ a ∷ b ∷ ids)
unfolding build_switcher active_screen screen_ids
build_switcher_lem a b ids =
    let fresh : ScreenSwitcherCtx = record {
      hidden = map (λ i. false) (a ∷ b ∷ ids);
      tabs = map (λ i. false) (a ∷ b ∷ ids);
      told = map (λ i. false) (a ∷ b ∷ ids);
      ids = a ∷ b ∷ ids;
      active = 0;
    } in
    let (only, aligned, at, kept) =
      switcher_show-IsOnly 0 fresh
        (record {
          screens = length-false (a ∷ b ∷ ids);
          tab_count = length-false (a ∷ b ∷ ids);
          in_range = omega arith;
        })
        (omega arith) in
    (switcher_show 0 fresh, refl, aligned, rw (active_screen, kept, at) refl, only, kept)
