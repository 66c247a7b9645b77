-- ===== src/App/Boot.antt =====
-- The layout at boot: the stored one, or the one that the firmware carries.
use espos_p4_cockpit.Prelude.{
  ℕ, ◌≡◌, ap, sym, ◌∙◌, inl, inr, String, true, false, List, Option, none, some, is_some, Bytes,
  Option-cases,
}
use espos_p4_cockpit.Json.{JsonLib}
use espos_p4_cockpit.Theme.{ThemeColors}
use espos_p4_cockpit.Store.{Nvs, store_read, store_clear}
use espos_p4_cockpit.Swap.{boot_store, boot_default, Failure, ApplyResult, Swapped, Panel, apply}
use espos_p4_cockpit.Swap.Atomic.{apply_refused}

-- `of_utf8` is the text of the bytes that are stored; `kept` the layout that the firmware carries.
module _ (J : JsonLib) (N : Nvs) (X : Type 0) (utf8 : String → Bytes) (of_utf8 : Bytes → String)
    (build_widget : ThemeColors → J.Json → X → X × Option String × List String) where
  abbrev Applied : Type 0
  Applied = ApplyResult × Panel J N X utf8 × Option Swapped

  -- What follows the attempt with the stored layout.
  unfoldable pub fall_back : ℕ → String → Applied → Applied
  fall_back tick kept stored = elim stored.0.err [
    | none ↦ stored
    | some why ↦
        apply J N X utf8 build_widget tick kept boot_default
          (record stored.1 { store = (store_clear N stored.1.store).1 })
  ]

  unfoldable pub boot_with : ℕ → String → Panel J N X utf8 → Option Bytes → Applied
  boot_with tick kept p none = apply J N X utf8 build_widget tick kept boot_default p
  boot_with tick kept p (some bytes) =
      fall_back tick kept (apply J N X utf8 build_widget tick (of_utf8 bytes) boot_store p)

  unfoldable pub boot_layout : ℕ → String → Panel J N X utf8 → Applied
  boot_layout tick kept p = boot_with tick kept p (store_read N p.store)

  fall_back-refused :
      (tick : ℕ) (kept : String) (stored : Applied) (why : Failure)
      → stored.0.err ≡ some why
      → fall_back tick kept stored
        ≡ apply J N X utf8 build_widget tick kept boot_default
            (record stored.1 { store = (store_clear N stored.1.store).1 })
  unfolding fall_back
  fall_back-refused tick kept stored why e = rw e

  -- Where the stored layout is refused, the boot is that of a panel without it: what the panel shows
  -- is what the carried layout gives on the panel as it was, with the stored layout cleared. Of the
  -- refused one only the traces of its widgets' builders are left.
  pub boot_layout_refused :
      (tick : ℕ) (kept : String) (p : Panel J N X utf8) (bytes : Bytes)
      → store_read N p.store ≡ some bytes
      → is_some (apply J N X utf8 build_widget tick (of_utf8 bytes) boot_store p).0.err ≡ true
      → (x : X) × (boot_layout tick kept p
          ≡ apply J N X utf8 build_widget tick kept boot_default
              (record p { outside = x; store = (store_clear N p.store).1 }))
  unfolding boot_layout boot_with
  boot_layout_refused tick kept p bytes held refused =
      let (failed, (x, same), hook) =
        apply_refused J N X utf8 build_widget tick (of_utf8 bytes) boot_store p refused in
      let begun : boot_layout tick kept p
          ≡ fall_back tick kept (apply J N X utf8 build_widget tick (of_utf8 bytes) boot_store p) =
        ap (boot_with tick kept p) held in
      elim (Option-cases (apply J N X utf8 build_widget tick (of_utf8 bytes) boot_store p).0.err) [
        | inl e ↦ absurd (let clash : false ≡ true = sym (ap is_some e) ∙ refused in cc)
        | inr (why, e) ↦ (
          x,
          begun
              ∙ fall_back-refused tick kept
                  (apply J N X utf8 build_widget tick (of_utf8 bytes) boot_store p) why e
              ∙ ap
                  (λ (q : Panel J N X utf8).
                    apply J N X utf8 build_widget tick kept boot_default
                      (record q { store = (store_clear N q.store).1 }))
                  same,
        )
      ]
