-- ===== src/Swap/Trees.antt =====
-- The layout tree, the store and the hook after LayoutManager::apply() of
-- main/jlp/layout/layout_manager.cpp.
use espos_p4_cockpit.Prelude.{
  ℕ, ◌+◌, ◌*◌, ◌<◌, ◌≤◌, ◌≡◌, refl, ap, sym, subst, ◌∙◌, inl, inr, String, true, false, not, ◌&&◌,
  List, [], ◌∷◌, Option, none, some, is_some, ◌==◌, if◌then◌else◌, length, Bytes, arith,
}
use espos_p4_cockpit.Json.{JsonLib}
use espos_p4_cockpit.Theme.{ThemeColors}
use espos_p4_cockpit.Store.{Nvs, store_write_atomic}
use espos_p4_cockpit.Layout.{validate}
use espos_p4_cockpit.Swap.{
  ApplySource, is_post, ApplyResult, Root, Swapped, outside_of, remove_root, Built, Panel,
  apply_settings, swap_in, apply,
}
use espos_p4_cockpit.Swap.Atomic.{IsBuilt, apply-Outcome}

module _ (J : JsonLib) (N : Nvs) (X : Type 0) (utf8 : String → Bytes)
    (build_widget : ThemeColors → J.Json → X → X × Option String × List String) where
  -- Nothing below `parent_`, or the current layout alone, on the screen.
  abbrev pub IsSole : Option ℕ → ℕ → List Root → Type 0
  IsSole none next [] = Unit
  IsSole none next (r ∷ rs) = ⊥
  IsSole (some id) next [] = ⊥
  IsSole (some id) next (r ∷ []) = (r.id ≡ id) × (r.hidden ≡ false) × (r.id < next)
  IsSole (some id) next (r ∷ s ∷ rs) = ⊥

  abbrev pub ShowsOne : Panel J N X utf8 → Type 0
  ShowsOne p = IsSole p.current p.next_id p.roots

  remove_root-IsSole :
      (current : Option ℕ) (roots : List Root) (staging : Root) (next : ℕ)
      → staging.id ≡ next
      → staging.hidden ≡ false
      → IsSole current next roots
      → IsSole (some next) (next + 1) (remove_root current (staging ∷ roots))
  remove_root-IsSole none [] staging next e v h = (e, v, omega arith)
  remove_root-IsSole none (r ∷ rs) staging next e v h = absurd h
  remove_root-IsSole (some id) [] staging next e v h = absurd h
  remove_root-IsSole (some id) (r ∷ []) staging next e v (same, shown, below) =
      let old : (r.id == id) ≡ true = ground arith in
      let new : (staging.id == id) ≡ false = ground arith in rw (old, new) (e, v, omega arith)
  remove_root-IsSole (some id) (r ∷ s ∷ rs) staging next e v h = absurd h

  swap_in-ShowsOne :
      (tick : ℕ) (json : String) (source : ApplySource) (doc : J.Json) (b : Built J N X utf8)
      (p : Panel J N X utf8)
      → ShowsOne p
      → ShowsOne (swap_in J N X utf8 build_widget tick json source doc b p).1
  unfolding swap_in apply_settings
  swap_in-ShowsOne tick json source doc b p h =
      remove_root-IsSole p.current p.roots _ p.next_id refl refl h

  apply-ShowsOne :
      (tick : ℕ) (json : String) (source : ApplySource) (p : Panel J N X utf8)
      → ShowsOne p
      → ShowsOne (apply J N X utf8 build_widget tick json source p).1
  apply-ShowsOne tick json source p h =
      elim (apply-Outcome J N X utf8 build_widget tick json source p) [
        | inl (failed, (x, kept), hook) ↦ subst ShowsOne (sym kept) h
        | inr (doc, b, built, at) ↦
            subst ShowsOne
              (sym (ap (λ (res : ApplyResult × Panel J N X utf8 × Option Swapped). res.1) at))
              (swap_in-ShowsOne tick json source doc b p h)
      ]

  -- Layouts that arrive one after another.
  unfoldable pub applies : List (ℕ × String × ApplySource) → Panel J N X utf8 → Panel J N X utf8
  applies [] p = p
  applies ((tick, json, source) ∷ more) p =
      applies more (apply J N X utf8 build_widget tick json source p).1

  -- After every sequence of layouts, good and bad, there is one layout tree below the parent, or none
  -- before the first that was accepted: the current one, not hidden. No staging tree stays behind.
  pub applies-ShowsOne :
      (more : List (ℕ × String × ApplySource)) (p : Panel J N X utf8)
      → ShowsOne p
      → ShowsOne (applies more p)
  unfolding applies
  applies-ShowsOne [] p h = h
  applies-ShowsOne ((tick, json, source) ∷ more) p h =
      applies-ShowsOne more _ (apply-ShowsOne tick json source p h)

  -- What an accepted layout leaves: it passed validate() and the size limit, its tree is the current
  -- one, the store is written exactly for a posted layout, and the hook gets the paths that were not
  -- bound before and all paths that are bound now.
  abbrev pub IsSwapped :
      String
      → ApplySource
      → Panel J N X utf8
      → ApplyResult × Panel J N X utf8 × Option Swapped
      → Type 0
  IsSwapped json source p res =
      ((doc : J.Json) × (J.deserialize json ≡ some doc) × (validate J doc ≡ none))
      × (length (utf8 json) ≤ 64 * 1024)
      × (res.1.current ≡ some p.next_id)
      × (res.1.store
          ≡ (if is_post source then (store_write_atomic N (utf8 json) p.store).1 else p.store))
      × (res.0.unsaved ≡ (is_post source && not (store_write_atomic N (utf8 json) p.store).0))
      × (res.2
          ≡ some (record {
            introduced = outside_of p.known_paths res.1.known_paths;
            source = source;
            all_paths = res.1.known_paths;
          }))

  swap_in-IsSwapped :
      (tick : ℕ) (json : String) (source : ApplySource) (doc : J.Json) (b : Built J N X utf8)
      (p : Panel J N X utf8)
      → IsBuilt J N X utf8 build_widget json doc b
      → IsSwapped json source p (
        (swap_in J N X utf8 build_widget tick json source doc b p).0,
        (swap_in J N X utf8 build_widget tick json source doc b p).1,
        some (swap_in J N X utf8 build_widget tick json source doc b p).2,
      )
  unfolding swap_in apply_settings
  swap_in-IsSwapped tick json source doc b p (d, v, l, f) = ((doc, d, v), l, refl, refl, refl, refl)

  -- A layout that apply() accepts is at most 64 KiB and passed validate(). It is the current layout
  -- afterwards; the store is written exactly when the layout was posted, and the warning is given
  -- exactly when that write failed; and the post-swap hook gets all paths that the layout binds, and
  -- of them those that the layout before did not bind.
  apply_accepted :
      (tick : ℕ) (json : String) (source : ApplySource) (p : Panel J N X utf8)
      → (apply J N X utf8 build_widget tick json source p).0.err ≡ none
      → IsSwapped json source p (apply J N X utf8 build_widget tick json source p)
  apply_accepted tick json source p h =
      elim (apply-Outcome J N X utf8 build_widget tick json source p) [
        | inl (failed, kept, hook) ↦
            let clash : false ≡ true = sym (ap is_some h) ∙ failed in absurd (cc)
        | inr (doc, b, built, at) ↦
            subst (IsSwapped json source p) (sym at)
              (swap_in-IsSwapped tick json source doc b p built)
      ]
