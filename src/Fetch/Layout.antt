-- ===== src/Fetch/Layout.antt =====
-- main/jlp/net/layout_fetch.cpp: the layout that the server keeps for the panel.
use espos_p4_cockpit.Prelude.{
  ℕ, ◌≡◌, refl, ap, ◌⊎◌, Option-cases, arith, inl, inr, String, Bool, true, false, not, Option,
  none, some, List, ◌==◌, if◌then◌else◌, Bytes,
}
use espos_p4_cockpit.Json.{JsonLib}
use espos_p4_cockpit.Theme.{ThemeColors}
use espos_p4_cockpit.Store.{Nvs}
use espos_p4_cockpit.Swap.{boot_fetched, Panel, swap_in, apply}
use espos_p4_cockpit.Swap.Atomic.{apply-Outcome}

-- The answer to the request: whether espos_sk_http_get() succeeded, and what it got.
pub record Response : Type 0 where
  pub is_ok : Bool
  pub status : ℕ
  pub truncated : Bool
  pub body : String

-- The body that fetch_task() posts.
unfoldable pub posted_body : Response → Option String
posted_body r =
    if not r.is_ok
    then none
    else if not (r.status == 200)
    then none
    else if r.truncated
    then none
    else some r.body

pub posted_body-some :
    (r : Response) (body : String)
    → posted_body r ≡ some body
    → (r.is_ok ≡ true) × (r.status ≡ 200) × (r.truncated ≡ false) × (r.body ≡ body)
unfolding posted_body
posted_body-some r body e = (ground arith, ground arith, ground arith, ground arith)

module _ (J : JsonLib) (N : Nvs) (X : Type 0) (utf8 : String → Bytes)
    (build_widget : ThemeColors → J.Json → X → X × Option String × List String) where
  -- The job on the UI task, where there is a body.
  unfoldable pub apply_fetched : ℕ → Panel J N X utf8 → Option String → Panel J N X utf8
  apply_fetched tick p none = p
  apply_fetched tick p (some body) = (apply J N X utf8 build_widget tick body boot_fetched p).1

  unfoldable pub fetch_layout : ℕ → Response → Panel J N X utf8 → Panel J N X utf8
  unfolding apply_fetched
  fetch_layout tick r p = apply_fetched tick p (posted_body r)

  apply-boot_fetched :
      (tick : ℕ) (body : String) (p : Panel J N X utf8)
      → (apply J N X utf8 build_widget tick body boot_fetched p).1.store ≡ p.store
  unfolding swap_in
  apply-boot_fetched tick body p =
      elim (apply-Outcome J N X utf8 build_widget tick body boot_fetched p) [
        | inl (failed, (x, same), hook) ↦ ap (λ (q : Panel J N X utf8). q.store) same
        | inr (doc, b, built, at) ↦ ap (λ res. res.1.store) at
      ]

  apply_fetched-store :
      (tick : ℕ) (p : Panel J N X utf8) (o : Option String)
      → (apply_fetched tick p o).store ≡ p.store
  unfolding apply_fetched
  apply_fetched-store tick p none = refl
  apply_fetched-store tick p (some body) = apply-boot_fetched tick body p

  -- A fetched layout is never stored, whatever the server answers; and only a whole answer with status
  -- 200 can change anything.
  pub fetch_layout_lem :
      (tick : ℕ) (r : Response) (p : Panel J N X utf8)
      → ((fetch_layout tick r p).store ≡ p.store)
        × ((fetch_layout tick r p ≡ p)
            ⊎ ((r.is_ok ≡ true) × (r.status ≡ 200) × (r.truncated ≡ false)))
  unfolding fetch_layout apply_fetched
  fetch_layout_lem tick r p = (
    apply_fetched-store tick p (posted_body r),
    elim (Option-cases (posted_body r)) [
      | inl e ↦ inl (ap (apply_fetched tick p) e)
      | inr (body, e) ↦
          let (ok, status, whole, same) = posted_body-some r body e in inr (ok, status, whole)
    ],
  )
