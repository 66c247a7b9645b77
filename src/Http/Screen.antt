-- ===== src/Http/Screen.antt =====
-- POST /screen of main/jlp/net/http_api.cpp over LayoutManager::select_screen(). The job is queued
-- without a claim: one that the handler no longer waits for still selects.
use espos_p4_cockpit.Prelude.{
  ℕ, ◌≡◌, ◌∙◌, ap, ◌⊎◌, refl, inl, inr, String, Bool, true, false, not, ◌||◌, List, [], ◌∷◌, Option,
  none, some, ltb, ◌==◌, ◌=s◌, if◌then◌else◌, Bytes, or_else,
}
use espos_p4_cockpit.Json.{JsonLib}
use espos_p4_cockpit.Layout.{is_in}
use espos_p4_cockpit.Layout.Switcher.{
  ScreenSwitcherCtx, IsAligned, IsOnly, select_screen, active_screen, screen_ids, select_screen_lem,
}
use espos_p4_cockpit.Http.{
  Reply, body_size, invalid_json, missing_id, semaphore, select_timed_out, single_screen,
  no_such_screen, selected,
}
use espos_p4_cockpit.Http.Body.{Call, recv_body}

-- What the job finds: whether the screen was selected, and the screens before the job.
abbrev pub answer : Option ScreenSwitcherCtx → Bool → Reply
answer after true = selected (active_screen after)
answer after false = elim (screen_ids after) [
  | [] ↦ single_screen
  | id ∷ ids ↦ no_such_screen (id ∷ ids)
]

module _ (J : JsonLib) (text : Bytes → String) where
  open J use {deserialize, member}

  -- `in_time` is whether the job has run before the handler's five seconds are over.
  unfoldable pub screen_post :
      ℕ → List Call → ℕ → Bool → Bool → Option ScreenSwitcherCtx → Reply × Option ScreenSwitcherCtx
  screen_post len calls now sem in_time ctx =
      if len == 0 || ltb 256 len then (body_size, ctx) else elim (recv_body len calls now).0 [
        | inl why ↦ (why, ctx)
        | inr body ↦ elim (deserialize (text body)) [
          | none ↦ (invalid_json, ctx)
          | some doc ↦
              let id = or_else (J.text (member doc "id")) "" in
              let (after, found) = select_screen id ctx in
              if id =s ""
              then (missing_id, ctx)
              else if not sem
              then (semaphore, ctx)
              else (if in_time then answer after found else select_timed_out, after)
        ]
      ]

  screen_post_runs :
      (len : ℕ) (calls : List Call) (now : ℕ) (body : Bytes) (doc : J.Json) (id : String)
      (ctx : Option ScreenSwitcherCtx)
      → (len == 0 || ltb 256 len) ≡ false
      → (recv_body len calls now).0 ≡ inr body
      → deserialize (text body) ≡ some doc
      → J.text (member doc "id") ≡ some id
      → (id =s "") ≡ false
      → let (after, found) = select_screen id ctx in
        screen_post len calls now true true ctx ≡ (answer after found, after)
  unfolding screen_post
  screen_post_runs len calls now body doc id ctx size whole parsed named given =
      simp (size, whole, parsed, named, given) refl

  -- A request that names a screen, with the job run in time: a screen of the layout is answered with
  -- 200 as the active one, and is then the active screen and the only one shown, lit and told to
  -- stream; any other is answered with 404 and the layout's screens, and nothing changes; a
  -- layout of a single screen is answered with 404.
  screen_post_lem :
      (len : ℕ) (calls : List Call) (now : ℕ) (body : Bytes) (doc : J.Json) (id : String)
      (ctx : ScreenSwitcherCtx)
      → (len == 0 || ltb 256 len) ≡ false
      → (recv_body len calls now).0 ≡ inr body
      → deserialize (text body) ≡ some doc
      → J.text (member doc "id") ≡ some id
      → (id =s "") ≡ false
      → IsAligned ctx
      → (screen_post len calls now true true none ≡ (single_screen, none))
        × (((is_in id ctx.ids ≡ false)
              × (screen_post len calls now true true (some ctx)
                  ≡ (answer (some ctx) false, some ctx)))
            ⊎ ((is_in id ctx.ids ≡ true)
                × (after : ScreenSwitcherCtx) × (screen_post len calls now true true (some ctx)
                    ≡ (selected id, some after))
                × (active_screen (some after) ≡ id)
                × IsOnly after.active after))
  unfolding select_screen screen_ids
  screen_post_lem len calls now body doc id ctx size whole parsed named given a =
      let runs = λ (c : Option ScreenSwitcherCtx).
        screen_post_runs len calls now body doc id c size whole parsed named given in
      (
        runs none,
        elim (select_screen_lem id ctx a) [
          | inl (out, same) ↦ inl (
            out,
            runs (some ctx)
                ∙ ap (λ (r : Option ScreenSwitcherCtx × Bool). (answer r.0 r.1, r.0)) same,
          )
          | inr (known, (after, same, aligned, active, only, ids)) ↦ inr (
            known,
            after,
            runs (some ctx)
                ∙ ap (λ (r : Option ScreenSwitcherCtx × Bool). (answer r.0 r.1, r.0)) same
                ∙ ap (λ (k : String). (selected k, some after)) active,
            active,
            only,
          )
        ],
      )
