-- ===== src/Http/Push.antt =====
-- POST /layout of main/jlp/net/http_api.cpp over LayoutManager::apply(): the tests before the job, the
-- job under any steps of the two tasks, and the answer. `text` is the body as a string, and `blank`
-- the ApplyResult before the job has set it.
use espos_p4_cockpit.Prelude.{
  ℕ, ◌≡◌, ◌⊎◌, refl, sym, ap, ◌∙◌, inl, inr, String, Bool, not, List, Option, none, some, is_some,
  ltb, ◌==◌, if◌then◌else◌, Bool-cases, Bytes, arith,
}
use espos_p4_cockpit.Json.{JsonLib}
use espos_p4_cockpit.Theme.{ThemeColors}
use espos_p4_cockpit.Store.{Nvs}
use espos_p4_cockpit.Swap.{post_layout, ApplyResult, Panel, apply}
use espos_p4_cockpit.Swap.Atomic.{apply_refused}
use espos_p4_cockpit.Http.{
  Reply, empty_body, body_too_large, semaphore, not_applied, still_running, refused, applied,
  max_body_bytes,
}
use espos_p4_cockpit.Http.Body.{Call, recv_body}
use espos_p4_cockpit.Http.Hop
use espos_p4_cockpit.Http.Hop.{Step, Wait, answered, result, posted, run, Honest, run-Honest}

module _ (J : JsonLib) (N : Nvs) (X : Type 0) (utf8 : String → Bytes)
    (build_widget : ThemeColors → J.Json → X → X × Option String × List String)
    (text : Bytes → String) where
  -- `*result = layout_manager().apply(body, ApplySource::PostLayout)`
  abbrev pub job : ℕ → Bytes → Panel J N X utf8 → ApplyResult × Panel J N X utf8
  job tick body p =
      let done = apply J N X utf8 build_widget tick (text body) post_layout p in (done.0, done.1)

  -- The answer, once the handler has one.
  abbrev pub reply_of : Wait ApplyResult → Option Reply
  reply_of (answered (result r)) =
      some (if is_some r.err then refused else applied r.name r.screens r.widgets r.unsaved)
  reply_of (answered Hop.not_applied) = some not_applied
  reply_of (answered Hop.still_running) = some still_running
  reply_of _ = none

  -- `len` is the announced length, `sem` whether the semaphore could be made.
  unfoldable pub layout_post :
      ℕ
      → List Call
      → ℕ
      → Bool
      → List Step
      → ApplyResult
      → ℕ
      → Panel J N X utf8
      → Option Reply × Panel J N X utf8
  layout_post len calls now sem steps blank tick p =
      if len == 0
      then (some empty_body, p)
      else if ltb max_body_bytes len
      then (some body_too_large, p)
      else elim (recv_body len calls now).0 [
        | inl why ↦ (some why, p)
        | inr body ↦
            let h = run (job tick body) steps (posted blank p) in
            if not sem then (some semaphore, p) else (reply_of h.handler, h.panel)
      ]

  -- The layout on the screen, its theme, settings and store are those of before.
  abbrev pub IsKept : Panel J N X utf8 → Panel J N X utf8 → Type 0
  IsKept p p' = (x : X) × (p' ≡ record p { outside = x })

  -- What each answer to POST /layout says of the panel.
  abbrev pub Says : Panel J N X utf8 → Panel J N X utf8 → Option Reply → Type 0
  Says p p' none = Unit
  Says p p' (some still_running) = Unit
  Says p p' (some (applied name screens widgets unsaved)) = Unit
  Says p p' (some _) = IsKept p p'

  reply_of-Says :
      (tick : ℕ) (body : Bytes) (p : Panel J N X utf8) (w : Wait ApplyResult)
      (p' : Panel J N X utf8)
      → Honest (job tick body) p w p'
      → Says p p' (reply_of w)
  reply_of-Says tick body p Hop.first p' h = _
  reply_of-Says tick body p Hop.second p' h = _
  reply_of-Says tick body p (answered Hop.not_applied) p' h = (p.outside, h)
  reply_of-Says tick body p (answered Hop.still_running) p' h = _
  reply_of-Says tick body p (answered (result r)) p' (same, left) =
      elim (Bool-cases (is_some r.err)) [
        | inr fine ↦ rw fine _
        | inl failed ↦
            let bad = ap (λ (k : ApplyResult). is_some k.err) (sym same) ∙ failed in
            let (x, kept) =
              (apply_refused J N X utf8 build_widget tick (text body) post_layout p bad).1 in
            rw failed (x, left ∙ kept)
      ]

  Says-kept : (p p' : Panel J N X utf8) (r : Reply) → IsKept p p' → Says p p' (some r)
  Says-kept p p' r k = ground (arith, k)

  -- Whatever arrives, whatever the system gives and however the handler and the UI task take turns: an
  -- answer to POST /layout with any status but 200, other than "still running", means that the
  -- layout on the screen, its name and source, the theme, the settings and the store are as they
  -- were before the request.
  pub layout_post-Says :
      (len : ℕ) (calls : List Call) (now : ℕ) (sem : Bool) (steps : List Step) (blank : ApplyResult)
      (tick : ℕ) (p : Panel J N X utf8)
      → let (reply, p') = layout_post len calls now sem steps blank tick p in Says p p' reply
  unfolding layout_post
  layout_post-Says len calls now sem steps blank tick p =
      let kept : IsKept p p = (p.outside, refl) in
      elim (Bool-cases (len == 0)) [
        | inl none_sent ↦ rw none_sent kept
        | inr some_sent ↦ elim (Bool-cases (ltb max_body_bytes len)) [
          | inl large ↦ rw (some_sent, large) kept
          | inr fits ↦ rw (some_sent, fits) (go kept (recv_body len calls now).0)
        ]
      ]
    where
      go :
          IsKept p p
          → (r : Reply ⊎ Bytes)
          → let res : Option Reply × Panel J N X utf8 = elim r [
            | inl why ↦ (some why, p)
            | inr body ↦
                let h = run (job tick body) steps (posted blank p) in
                if not sem then (some semaphore, p) else (reply_of h.handler, h.panel)
          ] in
            Says p res.1 res.0
      go kept (inl why) = Says-kept p p why kept
      go kept (inr body) = elim (Bool-cases sem) [
        | inr none_made ↦ rw none_made kept
        | inl made ↦
            let h = run (job tick body) steps (posted blank p) in
            rw made (
              reply_of-Says tick body p h.handler h.panel
                (run-Honest (job tick body) steps blank p))
      ]
