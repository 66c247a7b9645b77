-- ===== src/Subjects/Lifetime.antt =====
-- How long the subjects and the subscriptions of main/jlp/subject_registry.cpp live.
use espos_p4_cockpit.Prelude.{
  ℕ, ◌<◌, ◌≡◌, refl, ◌∙◌, ◌⊎◌, inl, inr, String, Bool, true, false, List, [], ◌∷◌, none, some,
  if◌then◌else◌, ◌=s◌, str_iff, str_refl, arith, Bool-cases, Option-cases, All,
}
use espos_p4_cockpit.Prelude.Dict.{lookup}
use espos_p4_cockpit.Layout.{SubjectKind, same_kind}
use espos_p4_cockpit.Layout.Bindings.{same_kind_iff}
use espos_p4_cockpit.Subjects.{
  Outside, Slot, Registry, is_local_sentinel, open_subscription, get_or_create, collect_slot,
  garbage_collect,
}

module _ (W : Outside) where
  open W use {State, create, subscribe, unsubscribe}

  -- What reaches the registry: a widget that binds a path, a layout swap.
  pub data Call : Type 0 where
    binds : String → SubjectKind → Call
    swaps : (String → Bool) → Call

  unfoldable pub step : Call → Registry × State → Registry × State
  step (binds path kind) p = let (subject, r, w) = get_or_create W path kind p in (r, w)
  step (swaps live) p = garbage_collect W live p

  unfoldable pub run : List Call → Registry × State → Registry × State
  unfolding step
  run [] p = p
  run (c ∷ cs) p = run cs (step c p)

  -- What get_or_create() does, in its four cases.
  get_or_create_cases :
      (path : String) (kind : SubjectKind) (r : Registry) (w : State)
      → ((slot : Slot) × (lookup path r ≡ some slot)
          × (get_or_create W path kind (r, w)
              ≡ ((if same_kind slot.kind kind then some slot.subject else none), r, w)))
        ⊎ ((lookup path r ≡ none)
            × (get_or_create W path kind (r, w) ≡ (none, r, (create kind w).1)))
        ⊎ ((subject : ℕ) × (lookup path r ≡ none)
            × (get_or_create W path kind (r, w) ≡ (
              some subject,
              (
                path,
                record {
                  kind = kind;
                  subject = subject;
                  sub_handle = (open_subscription W path (create kind w).1).0;
                },
              )
                  ∷ r,
              (open_subscription W path (create kind w).1).1,
            )))
  unfolding get_or_create
  get_or_create_cases path kind r w = elim (Option-cases (lookup path r)) [
    | inr (slot, e) ↦ inl (slot, e, ground arith)
    | inl e ↦ elim (Option-cases (create kind w).0) [
      | inl c ↦ inr (inl (e, ground arith))
      | inr (subject, c) ↦ inr (inr (subject, e, ground arith))
    ]
  ]

  get_or_create_known :
      (path : String) (kind : SubjectKind) (slot : Slot) (r : Registry) (w : State)
      → lookup path r ≡ some slot
      → get_or_create W path kind (r, w)
        ≡ ((if same_kind slot.kind kind then some slot.subject else none), r, w)
  unfolding get_or_create
  get_or_create_known path kind slot r w e = ground arith

  get_or_create_stored :
      (path : String) (kind : SubjectKind) (subject : ℕ) (r s : Registry) (w v : State)
      → get_or_create W path kind (r, w) ≡ (some subject, s, v)
      → (slot : Slot) × (lookup path s ≡ some slot) × (slot.kind ≡ kind) × (slot.subject ≡ subject)
  unfolding lookup
  get_or_create_stored path kind subject r s w v e = elim (get_or_create_cases path kind r w) [
    | inl (slot, l, done) ↦ elim (Bool-cases (same_kind slot.kind kind)) [
      | inl q ↦ (slot, ground arith, (same_kind_iff slot.kind kind).0 q, ground arith)
      | inr q ↦ absurd (ground arith)
    ]
    | inr (inl (l, done)) ↦ absurd (ground arith)
    | inr (inr (made, l, done)) ↦
        let kept : s ≡ (get_or_create W path kind (r, w)).1 = rw e refl in
        (
          record {
            kind = kind;
            subject = made;
            sub_handle = (open_subscription W path (create kind w).1).0;
          },
          rw (kept, done) (ground (arith, str_refl path)),
          refl,
          ground arith,
        )
  ]

  -- A bind that yields a subject yields it again, without a second subscription; a bind of the
  -- path as another kind then yields none; neither changes anything.
  get_or_create_again :
      (path : String) (kind again : SubjectKind) (subject : ℕ) (r s : Registry) (w v : State)
      → get_or_create W path kind (r, w) ≡ (some subject, s, v)
      → get_or_create W path again (s, v)
        ≡ ((if same_kind kind again then some subject else none), s, v)
  get_or_create_again path kind again subject r s w v e =
      let (slot, stored, k, id) = get_or_create_stored path kind subject r s w v e in
      get_or_create_known path again slot s v stored ∙ rw (k, id) refl

  -- The slot of a path after garbage_collect(): that of before, collected.
  garbage_collect_slot :
      (live : String → Bool) (path : String) (slot : Slot) (r : Registry) (w : State)
      → lookup path r ≡ some slot
      → (v : State) × (lookup path (garbage_collect W live (r, w)).0
          ≡ some (collect_slot W (live path) path slot v).0)
  unfolding garbage_collect lookup
  garbage_collect_slot live path slot [] w e = absurd (cc)
  garbage_collect_slot live path slot ((k, first) ∷ r) w e = elim (Bool-cases (k =s path)) [
    | inl q ↦
        let same : k ≡ path = (str_iff k path).0 q in
        let here : first ≡ slot = ground arith in
        (w, rw (same, here) (ground (arith, str_refl path)))
    | inr q ↦
        let (v, f) =
          garbage_collect_slot live path slot r (collect_slot W (live k) k first w).1
            (ground arith) in
        (v, rw q f)
  ]

  garbage_collect-none :
      (live : String → Bool) (path : String) (r : Registry) (w : State)
      → lookup path r ≡ none
      → lookup path (garbage_collect W live (r, w)).0 ≡ none
  unfolding garbage_collect lookup
  garbage_collect-none live path [] w e = refl
  garbage_collect-none live path ((k, first) ∷ r) w e = elim (Bool-cases (k =s path)) [
    | inl q ↦ absurd (ground arith)
    | inr q ↦
        rw q (garbage_collect-none live path r (collect_slot W (live k) k first w).1 (ground arith))
  ]

  -- What a call keeps of a slot.
  abbrev pub Keeps : String → Slot → Registry → Type 0
  Keeps path slot r =
      (after : Slot) × (lookup path r ≡ some after)
      × (after.kind ≡ slot.kind)
      × (after.subject ≡ slot.subject)

  collect_slot-kept :
      (live : Bool) (path : String) (slot : Slot) (w : State)
      → ((collect_slot W live path slot w).0.kind ≡ slot.kind)
        × ((collect_slot W live path slot w).0.subject ≡ slot.subject)
  unfolding collect_slot
  collect_slot-kept live path slot w = ground arith

  step-Keeps :
      (c : Call) (path : String) (slot : Slot) (r : Registry) (w : State)
      → lookup path r ≡ some slot
      → Keeps path slot (step c (r, w)).0
  unfolding step lookup
  step-Keeps (swaps live) path slot r w e =
      let (v, f) = garbage_collect_slot live path slot r w e in
      let kept = collect_slot-kept (live path) path slot v in
      ((collect_slot W (live path) path slot v).0, f, kept.0, kept.1)
  step-Keeps (binds p kind) path slot r w e = elim (get_or_create_cases p kind r w) [
    | inl (other, l, done) ↦ (slot, rw done e, refl, refl)
    | inr (inl (l, done)) ↦ (slot, rw done e, refl, refl)
    | inr (inr (made, l, done)) ↦ elim (Bool-cases (p =s path)) [
      | inl q ↦ absurd (ground (arith, str_iff p path))
      | inr q ↦ (slot, rw (done, q) e, refl, refl)
    ]
  ]

  -- A subject, once made for a path, is the path's subject for good, with the kind it was made for,
  -- whatever layouts are swapped in and out afterwards.
  pub run-Keeps :
      (cs : List Call) (path : String) (slot : Slot) (r : Registry) (w : State)
      → lookup path r ≡ some slot
      → Keeps path slot (run cs (r, w)).0
  unfolding run
  run-Keeps [] path slot r w e = (slot, e, refl, refl)
  run-Keeps (c ∷ cs) path slot r w e =
      let (mid, f, kind, subject) = step-Keeps c path slot r w e in
      let (after, g, kind', subject') =
        run-Keeps cs path mid (step c (r, w)).0 (step c (r, w)).1 f in
      (after, g, kind' ∙ kind, subject' ∙ subject)

  -- After a layout swap no path that the layout does not bind is subscribed; a path that it binds
  -- keeps a subscription that it had, and one that is no sentinel has been asked for if it had none.
  garbage_collect_lem :
      (live : String → Bool) (path : String) (slot : Slot) (r : Registry) (w : State)
      → lookup path r ≡ some slot
      → (after : Slot) × (lookup path (garbage_collect W live (r, w)).0 ≡ some after)
        × (live path ≡ false → after.sub_handle ≡ 0)
        × (live path ≡ true → 0 < slot.sub_handle → after.sub_handle ≡ slot.sub_handle)
        × (live path ≡ true
            → is_local_sentinel path ≡ false
            → slot.sub_handle ≡ 0
            → (v : State) × (after.sub_handle ≡ (subscribe path v).0))
  unfolding collect_slot
  garbage_collect_lem live path slot r w e =
      let (v, f) = garbage_collect_slot live path slot r w e in
      (
        (collect_slot W (live path) path slot v).0,
        f,
        (λ h. ground arith),
        (λ h s. ground arith),
        (λ h n z. (v, ground arith)),
      )

  -- A sentinel has no subscription.
  abbrev IsLocal : Registry → Type 0
  IsLocal = All (λ e. is_local_sentinel e.0 ≡ true → e.1.sub_handle ≡ 0)

  garbage_collect-IsLocal :
      (live : String → Bool) (r : Registry) (w : State)
      → IsLocal r
      → IsLocal (garbage_collect W live (r, w)).0
  unfolding garbage_collect collect_slot
  garbage_collect-IsLocal live [] w h = tt
  garbage_collect-IsLocal live ((path, slot) ∷ r) w (h, hs) = (
    (λ s. let z = h s in ground arith),
    garbage_collect-IsLocal live r (collect_slot W (live path) path slot w).1 hs,
  )

  step-IsLocal : (c : Call) (r : Registry) (w : State) → IsLocal r → IsLocal (step c (r, w)).0
  unfolding step open_subscription
  step-IsLocal (swaps live) r w h = garbage_collect-IsLocal live r w h
  step-IsLocal (binds path kind) r w h = elim (get_or_create_cases path kind r w) [
    | inl (other, l, done) ↦ rw done h
    | inr (inl (l, done)) ↦ rw done h
    | inr (inr (made, l, done)) ↦ rw done ((λ s. ground arith), h)
  ]

  -- After every history of binds and layout swaps no panel-local sentinel (a path that begins with
  -- `@`) holds a subscription.
  run-IsLocal : (cs : List Call) (r : Registry) (w : State) → IsLocal r → IsLocal (run cs (r, w)).0
  unfolding run
  run-IsLocal [] r w h = h
  run-IsLocal (c ∷ cs) r w h = run-IsLocal cs _ _ (step-IsLocal c r w h)
