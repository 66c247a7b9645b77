-- ===== src/Ui/Handles.antt =====
-- make_timer() of components/cockpit_hal/src/ui.cpp always finds a handle.
use espos_p4_cockpit.Prelude.{
  ℕ, zero, suc, ◌+◌, ◌-◌, ◌%◌, ◌^◌, ◌≤◌, ◌<◌, ◌≡◌, ◌≢◌, ◌⊎◌, inl, inr, refl, ◌∙◌, Bool, true, false,
  none, some, List, [], ◌∷◌, length, Bool-cases, Option-cases, arith,
}
use espos_p4_cockpit.Ui.Timers.{
  Timer, Timers, is_live, candidate, next_free, erase_timer, make_timer,
}

-- After `d` steps of the loop from `next` on the handle `n` is tried.
abbrev Reaches : ℕ → ℕ → ℕ → Type 0
Reaches next d n = (candidate next + d ≡ n) ⊎ (candidate next + d ≡ n + 4294967295)

Reaches-step :
    (next d n : ℕ)
    → next < 4294967296
    → 1 ≤ n
    → n < 4294967296
    → suc d < 4294967295
    → Reaches next (suc d) n
    → (candidate next ≢ n) × Reaches ((candidate next + 1) % 2 ^ 32) d n
Reaches-step next d n lt low high few h = (λ e. absurd (ground arith), ground arith)

pub is_live-erase_timer :
    (m h : ℕ) (ts : List Timer) → m ≢ h → is_live m (erase_timer h ts) ≡ is_live m ts
is_live-erase_timer m h [] ne = refl
is_live-erase_timer m h (t ∷ ts) ne = ground (arith, is_live-erase_timer m h ts ne)

-- Removing a handle that the loop does not try changes nothing.
next_free-erase_timer :
    (fuel next d h : ℕ) (ts : List Timer)
    → next < 4294967296
    → 1 ≤ h
    → h < 4294967296
    → fuel ≤ d
    → d < 4294967295
    → Reaches next d h
    → next_free fuel next (erase_timer h ts) ≡ next_free fuel next ts
unfolding next_free
next_free-erase_timer zero next d h ts lt low high le few r = refl
next_free-erase_timer (suc fuel) next zero h ts lt low high le few r = absurd (omega arith)
next_free-erase_timer (suc fuel) next (suc d) h ts lt low high le few r =
    let (ne, later) = Reaches-step next d h lt low high few r in
    let kept = is_live-erase_timer (candidate next) h ts ne in
    let rest =
      next_free-erase_timer fuel ((candidate next + 1) % 4294967296) d h ts (omega arith) low high
        (omega arith) (omega arith) later in
    cc

length-erase_timer :
    (h : ℕ) (ts : List Timer) → is_live h ts ≡ true → suc (length (erase_timer h ts)) ≡ length ts
length-erase_timer h [] live = absurd (ground arith)
length-erase_timer h (t ∷ ts) live = ground (arith, length-erase_timer h ts)

candidate_bounds :
    (next : ℕ) → next < 4294967296 → (1 ≤ candidate next) × (candidate next < 4294967296)
candidate_bounds next lt = (ground arith, ground arith)

around :
    (next : ℕ)
    → next < 4294967296
    → Reaches ((candidate next + 1) % 4294967296) 4294967294 (candidate next)
around next lt = ground arith

next_free-some :
    (fuel next : ℕ) (ts : List Timer) (h next' : ℕ)
    → next < 4294967296
    → next_free fuel next ts ≡ some (h, next')
    → (h ≢ 0) × (is_live h ts ≡ false) × (next' < 4294967296)
unfolding next_free
next_free-some zero next ts h next' lt e = absurd (ground arith)
next_free-some (suc fuel) next ts h next' lt e =
    let c = candidate next in
    let bounds = candidate_bounds next lt in
    elim (Bool-cases (is_live c ts)) [
      | inl live ↦
          next_free-some fuel ((c + 1) % 4294967296) ts h next' (omega arith) (ground arith)
      | inr free ↦
          let same : c ≡ h = ground arith in
          let after : (c + 1) % 4294967296 ≡ next' = ground arith in (omega arith, cc, omega arith)
    ]

-- The loop runs out of fuel only where there are as many timers.
next_free-none :
    (fuel next : ℕ) (ts : List Timer)
    → next < 4294967296
    → fuel < 4294967296
    → next_free fuel next ts ≡ none
    → fuel ≤ length ts
unfolding next_free
next_free-none zero next ts lt few h = omega arith
next_free-none (suc fuel) next ts lt few h =
    let c = candidate next in
    let next' = (c + 1) % 4294967296 in
    elim (Bool-cases (is_live c ts)) [
      | inl live ↦
          let again : next_free fuel next' ts ≡ none = ground arith in
          let same =
            next_free-erase_timer fuel next' 4294967294 c ts (omega arith)
              (candidate_bounds next lt).0 (candidate_bounds next lt).1 (omega arith) (omega arith)
              (around next lt) in
          omega (
            arith,
            next_free-none fuel next' (erase_timer c ts) (omega arith) (omega arith) (same ∙ again),
            length-erase_timer c ts live,
          )
      | inr free ↦ absurd (ground arith)
    ]

-- With fewer than 2^32 - 1 timers make_timer() finds a handle, which is not 0 and no other timer's.
pub make_timer_lem :
    (once : Bool) (fn : ℕ) (s : Timers)
    → s.s_next_handle < 2 ^ 32
    → length s.s_timers < 2 ^ 32 - 1
    → (h : ℕ) × (next : ℕ) × (make_timer once fn s ≡ (
      some h,
      record {
        s_next_handle = next;
        s_timers = record { handle = h; once = once; fn = fn } ∷ s.s_timers;
      },
    ))
      × (h ≢ 0)
      × (is_live h s.s_timers ≡ false)
      × (next < 2 ^ 32)
unfolding make_timer
make_timer_lem once fn s lt few =
    elim (Option-cases (next_free (suc (length s.s_timers)) s.s_next_handle s.s_timers)) [
      | inl e ↦ absurd (
          omega (
            arith,
            next_free-none (suc (length s.s_timers)) s.s_next_handle s.s_timers lt (omega arith) e,
          ))
      | inr ((h, next), e) ↦
          let (ne, free, after) =
            next_free-some (suc (length s.s_timers)) s.s_next_handle s.s_timers h next lt e in
          (h, next, ground arith, ne, free, after)
    ]
