-- ===== src/Ui/Firing.antt =====
-- What a handle of components/cockpit_hal/src/ui.cpp names while timers are made, cancelled and fired.
use espos_p4_cockpit.Prelude.{
  ℕ, suc, ◌+◌, ◌-◌, ◌^◌, ◌≤◌, ◌<◌, ◌≡◌, ◌≢◌, inl, inr, refl, ◌∙◌, sym, subst, true, false, not,
  ◌&&◌, Option, none, some, List, [], ◌∷◌, length, ◌==◌, if◌then◌else◌, Bool-cases, All, arith,
}
use espos_p4_cockpit.Ui.Timers.{
  Timer, Timers, is_live, erase_timer, cancel, Call, makes, cancels, call, calls, timer_cb,
}
use espos_p4_cockpit.Ui.Handles.{make_timer_lem, is_live-erase_timer}

abbrev pub find : ℕ → List Timer → Option Timer
find h [] = none
find h (t ∷ ts) = if t.handle == h then some t else find h ts

-- No two timers have one handle, and none has the handle 0.
abbrev pub IsUnique : List Timer → Type 0
IsUnique [] = Unit
IsUnique (t ∷ ts) = (t.handle ≢ 0) × (is_live t.handle ts ≡ false) × IsUnique ts

-- A state with room for `k` more timers.
pub record HasRoom (k : ℕ) (s : Timers) : Type 0 where
  pub next : s.s_next_handle < 2 ^ 32
  pub room : length s.s_timers + k < 2 ^ 32 - 1
  pub unique : IsUnique s.s_timers

-- A call that leaves the timer with the given handle alone.
abbrev pub Spares : ℕ → Call → Type 0
Spares h (makes once fn) = Unit
Spares h (cancels h') = h' ≢ h

find-erase_timer : (h h' : ℕ) (ts : List Timer) → h' ≢ h → find h (erase_timer h' ts) ≡ find h ts
find-erase_timer h h' [] ne = refl
find-erase_timer h h' (t ∷ ts) ne = ground (arith, find-erase_timer h h' ts ne)

is_live-find : (h : ℕ) (ts : List Timer) → find h ts ≡ none → is_live h ts ≡ false
is_live-find h [] e = refl
is_live-find h (t ∷ ts) e = ground (arith, is_live-find h ts)

find-is_live : (h : ℕ) (t : Timer) (ts : List Timer) → find h ts ≡ some t → is_live h ts ≡ true
find-is_live h t [] e = absurd (ground arith)
find-is_live h t (u ∷ ts) e = ground (arith, find-is_live h t ts)

erase_timer-is_live : (h : ℕ) (ts : List Timer) → IsUnique ts → is_live h (erase_timer h ts) ≡ false
erase_timer-is_live h [] u = refl
erase_timer-is_live h (t ∷ ts) (ne, free, u) = elim (Bool-cases (t.handle == h)) [
  | inl e ↦ let same : t.handle ≡ h = ground arith in rw e (cc)
  | inr e ↦ rw e (rw e (erase_timer-is_live h ts u))
]

unchanged :
    (t : Timer) (h : ℕ) (ts : List Timer)
    → (t.handle == h) ≡ false
    → is_live t.handle ts ≡ false
    → is_live t.handle (erase_timer h ts) ≡ false
unchanged t h ts e free = is_live-erase_timer t.handle h ts (λ same. absurd (ground arith)) ∙ free

erase_timer-IsUnique : (h : ℕ) (ts : List Timer) → IsUnique ts → IsUnique (erase_timer h ts)
erase_timer-IsUnique h [] u = tt
erase_timer-IsUnique h (t ∷ ts) (ne, free, u) = elim (Bool-cases (t.handle == h)) [
  | inl e ↦ rw e u
  | inr e ↦ rw e (ne, unchanged t h ts e free, erase_timer-IsUnique h ts u)
]

length-erase_timer-le : (h : ℕ) (ts : List Timer) → length (erase_timer h ts) ≤ length ts
length-erase_timer-le h [] = omega arith
length-erase_timer-le h (t ∷ ts) = ground (arith, length-erase_timer-le h ts)

call-HasRoom : (k : ℕ) (c : Call) (s : Timers) → HasRoom (suc k) s → HasRoom k (call c s)
unfolding call cancel
call-HasRoom k (makes once fn) s r =
    let (h, next, e, ne, free, lt) = make_timer_lem once fn s r.next (omega (arith, r.room)) in
    subst (λ p. HasRoom k p.1) (sym e)
      (record { next = lt; room = omega (arith, r.room); unique = (ne, free, r.unique) })
call-HasRoom k (cancels h) s r = elim (Bool-cases (is_live h s.s_timers)) [
  | inl e ↦ rw e (record {
    next = r.next;
    room = omega (arith, r.room, length-erase_timer-le h s.s_timers);
    unique = erase_timer-IsUnique h s.s_timers r.unique;
  })
  | inr e ↦ rw e (record { next = r.next; room = omega (arith, r.room); unique = r.unique })
]

call-find :
    (k : ℕ) (c : Call) (s : Timers) (h : ℕ) (t : Timer)
    → HasRoom (suc k) s
    → Spares h c
    → find h s.s_timers ≡ some t
    → find h (call c s).s_timers ≡ some t
unfolding call cancel
call-find k (makes once fn) s h t r spares e =
    let (h', next, made, ne, free, lt) = make_timer_lem once fn s r.next (omega (arith, r.room)) in
    let live = find-is_live h t s.s_timers e in
    subst (λ p. find h p.1.s_timers ≡ some t) (sym made) (ground arith)
call-find k (cancels h') s h t r spares e = elim (Bool-cases (is_live h' s.s_timers)) [
  | inl live ↦ rw live (find-erase_timer h h' s.s_timers spares ∙ e)
  | inr dead ↦ rw dead e
]

AreSpared : ℕ → List Call → Type 0
AreSpared h cs = All (Spares h) cs

calls-HasRoom :
    (k : ℕ) (cs : List Call) (s : Timers) → HasRoom (length cs + k) s → HasRoom k (calls cs s)
unfolding calls
calls-HasRoom k [] s r = record { next = r.next; room = omega (arith, r.room); unique = r.unique }
calls-HasRoom k (c ∷ cs) s r = calls-HasRoom k cs (call c s) (
    call-HasRoom (length cs + k) c s
      (record { next = r.next; room = omega (arith, r.room); unique = r.unique }))

-- A handle names its timer, and no other, until the timer is cancelled: whatever calls come between.
pub calls-find :
    (cs : List Call) (s : Timers) (h : ℕ) (t : Timer)
    → HasRoom (length cs) s
    → All (Spares h) cs
    → find h s.s_timers ≡ some t
    → find h (calls cs s).s_timers ≡ some t
unfolding calls
calls-find [] s h t r spares e = e
calls-find (c ∷ cs) s h t r (now, later) e =
    let r' : HasRoom (suc (length cs)) s = record {
      next = r.next;
      room = omega (arith, r.room);
      unique = r.unique;
    } in
    calls-find cs (call c s) h t (call-HasRoom (length cs) c s r') later
      (call-find (length cs) c s h t r' now e)

find-is_live_not : (h : ℕ) (ts : List Timer) → is_live h ts ≡ false → find h ts ≡ none
find-is_live_not h [] e = refl
find-is_live_not h (t ∷ ts) e = ground (arith, find-is_live_not h ts)

-- What erasing does to every search.
find-erase :
    (h h' : ℕ) (ts : List Timer)
    → IsUnique ts
    → find h (erase_timer h' ts) ≡ (if h' == h then none else find h ts)
find-erase h h' ts u = elim (Bool-cases (h' == h)) [
  | inl e ↦
      let same : h' ≡ h = ground arith in
      let gone = find-is_live_not h (erase_timer h ts) (erase_timer-is_live h ts u) in
      rw e (subst (λ k. find h (erase_timer k ts) ≡ none) (sym same) gone)
  | inr e ↦ rw e (find-erase_timer h h' ts (λ same. absurd (ground arith)))
]

after_body :
    (t : Timer) (s : Timers) (h : ℕ)
    → IsUnique s.s_timers
    → find h
        (if not (is_live t.handle s.s_timers)
          then s
          else if t.once
          then record s { s_timers = erase_timer t.handle s.s_timers }
          else s).s_timers
      ≡ (if t.once && t.handle == h then none else find h s.s_timers)
after_body t s h u =
    let gone = find-erase h t.handle s.s_timers u in
    let never = find-is_live_not h s.s_timers in ground (arith, gone, never)

-- After a firing a timer of after() is gone, and every other handle names what the callable left.
timer_cb_lem :
    (t : Timer) (body : List Call) (s : Timers) (h : ℕ)
    → HasRoom (length body) s
    → find h (timer_cb t body s).s_timers
      ≡ (if t.once && t.handle == h then none else find h (calls body s).s_timers)
unfolding timer_cb
timer_cb_lem t body s h r =
    after_body t (calls body s) h
      (calls-HasRoom 0 body s
        (record { next = r.next; room = omega (arith, r.room); unique = r.unique })).unique
