-- ===== src/Ui/Timers.antt =====
-- The timers of components/cockpit_hal/src/ui.cpp: make_timer(), timer_cb() and cancel(). `s_timers` is
-- a list of its entries; the callable of a timer is a number.
use espos_p4_cockpit.Prelude.{
  ℕ, zero, suc, ◌+◌, ◌%◌, ◌^◌, Bool, false, not, ◌||◌, Option, none, some, List, [], ◌∷◌, length,
  ◌==◌, if◌then◌else◌,
}

-- An entry with what its TimerCtx holds.
pub record Timer : Type 0 where
  pub handle : ℕ
  pub once : Bool
  pub fn : ℕ

pub record Timers : Type 0 where
  pub s_next_handle : ℕ
  pub s_timers : List Timer

-- `s_timers.count(h) != 0`.
abbrev pub is_live : ℕ → List Timer → Bool
is_live h [] = false
is_live h (t ∷ ts) = t.handle == h || is_live h ts

-- The next handle that the loop tries.
abbrev pub candidate : ℕ → ℕ
candidate next = if next == 0 then 1 else next

-- The loop of make_timer(): the handle that it takes and the next `s_next_handle`; none where the fuel
-- ran out.
unfoldable pub next_free : ℕ → ℕ → List Timer → Option (ℕ × ℕ)
next_free zero next ts = none
next_free (suc fuel) next ts =
    let h = candidate next in
    let rest = next_free fuel ((h + 1) % 2 ^ 32) ts in
    if is_live h ts then rest else some (h, (h + 1) % 2 ^ 32)

-- make_timer() with one round for each timer and one more; it returns the handle.
unfoldable pub make_timer : Bool → ℕ → Timers → Option ℕ × Timers
make_timer once fn s = elim (next_free (suc (length s.s_timers)) s.s_next_handle s.s_timers) [
  | none ↦ (none, s)
  | some (h, next) ↦ (
    some h,
    record {
      s_next_handle = next;
      s_timers = record { handle = h; once = once; fn = fn } ∷ s.s_timers;
    },
  )
]

-- `s_timers.erase(it)`, with the timer and its context.
abbrev pub erase_timer : ℕ → List Timer → List Timer
erase_timer h [] = []
erase_timer h (t ∷ ts) = if t.handle == h then ts else t ∷ erase_timer h ts

unfoldable pub cancel : ℕ → Timers → Timers
cancel h s = if is_live h s.s_timers then record s { s_timers = erase_timer h s.s_timers } else s

-- What a callable does with timers while it runs.
pub data Call : Type 0 where
  makes : Bool → ℕ → Call
  cancels : ℕ → Call

unfoldable pub call : Call → Timers → Timers
call (makes once fn) s = (make_timer once fn s).1
call (cancels h) s = cancel h s

unfoldable pub calls : List Call → Timers → Timers
calls [] s = s
calls (c ∷ cs) s = calls cs (call c s)

-- timer_cb() of a timer, where its callable makes the given calls.
unfoldable pub timer_cb : Timer → List Call → Timers → Timers
timer_cb t body s =
    let s' = calls body s in
    if not (is_live t.handle s'.s_timers)
    then s'
    else if t.once
    then record s' { s_timers = erase_timer t.handle s'.s_timers }
    else s'
