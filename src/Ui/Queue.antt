-- ===== src/Ui/Queue.antt =====
-- The job queue of components/cockpit_hal/src/ui.cpp: post() and drain_queue(). A job is run with the clock
-- that it finds; the state is what the jobs change.
use espos_p4_cockpit.Prelude.{ℕ, Bool, List, [], ◌∷◌, ◌++◌, if◌then◌else◌}

pub record Queue (A S : Type 0) : Type 0 where
  pub s_queue : List A
  pub state : S

module _ {A S : Type 0} (exec : ℕ → A → S → S) where
  abbrev pub post : Bool → ℕ → A → Queue A S → Queue A S
  post on_ui_thread now fn q =
      if on_ui_thread
      then record q { state = exec now fn q.state }
      else record q { s_queue = q.s_queue ++ fn ∷ [] }

  -- One round of drain_queue().
  abbrev pub drain_one : ℕ → Queue A S → Queue A S
  drain_one now q = elim q.s_queue [
    | [] ↦ q
    | fn ∷ fns ↦ record { s_queue = fns; state = exec now fn q.state }
  ]
