-- ===== src/Controls/Toggle.antt =====
-- The toggle of main/jlp/widgets/widget_factory.cpp: its switch, the requests of its taps, and the timer
-- that brings the switch back to what the server says.
use espos_p4_cockpit.Prelude.{
  ◌≡◌, refl, sym, ◌∙◌, ◌⊎◌, inl, inr, Bool, true, false, not, List, [], ◌∷◌, ◌++◌, if◌then◌else◌,
  arith,
}
use mathlib.Core.List.{append_assoc, append-nil}

-- `sub_on` is whether the subject is not 0, `checked` the state of the switch, `reconcile` whether the
-- timer of TogglePressCtx is pending, `sent` the values of the PUTs.
pub record Toggle : Type 0 where
  pub sub_on : Bool
  pub checked : Bool
  pub reconcile : Bool
  pub sent : List Bool

-- A value of the server, with the observer of the switch.
unfoldable pub on_value : Bool → Toggle → Toggle
on_value on t = record t { sub_on = on; checked = on }

-- LVGL flips the switch, and the handler of the click runs.
unfoldable pub on_clicked : Toggle → Toggle
on_clicked t = record t {
  checked = not t.checked;
  reconcile = true;
  sent = t.sent ++ not t.sub_on ∷ [];
}

-- The timer, which runs once.
unfoldable pub on_reconcile : Toggle → Toggle
on_reconcile t = record t {
  checked = if t.reconcile then t.sub_on else t.checked;
  reconcile = false;
}

pub data Event : Type 0 where
  value : Bool → Event
  clicked reconciled : Event

unfoldable pub step : Event → Toggle → Toggle
unfolding on_value on_clicked on_reconcile
step (value on) t = on_value on t
step clicked t = on_clicked t
step reconciled t = on_reconcile t

unfoldable pub run : List Event → Toggle → Toggle
run [] t = t
run (e ∷ es) t = run es (step e t)

-- The switch as it is built, where the subject has the given value.
abbrev pub built : Bool → Toggle
built on = record { sub_on = on; checked = on; reconcile = false; sent = [] }

-- The value that the server reported last.
pub reported : List Event → Bool → Bool
reported [] on = on
reported (value on' ∷ es) on = reported es on'
reported (clicked ∷ es) on = reported es on
reported (reconciled ∷ es) on = reported es on

-- For each tap the opposite of what the server reported last.
pub wishes : List Event → Bool → List Bool
wishes [] on = []
wishes (value on' ∷ es) on = wishes es on'
wishes (clicked ∷ es) on = not on ∷ wishes es on
wishes (reconciled ∷ es) on = wishes es on

-- The switch shows what the server says, or the timer is to bring it back.
abbrev pub Settles : Toggle → Type 0
Settles t = (t.reconcile ≡ true) ⊎ (t.checked ≡ t.sub_on)

step-Settles : (e : Event) (t : Toggle) → Settles t → Settles (step e t)
unfolding step
step-Settles (value on) t h = inr refl
step-Settles clicked t h = inl refl
step-Settles reconciled t h = ground arith

run-wishes :
    (es : List Event) (t : Toggle)
    → Settles t
    → (run es t).sent ≡ t.sent ++ wishes es t.sub_on
      × ((run es t).sub_on ≡ reported es t.sub_on)
      × Settles (run es t)
unfolding run step wishes reported
run-wishes [] t h = (sym (append-nil t.sent), refl, h)
run-wishes (value on ∷ es) t h = run-wishes es (step (value on) t) (step-Settles (value on) t h)
run-wishes (clicked ∷ es) t h =
    let (sent, last, settles) = run-wishes es (step clicked t) (step-Settles clicked t h) in
    (sent ∙ append_assoc t.sent (not t.sub_on ∷ []) (wishes es t.sub_on), last, settles)
run-wishes (reconciled ∷ es) t h = run-wishes es (step reconciled t) (step-Settles reconciled t h)

-- After every sequence of taps, values and firings of the timer the requests are one for each tap, of
-- the opposite of what the server had reported last, and unless the timer is pending the switch shows
-- what the server reported last.
pub run-reported :
    (es : List Event) (on : Bool)
    → (run es (built on)).sent ≡ wishes es on
      × (((run es (built on)).reconcile ≡ true) ⊎ ((run es (built on)).checked ≡ reported es on))
run-reported es on =
    let (sent, last, settles) = run-wishes es (built on) (inr refl) in
    (sent, elim settles [ inl pending ↦ inl pending | inr same ↦ inr (same ∙ last) ])
