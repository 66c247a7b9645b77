-- ===== src/Picture/Sessions.antt =====
-- Which session's buffers the stream widget refers to.
use espos_p4_cockpit.Prelude.{
  ℕ, ◌+◌, ◌^◌, length, ◌≤◌, ◌<◌, ◌≡◌, ◌⊎◌, refl, inr, Bool, true, false, not, ◌&&◌, ◌||◌, Option,
  none, some, is_some, List, [], ◌∷◌, ◌++◌, ◌==◌, if◌then◌else◌, All, arith,
}
use espos_p4_cockpit.Picture.{
  Pixels, Post, Picture, is_pixels, show_pixels, drain, Event, starts, frame, drains, stops, step,
  run, shown,
}

-- A frame is handed over only by the session that runs.
abbrev pub IsTimely : Event → Picture → Type 0
IsTimely (frame px) s = (s.started ≡ true) × (px.session ≡ s.session)
IsTimely _ s = Unit

abbrev pub AreTimely : List Event → Picture → Type 0
AreTimely [] s = Unit
AreTimely (e ∷ es) s = IsTimely e s × AreTimely es (step e s)

-- Pixels of the session that runs.
abbrev pub Runs : Bool → ℕ → Option Pixels → Type 0
Runs started session none = Unit
Runs started session (some px) = (started ≡ true) × (px.session ≡ session)

abbrev Posted : Bool → ℕ → ℕ → Post → Type 0
Posted started epoch session p =
    (p.ep < epoch) ⊎ ((started ≡ true) × (p.px.session ≡ session) × (p.ep ≡ epoch))

abbrev pub IsPicture : Picture → Type 0
IsPicture s =
    Runs s.started s.session s.buf_0
    × Runs s.started s.session s.buf_1
    × All (Posted s.started s.epoch s.session) s.queue

All-weaken :
    {A : Type 0} {P Q : A → Type 0} → ((x : A) → P x → Q x) → (xs : List A) → All P xs → All Q xs
All-weaken f [] all = tt
All-weaken f (x ∷ xs) (h, all) = (f x h, All-weaken f xs all)

All-snoc :
    {A : Type 0} (P : A → Type 0) (xs : List A) (x : A) → All P xs → P x → All P (xs ++ x ∷ [])
All-snoc P [] x all h = (h, tt)
All-snoc P (y ∷ xs) x (k, all) h = (k, All-snoc P xs x all h)

if-IsPicture :
    (b : Bool) (s s' : Picture)
    → (b ≡ true → IsPicture s)
    → (b ≡ false → IsPicture s')
    → IsPicture (if b then s else s')
if-IsPicture true s s' h h' = h refl
if-IsPicture false s s' h h' = h' refl

show_pixels-IsPicture :
    (px : Pixels) (s : Picture)
    → Runs s.started s.session (some px)
    → IsPicture s
    → IsPicture (show_pixels px s)
show_pixels-IsPicture px s r (a, b, q) =
    let shown = record s { placeholder = false } in
    if-IsPicture (is_pixels px s.buf_0) (record shown { src = some 0 }) _ (λ e. (a, b, q))
      (λ e.
        if-IsPicture (is_pixels px s.buf_1) (record shown { src = some 1 }) _ (λ e. (a, b, q))
          (λ e.
            if-IsPicture (is_some s.buf_0) (record shown { buf_1 = some px; src = some 1 })
              (record shown { buf_0 = some px; src = some 0 }) (λ e. (a, r, q)) (λ e. (r, b, q))))

Posted-now :
    (started : Bool) (epoch session : ℕ) (p : Post)
    → (p.ep == epoch) ≡ true
    → Posted started epoch session p
    → Runs started session (some p.px)
Posted-now started epoch session p now h = ground arith

drain-IsPicture :
    (s : Picture) (ps : List Post)
    → IsPicture (record s { queue = ps })
    → IsPicture (drain (record s { queue = ps }))
drain-IsPicture s [] h = h
drain-IsPicture s (p ∷ ps) (a, b, q) =
    let s' = record s { queue = ps } in
    if-IsPicture (s.alive && p.ep == s.epoch) (show_pixels p.px s') s'
      (λ e.
        show_pixels-IsPicture p.px s' (Posted-now s.started s.epoch s.session p (ground arith) q.0)
          (a, b, q.1))
      (λ e. (a, b, q.1))

step-IsPicture :
    (e : Event) (s : Picture)
    → s.epoch + 1 < 2 ^ 32
    → IsTimely e s
    → IsPicture s
    → IsPicture (step e s)
unfolding step
step-IsPicture (starts ok) s few timely (a, b, q) =
    if-IsPicture (s.started || not ok) s (record s { started = true; session = s.session + 1 })
      (λ e. (a, b, q))
      (λ e.
        let off : s.started ≡ false = ground arith in
        (idle s.buf_0 a off, idle s.buf_1 b off, All-weaken (λ p h. ground arith) s.queue q))
  where
    idle :
        (o : Option Pixels)
        → Runs s.started s.session o
        → s.started ≡ false
        → Runs true (s.session + 1) o
    idle none h off = tt
    idle (some px) h off = absurd (ground arith)
step-IsPicture (frame px) s few timely (a, b, q) =
    if-IsPicture s.alive (record s { queue = s.queue ++ record { ep = s.epoch; px = px } ∷ [] }) s
      (λ e. (a, b, All-snoc _ s.queue _ q (inr (timely.0, timely.1, refl)))) (λ e. (a, b, q))
step-IsPicture drains s few timely h = drain-IsPicture s s.queue h
step-IsPicture stops s few timely (a, b, q) =
    if-IsPicture (not s.started) s _ (λ e. (a, b, q))
      (λ e. (tt, tt, All-weaken (λ p h. ground arith) s.queue q))

step-epoch : (e : Event) (s : Picture) → s.epoch + 1 < 2 ^ 32 → (step e s).epoch ≤ s.epoch + 1
unfolding step
step-epoch (starts ok) s few = ground arith
step-epoch (frame px) s few = ground arith
step-epoch drains s few = ground arith
step-epoch stops s few = ground arith

run-IsPicture :
    (es : List Event) (s : Picture)
    → s.epoch + length es < 2 ^ 32
    → AreTimely es s
    → IsPicture s
    → IsPicture (run es s)
unfolding run
run-IsPicture [] s few timely h = h
run-IsPicture (e ∷ es) s few (now, later) h =
    let one : s.epoch + 1 < 2 ^ 32 = omega arith in
    run-IsPicture es (step e s) (omega (arith, step-epoch e s one)) later
      (step-IsPicture e s one now h)

-- Before the first start.
abbrev pub blank : Picture
blank = record {
  started = false;
  alive = true;
  epoch = 0;
  buf_0 = none;
  buf_1 = none;
  src = none;
  placeholder = true;
  queue = [];
  session = 0;
}

-- Where only the session that runs hands frames over, the image never refers to pixels of a session
-- that was stopped, however fewer than 2^32 starts, stops, frames and jobs interleave.
pub run-shown :
    (es : List Event) (px : Pixels)
    → length es < 2 ^ 32
    → AreTimely es blank
    → shown (run es blank) ≡ some px
    → let s = run es blank in (s.started ≡ true) × (px.session ≡ s.session)
run-shown es px few timely =
    refers (run es blank) (run-IsPicture es blank (omega arith) timely (tt, tt, tt))
  where
    refers :
        (s : Picture)
        → IsPicture s
        → shown s ≡ some px
        → (s.started ≡ true) × (px.session ≡ s.session)
    refers s (a, b, q) e = ground arith

-- Of a widget that lives, is started and has no job waiting: a frame that is handed over after the stop,
-- of whatever session, is shown once its job runs, without the placeholder, while no session runs.
pub late-shown :
    (s : Picture) (px : Pixels)
    → s.alive ≡ true
    → s.started ≡ true
    → s.queue ≡ []
    → let s' = run (stops ∷ frame px ∷ drains ∷ []) s in
      (shown s' ≡ some px) × (s'.placeholder ≡ false) × (s'.started ≡ false)
unfolding run step
late-shown s px alive started queue = ground arith
