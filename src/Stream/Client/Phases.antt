-- ===== src/Stream/Client/Phases.antt =====
-- The `State`s of the stream client of main/jlp/net/stream_client.cpp by how far their starts and tasks
-- are, and what one step of a start or of a task that ends does to their number.
use espos_p4_cockpit.Prelude.{
  ℕ, zero, suc, ◌+◌, ◌*◌, ◌≡◌, refl, ap, sym, subst, ◌∙◌, Bool, true, false, List, [], ◌∷◌, ◌++◌,
  Option, none, some, All, length, ◌⊎◌, inl, inr, Option-cases, if◌then◌else◌, arith,
}
use mathlib.Core.List.{append-nil}
use espos_p4_cockpit.Stream.Client.{Object, Client, free_state, take_g_state, clear_g_state}
use espos_p4_cockpit.Stream.Client.World.{World, pick, looks, creates, exits, frees}

abbrev pub IsWhole : Object → Type 0
IsWhole o = (o.decoder ≡ true) × (o.rx_buf ≡ true) × (o.out_buf_0 ≡ true) × (o.out_buf_1 ≡ true)

abbrev pub ids : Option Object → List ℕ
ids none = []
ids (some o) = o.id ∷ []

abbrev pub ids_of : List Object → List ℕ
ids_of [] = []
ids_of (o ∷ os) = o.id ∷ ids_of os

abbrev pub allotted : World → ℕ
allotted w = length w.made + length w.handed + length w.dropped + length w.tasks + length w.ending

-- `g_state` is the one `State` that waits for its task or has a task which has not let go of it, and null
-- where there is none; what is allocated is one `State`, one engine and three buffers for each start and
-- each task that is yet to free its own.
pub record IsSingle (w : World) : Type 0 where
  pub current : ids_of (w.handed ++ w.tasks) ≡ ids w.client.g_state
  pub states : w.client.states ≡ allotted w
  pub engines : w.client.engines ≡ allotted w
  pub buffers : w.client.buffers ≡ 3 * allotted w
  pub made : All IsWhole w.made
  pub handed : All IsWhole w.handed
  pub dropped : All IsWhole w.dropped
  pub tasks : All IsWhole w.tasks
  pub ending : All IsWhole w.ending

-- The one that is picked, beside the others.
abbrev pub Splits : List Object → Option (Object × List Object) → Type 0
Splits os none = Unit
Splits os (some (o, rest)) = IsWhole o × All IsWhole rest × (length os ≡ suc (length rest))

pub pick-Splits : (i : ℕ) (os : List Object) → All IsWhole os → Splits os (pick i os)
pick-Splits i [] h = _
pick-Splits zero (o ∷ os) (h, hs) = (h, hs, refl)
pick-Splits (suc i) (o ∷ os) (h, hs) = go (pick i os) (pick-Splits i os hs)
  where
    go :
        (r : Option (Object × List Object))
        → Splits os r
        → Splits (o ∷ os) (elim r [ none ↦ none | some x ↦ some (x.0, o ∷ x.1) ])
    go none k = _
    go (some (x, rest)) (k, ks, n) = (k, (h, ks), ap suc n)

-- The one that is picked is the only one, and that of `g_state`.
abbrev pub IsOnly : List Object → Option Object → Option (Object × List Object) → Type 0
IsOnly os g none = Unit
IsOnly os g (some (o, rest)) = (rest ≡ []) × (os ≡ []) × (s : Object) × (g ≡ some s) × (s.id ≡ o.id)

ids_of_none : (os ts : List Object) → ids_of (os ++ ts) ≡ [] → (os ≡ []) × (ts ≡ [])
ids_of_none [] [] e = (refl, refl)
ids_of_none [] (t ∷ ts) e = absurd (cc)
ids_of_none (o ∷ os) ts e = absurd (cc)

ids_of_one :
    (o : Object) (os ts : List Object) (g : Option Object)
    → ids_of (o ∷ os ++ ts) ≡ ids g
    → (os ≡ []) × (ts ≡ []) × (s : Object) × (g ≡ some s) × (s.id ≡ o.id)
ids_of_one o os ts none e = absurd (cc)
ids_of_one o os ts (some s) e =
    let (a, b) = ids_of_none os ts (ground arith) in (a, b, s, refl, ground arith)

pick-none : (i : ℕ) (os : List Object) → os ≡ [] → pick i os ≡ none
pick-none i [] e = refl
pick-none i (o ∷ os) e = absurd (cc)

pub pick-IsOnly :
    (i : ℕ) (os ts : List Object) (g : Option Object)
    → ids_of (os ++ ts) ≡ ids g
    → IsOnly ts g (pick i os)
pick-IsOnly i [] ts g e = _
pick-IsOnly zero (o ∷ os) ts g e = ids_of_one o os ts g e
pick-IsOnly (suc i) (o ∷ os) ts g e =
    let empty = pick-none i os (ids_of_one o os ts g e).0 in rw empty _

-- The same behind others.
pub pick-IsOnly_after :
    (i : ℕ) (hs os : List Object) (g : Option Object)
    → ids_of (hs ++ os) ≡ ids g
    → IsOnly hs g (pick i os)
pick-IsOnly_after i (h ∷ hs) os g e =
    let empty = pick-none i os (ids_of_one h hs os g e).1 in rw empty _
pick-IsOnly_after i [] [] g e = _
pick-IsOnly_after zero [] (o ∷ os) g e =
    let (a, b, s, at, same) = ids_of_one o os [] g (rw (append-nil os) e) in (a, refl, s, at, same)
pick-IsOnly_after (suc i) [] (o ∷ os) g e =
    let empty = pick-none i os (ids_of_one o os [] g (rw (append-nil os) e)).0 in rw empty _

take_g_state_cases :
    (o : Object) (c : Client)
    → ((c.g_state ≡ none) × (take_g_state o c ≡ (true, record c { g_state = some o })))
      ⊎ (take_g_state o c ≡ (false, c))
unfolding take_g_state
take_g_state_cases o c = elim (Option-cases c.g_state) [
  | inl e ↦ inl (e, rw (take_g_state, e) refl)
  | inr (s, e) ↦ inr (rw (take_g_state, e) refl)
]

-- Of the parts of the invariant other than `current`.
abbrev Counts : Client → ℕ → Type 0
Counts c n = (c.states ≡ n) × (c.engines ≡ n) × (c.buffers ≡ 3 * n)

free_state-Counts :
    (o : Object) (c : Client) (n : ℕ) → IsWhole o → Counts c (suc n) → Counts (free_state o c) n
free_state-Counts o c n w k = ground arith

clear_g_state-Counts : (o : Object) (c : Client) (n : ℕ) → Counts c n → Counts (clear_g_state o c) n
unfolding clear_g_state
clear_g_state-Counts o c n k = ground arith

g_state-clear_g_state :
    (o s : Object) (c : Client)
    → c.g_state ≡ some s
    → s.id ≡ o.id
    → (clear_g_state o c).g_state ≡ none
unfolding clear_g_state
g_state-clear_g_state o s c e same = ground arith

abbrev AllWhole : World → Type 0
AllWhole w =
    All IsWhole w.made
    × All IsWhole w.handed
    × All IsWhole w.dropped
    × All IsWhole w.tasks
    × All IsWhole w.ending

-- All parts but `current`.
abbrev Kept : World → Type 0
Kept w = Counts w.client (allotted w) × AllWhole w

-- The same beside one more `State`.
abbrev KeptBeside : World → Type 0
KeptBeside w = Counts w.client (suc (allotted w)) × AllWhole w

pub kept : (w : World) → IsSingle w → Kept w
kept w k = ((k.states, k.engines, k.buffers), (k.made, k.handed, k.dropped, k.tasks, k.ending))

pub single : (w : World) → ids_of (w.handed ++ w.tasks) ≡ ids w.client.g_state → Kept w → IsSingle w
single w e ((states, engines, buffers), (made, handed, dropped, tasks, ending)) = record {
  current = e;
  states = states;
  engines = engines;
  buffers = buffers;
  made = made;
  handed = handed;
  dropped = dropped;
  tasks = tasks;
  ending = ending;
}

pub recount : (c : Client) (m n : ℕ) → m ≡ n → Counts c m → Counts c n
recount c m n e k = subst (Counts c) e k

pub frees-IsSingle :
    (o : Object) (w : World)
    → IsWhole o
    → ids_of (w.handed ++ w.tasks) ≡ ids w.client.g_state
    → KeptBeside w
    → IsSingle (frees o w)
frees-IsSingle o w h e (counts, whole) =
    single (frees o w) e (free_state-Counts o w.client (allotted w) h counts, whole)

pub looks-IsSingle :
    (o : Object) (w : World)
    → IsWhole o
    → ids_of (w.handed ++ w.tasks) ≡ ids w.client.g_state
    → KeptBeside w
    → IsSingle (looks o w)
unfolding looks
looks-IsSingle o w h e (counts, (made, handed, dropped, tasks, ending)) =
    elim (take_g_state_cases o w.client) [
      | inl (free, ours) ↦
          let c : Client = record w.client { g_state = some o } in
          let w' : World = record w { client = c; handed = o ∷ w.handed } in
          subst IsSingle (sym (the_step ours)) (
            single w' (ap (λ l. o.id ∷ l) (e ∙ ap ids free)) (
              recount c (suc (allotted w)) (allotted w') (omega arith) counts,
              (made, (h, handed), dropped, tasks, ending),
            ))
      | inr lost ↦
          let w' : World = record w { dropped = o ∷ w.dropped } in
          subst IsSingle (sym (the_step lost)) (
            single w' e (
              recount w.client (suc (allotted w)) (allotted w') (omega arith) counts,
              (made, handed, (h, dropped), tasks, ending),
            ))
    ]
  where
    the_step :
        {r : Bool × Client}
        → take_g_state o w.client ≡ r
        → looks o w ≡ (
            if r.0
            then record w { client = r.1; handed = o ∷ w.handed }
            else record w { client = r.1; dropped = o ∷ w.dropped })
    the_step q =
        ap
          (λ (r : Bool × Client).
            if r.0
            then record w { client = r.1; handed = o ∷ w.handed }
            else record w { client = r.1; dropped = o ∷ w.dropped })
          q

pub creates-IsSingle :
    (task : Bool) (o : Object) (w : World)
    → IsWhole o
    → (w.handed ≡ []) × (w.tasks ≡ [])
    → (s : Object) × (w.client.g_state ≡ some s) × (s.id ≡ o.id)
    → KeptBeside w
    → IsSingle (creates task o w)
unfolding creates
creates-IsSingle true o w h (no_start, no_task) (s, at, same)
      (counts, (made, handed, dropped, tasks, ending)) =
    let w' : World = record w { tasks = o ∷ w.tasks } in
    single w'
      (ap (λ l. ids_of (l ++ o ∷ w.tasks)) no_start
        ∙ ap (λ l. o.id ∷ ids_of l) no_task
        ∙ sym (ap ids at ∙ ap (λ i. i ∷ []) same))
      (
        recount w.client (suc (allotted w)) (allotted w') (omega arith) counts,
        (made, handed, dropped, (h, tasks), ending),
      )
creates-IsSingle false o w h (no_start, no_task) (s, at, same)
      (counts, (made, handed, dropped, tasks, ending)) =
    let w' : World = record w { client = clear_g_state o w.client; dropped = o ∷ w.dropped } in
    single w'
      (ap (λ l. ids_of (l ++ w.tasks)) no_start
        ∙ ap ids_of no_task
        ∙ sym (ap ids (g_state-clear_g_state o s w.client at same)))
      (
        recount (clear_g_state o w.client) (suc (allotted w)) (allotted w') (omega arith)
            (clear_g_state-Counts o w.client (suc (allotted w)) counts),
        (made, handed, (h, dropped), tasks, ending),
      )

pub exits-IsSingle :
    (o : Object) (w : World)
    → IsWhole o
    → (w.handed ≡ []) × (w.tasks ≡ [])
    → (s : Object) × (w.client.g_state ≡ some s) × (s.id ≡ o.id)
    → KeptBeside w
    → IsSingle (exits o w)
unfolding exits
exits-IsSingle o w h (no_start, no_task) (s, at, same)
      (counts, (made, handed, dropped, tasks, ending)) =
    let w' : World = record w { client = clear_g_state o w.client; ending = o ∷ w.ending } in
    single w'
      (ap (λ l. ids_of (l ++ w.tasks)) no_start
        ∙ ap ids_of no_task
        ∙ sym (ap ids (g_state-clear_g_state o s w.client at same)))
      (
        recount (clear_g_state o w.client) (suc (allotted w)) (allotted w') (omega arith)
            (clear_g_state-Counts o w.client (suc (allotted w)) counts),
        (made, handed, dropped, tasks, (h, ending)),
      )
