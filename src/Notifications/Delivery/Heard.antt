-- ===== src/Notifications/Delivery/Heard.antt =====
-- What of the updates that the stream hands to on_notification() of main/jlp/notifications_registry.cpp
-- reaches the registry.
use espos_p4_cockpit.Prelude.{
  ℕ, suc, ◌≤◌, ◌≡◌, refl, sym, ap, subst, ◌∙◌, ◌⊎◌, String, true, false, Option, none, some, List,
  [], ◌∷◌, ◌++◌, map, length, take, drop, take-append-drop, Bytes, codes, same_bytes, Bool-cases,
  Option-cases, inl, inr, arith,
}
use mathlib.Core.List.{map-append}
use espos_p4_cockpit.Json.{JsonLib}
use espos_p4_cockpit.Notifications.{Registry}
use espos_p4_cockpit.Notifications.History
use espos_p4_cockpit.Notifications.History.{Call, receives}
use espos_p4_cockpit.Notifications.Delivery
use espos_p4_cockpit.Notifications.Delivery.{
  Update, Delta, prefix, on_notification, handle_delta, Event, arrives, drains, does, run, Entry,
  delivered, called, enact, enact_all, deltas_of, calls_of, listed, arrivals, made, Logs, run-Logs,
}
use espos_p4_cockpit.Ui.Queue.{Queue}

same_bytes_sound : (xs ys : Bytes) → same_bytes xs ys ≡ true → xs ≡ ys
same_bytes_sound [] [] e = refl
same_bytes_sound [] (y ∷ ys) e = absurd (cc)
same_bytes_sound (x ∷ xs) [] e = absurd (cc)
same_bytes_sound (x ∷ xs) (y ∷ ys) e = ground (arith, same_bytes_sound xs ys)

-- A notification: the name of its path, and the text of its value.
abbrev pub Note : Type 0
Note = String × String

module _ (J : JsonLib) (utf8 : String → Bytes) (of_utf8 : Bytes → String) where
  -- The path is "notifications." and then the name.
  abbrev pub IsNamed : String → String → Type 0
  IsNamed path name =
      (rest : Bytes) × (utf8 path ≡ codes "notifications." ++ rest) × (name ≡ of_utf8 rest)

  -- The notifications among what befalls the two tasks, in the order of their arrival: the updates that
  -- have a value and a path in the family.
  pub data Arrived : List (Event J utf8 of_utf8) → List Note → Type 0 where
    over : Arrived [] []
    notified :
        {u : Update} {es : List (Event J utf8 of_utf8)} {ns : List Note} (name text : String)
        → u.value_json ≡ some text
        → IsNamed u.path name
        → Arrived es ns
        → Arrived (arrives u ∷ es) ((name, text) ∷ ns)
    without_value :
        {u : Update} {es : List (Event J utf8 of_utf8)} {ns : List Note}
        → u.value_json ≡ none
        → Arrived es ns
        → Arrived (arrives u ∷ es) ns
    elsewhere :
        {u : Update} {es : List (Event J utf8 of_utf8)} {ns : List Note}
        → ((name : String) → ¬ IsNamed u.path name)
        → Arrived es ns
        → Arrived (arrives u ∷ es) ns
    ui_round :
        {now : ℕ} {es : List (Event J utf8 of_utf8)} {ns : List Note}
        → Arrived es ns
        → Arrived (drains now ∷ es) ns
    other_call :
        {c : Call J} {es : List (Event J utf8 of_utf8)} {ns : List Note}
        → Arrived es ns
        → Arrived (does c ∷ es) ns

  -- What the registry is told: the notifications, each at the clock of a round, among the other calls.
  pub data Told : Type 0 where
    hears : ℕ → Note → Told
    makes : Call J → Told

  -- A notification is a call of apply() with its document; a text that is none is passed over.
  pub told_calls : List Told → List (Call J)
  told_calls [] = []
  told_calls (makes c ∷ ts) = c ∷ told_calls ts
  told_calls (hears now (name, text) ∷ ts) = elim (J.deserialize text) [
    | none ↦ told_calls ts
    | some doc ↦ receives now name doc ∷ told_calls ts
  ]

  abbrev pub notes : List Told → List Note
  notes [] = []
  notes (hears now n ∷ ts) = n ∷ notes ts
  notes (makes c ∷ ts) = notes ts

  abbrev pub others : List Told → List (Call J)
  others [] = []
  others (hears now n ∷ ts) = others ts
  others (makes c ∷ ts) = c ∷ others ts

  -- After these events the registry is what it was told made of it: all notifications that have arrived,
  -- in their order, but for the last ones, as many as the queue holds; and all the other calls.
  abbrev pub Delivers : List (Event J utf8 of_utf8) → Registry → Type 0
  Delivers es r =
      let q = run J utf8 of_utf8 es (record { s_queue = []; state = r }) in
      (told : List Told) × (all : List Note) × (waiting : List Note) × Arrived es all
      × (q.state ≡ History.run J (told_calls told) r)
      × (notes told ++ waiting ≡ all)
      × (length waiting ≡ length q.s_queue)
      × (others told ≡ made J utf8 of_utf8 es)

  note_of : Delta → Note
  note_of d = (of_utf8 (drop 14 (utf8 d.path)), d.value)

  prefix-IsNamed :
      (path : String)
      → same_bytes (take 14 (utf8 path)) prefix ≡ true
      → IsNamed path (of_utf8 (drop 14 (utf8 path)))
  prefix-IsNamed path e = (
    drop 14 (utf8 path),
    sym (take-append-drop 14 (utf8 path))
        ∙ ap (λ b. b ++ drop 14 (utf8 path)) (same_bytes_sound (take 14 (utf8 path)) prefix e),
    refl,
  )

  not_named :
      (path name : String) → same_bytes (take 14 (utf8 path)) prefix ≡ false → ¬ IsNamed path name
  not_named path name e (rest, split, called_so) =
      let agrees : same_bytes (take 14 (utf8 path)) prefix ≡ true =
        ap (λ b. same_bytes (take 14 b) prefix) split in
      absurd (cc)

  on_notification_dropped :
      (u : Update)
      → (u.value_json ≡ none) ⊎ (same_bytes (take 14 (utf8 u.path)) prefix ≡ false)
      → on_notification J utf8 of_utf8 u ≡ none
  unfolding on_notification
  on_notification_dropped u why = ground arith

  on_notification_posts :
      (u : Update) (value : String)
      → u.value_json ≡ some value
      → same_bytes (take 14 (utf8 u.path)) prefix ≡ true
      → on_notification J utf8 of_utf8 u ≡ some (record { path = u.path; value = value })
  unfolding on_notification
  on_notification_posts u value e p = ground arith

  -- What the queue and the arrivals get from an update.
  abbrev adds : List Delta → Option Delta → List Note
  adds ds o = map note_of (listed J utf8 of_utf8 o ++ ds)

  arrives-Arrived :
      (u : Update) (es : List (Event J utf8 of_utf8)) (ds : List Delta)
      → Arrived es (map note_of ds)
      → Arrived (arrives u ∷ es) (adds ds (on_notification J utf8 of_utf8 u))
  unfolding note_of
  arrives-Arrived u es ds h =
      let goal = λ (o : Option Delta). Arrived (arrives u ∷ es) (adds ds o) in
      elim (Option-cases u.value_json) [
        | inl e ↦ subst goal (sym (on_notification_dropped u (inl e))) (without_value e h)
        | inr (value, e) ↦ elim (Bool-cases (same_bytes (take 14 (utf8 u.path)) prefix)) [
          | inl p ↦
              subst goal (sym (on_notification_posts u value e p))
                (notified (of_utf8 (drop 14 (utf8 u.path))) value e (prefix-IsNamed u.path p) h)
          | inr p ↦
              subst goal (sym (on_notification_dropped u (inr p)))
                (elsewhere (λ name. not_named u.path name p) h)
        ]
      ]

  arrivals-Arrived :
      (es : List (Event J utf8 of_utf8)) → Arrived es (map note_of (arrivals J utf8 of_utf8 es))
  arrivals-Arrived [] = over
  arrivals-Arrived (arrives u ∷ es) =
      arrives-Arrived u es (arrivals J utf8 of_utf8 es) (arrivals-Arrived es)
  arrivals-Arrived (drains now ∷ es) = ui_round (arrivals-Arrived es)
  arrivals-Arrived (does c ∷ es) = other_call (arrivals-Arrived es)

  abbrev told_of : List (Entry J utf8 of_utf8) → List Told
  told_of [] = []
  told_of (delivered now d ∷ log) = hears now (note_of d) ∷ told_of log
  told_of (called c ∷ log) = makes c ∷ told_of log

  notes-told_of :
      (log : List (Entry J utf8 of_utf8))
      → notes (told_of log) ≡ map note_of (deltas_of J utf8 of_utf8 log)
  notes-told_of [] = refl
  notes-told_of (delivered now d ∷ log) = ap (λ l. note_of d ∷ l) (notes-told_of log)
  notes-told_of (called c ∷ log) = notes-told_of log

  others-told_of :
      (log : List (Entry J utf8 of_utf8)) → others (told_of log) ≡ calls_of J utf8 of_utf8 log
  others-told_of [] = refl
  others-told_of (delivered now d ∷ log) = others-told_of log
  others-told_of (called c ∷ log) = ap (λ l. c ∷ l) (others-told_of log)

  handle_delta_garbled :
      (now : ℕ) (d : Delta) (r : Registry)
      → J.deserialize d.value ≡ none
      → handle_delta J utf8 of_utf8 now d r ≡ r
  unfolding handle_delta
  handle_delta_garbled now d r e = rw (handle_delta, e) refl

  handle_delta_applies :
      (now : ℕ) (d : Delta) (doc : J.Json) (r : Registry)
      → J.deserialize d.value ≡ some doc
      → handle_delta J utf8 of_utf8 now d r
        ≡ History.step J (receives now (of_utf8 (drop 14 (utf8 d.path))) doc) r
  unfolding handle_delta History.step
  handle_delta_applies now d doc r e = rw (handle_delta, e) refl

  told_calls_garbled :
      (now : ℕ) (n : Note) (ts : List Told)
      → J.deserialize n.1 ≡ none
      → told_calls (hears now n ∷ ts) ≡ told_calls ts
  unfolding told_calls
  told_calls_garbled now n ts e = rw (told_calls, e) refl

  told_calls_hears :
      (now : ℕ) (n : Note) (doc : J.Json) (ts : List Told)
      → J.deserialize n.1 ≡ some doc
      → told_calls (hears now n ∷ ts) ≡ receives now n.0 doc ∷ told_calls ts
  unfolding told_calls
  told_calls_hears now n doc ts e = rw (told_calls, e) refl

  enact_all-told_calls :
      (log : List (Entry J utf8 of_utf8)) (r : Registry)
      → enact_all J utf8 of_utf8 log r ≡ History.run J (told_calls (told_of log)) r
  unfolding History.run enact_all told_calls note_of
  enact_all-told_calls [] r = refl
  enact_all-told_calls (called c ∷ log) r = enact_all-told_calls log (History.step J c r)
  enact_all-told_calls (delivered now d ∷ log) r = elim (Option-cases (J.deserialize d.value)) [
    | inl e ↦
        ap (enact_all J utf8 of_utf8 log) (handle_delta_garbled now d r e)
        ∙ enact_all-told_calls log r
        ∙ ap (λ cs. History.run J cs r) (sym (told_calls_garbled now (note_of d) (told_of log) e))
    | inr (doc, e) ↦
        ap (enact_all J utf8 of_utf8 log) (handle_delta_applies now d doc r e)
        ∙ enact_all-told_calls log
            (History.step J (receives now (of_utf8 (drop 14 (utf8 d.path))) doc) r)
        ∙ ap (λ cs. History.run J cs r) (sym (told_calls_hears now (note_of d) doc (told_of log) e))
  ]

  length-map : (ds : List Delta) → length (map note_of ds) ≡ length ds
  length-map [] = refl
  length-map (d ∷ ds) = ap suc (length-map ds)

  run-Delivers : (es : List (Event J utf8 of_utf8)) (r : Registry) → Delivers es r
  run-Delivers es r =
      let start : Queue Delta Registry = record { s_queue = []; state = r } in
      let (log, reached, kept, own) = run-Logs J utf8 of_utf8 es start in
      let q = run J utf8 of_utf8 es start in
      (
        told_of log,
        map note_of (arrivals J utf8 of_utf8 es),
        map note_of q.s_queue,
        arrivals-Arrived es,
        reached ∙ enact_all-told_calls log r,
        ap (λ ns. ns ++ map note_of q.s_queue) (notes-told_of log)
            ∙ sym (map-append note_of (deltas_of J utf8 of_utf8 log) q.s_queue)
            ∙ ap (map note_of) kept,
        length-map q.s_queue,
        others-told_of log ∙ own,
      )

  run-append :
      (xs ys : List (Event J utf8 of_utf8)) (q : Queue Delta Registry)
      → run J utf8 of_utf8 (xs ++ ys) q ≡ run J utf8 of_utf8 ys (run J utf8 of_utf8 xs q)
  unfolding run
  run-append [] ys q = refl
  run-append (x ∷ xs) ys q = run-append xs ys (Delivery.step J utf8 of_utf8 x q)

  run_drains :
      (nows : List ℕ) (ds : List Delta) (r : Registry)
      → length ds ≤ length nows
      → (run J utf8 of_utf8 (map drains nows) (record { s_queue = ds; state = r })).s_queue ≡ []
  unfolding run Delivery.step
  run_drains [] [] r h = refl
  run_drains [] (d ∷ ds) r h = absurd (omega (arith, h))
  run_drains (now ∷ nows) [] r h = run_drains nows [] r (omega arith)
  run_drains (now ∷ nows) (d ∷ ds) r h =
      run_drains nows ds (handle_delta J utf8 of_utf8 now d r) (omega (arith, h))

  -- Under every interleaving of the stream's task and the UI task the notifications that arrive, the
  -- updates with a value whose path is "notifications." and a name, are applied under that name with the
  -- document of the value, each once and in the order of their arrival, among the other calls of the UI
  -- task; those not yet applied are as many as the queue holds. As many further rounds of the UI task
  -- apply them all.
  pub run-delivered :
      (es : List (Event J utf8 of_utf8)) (nows : List ℕ) (r : Registry)
      → length (run J utf8 of_utf8 es (record { s_queue = []; state = r })).s_queue ≤ length nows
      → Delivers es r
        × Delivers (es ++ map drains nows) r
        × ((run J utf8 of_utf8 (es ++ map drains nows) (record { s_queue = []; state = r })).s_queue
            ≡ [])
  run-delivered es nows r h =
      let q = run J utf8 of_utf8 es (record { s_queue = []; state = r }) in
      (
        run-Delivers es r,
        run-Delivers (es ++ map drains nows) r,
        ap (λ (p : Queue Delta Registry). p.s_queue)
              (run-append es (map drains nows) (record { s_queue = []; state = r }))
            ∙ run_drains nows q.s_queue q.state h,
      )
