-- ===== src/Notifications/Severity.antt =====
-- What most_severe() and snapshot() of main/jlp/notifications_registry.cpp select.
use espos_p4_cockpit.Prelude.{
  ℕ, ◌≤◌, ◌≡◌, refl, ◌⊎◌, inl, inr, String, Bool, true, false, not, ◌&&◌, ◌||◌, List, [], ◌∷◌,
  Option, none, some, arith, ltb, if◌then◌else◌, Bool-cases, All,
}
use mathlib.Core.List.{Perm}
use mathlib.Core.List.Perm
use espos_p4_cockpit.Prelude.Dict.{Dict, has}
use espos_p4_cockpit.Notifications.{
  NotState, rank, Notification, Registry, is_cleared, is_above, scan, most_severe, collect, place,
  sort, snapshot,
}

-- A notification that the alert overlay may show.
abbrev pub is_pending : Dict NotState → String → Notification → Bool
is_pending acked path n = not (has path acked) && not (is_cleared n.state)

-- `b` is stored, alerting and not acknowledged.
abbrev pub HasPending : Dict NotState → Notification → Dict Notification → Type 0
HasPending acked b [] = ⊥
HasPending acked b ((path, n) ∷ rest) =
    ((n ≡ b) × (is_pending acked path n ≡ true)) ⊎ HasPending acked b rest

-- Every pending entry is at most as severe as `top`.
abbrev pub AtMost : Dict NotState → ℕ → Dict Notification → Type 0
AtMost acked top [] = Unit
AtMost acked top ((path, n) ∷ rest) =
    (is_pending acked path n ≡ true → rank n.state ≤ top) × AtMost acked top rest

abbrev pub NonePending : Dict NotState → Dict Notification → Type 0
NonePending acked [] = Unit
NonePending acked ((path, n) ∷ rest) = (is_pending acked path n ≡ false) × NonePending acked rest

-- What a search that starts from `best` may answer.
abbrev Picks :
    Dict NotState → Option Notification → Dict Notification → Option Notification → Type 0
Picks acked best m none = (best ≡ none) × NonePending acked m
Picks acked best m (some b) =
    ((best ≡ some b) ⊎ HasPending acked b m)
    × ((a : Notification) → best ≡ some a → rank a.state ≤ rank b.state)
    × AtMost acked (rank b.state) m

Picks-skip :
    (acked : Dict NotState) (best : Option Notification) (path : String) (n : Notification)
    (rest : Dict Notification) (res : Option Notification)
    → is_pending acked path n ≡ false
    → Picks acked best rest res
    → Picks acked best ((path, n) ∷ rest) res
Picks-skip acked best path n rest none h (e, np) = (e, (h, np))
Picks-skip acked best path n rest (some b) h (inl e, top, most) = (inl e, top, ((λ q. cc), most))
Picks-skip acked best path n rest (some b) h (inr e, top, most) =
    (inr (inr e), top, ((λ q. cc), most))

Picks-take :
    (acked : Dict NotState) (best : Option Notification) (path : String) (n : Notification)
    (rest : Dict Notification) (res : Option Notification)
    → is_pending acked path n ≡ true
    → is_above n best ≡ true
    → Picks acked (some n) rest res
    → Picks acked best ((path, n) ∷ rest) res
Picks-take acked best path n rest none h above (e, np) = absurd (cc)
Picks-take acked best path n rest (some b) h above (found, top, most) = (
  elim found [ inl e ↦ inr (inl (ground arith, h)) | inr e ↦ inr (inr e) ],
  (λ a e. ground (arith, top n refl)),
  ((λ q. top n refl), most),
)

Picks-keep :
    (acked : Dict NotState) (a : Notification) (path : String) (n : Notification)
    (rest : Dict Notification) (res : Option Notification)
    → is_above n (some a) ≡ false
    → Picks acked (some a) rest res
    → Picks acked (some a) ((path, n) ∷ rest) res
Picks-keep acked a path n rest none below (e, np) = absurd (cc)
Picks-keep acked a path n rest (some b) below (found, top, most) = (
  elim found [ inl e ↦ inl e | inr e ↦ inr (inr e) ],
  top,
  ((λ q. ground (arith, top a refl)), most),
)

scan-Picks :
    (acked : Dict NotState) (best : Option Notification) (m : Dict Notification)
    → Picks acked best m (scan acked best m)
unfolding scan
scan-Picks acked none [] = (refl, tt)
scan-Picks acked (some b) [] = (inl refl, (λ a e. ground arith), tt)
scan-Picks acked none ((path, n) ∷ rest) =
    elim (Bool-cases (has path acked || is_cleared n.state)) [
      | inl skip ↦
          rw skip (Picks-skip acked none path n rest _ (ground arith) (scan-Picks acked none rest))
      | inr pending ↦
          rw pending (
            Picks-take acked none path n rest _ (ground arith) refl
              (scan-Picks acked (some n) rest))
    ]
scan-Picks acked (some a) ((path, n) ∷ rest) =
    elim (Bool-cases (has path acked || is_cleared n.state)) [
      | inl skip ↦
          rw skip (
            Picks-skip acked (some a) path n rest _ (ground arith) (scan-Picks acked (some a) rest))
      | inr pending ↦ elim (Bool-cases (is_above n (some a))) [
        | inl above ↦
            rw (pending, above)
              (Picks-take acked (some a) path n rest _ (ground arith) above
                (scan-Picks acked (some n) rest))
        | inr below ↦
            rw (pending, below)
              (Picks-keep acked a path n rest _ below (scan-Picks acked (some a) rest))
      ]
    ]

-- The answer of most_severe().
abbrev pub IsMostSevere : Registry → Option Notification → Type 0
IsMostSevere r none = NonePending r.acked r.map
IsMostSevere r (some b) = HasPending r.acked b r.map × AtMost r.acked (rank b.state) r.map

Picks-IsMostSevere :
    (r : Registry) (res : Option Notification) → Picks r.acked none r.map res → IsMostSevere r res
Picks-IsMostSevere r none (e, np) = np
Picks-IsMostSevere r (some b) (inl e, top, most) = absurd (cc)
Picks-IsMostSevere r (some b) (inr e, top, most) = (e, most)

-- most_severe() answers a stored notification that is alerting and not acknowledged and that no
-- other such notification exceeds in severity, and nothing only where there is no such notification.
pub most_severe-IsMostSevere : (r : Registry) → IsMostSevere r (most_severe r)
unfolding most_severe
most_severe-IsMostSevere r = Picks-IsMostSevere r (most_severe r) (scan-Picks r.acked none r.map)

-- What decides whether an entry has a row.
abbrev pub is_listed : Bool → Notification → Bool
is_listed include_cleared n = not (not include_cleared && is_cleared n.state)

abbrev pub IsDescending : List Notification → Type 0
IsDescending [] = Unit
IsDescending (n ∷ ns) = All (λ m. rank m.state ≤ rank n.state) ns × IsDescending ns

All-place :
    (P : Notification → Type 0) (n : Notification) (ns : List Notification)
    → P n
    → All P ns
    → All P (place n ns)
unfolding place
All-place P n [] h hs = (h, tt)
All-place P n (m ∷ ms) h hs = elim (Bool-cases (ltb (rank n.state) (rank m.state))) [
  | inl e ↦ rw e (hs.0, All-place P n ms h hs.1)
  | inr e ↦ rw e (h, hs)
]

All-below :
    (a b : ℕ) (ns : List Notification)
    → a ≤ b
    → All (λ m. rank m.state ≤ a) ns
    → All (λ m. rank m.state ≤ b) ns
All-below a b [] h hs = tt
All-below a b (n ∷ ns) h hs = (omega arith, All-below a b ns h hs.1)

place-IsDescending :
    (n : Notification) (ns : List Notification) → IsDescending ns → IsDescending (place n ns)
unfolding place
place-IsDescending n [] h = (tt, tt)
place-IsDescending n (m ∷ ms) h = elim (Bool-cases (ltb (rank n.state) (rank m.state))) [
  | inl e ↦ rw e (
    All-place (λ k. rank k.state ≤ rank m.state) n ms (ground arith) h.0,
    place-IsDescending n ms h.1,
  )
  | inr e ↦ rw e ((ground arith, All-below (rank m.state) (rank n.state) ms (ground arith) h.0), h)
]

sort-IsDescending : (ns : List Notification) → IsDescending (sort ns)
unfolding sort
sort-IsDescending [] = tt
sort-IsDescending (n ∷ ns) = place-IsDescending n (sort ns) (sort-IsDescending ns)

place-perm : (n : Notification) (ns : List Notification) → Perm (n ∷ ns) (place n ns)
unfolding place
place-perm n [] = Perm.refl (n ∷ [])
place-perm n (m ∷ ms) = elim (Bool-cases (ltb (rank n.state) (rank m.state))) [
  | inl e ↦ rw e (Perm.trans (Perm.swap m n ms) (Perm.cons m (place-perm n ms)))
  | inr e ↦ rw e (Perm.refl (n ∷ m ∷ ms))
]

sort-perm : (ns : List Notification) → Perm ns (sort ns)
unfolding sort
sort-perm [] = Perm.refl []
sort-perm (n ∷ ns) = Perm.trans (Perm.cons n (sort-perm ns)) (place-perm n (sort ns))

-- The stored notifications that pass the filter, in the map's order.
abbrev pub listed : Bool → Dict Notification → List Notification
listed include_cleared [] = []
listed include_cleared ((path, n) ∷ rest) =
    let others = listed include_cleared rest in
    if is_listed include_cleared n then n ∷ others else others

collect-listed : (c : Bool) (m : Dict Notification) → collect c m ≡ listed c m
unfolding collect
collect-listed c [] = refl
collect-listed c ((path, n) ∷ rest) = ground (arith, collect-listed c rest)

-- snapshot() is in descending order of severity, and holds exactly the stored notifications that
-- are alerting (all of them with include_cleared), as often as they are stored: acknowledged rows stay.
pub snapshot_lem :
    (c : Bool) (r : Registry) → IsDescending (snapshot c r) × Perm (listed c r.map) (snapshot c r)
unfolding snapshot
snapshot_lem c r = (
  sort-IsDescending (collect c r.map),
  rw (← collect-listed c r.map) (sort-perm (collect c r.map)),
)
