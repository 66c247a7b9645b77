-- ===== src/Stream/Stats/Percentiles.antt =====
-- The percentiles that main/jlp/net/stream_client.cpp reports.
use mathlib.Core.List.{Mem, Perm, mem-cons_self, mem-cons_of_mem}
use mathlib.Core.List.Perm
use espos_p4_cockpit.Prelude.{
  ℕ, zero, suc, ◌-◌, ◌*◌, ◌/◌, ◌≤◌, ◌<◌, ◌≡◌, refl, ap, false, Bool-cases, inl, inr, List, [], ◌∷◌,
  All, leb, leb→le, ◌==◌, length, arith,
}
use espos_p4_cockpit.Stream.Stats.{StreamStats, insert_sorted, sort_ring, at, percentiles}

abbrev pub IsSorted : List ℕ → Type 0
IsSorted [] = Unit
IsSorted (x ∷ xs) = All (λ y. x ≤ y) xs × IsSorted xs

All-weaken : (x y : ℕ) (xs : List ℕ) → x ≤ y → All (λ k. y ≤ k) xs → All (λ k. x ≤ k) xs
All-weaken x y [] h a = _
All-weaken x y (z ∷ zs) h (a, as') = (omega arith, All-weaken x y zs h as')

All-insert_sorted :
    (z x : ℕ) (xs : List ℕ) → z ≤ x → All (λ k. z ≤ k) xs → All (λ k. z ≤ k) (insert_sorted x xs)
unfolding insert_sorted
All-insert_sorted z x [] h a = (h, _)
All-insert_sorted z x (y ∷ ys) h (a, rest) = elim (Bool-cases (leb x y)) [
  | inl le ↦ rw le (h, (a, rest))
  | inr gt ↦ rw gt (a, All-insert_sorted z x ys h rest)
]

insert_sorted-IsSorted : (x : ℕ) (xs : List ℕ) → IsSorted xs → IsSorted (insert_sorted x xs)
unfolding insert_sorted
insert_sorted-IsSorted x [] s = (_, _)
insert_sorted-IsSorted x (y ∷ ys) (a, s) = elim (Bool-cases (leb x y)) [
  | inl le ↦ rw le ((leb→le x y le, All-weaken x y ys (leb→le x y le) a), (a, s))
  | inr gt ↦ rw gt (All-insert_sorted y x ys (ground arith) a, insert_sorted-IsSorted x ys s)
]

insert_sorted-perm : (x : ℕ) (xs : List ℕ) → Perm (insert_sorted x xs) (x ∷ xs)
unfolding insert_sorted
insert_sorted-perm x [] = Perm.rfl
insert_sorted-perm x (y ∷ ys) = elim (Bool-cases (leb x y)) [
  | inl le ↦ rw le Perm.rfl
  | inr gt ↦ rw gt (Perm.trans (Perm.cons y (insert_sorted-perm x ys)) (Perm.swap x y ys))
]

length-insert_sorted : (x : ℕ) (xs : List ℕ) → length (insert_sorted x xs) ≡ suc (length xs)
unfolding insert_sorted
length-insert_sorted x [] = refl
length-insert_sorted x (y ∷ ys) = elim (Bool-cases (leb x y)) [
  | inl le ↦ rw le refl
  | inr gt ↦ rw gt (ap suc (length-insert_sorted x ys))
]

pub sort_ring-IsSorted : (xs : List ℕ) → IsSorted (sort_ring xs)
unfolding sort_ring
sort_ring-IsSorted [] = _
sort_ring-IsSorted (x ∷ xs) = insert_sorted-IsSorted x (sort_ring xs) (sort_ring-IsSorted xs)

pub sort_ring-perm : (xs : List ℕ) → Perm (sort_ring xs) xs
unfolding sort_ring
sort_ring-perm [] = Perm.nil
sort_ring-perm (x ∷ xs) =
    Perm.trans (insert_sorted-perm x (sort_ring xs)) (Perm.cons x (sort_ring-perm xs))

length-sort_ring : (xs : List ℕ) → length (sort_ring xs) ≡ length xs
unfolding sort_ring
length-sort_ring [] = refl
length-sort_ring (x ∷ xs) = rw length-insert_sorted (ap suc (length-sort_ring xs))

All-at : (z : ℕ) (xs : List ℕ) (i : ℕ) → i < length xs → All (λ k. z ≤ k) xs → z ≤ at xs i
All-at z [] i h a = absurd (ground arith)
All-at z (x ∷ xs) zero h (a, _) = a
All-at z (x ∷ xs) (suc i) h (_, a) = All-at z xs i (omega arith) a

-- Of a sorted list, a later value is no smaller.
at_mono : (xs : List ℕ) (i j : ℕ) → IsSorted xs → i ≤ j → j < length xs → at xs i ≤ at xs j
at_mono [] i j s h k = absurd (ground arith)
at_mono (x ∷ xs) zero zero s h k = omega arith
at_mono (x ∷ xs) zero (suc j) (a, s) h k = All-at x xs j (omega arith) a
at_mono (x ∷ xs) (suc i) zero s h k = absurd (ground arith)
at_mono (x ∷ xs) (suc i) (suc j) (a, s) h k = at_mono xs i j s (omega arith) (omega arith)

at-Mem : (xs : List ℕ) (i : ℕ) → i < length xs → Mem (at xs i) xs
at-Mem [] i h = absurd (ground arith)
at-Mem (x ∷ xs) zero h = mem-cons_self
at-Mem (x ∷ xs) (suc i) h = mem-cons_of_mem x (at-Mem xs i (omega arith))

All-of_at : (m : ℕ) (xs : List ℕ) → ((i : ℕ) → i < length xs → at xs i ≤ m) → All (λ k. k ≤ m) xs
All-of_at m [] h = _
All-of_at m (x ∷ xs) h = (h 0 (omega arith), All-of_at m xs (λ i k. h (suc i) (omega arith)))

All-of_insert_sorted :
    (m x : ℕ) (xs : List ℕ) → All (λ k. k ≤ m) (insert_sorted x xs) → (x ≤ m) × All (λ k. k ≤ m) xs
unfolding insert_sorted
All-of_insert_sorted m x [] (h, _) = (h, _)
All-of_insert_sorted m x (y ∷ ys) h = elim (Bool-cases (leb x y)) [
  | inl le ↦ rw le at h
  | inr gt ↦
      let (low, rest) : (y ≤ m) × All (λ k. k ≤ m) (insert_sorted x ys) = rw gt at h in
      let (here, others) = All-of_insert_sorted m x ys rest in (here, (low, others))
]

All-of_sort_ring : (m : ℕ) (xs : List ℕ) → All (λ k. k ≤ m) (sort_ring xs) → All (λ k. k ≤ m) xs
unfolding sort_ring
All-of_sort_ring m [] h = _
All-of_sort_ring m (x ∷ xs) h =
    let (low, rest) = All-of_insert_sorted m x (sort_ring xs) h in (low, All-of_sort_ring m xs rest)

-- For a ring of one interval or more, of as many as are counted, each of the three values reported is
-- one of the intervals, the median is no larger than the 99th percentile nor that than the
-- maximum, and no interval is larger than the maximum.
percentiles_lem :
    (ring : List ℕ) (out : StreamStats)
    → 0 < length ring
    → let s = percentiles (length ring) ring out in
      (s.interval_p50_ms ≤ s.interval_p99_ms)
      × (s.interval_p99_ms ≤ s.interval_max_ms)
      × Mem s.interval_p50_ms ring
      × Mem s.interval_p99_ms ring
      × Mem s.interval_max_ms ring
      × All (λ x. x ≤ s.interval_max_ms) ring
unfolding percentiles
percentiles_lem ring out h =
    let n = length ring in
    let sorted = sort_ring ring in
    let some_of : (n == 0) ≡ false = ground arith in
    let size = length-sort_ring ring in
    let ordered = sort_ring-IsSorted ring in
    let member : (i : ℕ) → i < n → Mem (at sorted i) ring =
      λ i k. (Perm.mem_iff (sort_ring-perm ring)).0 (at-Mem sorted i (omega (arith, size, k))) in
    rw some_of (
      at_mono sorted (n / 2) (n * 99 / 100) ordered (omega arith) (omega (arith, size)),
      at_mono sorted (n * 99 / 100) (n - 1) ordered (omega arith) (omega (arith, size)),
      member (n / 2) (omega arith),
      member (n * 99 / 100) (omega arith),
      member (n - 1) (omega arith),
      All-of_sort_ring (at sorted (n - 1)) ring (
          All-of_at (at sorted (n - 1)) sorted (λ i k.
            at_mono sorted i (n - 1) ordered (omega (arith, size, k)) (omega (arith, size)))),
    )
