-- ===== src/Stream/Framing.antt =====
-- What the stream task of main/jlp/net/stream_client.cpp reads, however the network cuts the bytes.
use espos_p4_cockpit.Prelude.{
  ℕ, zero, suc, ◌+◌, ◌-◌, ◌≤◌, ◌<◌, ◌≡◌, refl, sym, ap, ◌∙◌, Bool, true, false, List, [], ◌∷◌, ◌++◌,
  Option, some, Bool-cases, inl, inr, length, length-append, take, drop, length-take, length-drop,
  take-append, take-append_past, drop-append_past, take-append-drop, take_all, ltb, ltb→lt, lt→ltb,
  ◌==◌, Bytes, arith,
}
use espos_p4_cockpit.Stream.{
  State, Arrival, segment, failure, Effect, Link, recv, read_loop, read_exact, poll_state, polled,
}
use mathlib.Core.List.{append_assoc, append-nil}

-- The bytes that arrive, in order, whatever the segments.
abbrev pub content : List Arrival → Bytes
content [] = []
content (failure ∷ rest) = []
content (segment bs ∷ rest) = bs ++ content rest

-- A connection on which only bytes arrive.
abbrev pub IsIntact : List Arrival → Type 0
IsIntact [] = Unit
IsIntact (failure ∷ rest) = ⊥
IsIntact (segment bs ∷ rest) = (0 < length bs) × IsIntact rest

recv-content :
    (want : ℕ) (arrivals : List Arrival)
    → 0 < want
    → 0 < length (content arrivals)
    → IsIntact arrivals
    → let (bs, rest) = recv want arrivals in
      (bs ++ content rest ≡ content arrivals) × (0 < length bs) × (length bs ≤ want) × IsIntact rest
unfolding recv
recv-content want [] h k i = absurd (ground arith)
recv-content want (failure ∷ rest) h k i = elim k [ ]
recv-content want (segment bs ∷ rest) h k (n, i) = elim (Bool-cases (ltb want (length bs))) [
  | inl more ↦ rw more (
    sym (append_assoc (take want bs) (drop want bs) (content rest))
        ∙ ap (λ k. k ++ content rest) (take-append-drop want bs),
    omega (arith, length-take want bs (ground arith)),
    omega (arith, length-take want bs (ground arith)),
    (omega (arith, ltb→lt want (length bs) more, length-drop want bs), i),
  )
  | inr all ↦ rw (all, take_all want bs (ground arith)) (refl, n, ground arith, i)
]

drop_none : (n : ℕ) (xs : Bytes) → drop (n - n) xs ≡ xs
drop_none n xs = ap (λ k. drop k xs) {y = 0} (omega arith)

-- The loop on a link on which nothing else happens.
module _ {P : Type 0} (info : Bytes → Option (ℕ × ℕ)) (process : ℕ → Bytes → Option (P × ℕ))
    (tick : ℕ → ℕ) (takes : List (Effect P) → Bool) where
  abbrev pub quiet : List Arrival → Link P → Link P
  quiet arrivals l = record l { arrivals = arrivals; commands = [] }

  -- The loop ends with the bytes that it still wants, and leaves the others.
  abbrev pub Reads : ℕ → ℕ → ℕ → Bytes → List Arrival → State → Link P → Type 0
  Reads want fuel len got arrivals s l =
      (rest : List Arrival) × (read_loop info process tick takes fuel len got s (quiet arrivals l)
        ≡ (some (got ++ take want (content arrivals)), s, quiet rest l))
      × (content rest ≡ drop want (content arrivals))
      × IsIntact rest

  read_loop-Reads :
      (fuel want len : ℕ) (got : Bytes) (arrivals : List Arrival) (s : State) (l : Link P)
      → s.running ≡ true
      → IsIntact arrivals
      → length got + want ≡ len
      → want < fuel
      → want ≤ length (content arrivals)
      → Reads want fuel len got arrivals s l
  unfolding read_loop poll_state polled
  read_loop-Reads zero want len got arrivals s l r i e k m = absurd (ground arith)
  read_loop-Reads (suc fuel) zero len got arrivals s l r i e k m =
      (arrivals, ground (arith, append-nil got), refl, i)
  read_loop-Reads (suc fuel) (suc want) len got arrivals s l r i e k m =
      let (bs, rest) = recv (suc want) arrivals in
      let (whole, some_bytes, few, intact) =
        recv-content (suc want) arrivals (ground arith) (ground arith) i in
      let (last, runs, left, sound) =
        read_loop-Reads fuel (suc want - length bs) len (got ++ bs) rest s l r intact
          (omega (arith, length-append got bs)) (omega arith)
          (omega (arith, ap length whole, length-append bs (content rest))) in
      let below : ltb (length got) len ≡ true = lt→ltb (length got) len (omega arith) in
      let missing : len - length got ≡ suc want = omega arith in
      let more : (length bs == 0) ≡ false = ground arith in
      let taken : got ++ bs ++ take (suc want - length bs) (content rest)
          ≡ got ++ take (suc want) (content arrivals) =
        rw (← whole, take-append_past (suc want) bs (content rest) few, append_assoc) refl in
      let dropped : drop (suc want - length bs) (content rest)
          ≡ drop (suc want) (content arrivals) =
        rw (← whole, drop-append_past (suc want) bs (content rest) few) refl in
      (last, ground (arith, below, missing, more, runs, taken), left ∙ dropped, sound)

  -- The read of bytes that the connection delivers first, whatever its segments.
  pub read_exact-prefix :
      (xs more : Bytes) (arrivals : List Arrival) (s : State) (l : Link P)
      → s.running ≡ true
      → IsIntact arrivals
      → content arrivals ≡ xs ++ more
      → (rest : List Arrival) × (read_exact info process tick takes (length xs) s (quiet arrivals l)
          ≡ (some xs, s, quiet rest l))
        × (content rest ≡ more)
        × IsIntact rest
  unfolding read_exact
  read_exact-prefix xs more arrivals s l r i e =
      let n = length xs in
      let (rest, runs, left, sound) =
        read_loop-Reads (suc n) n n [] arrivals s l r i (omega arith) (omega arith)
          (rw (e, length-append xs more) (omega arith)) in
      let taken : take n (content arrivals) ≡ xs =
        rw (e, take-append n xs more (omega arith)) (take_all n xs (omega arith)) in
      let dropped : drop n (content arrivals) ≡ more =
        rw (e, drop-append_past n xs more (omega arith)) (drop_none n more) in
      (rest, runs ∙ ap (λ k. (some k, s, quiet rest l)) taken, left ∙ dropped, sound)
