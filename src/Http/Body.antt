-- ===== src/Http/Body.antt =====
-- recv_body() of main/jlp/net/http_api.cpp: a whole request body, or an answer that says why not.
use espos_p4_cockpit.Prelude.{
  ℕ, zero, suc, ◌+◌, ◌-◌, ◌*◌, ◌≤◌, ◌≡◌, ◌⊎◌, refl, false, not, Bool-cases, inl, inr, List, [], ◌∷◌,
  ◌++◌, ltb, ◌==◌, if◌then◌else◌, length, length-append, take, All, Bytes, arith,
}
use espos_p4_cockpit.Http.{Reply, body_not_received, recv_failed}

-- `kRecvWaitS`, in microseconds.
abbrev pub recv_wait : ℕ
recv_wait = 10 * 1000000

-- What one call of httpd_req_recv() gives: some bytes, its own timeout, or an error.
pub data Received : Type 0 where
  part : Bytes → Received
  timed_out broken : Received

-- How long the call took, and what it gave.
abbrev pub Call : Type 0
Call = ℕ × Received

-- The loop, from a time and with the body so far. Where nothing more comes, the call times out. The
-- result comes with the time at which it stands.
unfoldable pub recv_loop : ℕ → ℕ → List Call → ℕ → Bytes → (Reply ⊎ Bytes) × ℕ
recv_loop len deadline [] now body =
    if not (ltb (length body) len)
    then (inr body, now)
    else if ltb deadline now
    then (inl body_not_received, now)
    else (inl body_not_received, now + recv_wait)
recv_loop len deadline ((took, timed_out) ∷ calls) now body =
    if not (ltb (length body) len)
    then (inr body, now)
    else if ltb deadline now
    then (inl body_not_received, now)
    else (inl body_not_received, now + took)
recv_loop len deadline ((took, broken) ∷ calls) now body =
    if not (ltb (length body) len)
    then (inr body, now)
    else if ltb deadline now
    then (inl body_not_received, now)
    else (inl recv_failed, now + took)
recv_loop len deadline ((took, part bs) ∷ calls) now body =
    let got = take (len - length body) bs in
    let rest = recv_loop len deadline calls (now + took) (body ++ got) in
    if not (ltb (length body) len)
    then (inr body, now)
    else if ltb deadline now
    then (inl body_not_received, now)
    else if length bs == 0
    then (inl recv_failed, now + took)
    else rest

unfoldable pub recv_body : ℕ → List Call → ℕ → (Reply ⊎ Bytes) × ℕ
unfolding recv_loop
recv_body len calls now = recv_loop len (now + recv_wait) calls now []

-- A body, if there is one, is as long as was announced.
abbrev pub IsBody : ℕ → Reply ⊎ Bytes → Type 0
IsBody len (inl why) = (why ≡ body_not_received) ⊎ (why ≡ recv_failed)
IsBody len (inr body) = length body ≡ len

le_of_not_below : (a b : ℕ) → ltb a b ≡ false → b ≤ a
le_of_not_below a b e = ground arith

length-take_le : (n : ℕ) (xs : Bytes) → length (take n xs) ≤ n
length-take_le zero xs = omega arith
length-take_le (suc n) [] = omega arith
length-take_le (suc n) (x ∷ xs) = omega (arith, length-take_le n xs)

recv_loop_bound :
    (len deadline : ℕ) (calls : List Call) (now : ℕ) (body : Bytes)
    → All (λ c. c.0 ≤ recv_wait) calls
    → length body ≤ len
    → now ≤ deadline + recv_wait
    → let (result, at) = recv_loop len deadline calls now body in
      IsBody len result × (at ≤ deadline + recv_wait)
unfolding recv_loop
recv_loop_bound len deadline [] now body h k t = ground arith
recv_loop_bound len deadline ((took, timed_out) ∷ calls) now body h k t = ground arith
recv_loop_bound len deadline ((took, broken) ∷ calls) now body h k t = ground arith
recv_loop_bound len deadline ((took, part bs) ∷ calls) now body (h, hs) k t =
    elim (Bool-cases (ltb (length body) len)) [
      | inr full ↦ rw full (omega (arith, le_of_not_below (length body) len full), t)
      | inl more ↦ elim (Bool-cases (ltb deadline now)) [
        | inl late ↦ rw (more, late) (inl refl, t)
        | inr early ↦ elim (Bool-cases (length bs == 0)) [
          | inl none_left ↦
              rw (more, early, none_left)
                (inr refl, omega (arith, le_of_not_below deadline now early))
          | inr some_left ↦
              let got = take (len - length body) bs in
              rw (more, early, some_left)
                (recv_loop_bound len deadline calls (now + took) (body ++ got) hs
                  (omega (arith, length-append body got, length-take_le (len - length body) bs, k))
                  (omega (arith, le_of_not_below deadline now early)))
        ]
      ]
    ]

-- Whatever the client sends and however slowly, when no receive takes longer than the server's receive
-- timeout: within twice that time recv_body() has either exactly the bytes that were announced, or
-- answered that the body was not received or the receive failed.
recv_body_bound :
    (len : ℕ) (calls : List Call) (now : ℕ)
    → All (λ c. c.0 ≤ recv_wait) calls
    → let (result, at) = recv_body len calls now in IsBody len result × (at ≤ now + 2 * recv_wait)
unfolding recv_body
recv_body_bound len calls now h =
    let (whole, soon) =
      recv_loop_bound len (now + recv_wait) calls now [] h (omega arith) (omega arith) in
    (whole, omega (arith, soon))
