-- ===== src/Fetch/Wake/Port.antt =====
-- The port that main/jlp/net/wake_discover.cpp takes from an advertised uri.
use espos_p4_cockpit.Prelude.{
  ℕ, ◌≤◌, ◌<◌, ◌≡◌, inl, inr, refl, ap, sym, subst, false, ◌&&◌, Option, none, some, [], ◌∷◌, ◌++◌,
  ltb, ◌==◌, if◌then◌else◌, Bytes, All, Bool-cases, arith,
}
use espos_p4_cockpit.Fetch.Wake.{after_colon, port_of}

abbrev pub HasNoColon : Bytes → Type 0
HasNoColon = All (λ c. (c == b':') ≡ false)

-- The number after the last colon where it is a port, else 10400.
pub data IsPort (atoi : Bytes → ℕ) : Bytes → ℕ → Type 0 where
  no_colon : (uri : Bytes) → HasNoColon uri → IsPort atoi uri 10400
  in_range :
      (front rest : Bytes)
      → HasNoColon rest
      → 0 < atoi rest
      → atoi rest < 65536
      → IsPort atoi (front ++ b':' ∷ rest) (atoi rest)
  too_low :
      (front rest : Bytes)
      → HasNoColon rest
      → atoi rest ≡ 0
      → IsPort atoi (front ++ b':' ∷ rest) 10400
  too_high :
      (front rest : Bytes)
      → HasNoColon rest
      → 65536 ≤ atoi rest
      → IsPort atoi (front ++ b':' ∷ rest) 10400

-- What after_colon finds.
abbrev Cuts : Bytes → Option Bytes → Type 0
Cuts uri none = HasNoColon uri
Cuts uri (some rest) = (front : Bytes) × (uri ≡ front ++ b':' ∷ rest) × HasNoColon rest

after_colon-cons :
    (c : ℕ) (cs : Bytes) (o : Option Bytes)
    → after_colon cs ≡ o
    → after_colon (c ∷ cs)
      ≡ elim o [ some rest ↦ some rest | none ↦ if c == b':' then some cs else none ]
unfolding after_colon
after_colon-cons c cs o e =
    ap
      (λ (q : Option Bytes). elim q as (λ x. Option Bytes) [
        | some rest ↦ some rest
        | none ↦ if c == b':' then some cs else none
      ])
      e

Cuts-cons :
    (c : ℕ) (cs : Bytes) (o : Option Bytes)
    → Cuts cs o
    → Cuts (c ∷ cs) (elim o [ some rest ↦ some rest | none ↦ if c == b':' then some cs else none ])
Cuts-cons c cs (some rest) (front, split, clean) = (c ∷ front, ap (λ l. c ∷ l) split, clean)
Cuts-cons c cs none clean = elim (Bool-cases (c == b':')) [
  | inl q ↦ rw q ([], ap (λ b. b ∷ cs) (ground arith), clean)
  | inr q ↦ rw q (q, clean)
]

after_colon-Cuts : (uri : Bytes) → Cuts uri (after_colon uri)
unfolding after_colon
after_colon-Cuts [] = tt
after_colon-Cuts (c ∷ cs) =
    subst (Cuts (c ∷ cs)) (sym (after_colon-cons c cs (after_colon cs) refl))
      (Cuts-cons c cs (after_colon cs) (after_colon-Cuts cs))

port_of-after_colon :
    (atoi : Bytes → ℕ) (uri : Bytes) (o : Option Bytes)
    → after_colon uri ≡ o
    → port_of atoi uri ≡ elim o [
      | none ↦ 10400
      | some text ↦ if ltb 0 (atoi text) && ltb (atoi text) 65536 then atoi text else 10400
    ]
unfolding port_of
port_of-after_colon atoi uri o e =
    ap
      (λ (q : Option Bytes). elim q as (λ x. ℕ) [
        | none ↦ 10400
        | some text ↦ if ltb 0 (atoi text) && ltb (atoi text) 65536 then atoi text else 10400
      ])
      e

Cuts-IsPort :
    (atoi : Bytes → ℕ) (uri : Bytes) (o : Option Bytes)
    → Cuts uri o
    → IsPort atoi uri (elim o [
      | none ↦ 10400
      | some text ↦ if ltb 0 (atoi text) && ltb (atoi text) 65536 then atoi text else 10400
    ])
Cuts-IsPort atoi uri none clean = no_colon uri clean
Cuts-IsPort atoi uri (some rest) (front, split, clean) = elim (Bool-cases (ltb 0 (atoi rest))) [
  | inr low ↦ rw (split, low) (too_low front rest clean (ground arith))
  | inl some_port ↦ elim (Bool-cases (ltb (atoi rest) 65536)) [
    | inl fits ↦
        rw (split, some_port, fits) (in_range front rest clean (ground arith) (ground arith))
    | inr high ↦ rw (split, some_port, high) (too_high front rest clean (ground arith))
  ]
]

pub port_of-IsPort : (atoi : Bytes → ℕ) (uri : Bytes) → IsPort atoi uri (port_of atoi uri)
port_of-IsPort atoi uri =
    subst (IsPort atoi uri) (sym (port_of-after_colon atoi uri (after_colon uri) refl))
      (Cuts-IsPort atoi uri (after_colon uri) (after_colon-Cuts uri))
