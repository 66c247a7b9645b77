-- ===== src/Layout/Bindings.antt =====
-- The binds of a layout of main/jlp/layout/layout_manager.cpp, recorded one after another.
use espos_p4_cockpit.Prelude.{
  ◌≡◌, ◌↔◌, refl, ◌⊎◌, inl, inr, String, true, false, List, [], ◌∷◌, ◌++◌, Option, none, some,
  if◌then◌else◌, ◌=s◌, str_iff, arith, Bool-cases, Option-cases,
}
use espos_p4_cockpit.Prelude.Dict.{Dict, lookup, insert, lookup-insert, lookup-insert_self}
use espos_p4_cockpit.Layout.{SubjectKind, float, int, bool, string, same_kind, is_in}

-- The texts of a list in which each occurs once, none of them in `before`.
abbrev pub AreFresh : List String → List String → Type 0
AreFresh before [] = Unit
AreFresh before (i ∷ ids) = (is_in i before ≡ false) × AreFresh (i ∷ before) ids

-- A path that a layout binds, and the kind it asks for.
abbrev pub Binding : Type 0
Binding = String × SubjectKind

abbrev pub Binds : String → SubjectKind → List Binding → Type 0
Binds path kind [] = ⊥
Binds path kind ((p, k) ∷ bs) = ((p ≡ path) × (k ≡ kind)) ⊎ Binds path kind bs

-- No path is bound as two kinds.
abbrev pub AreConsistent : List Binding → Type 0
AreConsistent bs = (path : String) (j k : SubjectKind) → Binds path j bs → Binds path k bs → j ≡ k

-- Recording bindings one after another.
abbrev pub records : List Binding → Dict SubjectKind → Option (Dict SubjectKind)
records [] seen = some seen
records ((p, k) ∷ bs) seen = elim (lookup p seen) [
  | none ↦ records bs (insert p k seen)
  | some was ↦ if same_kind was k then records bs seen else none
]

pub same_kind_iff : (j k : SubjectKind) → (same_kind j k ≡ true) ↔ (j ≡ k)
same_kind_iff float float = ground arith
same_kind_iff float int = ground arith
same_kind_iff float bool = ground arith
same_kind_iff float string = ground arith
same_kind_iff int float = ground arith
same_kind_iff int int = ground arith
same_kind_iff int bool = ground arith
same_kind_iff int string = ground arith
same_kind_iff bool float = ground arith
same_kind_iff bool int = ground arith
same_kind_iff bool bool = ground arith
same_kind_iff bool string = ground arith
same_kind_iff string float = ground arith
same_kind_iff string int = ground arith
same_kind_iff string bool = ground arith
same_kind_iff string string = ground arith

pub records_new :
    (p : String) (k : SubjectKind) (bs : List Binding) (seen : Dict SubjectKind)
    → lookup p seen ≡ none
    → records ((p, k) ∷ bs) seen ≡ records bs (insert p k seen)
records_new p k bs seen e = rw (records, e) refl

pub records_same :
    (p : String) (k was : SubjectKind) (bs : List Binding) (seen : Dict SubjectKind)
    → lookup p seen ≡ some was
    → same_kind was k ≡ true
    → records ((p, k) ∷ bs) seen ≡ records bs seen
records_same p k was bs seen e q = rw (records, e, q) refl

pub records_clash :
    (p : String) (k was : SubjectKind) (bs : List Binding) (seen : Dict SubjectKind)
    → lookup p seen ≡ some was
    → same_kind was k ≡ false
    → records ((p, k) ∷ bs) seen ≡ none
records_clash p k was bs seen e q = rw (records, e, q) refl

pub records-append :
    (bs cs : List Binding) (seen : Dict SubjectKind)
    → records (bs ++ cs) seen ≡ elim (records bs seen) [ none ↦ none | some s ↦ records cs s ]
records-append [] cs seen = refl
records-append ((p, k) ∷ bs) cs seen = elim (Option-cases (lookup p seen)) [
  | inl e ↦
      rw (records_new p k (bs ++ cs) seen e, records_new p k bs seen e)
        (records-append bs cs (insert p k seen))
  | inr (was, e) ↦ elim (Bool-cases (same_kind was k)) [
    | inl q ↦
        rw (records_same p k was (bs ++ cs) seen e q, records_same p k was bs seen e q)
          (records-append bs cs seen)
    | inr q ↦ rw (records_clash p k was (bs ++ cs) seen e q, records_clash p k was bs seen e q) refl
  ]
]

-- What is seen stays seen.
records-keeps :
    (bs : List Binding) (seen after : Dict SubjectKind) (p : String) (k : SubjectKind)
    → records bs seen ≡ some after
    → lookup p seen ≡ some k
    → lookup p after ≡ some k
records-keeps [] seen after p k e l = ground arith
records-keeps ((q, j) ∷ bs) seen after p k e l = elim (Option-cases (lookup q seen)) [
  | inl n ↦
      records-keeps bs (insert q j seen) after p k (ground arith)
        (ground (arith, str_iff q p, lookup-insert q p j seen))
  | inr (was, n) ↦ elim (Bool-cases (same_kind was j)) [
    | inl s ↦ records-keeps bs seen after p k (ground arith) l
    | inr s ↦ absurd (ground arith)
  ]
]

records-Binds :
    (bs : List Binding) (seen after : Dict SubjectKind) (p : String) (k : SubjectKind)
    → records bs seen ≡ some after
    → Binds p k bs
    → lookup p after ≡ some k
records-Binds [] seen after p k e b = absurd b
records-Binds ((q, j) ∷ bs) seen after p k e b = elim (Option-cases (lookup q seen)) [
  | inl n ↦ elim b [
    | inl (same, kind) ↦
        records-keeps bs (insert q j seen) after p k (ground arith)
          (rw (same, kind) (lookup-insert_self p k seen))
    | inr rest ↦ records-Binds bs (insert q j seen) after p k (ground arith) rest
  ]
  | inr (was, n) ↦ elim (Bool-cases (same_kind was j)) [
    | inl s ↦ elim b [
      | inl (same, kind) ↦
          records-keeps bs seen after p k (ground arith) (ground (arith, same_kind_iff was j))
      | inr rest ↦ records-Binds bs seen after p k (ground arith) rest
    ]
    | inr s ↦ absurd (ground arith)
  ]
]

pub records-AreConsistent :
    (bs : List Binding) (after : Dict SubjectKind) → records bs [] ≡ some after → AreConsistent bs
records-AreConsistent bs after e path j k bj bk =
    let seen_j = records-Binds bs [] after path j e bj in
    let seen_k = records-Binds bs [] after path k e bk in ground arith

-- Every binding agrees with what is seen.
abbrev pub Agrees : Dict SubjectKind → List Binding → Type 0
Agrees seen bs =
    (path : String) (j k : SubjectKind) → lookup path seen ≡ some j → Binds path k bs → j ≡ k

pub records_all :
    (bs : List Binding) (seen : Dict SubjectKind)
    → AreConsistent bs
    → Agrees seen bs
    → (after : Dict SubjectKind) × (records bs seen ≡ some after)
records_all [] seen c a = (seen, refl)
records_all ((p, k) ∷ bs) seen c a = elim (Option-cases (lookup p seen)) [
  | inl n ↦ rw (records_new p k bs seen n) (
      records_all bs (insert p k seen) (λ q i j bi bj. c q i j (inr bi) (inr bj))
        (λ q i j l b. elim (Bool-cases (p =s q)) [
          | inl s ↦
              let same : p ≡ q = (str_iff p q).0 s in
              let first : k ≡ i = ground (arith, lookup-insert p q k seen) in
              c q i j (inl (same, first)) (inr b)
          | inr s ↦ a q i j (ground (arith, lookup-insert p q k seen)) (inr b)
        ]))
  | inr (was, n) ↦
      let same : same_kind was k ≡ true =
        (same_kind_iff was k).1 (a p was k n (inl (refl, refl))) in
      rw (records_same p k was bs seen n same) (
        records_all bs seen (λ q i j bi bj. c q i j (inr bi) (inr bj))
          (λ q i j l b. a q i j l (inr b)))
]
