-- ===== src/Fetch/Seed.antt =====
-- The values that a fetch writes into subjects, and their types.
use espos_p4_cockpit.Prelude.{
  ℕ, ◌≡◌, ◌≢◌, ◌⊎◌, inl, inr, refl, ap, sym, subst, ◌∙◌, String, Option, none, some, List, [], ◌∷◌,
  ◌++◌, ◌==◌, if◌then◌else◌, All, Option-cases, arith,
}
use mathlib.Core.List.{append_assoc}
use espos_p4_cockpit.Prelude.Dict.{lookup}
use espos_p4_cockpit.Json.{JsonLib}
use espos_p4_cockpit.Layout.{SubjectKind, float, int, bool, string}
use espos_p4_cockpit.Subjects
use espos_p4_cockpit.Subjects.{Outside, lookup_subject, kind_of}
use espos_p4_cockpit.Fetch.{
  Numbers, ValueResult, real, whole, Write, set_float, set_int, seed, seed_all,
}

module _ (J : JsonLib) (V : Numbers J) (W : Outside) where
  -- The write is to the subject of a bound path, whose LVGL type is that of the write.
  abbrev pub Fits : Subjects.Registry → Write J V → Type 0
  Fits r (set_float sub f) =
      (path : String) × (slot : Subjects.Slot) × (lookup path r ≡ some slot)
      × (slot.subject ≡ sub)
      × (slot.kind ≡ float)
  Fits r (set_int sub i) =
      (path : String) × (slot : Subjects.Slot) × (lookup path r ≡ some slot)
      × (slot.subject ≡ sub)
      × ((slot.kind ≡ int) ⊎ (slot.kind ≡ bool))

  seed-Fits :
      (r : Subjects.Registry) (path : String) (slot : Subjects.Slot) (kind : SubjectKind)
      (v : ValueResult J V)
      → lookup path r ≡ some slot
      → slot.kind ≡ kind
      → All (Fits r) (seed J V kind slot.subject v)
  unfolding seed
  seed-Fits r path slot float (real f) e k = ((path, slot, e, refl, k), tt)
  seed-Fits r path slot float (whole i) e k = ((path, slot, e, refl, k), tt)
  seed-Fits r path slot int (real f) e k = ((path, slot, e, refl, inl k), tt)
  seed-Fits r path slot int (whole i) e k = ((path, slot, e, refl, inl k), tt)
  seed-Fits r path slot bool (real f) e k = ((path, slot, e, refl, inr k), tt)
  seed-Fits r path slot bool (whole i) e k = ((path, slot, e, refl, inr k), tt)
  seed-Fits r path slot string (real f) e k = tt
  seed-Fits r path slot string (whole i) e k = tt

  All-append :
      {A : Type 0} (P : A → Type 0) (xs ys : List A) → All P xs → All P ys → All P (xs ++ ys)
  All-append P [] ys a b = b
  All-append P (x ∷ xs) ys (h, a) b = (h, All-append P xs ys a b)

  kind_of-lookup :
      (r : Subjects.Registry) (path : String) (o : Option Subjects.Slot)
      → lookup path r ≡ o
      → kind_of W path r ≡ elim o [ none ↦ none | some slot ↦ some slot.kind ]
  unfolding kind_of
  kind_of-lookup r path o e =
      ap
        (λ (q : Option Subjects.Slot). elim q as (λ x. Option SubjectKind) [
          | none ↦ none
          | some slot ↦ some slot.kind
        ])
        e

  lookup_subject-lookup :
      (r : Subjects.Registry) (path : String) (o : Option Subjects.Slot)
      → lookup path r ≡ o
      → lookup_subject W path r ≡ elim o [ none ↦ none | some slot ↦ some slot.subject ]
  unfolding lookup_subject
  lookup_subject-lookup r path o e =
      ap
        (λ (q : Option Subjects.Slot). elim q as (λ x. Option ℕ) [
          | none ↦ none
          | some slot ↦ some slot.subject
        ])
        e

  -- Every write of a fetch goes to the subject of a path that is bound, with the type of that subject.
  all-Fits :
      (r : Subjects.Registry) (vs : List (String × ValueResult J V))
      → All (Fits r) (seed_all J V W r vs)
  unfolding seed_all
  all-Fits r [] = tt
  all-Fits r ((path, v) ∷ vs) = elim (Option-cases (lookup path r)) [
    | inl e ↦ rw (kind_of-lookup r path none e) (all-Fits r vs)
    | inr (slot, e) ↦ rw (kind_of-lookup r path (some slot) e) (
        rw (lookup_subject-lookup r path (some slot) e) (
          All-append (Fits r) (seed J V slot.kind slot.subject v) (seed_all J V W r vs)
            (seed-Fits r path slot slot.kind v e refl) (all-Fits r vs)))
  ]

  -- What an LVGL subject holds.
  pub data Held : Type 0 where
    float_value : V.Real → Held
    int_value : V.Whole → Held

  -- Writes after others: the last one counts.
  abbrev later : Option Held → Option Held → Option Held
  later (some h) o = some h
  later none o = o

  abbrev written : ℕ → Write J V → Option Held
  written sub (set_float s f) = if s == sub then some (float_value f) else none
  written sub (set_int s i) = if s == sub then some (int_value i) else none

  -- What a subject holds after some writes; none where none of them is to it.
  pub held : ℕ → List (Write J V) → Option Held
  held sub [] = none
  held sub (w ∷ ws) = later (held sub ws) (written sub w)

  -- The value in the type of the subject; a text subject is not filled by a fetch.
  abbrev pub Shows : SubjectKind → ValueResult J V → Option Held → Type 0
  Shows float (real f) h = h ≡ some (float_value f)
  Shows float (whole i) h = h ≡ some (float_value (V.of_whole i))
  Shows int (real f) h = h ≡ some (int_value (V.to_whole f))
  Shows int (whole i) h = h ≡ some (int_value i)
  Shows bool (real f) h = h ≡ some (int_value (V.to_whole f))
  Shows bool (whole i) h = h ≡ some (int_value i)
  Shows string v h = h ≡ h

  -- The path is not bound to this subject.
  abbrev pub IsElsewhere : Subjects.Registry → ℕ → String × ValueResult J V → Type 0
  IsElsewhere r sub (path, v) =
      (slot : Subjects.Slot) → lookup path r ≡ some slot → slot.subject ≢ sub

  later_assoc : (a b c : Option Held) → later (later a b) c ≡ later a (later b c)
  later_assoc none b c = refl
  later_assoc (some h) b c = refl

  later-none : (a : Option Held) → later a none ≡ a
  later-none none = refl
  later-none (some h) = refl

  held-append :
      (sub : ℕ) (xs ys : List (Write J V)) → held sub (xs ++ ys) ≡ later (held sub ys) (held sub xs)
  unfolding held
  held-append sub [] ys = sym (later-none (held sub ys))
  held-append sub (w ∷ xs) ys =
      ap (λ h. later h (written sub w)) (held-append sub xs ys)
      ∙ later_assoc (held sub ys) (held sub xs) (written sub w)

  held_seed_other :
      (sub other : ℕ) (kind : SubjectKind) (v : ValueResult J V)
      → other ≢ sub
      → held sub (seed J V kind other v) ≡ none
  unfolding seed held
  held_seed_other sub other float (real f) d = ground arith
  held_seed_other sub other float (whole i) d = ground arith
  held_seed_other sub other int (real f) d = ground arith
  held_seed_other sub other int (whole i) d = ground arith
  held_seed_other sub other bool (real f) d = ground arith
  held_seed_other sub other bool (whole i) d = ground arith
  held_seed_other sub other string (real f) d = refl
  held_seed_other sub other string (whole i) d = refl

  seed-Shows :
      (sub : ℕ) (kind : SubjectKind) (v : ValueResult J V) (before : Option Held)
      → Shows kind v (later (held sub (seed J V kind sub v)) before)
  unfolding seed held
  seed-Shows sub float (real f) before = ground arith
  seed-Shows sub float (whole i) before = ground arith
  seed-Shows sub int (real f) before = ground arith
  seed-Shows sub int (whole i) before = ground arith
  seed-Shows sub bool (real f) before = ground arith
  seed-Shows sub bool (whole i) before = ground arith
  seed-Shows sub string (real f) before = refl
  seed-Shows sub string (whole i) before = refl

  seed_all_bound :
      (r : Subjects.Registry) (path : String) (v : ValueResult J V) (slot : Subjects.Slot)
      (vs : List (String × ValueResult J V))
      → lookup path r ≡ some slot
      → seed_all J V W r ((path, v) ∷ vs) ≡ seed J V slot.kind slot.subject v ++ seed_all J V W r vs
  unfolding seed_all
  seed_all_bound r path v slot vs e =
      rw (kind_of-lookup r path (some slot) e)
        (rw (lookup_subject-lookup r path (some slot) e) refl)

  seed_all_unbound :
      (r : Subjects.Registry) (path : String) (v : ValueResult J V)
      (vs : List (String × ValueResult J V))
      → lookup path r ≡ none
      → seed_all J V W r ((path, v) ∷ vs) ≡ seed_all J V W r vs
  unfolding seed_all
  seed_all_unbound r path v vs e = rw (kind_of-lookup r path none e) refl

  held-seed_all_elsewhere :
      (r : Subjects.Registry) (sub : ℕ) (vs : List (String × ValueResult J V))
      → All (IsElsewhere r sub) vs
      → held sub (seed_all J V W r vs) ≡ none
  unfolding seed_all held
  held-seed_all_elsewhere r sub [] h = refl
  held-seed_all_elsewhere r sub ((path, v) ∷ vs) (far, h) = elim (Option-cases (lookup path r)) [
    | inl e ↦ ap (held sub) (seed_all_unbound r path v vs e) ∙ held-seed_all_elsewhere r sub vs h
    | inr (slot, e) ↦
        ap (held sub) (seed_all_bound r path v slot vs e)
        ∙ held-append sub (seed J V slot.kind slot.subject v) (seed_all J V W r vs)
        ∙ ap (λ h. later h (held sub (seed J V slot.kind slot.subject v)))
            (held-seed_all_elsewhere r sub vs h)
        ∙ held_seed_other sub slot.subject slot.kind v (far slot e)
  ]

  seed_all-append :
      (r : Subjects.Registry) (xs ys : List (String × ValueResult J V))
      → seed_all J V W r (xs ++ ys) ≡ seed_all J V W r xs ++ seed_all J V W r ys
  unfolding seed_all
  seed_all-append r [] ys = refl
  seed_all-append r ((path, v) ∷ xs) ys = elim (Option-cases (lookup path r)) [
    | inl e ↦
        seed_all_unbound r path v (xs ++ ys) e
        ∙ seed_all-append r xs ys
        ∙ ap (λ ws. ws ++ seed_all J V W r ys) (sym (seed_all_unbound r path v xs e))
    | inr (slot, e) ↦
        let mine = seed J V slot.kind slot.subject v in
        seed_all_bound r path v slot (xs ++ ys) e
        ∙ ap (λ ws. mine ++ ws) (seed_all-append r xs ys)
        ∙ sym (append_assoc mine (seed_all J V W r xs) (seed_all J V W r ys))
        ∙ ap (λ ws. ws ++ seed_all J V W r ys) (sym (seed_all_bound r path v slot xs e))
  ]

  -- After the writes of a fetch the subject of a bound path of kind float, int or bool holds the last
  -- value that was fetched for it, in the type of the subject. All writes are to subjects of bound
  -- paths, with their types.
  pub seed_all-Shows :
      (r : Subjects.Registry) (path : String) (v : ValueResult J V) (slot : Subjects.Slot)
      (before after : List (String × ValueResult J V))
      → lookup path r ≡ some slot
      → All (IsElsewhere r slot.subject) after
      → Shows slot.kind v (held slot.subject (seed_all J V W r (before ++ (path, v) ∷ after)))
        × All (Fits r) (seed_all J V W r (before ++ (path, v) ∷ after))
  seed_all-Shows r path v slot before after e far =
      let sub = slot.subject in
      let mine = seed J V slot.kind sub v in
      let first = seed_all J V W r before in
      let rest = seed_all J V W r after in
      let writes : seed_all J V W r (before ++ (path, v) ∷ after) ≡ first ++ (mine ++ rest) =
        seed_all-append r before ((path, v) ∷ after)
        ∙ ap (λ ws. first ++ ws) (seed_all_bound r path v slot after e) in
      let last : held sub (mine ++ rest) ≡ held sub mine =
        held-append sub mine rest
        ∙ ap (λ h. later h (held sub mine)) (held-seed_all_elsewhere r sub after far) in
      let holds : held sub (seed_all J V W r (before ++ (path, v) ∷ after))
          ≡ later (held sub mine) (held sub first) =
        ap (held sub) writes
        ∙ held-append sub first (mine ++ rest)
        ∙ ap (λ h. later h (held sub first)) last in
      (
        subst (Shows slot.kind v) (sym holds) (seed-Shows sub slot.kind v (held sub first)),
        all-Fits r (before ++ (path, v) ∷ after),
      )
