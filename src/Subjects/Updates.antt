-- ===== src/Subjects/Updates.antt =====
-- How main/jlp/subject_registry.cpp reads the value of a string path.
use espos_p4_cockpit.Prelude.{
  ℕ, ◌≡◌, refl, ap, ◌∙◌, false, ◌||◌, [], ◌∷◌, ◌++◌, ◌==◌, if◌then◌else◌, Bytes, last_is-append,
  drop_last-append, arith, inl, inr, Bool-cases,
}
use espos_p4_cockpit.Subjects.{unescape, shown_text}

-- A text as JSON writes it: a backslash before each quote and each backslash.
abbrev pub escape : Bytes → Bytes
escape [] = []
escape (c ∷ cs) = if c == b'"' || c == b'\\' then b'\\' ∷ c ∷ escape cs else c ∷ escape cs

abbrev pub quote : Bytes → Bytes
quote s = b'"' ∷ (escape s ++ b'"' ∷ [])

unescape-plain : (c : ℕ) (cs : Bytes) → (c == b'\\') ≡ false → unescape (c ∷ cs) ≡ c ∷ unescape cs
unfolding unescape
unescape-plain c [] h = refl
unescape-plain c (d ∷ cs) h = rw (unescape, h) refl

unescape-escape : (s : Bytes) → unescape (escape s) ≡ s
unfolding unescape
unescape-escape [] = refl
unescape-escape (c ∷ cs) = elim (Bool-cases (c == b'"' || c == b'\\')) [
  | inl e ↦ rw e (ap (◌∷◌ c) (unescape-escape cs))
  | inr e ↦
      let plain : (c == b'\\') ≡ false = ground arith in
      rw e (unescape-plain c (escape cs) plain ∙ ap (◌∷◌ c) (unescape-escape cs))
]

shown_text-quoted : (xs : Bytes) → shown_text (b'"' ∷ (xs ++ b'"' ∷ [])) ≡ unescape xs
unfolding shown_text
shown_text-quoted [] = ground (arith, last_is-append b'"' [], drop_last-append b'"' [])
shown_text-quoted (x ∷ xs) =
    ground (arith, last_is-append b'"' (x ∷ xs), drop_last-append b'"' (x ∷ xs))

-- A text of any content, quoted and escaped as JSON writes it, is shown as it was.
shown_text-quote : (s : Bytes) → shown_text (quote s) ≡ s
shown_text-quote s = shown_text-quoted (escape s) ∙ unescape-escape s
