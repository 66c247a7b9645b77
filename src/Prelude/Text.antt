-- ===== src/Prelude/Text.antt =====
-- Texts: whole strings as keys and tags, and their codes where the source walks bytes.
use Prim.Native.Nat.{ℕ, ◌+◌}
use Prim.Native.Char.{code}
use Prim.Native.String.{String}
use mathlib.Core.Path.{◌≡◌, refl, ap}
use mathlib.Core.Logic.{◌↔◌}
use mathlib.Core.Bool.{Bool, true, false, ◌&&◌}
use mathlib.Core.List.{List, [], ◌∷◌, ◌++◌}
use espos_p4_cockpit.Prelude.Tests.{leb, ◌==◌ as same, if◌then◌else◌}
use native.Mathlib.Omega.{arith}
use text.Mathlib.Text.{◌==◌}
use text.Mathlib.TextEquality.{eq_iff}
use text.Mathlib.TextPositions.{eq_refl}

-- `strcmp(a, b) == 0`, or `==` of two std::string.
infix 50 ◌=s◌
unfoldable pub ◌=s◌ : String → String → Bool
a =s b = a == b

pub str_iff : (a b : String) → ((a =s b) ≡ true) ↔ (a ≡ b)
unfolding ◌=s◌
str_iff = eq_iff

pub str_refl : (a : String) → (a =s a) ≡ true
unfolding ◌=s◌
str_refl = eq_refl

-- The codes of a text: its bytes, if it is ASCII. `String` has its own `[]` and `∷`.
abbrev pub codes : String → List ℕ
codes String.[] = []
codes (String.◌∷◌ c s) = code c ∷ codes s

-- A byte string of the target, walked by code.
abbrev pub Bytes : Type 0
Bytes = List ℕ

-- Equality of byte strings.
abbrev pub same_bytes : Bytes → Bytes → Bool
same_bytes [] [] = true
same_bytes (x ∷ xs) (y ∷ ys) = same x y && same_bytes xs ys
same_bytes _ _ = false

pub last_is : ℕ → Bytes → Bool
last_is c [] = false
last_is c (x ∷ []) = same x c
last_is c (x ∷ y ∷ xs) = last_is c (y ∷ xs)

pub drop_last : Bytes → Bytes
drop_last [] = []
drop_last (x ∷ []) = []
drop_last (x ∷ y ∷ xs) = x ∷ drop_last (y ∷ xs)

-- `if (s.size() >= 2 && s.front() == '"' && s.back() == '"') s = s.substr(1, s.size() - 2);`
unfoldable pub unquote : Bytes → Bytes
unfolding last_is drop_last
unquote [] = []
unquote (x ∷ []) = x ∷ []
unquote (x ∷ y ∷ xs) =
    if same x b'"' && last_is b'"' (y ∷ xs) then drop_last (y ∷ xs) else x ∷ y ∷ xs

pub last_is-append : (c : ℕ) (xs : Bytes) → last_is c (xs ++ c ∷ []) ≡ true
unfolding last_is
last_is-append c [] = ground arith
last_is-append c (x ∷ []) = ground arith
last_is-append c (x ∷ y ∷ xs) = last_is-append c (y ∷ xs)

pub drop_last-append : (c : ℕ) (xs : Bytes) → drop_last (xs ++ c ∷ []) ≡ xs
unfolding drop_last
drop_last-append c [] = refl
drop_last-append c (x ∷ []) = refl
drop_last-append c (x ∷ y ∷ xs) = ap (◌∷◌ x) (drop_last-append c (y ∷ xs))

-- A quoted text, whatever stands between the quotes, loses exactly its quotes.
pub unquote-quoted : (xs : Bytes) → unquote (b'"' ∷ (xs ++ b'"' ∷ [])) ≡ xs
unfolding unquote
unquote-quoted [] = refl
unquote-quoted (x ∷ xs) =
    ground (arith, last_is-append b'"' (x ∷ xs), drop_last-append b'"' (x ∷ xs))

-- `tolower` on ASCII.
abbrev pub to_lower : ℕ → ℕ
to_lower c = if leb b'A' c && leb c b'Z' then c + 32 else c

-- `strcasecmp(a, b) == 0`.
unfoldable pub same_ignoring_case : Bytes → Bytes → Bool
same_ignoring_case [] [] = true
same_ignoring_case (x ∷ xs) (y ∷ ys) = same (to_lower x) (to_lower y) && same_ignoring_case xs ys
same_ignoring_case _ _ = false
