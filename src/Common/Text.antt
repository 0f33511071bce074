-- ===== src/Common/Text.antt =====
-- Byte strings (std::string, std::string_view) as lists of numbers, with the searches, cuts and
-- comparisons that the source calls on them.
use Prim.Native.Char.{code}
use Prim.Native.Nat.{ℕ, suc, ◌+◌}
use Prim.Native.String.{String}
use mathlib.Core.Path.{◌≡◌, refl}
use mathlib.Core.Logic.{◌↔◌}
use mathlib.Core.Bool.{Bool, true, false, ◌&&◌, ◌||◌}
use mathlib.Core.Option
use mathlib.Core.Option.{Option, none, some}
use mathlib.Core.List.{List, [], ◌∷◌}
use native.Mathlib.Omega.{arith}
use package.http_storm.Common.Tests.{◌==◌, leb, if◌then◌else◌}

abbrev pub Bytes : Type 0
Bytes = List ℕ

-- The bytes of a literal; every literal of the source is ASCII.
abbrev pub codes : String → Bytes
codes String.[] = []
codes (String.◌∷◌ c s) = code c ∷ codes s

-- `s.empty()`
abbrev pub is_empty : Bytes → Bool
is_empty [] = true
is_empty (c ∷ cs) = false

-- `==` on strings
unfoldable pub equal : Bytes → Bytes → Bool
equal [] [] = true
equal (x ∷ xs) (y ∷ ys) = x == y && equal xs ys
equal _ _ = false

pub equal_iff : (xs ys : Bytes) → (equal xs ys ≡ true) ↔ (xs ≡ ys)
unfolding equal
equal_iff [] [] = ground arith
equal_iff [] (y ∷ ys) = ground arith
equal_iff (x ∷ xs) [] = ground arith
equal_iff (x ∷ xs) (y ∷ ys) = ground (arith, equal_iff xs ys)

pub equal_refl : (xs : Bytes) → equal xs xs ≡ true
equal_refl xs = (equal_iff xs xs).1 refl

-- `s.find(c)`; `none` is npos
unfoldable pub find : ℕ → Bytes → Option ℕ
find c [] = none
find c (x ∷ xs) = if x == c then some 0 else Option.map suc (find c xs)

-- `s.find("\r\n")`
unfoldable pub find_crlf : Bytes → Option ℕ
find_crlf [] = none
find_crlf (x ∷ []) = none
find_crlf (x ∷ y ∷ xs) =
    if x == b'\r' && y == b'\n' then some 0 else Option.map suc (find_crlf (y ∷ xs))

unfoldable pub is_prefix : Bytes → Bytes → Bool
is_prefix [] ys = true
is_prefix (x ∷ xs) [] = false
is_prefix (x ∷ xs) (y ∷ ys) = x == y && is_prefix xs ys

-- `s.find(word) != npos`
unfoldable pub contains : Bytes → Bytes → Bool
unfolding is_prefix
contains word [] = is_prefix word []
contains word (y ∷ ys) = is_prefix word (y ∷ ys) || contains word ys

-- `s.substr(s.find_first_not_of(" \t"))`, empty where there is none
unfoldable pub trim_left : Bytes → Bytes
trim_left [] = []
trim_left (x ∷ xs) = if x == b' ' || x == b'\t' then trim_left xs else x ∷ xs

-- std::tolower in the "C" locale
unfoldable pub tolower : ℕ → ℕ
tolower c = if leb b'A' c && leb c b'Z' then c + 32 else c

pub tolower_idem : (c : ℕ) → tolower (tolower c) ≡ tolower c
unfolding tolower
tolower_idem c = ground arith
