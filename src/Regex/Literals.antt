-- ===== src/Regex/Literals.antt =====
-- What std::regex_match does on the regexes that compile_pattern makes of patterns with no parameter.
use mathlib.Core.List.{append-nil, append_assoc}
use http_storm.Common.{
  Bool, true, false, ◌&&◌, Bytes, [], ◌∷◌, ◌++◌, ◌==◌, if◌then◌else◌, none, some, map, drop, length,
  equal, Bool-cases, inl, inr, ◌≡◌, refl, arith,
}
use http_storm.Regex.{lit, wildcard, regex_match, repeat, not_newline}

-- A regex of characters only matches its own text.
regex_match-literal :
    (p path : Bytes) → regex_match (map lit p) path ≡ (if equal p path then some [] else none)
unfolding regex_match equal
regex_match-literal [] [] = refl
regex_match-literal [] (x ∷ xs) = refl
regex_match-literal (c ∷ p) [] = refl
regex_match-literal (c ∷ p) (x ∷ xs) = ground (arith, regex_match-literal p xs)

-- the path is under a prefix, and its rest is on one line
abbrev pub all_not_newline : Bytes → Bool
all_not_newline [] = true
all_not_newline (c ∷ cs) = not_newline c && all_not_newline cs

abbrev pub is_under : Bytes → Bytes → Bool
is_under [] path = all_not_newline path
is_under (c ∷ p) [] = false
is_under (c ∷ p) (x ∷ path) = x == c && is_under p path

-- `(.*)` at the end takes the rest of the line.
repeat-all :
    (text xs : Bytes)
    → repeat not_newline (regex_match []) text xs
      ≡ (if all_not_newline xs then some ((text ++ xs) ∷ []) else none)
unfolding repeat regex_match
repeat-all text [] = rw (append-nil text) refl
repeat-all text (x ∷ xs) =
    let rest = repeat-all (text ++ x ∷ []) xs in
    let joined = append_assoc text (x ∷ []) xs in
    elim (Bool-cases (not_newline x)) [
      | inr out ↦ rw out refl
      | inl within ↦ elim (Bool-cases (all_not_newline xs)) [
        | inl e ↦ rw (within, e, rest, e, joined) refl
        | inr e ↦ rw (within, e, rest, e) refl
      ]
    ]

pub regex_match-static :
    (p path : Bytes)
    → regex_match (map lit p ++ wildcard ∷ []) path
      ≡ (if is_under p path then some (drop (length p) path ∷ []) else none)
unfolding regex_match
regex_match-static [] path = repeat-all [] path
regex_match-static (c ∷ p) [] = refl
regex_match-static (c ∷ p) (x ∷ xs) = ground (arith, regex_match-static p xs)

pub literal-none : (p path : Bytes) → equal p path ≡ false → regex_match (map lit p) path ≡ none
literal-none p path e = rw (regex_match-literal p path, e) refl

pub static-none :
    (p path : Bytes)
    → is_under p path ≡ false
    → regex_match (map lit p ++ wildcard ∷ []) path ≡ none
static-none p path e = rw (regex_match-static p path, e) refl
