-- ===== src/Regex.antt =====
-- std::regex and std::regex_match (ECMAScript grammar), on the syntax that Router::compile_pattern
-- writes: an anchored sequence of characters, escaped characters, `([^/]+)` and `(.*)`.
pub mod Matching
pub mod Literals
use http_storm.Common.{
  ℕ, zero, suc, Bool, true, false, not, ◌&&◌, ◌||◌, Bytes, codes, List, [], ◌∷◌, ◌++◌, ◌==◌,
  if◌then◌else◌, Option, none, some, is_prefix,
}
use mathlib.Core.Option

pub data Atom : Type 0 where
  lit : ℕ → Atom
  -- `([^/]+)` and `(.*)`, which capture
  segment : Atom
  wildcard : Atom

-- The characters that the grammar gives a meaning of their own.
abbrev pub is_special : ℕ → Bool
is_special c =
    c == b'^'
    || (c == b'$'
        || (c == b'\\'
            || (c == b'.'
                || (c == b'*'
                    || (c == b'+'
                        || (c == b'?'
                            || (c == b'('
                                || (c == b')'
                                    || (c == b'['
                                        || (c == b']'
                                            || (c == b'{' || (c == b'}' || c == b'|'))))))))))))

-- The characters that stand for themselves behind a backslash.
abbrev pub is_escaped : ℕ → Bool
is_escaped c = is_special c || c == b'/'

abbrev pub before_atom : Atom → Option (List Atom) → Option (List Atom)
before_atom a = Option.map (λ (atoms : List Atom). a ∷ atoms)

-- What stands behind `^`: `skip` characters belong to the atom before. `none` is other syntax.
unfoldable pub read_atoms : ℕ → Bytes → Option (List Atom)
read_atoms (suc skip) (c ∷ cs) = read_atoms skip cs
read_atoms zero (c ∷ []) = if c == b'$' then some [] else none
read_atoms zero (c ∷ d ∷ cs) =
    let group = before_atom segment (read_atoms 6 (d ∷ cs)) in
    let any = before_atom wildcard (read_atoms 3 (d ∷ cs)) in
    let escaped = before_atom (lit d) (read_atoms 1 (d ∷ cs)) in
    let plain = before_atom (lit c) (read_atoms 0 (d ∷ cs)) in
    if is_prefix (codes "([^/]+)") (c ∷ d ∷ cs)
    then group
    else if is_prefix (codes "(.*)") (c ∷ d ∷ cs)
    then any
    else if c == b'\\' && is_escaped d
    then escaped
    else if is_special c
    then none
    else plain
read_atoms skip [] = none

-- The regex of a text, if it is of this syntax.
unfoldable pub regex : Bytes → Option (List Atom)
unfolding read_atoms is_prefix
regex [] = none
regex (c ∷ cs) = if c == b'^' then read_atoms 0 cs else none

-- The classes `[^/]` and `.` (no line terminator).
abbrev pub not_slash : ℕ → Bool
not_slash c = not (c == b'/')

abbrev pub not_newline : ℕ → Bool
not_newline c = not (c == b'\n' || c == b'\r')

abbrev pub Captures : Type 0
Captures = List Bytes

abbrev pub capture : Bytes → Option Captures → Option Captures
capture text = Option.map (λ (cs : Captures). text ∷ cs)

-- A greedy repetition: `text` is what it has taken; it takes more first, and gives back on failure.
unfoldable pub repeat : (ℕ → Bool) → (Bytes → Option Captures) → Bytes → Bytes → Option Captures
repeat class rest text [] = capture text (rest [])
repeat class rest text (x ∷ xs) =
    let longer = repeat class rest (text ++ x ∷ []) xs in
    let stop = capture text (rest (x ∷ xs)) in
    if class x then elim longer [ some cs ↦ some cs | none ↦ stop ] else stop

-- std::regex_match: the whole text, and the captures from left to right.
unfoldable pub regex_match : List Atom → Bytes → Option Captures
unfolding repeat
regex_match [] [] = some []
regex_match [] (x ∷ xs) = none
regex_match (lit c ∷ atoms) [] = none
regex_match (lit c ∷ atoms) (x ∷ xs) =
    let rest = regex_match atoms xs in if x == c then rest else none
regex_match (segment ∷ atoms) [] = none
regex_match (segment ∷ atoms) (x ∷ xs) =
    let found = repeat not_slash (regex_match atoms) (x ∷ []) xs in
    if not_slash x then found else none
regex_match (wildcard ∷ atoms) xs = repeat not_newline (regex_match atoms) [] xs
