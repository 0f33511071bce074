-- ===== src/Router/Patterns.antt =====
-- What Router::compile_pattern makes of a pattern.
use native.Mathlib.Decide.{ℕ_discrete}
use http_storm.Common.{
  ℕ, Bool, true, false, not, ◌||◌, Bytes, codes, List, [], ◌∷◌, ◌++◌, ◌==◌, if◌then◌else◌, Option,
  none, some, is_prefix, All, Bool-cases, inl, inr, ◌≡◌, ◌≢◌, refl, ap, ◌∙◌, arith,
}
use http_storm.Regex.{Atom, lit, segment, wildcard, is_special, before_atom, read_atoms, regex}
use http_storm.Router.{Compiled, prepend, ends_name, translate, compile_from, compile_pattern}

-- A pattern read by itself: `:name` is a segment, `*` a wildcard, any other character itself. The flag
-- is set inside a name.
abbrev pub template_from : Bool → Bytes → List Atom
template_from named [] = []
template_from false (c ∷ cs) =
    let inside = template_from true cs in
    let rest = template_from false cs in
    if c == b':' then segment ∷ inside else if c == b'*' then wildcard ∷ rest else lit c ∷ rest
template_from true (c ∷ cs) =
    let inside = template_from true cs in
    let rest = template_from false cs in if ends_name c then lit c ∷ rest else inside

abbrev pub template : Bytes → List Atom
template = template_from false

-- The pattern has no character of the regex grammar but those that compile_pattern translates.
abbrev pub is_plain : ℕ → Bool
is_plain c = not (is_special c) || (c == b'*' || (c == b'.' || c == b'?'))

abbrev pub IsPlain : Bytes → Type 0
IsPlain = All (λ c. is_plain c ≡ true)

abbrev flag_of : Option Bytes → Bool
flag_of none = false
flag_of (some name) = true

-- The text of a compiled pattern is not empty: it ends in `$`.
record StartsWith (text : Bytes) : Type 0 where
  first : ℕ
  others : Bytes
  split : text ≡ first ∷ others

StartsWith-prepend :
    (xs : Bytes) (c : Compiled) → StartsWith c.text → StartsWith (prepend xs c).text
StartsWith-prepend [] c s = s
StartsWith-prepend (x ∷ xs) c s = record { first = x; others = xs ++ c.text; split = refl }

compile_from-StartsWith : (o : Option Bytes) (cs : Bytes) → StartsWith (compile_from o cs).text
unfolding compile_from
compile_from-StartsWith none [] = record { first = b'$'; others = []; split = refl }
compile_from-StartsWith (some name) [] = record { first = b'$'; others = []; split = refl }
compile_from-StartsWith none (c ∷ cs) = elim (Bool-cases (c == b':')) [
  | inl colon ↦ rw colon (
      StartsWith-prepend (codes "([^/]+)") (compile_from (some []) cs)
        (compile_from-StartsWith (some []) cs))
  | inr other ↦
      rw other
        (StartsWith-prepend (translate c) (compile_from none cs) (compile_from-StartsWith none cs))
]
compile_from-StartsWith (some name) (c ∷ cs) = elim (Bool-cases (ends_name c)) [
  | inl ended ↦
      rw ended
        (StartsWith-prepend (translate c) (compile_from none cs) (compile_from-StartsWith none cs))
  | inr longer ↦ rw longer (compile_from-StartsWith (some (name ++ c ∷ [])) cs)
]

read-segment :
    (t : Bytes) → read_atoms 0 (codes "([^/]+)" ++ t) ≡ before_atom segment (read_atoms 0 t)
unfolding read_atoms is_prefix
read-segment t = refl

read-wildcard :
    (t : Bytes) → read_atoms 0 (codes "(.*)" ++ t) ≡ before_atom wildcard (read_atoms 0 t)
unfolding read_atoms is_prefix
read-wildcard t = refl

plain_tests : (c : ℕ) → is_special c ≡ false → ((b'(' == c) ≡ false) × ((c == b'\\') ≡ false)
plain_tests c h = (ground arith, ground arith)

read-plain :
    (c d : ℕ) (cs : Bytes)
    → is_special c ≡ false
    → read_atoms 0 (c ∷ d ∷ cs) ≡ before_atom (lit c) (read_atoms 0 (d ∷ cs))
unfolding read_atoms is_prefix
read-plain c d cs h =
    let (open_paren, backslash) = plain_tests c h in rw (h, open_paren, backslash) refl

translate-plain : (c : ℕ) → c ≢ b'*' → c ≢ b'.' → c ≢ b'?' → translate c ≡ c ∷ []
translate-plain c h k l = ground arith

special-plain : (c : ℕ) → is_plain c ≡ true → c ≢ b'*' → c ≢ b'.' → c ≢ b'?' → is_special c ≡ false
special-plain c p h k l = ground arith

read-translate :
    (c : ℕ) (t : Bytes)
    → StartsWith t
    → c ≢ b'*'
    → is_plain c ≡ true
    → read_atoms 0 (translate c ++ t) ≡ before_atom (lit c) (read_atoms 0 t)
read-translate c t s h p = elim (ℕ_discrete c b'.') [
  | yes dot ↦ rw dot (unfold read_atoms is_prefix in refl)
  | no not_dot ↦ elim (ℕ_discrete c b'?') [
    | yes mark ↦ rw mark (unfold read_atoms is_prefix in refl)
    | no not_mark ↦
        rw (translate-plain c h not_dot not_mark, s.split)
          (read-plain c s.first s.others (special-plain c p h not_dot not_mark))
  ]
]

read-translated :
    (c : ℕ) (t : Bytes)
    → StartsWith t
    → (c == b'*') ≡ false
    → is_plain c ≡ true
    → read_atoms 0 (
        (if false
          then codes "(.*)"
          else if c == b'.'
          then codes "\\."
          else if c == b'?'
          then codes "\\?"
          else c ∷ [])
        ++ t)
      ≡ before_atom (lit c) (read_atoms 0 t)
read-translated c t s h p = rw h at (read-translate c t s (λ e. ground arith) p)

read-compiled :
    (o : Option Bytes) (cs : Bytes)
    → IsPlain cs
    → read_atoms 0 (compile_from o cs).text ≡ some (template_from (flag_of o) cs)
unfolding compile_from
read-compiled none [] h = unfold read_atoms in refl
read-compiled (some name) [] h = unfold read_atoms in refl
read-compiled none (c ∷ cs) (h, hs) =
    let rest = read-compiled none cs hs in
    elim (Bool-cases (c == b':')) [
      | inl colon ↦ rw colon (
          read-segment (compile_from (some []) cs).text
          ∙ ap (before_atom segment) (read-compiled (some []) cs hs))
      | inr no_colon ↦ elim (Bool-cases (c == b'*')) [
        | inl star ↦
            rw (no_colon, star)
              (read-wildcard (compile_from none cs).text ∙ ap (before_atom wildcard) rest)
        | inr no_star ↦
            rw (no_colon, no_star)
              (read-translated c (compile_from none cs).text (compile_from-StartsWith none cs)
                  no_star h
                ∙ ap (before_atom (lit c)) rest)
      ]
    ]
read-compiled (some name) (c ∷ cs) (h, hs) =
    let longer = read-compiled (some (name ++ c ∷ [])) cs hs in
    let rest = read-compiled none cs hs in
    elim (Bool-cases (ends_name c)) [
      | inl ended ↦ rw ended (
          read-translate c (compile_from none cs).text (compile_from-StartsWith none cs)
            (λ e. ground arith) h
          ∙ ap (before_atom (lit c)) rest)
      | inr inside ↦ rw inside longer
    ]

-- On a pattern whose only characters of the regex grammar are `*`, `.` and `?`, the regex that
-- compile_pattern builds is the pattern read by itself: a segment for each `:name`, a wildcard for
-- each `*`, and any other character for itself.
pub regex-compile_pattern :
    (pattern : Bytes)
    → IsPlain pattern
    → regex (compile_pattern pattern).text ≡ some (template pattern)
unfolding compile_pattern regex
regex-compile_pattern pattern h = read-compiled none pattern h
