-- ===== src/Regex/Matching.antt =====
-- regex_match decides a relation between a pattern, a text and its captures.
use mathlib.Core.List.{append_assoc, append-nil}
use mathlib.Core.Option
use mathlib.Core.Option.{some-injective}
use http_storm.Common.{
  ℕ, Bool, true, Bytes, List, [], ◌∷◌, ◌++◌, Option, some, Option-cases, Bool-cases, inl, inr, ◌≡◌,
  refl, sym, subst, ap, ◌∙◌, arith, All,
}
use http_storm.Regex.{
  Atom, lit, segment, wildcard, not_slash, not_newline, Captures, capture, repeat, regex_match,
}

abbrev pub AllIn : (ℕ → Bool) → Bytes → Type 0
AllIn class = All (λ c. class c ≡ true)

-- The texts that a pattern matches, and what its groups capture.
pub data Matches : List Atom → Bytes → Captures → Type 0 where
  done : Matches [] [] []
  char :
      {atoms : List Atom} {xs : Bytes} {cs : Captures} {c x : ℕ}
      → x ≡ c
      → Matches atoms xs cs
      → Matches (lit c ∷ atoms) (x ∷ xs) cs
  group :
      {atoms : List Atom} {xs : Bytes} {cs : Captures} (x : ℕ) (text : Bytes) {all : Bytes}
      → AllIn not_slash (x ∷ text)
      → Matches atoms xs cs
      → all ≡ (x ∷ text) ++ xs
      → Matches (segment ∷ atoms) all ((x ∷ text) ∷ cs)
  any :
      {atoms : List Atom} {xs : Bytes} {cs : Captures} (text : Bytes) {all : Bytes}
      → AllIn not_newline text
      → Matches atoms xs cs
      → all ≡ text ++ xs
      → Matches (wildcard ∷ atoms) all (text ∷ cs)

module _ (class : ℕ → Bool) (rest : Bytes → Option Captures) where
  -- What a repetition takes of a text, and what the rest captures behind it.
  record Repeats (text xs : Bytes) (cs : Captures) : Type 0 where
    more : Bytes
    after : Bytes
    captured : Captures
    cut : xs ≡ more ++ after
    in_class : AllIn class more
    goes_on : rest after ≡ some captured
    captures : cs ≡ (text ++ more) ∷ captured

  repeat-stop :
      (text xs : Bytes) (cs : Captures) → capture text (rest xs) ≡ some cs → Repeats text xs cs
  repeat-stop text xs cs e =
      let (ds, goes_on, same) = (Option.map-eq-some_iff _ _).0 e in
      record {
        more = [];
        after = xs;
        captured = ds;
        cut = refl;
        in_class = tt;
        goes_on = goes_on;
        captures = sym same ∙ ap (λ (t : Bytes). t ∷ ds) (sym (append-nil text));
      }

  repeat-more :
      (text : Bytes) (x : ℕ) (xs : Bytes) (cs : Captures)
      → class x ≡ true
      → Repeats (text ++ x ∷ []) xs cs
      → Repeats text (x ∷ xs) cs
  repeat-more text x xs cs h r = record {
    more = x ∷ r.more;
    after = r.after;
    captured = r.captured;
    cut = ap (◌∷◌ x) r.cut;
    in_class = (h, r.in_class);
    goes_on = r.goes_on;
    captures = r.captures ∙ ap (λ (t : Bytes). t ∷ r.captured) (append_assoc text (x ∷ []) r.more);
  }

  repeat_sound :
      (text xs : Bytes) (cs : Captures) → repeat class rest text xs ≡ some cs → Repeats text xs cs
  unfolding repeat
  repeat_sound text [] cs e = repeat-stop text [] cs e
  repeat_sound text (x ∷ xs) cs e = elim (Bool-cases (class x)) [
    | inr out ↦ repeat-stop text (x ∷ xs) cs (rw out at e)
    | inl within ↦ elim (Option-cases (repeat class rest (text ++ x ∷ []) xs)) [
      | inl short ↦ repeat-stop text (x ∷ xs) cs (ground arith)
      | inr (ds, long) ↦
          repeat-more text x xs cs within (repeat_sound (text ++ x ∷ []) xs cs (ground arith))
    ]
  ]

  repeat-stops :
      (text xs : Bytes) (ds : Captures)
      → rest xs ≡ some ds
      → (cs : Captures) × (repeat class rest text xs ≡ some cs)
  unfolding repeat
  repeat-stops text [] ds e = (text ∷ ds, ground arith)
  repeat-stops text (x ∷ xs) ds e = elim (Option-cases (repeat class rest (text ++ x ∷ []) xs)) [
    | inl short ↦ (text ∷ ds, ground arith)
    | inr (cs, long) ↦ elim (Bool-cases (class x)) [
      | inl within ↦ (cs, ground arith)
      | inr out ↦ (text ∷ ds, ground arith)
    ]
  ]

  repeat_complete :
      (text more after : Bytes) (ds : Captures)
      → AllIn class more
      → rest after ≡ some ds
      → (cs : Captures) × (repeat class rest text (more ++ after) ≡ some cs)
  unfolding repeat
  repeat_complete text [] after ds h e = repeat-stops text after ds e
  repeat_complete text (x ∷ more) after ds (h, hs) e =
      let (cs, f) = repeat_complete (text ++ x ∷ []) more after ds hs e in (cs, ground arith)

pub regex_match_sound :
    (atoms : List Atom) (xs : Bytes) (cs : Captures)
    → regex_match atoms xs ≡ some cs
    → Matches atoms xs cs
unfolding regex_match
regex_match_sound [] [] cs e = subst (Matches [] []) (some-injective [] cs e) done
regex_match_sound [] (x ∷ xs) cs e = cc
regex_match_sound (lit c ∷ atoms) [] cs e = cc
regex_match_sound (lit c ∷ atoms) (x ∷ xs) cs e =
    char (ground arith) (regex_match_sound atoms xs cs (ground arith))
regex_match_sound (segment ∷ atoms) [] cs e = cc
regex_match_sound (segment ∷ atoms) (x ∷ xs) cs e =
    let r = repeat_sound not_slash (regex_match atoms) (x ∷ []) xs cs (ground arith) in
    subst (Matches (segment ∷ atoms) (x ∷ xs)) (sym r.captures) (
      group x r.more ((ground arith), r.in_class)
        (regex_match_sound atoms r.after r.captured r.goes_on) (ap (◌∷◌ x) r.cut))
regex_match_sound (wildcard ∷ atoms) xs cs e =
    let r = repeat_sound not_newline (regex_match atoms) [] xs cs e in
    subst (Matches (wildcard ∷ atoms) xs) (sym r.captures)
      (any r.more r.in_class (regex_match_sound atoms r.after r.captured r.goes_on) r.cut)

pub regex_match_complete :
    {atoms : List Atom} {xs : Bytes} {cs : Captures}
    → Matches atoms xs cs
    → (ds : Captures) × (regex_match atoms xs ≡ some ds)
unfolding regex_match
regex_match_complete done = ([], refl)
regex_match_complete (char {c} {x} e m) = let (ds, f) = regex_match_complete m in (ds, ground arith)
regex_match_complete (group {atoms} {xs} x text {all} (h, hs) m e) =
    let (ds, f) = regex_match_complete m in
    let (cs, g) = repeat_complete not_slash (regex_match atoms) (x ∷ []) text xs ds hs f in
    (cs, rw e (ground arith))
regex_match_complete (any {atoms} {xs} text {all} h m e) =
    let (ds, f) = regex_match_complete m in
    let (cs, g) = repeat_complete not_newline (regex_match atoms) [] text xs ds h f in (cs, rw e g)
