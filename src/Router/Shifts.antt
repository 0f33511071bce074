-- ===== src/Router/Shifts.antt =====
-- A wildcard before a parameter, in HTTP SERVER/HTTP Server/src/router.cpp: compile_pattern makes a group of
-- `*`, and match binds the names to the groups by position.
use mathlib.Core.List.{append-nil, append_assoc}
use http_storm.Common.{
  ℕ, Bool, true, false, not, ◌&&◌, Bytes, Dict, insert, List, [], ◌∷◌, ◌++◌, ◌==◌, Option, none,
  some, map, All, Option-cases, inl, inr, ◌≡◌, refl, sym, ap, ◌∙◌, arith,
}
use http_storm.Http.{get}
use http_storm.Regex.{Atom, lit, segment, wildcard, Captures, is_special, regex_match}
use http_storm.Regex.Matching.{Matches, done, char, any, group, regex_match_sound}
use http_storm.Router.{
  Route, RouteHandler, RouteMatch, Router, empty_router, ends_name, compile_from, compile_pattern,
  bind_params, add_route, match_from, match,
}
use http_storm.Router.Patterns.{template_from, template, IsPlain, regex-compile_pattern}

-- What a path looks like that matches fixed text, a wildcard, a slash and a segment.
record Shifted (fixed path : Bytes) (cs : Captures) : Type 0 where
  taken : Bytes
  last : Bytes
  cut : path ≡ fixed ++ taken ++ b'/' ∷ last
  groups : cs ≡ taken ∷ last ∷ []

abbrev pub shifted : Bytes → List Atom
shifted fixed = map lit fixed ++ wildcard ∷ lit b'/' ∷ segment ∷ []

Matches-Shifted :
    (fixed : Bytes) {path : Bytes} {cs : Captures}
    → Matches (shifted fixed) path cs
    → Shifted fixed path cs
Matches-Shifted [] (any taken h (char e (group x text hs done f)) g) = record {
  taken = taken;
  last = x ∷ text;
  cut = g ∙ ap (◌++◌ taken) (rw (e, f, append-nil (x ∷ text)) refl);
  groups = refl;
}
Matches-Shifted (p ∷ ps) (char {xs} {x} e m) =
    let s = Matches-Shifted ps m in
    record {
      taken = s.taken;
      last = s.last;
      cut = ap (λ (y : ℕ). y ∷ xs) e ∙ ap (◌∷◌ p) s.cut;
      groups = s.groups;
    }

bind_params-shifted :
    (fixed path name : Bytes) (cs : Captures)
    → regex_match (shifted fixed) path ≡ some cs
    → (taken : Bytes) × (last : Bytes) × (path ≡ fixed ++ taken ++ b'/' ∷ last)
      × (bind_params (name ∷ []) cs [] ≡ (name, taken) ∷ [])
unfolding bind_params insert
bind_params-shifted fixed path name cs e =
    let s = Matches-Shifted fixed (regex_match_sound (shifted fixed) path cs e) in
    (s.taken, s.last, s.cut, ap (λ (c : Captures). bind_params (name ∷ []) c []) s.groups)

-- a character that stands for itself in a pattern, and begins no parameter
abbrev pub is_verbatim : ℕ → Bool
is_verbatim c = not (is_special c) && not (c == b':')

-- a character of a parameter's name
abbrev pub is_name : ℕ → Bool
is_name c = not (is_special c) && not (c == b'/')

-- `*`, a slash and `:name`
abbrev pub shifting : Bytes → Bytes
shifting name = b'*' ∷ b'/' ∷ b':' ∷ name

name-IsPlain : (name : Bytes) → All (λ c. is_name c ≡ true) name → IsPlain name
name-IsPlain [] h = tt
name-IsPlain (c ∷ name) (h, hs) = (ground arith, name-IsPlain name hs)

shifting-IsPlain :
    (fixed name : Bytes)
    → All (λ c. is_verbatim c ≡ true) fixed
    → All (λ c. is_name c ≡ true) name
    → IsPlain (fixed ++ shifting name)
shifting-IsPlain [] name h k = (refl, (refl, (refl, name-IsPlain name k)))
shifting-IsPlain (c ∷ fixed) name (h, hs) k = (ground arith, shifting-IsPlain fixed name hs k)

name_ends : (c : ℕ) → is_name c ≡ true → ends_name c ≡ false
name_ends c h = ground arith

verbatim_tests : (c : ℕ) → is_verbatim c ≡ true → ((c == b':') ≡ false) × ((c == b'*') ≡ false)
verbatim_tests c h = (ground arith, ground arith)

template_from-name :
    (name : Bytes) → All (λ c. is_name c ≡ true) name → template_from true name ≡ []
template_from-name [] h = refl
template_from-name (c ∷ name) (h, hs) = rw (name_ends c h) (template_from-name name hs)

template-shifting :
    (fixed name : Bytes)
    → All (λ c. is_verbatim c ≡ true) fixed
    → All (λ c. is_name c ≡ true) name
    → template (fixed ++ shifting name) ≡ shifted fixed
template-shifting [] name h k =
    ap (λ (rest : List Atom). wildcard ∷ lit b'/' ∷ segment ∷ rest) (template_from-name name k)
template-shifting (c ∷ fixed) name (h, hs) k =
    let (colon, star) = verbatim_tests c h in
    rw (colon, star) (ap (λ (rest : List Atom). lit c ∷ rest) (template-shifting fixed name hs k))

names-named :
    (read name : Bytes)
    → All (λ c. is_name c ≡ true) name
    → (compile_from (some read) name).names ≡ (read ++ name) ∷ []
unfolding compile_from
names-named read [] h = rw (append-nil read) refl
names-named read (c ∷ name) (h, hs) = rw (name_ends c h) (
    names-named (read ++ c ∷ []) name hs
    ∙ ap (λ (n : Bytes). n ∷ []) (append_assoc read (c ∷ []) name))

names-shifting :
    (fixed name : Bytes)
    → All (λ c. is_verbatim c ≡ true) fixed
    → All (λ c. is_name c ≡ true) name
    → (compile_from none (fixed ++ shifting name)).names ≡ name ∷ []
unfolding compile_from
names-shifting [] name h k = names-named [] name k
names-shifting (c ∷ fixed) name (h, hs) k =
    rw ((verbatim_tests c h).0) (names-shifting fixed name hs k)

names_bound :
    (fixed name : Bytes)
    → All (λ c. is_verbatim c ≡ true) fixed
    → All (λ c. is_name c ≡ true) name
    → (compile_pattern (fixed ++ shifting name)).names ≡ name ∷ []
unfolding compile_pattern
names_bound fixed name h k = names-shifting fixed name h k

module _ {ℓ} {R : Type ℓ} (fixed name : Bytes) (handler : RouteHandler R) where
  -- the route that the pattern makes
  abbrev shifted_route : Route R
  shifted_route = record {
    method = get;
    pattern = fixed ++ shifting name;
    regex_pattern = shifted fixed;
    param_names = name ∷ [];
    handler = handler;
    is_parametric = true;
  }

  -- the router that has the route alone
  abbrev shifted_router : Router R
  shifted_router = record (empty_router R) { routes = shifted_route ∷ [] }

  params_of : Option (RouteMatch R) → Dict Bytes
  params_of none = []
  params_of (some found) = found.params

  match-shifted_router :
      (path : Bytes) (o : Option Captures)
      → regex_match (shifted fixed) path ≡ o
      → match shifted_router get path ≡ elim o [
        | none ↦ none
        | some cs ↦ some (record { handler = handler; params = bind_params (name ∷ []) cs [] })
      ]
  unfolding match match_from
  match-shifted_router path none g = rw (g, match_from) refl
  match-shifted_router path (some cs) g = rw (g, match_from) refl

  accepted_route :
      All (λ c. is_verbatim c ≡ true) fixed
      → All (λ c. is_name c ≡ true) name
      → add_route get (fixed ++ shifting name) handler (empty_router R) ≡ some shifted_router
  unfolding add_route
  accepted_route h k =
      let compiled =
        regex-compile_pattern (fixed ++ shifting name) (shifting-IsPlain fixed name h k)
        ∙ ap some (template-shifting fixed name h k) in
      rw (compiled, add_route, names_bound fixed name h k) refl

  -- A wildcard takes the place of a parameter: if the pattern of a router's only route is fixed text without
  -- colons and characters of the regex grammar, then `*`, a slash and `:name`, and the router matches a
  -- path, the path is the fixed text, some text, a slash and more, and the name is bound to the text before
  -- the slash, which the wildcard took.
  pub match-add_route :
      All (λ c. is_verbatim c ≡ true) fixed
      → All (λ c. is_name c ≡ true) name
      → (router : Router R)
      → add_route get (fixed ++ shifting name) handler (empty_router R) ≡ some router
      → (path : Bytes) (found : RouteMatch R) → match router get path ≡ some found
      → (taken : Bytes) × (last : Bytes) × (path ≡ fixed ++ taken ++ b'/' ∷ last)
        × (found.params ≡ (name, taken) ∷ [])
  unfolding params_of
  match-add_route h k router added path found e =
      let accepted = accepted_route h k in
      let same : router ≡ shifted_router = cc in
      let e' : match shifted_router get path ≡ some found =
        ap (λ (r : Router R). match r get path) (sym same) ∙ e in
      elim (Option-cases (regex_match (shifted fixed) path)) [
        | inl g ↦ absurd (let k = sym (match-shifted_router path none g) ∙ e' in cc)
        | inr (cs, g) ↦
            let k = sym e' ∙ match-shifted_router path (some cs) g in
            let (taken, last, cut, binds) = bind_params-shifted fixed path name cs g in
            (taken, last, cut, ap params_of k ∙ binds)
      ]
