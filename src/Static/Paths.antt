-- ===== src/Static/Paths.antt =====
-- sanitize_path confines a request to the root directory.
use mathlib.Core.List.{append_assoc, append-nil}
use http_storm.Common.{
  ℕ, ◌||◌, Bytes, codes, List, [], ◌∷◌, ◌++◌, ◌≡◌, ◌≢◌, refl, sym, subst, ap, ◌∙◌, arith, equal,
  equal_iff, All, All-append, Bool-cases, inl, inr, Without,
}
use http_storm.Static.{
  last_segment, segments_from, segments, pop_back, push_segment, resolve_segments, join_onto,
  strip_slash, sanitize_path, path_join, as_directory,
}

-- A part that names an entry of the directory that it is joined to, and no other place.
pub record IsSafe (part : Bytes) : Type 0 where
  pub ne_nil : part ≢ []
  pub ne_dot : part ≢ codes "."
  pub ne_dots : part ≢ codes ".."
  pub no_slash : Without b'/' part

segments_from-no_slash :
    (cur xs : Bytes) → Without b'/' cur → All (Without b'/') (segments_from cur xs)
unfolding segments_from
segments_from-no_slash [] [] h = tt
segments_from-no_slash (c ∷ cur) [] h = (h, tt)
segments_from-no_slash cur (x ∷ xs) h = ground (
  arith,
  segments_from-no_slash [] xs tt,
  segments_from-no_slash (cur ++ x ∷ []) xs,
  All-append (λ (y : ℕ). y ≢ b'/') cur (x ∷ []) h,
)

pop_back-All : (parts : List Bytes) → All IsSafe parts → All IsSafe (pop_back parts)
unfolding pop_back
pop_back-All [] h = tt
pop_back-All (p ∷ []) h = tt
pop_back-All (p ∷ q ∷ ps) (h, hs) = (h, pop_back-All (q ∷ ps) hs)

push_segment-All :
    (parts : List Bytes) (s : Bytes)
    → All IsSafe parts
    → Without b'/' s
    → All IsSafe (push_segment parts s)
unfolding push_segment
push_segment-All parts s h k = elim (Bool-cases (equal s (codes ".") || equal s [])) [
  | inl skipped ↦ rw skipped h
  | inr kept ↦ elim (Bool-cases (equal s (codes ".."))) [
    | inl up ↦ rw (kept, up) (pop_back-All parts h)
    | inr name ↦
        rw (kept, name)
          (All-append IsSafe parts (s ∷ []) h (
            record {
              ne_nil = λ e. ground (arith, equal_iff s []);
              ne_dot = λ e. ground (arith, equal_iff s (codes "."));
              ne_dots = λ e. ground (arith, equal_iff s (codes ".."));
              no_slash = k;
            },
            tt,
          ))
  ]
]

resolve_segments-All :
    (parts ss : List Bytes)
    → All IsSafe parts
    → All (Without b'/') ss
    → All IsSafe (resolve_segments parts ss)
unfolding resolve_segments
resolve_segments-All parts [] h k = h
resolve_segments-All parts (s ∷ ss) h (k, ks) =
    resolve_segments-All (push_segment parts s) ss (push_segment-All parts s h k) ks

-- the parts that the result is joined of
abbrev pub parts_of : Bytes → List Bytes
parts_of url_path = resolve_segments [] (segments (strip_slash url_path))

parts_of-All : (url_path : Bytes) → All IsSafe (parts_of url_path)
parts_of-All p = resolve_segments-All [] _ tt (segments_from-no_slash [] (strip_slash p) tt)

-- what joining appends to a result that is not empty
abbrev tail_text : List Bytes → Bytes
tail_text [] = []
tail_text (p ∷ ps) = b'/' ∷ p ++ tail_text ps

join_onto-tail :
    (c : ℕ) (cs : Bytes) (parts : List Bytes)
    → join_onto (c ∷ cs) parts ≡ (c ∷ cs) ++ tail_text parts
unfolding join_onto
join_onto-tail c cs [] = sym (append-nil (c ∷ cs))
join_onto-tail c cs (p ∷ ps) =
    join_onto-tail c (cs ++ b'/' ∷ p) ps ∙ append_assoc (c ∷ cs) (b'/' ∷ p) (tail_text ps)

segments_from-slash :
    (cur name rest : Bytes)
    → Without b'/' name
    → segments_from cur (name ++ b'/' ∷ rest) ≡ (cur ++ name) ∷ segments rest
unfolding segments_from
segments_from-slash cur [] rest h = rw (append-nil cur) refl
segments_from-slash cur (x ∷ xs) rest (h, hs) =
    ground (arith, segments_from-slash (cur ++ x ∷ []) xs rest hs, append_assoc cur (x ∷ []) xs)

segments_from-last :
    (cur name : Bytes) → Without b'/' name → segments_from cur name ≡ last_segment (cur ++ name)
unfolding segments_from
segments_from-last cur [] h = rw (append-nil cur) refl
segments_from-last cur (x ∷ xs) (h, hs) =
    ground (arith, segments_from-last (cur ++ x ∷ []) xs hs, append_assoc cur (x ∷ []) xs)

last_segment-ne_nil : (name : Bytes) → name ≢ [] → last_segment name ≡ name ∷ []
last_segment-ne_nil [] h = absurd (h refl)
last_segment-ne_nil (c ∷ cs) h = refl

segments-tail :
    (name : Bytes) (parts : List Bytes)
    → IsSafe name
    → All IsSafe parts
    → segments (name ++ tail_text parts) ≡ name ∷ parts
segments-tail name [] s h =
    rw (append-nil name) (segments_from-last [] name s.no_slash ∙ last_segment-ne_nil name s.ne_nil)
segments-tail name (p ∷ ps) s (h, hs) =
    segments_from-slash [] name (p ++ tail_text ps) s.no_slash
    ∙ ap (◌∷◌ name) (segments-tail p ps h hs)

-- Joining and splitting again gives the parts back.
segments-join : (parts : List Bytes) → All IsSafe parts → segments (join_onto [] parts) ≡ parts
segments-join [] h = unfold segments_from join_onto in refl
segments-join ([] ∷ ps) (s, h) = absurd (s.ne_nil refl)
segments-join ((c ∷ cs) ∷ ps) (s, h) =
    ap segments (join_first (c ∷ cs) ps ∙ join_onto-tail c cs ps) ∙ segments-tail (c ∷ cs) ps s h
  where
    join_first : (p : Bytes) (ps : List Bytes) → join_onto [] (p ∷ ps) ≡ join_onto p ps
    join_first p ps = unfold join_onto in refl

-- A path that does not begin with a slash.
abbrev IsRelative : Bytes → Type 0
IsRelative [] = Unit
IsRelative (c ∷ cs) = c ≢ b'/'

join_onto-IsRelative : (parts : List Bytes) → All IsSafe parts → IsRelative (join_onto [] parts)
join_onto-IsRelative [] h = unfold join_onto in tt
join_onto-IsRelative ([] ∷ ps) (s, h) = absurd (s.ne_nil refl)
join_onto-IsRelative ((c ∷ cs) ∷ ps) (s, h) =
    unfold join_onto in rw (join_onto-tail c cs ps) s.no_slash.0

path_join-IsRelative : (root b : Bytes) → IsRelative b → path_join root b ≡ as_directory root ++ b
unfolding path_join
path_join-IsRelative root [] h = sym (append-nil (as_directory root))
path_join-IsRelative root (c ∷ cs) h = ground arith

strip_slash-IsRelative : (b : Bytes) → IsRelative b → strip_slash b ≡ b
unfolding strip_slash
strip_slash-IsRelative [] h = refl
strip_slash-IsRelative (c ∷ cs) h = ground arith

push_segment-IsSafe :
    (parts : List Bytes) (s : Bytes) → IsSafe s → push_segment parts s ≡ parts ++ s ∷ []
unfolding push_segment
push_segment-IsSafe parts s h = ground (
  arith,
  h.ne_nil,
  h.ne_dot,
  h.ne_dots,
  equal_iff s [],
  equal_iff s (codes "."),
  equal_iff s (codes ".."),
)

resolve_segments-IsSafe :
    (parts ss : List Bytes) → All IsSafe ss → resolve_segments parts ss ≡ parts ++ ss
unfolding resolve_segments
resolve_segments-IsSafe parts [] h = sym (append-nil parts)
resolve_segments-IsSafe parts (s ∷ ss) (h, hs) =
    ap (λ x. resolve_segments x ss) (push_segment-IsSafe parts s h)
    ∙ resolve_segments-IsSafe (parts ++ s ∷ []) ss hs
    ∙ append_assoc parts (s ∷ []) ss

-- Whatever the request path, "." and "..", empty names and names with a slash never stand between the
-- slashes of the sanitized path, and the root directory joined with it is the root, with a slash at its
-- end where it is not empty and has none, followed by the sanitized path, which never replaces it.
pub sanitize_path-IsSafe :
    (root url_path : Bytes)
    → All IsSafe (segments (sanitize_path url_path))
      × (path_join root (sanitize_path url_path) ≡ as_directory root ++ sanitize_path url_path)
unfolding sanitize_path
sanitize_path-IsSafe root p = (
  subst (All IsSafe) (sym (segments-join (parts_of p) (parts_of-All p))) (parts_of-All p),
  path_join-IsRelative root _ (join_onto-IsRelative (parts_of p) (parts_of-All p)),
)

-- Sanitizing a second time changes nothing.
pub sanitize_path_idem :
    (url_path : Bytes) → sanitize_path (sanitize_path url_path) ≡ sanitize_path url_path
unfolding sanitize_path
sanitize_path_idem p = ap (join_onto []) (
    ap (λ x. resolve_segments [] (segments x))
      (strip_slash-IsRelative _ (join_onto-IsRelative (parts_of p) (parts_of-All p)))
    ∙ ap (resolve_segments []) (segments-join (parts_of p) (parts_of-All p))
    ∙ resolve_segments-IsSafe [] (parts_of p) (parts_of-All p))
