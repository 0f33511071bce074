-- ===== src/Static/Segments.antt =====
-- Paths as HTTP SERVER/HTTP Server/src/static_file_server.cpp takes them apart: sanitize_path, and what it
-- uses of std::filesystem::path.
use http_storm.Common.{◌||◌, Bytes, codes, List, [], ◌∷◌, ◌++◌, ◌==◌, if◌then◌else◌, equal}

-- At the end of the stream, a segment of no characters is no segment.
abbrev pub last_segment : Bytes → List Bytes
last_segment [] = []
last_segment (c ∷ cur) = (c ∷ cur) ∷ []

-- std::getline(stream, segment, '/') until the stream ends; `cur` is the segment so far.
unfoldable pub segments_from : Bytes → Bytes → List Bytes
segments_from cur [] = last_segment cur
segments_from cur (x ∷ xs) =
    let closed = cur ∷ segments_from [] xs in
    let longer = segments_from (cur ++ x ∷ []) xs in if x == b'/' then closed else longer

abbrev pub segments : Bytes → List Bytes
segments = segments_from []

unfoldable pub pop_back : List Bytes → List Bytes
pop_back [] = []
pop_back (p ∷ []) = []
pop_back (p ∷ q ∷ ps) = p ∷ pop_back (q ∷ ps)

-- One round of the loop over the segments.
unfoldable pub push_segment : List Bytes → Bytes → List Bytes
push_segment parts segment =
    if equal segment (codes ".") || equal segment []
    then parts
    else if equal segment (codes "..")
    then pop_back parts
    else parts ++ segment ∷ []

unfoldable pub resolve_segments : List Bytes → List Bytes → List Bytes
resolve_segments parts [] = parts
resolve_segments parts (s ∷ ss) = resolve_segments (push_segment parts s) ss

-- The parts, joined by `/` onto the result so far.
unfoldable pub join_onto : Bytes → List Bytes → Bytes
join_onto result [] = result
join_onto [] (part ∷ parts) = join_onto part parts
join_onto (c ∷ cs) (part ∷ parts) = join_onto ((c ∷ cs) ++ b'/' ∷ part) parts

unfoldable pub strip_slash : Bytes → Bytes
strip_slash [] = []
strip_slash (c ∷ cs) = if c == b'/' then cs else c ∷ cs

unfoldable pub sanitize_path : Bytes → Bytes
sanitize_path url_path = join_onto [] (resolve_segments [] (segments (strip_slash url_path)))

-- The path that a relative one is appended to: std::filesystem::path has a separator at the end of a
-- path with a filename, and none behind an empty path or behind a separator.
unfoldable pub as_directory : Bytes → Bytes
as_directory [] = []
as_directory (c ∷ []) = if c == b'/' then c ∷ [] else c ∷ b'/' ∷ []
as_directory (c ∷ d ∷ cs) = c ∷ as_directory (d ∷ cs)

-- `a / b` of std::filesystem::path on POSIX: an absolute right side replaces the left one.
unfoldable pub path_join : Bytes → Bytes → Bytes
unfolding as_directory
path_join a [] = as_directory a
path_join a (c ∷ b) = if c == b'/' then c ∷ b else as_directory a ++ c ∷ b

-- the text behind the last `/`
unfoldable pub filename_from : Bytes → Bytes → Bytes
filename_from name [] = name
filename_from name (x ∷ xs) = filename_from (if x == b'/' then [] else name ++ x ∷ []) xs

-- the text from the last dot on; `ext` is what was found so far
unfoldable pub last_dot : Bytes → Bytes → Bytes
last_dot ext [] = ext
last_dot ext (x ∷ xs) = last_dot (if x == b'.' then x ∷ xs else ext) xs

-- std::filesystem::path::extension: a name that only begins with its last dot has none.
unfoldable pub extension : Bytes → Bytes
extension path = elim (filename_from [] path) [
  | [] ↦ []
  | c ∷ cs ↦ if equal (c ∷ cs) (codes "..") then [] else last_dot [] cs
]
