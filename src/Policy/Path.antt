-- ===== src/Policy/Path.antt =====
-- `splitPath`, `matchSegments`, `matchPath` and `matchMethod` (internal/policy/glob.go).
pub mod Cover
use agent_creance.Prelude.{
  Bool, true, false, ◌&&◌, ◌||◌, List, [], ◌∷◌, ◌++◌, Option, none, some, Bytes, codes, ◌≡◌, ◌≢◌,
  ◌⊎◌, if◌then◌else◌, bytes_eq,
}
use agent_creance.Strings.{trim, split}
use agent_creance.Policy.Glob.{match_segment_glob, GlobMatches}

unfoldable pub split_path : Bytes → List Bytes
split_path p = let trimmed = trim b'/' p in if bytes_eq trimmed [] then [] else split b'/' trimmed

abbrev pub any_segments : Bytes
any_segments = codes "**"

unfoldable pub match_segments : List Bytes → List Bytes → Bool
match_segments [] path = true
match_segments (p ∷ pat) [] = if bytes_eq p any_segments then match_segments pat [] else false
match_segments (p ∷ pat) (s ∷ path) =
    let without = match_segments pat (s ∷ path) in
    let again = match_segments (p ∷ pat) path in
    let onward = match_segments pat path in
    if bytes_eq p any_segments
    then (if without then true else again)
    else if match_segment_glob p s
    then onward
    else false

unfoldable pub match_path : Bytes → Bytes → Bool
unfolding match_segments split_path
match_path pattern path = match_segments (split_path pattern) (split_path path)

is_member : Bytes → List Bytes → Bool
is_member m [] = false
is_member m (x ∷ xs) = if bytes_eq x m then true else is_member m xs

unfoldable pub match_method : Option (List Bytes) → Bytes → Bool
unfolding is_member
match_method none method = true
match_method (some methods) method = is_member method methods

-- What a list of pattern segments covers: "**" stands for any run of segments, every other one for
-- one segment that its glob matches, and what follows is under the pattern.
abbrev pub SegmentsCover : List Bytes → List Bytes → Type 0
SegmentsCover [] path = Unit
SegmentsCover (p ∷ pat) path =
    (p ≡ any_segments)
      × ((run : List Bytes) × (rest : List Bytes) × (path ≡ run ++ rest) × SegmentsCover pat rest)
    ⊎ (p ≢ any_segments)
      × ((s : Bytes) × (rest : List Bytes) × (path ≡ s ∷ rest)
          × GlobMatches p s
          × SegmentsCover pat rest)
