-- ===== src/Policy/Path/Cover.antt =====
-- The segment matcher accepts exactly the paths that the pattern covers.
use agent_creance.Prelude.{
  true, List, [], ◌∷◌, ◌++◌, Option, none, some, Bytes, ◌≡◌, ◌≢◌, refl, ◌↔◌, inl, inr, In, bytes_eq,
  bytes_eq_iff, arith, ap, Bool-cases,
}
use agent_creance.Policy.Glob.{GlobMatches}
use agent_creance.Policy.Glob.Search.{match_segment_glob_iff}
use agent_creance.Policy.Path.{
  split_path, any_segments, match_segments, match_path, is_member, match_method, SegmentsCover,
}

skip_run :
    (p : Bytes) (pat run rest : List Bytes)
    → p ≡ any_segments
    → match_segments pat rest ≡ true
    → match_segments (p ∷ pat) (run ++ rest) ≡ true
unfolding match_segments
skip_run p pat [] [] e h = ground (arith, bytes_eq_iff p any_segments)
skip_run p pat [] (s ∷ rest) e h = ground (arith, bytes_eq_iff p any_segments)
skip_run p pat (s ∷ run) rest e h =
    ground (arith, bytes_eq_iff p any_segments, skip_run p pat run rest e h)

one_segment :
    (p : Bytes) (pat : List Bytes) (s : Bytes) (rest : List Bytes)
    → p ≢ any_segments
    → GlobMatches p s
    → match_segments pat rest ≡ true
    → match_segments (p ∷ pat) (s ∷ rest) ≡ true
unfolding match_segments
one_segment p pat s rest n g h =
    ground (arith, bytes_eq_iff p any_segments, (match_segment_glob_iff p s).1.1 g)

pub SegmentsCover→match_segments :
    (pat path : List Bytes) → SegmentsCover pat path → match_segments pat path ≡ true
unfolding match_segments
SegmentsCover→match_segments [] path h = refl
SegmentsCover→match_segments (p ∷ pat) path (inl (e, (run, rest, split, more))) =
    rw split (skip_run p pat run rest e (SegmentsCover→match_segments pat rest more))
SegmentsCover→match_segments (p ∷ pat) path (inr (n, (s, rest, split, g, more))) =
    rw split (one_segment p pat s rest n g (SegmentsCover→match_segments pat rest more))

longer_run :
    (p : Bytes) (pat : List Bytes) (s : Bytes) (path : List Bytes)
    → p ≡ any_segments
    → SegmentsCover (p ∷ pat) path
    → SegmentsCover (p ∷ pat) (s ∷ path)
longer_run p pat s path e (inl (_, (run, rest, split, more))) =
    inl (e, (s ∷ run, rest, ap (λ t. s ∷ t) split, more))
longer_run p pat s path e (inr (n, _)) = absurd (n e)

pub match_segments→SegmentsCover :
    (pat path : List Bytes) → match_segments pat path ≡ true → SegmentsCover pat path
unfolding match_segments
match_segments→SegmentsCover [] path h = tt
match_segments→SegmentsCover (p ∷ pat) [] h = inl (
  ground (arith, bytes_eq_iff p any_segments),
  ([], [], refl, match_segments→SegmentsCover pat [] (ground arith)),
)
match_segments→SegmentsCover (p ∷ pat) (s ∷ path) h = elim (Bool-cases (bytes_eq p any_segments)) [
  | inl e ↦ elim (Bool-cases (match_segments pat (s ∷ path))) [
    | inl now ↦ inl (
      (bytes_eq_iff p any_segments).0 e,
      ([], s ∷ path, refl, match_segments→SegmentsCover pat (s ∷ path) now),
    )
    | inr later ↦
        longer_run p pat s path ((bytes_eq_iff p any_segments).0 e)
          (match_segments→SegmentsCover (p ∷ pat) path (ground arith))
  ]
  | inr e ↦ inr (
    ground (arith, bytes_eq_iff p any_segments),
    (
      s,
      path,
      refl,
      (match_segment_glob_iff p s).1.0 (ground arith),
      match_segments→SegmentsCover pat path (ground arith),
    ),
  )
]

-- A path is matched exactly if its segments are covered by those of the pattern.
pub match_path_iff :
    (pattern path : Bytes)
    → (match_path pattern path ≡ true) ↔ SegmentsCover (split_path pattern) (split_path path)
unfolding match_path
match_path_iff pattern path = (
  match_segments→SegmentsCover (split_path pattern) (split_path path),
  SegmentsCover→match_segments (split_path pattern) (split_path path),
)

is_member_iff : (m : Bytes) (xs : List Bytes) → (is_member m xs ≡ true) ↔ In m xs
unfolding is_member
is_member_iff m [] = ground arith
is_member_iff m (x ∷ xs) = ground (arith, bytes_eq_iff x m, is_member_iff m xs)

-- A method is admitted by an omitted list, or by standing in the list as it is spelled.
abbrev pub MethodCovers : Option (List Bytes) → Bytes → Type 0
MethodCovers none method = Unit
MethodCovers (some methods) method = In method methods

pub match_method_iff :
    (methods : Option (List Bytes)) (method : Bytes)
    → (match_method methods method ≡ true) ↔ MethodCovers methods method
unfolding match_method
match_method_iff none method = (λ _. tt, λ _. refl)
match_method_iff (some methods) method = is_member_iff method methods
