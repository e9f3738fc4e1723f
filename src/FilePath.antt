-- ===== src/FilePath.antt =====
-- What the program uses of Go's package path/filepath on Unix, over byte lists.
pub mod Within
pub mod Clean
use agent_creance.Prelude.{
  Bool, true, false, not, ◌&&◌, ◌||◌, List, [], ◌∷◌, ◌++◌, map, Option, none, some, Bytes, codes,
  bytes_eq, if◌then◌else◌, ◌==◌,
}
use agent_creance.Strings.{has_prefix, split, join}
use mathlib.Core.List.{reverse}

-- filepath.IsAbs
abbrev pub is_abs : Bytes → Bool
is_abs p = has_prefix p (codes "/")

-- One element of a path, onto the elements kept so far, the last one first.
abbrev pub climb : Bool → List Bytes → List Bytes
climb rooted [] = if rooted then [] else codes ".." ∷ []
climb rooted (top ∷ kept) = if bytes_eq top (codes "..") then codes ".." ∷ top ∷ kept else kept

unfoldable pub clean_step : Bool → List Bytes → Bytes → List Bytes
clean_step rooted kept seg =
    if bytes_eq seg [] || bytes_eq seg (codes ".")
    then kept
    else if bytes_eq seg (codes "..")
    then climb rooted kept
    else seg ∷ kept

unfoldable pub clean_from : Bool → List Bytes → List Bytes → List Bytes
clean_from rooted kept [] = kept
clean_from rooted kept (seg ∷ segs) = clean_from rooted (clean_step rooted kept seg) segs

-- The elements of filepath.Clean
unfoldable pub elements : Bytes → List Bytes
unfolding clean_from clean_step
elements p = reverse (clean_from (is_abs p) [] (split b'/' p))

abbrev pub or_dot : Bytes → Bytes
or_dot [] = codes "."
or_dot (c ∷ p) = c ∷ p

-- filepath.Clean
unfoldable pub clean : Bytes → Bytes
unfolding elements
clean p =
    if is_abs p
    then codes "/" ++ join (codes "/") (elements p)
    else or_dot (join (codes "/") (elements p))

-- filepath.Join of two elements
unfoldable pub join_path : Bytes → Bytes → Bytes
unfolding clean
join_path [] [] = []
join_path [] (c ∷ q) = clean (c ∷ q)
join_path (c ∷ p) [] = clean (c ∷ p)
join_path (c ∷ p) (d ∷ q) = clean ((c ∷ p) ++ (codes "/" ++ (d ∷ q)))

-- The bytes up to the last slash
unfoldable pub up_to_slash : Bytes → Option Bytes
up_to_slash [] = none
up_to_slash (c ∷ p) = elim (up_to_slash p) [
  | some q ↦ some (c ∷ q)
  | none ↦ if c == b'/' then some (c ∷ []) else none
]

abbrev pub or_empty : Option Bytes → Bytes
or_empty none = []
or_empty (some p) = p

-- filepath.Dir
unfoldable pub dir : Bytes → Bytes
unfolding clean up_to_slash
dir p = clean (or_empty (up_to_slash p))

-- The way out of the rest of a base to the rest of a target; it fails on a base that climbs.
abbrev pub climb_out : Bytes → List Bytes → List Bytes → Option (List Bytes)
climb_out b base target =
    if bytes_eq b (codes "..")
    then none
    else some (codes ".." ∷ map (λ _. codes "..") base ++ target)

-- filepath.Rel on the elements of two paths
unfoldable pub rel_elements : List Bytes → List Bytes → Option (List Bytes)
rel_elements [] target = some target
rel_elements (b ∷ base) [] = climb_out b base []
rel_elements (b ∷ base) (t ∷ target) =
    if bytes_eq b t then rel_elements base target else climb_out b base (t ∷ target)

abbrev pub rel_text : Option (List Bytes) → Option Bytes
rel_text none = none
rel_text (some es) = some (or_dot (join (codes "/") es))

abbrev pub same_kind : Bool → Bool → Bool
same_kind true b = b
same_kind false b = not b

-- filepath.Rel
unfoldable pub rel : Bytes → Bytes → Option Bytes
rel base target =
    if same_kind (is_abs base) (is_abs target)
    then rel_text (rel_elements (elements base) (elements target))
    else none
