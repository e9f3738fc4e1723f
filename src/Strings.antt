-- ===== src/Strings.antt =====
-- What the program uses of Go's package strings, over byte lists.
pub mod Affix
pub mod Case
use agent_creance.Prelude.{
  ℕ, suc, ◌+◌, Bool, true, false, ◌&&◌, List, [], ◌∷◌, ◌++◌, Option, none, some, Bytes, ◌==◌, leb,
  if◌then◌else◌, map, drop, length, bytes_eq,
}
use mathlib.Core.List.{reverse}

-- strings.HasPrefix
unfoldable pub has_prefix : Bytes → Bytes → Bool
has_prefix s [] = true
has_prefix [] (p ∷ ps) = false
has_prefix (c ∷ s) (p ∷ ps) = c == p && has_prefix s ps

-- strings.TrimPrefix
unfoldable pub trim_prefix : Bytes → Bytes → Bytes
trim_prefix s p = if has_prefix s p then drop (length p) s else s

-- strings.HasSuffix
unfoldable pub has_suffix : Bytes → Bytes → Bool
has_suffix [] p = bytes_eq [] p
has_suffix (c ∷ s) p = if bytes_eq (c ∷ s) p then true else has_suffix s p

-- strings.TrimSuffix for a suffix of one byte
unfoldable pub trim_suffix_byte : ℕ → Bytes → Bytes
trim_suffix_byte b [] = []
trim_suffix_byte b (c ∷ []) = if c == b then [] else c ∷ []
trim_suffix_byte b (c ∷ d ∷ s) = c ∷ trim_suffix_byte b (d ∷ s)

-- strings.ToLower on ASCII; other bytes are left alone.
unfoldable pub lower_byte : ℕ → ℕ
lower_byte c = if leb b'A' c && leb c b'Z' then c + 32 else c

unfoldable pub to_lower : Bytes → Bytes
to_lower s = map lower_byte s

-- strings.Count for a text of one byte
unfoldable pub count_byte : ℕ → Bytes → ℕ
count_byte b [] = 0
count_byte b (c ∷ s) = if c == b then suc (count_byte b s) else count_byte b s

-- strings.ContainsAny for a set of one byte
unfoldable pub contains_byte : ℕ → Bytes → Bool
contains_byte b [] = false
contains_byte b (c ∷ s) = if c == b then true else contains_byte b s

-- strings.LastIndex for a text of one byte; `none` is -1
unfoldable pub last_index : ℕ → Bytes → Option ℕ
last_index b [] = none
last_index b (c ∷ s) = elim (last_index b s) [
  | some i ↦ some (suc i)
  | none ↦ if c == b then some 0 else none
]

-- The leading bytes of strings.Trim for a cutset of one byte
unfoldable pub trim_left : ℕ → Bytes → Bytes
trim_left b [] = []
trim_left b (c ∷ s) = if c == b then trim_left b s else c ∷ s

-- strings.Trim for a cutset of one byte
unfoldable pub trim : ℕ → Bytes → Bytes
unfolding trim_left
trim b s = reverse (trim_left b (reverse (trim_left b s)))

-- strings.Split for a separator of one byte
unfoldable pub split_from : ℕ → Bytes → Bytes → List Bytes
split_from b cur [] = cur ∷ []
split_from b cur (c ∷ s) =
    let closed = cur ∷ split_from b [] s in
    let longer = split_from b (cur ++ c ∷ []) s in if c == b then closed else longer

unfoldable pub split : ℕ → Bytes → List Bytes
unfolding split_from
split b s = split_from b [] s

-- strings.Join
unfoldable pub join : Bytes → List Bytes → Bytes
join sep [] = []
join sep (s ∷ []) = s
join sep (s ∷ t ∷ rest) = s ++ sep ++ join sep (t ∷ rest)
