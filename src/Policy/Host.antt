-- ===== src/Policy/Host.antt =====
-- `canonicalHost`, `matchHost` and `hostRank` (internal/policy/glob.go).
pub mod Canonical
pub mod Cover
use agent_creance.Prelude.{
  ℕ, suc, Bool, true, false, ◌&&◌, List, [], ◌∷◌, ◌++◌, Option, none, some, Bytes, codes, ◌≡◌, ◌⊎◌,
  if◌then◌else◌, ◌==◌, leb, bytes_eq, take, drop, tail,
}
use agent_creance.Strings.{
  has_prefix, has_suffix, to_lower, last_index, count_byte, trim_suffix_byte,
}

all_digits_from : Bytes → Bool
all_digits_from [] = true
all_digits_from (c ∷ s) = if leb b'0' c && leb c b'9' then all_digits_from s else false

unfoldable pub is_all_digits : Bytes → Bool
unfolding all_digits_from
is_all_digits [] = false
is_all_digits (c ∷ s) = all_digits_from (c ∷ s)

strip_port : Bytes → Bytes
unfolding is_all_digits
strip_port host = elim (last_index b':' host) [
  | none ↦ host
  | some i ↦
      if count_byte b':' host == 1 && is_all_digits (drop (suc i) host) then take i host else host
]

unfoldable pub canonical_host : Bytes → Bytes
unfolding strip_port
canonical_host host = trim_suffix_byte b'.' (strip_port (to_lower host))

abbrev pub any_host : Bytes
any_host = codes "*"

abbrev pub wildcard : Bytes
wildcard = codes "*."

unfoldable pub match_host : Bytes → Bytes → Bool
match_host pattern host =
    let p = to_lower pattern in
    let h = to_lower host in
    if bytes_eq p any_host
    then true
    else if has_prefix p wildcard
    then has_suffix h (tail p)
    else bytes_eq p h

unfoldable pub host_rank : Bytes → ℕ
host_rank host = if bytes_eq host any_host then 0 else if has_prefix host wildcard then 1 else 2

-- What a host pattern covers, up to case: everything, the hosts that end in a dot and the suffix,
-- or itself.
abbrev pub HostCovers : Bytes → Bytes → Type 0
HostCovers pattern host =
    (to_lower pattern ≡ any_host)
    ⊎ ((suffix : Bytes) × (before : Bytes) × (to_lower pattern ≡ wildcard ++ suffix)
        × (to_lower host ≡ before ++ b'.' ∷ suffix))
    ⊎ (to_lower pattern ≡ to_lower host)
