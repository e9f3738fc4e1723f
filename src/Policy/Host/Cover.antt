-- ===== src/Policy/Host/Cover.antt =====
-- `matchHost` accepts exactly the hosts that the pattern covers.
use agent_creance.Prelude.{
  true, ◌∷◌, ◌++◌, Bytes, codes, ◌≡◌, ◌↔◌, bytes_eq, bytes_eq_iff, tail, arith, Bool-cases, inl,
  inr, sym, ◌∙◌,
}
use agent_creance.Strings.{has_prefix, has_suffix, to_lower}
use agent_creance.Strings.Affix.{has_prefix_iff, has_suffix_iff}
use agent_creance.Policy.Host.{match_host, any_host, wildcard, HostCovers}

-- The part of the host that `match_host` compares with a wildcard's suffix.
wildcard_covers :
    (p h rest : Bytes)
    → p ≡ wildcard ++ rest
    → has_suffix h (tail p) ≡ true
    → (before : Bytes) × (h ≡ before ++ b'.' ∷ rest)
wildcard_covers p h rest e s = (has_suffix_iff h (b'.' ∷ rest)).0 (rw e at s)

match_host→HostCovers :
    (pattern host : Bytes) → match_host pattern host ≡ true → HostCovers pattern host
unfolding match_host
match_host→HostCovers pattern host h = elim (Bool-cases (bytes_eq (to_lower pattern) any_host)) [
  | inl e ↦ inl ((bytes_eq_iff (to_lower pattern) any_host).0 e)
  | inr e ↦ elim (Bool-cases (has_prefix (to_lower pattern) wildcard)) [
    | inl w ↦
        let (rest, split) = (has_prefix_iff (to_lower pattern) wildcard).0 w in
        let (before, ends) =
          wildcard_covers (to_lower pattern) (to_lower host) rest split (ground arith) in
        inr (inl (rest, before, split, ends))
    | inr n ↦ inr (inr ((bytes_eq_iff (to_lower pattern) (to_lower host)).0 (ground arith)))
  ]
]

suffix_of_wildcard :
    (p h rest before : Bytes)
    → p ≡ wildcard ++ rest
    → h ≡ before ++ b'.' ∷ rest
    → has_suffix h (tail p) ≡ true
suffix_of_wildcard p h rest before e s = rw e ((has_suffix_iff h (b'.' ∷ rest)).1 (before, s))

wildcard-host : (p rest : Bytes) → p ≡ wildcard ++ rest → has_prefix p wildcard ≡ true
wildcard-host p rest e = (has_prefix_iff p wildcard).1 (rest, e)

-- A host equal to a wildcard pattern ends in the pattern's suffix too.
exact-host : (p h : Bytes) → p ≡ h → has_prefix p wildcard ≡ true → has_suffix h (tail p) ≡ true
exact-host p h e w =
    let (rest, split) = (has_prefix_iff p wildcard).0 w in
    suffix_of_wildcard p h rest (codes "*") split (sym e ∙ split)

HostCovers→match_host :
    (pattern host : Bytes) → HostCovers pattern host → match_host pattern host ≡ true
unfolding match_host
HostCovers→match_host pattern host (inl e) =
    ground (arith, bytes_eq_iff (to_lower pattern) any_host)
HostCovers→match_host pattern host (inr (inl (rest, before, split, ends))) = ground (
  arith,
  wildcard-host (to_lower pattern) rest split,
  suffix_of_wildcard (to_lower pattern) (to_lower host) rest before split ends,
)
HostCovers→match_host pattern host (inr (inr e)) = ground (
  arith,
  exact-host (to_lower pattern) (to_lower host) e,
  bytes_eq_iff (to_lower pattern) (to_lower host),
)

-- A host is matched exactly if the pattern covers it.
pub match_host_iff :
    (pattern host : Bytes) → (match_host pattern host ≡ true) ↔ HostCovers pattern host
match_host_iff pattern host =
    (match_host→HostCovers pattern host, HostCovers→match_host pattern host)
