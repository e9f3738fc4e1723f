-- ===== src/Policy/Host/Canonical.antt =====
-- The spellings of one host that `canonicalHost` takes to one text.
use agent_creance.Prelude.{true, [], ◌∷◌, ◌++◌, Bytes, codes, ◌≡◌, refl, arith, ap}
use mathlib.Core.List.{append-nil, append_assoc}
use agent_creance.Strings.{to_lower, lower_byte, count_byte, trim_suffix_byte}
use agent_creance.Strings.Affix.{
  Lacks, EndsOther, trim_suffix_byte-append, trim_suffix_byte_of_EndsOther, count_byte-append,
  count_byte_of_Lacks, last_index_of_Lacks, last_index-append, take-length-append, drop-suc-append,
  Lacks-append,
}
use agent_creance.Strings.Case.{
  to_lower-append, Lacks-to_lower, EndsOther-to_lower, dot-IsUncased, colon-IsUncased,
}
use agent_creance.Policy.Host.{all_digits_from, is_all_digits, strip_port, canonical_host}

-- A host name with no port and no final dot.
abbrev pub IsBareHost : Bytes → Type 0
IsBareHost h = Lacks b':' h × EndsOther b'.' h

-- What may follow the name: nothing, the root's dot, a port, or both.
pub data HostEnding : Bytes → Type 0 where
  bare : HostEnding []
  rooted : HostEnding (codes ".")
  ported : (port : Bytes) → is_all_digits port ≡ true → HostEnding (b':' ∷ port)
  rooted_ported : (port : Bytes) → is_all_digits port ≡ true → HostEnding (b'.' ∷ b':' ∷ port)

-- `t` is the host `h` in any case, with any ending.
abbrev pub Spelling : Bytes → Bytes → Type 0
Spelling h t =
    (name : Bytes) × (ending : Bytes) × (t ≡ name ++ ending)
    × (to_lower name ≡ to_lower h)
    × HostEnding ending

digits-Lacks : (s : Bytes) → all_digits_from s ≡ true → Lacks b':' s
unfolding all_digits_from
digits-Lacks [] h = tt
digits-Lacks (c ∷ s) h = (ground arith, digits-Lacks s (ground arith))

digits-lower : (s : Bytes) → all_digits_from s ≡ true → to_lower s ≡ s
unfolding all_digits_from to_lower lower_byte
digits-lower [] h = refl
digits-lower (c ∷ s) h = ground (arith, digits-lower s)

is_all_digits→from : (s : Bytes) → is_all_digits s ≡ true → all_digits_from s ≡ true
unfolding is_all_digits
is_all_digits→from [] h = cc
is_all_digits→from (c ∷ s) h = h

strip_port_of_Lacks : (s : Bytes) → Lacks b':' s → strip_port s ≡ s
unfolding strip_port
strip_port_of_Lacks s h = rw (last_index_of_Lacks b':' s h, strip_port)

strip_port-append :
    (s port : Bytes) → Lacks b':' s → is_all_digits port ≡ true → strip_port (s ++ b':' ∷ port) ≡ s
unfolding strip_port count_byte
strip_port-append s port h d = ground (
  arith,
  last_index-append b':' s port (digits-Lacks port (is_all_digits→from port d)),
  count_byte-append b':' s (b':' ∷ port),
  count_byte_of_Lacks b':' s h,
  count_byte_of_Lacks b':' port (digits-Lacks port (is_all_digits→from port d)),
  drop-suc-append s b':' port,
  take-length-append s (b':' ∷ port),
)

to_lower_ported : (port : Bytes) → is_all_digits port ≡ true → to_lower (b':' ∷ port) ≡ b':' ∷ port
unfolding to_lower lower_byte
to_lower_ported port d =
    ap (λ t. b':' ∷ t) (unfold to_lower lower_byte in digits-lower port (is_all_digits→from port d))

to_lower_dot : (s : Bytes) → to_lower (b'.' ∷ s) ≡ b'.' ∷ to_lower s
unfolding to_lower lower_byte
to_lower_dot s = refl

to_lower_nil : to_lower [] ≡ []
unfolding to_lower
to_lower_nil = refl

module _ (name : Bytes) (bare_name : IsBareHost name) where
  trim_bare : trim_suffix_byte b'.' name ≡ name
  trim_bare = trim_suffix_byte_of_EndsOther b'.' name bare_name.1

  dotted-Lacks : Lacks b':' (name ++ codes ".")
  dotted-Lacks = Lacks-append b':' name (codes ".") bare_name.0 (omega arith)

  canonical_ending :
      (ending : Bytes)
      → HostEnding ending
      → trim_suffix_byte b'.' (strip_port (name ++ to_lower ending)) ≡ name
  canonical_ending _ bare =
      rw (to_lower_nil, append-nil name, strip_port_of_Lacks name bare_name.0) trim_bare
  canonical_ending _ rooted =
      rw (to_lower_dot [], to_lower_nil, strip_port_of_Lacks (name ++ codes ".") dotted-Lacks)
        (trim_suffix_byte-append b'.' name)
  canonical_ending _ (ported port d) =
      rw (to_lower_ported port d, strip_port-append name port bare_name.0 d) trim_bare
  canonical_ending _ (rooted_ported port d) =
      rw
        (
          to_lower_dot (b':' ∷ port),
          to_lower_ported port d,
          ← append_assoc name (codes ".") (b':' ∷ port),
          strip_port-append (name ++ codes ".") port dotted-Lacks d,
        )
        (trim_suffix_byte-append b'.' name)

-- Every spelling of a host has one canonical form, the name in lower case.
pub canonical_host-Spelling :
    (h t : Bytes) → IsBareHost h → Spelling h t → canonical_host t ≡ to_lower h
unfolding canonical_host
canonical_host-Spelling h t (colons, dots) (name, ending, split, same, e) =
    rw (split, to_lower-append name ending, same)
      (canonical_ending (to_lower h)
        (Lacks-to_lower b':' h colon-IsUncased colons, EndsOther-to_lower b'.' h dot-IsUncased dots)
        ending e)
