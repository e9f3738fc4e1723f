-- ===== src/Strings/Affix.antt =====
-- Prefixes, suffixes and the last index of a byte, against their meaning by `++`.
use agent_creance.Prelude.{
  ℕ, suc, ◌+◌, ◌==◌, if◌then◌else◌, sym, ◌∙◌, true, List, [], ◌∷◌, ◌++◌, none, some, Bytes, ◌≡◌,
  refl, ◌↔◌, ◌⊎◌, inl, inr, take, drop, length, bytes_eq_iff, arith, ap, ◌≢◌,
}
use agent_creance.Strings.{has_prefix, has_suffix, trim_suffix_byte, count_byte, last_index}

pub has_prefix_iff : (s p : Bytes) → (has_prefix s p ≡ true) ↔ ((rest : Bytes) × (s ≡ p ++ rest))
unfolding has_prefix
has_prefix_iff s [] = (λ _. (s, refl), λ _. refl)
has_prefix_iff [] (p ∷ ps) = (λ h. cc, λ (r, e). cc)
has_prefix_iff (c ∷ s) (p ∷ ps) =
    let (f, g) = has_prefix_iff s ps in
    (
      λ h. ((f (ground arith)).0, ground (arith, (f (ground arith)).1)),
      λ (r, e). ground (arith, g (r, ground arith)),
    )

pub has_suffix_of_append : (pre p : Bytes) → has_suffix (pre ++ p) p ≡ true
unfolding has_suffix
has_suffix_of_append [] [] = ground (arith, bytes_eq_iff [] [])
has_suffix_of_append [] (c ∷ p) = ground (arith, bytes_eq_iff (c ∷ p) (c ∷ p))
has_suffix_of_append (c ∷ pre) p = ground (arith, has_suffix_of_append pre p)

pub append_of_has_suffix : (s p : Bytes) → has_suffix s p ≡ true → (pre : Bytes) × (s ≡ pre ++ p)
unfolding has_suffix
append_of_has_suffix [] p h = ([], (bytes_eq_iff [] p).0 h)
append_of_has_suffix (c ∷ s) p h = elim (bytes_eq_cases) [
  | inl e ↦ ([], e)
  | inr e ↦ let (pre, q) = append_of_has_suffix s p e in (c ∷ pre, ap (λ t. c ∷ t) q)
]
  where
    bytes_eq_cases : (c ∷ s ≡ p) ⊎ (has_suffix s p ≡ true)
    bytes_eq_cases = ground (arith, bytes_eq_iff (c ∷ s) p)

pub has_suffix_iff : (s p : Bytes) → (has_suffix s p ≡ true) ↔ ((pre : Bytes) × (s ≡ pre ++ p))
has_suffix_iff s p = (append_of_has_suffix s p, λ (pre, e). rw e (has_suffix_of_append pre p))

-- A suffix byte is dropped once.
pub trim_suffix_byte-append : (b : ℕ) (s : Bytes) → trim_suffix_byte b (s ++ b ∷ []) ≡ s
unfolding trim_suffix_byte
trim_suffix_byte-append b [] = ground arith
trim_suffix_byte-append b (c ∷ []) = ground arith
trim_suffix_byte-append b (c ∷ d ∷ s) = ap (λ t. c ∷ t) (trim_suffix_byte-append b (d ∷ s))

-- The last byte of `s` is not `b`.
abbrev pub EndsOther : ℕ → Bytes → Type 0
EndsOther b [] = Unit
EndsOther b (c ∷ []) = c ≢ b
EndsOther b (c ∷ d ∷ s) = EndsOther b (d ∷ s)

pub trim_suffix_byte_of_EndsOther : (b : ℕ) (s : Bytes) → EndsOther b s → trim_suffix_byte b s ≡ s
unfolding trim_suffix_byte
trim_suffix_byte_of_EndsOther b [] h = refl
trim_suffix_byte_of_EndsOther b (c ∷ []) h = ground arith
trim_suffix_byte_of_EndsOther b (c ∷ d ∷ s) h =
    ap (λ t. c ∷ t) (trim_suffix_byte_of_EndsOther b (d ∷ s) h)

-- The byte stands nowhere in the text.
abbrev pub Lacks : ℕ → Bytes → Type 0
Lacks b [] = Unit
Lacks b (c ∷ s) = (c ≢ b) × Lacks b s

pub Lacks-append : (b : ℕ) (s t : Bytes) → Lacks b s → Lacks b t → Lacks b (s ++ t)
Lacks-append b [] t h k = k
Lacks-append b (c ∷ s) t (h, hs) k = (h, Lacks-append b s t hs k)

pub count_byte-append :
    (b : ℕ) (s t : Bytes) → count_byte b (s ++ t) ≡ count_byte b s + count_byte b t
unfolding count_byte
count_byte-append b [] t = omega arith
count_byte-append b (c ∷ s) t = ground (arith, count_byte-append b s t)

pub count_byte_of_Lacks : (b : ℕ) (s : Bytes) → Lacks b s → count_byte b s ≡ 0
unfolding count_byte
count_byte_of_Lacks b [] h = refl
count_byte_of_Lacks b (c ∷ s) h = ground (arith, count_byte_of_Lacks b s)

pub last_index_of_Lacks : (b : ℕ) (s : Bytes) → Lacks b s → last_index b s ≡ none
unfolding last_index
last_index_of_Lacks b [] h = refl
last_index_of_Lacks b (c ∷ s) h = ground (arith, last_index_of_Lacks b s)

pub last_index-append :
    (b : ℕ) (s t : Bytes) → Lacks b t → last_index b (s ++ b ∷ t) ≡ some (length s)
unfolding last_index
last_index-append b [] t h = ground (arith, last_index_of_Lacks b t)
last_index-append b (c ∷ s) t h = ground (arith, last_index-append b s t)

pub take-length-append {ℓ} : {A : Type ℓ} (s t : List A) → take (length s) (s ++ t) ≡ s
take-length-append [] t = refl
take-length-append (c ∷ s) t = ap (λ u. c ∷ u) (take-length-append s t)

pub drop-length-append {ℓ} : {A : Type ℓ} (s t : List A) → drop (length s) (s ++ t) ≡ t
drop-length-append [] t = refl
drop-length-append (c ∷ s) t = drop-length-append s t

pub drop-suc-append {ℓ} :
    {A : Type ℓ} (s : List A) (c : A) (t : List A) → drop (suc (length s)) (s ++ c ∷ t) ≡ t
drop-suc-append [] c t = refl
drop-suc-append (d ∷ s) c t = drop-suc-append s c t

-- The text behind the last `b`, or the whole text.
after_last : ℕ → Bytes → Bytes → Bytes
after_last b found [] = found
after_last b found (c ∷ s) = after_last b (if c == b then s else found) s

after_last_of_Lacks : (b : ℕ) (found s : Bytes) → Lacks b s → after_last b found s ≡ found
unfolding after_last
after_last_of_Lacks b found [] h = refl
after_last_of_Lacks b found (c ∷ s) (n, h) = ground (arith, after_last_of_Lacks b found s h)

after_last-append : (b : ℕ) (found s t : Bytes) → Lacks b t → after_last b found (s ++ b ∷ t) ≡ t
unfolding after_last
after_last-append b found [] t h = ground (arith, after_last_of_Lacks b t t h)
after_last-append b found (c ∷ s) t h =
    after_last-append b (if c == b then s ++ b ∷ t else found) s t h

-- What stands behind the last separator is determined by the whole.
pub last_part_unique :
    (b : ℕ) (s s' t t' : Bytes) → Lacks b t → Lacks b t' → s ++ b ∷ t ≡ s' ++ b ∷ t' → t ≡ t'
last_part_unique b s s' t t' h h' e =
    sym (after_last-append b [] s t h) ∙ ap (after_last b []) e ∙ after_last-append b [] s' t' h'
