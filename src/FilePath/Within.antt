-- ===== src/FilePath/Within.antt =====
-- When a relative path stays inside its base.
use agent_creance.Prelude.{
  ℕ, Bool, true, false, not, ◌&&◌, ◌||◌, List, [], ◌∷◌, ◌++◌, map, Option, none, some, Bytes, codes,
  bytes_eq, bytes_eq_iff, arith, All, Bool-cases, ◌==◌, ◌≡◌, ◌≢◌, refl, ◌↔◌, inl, inr,
}
use mathlib.Core.List.{reverse, reverse-cons, append_assoc}
use agent_creance.Strings.{has_prefix, contains_byte, split, split_from, join}
use agent_creance.FilePath.{
  is_abs, climb, clean_step, clean_from, elements, or_dot, climb_out, rel_elements, rel_text, rel,
}

-- An element that a clean absolute path may have
pub record IsName (e : Bytes) : Type 0 where
  pub filled : e ≢ []
  pub not_up : e ≢ codes ".."
  pub not_dot : e ≢ codes "."
  pub whole : contains_byte b'/' e ≡ false

pub contains_byte-append :
    (b : ℕ) (s t : Bytes)
    → contains_byte b s ≡ false
    → contains_byte b t ≡ false
    → contains_byte b (s ++ t) ≡ false
unfolding contains_byte
contains_byte-append b [] t h k = k
contains_byte-append b (c ∷ s) t h k = ground (arith, contains_byte-append b s t)

pub split_from-NoSlash :
    (cur s : Bytes)
    → contains_byte b'/' cur ≡ false
    → All (λ (e : Bytes). contains_byte b'/' e ≡ false) (split_from b'/' cur s)
unfolding split_from contains_byte
split_from-NoSlash cur [] h = (h, tt)
split_from-NoSlash cur (c ∷ s) h = elim (Bool-cases (c == b'/')) [
  | inl e ↦ rw e (h, split_from-NoSlash [] s refl)
  | inr e ↦ rw e (
      split_from-NoSlash (cur ++ c ∷ []) s
        (contains_byte-append b'/' cur (c ∷ []) h (ground arith)))
]

clean_step-IsName :
    (kept : List Bytes) (seg : Bytes)
    → contains_byte b'/' seg ≡ false
    → All IsName kept
    → All IsName (clean_step true kept seg)
unfolding clean_step
clean_step-IsName kept seg whole names =
    elim (Bool-cases (bytes_eq seg [] || bytes_eq seg (codes "."))) [
      | inl e ↦ rw e names
      | inr e ↦ rw e (elim (Bool-cases (bytes_eq seg (codes ".."))) [
        | inl up ↦ rw up (climbed kept names)
        | inr down ↦ rw down (
          record {
            filled = λ h. absurd (empty h e);
            not_up = λ h. absurd (climbs h down);
            not_dot = λ h. absurd (dot h e);
            whole = whole;
          },
          names,
        )
      ])
    ]
  where
    empty : seg ≡ [] → (bytes_eq seg [] || bytes_eq seg (codes ".")) ≡ false → ⊥
    empty h k = ground (arith, bytes_eq_iff seg [])

    dot : seg ≡ codes "." → (bytes_eq seg [] || bytes_eq seg (codes ".")) ≡ false → ⊥
    dot h k = ground (arith, bytes_eq_iff seg (codes "."))

    climbs : seg ≡ codes ".." → bytes_eq seg (codes "..") ≡ false → ⊥
    climbs h k = ground (arith, bytes_eq_iff seg (codes ".."))

    climbed : (kept : List Bytes) → All IsName kept → All IsName (climb true kept)
    climbed [] n = tt
    climbed (top ∷ kept) (n, ns) = elim (Bool-cases (bytes_eq top (codes ".."))) [
      | inl e ↦ absurd (n.not_up ((bytes_eq_iff top (codes "..")).0 e))
      | inr e ↦ rw e ns
    ]

clean_from-IsName :
    (kept segs : List Bytes)
    → All (λ (e : Bytes). contains_byte b'/' e ≡ false) segs
    → All IsName kept
    → All IsName (clean_from true kept segs)
unfolding clean_from
clean_from-IsName kept [] whole names = names
clean_from-IsName kept (seg ∷ segs) (w, ws) names =
    clean_from-IsName (clean_step true kept seg) segs ws (clean_step-IsName kept seg w names)

names_append : (xs ys : List Bytes) → All IsName xs → All IsName ys → All IsName (xs ++ ys)
names_append [] ys h k = k
names_append (x ∷ xs) ys (p, h) k = (p, names_append xs ys h k)

names_reverse : (xs : List Bytes) → All IsName xs → All IsName (reverse xs)
names_reverse [] h = tt
names_reverse (x ∷ xs) (p, h) =
    rw (reverse-cons x xs) (names_append (reverse xs) (x ∷ []) (names_reverse xs h) (p, tt))

pub elements-IsName : (p : Bytes) → is_abs p ≡ true → All IsName (elements p)
unfolding elements split contains_byte
elements-IsName p h = rw h (
    names_reverse _ (clean_from-IsName [] (split_from b'/' [] p) (split_from-NoSlash [] p refl) tt))

-- The test of `pathWithin` on what `filepath.Rel` returns
abbrev pub stays_within : Option Bytes → Bool
stays_within none = false
stays_within (some r) =
    bytes_eq r (codes ".") || not (bytes_eq r (codes "..")) && not (has_prefix r (codes "../"))

two_dots : (a b : ℕ) → IsName (a ∷ b ∷ []) → bytes_eq (a ∷ b ∷ []) (codes "..") ≡ false
two_dots a b n = elim (Bool-cases (bytes_eq (a ∷ b ∷ []) (codes ".."))) [
  | inl e ↦ absurd (n.not_up ((bytes_eq_iff (a ∷ b ∷ []) (codes "..")).0 e))
  | inr e ↦ e
]

stays_plain : (n : Bytes) → IsName n → stays_within (some (or_dot n)) ≡ true
unfolding bytes_eq has_prefix contains_byte
stays_plain [] n = absurd (n.filled refl)
stays_plain (a ∷ []) n = ground arith
stays_plain (a ∷ b ∷ []) n = ground (arith, two_dots a b n)
stays_plain (a ∷ b ∷ c ∷ s) n = ground (arith, n.whole)

stays_more : (n t : Bytes) → IsName n → stays_within (some (or_dot (n ++ b'/' ∷ t))) ≡ true
unfolding bytes_eq has_prefix contains_byte
stays_more [] t n = absurd (n.filled refl)
stays_more (a ∷ []) t n = ground arith
stays_more (a ∷ b ∷ []) t n = ground (arith, two_dots a b n)
stays_more (a ∷ b ∷ c ∷ s) t n = ground (arith, n.whole)

-- A way that starts with a name stays inside.
stays_of_names : (es : List Bytes) → All IsName es → stays_within (rel_text (some es)) ≡ true
unfolding join bytes_eq
stays_of_names [] h = refl
stays_of_names (n ∷ []) (h, _) = stays_plain n h
stays_of_names (n ∷ t ∷ rest) (h, _) =
    rw (append_assoc n (codes "/") (join (codes "/") (t ∷ rest)))
      (stays_more n (join (codes "/") (t ∷ rest)) h)

-- A way that climbs leaves.
climbs_out :
    (b : Bytes) (base target : List Bytes)
    → stays_within (rel_text (climb_out b base target)) ≡ false
unfolding join bytes_eq has_prefix
climbs_out b base target = elim (Bool-cases (bytes_eq b (codes ".."))) [
  | inl e ↦ rw e refl
  | inr e ↦ rw e (leaves (map (λ _. codes "..") base ++ target))
]
  where
    leaves : (rest : List Bytes) → stays_within (rel_text (some (codes ".." ∷ rest))) ≡ false
    leaves [] = refl
    leaves (r ∷ rest) = refl

rel_elements_iff :
    (base target : List Bytes)
    → All IsName target
    → (stays_within (rel_text (rel_elements base target)) ≡ true)
      ↔ ((rest : List Bytes) × (target ≡ base ++ rest))
unfolding rel_elements
rel_elements_iff [] target names = (λ _. (target, refl), λ _. stays_of_names target names)
rel_elements_iff (b ∷ base) [] names =
    (λ h. absurd (clash (climbs_out b base []) h), λ (rest, e). cc)
  where
    clash : {x : Bool} → x ≡ false → x ≡ true → ⊥
    clash h k = cc
rel_elements_iff (b ∷ base) (t ∷ target) (n, names) = elim (Bool-cases (bytes_eq b t)) [
  | inl e ↦ rw e (
    λ h.
        let (rest, more) = (rel_elements_iff base target names).0 h in
        (rest, joined rest ((bytes_eq_iff b t).0 e) more),
    λ (rest, more). (rel_elements_iff base target names).1 (rest, tails rest more),
  )
  | inr e ↦ rw e (
    λ h. absurd (clash (climbs_out b base (t ∷ target)) h),
    λ (rest, more). absurd (differ e ((bytes_eq_iff b t).1 (heads rest more))),
  )
]
  where
    clash : {x : Bool} → x ≡ false → x ≡ true → ⊥
    clash h k = cc

    joined : (rest : List Bytes) → b ≡ t → target ≡ base ++ rest → t ∷ target ≡ b ∷ (base ++ rest)
    joined rest h k = cc

    tails : (rest : List Bytes) → t ∷ target ≡ b ∷ (base ++ rest) → target ≡ base ++ rest
    tails rest h = cc

    heads : (rest : List Bytes) → t ∷ target ≡ b ∷ (base ++ rest) → b ≡ t
    heads rest h = cc

    differ : bytes_eq b t ≡ false → bytes_eq b t ≡ true → ⊥
    differ h k = cc

-- Between absolute paths, the relative path stays inside exactly if the elements of the base are
-- the first elements of the target.
pub stays_within_iff :
    (base target : Bytes)
    → is_abs base ≡ true
    → is_abs target ≡ true
    → (stays_within (rel base target) ≡ true)
      ↔ ((rest : List Bytes) × (elements target ≡ elements base ++ rest))
unfolding rel
stays_within_iff base target b t =
    rw (b, t) (rel_elements_iff (elements base) (elements target) (elements-IsName target t))
